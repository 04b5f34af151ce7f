-- ===== src/GameBoy/Cpu/Sound/Step.antt =====
-- Every instruction's ticks, and that it keeps registers and words in range.
use gb_os.Base.{ℕ}
use gb_os.Base.{ltb, if_both}
use gb_os.GameBoy.Cpu.{Bus, Cpu, fetchbyte}
use gb_os.GameBoy.Cpu.Execute.{arms_for, execute}
use gb_os.GameBoy.Cpu.Sound.{IsSound, IsGood, fetchbyte-IsGood}
use gb_os.GameBoy.Cpu.Sound.Actions.{IsStep}
use gb_os.GameBoy.Cpu.Arms.{AllArms, find_arm-Keeps}
use gb_os.GameBoy.Cpu.Arms.LowArms.{low-AllArms}
use gb_os.GameBoy.Cpu.Arms.MiddleArms.{middle-AllArms}
use gb_os.GameBoy.Cpu.Arms.LoadArms.{loads-AllArms}
use gb_os.GameBoy.Cpu.Arms.ArithmeticArms.{arithmetic-AllArms}
use gb_os.GameBoy.Cpu.Arms.ControlArms.{control-AllArms}
use gb_os.GameBoy.Cpu.Arms.HighArms.{high-AllArms}

module _ (bus : Bus) (Good : bus.State → Type 0) (sound : IsSound bus Good) where
  arms_for-AllArms : (opcode : ℕ) → AllArms bus Good (arms_for bus opcode)
  unfolding arms_for
  arms_for-AllArms opcode =
      let P = AllArms bus Good in
      if_both P (ltb opcode 0x20) _ _ (low-AllArms bus Good sound) (
        if_both P (ltb opcode 0x40) _ _ (middle-AllArms bus Good sound) (
          if_both P (ltb opcode 0x80) _ _ (loads-AllArms bus Good sound) (
            if_both P (ltb opcode 0xC0) _ _ (arithmetic-AllArms bus Good sound) (
              if_both P (ltb opcode 0xE0) _ _ (control-AllArms bus Good sound)
                (high-AllArms bus Good sound)))))

  -- On a sound bus, every opcode takes 4 to 24 ticks, in steps of four, and leaves the registers in
  -- range and the bus good, where they were so before.
  pub execute-IsStep : (c : Cpu bus) → IsGood bus Good c → IsStep bus Good (execute bus c)
  unfolding execute
  execute-IsStep c h =
      let opcode = (fetchbyte bus c).0 in
      find_arm-Keeps bus Good (arms_for bus opcode) (arms_for-AllArms opcode) opcode
        (fetchbyte bus c).1 (fetchbyte-IsGood bus Good sound c h).1
