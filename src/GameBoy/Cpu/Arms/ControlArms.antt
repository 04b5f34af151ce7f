-- ===== src/GameBoy/Cpu/Arms/ControlArms.antt =====
-- The table `control` keeps the processor good.
use gb_os.Base.{true, false, arith}
use gb_os.GameBoy.Register.{bc, de}
use gb_os.GameBoy.Register.Fields
use gb_os.GameBoy.Register.Pairs.{set_bc-IsValid, set_de-IsValid, pairs-lt}
use gb_os.GameBoy.Alu.Valid.{alu_add-IsValid, alu_sub-IsValid}
use gb_os.GameBoy.Cpu.{Bus}
use gb_os.GameBoy.Cpu.Opcodes.Control.{control}
use gb_os.GameBoy.Cpu.Sound.{IsSound}
use gb_os.GameBoy.Cpu.Sound.Actions.{
  regs-Keeps, byte_to-Keeps, word_to-Keeps, push_of-Keeps, pop_to-Keeps, when-Keeps, skip-Keeps,
  call-Keeps, rst-Keeps,
}
use gb_os.GameBoy.Cpu.Sound.Others.{reti-Keeps, execute_cb-Keeps}
use gb_os.GameBoy.Cpu.Arms.{AllArms, ◌&◌}

module _ (bus : Bus) (Good : bus.State → Type 0) (sound : IsSound bus Good) where
  pub control-AllArms : AllArms bus Good (control bus)
  unfolding control
  control-AllArms =
      when-Keeps bus Good sound _ _ _
        (pop_to-Keeps bus Good sound 20 _ (omega arith) (λ r v h lt. Fields.set_pc-IsValid v lt h))
        (regs-Keeps bus Good sound 8 _ (omega arith) (λ r h. h))
      & pop_to-Keeps bus Good sound 12 _ (omega arith) (λ r v h lt. set_bc-IsValid v h)
      & when-Keeps bus Good sound _ _ _
          (word_to-Keeps bus Good sound 16 _ (omega arith)
            (λ r v h lt. Fields.set_pc-IsValid v lt h))
          (skip-Keeps bus Good sound 12 2 (omega arith))
      & word_to-Keeps bus Good sound 16 _ (omega arith) (λ r v h lt. Fields.set_pc-IsValid v lt h)
      & when-Keeps bus Good sound _ _ _ (call-Keeps bus Good sound)
          (skip-Keeps bus Good sound 12 2 (omega arith))
      & push_of-Keeps bus Good sound 16 bc _ (omega arith) (λ r h. (pairs-lt h).1) (λ r h. h)
      & byte_to-Keeps bus Good sound 8 _ (omega arith) (λ r v h lt. alu_add-IsValid r v h lt false)
      & rst-Keeps bus Good sound 0x00 (omega arith)
      & when-Keeps bus Good sound _ _ _
          (pop_to-Keeps bus Good sound 20 _ (omega arith)
            (λ r v h lt. Fields.set_pc-IsValid v lt h))
          (regs-Keeps bus Good sound 8 _ (omega arith) (λ r h. h))
      & pop_to-Keeps bus Good sound 16 _ (omega arith) (λ r v h lt. Fields.set_pc-IsValid v lt h)
      & when-Keeps bus Good sound _ _ _
          (word_to-Keeps bus Good sound 16 _ (omega arith)
            (λ r v h lt. Fields.set_pc-IsValid v lt h))
          (skip-Keeps bus Good sound 12 2 (omega arith))
      & execute_cb-Keeps bus Good sound
      & when-Keeps bus Good sound _ _ _ (call-Keeps bus Good sound)
          (skip-Keeps bus Good sound 12 2 (omega arith))
      & call-Keeps bus Good sound
      & byte_to-Keeps bus Good sound 8 _ (omega arith) (λ r v h lt. alu_add-IsValid r v h lt true)
      & rst-Keeps bus Good sound 0x08 (omega arith)
      & when-Keeps bus Good sound _ _ _
          (pop_to-Keeps bus Good sound 20 _ (omega arith)
            (λ r v h lt. Fields.set_pc-IsValid v lt h))
          (regs-Keeps bus Good sound 8 _ (omega arith) (λ r h. h))
      & pop_to-Keeps bus Good sound 12 _ (omega arith) (λ r v h lt. set_de-IsValid v h)
      & when-Keeps bus Good sound _ _ _
          (word_to-Keeps bus Good sound 16 _ (omega arith)
            (λ r v h lt. Fields.set_pc-IsValid v lt h))
          (skip-Keeps bus Good sound 12 2 (omega arith))
      & when-Keeps bus Good sound _ _ _ (call-Keeps bus Good sound)
          (skip-Keeps bus Good sound 12 2 (omega arith))
      & push_of-Keeps bus Good sound 16 de _ (omega arith) (λ r h. (pairs-lt h).2) (λ r h. h)
      & byte_to-Keeps bus Good sound 8 _ (omega arith) (λ r v h lt. alu_sub-IsValid r v h lt false)
      & rst-Keeps bus Good sound 0x10 (omega arith)
      & when-Keeps bus Good sound _ _ _
          (pop_to-Keeps bus Good sound 20 _ (omega arith)
            (λ r v h lt. Fields.set_pc-IsValid v lt h))
          (regs-Keeps bus Good sound 8 _ (omega arith) (λ r h. h))
      & reti-Keeps bus Good sound
      & when-Keeps bus Good sound _ _ _
          (word_to-Keeps bus Good sound 16 _ (omega arith)
            (λ r v h lt. Fields.set_pc-IsValid v lt h))
          (skip-Keeps bus Good sound 12 2 (omega arith))
      & when-Keeps bus Good sound _ _ _ (call-Keeps bus Good sound)
          (skip-Keeps bus Good sound 12 2 (omega arith))
      & byte_to-Keeps bus Good sound 8 _ (omega arith) (λ r v h lt. alu_sub-IsValid r v h lt true)
      & rst-Keeps bus Good sound 0x18 (omega arith)
      & tt
