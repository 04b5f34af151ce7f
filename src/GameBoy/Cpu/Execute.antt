-- ===== src/GameBoy/Cpu/Execute.antt =====
-- `execute` and `do_cycle`, kernel/src/gameboy/cpu.rs.
pub mod Decode
pub mod Halted
use gb_os.Base.{ℕ, List}
use gb_os.Base.{ltb, ◌==◌, if◌then◌else◌}
use gb_os.GameBoy.Cpu.{Bus, Cpu, fetchbyte, update_ime, handle_interrupts}
use gb_os.GameBoy.Cpu.Action.{Action, find_arm}
use gb_os.GameBoy.Cpu.Opcodes.Low.{low}
use gb_os.GameBoy.Cpu.Opcodes.Middle.{middle}
use gb_os.GameBoy.Cpu.Opcodes.Loads.{loads}
use gb_os.GameBoy.Cpu.Opcodes.Arithmetic.{arithmetic}
use gb_os.GameBoy.Cpu.Opcodes.Control.{control}
use gb_os.GameBoy.Cpu.Opcodes.High.{high}

module _ (bus : Bus) where
  -- The arms stand in six tables, each for a range of opcodes.
  unfoldable pub arms_for : ℕ → List (ℕ × Action bus)
  arms_for opcode =
      if ltb opcode 0x20
      then low bus
      else if ltb opcode 0x40
      then middle bus
      else if ltb opcode 0x80
      then loads bus
      else if ltb opcode 0xC0
      then arithmetic bus
      else if ltb opcode 0xE0
      then control bus
      else high bus

  unfoldable pub execute : Cpu bus → ℕ × Cpu bus
  execute c = let (opcode, c') = fetchbyte bus c in find_arm bus (arms_for opcode) opcode c'

  -- One step: an interrupt, a halted pause or an instruction, then the hardware for its ticks.
  unfoldable pub do_cycle : Cpu bus → ℕ × Cpu bus
  do_cycle c =
      let ready = update_ime bus c in
      let (taken, c1) = handle_interrupts bus ready in
      let (ran, c2) = if c1.halted then (4, c1) else execute c1 in
      if taken == 0
      then (let (ticks, s) = bus.do_cycle c2.mmu ran in (ticks, record c2 { mmu = s }))
      else (let (ticks, s) = bus.do_cycle c1.mmu taken in (ticks, record c1 { mmu = s }))
