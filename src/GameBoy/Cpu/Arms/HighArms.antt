-- ===== src/GameBoy/Cpu/Arms/HighArms.antt =====
-- The table `high` keeps the processor good.
use gb_os.Base.{bit_or, arith}
use gb_os.GameBoy.Register.{hl, af}
use gb_os.GameBoy.Register.Fields
use gb_os.GameBoy.Register.Pairs.{set_af-IsValid, set_hl-IsValid, pairs-lt}
use gb_os.GameBoy.Alu.Valid.{alu_and-IsValid, alu_or-IsValid, alu_xor-IsValid, alu_cp-IsValid}
use gb_os.GameBoy.Cpu.{Bus}
use gb_os.GameBoy.Cpu.Opcodes.High.{high}
use gb_os.GameBoy.Cpu.Sound.{IsSound}
use gb_os.GameBoy.Cpu.Sound.Actions.{
  u16-lt, offset_flags-IsValid, regs-Keeps, read_at-Keeps, write_at-Keeps, byte_to-Keeps,
  push_of-Keeps, pop_to-Keeps, rst-Keeps,
}
use gb_os.GameBoy.Cpu.Sound.Others.{
  di-Keeps, ei-Keeps, store_word_addr-Keeps, store_high-Keeps, load_high-Keeps,
  load_word_addr-Keeps,
}
use gb_os.GameBoy.Cpu.Arms.{AllArms, ◌&◌}

module _ (bus : Bus) (Good : bus.State → Type 0) (sound : IsSound bus Good) where
  pub high-AllArms : AllArms bus Good (high bus)
  unfolding high
  high-AllArms =
      store_high-Keeps bus Good sound
      & pop_to-Keeps bus Good sound 12 _ (omega arith) (λ r v h lt. set_hl-IsValid v h)
      & write_at-Keeps bus Good sound 8 (λ r. bit_or 0xFF00 r.c) _ _ (omega arith) (λ r h. h.a_byte)
          (λ r h. h)
      & push_of-Keeps bus Good sound 16 hl _ (omega arith) (λ r h. (pairs-lt h).3) (λ r h. h)
      & byte_to-Keeps bus Good sound 8 _ (omega arith) (λ r v h lt. alu_and-IsValid r v h lt)
      & rst-Keeps bus Good sound 0x20 (omega arith)
      & byte_to-Keeps bus Good sound 16 _ (omega arith)
          (λ r v h lt. Fields.set_sp-IsValid _ (u16-lt _) (offset_flags-IsValid r _ h))
      & regs-Keeps bus Good sound 4 _ (omega arith)
          (λ r h. Fields.set_pc-IsValid _ (pairs-lt h).3 h)
      & store_word_addr-Keeps bus Good sound
      & byte_to-Keeps bus Good sound 8 _ (omega arith) (λ r v h lt. alu_xor-IsValid r v h lt)
      & rst-Keeps bus Good sound 0x28 (omega arith)
      & load_high-Keeps bus Good sound
      & pop_to-Keeps bus Good sound 12 _ (omega arith) (λ r v h lt. set_af-IsValid v h)
      & read_at-Keeps bus Good sound 8 (λ r. bit_or 0xFF00 r.c) _ (omega arith)
          (λ r v h lt. Fields.set_a-IsValid v lt h)
      & di-Keeps bus Good sound
      & push_of-Keeps bus Good sound 16 af _ (omega arith) (λ r h. (pairs-lt h).0) (λ r h. h)
      & byte_to-Keeps bus Good sound 8 _ (omega arith) (λ r v h lt. alu_or-IsValid r v h lt)
      & rst-Keeps bus Good sound 0x30 (omega arith)
      & byte_to-Keeps bus Good sound 12 _ (omega arith)
          (λ r v h lt. set_hl-IsValid _ (offset_flags-IsValid r _ h))
      & regs-Keeps bus Good sound 8 _ (omega arith)
          (λ r h. Fields.set_sp-IsValid _ (pairs-lt h).3 h)
      & load_word_addr-Keeps bus Good sound
      & ei-Keeps bus Good sound
      & byte_to-Keeps bus Good sound 8 _ (omega arith) (λ r v h lt. alu_cp-IsValid r v h lt)
      & rst-Keeps bus Good sound 0x38 (omega arith)
      & tt
