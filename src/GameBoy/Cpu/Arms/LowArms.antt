-- ===== src/GameBoy/Cpu/Arms/LowArms.antt =====
-- The table `low` keeps the processor good.
use gb_os.Base.{arith}
use gb_os.GameBoy.Register.{bc, de}
use gb_os.GameBoy.Register.Flags.{set_flag-IsValid}
use gb_os.GameBoy.Register.Fields
use gb_os.GameBoy.Register.Pairs.{set_bc-IsValid, set_de-IsValid}
use gb_os.GameBoy.Alu.Valid.{
  alu_add16-IsValid, alu_inc-IsByteResult, alu_dec-IsByteResult, alu_rlc-IsByteResult,
  alu_rrc-IsByteResult, alu_rl-IsByteResult, alu_rr-IsByteResult,
}
use gb_os.GameBoy.Cpu.{Bus}
use gb_os.GameBoy.Cpu.Opcodes.Low.{low}
use gb_os.GameBoy.Cpu.Sound.{IsSound}
use gb_os.GameBoy.Cpu.Sound.Actions.{
  regs-Keeps, read_at-Keeps, write_at-Keeps, byte_to-Keeps, word_to-Keeps, cpu_jr-Keeps,
}
use gb_os.GameBoy.Cpu.Sound.Others.{stop-Keeps, store_sp-Keeps}
use gb_os.GameBoy.Cpu.Arms.{AllArms, ◌&◌, a-IsValid, b-IsValid, c-IsValid, d-IsValid, e-IsValid}

module _ (bus : Bus) (Good : bus.State → Type 0) (sound : IsSound bus Good) where
  pub low-AllArms : AllArms bus Good (low bus)
  unfolding low
  low-AllArms =
      regs-Keeps bus Good sound 4 _ (omega arith) (λ r h. h)
      & word_to-Keeps bus Good sound 12 _ (omega arith) (λ r v h lt. set_bc-IsValid v h)
      & write_at-Keeps bus Good sound 8 bc _ _ (omega arith) (λ r h. h.a_byte) (λ r h. h)
      & regs-Keeps bus Good sound 8 _ (omega arith) (λ r h. set_bc-IsValid _ h)
      & regs-Keeps bus Good sound 4 _ (omega arith)
          (λ r h. b-IsValid _ (alu_inc-IsByteResult r r.b h h.b_byte))
      & regs-Keeps bus Good sound 4 _ (omega arith)
          (λ r h. b-IsValid _ (alu_dec-IsByteResult r r.b h h.b_byte))
      & byte_to-Keeps bus Good sound 8 _ (omega arith) (λ r v h lt. Fields.set_b-IsValid v lt h)
      & regs-Keeps bus Good sound 4 _ (omega arith)
          (λ r h. set_flag-IsValid _ _ (a-IsValid _ (alu_rlc-IsByteResult r r.a h h.a_byte)))
      & store_sp-Keeps bus Good sound
      & regs-Keeps bus Good sound 8 _ (omega arith) (λ r h. alu_add16-IsValid r _ h)
      & read_at-Keeps bus Good sound 8 bc _ (omega arith) (λ r v h lt. Fields.set_a-IsValid v lt h)
      & regs-Keeps bus Good sound 8 _ (omega arith) (λ r h. set_bc-IsValid _ h)
      & regs-Keeps bus Good sound 4 _ (omega arith)
          (λ r h. c-IsValid _ (alu_inc-IsByteResult r r.c h h.c_byte))
      & regs-Keeps bus Good sound 4 _ (omega arith)
          (λ r h. c-IsValid _ (alu_dec-IsByteResult r r.c h h.c_byte))
      & byte_to-Keeps bus Good sound 8 _ (omega arith) (λ r v h lt. Fields.set_c-IsValid v lt h)
      & regs-Keeps bus Good sound 4 _ (omega arith)
          (λ r h. set_flag-IsValid _ _ (a-IsValid _ (alu_rrc-IsByteResult r r.a h h.a_byte)))
      & stop-Keeps bus Good sound
      & word_to-Keeps bus Good sound 12 _ (omega arith) (λ r v h lt. set_de-IsValid v h)
      & write_at-Keeps bus Good sound 8 de _ _ (omega arith) (λ r h. h.a_byte) (λ r h. h)
      & regs-Keeps bus Good sound 8 _ (omega arith) (λ r h. set_de-IsValid _ h)
      & regs-Keeps bus Good sound 4 _ (omega arith)
          (λ r h. d-IsValid _ (alu_inc-IsByteResult r r.d h h.d_byte))
      & regs-Keeps bus Good sound 4 _ (omega arith)
          (λ r h. d-IsValid _ (alu_dec-IsByteResult r r.d h h.d_byte))
      & byte_to-Keeps bus Good sound 8 _ (omega arith) (λ r v h lt. Fields.set_d-IsValid v lt h)
      & regs-Keeps bus Good sound 4 _ (omega arith)
          (λ r h. set_flag-IsValid _ _ (a-IsValid _ (alu_rl-IsByteResult r r.a h h.a_byte)))
      & cpu_jr-Keeps bus Good sound 12 (omega arith)
      & regs-Keeps bus Good sound 8 _ (omega arith) (λ r h. alu_add16-IsValid r _ h)
      & read_at-Keeps bus Good sound 8 de _ (omega arith) (λ r v h lt. Fields.set_a-IsValid v lt h)
      & regs-Keeps bus Good sound 8 _ (omega arith) (λ r h. set_de-IsValid _ h)
      & regs-Keeps bus Good sound 4 _ (omega arith)
          (λ r h. e-IsValid _ (alu_inc-IsByteResult r r.e h h.e_byte))
      & regs-Keeps bus Good sound 4 _ (omega arith)
          (λ r h. e-IsValid _ (alu_dec-IsByteResult r r.e h h.e_byte))
      & byte_to-Keeps bus Good sound 8 _ (omega arith) (λ r v h lt. Fields.set_e-IsValid v lt h)
      & regs-Keeps bus Good sound 4 _ (omega arith)
          (λ r h. set_flag-IsValid _ _ (a-IsValid _ (alu_rr-IsByteResult r r.a h h.a_byte)))
      & tt
