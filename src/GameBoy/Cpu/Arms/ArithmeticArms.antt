-- ===== src/GameBoy/Cpu/Arms/ArithmeticArms.antt =====
-- The table `arithmetic` keeps the processor good.
use gb_os.Base.{true, false, arith}
use gb_os.GameBoy.Register.{hl}
use gb_os.GameBoy.Alu.Valid.{
  alu_add-IsValid, alu_sub-IsValid, alu_and-IsValid, alu_or-IsValid, alu_xor-IsValid,
  alu_cp-IsValid,
}
use gb_os.GameBoy.Cpu.{Bus}
use gb_os.GameBoy.Cpu.Opcodes.Arithmetic.{arithmetic}
use gb_os.GameBoy.Cpu.Sound.{IsSound}
use gb_os.GameBoy.Cpu.Sound.Actions.{regs-Keeps, read_at-Keeps}
use gb_os.GameBoy.Cpu.Arms.{AllArms, ◌&◌}

module _ (bus : Bus) (Good : bus.State → Type 0) (sound : IsSound bus Good) where
  pub arithmetic-AllArms : AllArms bus Good (arithmetic bus)
  unfolding arithmetic
  arithmetic-AllArms =
      regs-Keeps bus Good sound 4 _ (omega arith) (λ r h. alu_add-IsValid r r.b h h.b_byte false)
      & regs-Keeps bus Good sound 4 _ (omega arith) (λ r h. alu_add-IsValid r r.c h h.c_byte false)
      & regs-Keeps bus Good sound 4 _ (omega arith) (λ r h. alu_add-IsValid r r.d h h.d_byte false)
      & regs-Keeps bus Good sound 4 _ (omega arith) (λ r h. alu_add-IsValid r r.e h h.e_byte false)
      & regs-Keeps bus Good sound 4 _ (omega arith) (λ r h. alu_add-IsValid r r.h h h.h_byte false)
      & regs-Keeps bus Good sound 4 _ (omega arith) (λ r h. alu_add-IsValid r r.l h h.l_byte false)
      & read_at-Keeps bus Good sound 8 hl _ (omega arith)
          (λ r v h lt. alu_add-IsValid r v h lt false)
      & regs-Keeps bus Good sound 4 _ (omega arith) (λ r h. alu_add-IsValid r r.a h h.a_byte false)
      & regs-Keeps bus Good sound 4 _ (omega arith) (λ r h. alu_add-IsValid r r.b h h.b_byte true)
      & regs-Keeps bus Good sound 4 _ (omega arith) (λ r h. alu_add-IsValid r r.c h h.c_byte true)
      & regs-Keeps bus Good sound 4 _ (omega arith) (λ r h. alu_add-IsValid r r.d h h.d_byte true)
      & regs-Keeps bus Good sound 4 _ (omega arith) (λ r h. alu_add-IsValid r r.e h h.e_byte true)
      & regs-Keeps bus Good sound 4 _ (omega arith) (λ r h. alu_add-IsValid r r.h h h.h_byte true)
      & regs-Keeps bus Good sound 4 _ (omega arith) (λ r h. alu_add-IsValid r r.l h h.l_byte true)
      & read_at-Keeps bus Good sound 8 hl _ (omega arith)
          (λ r v h lt. alu_add-IsValid r v h lt true)
      & regs-Keeps bus Good sound 4 _ (omega arith) (λ r h. alu_add-IsValid r r.a h h.a_byte true)
      & regs-Keeps bus Good sound 4 _ (omega arith) (λ r h. alu_sub-IsValid r r.b h h.b_byte false)
      & regs-Keeps bus Good sound 4 _ (omega arith) (λ r h. alu_sub-IsValid r r.c h h.c_byte false)
      & regs-Keeps bus Good sound 4 _ (omega arith) (λ r h. alu_sub-IsValid r r.d h h.d_byte false)
      & regs-Keeps bus Good sound 4 _ (omega arith) (λ r h. alu_sub-IsValid r r.e h h.e_byte false)
      & regs-Keeps bus Good sound 4 _ (omega arith) (λ r h. alu_sub-IsValid r r.h h h.h_byte false)
      & regs-Keeps bus Good sound 4 _ (omega arith) (λ r h. alu_sub-IsValid r r.l h h.l_byte false)
      & read_at-Keeps bus Good sound 8 hl _ (omega arith)
          (λ r v h lt. alu_sub-IsValid r v h lt false)
      & regs-Keeps bus Good sound 4 _ (omega arith) (λ r h. alu_sub-IsValid r r.a h h.a_byte false)
      & regs-Keeps bus Good sound 4 _ (omega arith) (λ r h. alu_sub-IsValid r r.b h h.b_byte true)
      & regs-Keeps bus Good sound 4 _ (omega arith) (λ r h. alu_sub-IsValid r r.c h h.c_byte true)
      & regs-Keeps bus Good sound 4 _ (omega arith) (λ r h. alu_sub-IsValid r r.d h h.d_byte true)
      & regs-Keeps bus Good sound 4 _ (omega arith) (λ r h. alu_sub-IsValid r r.e h h.e_byte true)
      & regs-Keeps bus Good sound 4 _ (omega arith) (λ r h. alu_sub-IsValid r r.h h h.h_byte true)
      & regs-Keeps bus Good sound 4 _ (omega arith) (λ r h. alu_sub-IsValid r r.l h h.l_byte true)
      & read_at-Keeps bus Good sound 8 hl _ (omega arith)
          (λ r v h lt. alu_sub-IsValid r v h lt true)
      & regs-Keeps bus Good sound 4 _ (omega arith) (λ r h. alu_sub-IsValid r r.a h h.a_byte true)
      & regs-Keeps bus Good sound 4 _ (omega arith) (λ r h. alu_and-IsValid r r.b h h.b_byte)
      & regs-Keeps bus Good sound 4 _ (omega arith) (λ r h. alu_and-IsValid r r.c h h.c_byte)
      & regs-Keeps bus Good sound 4 _ (omega arith) (λ r h. alu_and-IsValid r r.d h h.d_byte)
      & regs-Keeps bus Good sound 4 _ (omega arith) (λ r h. alu_and-IsValid r r.e h h.e_byte)
      & regs-Keeps bus Good sound 4 _ (omega arith) (λ r h. alu_and-IsValid r r.h h h.h_byte)
      & regs-Keeps bus Good sound 4 _ (omega arith) (λ r h. alu_and-IsValid r r.l h h.l_byte)
      & read_at-Keeps bus Good sound 8 hl _ (omega arith) (λ r v h lt. alu_and-IsValid r v h lt)
      & regs-Keeps bus Good sound 4 _ (omega arith) (λ r h. alu_and-IsValid r r.a h h.a_byte)
      & regs-Keeps bus Good sound 4 _ (omega arith) (λ r h. alu_xor-IsValid r r.b h h.b_byte)
      & regs-Keeps bus Good sound 4 _ (omega arith) (λ r h. alu_xor-IsValid r r.c h h.c_byte)
      & regs-Keeps bus Good sound 4 _ (omega arith) (λ r h. alu_xor-IsValid r r.d h h.d_byte)
      & regs-Keeps bus Good sound 4 _ (omega arith) (λ r h. alu_xor-IsValid r r.e h h.e_byte)
      & regs-Keeps bus Good sound 4 _ (omega arith) (λ r h. alu_xor-IsValid r r.h h h.h_byte)
      & regs-Keeps bus Good sound 4 _ (omega arith) (λ r h. alu_xor-IsValid r r.l h h.l_byte)
      & read_at-Keeps bus Good sound 8 hl _ (omega arith) (λ r v h lt. alu_xor-IsValid r v h lt)
      & regs-Keeps bus Good sound 4 _ (omega arith) (λ r h. alu_xor-IsValid r r.a h h.a_byte)
      & regs-Keeps bus Good sound 4 _ (omega arith) (λ r h. alu_or-IsValid r r.b h h.b_byte)
      & regs-Keeps bus Good sound 4 _ (omega arith) (λ r h. alu_or-IsValid r r.c h h.c_byte)
      & regs-Keeps bus Good sound 4 _ (omega arith) (λ r h. alu_or-IsValid r r.d h h.d_byte)
      & regs-Keeps bus Good sound 4 _ (omega arith) (λ r h. alu_or-IsValid r r.e h h.e_byte)
      & regs-Keeps bus Good sound 4 _ (omega arith) (λ r h. alu_or-IsValid r r.h h h.h_byte)
      & regs-Keeps bus Good sound 4 _ (omega arith) (λ r h. alu_or-IsValid r r.l h h.l_byte)
      & read_at-Keeps bus Good sound 8 hl _ (omega arith) (λ r v h lt. alu_or-IsValid r v h lt)
      & regs-Keeps bus Good sound 4 _ (omega arith) (λ r h. alu_or-IsValid r r.a h h.a_byte)
      & regs-Keeps bus Good sound 4 _ (omega arith) (λ r h. alu_cp-IsValid r r.b h h.b_byte)
      & regs-Keeps bus Good sound 4 _ (omega arith) (λ r h. alu_cp-IsValid r r.c h h.c_byte)
      & regs-Keeps bus Good sound 4 _ (omega arith) (λ r h. alu_cp-IsValid r r.d h h.d_byte)
      & regs-Keeps bus Good sound 4 _ (omega arith) (λ r h. alu_cp-IsValid r r.e h h.e_byte)
      & regs-Keeps bus Good sound 4 _ (omega arith) (λ r h. alu_cp-IsValid r r.h h h.h_byte)
      & regs-Keeps bus Good sound 4 _ (omega arith) (λ r h. alu_cp-IsValid r r.l h h.l_byte)
      & read_at-Keeps bus Good sound 8 hl _ (omega arith) (λ r v h lt. alu_cp-IsValid r v h lt)
      & regs-Keeps bus Good sound 4 _ (omega arith) (λ r h. alu_cp-IsValid r r.a h h.a_byte)
      & tt
