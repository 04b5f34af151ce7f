-- ===== src/GameBoy/Cpu/Opcodes/Arithmetic.antt =====
-- Opcodes 0x80 to 0xBF of `execute`, kernel/src/gameboy/cpu.rs.
use gb_os.Base.{ℕ, List, [], ◌∷◌, true, false}
use gb_os.GameBoy.Register.{hl}
use gb_os.GameBoy.Alu.{alu_add, alu_and, alu_cp, alu_or, alu_sub, alu_xor}
use gb_os.GameBoy.Cpu.{Bus}
use gb_os.GameBoy.Cpu.Action.{Action, regs, read_at}

module _ (bus : Bus) where
  unfoldable pub arithmetic : List (ℕ × Action bus)
  arithmetic =
      (0x80, regs bus 4 (λ r. alu_add r r.b false))
      ∷ (0x81, regs bus 4 (λ r. alu_add r r.c false))
      ∷ (0x82, regs bus 4 (λ r. alu_add r r.d false))
      ∷ (0x83, regs bus 4 (λ r. alu_add r r.e false))
      ∷ (0x84, regs bus 4 (λ r. alu_add r r.h false))
      ∷ (0x85, regs bus 4 (λ r. alu_add r r.l false))
      ∷ (0x86, read_at bus 8 hl (λ r v. alu_add r v false))
      ∷ (0x87, regs bus 4 (λ r. alu_add r r.a false))
      ∷ (0x88, regs bus 4 (λ r. alu_add r r.b true))
      ∷ (0x89, regs bus 4 (λ r. alu_add r r.c true))
      ∷ (0x8A, regs bus 4 (λ r. alu_add r r.d true))
      ∷ (0x8B, regs bus 4 (λ r. alu_add r r.e true))
      ∷ (0x8C, regs bus 4 (λ r. alu_add r r.h true))
      ∷ (0x8D, regs bus 4 (λ r. alu_add r r.l true))
      ∷ (0x8E, read_at bus 8 hl (λ r v. alu_add r v true))
      ∷ (0x8F, regs bus 4 (λ r. alu_add r r.a true))
      ∷ (0x90, regs bus 4 (λ r. alu_sub r r.b false))
      ∷ (0x91, regs bus 4 (λ r. alu_sub r r.c false))
      ∷ (0x92, regs bus 4 (λ r. alu_sub r r.d false))
      ∷ (0x93, regs bus 4 (λ r. alu_sub r r.e false))
      ∷ (0x94, regs bus 4 (λ r. alu_sub r r.h false))
      ∷ (0x95, regs bus 4 (λ r. alu_sub r r.l false))
      ∷ (0x96, read_at bus 8 hl (λ r v. alu_sub r v false))
      ∷ (0x97, regs bus 4 (λ r. alu_sub r r.a false))
      ∷ (0x98, regs bus 4 (λ r. alu_sub r r.b true))
      ∷ (0x99, regs bus 4 (λ r. alu_sub r r.c true))
      ∷ (0x9A, regs bus 4 (λ r. alu_sub r r.d true))
      ∷ (0x9B, regs bus 4 (λ r. alu_sub r r.e true))
      ∷ (0x9C, regs bus 4 (λ r. alu_sub r r.h true))
      ∷ (0x9D, regs bus 4 (λ r. alu_sub r r.l true))
      ∷ (0x9E, read_at bus 8 hl (λ r v. alu_sub r v true))
      ∷ (0x9F, regs bus 4 (λ r. alu_sub r r.a true))
      ∷ (0xA0, regs bus 4 (λ r. alu_and r r.b))
      ∷ (0xA1, regs bus 4 (λ r. alu_and r r.c))
      ∷ (0xA2, regs bus 4 (λ r. alu_and r r.d))
      ∷ (0xA3, regs bus 4 (λ r. alu_and r r.e))
      ∷ (0xA4, regs bus 4 (λ r. alu_and r r.h))
      ∷ (0xA5, regs bus 4 (λ r. alu_and r r.l))
      ∷ (0xA6, read_at bus 8 hl (λ r v. alu_and r v))
      ∷ (0xA7, regs bus 4 (λ r. alu_and r r.a))
      ∷ (0xA8, regs bus 4 (λ r. alu_xor r r.b))
      ∷ (0xA9, regs bus 4 (λ r. alu_xor r r.c))
      ∷ (0xAA, regs bus 4 (λ r. alu_xor r r.d))
      ∷ (0xAB, regs bus 4 (λ r. alu_xor r r.e))
      ∷ (0xAC, regs bus 4 (λ r. alu_xor r r.h))
      ∷ (0xAD, regs bus 4 (λ r. alu_xor r r.l))
      ∷ (0xAE, read_at bus 8 hl (λ r v. alu_xor r v))
      ∷ (0xAF, regs bus 4 (λ r. alu_xor r r.a))
      ∷ (0xB0, regs bus 4 (λ r. alu_or r r.b))
      ∷ (0xB1, regs bus 4 (λ r. alu_or r r.c))
      ∷ (0xB2, regs bus 4 (λ r. alu_or r r.d))
      ∷ (0xB3, regs bus 4 (λ r. alu_or r r.e))
      ∷ (0xB4, regs bus 4 (λ r. alu_or r r.h))
      ∷ (0xB5, regs bus 4 (λ r. alu_or r r.l))
      ∷ (0xB6, read_at bus 8 hl (λ r v. alu_or r v))
      ∷ (0xB7, regs bus 4 (λ r. alu_or r r.a))
      ∷ (0xB8, regs bus 4 (λ r. alu_cp r r.b))
      ∷ (0xB9, regs bus 4 (λ r. alu_cp r r.c))
      ∷ (0xBA, regs bus 4 (λ r. alu_cp r r.d))
      ∷ (0xBB, regs bus 4 (λ r. alu_cp r r.e))
      ∷ (0xBC, regs bus 4 (λ r. alu_cp r r.h))
      ∷ (0xBD, regs bus 4 (λ r. alu_cp r r.l))
      ∷ (0xBE, read_at bus 8 hl (λ r v. alu_cp r v))
      ∷ (0xBF, regs bus 4 (λ r. alu_cp r r.a))
      ∷ []
