-- ===== src/GameBoy/Cpu/Opcodes/Low.antt =====
-- Opcodes 0x00 to 0x1F of `execute`, kernel/src/gameboy/cpu.rs.
use gb_os.Base.{ℕ, List, [], ◌∷◌, ◌+◌, false}
use gb_os.Base.Word.{u16, wrapping_sub16}
use gb_os.GameBoy.Register.{CpuFlag, set_flag, bc, set_bc, de, set_de}
use gb_os.GameBoy.Alu.{alu_add16, alu_dec, alu_inc, alu_rl, alu_rlc, alu_rr, alu_rrc}
use gb_os.GameBoy.Cpu.{Bus, fetchword, write_wide}
use gb_os.GameBoy.Cpu.Action.{Action, regs, read_at, write_at, byte_to, word_to, cpu_jr}

module _ (bus : Bus) where
  unfoldable pub low : List (ℕ × Action bus)
  low =
      (0x00, regs bus 4 (λ r. r))
      ∷ (0x01, word_to bus 12 (λ r v. set_bc r v))
      ∷ (0x02, write_at bus 8 bc (λ r. r.a) (λ r. r))
      ∷ (0x03, regs bus 8 (λ r. set_bc r (u16 (bc r + 1))))
      ∷ (0x04, regs bus 4 (λ r. let (v, r') = alu_inc r r.b in record r' { b = v }))
      ∷ (0x05, regs bus 4 (λ r. let (v, r') = alu_dec r r.b in record r' { b = v }))
      ∷ (0x06, byte_to bus 8 (λ r v. record r { b = v }))
      ∷ (
        0x07,
        regs bus 4
            (λ r. let (v, r') = alu_rlc r r.a in set_flag (record r' { a = v }) CpuFlag.z false),
      )
      ∷ (
        0x08,
        λ c.
            (let (a, c') = fetchword bus c in
              (20, record c' { mmu = write_wide bus c'.mmu a c'.reg.sp })),
      )
      ∷ (0x09, regs bus 8 (λ r. alu_add16 r (bc r)))
      ∷ (0x0A, read_at bus 8 bc (λ r v. record r { a = v }))
      ∷ (0x0B, regs bus 8 (λ r. set_bc r (wrapping_sub16 (bc r) 1)))
      ∷ (0x0C, regs bus 4 (λ r. let (v, r') = alu_inc r r.c in record r' { c = v }))
      ∷ (0x0D, regs bus 4 (λ r. let (v, r') = alu_dec r r.c in record r' { c = v }))
      ∷ (0x0E, byte_to bus 8 (λ r v. record r { c = v }))
      ∷ (
        0x0F,
        regs bus 4
            (λ r. let (v, r') = alu_rrc r r.a in set_flag (record r' { a = v }) CpuFlag.z false),
      )
      ∷ (0x10, λ c. (4, record c { mmu = bus.switch_speed c.mmu }))
      ∷ (0x11, word_to bus 12 (λ r v. set_de r v))
      ∷ (0x12, write_at bus 8 de (λ r. r.a) (λ r. r))
      ∷ (0x13, regs bus 8 (λ r. set_de r (u16 (de r + 1))))
      ∷ (0x14, regs bus 4 (λ r. let (v, r') = alu_inc r r.d in record r' { d = v }))
      ∷ (0x15, regs bus 4 (λ r. let (v, r') = alu_dec r r.d in record r' { d = v }))
      ∷ (0x16, byte_to bus 8 (λ r v. record r { d = v }))
      ∷ (
        0x17,
        regs bus 4
            (λ r. let (v, r') = alu_rl r r.a in set_flag (record r' { a = v }) CpuFlag.z false),
      )
      ∷ (0x18, cpu_jr bus 12)
      ∷ (0x19, regs bus 8 (λ r. alu_add16 r (de r)))
      ∷ (0x1A, read_at bus 8 de (λ r v. record r { a = v }))
      ∷ (0x1B, regs bus 8 (λ r. set_de r (wrapping_sub16 (de r) 1)))
      ∷ (0x1C, regs bus 4 (λ r. let (v, r') = alu_inc r r.e in record r' { e = v }))
      ∷ (0x1D, regs bus 4 (λ r. let (v, r') = alu_dec r r.e in record r' { e = v }))
      ∷ (0x1E, byte_to bus 8 (λ r v. record r { e = v }))
      ∷ (
        0x1F,
        regs bus 4
            (λ r. let (v, r') = alu_rr r r.a in set_flag (record r' { a = v }) CpuFlag.z false),
      )
      ∷ []
