-- ===== src/GameBoy/Cpu/Opcodes/Middle.antt =====
-- Opcodes 0x20 to 0x3F of `execute`, kernel/src/gameboy/cpu.rs.
use gb_os.Base.{ℕ, List, [], ◌∷◌, ◌+◌, not, true, false}
use gb_os.Base.Word.{u16, not8, wrapping_sub16}
use gb_os.GameBoy.Register.{CpuFlag, flag, set_flag, hl, set_hl}
use gb_os.GameBoy.Alu.{alu_add16, alu_daa, alu_dec, alu_inc}
use gb_os.GameBoy.Cpu.{Bus, fetchbyte}
use gb_os.GameBoy.Cpu.Action.{
  Action, regs, read_at, write_at, change_at, byte_to, word_to, when, cpu_jr, skip,
}

module _ (bus : Bus) where
  unfoldable pub middle : List (ℕ × Action bus)
  middle =
      (0x20, when bus (λ r. not (flag r CpuFlag.z)) (cpu_jr bus 12) (skip bus 8 1))
      ∷ (0x21, word_to bus 12 (λ r v. set_hl r v))
      ∷ (0x22, write_at bus 8 hl (λ r. r.a) (λ r. set_hl r (u16 (hl r + 1))))
      ∷ (0x23, regs bus 8 (λ r. set_hl r (u16 (hl r + 1))))
      ∷ (0x24, regs bus 4 (λ r. let (v, r') = alu_inc r r.h in record r' { h = v }))
      ∷ (0x25, regs bus 4 (λ r. let (v, r') = alu_dec r r.h in record r' { h = v }))
      ∷ (0x26, byte_to bus 8 (λ r v. record r { h = v }))
      ∷ (0x27, regs bus 4 alu_daa)
      ∷ (0x28, when bus (λ r. flag r CpuFlag.z) (cpu_jr bus 12) (skip bus 8 1))
      ∷ (0x29, regs bus 8 (λ r. alu_add16 r (hl r)))
      ∷ (0x2A, read_at bus 8 hl (λ r v. let r' = record r { a = v } in set_hl r' (u16 (hl r' + 1))))
      ∷ (0x2B, regs bus 8 (λ r. set_hl r (wrapping_sub16 (hl r) 1)))
      ∷ (0x2C, regs bus 4 (λ r. let (v, r') = alu_inc r r.l in record r' { l = v }))
      ∷ (0x2D, regs bus 4 (λ r. let (v, r') = alu_dec r r.l in record r' { l = v }))
      ∷ (0x2E, byte_to bus 8 (λ r v. record r { l = v }))
      ∷ (
        0x2F,
        regs bus 4
            (λ r. set_flag (set_flag (record r { a = not8 r.a }) CpuFlag.n true) CpuFlag.h true),
      )
      ∷ (0x30, when bus (λ r. not (flag r CpuFlag.c)) (cpu_jr bus 12) (skip bus 8 1))
      ∷ (0x31, word_to bus 12 (λ r v. record r { sp = v }))
      ∷ (0x32, write_at bus 8 hl (λ r. r.a) (λ r. set_hl r (wrapping_sub16 (hl r) 1)))
      ∷ (0x33, regs bus 8 (λ r. record r { sp = u16 (r.sp + 1) }))
      ∷ (0x34, change_at bus 12 alu_inc)
      ∷ (0x35, change_at bus 12 alu_dec)
      ∷ (
        0x36,
        λ c.
            (let (v, c') = fetchbyte bus c in
              (12, record c' { mmu = bus.wb c'.mmu (hl c'.reg) v })),
      )
      ∷ (
        0x37,
        regs bus 4
            (λ r. set_flag (set_flag (set_flag r CpuFlag.n false) CpuFlag.h false) CpuFlag.c true),
      )
      ∷ (0x38, when bus (λ r. flag r CpuFlag.c) (cpu_jr bus 12) (skip bus 8 1))
      ∷ (0x39, regs bus 8 (λ r. alu_add16 r r.sp))
      ∷ (
        0x3A,
        read_at bus 8 hl
            (λ r v. let r' = record r { a = v } in set_hl r' (wrapping_sub16 (hl r') 1)),
      )
      ∷ (0x3B, regs bus 8 (λ r. record r { sp = wrapping_sub16 r.sp 1 }))
      ∷ (0x3C, regs bus 4 (λ r. let (v, r') = alu_inc r r.a in record r' { a = v }))
      ∷ (0x3D, regs bus 4 (λ r. let (v, r') = alu_dec r r.a in record r' { a = v }))
      ∷ (0x3E, byte_to bus 8 (λ r v. record r { a = v }))
      ∷ (
        0x3F,
        regs bus 4 (λ r.
            set_flag (set_flag (set_flag r CpuFlag.n false) CpuFlag.h false) CpuFlag.c
              (not (flag r CpuFlag.c))),
      )
      ∷ []
