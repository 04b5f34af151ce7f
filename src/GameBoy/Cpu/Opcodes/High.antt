-- ===== src/GameBoy/Cpu/Opcodes/High.antt =====
-- Opcodes 0xE0 to 0xFF of `execute`, kernel/src/gameboy/cpu.rs.
use gb_os.Base.{ℕ, List, [], ◌∷◌, ◌+◌, bit_or}
use gb_os.Base.Word.{u16}
use gb_os.GameBoy.Register.{af, set_af, hl, set_hl}
use gb_os.GameBoy.Alu.{alu_and, alu_cp, alu_or, alu_xor}
use gb_os.GameBoy.Cpu.{Bus, fetchbyte, fetchword}
use gb_os.GameBoy.Cpu.Action.{
  Action, sign_extend, offset_flags, regs, read_at, write_at, byte_to, push_of, pop_to, rst,
}

module _ (bus : Bus) where
  unfoldable pub high : List (ℕ × Action bus)
  high =
      (
        0xE0,
        λ c.
            (let (v, c') = fetchbyte bus c in
              (12, record c' { mmu = bus.wb c'.mmu (bit_or 0xFF00 v) c'.reg.a })),
      )
      ∷ (0xE1, pop_to bus 12 (λ r v. set_hl r v))
      ∷ (0xE2, write_at bus 8 (λ r. bit_or 0xFF00 r.c) (λ r. r.a) (λ r. r))
      ∷ (0xE5, push_of bus 16 hl (λ r. r))
      ∷ (0xE6, byte_to bus 8 (λ r v. alu_and r v))
      ∷ (0xE7, rst bus 0x20)
      ∷ (
        0xE8,
        byte_to bus 16
            (λ r n. record (offset_flags r (sign_extend n)) { sp = u16 (r.sp + sign_extend n) }),
      )
      ∷ (0xE9, regs bus 4 (λ r. record r { pc = hl r }))
      ∷ (
        0xEA,
        λ c. (let (a, c') = fetchword bus c in (16, record c' { mmu = bus.wb c'.mmu a c'.reg.a })),
      )
      ∷ (0xEE, byte_to bus 8 (λ r v. alu_xor r v))
      ∷ (0xEF, rst bus 0x28)
      ∷ (
        0xF0,
        λ c.
            (let (n, c1) = fetchbyte bus c in
              let (v, s) = bus.rb c1.mmu (bit_or 0xFF00 n) in
              (12, record c1 { reg = record (c1.reg) { a = v }; mmu = s })),
      )
      ∷ (0xF1, pop_to bus 12 (λ r v. set_af r v))
      ∷ (0xF2, read_at bus 8 (λ r. bit_or 0xFF00 r.c) (λ r v. record r { a = v }))
      ∷ (0xF3, λ c. (4, record c { setdi = 2 }))
      ∷ (0xF5, push_of bus 16 af (λ r. r))
      ∷ (0xF6, byte_to bus 8 (λ r v. alu_or r v))
      ∷ (0xF7, rst bus 0x30)
      ∷ (
        0xF8,
        byte_to bus 12
            (λ r n. set_hl (offset_flags r (sign_extend n)) (u16 (r.sp + sign_extend n))),
      )
      ∷ (0xF9, regs bus 8 (λ r. record r { sp = hl r }))
      ∷ (
        0xFA,
        λ c.
            (let (a, c1) = fetchword bus c in
              let (v, s) = bus.rb c1.mmu a in
              (16, record c1 { reg = record (c1.reg) { a = v }; mmu = s })),
      )
      ∷ (0xFB, λ c. (4, record c { setei = 2 }))
      ∷ (0xFE, byte_to bus 8 (λ r v. alu_cp r v))
      ∷ (0xFF, rst bus 0x38)
      ∷ []
