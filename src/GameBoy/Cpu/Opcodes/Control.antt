-- ===== src/GameBoy/Cpu/Opcodes/Control.antt =====
-- Opcodes 0xC0 to 0xDF of `execute`, kernel/src/gameboy/cpu.rs.
use gb_os.Base.{ℕ, List, [], ◌∷◌, not, true, false}
use gb_os.GameBoy.Register.{CpuFlag, flag, bc, set_bc, de, set_de}
use gb_os.GameBoy.Alu.{alu_add, alu_sub}
use gb_os.GameBoy.Cpu.{Bus, pop}
use gb_os.GameBoy.Cpu.Prefixed.{execute_cb}
use gb_os.GameBoy.Cpu.Action.{
  Action, regs, byte_to, word_to, push_of, pop_to, when, skip, call, rst,
}

module _ (bus : Bus) where
  unfoldable pub control : List (ℕ × Action bus)
  control =
      (
        0xC0,
        when bus (λ r. not (flag r CpuFlag.z)) (pop_to bus 20 (λ r v. record r { pc = v }))
            (regs bus 8 (λ r. r)),
      )
      ∷ (0xC1, pop_to bus 12 (λ r v. set_bc r v))
      ∷ (
        0xC2,
        when bus (λ r. not (flag r CpuFlag.z)) (word_to bus 16 (λ r v. record r { pc = v }))
            (skip bus 12 2),
      )
      ∷ (0xC3, word_to bus 16 (λ r v. record r { pc = v }))
      ∷ (0xC4, when bus (λ r. not (flag r CpuFlag.z)) (call bus) (skip bus 12 2))
      ∷ (0xC5, push_of bus 16 bc (λ r. r))
      ∷ (0xC6, byte_to bus 8 (λ r v. alu_add r v false))
      ∷ (0xC7, rst bus 0x00)
      ∷ (
        0xC8,
        when bus (λ r. flag r CpuFlag.z) (pop_to bus 20 (λ r v. record r { pc = v }))
            (regs bus 8 (λ r. r)),
      )
      ∷ (0xC9, pop_to bus 16 (λ r v. record r { pc = v }))
      ∷ (
        0xCA,
        when bus (λ r. flag r CpuFlag.z) (word_to bus 16 (λ r v. record r { pc = v }))
            (skip bus 12 2),
      )
      ∷ (0xCB, execute_cb bus)
      ∷ (0xCC, when bus (λ r. flag r CpuFlag.z) (call bus) (skip bus 12 2))
      ∷ (0xCD, call bus)
      ∷ (0xCE, byte_to bus 8 (λ r v. alu_add r v true))
      ∷ (0xCF, rst bus 0x08)
      ∷ (
        0xD0,
        when bus (λ r. not (flag r CpuFlag.c)) (pop_to bus 20 (λ r v. record r { pc = v }))
            (regs bus 8 (λ r. r)),
      )
      ∷ (0xD1, pop_to bus 12 (λ r v. set_de r v))
      ∷ (
        0xD2,
        when bus (λ r. not (flag r CpuFlag.c)) (word_to bus 16 (λ r v. record r { pc = v }))
            (skip bus 12 2),
      )
      ∷ (0xD4, when bus (λ r. not (flag r CpuFlag.c)) (call bus) (skip bus 12 2))
      ∷ (0xD5, push_of bus 16 de (λ r. r))
      ∷ (0xD6, byte_to bus 8 (λ r v. alu_sub r v false))
      ∷ (0xD7, rst bus 0x10)
      ∷ (
        0xD8,
        when bus (λ r. flag r CpuFlag.c) (pop_to bus 20 (λ r v. record r { pc = v }))
            (regs bus 8 (λ r. r)),
      )
      ∷ (
        0xD9,
        λ c.
            (let (v, c') = pop bus c in
              (16, record c' { reg = record (c'.reg) { pc = v }; ime = true })),
      )
      ∷ (
        0xDA,
        when bus (λ r. flag r CpuFlag.c) (word_to bus 16 (λ r v. record r { pc = v }))
            (skip bus 12 2),
      )
      ∷ (0xDC, when bus (λ r. flag r CpuFlag.c) (call bus) (skip bus 12 2))
      ∷ (0xDE, byte_to bus 8 (λ r v. alu_sub r v true))
      ∷ (0xDF, rst bus 0x18)
      ∷ []
