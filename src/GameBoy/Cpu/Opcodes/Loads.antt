-- ===== src/GameBoy/Cpu/Opcodes/Loads.antt =====
-- Opcodes 0x40 to 0x7F of `execute`, kernel/src/gameboy/cpu.rs: loads, and HALT.
use gb_os.Base.{ℕ, List, [], ◌∷◌}
use gb_os.GameBoy.Register.{hl}
use gb_os.GameBoy.Cpu.{Bus}
use gb_os.GameBoy.Cpu.Action.{Action, regs, read_at, write_at, halt}

module _ (bus : Bus) where
  unfoldable pub loads : List (ℕ × Action bus)
  loads =
      (0x40, regs bus 4 (λ r. r))
      ∷ (0x41, regs bus 4 (λ r. record r { b = r.c }))
      ∷ (0x42, regs bus 4 (λ r. record r { b = r.d }))
      ∷ (0x43, regs bus 4 (λ r. record r { b = r.e }))
      ∷ (0x44, regs bus 4 (λ r. record r { b = r.h }))
      ∷ (0x45, regs bus 4 (λ r. record r { b = r.l }))
      ∷ (0x46, read_at bus 8 hl (λ r v. record r { b = v }))
      ∷ (0x47, regs bus 4 (λ r. record r { b = r.a }))
      ∷ (0x48, regs bus 4 (λ r. record r { c = r.b }))
      ∷ (0x49, regs bus 4 (λ r. r))
      ∷ (0x4A, regs bus 4 (λ r. record r { c = r.d }))
      ∷ (0x4B, regs bus 4 (λ r. record r { c = r.e }))
      ∷ (0x4C, regs bus 4 (λ r. record r { c = r.h }))
      ∷ (0x4D, regs bus 4 (λ r. record r { c = r.l }))
      ∷ (0x4E, read_at bus 8 hl (λ r v. record r { c = v }))
      ∷ (0x4F, regs bus 4 (λ r. record r { c = r.a }))
      ∷ (0x50, regs bus 4 (λ r. record r { d = r.b }))
      ∷ (0x51, regs bus 4 (λ r. record r { d = r.c }))
      ∷ (0x52, regs bus 4 (λ r. r))
      ∷ (0x53, regs bus 4 (λ r. record r { d = r.e }))
      ∷ (0x54, regs bus 4 (λ r. record r { d = r.h }))
      ∷ (0x55, regs bus 4 (λ r. record r { d = r.l }))
      ∷ (0x56, read_at bus 8 hl (λ r v. record r { d = v }))
      ∷ (0x57, regs bus 4 (λ r. record r { d = r.a }))
      ∷ (0x58, regs bus 4 (λ r. record r { e = r.b }))
      ∷ (0x59, regs bus 4 (λ r. record r { e = r.c }))
      ∷ (0x5A, regs bus 4 (λ r. record r { e = r.d }))
      ∷ (0x5B, regs bus 4 (λ r. r))
      ∷ (0x5C, regs bus 4 (λ r. record r { e = r.h }))
      ∷ (0x5D, regs bus 4 (λ r. record r { e = r.l }))
      ∷ (0x5E, read_at bus 8 hl (λ r v. record r { e = v }))
      ∷ (0x5F, regs bus 4 (λ r. record r { e = r.a }))
      ∷ (0x60, regs bus 4 (λ r. record r { h = r.b }))
      ∷ (0x61, regs bus 4 (λ r. record r { h = r.c }))
      ∷ (0x62, regs bus 4 (λ r. record r { h = r.d }))
      ∷ (0x63, regs bus 4 (λ r. record r { h = r.e }))
      ∷ (0x64, regs bus 4 (λ r. r))
      ∷ (0x65, regs bus 4 (λ r. record r { h = r.l }))
      ∷ (0x66, read_at bus 8 hl (λ r v. record r { h = v }))
      ∷ (0x67, regs bus 4 (λ r. record r { h = r.a }))
      ∷ (0x68, regs bus 4 (λ r. record r { l = r.b }))
      ∷ (0x69, regs bus 4 (λ r. record r { l = r.c }))
      ∷ (0x6A, regs bus 4 (λ r. record r { l = r.d }))
      ∷ (0x6B, regs bus 4 (λ r. record r { l = r.e }))
      ∷ (0x6C, regs bus 4 (λ r. record r { l = r.h }))
      ∷ (0x6D, regs bus 4 (λ r. r))
      ∷ (0x6E, read_at bus 8 hl (λ r v. record r { l = v }))
      ∷ (0x6F, regs bus 4 (λ r. record r { l = r.a }))
      ∷ (0x70, write_at bus 8 hl (λ r. r.b) (λ r. r))
      ∷ (0x71, write_at bus 8 hl (λ r. r.c) (λ r. r))
      ∷ (0x72, write_at bus 8 hl (λ r. r.d) (λ r. r))
      ∷ (0x73, write_at bus 8 hl (λ r. r.e) (λ r. r))
      ∷ (0x74, write_at bus 8 hl (λ r. r.h) (λ r. r))
      ∷ (0x75, write_at bus 8 hl (λ r. r.l) (λ r. r))
      ∷ (0x76, halt bus)
      ∷ (0x77, write_at bus 8 hl (λ r. r.a) (λ r. r))
      ∷ (0x78, regs bus 4 (λ r. record r { a = r.b }))
      ∷ (0x79, regs bus 4 (λ r. record r { a = r.c }))
      ∷ (0x7A, regs bus 4 (λ r. record r { a = r.d }))
      ∷ (0x7B, regs bus 4 (λ r. record r { a = r.e }))
      ∷ (0x7C, regs bus 4 (λ r. record r { a = r.h }))
      ∷ (0x7D, regs bus 4 (λ r. record r { a = r.l }))
      ∷ (0x7E, read_at bus 8 hl (λ r v. record r { a = v }))
      ∷ (0x7F, regs bus 4 (λ r. r))
      ∷ []
