-- ===== src/GameBoy/Cpu/Sound/Actions.antt =====
-- Each shape of instruction keeps the processor good, in 4 to 24 ticks.
use gb_os.Base.{ℕ, ◌+◌, ◌%◌, ◌≤◌, ◌<◌, ◌≡◌, Bool, arith}
use gb_os.Base.{if_both}
use gb_os.Base.Word.{u16, wrapping_sub16}
use gb_os.GameBoy.Register.{Registers, IsValid, hl}
use gb_os.GameBoy.Register.Flags.{set_flag-IsValid}
use gb_os.GameBoy.Register.Fields.{set_pc-IsValid}
use gb_os.GameBoy.Alu.Valid.{IsByteResult}
use gb_os.GameBoy.Cpu.{Bus, Cpu}
use gb_os.GameBoy.Cpu.Action.{
  Action, sign_extend, offset_flags, regs, read_at, write_at, change_at, byte_to, word_to, push_of,
  pop_to, when, cpu_jr, skip, call, rst, halt,
}
use gb_os.GameBoy.Cpu.Sound.{
  IsSound, IsGood, fetchbyte-IsGood, fetchword-IsGood, push-IsGood, pop-IsGood,
}

-- The ticks of an instruction: a multiple of four from 4 to 24.
abbrev pub IsTicks : ℕ → Type 0
IsTicks n = (4 ≤ n) × (n ≤ 24) × (n % 4 ≡ 0)

-- What holds of registers and bytes after a change of the registers.
abbrev pub KeepsValid : (Registers → Registers) → Type 0
KeepsValid f = (r : Registers) → IsValid r → IsValid (f r)

abbrev pub TakesByte : (Registers → ℕ → Registers) → Type 0
TakesByte f = (r : Registers) (v : ℕ) → IsValid r → v < 256 → IsValid (f r v)

abbrev pub TakesWord : (Registers → ℕ → Registers) → Type 0
TakesWord f = (r : Registers) (v : ℕ) → IsValid r → v < 65536 → IsValid (f r v)

pub offset_flags-IsValid : (r : Registers) (v : ℕ) → IsValid r → IsValid (offset_flags r v)
unfolding offset_flags
offset_flags-IsValid r v h =
    set_flag-IsValid _ _ (set_flag-IsValid _ _ (set_flag-IsValid _ _ (set_flag-IsValid _ _ h)))

pub u16-lt : (n : ℕ) → u16 n < 65536
u16-lt n = omega arith

pub wrapping_sub16-lt : (a b : ℕ) → wrapping_sub16 a b < 65536
wrapping_sub16-lt a b = omega arith

module _ (bus : Bus) (Good : bus.State → Type 0) where
  pub record IsStep (r : ℕ × Cpu bus) : Type 0 where
    pub ticks : IsTicks r.0
    pub after : IsGood bus Good r.1

module _ (bus : Bus) (Good : bus.State → Type 0) where
  abbrev pub Keeps : Action bus → Type 0
  Keeps act = (c : Cpu bus) → IsGood bus Good c → IsStep bus Good (act c)

module _ (bus : Bus) (Good : bus.State → Type 0) (sound : IsSound bus Good) where
  pub regs-Keeps :
      (n : ℕ) (f : Registers → Registers) → IsTicks n → KeepsValid f → Keeps bus Good (regs bus n f)
  unfolding regs
  regs-Keeps n f t k c h = record {
    ticks = t;
    after = record { good = h.good; valid = k c.reg h.valid };
  }

  pub read_at-Keeps :
      (n : ℕ) (addr : Registers → ℕ) (f : Registers → ℕ → Registers)
      → IsTicks n
      → TakesByte f
      → Keeps bus Good (read_at bus n addr f)
  unfolding read_at
  read_at-Keeps n addr f t k c h = record {
    ticks = t;
    after = record {
      good = sound.rb-Good c.mmu (addr c.reg) h.good;
      valid = k c.reg _ h.valid (sound.rb-lt c.mmu (addr c.reg) h.good);
    };
  }

  pub write_at-Keeps :
      (n : ℕ) (addr value : Registers → ℕ) (f : Registers → Registers)
      → IsTicks n
      → ((r : Registers) → IsValid r → value r < 256)
      → KeepsValid f
      → Keeps bus Good (write_at bus n addr value f)
  unfolding write_at
  write_at-Keeps n addr value f t b k c h = record {
    ticks = t;
    after = record {
      good = sound.wb-Good c.mmu (addr c.reg) _ h.good (b c.reg h.valid);
      valid = k c.reg h.valid;
    };
  }

  pub change_at-Keeps :
      (n : ℕ) (f : Registers → ℕ → ℕ × Registers)
      → IsTicks n
      → ((r : Registers) (v : ℕ) → IsValid r → v < 256 → IsByteResult (f r v))
      → Keeps bus Good (change_at bus n f)
  unfolding change_at
  change_at-Keeps n f t k c h =
      let (byte, s) = bus.rb c.mmu (hl c.reg) in
      let (lt, valid) = k c.reg byte h.valid (sound.rb-lt c.mmu (hl c.reg) h.good) in
      record {
        ticks = t;
        after = record {
          good = sound.wb-Good s (hl c.reg) _ (sound.rb-Good c.mmu (hl c.reg) h.good) lt;
          valid = valid;
        };
      }

  pub byte_to-Keeps :
      (n : ℕ) (f : Registers → ℕ → Registers)
      → IsTicks n
      → TakesByte f
      → Keeps bus Good (byte_to bus n f)
  unfolding byte_to
  byte_to-Keeps n f t k c h =
      let (lt, g) = fetchbyte-IsGood bus Good sound c h in
      record { ticks = t; after = record { good = g.good; valid = k _ _ g.valid lt } }

  pub word_to-Keeps :
      (n : ℕ) (f : Registers → ℕ → Registers)
      → IsTicks n
      → TakesWord f
      → Keeps bus Good (word_to bus n f)
  unfolding word_to
  word_to-Keeps n f t k c h =
      let (lt, g) = fetchword-IsGood bus Good sound c h in
      record { ticks = t; after = record { good = g.good; valid = k _ _ g.valid lt } }

  pub push_of-Keeps :
      (n : ℕ) (value : Registers → ℕ) (f : Registers → Registers)
      → IsTicks n
      → ((r : Registers) → IsValid r → value r < 65536)
      → KeepsValid f
      → Keeps bus Good (push_of bus n value f)
  unfolding push_of
  push_of-Keeps n value f t w k c h =
      let g = push-IsGood bus Good sound c (value c.reg) h (w c.reg h.valid) in
      record { ticks = t; after = record { good = g.good; valid = k _ g.valid } }

  pub pop_to-Keeps :
      (n : ℕ) (f : Registers → ℕ → Registers)
      → IsTicks n
      → TakesWord f
      → Keeps bus Good (pop_to bus n f)
  unfolding pop_to
  pop_to-Keeps n f t k c h =
      let (lt, g) = pop-IsGood bus Good sound c h in
      record { ticks = t; after = record { good = g.good; valid = k _ _ g.valid lt } }

  pub when-Keeps :
      (test : Registers → Bool) (yes_do no_do : Action bus)
      → Keeps bus Good yes_do
      → Keeps bus Good no_do
      → Keeps bus Good (when bus test yes_do no_do)
  unfolding when
  when-Keeps test yes_do no_do p q c h =
      if_both (IsStep bus Good) (test c.reg) (yes_do c) (no_do c) (p c h) (q c h)

  pub cpu_jr-Keeps : (n : ℕ) → IsTicks n → Keeps bus Good (cpu_jr bus n)
  unfolding cpu_jr
  cpu_jr-Keeps n t =
      byte_to-Keeps n (λ r v. record r { pc = u16 (r.pc + sign_extend v) }) t
        (λ r v h lt. set_pc-IsValid (u16 (r.pc + sign_extend v)) (u16-lt _) h)

  pub skip-Keeps : (n k : ℕ) → IsTicks n → Keeps bus Good (skip bus n k)
  unfolding skip
  skip-Keeps n k t =
      regs-Keeps n (λ r. record r { pc = u16 (r.pc + k) }) t
        (λ r h. set_pc-IsValid (u16 (r.pc + k)) (u16-lt _) h)

  pub call-Keeps : Keeps bus Good (call bus)
  unfolding call
  call-Keeps c h =
      let (lt, g) = fetchword-IsGood bus Good sound c h in
      let pushed = push-IsGood bus Good sound _ _ g g.valid.pc_word in
      record {
        ticks = omega arith;
        after = record { good = pushed.good; valid = set_pc-IsValid _ lt pushed.valid };
      }

  pub rst-Keeps : (addr : ℕ) → addr < 65536 → Keeps bus Good (rst bus addr)
  unfolding rst
  rst-Keeps addr lt =
      push_of-Keeps 16 _ _ (omega arith) (λ r h. h.pc_word) (λ r h. set_pc-IsValid _ lt h)

  pub halt-Keeps : Keeps bus Good (halt bus)
  unfolding halt
  halt-Keeps c h = record { ticks = omega arith; after = record { good = h.good; valid = h.valid } }
