-- ===== src/GameBoy/Cpu/Action.antt =====
-- The shapes of the instructions of kernel/src/gameboy/cpu.rs: what an arm of `execute` does,
-- with its ticks.
use gb_os.Base.{ℕ, ◌+◌, bit_and, Bool, true, false, not, ◌&&◌, List, [], ◌∷◌}
use gb_os.Base.{ltb, ◌==◌, if◌then◌else◌}
use gb_os.Base.Word.{u16}
use gb_os.GameBoy.Register.{CpuFlag, Registers, hl, set_flag}
use gb_os.GameBoy.Cpu.{Bus, Cpu, fetchbyte, fetchword, push, pop}

-- `n as i8 as i16 as u16`.
unfoldable pub sign_extend : ℕ → ℕ
sign_extend n = if ltb n 0x80 then n else n + 0xFF00

-- The flags of `ADD SP,n` and `LD HL,SP+n`, where `v` is the operand with its sign extended.
unfoldable pub offset_flags : Registers → ℕ → Registers
offset_flags r v =
    let half = ltb 0x0F (bit_and r.sp 0x0F + bit_and v 0x0F) in
    let carry = ltb 0xFF (bit_and r.sp 0xFF + bit_and v 0xFF) in
    set_flag (set_flag (set_flag (set_flag r CpuFlag.z false) CpuFlag.n false) CpuFlag.h half)
      CpuFlag.c carry

module _ (bus : Bus) where
  abbrev pub Action : Type 0
  Action = Cpu bus → ℕ × Cpu bus

module _ (bus : Bus) where
  -- The arm for an opcode; the last arm of the `match` takes 4 ticks and does nothing.
  unfoldable pub find_arm : List (ℕ × Action bus) → ℕ → Action bus
  find_arm [] opcode = λ c. (4, c)
  find_arm ((key, action) ∷ arms) opcode = if opcode == key then action else find_arm arms opcode

  -- Registers only.
  unfoldable pub regs : ℕ → (Registers → Registers) → Action bus
  regs ticks f c = (ticks, record c { reg = f c.reg })

  -- A byte read from memory goes to the registers.
  unfoldable pub read_at : ℕ → (Registers → ℕ) → (Registers → ℕ → Registers) → Action bus
  read_at ticks addr f c =
      let (v, s) = bus.rb c.mmu (addr c.reg) in (ticks, record c { reg = f c.reg v; mmu = s })

  -- A byte is written to memory, then the registers change.
  unfoldable pub write_at :
      ℕ → (Registers → ℕ) → (Registers → ℕ) → (Registers → Registers) → Action bus
  write_at ticks addr value f c =
      (ticks, record c { reg = f c.reg; mmu = bus.wb c.mmu (addr c.reg) (value c.reg) })

  -- The byte at HL is read, changed and written back.
  unfoldable pub change_at : ℕ → (Registers → ℕ → ℕ × Registers) → Action bus
  change_at ticks f c =
      let (byte, s) = bus.rb c.mmu (hl c.reg) in
      let (v, r) = f c.reg byte in (ticks, record c { reg = r; mmu = bus.wb s (hl c.reg) v })

  -- An operand byte goes to the registers.
  unfoldable pub byte_to : ℕ → (Registers → ℕ → Registers) → Action bus
  unfolding fetchbyte
  byte_to ticks f c = let (v, c') = fetchbyte bus c in (ticks, record c' { reg = f c'.reg v })

  -- An operand word goes to the registers.
  unfoldable pub word_to : ℕ → (Registers → ℕ → Registers) → Action bus
  unfolding fetchword
  word_to ticks f c = let (v, c') = fetchword bus c in (ticks, record c' { reg = f c'.reg v })

  -- A word of the registers is pushed, then the registers change.
  unfoldable pub push_of : ℕ → (Registers → ℕ) → (Registers → Registers) → Action bus
  unfolding push
  push_of ticks value f c =
      let c' = push bus c (value c.reg) in (ticks, record c' { reg = f c'.reg })

  -- A popped word goes to the registers.
  unfoldable pub pop_to : ℕ → (Registers → ℕ → Registers) → Action bus
  unfolding pop
  pop_to ticks f c = let (v, c') = pop bus c in (ticks, record c' { reg = f c'.reg v })

  -- One of two actions, by the registers.
  unfoldable pub when : (Registers → Bool) → Action bus → Action bus → Action bus
  when test yes_do no_do c = if test c.reg then yes_do c else no_do c

  unfoldable pub cpu_jr : ℕ → Action bus
  unfolding byte_to sign_extend
  cpu_jr ticks = byte_to ticks (λ r n. record r { pc = u16 (r.pc + sign_extend n) })

  -- The program counter skips an operand of `n` bytes.
  unfoldable pub skip : ℕ → ℕ → Action bus
  unfolding regs
  skip ticks n = regs ticks (λ r. record r { pc = u16 (r.pc + n) })

  -- `let a = self.fetchword(); self.push(self.reg.pc); self.reg.pc = a`.
  unfoldable pub call : Action bus
  unfolding fetchword push
  call c =
      let (a, c1) = fetchword bus c in
      let c2 = push bus c1 c1.reg.pc in (24, record c2 { reg = record (c2.reg) { pc = a } })

  unfoldable pub rst : ℕ → Action bus
  unfolding push_of
  rst addr = push_of 16 (λ r. r.pc) (λ r. record r { pc = addr })

  -- `HALT`, with its fault when an interrupt is pending and interrupts are disabled.
  unfoldable pub halt : Action bus
  halt c =
      let pending = not (bit_and (bus.inte c.mmu) (bus.intf c.mmu) == 0) in
      (
        4,
        record c { halted = true; halt_bug = (if not c.ime && pending then true else c.halt_bug) },
      )
