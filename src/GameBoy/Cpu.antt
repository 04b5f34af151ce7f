-- ===== src/GameBoy/Cpu.antt =====
-- The processor's part that no single instruction owns: interrupts, the delayed switches of the
-- interrupt enable, fetching and the stack, kernel/src/gameboy/cpu.rs; and the two word accesses
-- of kernel/src/gameboy/mmu.rs. What the processor asks of the memory is the record `Bus`.
pub mod Stack
pub mod Interrupts
pub mod Prefixed
pub mod Action
pub mod Opcodes
pub mod Execute
pub mod Sound
pub mod Arms
mod Tests
use gb_os.Base.{ℕ, zero, suc, ◌+◌, ◌-◌, ◌*◌, ◌%◌, bit_and, bit_or, Bool, true, false, not, ◌&&◌}
use gb_os.Base.{ltb, leb, ◌==◌, if◌then◌else◌}
use gb_os.Base.Word.{u16, not8, wrapping_sub16, shl, shr}
use gb_os.GameBoy.Register.{Registers}

-- `MMU` as the processor sees it. A read may change the state, as `rb(&mut self)` may.
pub record Bus : Type 1 where
  pub State : Type 0
  pub rb : State → ℕ → ℕ × State
  pub wb : State → ℕ → ℕ → State
  pub inte : State → ℕ
  pub intf : State → ℕ
  pub set_intf : State → ℕ → State
  pub switch_speed : State → State
  -- The hardware runs for a number of ticks; the result is what the display's clock saw of them.
  pub do_cycle : State → ℕ → ℕ × State

-- `trailing_zeros` of a byte, with `n` bits left.
unfoldable pub trailing_zeros : ℕ → ℕ → ℕ
trailing_zeros zero x = 0
trailing_zeros (suc n) x =
    let rest = trailing_zeros n (shr x 1) in if x % 2 == 1 then 0 else suc rest

module _ (bus : Bus) where
  pub record Cpu : Type 0 where
    pub reg : Registers
    pub mmu : bus.State
    pub halted : Bool
    pub halt_bug : Bool
    pub ime : Bool
    pub setdi : ℕ
    pub setei : ℕ

module _ (bus : Bus) where
  -- `MMU::rw` and `MMU::ww`, which the processor also has as `read_wide` and `write_wide`: low byte
  -- first.
  unfoldable pub read_wide : bus.State → ℕ → ℕ × bus.State
  read_wide s a =
      let (low, s1) = bus.rb s a in
      let (high, s2) = bus.rb s1 (u16 (a + 1)) in (bit_or low (shl high 8), s2)

  unfoldable pub write_wide : bus.State → ℕ → ℕ → bus.State
  write_wide s a v = bus.wb (bus.wb s a (bit_and v 0xFF)) (u16 (a + 1)) (shr v 8)

  -- The two counters, `setdi` before `setei`.
  unfoldable pub update_ime : Cpu bus → Cpu bus
  update_ime c =
      let ime_after_di = if c.setdi == 1 then false else c.ime in
      record c {
        ime = if c.setei == 1 then true else ime_after_di;
        setdi = if c.setdi == 2 then 1 else 0;
        setei = if c.setei == 2 then 1 else 0;
      }

  unfoldable pub fetchbyte : Cpu bus → ℕ × Cpu bus
  fetchbyte c =
      let (b, s) = bus.rb c.mmu c.reg.pc in
      let pc' = if c.halt_bug then c.reg.pc else u16 (c.reg.pc + 1) in
      (b, record c { reg = record (c.reg) { pc = pc' }; mmu = s; halt_bug = false })

  unfoldable pub fetchword : Cpu bus → ℕ × Cpu bus
  unfolding read_wide
  fetchword c =
      let (w, s) = read_wide c.mmu c.reg.pc in
      (w, record c { reg = record (c.reg) { pc = u16 (c.reg.pc + 2) }; mmu = s })

  unfoldable pub push : Cpu bus → ℕ → Cpu bus
  unfolding write_wide
  push c value =
      let sp' = wrapping_sub16 c.reg.sp 2 in
      record c { reg = record (c.reg) { sp = sp' }; mmu = write_wide c.mmu sp' value }

  unfoldable pub pop : Cpu bus → ℕ × Cpu bus
  unfolding read_wide
  pop c =
      let (value, s) = read_wide c.mmu c.reg.sp in
      (value, record c { reg = record (c.reg) { sp = u16 (c.reg.sp + 2) }; mmu = s })

  -- The interrupt with the given number: its flag cleared, the program counter pushed and set.
  unfoldable pub dispatch : Cpu bus → ℕ → Cpu bus
  unfolding push
  dispatch c interrupt =
      let flags = bit_and (bus.intf c.mmu) (not8 (shl 1 interrupt)) in
      let cleared : Cpu bus = record c { mmu = bus.set_intf c.mmu flags } in
      let pushed = push cleared cleared.reg.pc in
      record pushed { reg = record (pushed.reg) { pc = 0x0040 + interrupt * 8 } }

  unfoldable pub handle_interrupts : Cpu bus → ℕ × Cpu bus
  handle_interrupts c =
      let triggered = bit_and (bus.inte c.mmu) (bus.intf c.mmu) in
      if not c.ime && not c.halted
      then (0, c)
      else if triggered == 0
      then (0, c)
      else (let awake : Cpu bus = record c { halted = false } in
          if not c.ime
          then (0, awake)
          else (let masked : Cpu bus = record awake { ime = false } in
              let interrupt = trailing_zeros 8 triggered in
              if leb 5 interrupt then (0, masked) else (16, dispatch masked interrupt)))
