-- ===== src/GameBoy/Cpu/Interrupts.antt =====
-- Which interrupt is taken, and when enabling and disabling take effect.
use gb_os.Base.{
  ℕ, zero, suc, ◌+◌, ◌-◌, ◌*◌, ◌/◌, ◌%◌, ◌^◌, ◌<◌, ◌≤◌, ◌≡◌, ◌≢◌, refl, ◌∙◌, sym, ap, bit_and, true,
  false, arith,
}
use mathlib.Core.Path.{subst}
use gb_os.Base.{◌==◌, if◌then◌else◌}
use gb_os.Base.Word.{u16, not8, shl, shr, wrapping_sub16}
use gb_os.Base.Bits.{and_mask}
use gb_os.GameBoy.Cpu.{
  Bus, Cpu, trailing_zeros, update_ime, push, dispatch, handle_interrupts, write_wide,
}

trailing_zeros_odd : (n x : ℕ) → x % 2 ≡ 1 → trailing_zeros (suc n) x ≡ 0
unfolding trailing_zeros
trailing_zeros_odd n x h = ground arith

trailing_zeros_even :
    (n x : ℕ) → x % 2 ≡ 0 → trailing_zeros (suc n) x ≡ suc (trailing_zeros n (x / 2))
unfolding trailing_zeros
trailing_zeros_even n x h = ground arith

-- The lowest bit that is set, of the five of the interrupts.
trailing_zeros_lem :
    (i x : ℕ) → i < 5 → (x / 2 ^ i) % 2 ≡ 1 → x % 2 ^ i ≡ 0 → trailing_zeros 8 x ≡ i
trailing_zeros_lem zero x lt bit below = trailing_zeros_odd 7 x (omega arith)
trailing_zeros_lem (suc zero) x lt bit below =
    omega (arith, trailing_zeros_even 7 x (omega arith), trailing_zeros_odd 6 (x / 2) (omega arith))
trailing_zeros_lem (suc (suc zero)) x lt bit below = omega (
  arith,
  trailing_zeros_even 7 x (omega arith),
  trailing_zeros_even 6 (x / 2) (omega arith),
  trailing_zeros_odd 5 (x / 2 / 2) (omega arith),
)
trailing_zeros_lem (suc (suc (suc zero))) x lt bit below = omega (
  arith,
  trailing_zeros_even 7 x (omega arith),
  trailing_zeros_even 6 (x / 2) (omega arith),
  trailing_zeros_even 5 (x / 2 / 2) (omega arith),
  trailing_zeros_odd 4 (x / 2 / 2 / 2) (omega arith),
)
trailing_zeros_lem (suc (suc (suc (suc zero)))) x lt bit below = omega (
  arith,
  trailing_zeros_even 7 x (omega arith),
  trailing_zeros_even 6 (x / 2) (omega arith),
  trailing_zeros_even 5 (x / 2 / 2) (omega arith),
  trailing_zeros_even 4 (x / 2 / 2 / 2) (omega arith),
  trailing_zeros_odd 3 (x / 2 / 2 / 2 / 2) (omega arith),
)
trailing_zeros_lem (suc (suc (suc (suc (suc i))))) x lt bit below = absurd (omega arith)

-- Below five zeros there is no interrupt.
trailing_zeros-le : (x : ℕ) → x % 2 ^ 5 ≡ 0 → 5 ≤ trailing_zeros 8 x
trailing_zeros-le x h = omega (
  arith,
  trailing_zeros_even 7 x (omega arith),
  trailing_zeros_even 6 (x / 2) (omega arith),
  trailing_zeros_even 5 (x / 2 / 2) (omega arith),
  trailing_zeros_even 4 (x / 2 / 2 / 2) (omega arith),
  trailing_zeros_even 3 (x / 2 / 2 / 2 / 2) (omega arith),
)

module _ (bus : Bus) where
  abbrev triggered : Cpu bus → ℕ
  triggered c = bit_and (bus.inte c.mmu) (bus.intf c.mmu)

  -- `EI`, which sets `setei` to 2, takes effect one instruction late when no `DI` is pending: the
  -- first update after it changes nothing, the second one enables the interrupts.
  update_ime_delayed :
      (c : Cpu bus)
      → c.setei ≡ 2
      → c.setdi ≡ 0
      → ((update_ime bus c).ime ≡ c.ime)
        × ((update_ime bus (update_ime bus c)).ime ≡ true)
        × ((update_ime bus (update_ime bus c)).setei ≡ 0)
  unfolding update_ime
  update_ime_delayed c ei di = ground arith

  interrupt_dispatched :
      (c : Cpu bus) (i : ℕ)
      → c.ime ≡ true
      → i < 5
      → (triggered c / 2 ^ i) % 2 ≡ 1
      → triggered c % 2 ^ i ≡ 0
      → handle_interrupts bus c ≡ (16, dispatch bus (record c { halted = false; ime = false }) i)
  unfolding handle_interrupts
  interrupt_dispatched c i on lt bit below =
      let first = trailing_zeros_lem i (triggered c) lt bit below in
      let some_bit : triggered c ≢ 0 = λ e.
        let none_set : trailing_zeros 8 0 ≡ 8 = unfold trailing_zeros in refl in
        omega (arith, sym (ap (trailing_zeros 8) e) ∙ first) in
      ground arith

  -- What taking interrupt `i` leaves: its flag is cleared, then the two bytes of the program counter
  -- are written below the stack pointer, which moves there, the program counter is the handler's
  -- address, no other register is changed, and further interrupts are disabled.
  abbrev pub IsHandled : Cpu bus → ℕ → ℕ × Cpu bus → Type 0
  IsHandled c i r =
      let top = wrapping_sub16 c.reg.sp 2 in
      let cleared = bus.set_intf c.mmu (bit_and (bus.intf c.mmu) (255 - 2 ^ i)) in
      (r.0 ≡ 16)
      × (r.1.reg ≡ record (c.reg) { sp = top; pc = 0x40 + 8 * i })
      × (r.1.mmu ≡ bus.wb (bus.wb cleared top (c.reg.pc % 256)) (u16 (top + 1)) (c.reg.pc / 256))
      × (r.1.ime ≡ false)
      × (r.1.halted ≡ false)

  dispatch-IsHandled :
      (c : Cpu bus) (i : ℕ)
      → IsHandled c i (16, dispatch bus (record c { halted = false; ime = false }) i)
  unfolding dispatch push write_wide
  dispatch-IsHandled c i =
      let top = wrapping_sub16 c.reg.sp 2 in
      let e : not8 (shl 1 i) ≡ 255 - 2 ^ i = omega arith in
      let handler : 0x0040 + 8 * i ≡ 0x0040 + i * 8 = omega arith in
      let high : shr c.reg.pc 8 ≡ c.reg.pc / 256 = omega arith in
      let cleared : ℕ → bus.State = λ k. bus.set_intf c.mmu (bit_and (bus.intf c.mmu) k) in
      (
        refl,
        ap (λ k. record (c.reg) { sp = top; pc = k }) (sym handler),
        ap
              (λ k.
                bus.wb (bus.wb (cleared k) top (bit_and c.reg.pc 0xFF)) (u16 (top + 1))
                  (shr c.reg.pc 8))
              e
            ∙ ap
                (λ k.
                  bus.wb (bus.wb (cleared (255 - 2 ^ i)) top k) (u16 (top + 1)) (shr c.reg.pc 8))
                (and_mask 8 c.reg.pc)
            ∙ ap
                (λ k.
                  bus.wb (bus.wb (cleared (255 - 2 ^ i)) top (c.reg.pc % 256)) (u16 (top + 1)) k)
                high,
        refl,
        refl,
      )

  -- With interrupts enabled, the lowest of the five that is requested and enabled is taken, in 16
  -- ticks: its flag is cleared, the two bytes of the program counter are written below the stack
  -- pointer, which moves down by two, the program counter becomes 0x40 + 8 * i, the other registers
  -- stay, the enable is cleared, and the processor is not halted.
  pub interrupt_taken :
      (c : Cpu bus) (i : ℕ)
      → c.ime ≡ true
      → i < 5
      → (triggered c / 2 ^ i) % 2 ≡ 1
      → triggered c % 2 ^ i ≡ 0
      → IsHandled c i (handle_interrupts bus c)
  interrupt_taken c i on lt bit below =
      subst (IsHandled c i) (sym (interrupt_dispatched c i on lt bit below))
        (dispatch-IsHandled c i)

  -- With interrupts disabled none is taken, and a request that is enabled wakes a halted processor.
  interrupt_not_taken :
      (c : Cpu bus)
      → c.ime ≡ false
      → handle_interrupts bus c
        ≡ (0, record c { halted = if triggered c == 0 then c.halted else false })
  unfolding handle_interrupts
  interrupt_not_taken c off = ground arith

  -- Only bits above the five interrupts are requested: none is taken, and the enable is cleared.
  pub spurious_interrupt :
      (c : Cpu bus)
      → c.ime ≡ true
      → triggered c ≢ 0
      → triggered c % 2 ^ 5 ≡ 0
      → handle_interrupts bus c ≡ (0, record c { halted = false; ime = false })
  unfolding handle_interrupts
  spurious_interrupt c on some_bit none_of_five =
      ground (arith, trailing_zeros-le (triggered c) none_of_five)
