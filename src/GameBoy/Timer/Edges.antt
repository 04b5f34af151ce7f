-- ===== src/GameBoy/Timer/Edges.antt =====
-- Which advances of the clock the timer counts.
use gb_os.Base.{bit_or, ap, ◌∙◌}
use gb_os.Base.{
  ℕ, ◌+◌, ◌*◌, ◌/◌, ◌%◌, ◌^◌, ◌<◌, ◌≤◌, ◌≡◌, ◌≢◌, ◌⊎◌, inl, inr, bit_and, ◌&&◌, not, arith,
}
use gb_os.Base.{◌==◌, if◌then◌else◌}
use gb_os.Base.Word.{u16, shr}
use gb_os.Base.Bits.{and_mask}
use gb_os.GameBoy.Timer.{Timer, selected_bit, increment, do_cycle}

-- The period of TIMA in clock cycles.
abbrev pub period : ℕ → ℕ
period tac = 2 * 2 ^ selected_bit tac

selected_cases :
    (tac : ℕ)
    → (selected_bit tac ≡ 9)
      ⊎ (selected_bit tac ≡ 3)
      ⊎ (selected_bit tac ≡ 5)
      ⊎ (selected_bit tac ≡ 7)
unfolding selected_bit
selected_cases tac = ground arith

-- A step of at most half a period ends a period just where the selected bit falls.
abbrev IsEdge : (k : ℕ) (d c : ℕ) → Type 0
IsEdge k d c =
    ((d / 2 ^ k % 2 == 1) && ((d + c) % 65536 / 2 ^ k % 2 == 0))
    ≡ not ((d + c) / (2 * 2 ^ k) == d / (2 * 2 ^ k))

falls_9 : (d c : ℕ) → d < 65536 → c ≤ 512 → IsEdge 9 d c
falls_9 d c hd hc = ground arith

falls_3 : (d c : ℕ) → d < 65536 → c ≤ 8 → IsEdge 3 d c
falls_3 d c hd hc = ground arith

falls_5 : (d c : ℕ) → d < 65536 → c ≤ 32 → IsEdge 5 d c
falls_5 d c hd hc = ground arith

falls_7 : (d c : ℕ) → d < 65536 → c ≤ 128 → IsEdge 7 d c
falls_7 d c hd hc = ground arith

falls_selected :
    (k : ℕ)
    → (k ≡ 9) ⊎ (k ≡ 3) ⊎ (k ≡ 5) ⊎ (k ≡ 7)
    → (d c : ℕ) → d < 65536
    → 2 * c ≤ 2 * 2 ^ k
    → (c < 65536) × IsEdge k d c
falls_selected k (inl e) d c hd = rw e (λ hc. (omega arith, falls_9 d c hd (omega arith)))
falls_selected k (inr (inl e)) d c hd = rw e (λ hc. (omega arith, falls_3 d c hd (omega arith)))
falls_selected k (inr (inr (inl e))) d c hd =
    rw e (λ hc. (omega arith, falls_5 d c hd (omega arith)))
falls_selected k (inr (inr (inr e))) d c hd =
    rw e (λ hc. (omega arith, falls_7 d c hd (omega arith)))

-- TIMA one higher, or reloaded from TMA with the timer's interrupt where it does not fit a byte.
abbrev pub counted : Timer → Timer
counted t = record t {
  tima = if t.tima + 1 == 256 then t.tma else t.tima + 1;
  interrupt = if t.tima + 1 == 256 then bit_or t.interrupt 0x04 else t.interrupt;
}

increment-counted : (t : Timer) → increment t ≡ counted t
unfolding increment
increment-counted t = ground arith

do_cycle_increments :
    (t : Timer) (cycles : ℕ)
    → t.div < 65536
    → bit_and t.tac 0x04 ≢ 0
    → 2 * cycles ≤ period t.tac
    → do_cycle t cycles ≡ (
        let moved : Timer = record t { div = u16 (t.div + cycles) } in
        if (t.div + cycles) / period t.tac == t.div / period t.tac then moved else increment moved)
unfolding do_cycle
do_cycle_increments t cycles small on short =
    let k = selected_bit t.tac in
    let (word, edge) = falls_selected k (selected_cases t.tac) t.div cycles small short in
    ground (arith, word, edge, and_mask 1 (shr t.div k), and_mask 1 (shr (u16 (t.div + cycles)) k))

-- With the timer on and a step of at most half a period, TIMA is incremented, or reloaded from TMA
-- with the interrupt where it was 255, exactly if the step ends a period of the clock, and nothing
-- but DIV, TIMA and the interrupt changes.
pub do_cycle_counts_periods :
    (t : Timer) (cycles : ℕ)
    → t.div < 65536
    → bit_and t.tac 0x04 ≢ 0
    → 2 * cycles ≤ period t.tac
    → do_cycle t cycles ≡ (
        let moved : Timer = record t { div = u16 (t.div + cycles) } in
        if (t.div + cycles) / period t.tac == t.div / period t.tac then moved else counted moved)
do_cycle_counts_periods t cycles small on short =
    let moved : Timer = record t { div = u16 (t.div + cycles) } in
    do_cycle_increments t cycles small on short
    ∙ ap (λ m. if (t.div + cycles) / period t.tac == t.div / period t.tac then moved else m)
        (increment-counted moved)

-- At the fastest rate a step of 16 cycles, a whole period, never reaches TIMA: the timer stands
-- still, whatever its state.
pub whole_period_missed :
    (t : Timer)
    → t.div < 65536
    → bit_and t.tac 0x03 ≡ 1
    → do_cycle t 16 ≡ record t { div = u16 (t.div + 16) }
unfolding do_cycle selected_bit
whole_period_missed t small fast =
    ground (arith, and_mask 1 (t.div / 8), and_mask 1 (u16 (t.div + 16) / 8))
