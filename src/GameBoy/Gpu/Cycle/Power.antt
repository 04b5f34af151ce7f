-- ===== src/GameBoy/Gpu/Cycle/Power.antt =====
-- The display's clock under every operation: register writes, and switching it off and on.
use gb_os.Base.{
  List, [], ◌∷◌, ℕ, ◌≡◌, ◌≢◌, refl, sym, ◌∙◌, ap, Bool, true, false, not, ◌&&◌, inl, inr, arith,
}
use gb_os.Base.{◌==◌, ==_iff, in_range, if◌then◌else◌, if_both, if_cases, Bool-cases}
use mathlib.Core.Path.{subst}
use gb_os.GameBoy.Mode.{is_color}
use gb_os.GameBoy.Gpu.{Gpu, new}
use gb_os.GameBoy.Gpu.Cycle.{change_mode, run_ticks, do_cycle}
use gb_os.GameBoy.Gpu.Cycle.Dots.{
  At, IsTimed, mode_at, change_mode-At, check_interrupt_lyc-At, run_ticks_lem,
}
use gb_os.GameBoy.Gpu.Write.{clear_screen, set_control, switched, set_stat, update_pal, wb}

-- A display that is on is timed, and one that is off is at line 0.
abbrev pub Clocked : Bool → Gpu → Type 0
Clocked true g = IsTimed g
Clocked false g = g.line ≡ 0

abbrev pub IsClocked : Gpu → Type 0
IsClocked g = Clocked g.lcd_on g

-- What is at a timed place is timed, and what is at the place of a clocked state is clocked.
At-IsTimed :
    (g h : Gpu)
    → IsTimed g
    → h.line ≡ g.line
    → h.modeclock ≡ g.modeclock
    → h.mode ≡ g.mode
    → IsTimed h
At-IsTimed g h v p q r = record {
  clock_lt = omega (arith, q, v.clock_lt);
  line_lt = omega (arith, p, v.line_lt);
  in_mode =
      r ∙ v.in_mode ∙ ap (λ l. mode_at l g.modeclock) (sym p) ∙ ap (λ c. mode_at h.line c) (sym q);
}

At-Clocked : (b : Bool) (g h : Gpu) → Clocked b g → At g.line g.modeclock g.mode b h → IsClocked h
At-Clocked true g h v (p, q, r, s) = subst (λ b. Clocked b h) (sym s) (At-IsTimed g h v p q r)
At-Clocked false g h v (p, q, r, s) = subst (λ b. Clocked b h) (sym s) (p ∙ v)

-- The clock of one state is that of the other.
record IsStill (g h : Gpu) : Type 0 where
  at : At g.line g.modeclock g.mode g.lcd_on h

still : {g h : Gpu} → At g.line g.modeclock g.mode g.lcd_on h → IsStill g h
still p = record { at = p }

-- A write to any other register leaves the clock alone.
wb-IsStill : (g : Gpu) (a v : ℕ) → a ≢ 0xFF40 → IsStill g (wb g a v)
unfolding wb set_stat update_pal
wb-IsStill g a v other =
    let P = IsStill g in
    if_both P (in_range 0x8000 0x9FFF a) _ _ (still (refl, refl, refl, refl)) (
      if_both P (in_range 0xFE00 0xFE9F a) _ _ (still (refl, refl, refl, refl)) (
        if_cases P (a == 0xFF40) _ _ (λ same. absurd (other ((==_iff a 0xFF40).0 same)))
          (λ _. if_both P (a == 0xFF41) _ _ (still (refl, refl, refl, refl)) (
            if_both P (a == 0xFF42) _ _ (still (refl, refl, refl, refl)) (
              if_both P (a == 0xFF43) _ _ (still (refl, refl, refl, refl)) (
                if_both P (a == 0xFF44) _ _ (still (refl, refl, refl, refl)) (
                  if_both P (a == 0xFF45) _ _
                    (still (check_interrupt_lyc-At (record g { lyc = v })))
                    (if_both P (a == 0xFF46) _ _ (still (refl, refl, refl, refl)) (
                      if_both P (a == 0xFF47) _ _ (still (refl, refl, refl, refl)) (
                        if_both P (a == 0xFF48) _ _ (still (refl, refl, refl, refl)) (
                          if_both P (a == 0xFF49) _ _ (still (refl, refl, refl, refl)) (
                            if_both P (a == 0xFF4A) _ _ (still (refl, refl, refl, refl)) (
                              if_both P (a == 0xFF4B) _ _ (still (refl, refl, refl, refl)) (
                                if_both P (a == 0xFF4C) _ _ (still (refl, refl, refl, refl)) (
                                  if_both P (a == 0xFF4E) _ _ (still (refl, refl, refl, refl)) (
                                    if_both P (in_range 0xFF4F 0xFF6B a && not (is_color g.gbmode))
                                      _ _ (still (refl, refl, refl, refl))
                                      (if_both P (a == 0xFF4F) _ _ (still (refl, refl, refl, refl))
                                        (if_both P (a == 0xFF68) _ _
                                          (still (refl, refl, refl, refl))
                                          (if_both P (a == 0xFF69) _ _
                                            (still (refl, refl, refl, refl))
                                            (if_both P (a == 0xFF6A) _ _
                                              (still (refl, refl, refl, refl))
                                              (if_both P (a == 0xFF6B) _ _
                                                (still (refl, refl, refl, refl))
                                                ((still
                                                  (refl, refl, refl, refl))))))))))))))))))))))))

as-Clocked : (b : Bool) (h : Gpu) → h.lcd_on ≡ b → Clocked b h → IsClocked h
as-Clocked b h e v = subst (λ b. Clocked b h) (sym e) v

-- The three outcomes of a write to the switch.
switch_cases :
    (was now : Bool) (g off on : Gpu)
    → g.lcd_on ≡ now
    → off.lcd_on ≡ now
    → on.lcd_on ≡ now
    → Clocked was g
    → Clocked false off
    → (Clocked false g → Clocked true on)
    → IsClocked (if was && not now then off else if not was && now then on else g)
switch_cases true true g off on p q r v turned_off turned_on = as-Clocked true g p v
switch_cases true false g off on p q r v turned_off turned_on = as-Clocked false off q turned_off
switch_cases false true g off on p q r v turned_off turned_on = as-Clocked true on r (turned_on v)
switch_cases false false g off on p q r v turned_off turned_on = as-Clocked false g p v

-- Switching the display on starts it at dot 4 of its line, and switching it off puts it at line 0.
switched-IsClocked : (was_on : Bool) (g : Gpu) → Clocked was_on g → IsClocked (switched was_on g)
unfolding switched clear_screen
switched-IsClocked was_on g v =
    let (line, clock, mode, lcd) = change_mode-At g 2 in
    switch_cases was_on g.lcd_on g _ (record (change_mode g 2) { modeclock = 4 }) refl refl lcd v
      refl
      (λ at_top. record {
        clock_lt = omega arith;
        line_lt = omega (arith, line, at_top);
        in_mode = mode ∙ ap (λ l. mode_at l 4) (sym (line ∙ at_top));
      })

wb_control-IsClocked : (g : Gpu) (v : ℕ) → IsClocked g → IsClocked (wb g 0xFF40 v)
unfolding wb set_control
wb_control-IsClocked g v h =
    switched-IsClocked g.lcd_on (set_control g v)
      (same_clock g.lcd_on g (set_control g v) h refl refl refl)
  where
    same_clock :
        (b : Bool) (g h : Gpu)
        → Clocked b g
        → h.line ≡ g.line
        → h.modeclock ≡ g.modeclock
        → h.mode ≡ g.mode
        → Clocked b h
    same_clock true g h v p q r = At-IsTimed g h v p q r
    same_clock false g h v p q r = p ∙ v

wb-IsClocked : (g : Gpu) (a v : ℕ) → IsClocked g → IsClocked (wb g a v)
wb-IsClocked g a v h = elim (Bool-cases (a == 0xFF40)) [
  | inl same ↦
      subst (λ k. IsClocked (wb g k v)) (sym ((==_iff a 0xFF40).0 same))
        (wb_control-IsClocked g v h)
  | inr other ↦ At-Clocked g.lcd_on g (wb g a v) h (wb-IsStill g a v (λ e. ground arith)).at
]

do_cycle-IsClocked : (g : Gpu) (ticks : ℕ) → IsClocked g → IsClocked (do_cycle g ticks)
unfolding do_cycle
do_cycle-IsClocked g ticks v =
    run g.lcd_on g (record g { hblanking = false }) ticks v refl refl
      (At-Clocked g.lcd_on g (record g { hblanking = false }) v (refl, refl, refl, refl))
  where
    run :
        (b : Bool) (g g' : Gpu) (ticks : ℕ)
        → Clocked b g
        → g.lcd_on ≡ b
        → g'.lcd_on ≡ b
        → IsClocked g'
        → IsClocked (if not b then g else run_ticks ticks g' ticks)
    run true g g' ticks v e e' v' =
        let (moved, is_timed, lcd) =
          run_ticks_lem ticks g' ticks (omega arith) (subst (λ b. Clocked b g') e' v') in
        as-Clocked true (run_ticks ticks g' ticks) (lcd ∙ e') is_timed
    run false g g' ticks v e e' v' = as-Clocked false g e v

-- What the processor's side does to the display.
pub data Operation : Type 0 where
  write : ℕ → ℕ → Operation
  tick : ℕ → Operation

abbrev pub after : Gpu → List Operation → Gpu
after g [] = g
after g (write a v ∷ rest) = after (wb g a v) rest
after g (tick n ∷ rest) = after (do_cycle g n) rest

after-IsClocked :
    (g : Gpu) (operations : List Operation) → IsClocked g → IsClocked (after g operations)
after-IsClocked g [] v = v
after-IsClocked g (write a x ∷ rest) v = after-IsClocked (wb g a x) rest (wb-IsClocked g a x v)
after-IsClocked g (tick n ∷ rest) v = after-IsClocked (do_cycle g n) rest (do_cycle-IsClocked g n v)

-- After any sequence of register writes and ticks from the start: while the display is on, its
-- clock is below 456, its line below 154 and its mode that of the beam's place; while it is off, it
-- is at line 0.
pub display-IsClocked : (operations : List Operation) → IsClocked (after new operations)
unfolding new
display-IsClocked operations = after-IsClocked new operations refl
