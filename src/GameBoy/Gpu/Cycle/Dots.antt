-- ===== src/GameBoy/Gpu/Cycle/Dots.antt =====
-- The beam: where it is after a number of ticks, and in which mode.
use gb_os.Base.{
  bit_or, ◌&&◌, if_both, ℕ, zero, suc, ◌+◌, ◌-◌, ◌*◌, ◌%◌, ◌≤◌, ◌<◌, ◌≡◌, refl, sym, not, Bool,
  true, false, arith,
}
use gb_os.Base.{inl, inr, ◌∙◌, ap, Bool-cases, ==_iff, ltb, leb, ◌==◌, if◌then◌else◌}
use gb_os.GameBoy.Gpu.{Gpu, screen_w}
use gb_os.GameBoy.Gpu.Render.{draw_bg, clear_columns}
use gb_os.GameBoy.Gpu.Render.Sprites.{draw_sprites, renderscan}
use gb_os.GameBoy.Gpu.Cycle.{
  check_interrupt_lyc, request_stat, change_mode, enter_mode, end_line, line_mode, advance,
  run_ticks, do_cycle,
}

-- The beam's place in a frame of 154 lines of 456 dots.
abbrev pub dot : Gpu → ℕ
dot g = g.line * 456 + g.modeclock

-- The mode of a place.
abbrev pub mode_at : ℕ → ℕ → ℕ
mode_at line clock =
    if leb 144 line then 1 else if leb clock 80 then 2 else if leb clock 252 then 3 else 0

-- The clock and the line are in range, and the mode is that of the place.
pub record IsTimed (g : Gpu) : Type 0 where
  pub clock_lt : g.modeclock < 456
  pub line_lt : g.line < 154
  pub in_mode : g.mode ≡ mode_at g.line g.modeclock

-- The clock, the line, the switch and the mode of a state.
abbrev pub At : ℕ → ℕ → ℕ → Bool → Gpu → Type 0
At line clock mode lcd g =
    (g.line ≡ line) × (g.modeclock ≡ clock) × (g.mode ≡ mode) × (g.lcd_on ≡ lcd)

-- The same, as a record, so that it can be said of a choice.
record IsAt (line clock mode : ℕ) (lcd : Bool) (g : Gpu) : Type 0 where
  at : At line clock mode lcd g

IsAt-itself : (g : Gpu) → IsAt g.line g.modeclock g.mode g.lcd_on g
IsAt-itself g = record { at = (refl, refl, refl, refl) }

draw_sprites-IsAt : (g : Gpu) → IsAt g.line g.modeclock g.mode g.lcd_on (draw_sprites g)
unfolding draw_sprites
draw_sprites-IsAt g =
    if_both (IsAt g.line g.modeclock g.mode g.lcd_on) (not g.sprite_on) _ _ (IsAt-itself g)
      (record { at = (refl, refl, refl, refl) })

renderscan-IsAt : (g : Gpu) → IsAt g.line g.modeclock g.mode g.lcd_on (renderscan g)
unfolding renderscan draw_bg
renderscan-IsAt g =
    let cleared : Gpu = record g { frame = clear_columns g.line screen_w 0 g.frame } in
    if_both (IsAt g.line g.modeclock g.mode g.lcd_on) g.first_frame _ _ (IsAt-itself g)
      (draw_sprites-IsAt (draw_bg cleared))

request_stat-IsAt :
    (b : Bool) (g : Gpu) → IsAt g.line g.modeclock g.mode g.lcd_on (request_stat b g)
unfolding request_stat
request_stat-IsAt true g = IsAt-itself (record g { interrupt = bit_or g.interrupt 0x02 })
request_stat-IsAt false g = IsAt-itself g

pub change_mode-At : (g : Gpu) (m : ℕ) → At g.line g.modeclock m g.lcd_on (change_mode g m)
unfolding change_mode
change_mode-At g m =
    let P = IsAt g.line g.modeclock m g.lcd_on in
    let entered : Gpu = record g { mode = m } in
    let (line, clock, mode, lcd) = (renderscan-IsAt entered).at in
    let (line', clock', mode', lcd') =
      (request_stat-IsAt g.m0_inte (record (renderscan entered) { hblanking = true })).at in
    (if_both P (m == 0) _ _
      (record { at = (line' ∙ line, clock' ∙ clock, mode' ∙ mode, lcd' ∙ lcd) })
      (if_both P (m == 1) _ _
        (request_stat-IsAt g.m1_inte (record entered {
          wy_trigger = false;
          interrupt = bit_or g.interrupt 0x01;
          updated = true;
          first_frame = false;
        }))
        (if_both P (m == 2) _ _ (request_stat-IsAt g.m2_inte entered) (
          if_both P (m == 3) _ _
            (if_both P (g.win_on && not g.wy_trigger && g.line == g.winy) _ _
              (record { at = (refl, refl, refl, refl) }) (IsAt-itself entered))
            (IsAt-itself entered))))).at

enter_mode-At : (g : Gpu) (m : ℕ) → At g.line g.modeclock m g.lcd_on (enter_mode g m)
unfolding enter_mode
enter_mode-At g m = elim (Bool-cases (g.mode == m)) [
  | inl same_mode ↦ rw same_mode (refl, refl, (==_iff g.mode m).0 same_mode, refl)
  | inr other ↦ rw other (change_mode-At g m)
]

pub check_interrupt_lyc-At :
    (g : Gpu) → At g.line g.modeclock g.mode g.lcd_on (check_interrupt_lyc g)
unfolding check_interrupt_lyc
check_interrupt_lyc-At g =
    (if_both (IsAt g.line g.modeclock g.mode g.lcd_on) (g.lyc_inte && g.line == g.lyc) _ _
      (record { at = (refl, refl, refl, refl) }) (IsAt-itself g)).at

-- A choice between two states that differ in the mode.
choose-At :
    (b : Bool) (g h : Gpu) (line clock m n : ℕ) (lcd : Bool)
    → At line clock m lcd g
    → At line clock n lcd h
    → At line clock (if b then m else n) lcd (if b then g else h)
choose-At true g h line clock m n lcd p q = p
choose-At false g h line clock m n lcd p q = q

entered-At :
    (g : Gpu) (m line clock mode : ℕ) (lcd : Bool)
    → At line clock mode lcd g
    → At line clock m lcd (enter_mode g m)
entered-At g m line clock mode lcd (p, q, r, s) =
    let (line', clock', mode', lcd') = enter_mode-At g m in (line' ∙ p, clock' ∙ q, mode', lcd' ∙ s)

-- The line after the present one, and its mode if it is in the vertical blank.
end_line-At :
    (g : Gpu)
    → At
        ((g.line + 1) % 154)
        (g.modeclock - 456)
        (if leb 144 ((g.line + 1) % 154) then 1 else g.mode)
        g.lcd_on
        (end_line g)
unfolding end_line
end_line-At g =
    let moved : Gpu = record g { modeclock = g.modeclock - 456; line = (g.line + 1) % 154 } in
    let checked = check_interrupt_lyc moved in
    let at = check_interrupt_lyc-At moved in
    let (line, clock, mode, lcd) =
      choose-At (leb 144 checked.line) (enter_mode checked 1) checked _ _ 1 g.mode g.lcd_on
        (entered-At checked 1 _ _ g.mode g.lcd_on at) at in
    (line, clock, mode ∙ ap (λ k. if leb 144 k then 1 else g.mode) at.0, lcd)

line_mode-At :
    (g : Gpu)
    → At g.line g.modeclock
        (if ltb g.line 144
          then (if leb g.modeclock 80 then 2 else if leb g.modeclock 252 then 3 else 0)
          else g.mode)
        g.lcd_on
        (line_mode g)
unfolding line_mode
line_mode-At g =
    choose-At (ltb g.line 144) _ g _ _ _ g.mode g.lcd_on (enter_mode-At g _)
      (refl, refl, refl, refl)

shown_mode : ℕ → ℕ → ℕ → ℕ
shown_mode line clock mode =
    if ltb line 144 then (if leb clock 80 then 2 else if leb clock 252 then 3 else 0) else mode

shown_mode_lem :
    (line clock mode : ℕ)
    → (144 ≤ line → mode ≡ 1)
    → shown_mode line clock mode ≡ mode_at line clock
unfolding shown_mode
shown_mode_lem line clock mode h = elim (Bool-cases (ltb line 144)) [
  | inl shown ↦ ground arith
  | inr blank ↦ ground (arith, h (ground arith))
]

placed :
    (g : Gpu) (line clock mode : ℕ) (lcd : Bool)
    → At line clock mode lcd g
    → (144 ≤ line → mode ≡ 1)
    → At line clock (mode_at line clock) lcd (line_mode g)
unfolding shown_mode
placed g line clock mode lcd (p, q, r, s) h =
    let (line', clock', mode', lcd') = line_mode-At g in
    (
      line' ∙ p,
      clock' ∙ q,
      mode'
          ∙ ap (λ l. shown_mode l g.modeclock g.mode) p
          ∙ ap (λ c. shown_mode line c g.mode) q
          ∙ ap (λ m. shown_mode line clock m) r
          ∙ shown_mode_lem line clock mode h,
      lcd' ∙ s,
    )

-- A round: the line ends at 456 dots.
advance-At :
    (g : Gpu) (ticks : ℕ)
    → IsTimed g
    → let late = leb 456 (g.modeclock + ticks) in
      let line = if late then (g.line + 1) % 154 else g.line in
      let clock = if late then g.modeclock + ticks - 456 else g.modeclock + ticks in
      At line clock (mode_at line clock) g.lcd_on (advance g ticks)
unfolding advance
advance-At g ticks v =
    let moved : Gpu = record g { modeclock = g.modeclock + ticks } in
    elim (Bool-cases (leb 456 (g.modeclock + ticks))) [
      | inl late ↦ rw late (
          placed (end_line moved) _ _ (if leb 144 ((g.line + 1) % 154) then 1 else g.mode) g.lcd_on
            (end_line-At moved) (λ h. ground arith))
      | inr early ↦ rw early (
          placed moved g.line (g.modeclock + ticks) g.mode g.lcd_on (refl, refl, refl, refl)
            (λ h. ground (arith, v.in_mode)))
    ]

-- The numbers of a round.
round_numbers :
    (line clock ticks : ℕ)
    → line < 154
    → clock < 456
    → ticks ≤ 80
    → let late = leb 456 (clock + ticks) in
      let line' = if late then (line + 1) % 154 else line in
      let clock' = if late then clock + ticks - 456 else clock + ticks in
      (line' * 456 + clock' ≡ (line * 456 + clock + ticks) % 70224) × (line' < 154) × (clock' < 456)
round_numbers line clock ticks h k t = ground arith

-- A state at a place in range is timed.
timed :
    (g : Gpu) (line clock : ℕ) (lcd : Bool)
    → At line clock (mode_at line clock) lcd g
    → line < 154
    → clock < 456
    → (dot g ≡ line * 456 + clock) × IsTimed g
timed g line clock lcd (p, q, r, s) h k = (
  omega (arith, p, q),
  record {
    clock_lt = omega (arith, q);
    line_lt = omega (arith, p);
    in_mode = r ∙ ap (λ l. mode_at l clock) (sym p) ∙ ap (λ c. mode_at g.line c) (sym q);
  },
)

-- A round from a place in range ends at the place that is so many dots later, in its mode.
advance_lem :
    (g : Gpu) (ticks : ℕ)
    → ticks ≤ 80
    → IsTimed g
    → (dot (advance g ticks) ≡ (dot g + ticks) % 70224)
      × IsTimed (advance g ticks)
      × ((advance g ticks).lcd_on ≡ g.lcd_on)
advance_lem g ticks t v =
    let at = advance-At g ticks v in
    let (same_dot, line_lt, clock_lt) =
      round_numbers g.line g.modeclock ticks v.line_lt v.clock_lt t in
    let (placed_dot, is_timed) = timed (advance g ticks) _ _ g.lcd_on at line_lt clock_lt in
    (placed_dot ∙ same_dot, is_timed, at.3)

-- The loop with enough fuel.
pub run_ticks_lem :
    (fuel : ℕ) (g : Gpu) (ticks : ℕ)
    → ticks ≤ fuel
    → IsTimed g
    → (dot (run_ticks fuel g ticks) ≡ (dot g + ticks) % 70224)
      × IsTimed (run_ticks fuel g ticks)
      × ((run_ticks fuel g ticks).lcd_on ≡ g.lcd_on)
unfolding run_ticks
run_ticks_lem zero g ticks h v = (omega (arith, v.clock_lt, v.line_lt), v, refl)
run_ticks_lem (suc fuel) g ticks h v =
    let now = if leb 80 ticks then 80 else ticks in
    let (step_dot, step_timed, step_lcd) = advance_lem g now (ground arith) v in
    elim (Bool-cases (ticks == 0)) [
      | inl done ↦ rw done (ground (arith, v.clock_lt, v.line_lt), v, refl)
      | inr more ↦ rw more (
          let (rest_dot, rest_timed, rest_lcd) =
            run_ticks_lem fuel (advance g now) (ticks - now) (ground arith) step_timed in
          (
            rest_dot ∙ round_sum _ _ now ticks step_dot (ground arith),
            rest_timed,
            rest_lcd ∙ step_lcd,
          ))
    ]
  where
    round_sum :
        (after before now ticks : ℕ)
        → after ≡ (before + now) % 70224
        → now ≤ ticks
        → (after + (ticks - now)) % 70224 ≡ (before + ticks) % 70224
    round_sum after before now ticks e le = omega arith

running : (P : Gpu → Type 0) (b : Bool) (g h : Gpu) → b ≡ true → P h → P (if not b then g else h)
running P true g h e p = p
running P false g h e p = cc

-- While the display is on, from a place in range and in its mode, the beam moves on by one dot for
-- each tick, round a frame of 154 lines
-- of 456 dots; the clock and the line stay in range, and the mode stays that of the beam's place:
-- 1 from line 144 on, else 2, 3 and 0 for dots 0 to 80, 81 to 252 and the rest of a line.
pub do_cycle_moves_beam :
    (g : Gpu) (ticks : ℕ)
    → g.lcd_on ≡ true
    → IsTimed g
    → (dot (do_cycle g ticks) ≡ (dot g + ticks) % 70224) × IsTimed (do_cycle g ticks)
unfolding do_cycle
do_cycle_moves_beam g ticks on v =
    let (moved, is_timed, lcd) =
      run_ticks_lem ticks (record g { hblanking = false }) ticks (omega arith)
        (record { clock_lt = v.clock_lt; line_lt = v.line_lt; in_mode = v.in_mode }) in
    running (λ h. (dot h ≡ (dot g + ticks) % 70224) × IsTimed h) g.lcd_on g
      (run_ticks ticks (record g { hblanking = false }) ticks) on (moved, is_timed)
