-- ===== src/Overlay/Rects.antt =====
-- The rectangles of the elements that are to be drawn again (`DirtyRects` and
-- `ElementRegions::get_dirty_rects` of kernel/src/overlay/dirty_region.rs): the array has room for all.
use gb_os.Base.{ℕ, zero, suc, ◌+◌, ◌≤◌, ◌<◌, ◌≡◌, refl, sym, ap, ◌∙◌, true}
use gb_os.Base.{Option, none, some, List, [], ◌∷◌, ◌++◌, arith, length, set, take, replicate}
use gb_os.Base.{ltb, if◌then◌else◌, Bool-cases, inl, inr, length-append}
use gb_os.Base.Slots.{slots, slots-nil, set-slots}
use mathlib.Core.List.{append-nil, append_assoc}
use gb_os.Overlay.{
  DirtyFlags, is_set, game_title, trainer_name, money_line, pokedex, party_header, party_slot_flag,
  location_lines, badges_lines, playtime, bottom_bar,
}

pub record DirtyRect : Type 0 where
  pub x : ℕ
  pub y : ℕ
  pub width : ℕ
  pub height : ℕ

pub record DirtyRects : Type 0 where
  pub rects : List (Option DirtyRect)
  pub count : ℕ

unfoldable pub no_rects : DirtyRects
unfolding replicate
no_rects = record { rects = replicate 16 none; count = 0 }

unfoldable pub add : DirtyRects → DirtyRect → DirtyRects
add s rect =
    if ltb s.count 16
    then record { rects = set s.rects s.count (some rect); count = s.count + 1 }
    else s

-- The rectangles that are there.
abbrev pub filled : List (Option DirtyRect) → List DirtyRect
filled [] = []
filled (none ∷ rs) = filled rs
filled (some r ∷ rs) = r ∷ filled rs

abbrev pub iter : DirtyRects → List DirtyRect
iter s = filled (take s.count s.rects)

pub record ElementRegions : Type 0 where
  pub game_title_rect : DirtyRect
  pub trainer_name_rect : DirtyRect
  pub money_rect : DirtyRect
  pub pokedex_rect : DirtyRect
  pub party_header_rect : DirtyRect
  pub party_slots : List DirtyRect
  pub location_rect : DirtyRect
  pub badges_rect : DirtyRect
  pub playtime_rect : DirtyRect
  pub bottom_bar_rect : DirtyRect

-- One test of `get_dirty_rects`.
unfoldable pub add_if : DirtyFlags → ℕ → DirtyRect → DirtyRects → DirtyRects
unfolding is_set add
add_if flags flag rect s = if is_set flags flag then add s rect else s

-- The loop over the slots of the party, from slot `i` on.
unfoldable pub add_slots : DirtyFlags → ℕ → List DirtyRect → DirtyRects → DirtyRects
unfolding add_if
add_slots flags i [] s = s
add_slots flags i (r ∷ rs) s = add_slots flags (suc i) rs (add_if flags (party_slot_flag i) r s)

unfoldable pub get_dirty_rects : ElementRegions → DirtyFlags → DirtyRects
unfolding add_slots no_rects
get_dirty_rects r flags =
    let s1 = add_if flags game_title r.game_title_rect no_rects in
    let s2 = add_if flags trainer_name r.trainer_name_rect s1 in
    let s3 = add_if flags money_line r.money_rect s2 in
    let s4 = add_if flags pokedex r.pokedex_rect s3 in
    let s5 = add_if flags party_header r.party_header_rect s4 in
    let s6 = add_slots flags 0 r.party_slots s5 in
    let s7 = add_if flags location_lines r.location_rect s6 in
    let s8 = add_if flags badges_lines r.badges_rect s7 in
    let s9 = add_if flags playtime r.playtime_rect s8 in
    add_if flags bottom_bar r.bottom_bar_rect s9

-- The rectangle of an element, when its flag is set.
abbrev pub wanted : DirtyFlags → ℕ → DirtyRect → List DirtyRect
wanted flags flag rect = if is_set flags flag then rect ∷ [] else []

abbrev pub wanted_slots : DirtyFlags → ℕ → List DirtyRect → List DirtyRect
wanted_slots flags i [] = []
wanted_slots flags i (r ∷ rs) = wanted flags (party_slot_flag i) r ++ wanted_slots flags (suc i) rs

-- The array holds these rectangles.
Holding : DirtyRects → List DirtyRect → Type 0
Holding s rs = s ≡ record { rects = slots 16 rs; count = length rs }

filled-slots :
    (n : ℕ) (rs : List DirtyRect) → length rs ≤ n → filled (take (length rs) (slots n rs)) ≡ rs
unfolding slots
filled-slots n [] h = refl
filled-slots zero (r ∷ rs) h = absurd (omega arith)
filled-slots (suc n) (r ∷ rs) h = ap (λ t. r ∷ t) (filled-slots n rs (omega arith))

add-Holding :
    (rs : List DirtyRect) (rect : DirtyRect) (s : DirtyRects)
    → length rs < 16
    → Holding s rs
    → Holding (add s rect) (rs ++ rect ∷ [])
unfolding add Holding
add-Holding rs rect s room h =
    let fits : ltb (length rs) 16 ≡ true = ground arith in
    let placed = set-slots 16 rs rect room in
    let longer : length rs + 1 ≡ length (rs ++ rect ∷ []) = sym (length-append rs (rect ∷ [])) in
    ap (λ t. add t rect) h
    ∙ ap
        (λ b.
          if b
          then record { rects = set (slots 16 rs) (length rs) (some rect); count = length rs + 1 }
          else record { rects = slots 16 rs; count = length rs })
        fits
    ∙ (λ i. record { rects = placed i; count = longer i })

add_if-Holding :
    (flags : DirtyFlags) (flag : ℕ) (rect : DirtyRect) (rs : List DirtyRect) (s : DirtyRects)
    → length rs < 16
    → Holding s rs
    → Holding (add_if flags flag rect s) (rs ++ wanted flags flag rect)
unfolding add_if
add_if-Holding flags flag rect rs s room h = elim (Bool-cases (is_set flags flag)) [
  | inl on ↦ rw on (add-Holding rs rect s room h)
  | inr off ↦ rw (off, append-nil rs) h
]

wanted-le : (flags : DirtyFlags) (flag : ℕ) (rect : DirtyRect) → length (wanted flags flag rect) ≤ 1
wanted-le flags flag rect = elim (Bool-cases (is_set flags flag)) [
  | inl on ↦ rw on (omega arith)
  | inr off ↦ rw off (omega arith)
]

length-next :
    (flags : DirtyFlags) (flag : ℕ) (rect : DirtyRect) (rs : List DirtyRect) (n : ℕ)
    → length rs ≤ n
    → length (rs ++ wanted flags flag rect) ≤ n + 1
length-next flags flag rect rs n h =
    omega (arith, length-append rs (wanted flags flag rect), wanted-le flags flag rect)

add_slots-Holding :
    (flags : DirtyFlags) (i : ℕ) (rects : List DirtyRect) (rs : List DirtyRect) (s : DirtyRects)
    → length rs + length rects ≤ 16
    → Holding s rs
    → Holding (add_slots flags i rects s) (rs ++ wanted_slots flags i rects)
unfolding add_slots
add_slots-Holding flags i [] rs s room h = rw (append-nil rs) h
add_slots-Holding flags i (r ∷ rects) rs s room h =
    let one = wanted flags (party_slot_flag i) r in
    let more = length-next flags (party_slot_flag i) r rs (length rs) (omega arith) in
    rw (sym (append_assoc rs one (wanted_slots flags (suc i) rects))) (
      add_slots-Holding flags (suc i) rects (rs ++ one) (add_if flags (party_slot_flag i) r s)
        (omega arith) (add_if-Holding flags (party_slot_flag i) r rs s (omega arith) h))

wanted_slots-le :
    (flags : DirtyFlags) (i : ℕ) (rects : List DirtyRect)
    → length (wanted_slots flags i rects) ≤ length rects
wanted_slots-le flags i [] = omega arith
wanted_slots-le flags i (r ∷ rects) = omega (
  arith,
  length-append (wanted flags (party_slot_flag i) r) (wanted_slots flags (suc i) rects),
  wanted-le flags (party_slot_flag i) r,
  wanted_slots-le flags (suc i) rects,
)

module _ (flags : DirtyFlags) (r : ElementRegions) where
  -- The rectangles of the right sidebar above the party.
  abbrev heading : List DirtyRect
  heading =
      ((((([] ++ wanted flags game_title r.game_title_rect)
              ++ wanted flags trainer_name r.trainer_name_rect)
            ++ wanted flags money_line r.money_rect)
          ++ wanted flags pokedex r.pokedex_rect)
        ++ wanted flags party_header r.party_header_rect)

  -- The rectangles of all elements whose flags are set, in the order in which they are cleared.
  abbrev pub all_wanted : List DirtyRect
  all_wanted =
      ((((heading ++ wanted_slots flags 0 r.party_slots)
            ++ wanted flags location_lines r.location_rect)
          ++ wanted flags badges_lines r.badges_rect)
        ++ wanted flags playtime r.playtime_rect)
      ++ wanted flags bottom_bar r.bottom_bar_rect

  Held : ℕ → DirtyRects → List DirtyRect → Type 0
  Held n s rs = (length rs ≤ n) × Holding s rs

  add_if-Held :
      (flag : ℕ) (rect : DirtyRect) (n : ℕ) (s : DirtyRects) (rs : List DirtyRect)
      → n < 16
      → Held n s rs
      → Held (n + 1) (add_if flags flag rect s) (rs ++ wanted flags flag rect)
  unfolding Held
  add_if-Held flag rect n s rs room h = (
    length-next flags flag rect rs n h.0,
    add_if-Holding flags flag rect rs s (omega (arith, h.0)) h.1,
  )

  add_slots-Held :
      (n m : ℕ) (rects : List DirtyRect) (s : DirtyRects) (rs : List DirtyRect)
      → n + length rects ≡ m
      → m ≤ 16
      → Held n s rs
      → Held m (add_slots flags 0 rects s) (rs ++ wanted_slots flags 0 rects)
  unfolding Held
  add_slots-Held n m rects s rs total room h = (
    omega
        (arith, h.0, length-append rs (wanted_slots flags 0 rects), wanted_slots-le flags 0 rects),
    add_slots-Holding flags 0 rects rs s (omega (arith, h.0)) h.1,
  )

  no_rects-Held : Held 0 no_rects []
  unfolding Held Holding no_rects
  no_rects-Held = (omega arith, λ i. record { rects = sym (slots-nil 16) i; count = 0 })

  get_dirty_rects-Held : length r.party_slots ≡ 6 → Held 15 (get_dirty_rects r flags) all_wanted
  unfolding get_dirty_rects
  get_dirty_rects-Held six =
      let h1 = add_if-Held game_title r.game_title_rect 0 _ _ (omega arith) no_rects-Held in
      let h2 = add_if-Held trainer_name r.trainer_name_rect 1 _ _ (omega arith) h1 in
      let h3 = add_if-Held money_line r.money_rect 2 _ _ (omega arith) h2 in
      let h4 = add_if-Held pokedex r.pokedex_rect 3 _ _ (omega arith) h3 in
      let h5 = add_if-Held party_header r.party_header_rect 4 _ _ (omega arith) h4 in
      let h11 = add_slots-Held 5 11 r.party_slots _ _ (omega arith) (omega arith) h5 in
      let h12 = add_if-Held location_lines r.location_rect 11 _ _ (omega arith) h11 in
      let h13 = add_if-Held badges_lines r.badges_rect 12 _ _ (omega arith) h12 in
      let h14 = add_if-Held playtime r.playtime_rect 13 _ _ (omega arith) h13 in
      add_if-Held bottom_bar r.bottom_bar_rect 14 _ _ (omega arith) h14

  -- Every element with a party of six slots: the rectangles to clear are those of all elements
  -- whose flags are set, in their order; the array of sixteen drops none.
  pub get_dirty_rects_lem : length r.party_slots ≡ 6 → iter (get_dirty_rects r flags) ≡ all_wanted
  unfolding Held Holding
  get_dirty_rects_lem six =
      let h = get_dirty_rects-Held six in
      ap iter h.1 ∙ filled-slots 16 all_wanted (omega (arith, h.0))
