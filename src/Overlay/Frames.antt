-- ===== src/Overlay/Frames.antt =====
-- The overlay's cache from frame to frame (`OverlayCache::compare_and_update` of
-- kernel/src/overlay/dirty_region.rs): when it reports that nothing is to be drawn, and what it holds
-- afterwards.
use gb_os.Base.{ℕ, zero, suc, ◌+◌, ◌/◌, ◌≤◌, ◌<◌, bit_or, ◌≡◌, refl, sym, ap, ◌∙◌, ◌≢◌, ◌↔◌}
use gb_os.Base.{Bool, true, false, ◌&&◌, Option, List, [], ◌∷◌, arith}
use gb_os.Base.{get_or, length, ◌==◌, ==_iff, if◌then◌else◌}
use mathlib.Core.List.{map}
use mathlib.Core.Path.{ap₂}
use gb_os.Base.Bits.{or_digit, or_comm}
use gb_os.Base.Word.{u32}
use gb_os.EventChains.Context.{same_bytes}
use gb_os.EventChains.Context.Laws.{same_bytes→eq, same_bytes_refl}
use gb_os.Overlay.{
  Game, red, blue, yellow, gold, silver, crystal, unknown, discriminant, Pokemon, TrainerData,
  PartyState, DirtyFlags, set_flag, CachedPokemon, from_pokemon, sidebar_changed, hp_changed,
  CachedTrainer, from_trainer, CachedLocation, OverlayCache, renew, slot_flags, compare_slots,
  compare_trainer, same_place, compare_and_update, party_slot_flag, bottom_bar, differ, game_title,
  all, trainer_name, money_line, pokedex, badges_lines, location_lines, playtime,
}

-- The cache of a frame that shows these data.
abbrev pub snapshot : ℕ → TrainerData → List (Option Pokemon) → CachedLocation → Game → OverlayCache
snapshot n t ps l g = record {
  trainer = from_trainer t;
  party = map from_pokemon ps;
  location = l;
  game = g;
  initialized = true;
  frame_count = n;
}

or-ge : (k a b : ℕ) → b ≤ k → b ≤ bit_or a b
or-ge zero a b h = omega arith
or-ge (suc k) a zero h = omega arith
or-ge (suc k) a (suc b) h =
    omega (arith, or_digit a (suc b), or-ge k (a / 2) (suc b / 2) (omega arith))

or_ge_left : (a b : ℕ) → a ≤ bit_or a b
or_ge_left a b = omega (arith, or_comm a b, or-ge a b a (omega arith))

set_flag_some : (d : DirtyFlags) (flag : ℕ) → 0 < flag → (set_flag d flag).bits ≢ 0
set_flag_some d flag h = omega (arith, or-ge flag d.bits flag (omega arith))

set_flag_keeps : (d : DirtyFlags) (flag : ℕ) → (set_flag d flag).bits ≡ 0 → d.bits ≡ 0
set_flag_keeps d flag h = omega (arith, or_ge_left d.bits flag)

same_place-eq : (l k : CachedLocation) → same_place l k ≡ true → l ≡ k
same_place-eq l k h =
    let m : l.map ≡ k.map = ground arith in
    let x : l.x ≡ k.x = ground arith in
    let y : l.y ≡ k.y = ground arith in λ i. record { map = m i; x = x i; y = y i }

abbrev of_discriminant : ℕ → Game
of_discriminant n = get_or (red ∷ blue ∷ yellow ∷ gold ∷ silver ∷ crystal ∷ []) n unknown

of_discriminant-discriminant : (g : Game) → of_discriminant (discriminant g) ≡ g
unfolding discriminant
of_discriminant-discriminant red = refl
of_discriminant-discriminant blue = refl
of_discriminant-discriminant yellow = refl
of_discriminant-discriminant gold = refl
of_discriminant-discriminant silver = refl
of_discriminant-discriminant crystal = refl
of_discriminant-discriminant unknown = refl

discriminant-eq : (g h : Game) → (discriminant g == discriminant h) ≡ true → g ≡ h
discriminant-eq g h e =
    sym (of_discriminant-discriminant g)
    ∙ ap of_discriminant ((==_iff (discriminant g) (discriminant h)).0 e)
    ∙ of_discriminant-discriminant h

module _ {A : Type 0} where
  renew_value :
      (b : Bool) (flag : ℕ) (now : A) (d : DirtyFlags) (old : A)
      → (b ≡ true → old ≡ now)
      → (renew b flag now d old).1 ≡ now
  renew_value true flag now d old h = h refl
  renew_value false flag now d old h = refl

  renew_clean :
      (b : Bool) (flag : ℕ) (now : A) (d : DirtyFlags) (old : A)
      → 0 < flag
      → (renew b flag now d old).0.bits ≡ 0
      → d.bits ≡ 0 × b ≡ true
  renew_clean true flag now d old p h = (h, refl)
  renew_clean false flag now d old p h = absurd (set_flag_some d flag p h)

mark_clean :
    (b : Bool) (flag : ℕ) (d : DirtyFlags)
    → 0 < flag
    → (if b then set_flag d flag else d).bits ≡ 0
    → d.bits ≡ 0 × b ≡ false
mark_clean true flag d p h = absurd (set_flag_some d flag p h)
mark_clean false flag d p h = (h, refl)

differ-eq : (a b : Bool) → differ a b ≡ false → a ≡ b
differ-eq true true h = refl
differ-eq true false h = ground arith
differ-eq false true h = ground arith
differ-eq false false h = refl

differ_refl : (a : Bool) → differ a a ≡ false
differ_refl true = refl
differ_refl false = refl

unchanged-eq : (c o : CachedPokemon) → sidebar_changed c o ≡ false → hp_changed c o ≡ false → c ≡ o
unfolding sidebar_changed hp_changed
unchanged-eq c o side hp =
    let present = differ-eq c.present o.present (ground arith) in
    let species : c.species ≡ o.species = ground arith in
    let level : c.level ≡ o.level = ground arith in
    let current : c.hp_current ≡ o.hp_current = ground arith in
    let most : c.hp_max ≡ o.hp_max = ground arith in
    λ i. record {
      species = species i;
      level = level i;
      hp_current = current i;
      hp_max = most i;
      present = present i;
    }

slot_flags_clean :
    (i : ℕ) (old now : CachedPokemon) (d : DirtyFlags)
    → i < 6
    → (slot_flags i old now d).bits ≡ 0
    → d.bits ≡ 0 × old ≡ now
unfolding slot_flags
slot_flags_clean i old now d h clean =
    let side = (if sidebar_changed old now then set_flag d (party_slot_flag i) else d) in
    let (before, hp) = mark_clean (hp_changed old now) bottom_bar side (omega arith) clean in
    let (start, sidebar) =
      mark_clean (sidebar_changed old now) (party_slot_flag i) d (some_flag i h) before in
    (start, unchanged-eq old now sidebar hp)
  where
    some_flag : (i : ℕ) → i < 6 → 0 < party_slot_flag i
    some_flag zero h = omega arith
    some_flag (suc zero) h = omega arith
    some_flag (suc (suc zero)) h = omega arith
    some_flag (suc (suc (suc zero))) h = omega arith
    some_flag (suc (suc (suc (suc zero)))) h = omega arith
    some_flag (suc (suc (suc (suc (suc zero))))) h = omega arith
    some_flag (suc (suc (suc (suc (suc (suc i)))))) h = absurd (omega arith)

slot_flags_same : (i : ℕ) (now : CachedPokemon) (d : DirtyFlags) → slot_flags i now now d ≡ d
unfolding slot_flags sidebar_changed hp_changed
slot_flags_same i now d = ground (arith, differ_refl now.present)

compare_slots_value :
    (i : ℕ) (cs : List CachedPokemon) (ps : List (Option Pokemon)) (d : DirtyFlags)
    → length cs ≡ length ps
    → (compare_slots i cs ps d).1 ≡ map from_pokemon ps
unfolding compare_slots
compare_slots_value i [] [] d e = refl
compare_slots_value i [] (p ∷ ps) d e = absurd (omega arith)
compare_slots_value i (c ∷ cs) [] d e = absurd (omega arith)
compare_slots_value i (c ∷ cs) (p ∷ ps) d e =
    ap (λ t. from_pokemon p ∷ t)
      (compare_slots_value (suc i) cs ps (slot_flags i c (from_pokemon p) d) (omega arith))

compare_slots_clean :
    (i : ℕ) (cs : List CachedPokemon) (ps : List (Option Pokemon)) (d : DirtyFlags)
    → length cs ≡ length ps
    → i + length cs ≤ 6
    → (compare_slots i cs ps d).0.bits ≡ 0
    → d.bits ≡ 0 × cs ≡ map from_pokemon ps
unfolding compare_slots
compare_slots_clean i [] [] d e le clean = (clean, refl)
compare_slots_clean i [] (p ∷ ps) d e le clean = absurd (omega arith)
compare_slots_clean i (c ∷ cs) [] d e le clean = absurd (omega arith)
compare_slots_clean i (c ∷ cs) (p ∷ ps) d e le clean =
    let d' = slot_flags i c (from_pokemon p) d in
    let (here, rest) = compare_slots_clean (suc i) cs ps d' (omega arith) (omega arith) clean in
    let (start, first) = slot_flags_clean i c (from_pokemon p) d (omega arith) here in
    (start, ap₂ ◌∷◌ first rest)

compare_slots_same :
    (i : ℕ) (ps : List (Option Pokemon)) (d : DirtyFlags)
    → (compare_slots i (map from_pokemon ps) ps d).0 ≡ d
unfolding compare_slots
compare_slots_same i [] d = refl
compare_slots_same i (p ∷ ps) d =
    compare_slots_same (suc i) ps (slot_flags i (from_pokemon p) (from_pokemon p) d)
    ∙ slot_flags_same i (from_pokemon p) d

both-eq : (a b c d : ℕ) → (a == c && b == d) ≡ true → ◌≡◌ {A = ℕ × ℕ} (a, b) (c, d)
both-eq a b c d h = let l : a ≡ c = ground arith in let r : b ≡ d = ground arith in λ i. (l i, r i)

module _ (c : CachedTrainer) (t : TrainerData) (d : DirtyFlags) where
  -- The flags after each of the tests on the trainer but the last.
  abbrev after_name : DirtyFlags
  after_name = (renew (same_bytes c.name t.name) trainer_name t.name d c.name).0

  abbrev after_money : DirtyFlags
  after_money = (renew (c.money == t.money) money_line t.money after_name c.money).0

  abbrev after_owned : DirtyFlags
  after_owned =
      (renew (c.pokedex_owned == t.pokedex_owned) pokedex t.pokedex_owned after_money
        c.pokedex_owned).0

  abbrev same_badges : Bool
  same_badges = c.badges == t.badges && c.badges_kanto == t.badges_kanto

  abbrev both_badges : DirtyFlags × (ℕ × ℕ)
  both_badges =
      renew {A = ℕ × ℕ} same_badges badges_lines (t.badges, t.badges_kanto) after_owned
        (c.badges, c.badges_kanto)

  same_badges-eq :
      same_badges ≡ true → ◌≡◌ {A = ℕ × ℕ} (c.badges, c.badges_kanto) (t.badges, t.badges_kanto)
  same_badges-eq = both-eq c.badges c.badges_kanto t.badges t.badges_kanto

  compare_trainer_value : (compare_trainer c t d).1 ≡ from_trainer t
  unfolding compare_trainer
  compare_trainer_value =
      let name =
        renew_value (same_bytes c.name t.name) trainer_name t.name d c.name
          (same_bytes→eq c.name t.name) in
      let money =
        renew_value (c.money == t.money) money_line t.money after_name c.money
          ((==_iff c.money t.money).0) in
      let owned =
        renew_value (c.pokedex_owned == t.pokedex_owned) pokedex t.pokedex_owned after_money
          c.pokedex_owned ((==_iff c.pokedex_owned t.pokedex_owned).0) in
      let badges =
        renew_value {A = ℕ × ℕ} same_badges badges_lines (t.badges, t.badges_kanto) after_owned
          (c.badges, c.badges_kanto) same_badges-eq in
      let hours =
        renew_value (c.play_hours == t.play_hours) playtime t.play_hours both_badges.0 c.play_hours
          ((==_iff c.play_hours t.play_hours).0) in
      λ i. record {
        name = name i;
        money = money i;
        badges = (badges i).0;
        badges_kanto = (badges i).1;
        pokedex_owned = owned i;
        play_hours = hours i;
      }

  compare_trainer_clean : (compare_trainer c t d).0.bits ≡ 0 → d.bits ≡ 0 × c ≡ from_trainer t
  unfolding compare_trainer
  compare_trainer_clean clean =
      let (c4, e5) =
        renew_clean (c.play_hours == t.play_hours) playtime t.play_hours both_badges.0 c.play_hours
          (omega arith) clean in
      let (c3, e4) =
        renew_clean {A = ℕ × ℕ} same_badges badges_lines (t.badges, t.badges_kanto) after_owned
          (c.badges, c.badges_kanto) (omega arith) c4 in
      let (c2, e3) =
        renew_clean (c.pokedex_owned == t.pokedex_owned) pokedex t.pokedex_owned after_money
          c.pokedex_owned (omega arith) c3 in
      let (c1, e2) =
        renew_clean (c.money == t.money) money_line t.money after_name c.money (omega arith) c2 in
      let (c0, e1) =
        renew_clean (same_bytes c.name t.name) trainer_name t.name d c.name (omega arith) c1 in
      let name = same_bytes→eq c.name t.name e1 in
      let money = (==_iff c.money t.money).0 e2 in
      let owned = (==_iff c.pokedex_owned t.pokedex_owned).0 e3 in
      let badges = same_badges-eq e4 in
      let hours = (==_iff c.play_hours t.play_hours).0 e5 in
      (
        c0,
        λ i. record {
          name = name i;
          money = money i;
          badges = (badges i).0;
          badges_kanto = (badges i).1;
          pokedex_owned = owned i;
          play_hours = hours i;
        },
      )

compare_trainer_same :
    (t : TrainerData) (d : DirtyFlags) → (compare_trainer (from_trainer t) t d).0 ≡ d
unfolding compare_trainer
compare_trainer_same t d = ground (arith, same_bytes_refl t.name)

module _ (c : OverlayCache) (t : TrainerData) (p : PartyState) (l : CachedLocation) (g : Game)
    (six : length c.party ≡ 6) (slots : length p.pokemon ≡ 6) where
  abbrev first_flags : DirtyFlags
  first_flags = if c.initialized then record { bits = 0 } else record { bits = all }

  abbrev after_game : DirtyFlags
  after_game = (renew (discriminant c.game == discriminant g) game_title g first_flags c.game).0

  abbrev after_trainer : DirtyFlags
  after_trainer = (compare_trainer c.trainer t after_game).0

  abbrev after_place : DirtyFlags
  after_place = (renew (same_place c.location l) location_lines l after_trainer c.location).0

  compare_and_update_value :
      (compare_and_update c t p l g).1 ≡ snapshot (u32 (c.frame_count + 1)) t p.pokemon l g
  unfolding compare_and_update
  compare_and_update_value =
      let game =
        renew_value (discriminant c.game == discriminant g) game_title g first_flags c.game
          (discriminant-eq c.game g) in
      let trainer = compare_trainer_value c.trainer t after_game in
      let place =
        renew_value (same_place c.location l) location_lines l after_trainer c.location
          (same_place-eq c.location l) in
      let party = compare_slots_value 0 c.party p.pokemon after_place (six ∙ sym slots) in
      λ i. record {
        trainer = trainer i;
        party = party i;
        location = place i;
        game = game i;
        initialized = true;
        frame_count = u32 (c.frame_count + 1);
      }

  compare_and_update_clean :
      (compare_and_update c t p l g).0.bits ≡ 0 → c ≡ snapshot c.frame_count t p.pokemon l g
  unfolding compare_and_update
  compare_and_update_clean clean =
      let (c3, party) =
        compare_slots_clean 0 c.party p.pokemon after_place (six ∙ sym slots) (omega arith) clean in
      let (c2, e3) =
        renew_clean (same_place c.location l) location_lines l after_trainer c.location
          (omega arith) c3 in
      let (c1, trainer) = compare_trainer_clean c.trainer t after_game c2 in
      let (c0, e1) =
        renew_clean (discriminant c.game == discriminant g) game_title g first_flags c.game
          (omega arith) c1 in
      let game = discriminant-eq c.game g e1 in
      let place = same_place-eq c.location l e3 in
      let started : c.initialized ≡ true = ground arith in
      λ i. record {
        trainer = trainer i;
        party = party i;
        location = place i;
        game = game i;
        initialized = started i;
        frame_count = c.frame_count;
      }

compare_and_update_same :
    (n : ℕ) (t : TrainerData) (p : PartyState) (l : CachedLocation) (g : Game)
    → (compare_and_update (snapshot n t p.pokemon l g) t p l g).0.bits ≡ 0
unfolding compare_and_update
compare_and_update_same n t p l g =
    let same_map : same_place l l ≡ true = ground arith in
    let same_game : (discriminant g == discriminant g) ≡ true = ground arith in
    let start : DirtyFlags = record { bits = 0 } in
    let d1 = (renew (discriminant g == discriminant g) game_title g start g).0 in
    let d2 = (compare_trainer (from_trainer t) t d1).0 in
    let d3 = (renew (same_place l l) location_lines l d2 l).0 in
    ap (λ s. s.bits) (compare_slots_same 0 p.pokemon d3)
    ∙ ap (λ b. (renew b location_lines l d2 l).0.bits) same_map
    ∙ ap (λ s. s.bits) (compare_trainer_same t d1)
    ∙ ap (λ b. (renew b game_title g start g).0.bits) same_game

-- For a cache and a party of six slots: a frame reports nothing to draw exactly when the cache held
-- the data it is given already, from a frame that was not invalidated; and whatever it reports, the
-- cache holds the given data afterwards, with the frame counted.
pub compare_and_update_lem :
    (c : OverlayCache) (t : TrainerData) (p : PartyState) (l : CachedLocation) (g : Game)
    → length c.party ≡ 6
    → length p.pokemon ≡ 6
    → ((compare_and_update c t p l g).0.bits ≡ 0 ↔ c ≡ snapshot c.frame_count t p.pokemon l g)
      × (compare_and_update c t p l g).1 ≡ snapshot (u32 (c.frame_count + 1)) t p.pokemon l g
compare_and_update_lem c t p l g six slots = (
  (
    compare_and_update_clean c t p l g six slots,
    λ e.
        ap (λ s. (compare_and_update s t p l g).0.bits) e
        ∙ compare_and_update_same c.frame_count t p l g,
  ),
  compare_and_update_value c t p l g six slots,
)
