-- ===== src/Overlay/Tests.antt =====
-- Tests of the overlay's dirty flags, and its theorems at a concrete party.
use gb_os.Base.{ℕ, ◌+◌, ◌≡◌, refl, ◌↔◌, none, some, [], ◌∷◌}
use gb_os.Base.Word.{u32}
use gb_os.Overlay.{
  red, TrainerData, PartyState, DirtyFlags, money_line, CachedLocation, OverlayCache, new,
  compare_and_update,
}
use gb_os.Overlay.Frames.{snapshot, compare_and_update_lem}
use gb_os.Overlay.Rects.{
  DirtyRect, ElementRegions, iter, get_dirty_rects, all_wanted, get_dirty_rects_lem,
}

abbrev trainer : TrainerData
trainer = record {
  name = 0x80 ∷ 0x81 ∷ 0x50 ∷ [];
  money = 3000;
  badges = 1;
  badges_kanto = 0;
  play_hours = 2;
  pokedex_owned = 4;
}

abbrev party : PartyState
party = record {
  count = 1;
  pokemon =
      some (record { species = 25; level = 12; hp_current = 30; hp_max = 34 })
      ∷ none
      ∷ none
      ∷ none
      ∷ none
      ∷ none
      ∷ [];
}

abbrev home : CachedLocation
home = record { map = 1; x = 5; y = 6 }

abbrev shown : OverlayCache
shown = snapshot 9 trainer party.pokemon home red

-- The first frame draws everything.
first_frame : (compare_and_update new trainer party home red).0.bits ≡ 0x7FFF
unfolding compare_and_update new
first_frame = refl

-- After a purchase only the line of the money is drawn.
purchase :
    (compare_and_update shown (record trainer { money = 2800 }) party home red).0.bits ≡ money_line
unfolding compare_and_update
purchase = refl

compare_and_update_lem_example :
    ((compare_and_update shown trainer party home red).0.bits ≡ 0
      ↔ shown ≡ snapshot shown.frame_count trainer party.pokemon home red)
    × (compare_and_update shown trainer party home red).1
      ≡ snapshot (u32 (shown.frame_count + 1)) trainer party.pokemon home red
compare_and_update_lem_example = compare_and_update_lem shown trainer party home red refl refl

abbrev box : ℕ → DirtyRect
box n = record { x = 248; y = n; width = 64; height = 7 }

abbrev regions : ElementRegions
regions = record {
  game_title_rect = box 4;
  trainer_name_rect = box 14;
  money_rect = box 21;
  pokedex_rect = box 30;
  party_header_rect = box 41;
  party_slots = box 48 ∷ box 55 ∷ box 62 ∷ box 69 ∷ box 76 ∷ box 83 ∷ [];
  location_rect = box 2;
  badges_rect = box 27;
  playtime_rect = box 45;
  bottom_bar_rect = box 172;
}

abbrev money_and_bar : DirtyFlags
money_and_bar = record { bits = 0x4004 }

two_rects : iter (get_dirty_rects regions money_and_bar) ≡ box 21 ∷ box 172 ∷ []
unfolding get_dirty_rects
two_rects = refl

get_dirty_rects_lem_example :
    iter (get_dirty_rects regions money_and_bar) ≡ all_wanted money_and_bar regions
get_dirty_rects_lem_example = get_dirty_rects_lem money_and_bar regions refl
