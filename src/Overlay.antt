-- ===== src/Overlay.antt =====
-- What of the overlay beside the game's picture is to be drawn again
-- (kernel/src/overlay/dirty_region.rs), with the data that it shows
-- (kernel/src/overlay/ram_layout.rs). `DirtyFlags` and `OverlayCache` are the structs of these names,
-- and the definitions have the names of their methods. The status condition and the moves of a
-- Pokemon and the minutes and seconds of the clock are left out: this code does not read them.
use gb_os.Base.{ℕ, zero, suc, ◌+◌, Bool, true, false, ◌||◌, ◌&&◌, not, Option, none, some}
use gb_os.Base.{List, [], ◌∷◌, bit_and, bit_or, ◌==◌, if◌then◌else◌, replicate, get_or}
use gb_os.Base.Word.{u32}
use gb_os.EventChains.Context.{same_bytes}
pub mod Frames
pub mod Rects
mod Tests

pub data Game : Type 0 where
  red : Game
  blue : Game
  yellow : Game
  gold : Game
  silver : Game
  crystal : Game
  unknown : Game

unfoldable pub discriminant : Game → ℕ
discriminant red = 0
discriminant blue = 1
discriminant yellow = 2
discriminant gold = 3
discriminant silver = 4
discriminant crystal = 5
discriminant unknown = 6

pub record Pokemon : Type 0 where
  pub species : ℕ
  pub level : ℕ
  pub hp_current : ℕ
  pub hp_max : ℕ

pub record TrainerData : Type 0 where
  pub name : List ℕ
  pub money : ℕ
  pub badges : ℕ
  pub badges_kanto : ℕ
  pub play_hours : ℕ
  pub pokedex_owned : ℕ

pub record PartyState : Type 0 where
  pub count : ℕ
  pub pokemon : List (Option Pokemon)

-- The fifteen flags, one for each element of the overlay.
abbrev pub game_title : ℕ
game_title = 0x1

abbrev pub trainer_name : ℕ
trainer_name = 0x2

abbrev pub money_line : ℕ
money_line = 0x4

abbrev pub pokedex : ℕ
pokedex = 0x8

abbrev pub party_header : ℕ
party_header = 0x10

abbrev pub location_lines : ℕ
location_lines = 0x800

abbrev pub badges_lines : ℕ
badges_lines = 0x1000

abbrev pub playtime : ℕ
playtime = 0x2000

abbrev pub bottom_bar : ℕ
bottom_bar = 0x4000

abbrev pub all : ℕ
all = 0x7FFF

abbrev pub party_slot_flag : ℕ → ℕ
party_slot_flag i = get_or (0x20 ∷ 0x40 ∷ 0x80 ∷ 0x100 ∷ 0x200 ∷ 0x400 ∷ []) i 0

pub record DirtyFlags : Type 0 where
  pub bits : ℕ

abbrev pub set_flag : DirtyFlags → ℕ → DirtyFlags
set_flag d flag = record { bits = bit_or d.bits flag }

unfoldable pub is_set : DirtyFlags → ℕ → Bool
is_set d flag = not (bit_and d.bits flag == 0)

pub record CachedPokemon : Type 0 where
  pub species : ℕ
  pub level : ℕ
  pub hp_current : ℕ
  pub hp_max : ℕ
  pub present : Bool

abbrev pub from_pokemon : Option Pokemon → CachedPokemon
from_pokemon (some p) = record {
  species = p.species;
  level = p.level;
  hp_current = p.hp_current;
  hp_max = p.hp_max;
  present = true;
}
from_pokemon none = record { species = 0; level = 0; hp_current = 0; hp_max = 0; present = false }

abbrev pub differ : Bool → Bool → Bool
differ true b = not b
differ false b = b

unfoldable pub sidebar_changed : CachedPokemon → CachedPokemon → Bool
sidebar_changed c o =
    differ c.present o.present || not (c.species == o.species) || not (c.level == o.level)

unfoldable pub hp_changed : CachedPokemon → CachedPokemon → Bool
hp_changed c o =
    differ c.present o.present || not (c.hp_current == o.hp_current) || not (c.hp_max == o.hp_max)

pub record CachedTrainer : Type 0 where
  pub name : List ℕ
  pub money : ℕ
  pub badges : ℕ
  pub badges_kanto : ℕ
  pub pokedex_owned : ℕ
  pub play_hours : ℕ

abbrev pub from_trainer : TrainerData → CachedTrainer
from_trainer t = record {
  name = t.name;
  money = t.money;
  badges = t.badges;
  badges_kanto = t.badges_kanto;
  pokedex_owned = t.pokedex_owned;
  play_hours = t.play_hours;
}

pub record CachedLocation : Type 0 where
  pub map : ℕ
  pub x : ℕ
  pub y : ℕ

pub record OverlayCache : Type 0 where
  pub trainer : CachedTrainer
  pub party : List CachedPokemon
  pub location : CachedLocation
  pub game : Game
  pub initialized : Bool
  pub frame_count : ℕ

unfoldable pub new : OverlayCache
unfolding replicate
new = record {
  trainer = record {
    name = replicate 11 0;
    money = 0;
    badges = 0;
    badges_kanto = 0;
    pokedex_owned = 0;
    play_hours = 0;
  };
  party = replicate 6 (from_pokemon none);
  location = record { map = 0; x = 0; y = 0 };
  game = unknown;
  initialized = false;
  frame_count = 0;
}

-- One test of `compare_and_update`: when the two values are not the same, the flag is set and the new
-- value is kept.
abbrev pub renew : {A : Type 0} → Bool → ℕ → A → DirtyFlags → A → DirtyFlags × A
renew true flag now d old = (d, old)
renew false flag now d old = (set_flag d flag, now)

-- The flags that slot `i` of the party sets.
unfoldable pub slot_flags : ℕ → CachedPokemon → CachedPokemon → DirtyFlags → DirtyFlags
unfolding sidebar_changed hp_changed
slot_flags i old now d =
    let side = (if sidebar_changed old now then set_flag d (party_slot_flag i) else d) in
    if hp_changed old now then set_flag side bottom_bar else side

-- The loop over the slots of the party, from slot `i` on; both arrays have six.
unfoldable pub compare_slots :
    ℕ → List CachedPokemon → List (Option Pokemon) → DirtyFlags → DirtyFlags × List CachedPokemon
unfolding slot_flags
compare_slots i (old ∷ olds) (p ∷ ps) d =
    let (d', rest) = compare_slots (suc i) olds ps (slot_flags i old (from_pokemon p) d) in
    (d', from_pokemon p ∷ rest)
compare_slots i [] ps d = (d, [])
compare_slots i (old ∷ olds) [] d = (d, old ∷ olds)

unfoldable pub compare_trainer :
    CachedTrainer → TrainerData → DirtyFlags → DirtyFlags × CachedTrainer
unfolding same_bytes
compare_trainer c t d =
    let (d1, name) = renew (same_bytes c.name t.name) trainer_name t.name d c.name in
    let (d2, money) = renew (c.money == t.money) money_line t.money d1 c.money in
    let (d3, owned) =
      renew (c.pokedex_owned == t.pokedex_owned) pokedex t.pokedex_owned d2 c.pokedex_owned in
    let (d4, badges) =
      renew {A = ℕ × ℕ} (c.badges == t.badges && c.badges_kanto == t.badges_kanto) badges_lines
        (t.badges, t.badges_kanto) d3 (c.badges, c.badges_kanto) in
    let (d5, hours) = renew (c.play_hours == t.play_hours) playtime t.play_hours d4 c.play_hours in
    (
      d5,
      record {
        name = name;
        money = money;
        badges = badges.0;
        badges_kanto = badges.1;
        pokedex_owned = owned;
        play_hours = hours;
      },
    )

abbrev pub same_place : CachedLocation → CachedLocation → Bool
same_place l k = l.map == k.map && l.x == k.x && l.y == k.y

unfoldable pub compare_and_update :
    OverlayCache → TrainerData → PartyState → CachedLocation → Game → DirtyFlags × OverlayCache
unfolding discriminant compare_trainer compare_slots
compare_and_update c t p l g =
    let first : DirtyFlags = if c.initialized then record { bits = 0 } else record { bits = all } in
    let (d1, game) = renew (discriminant c.game == discriminant g) game_title g first c.game in
    let (d2, trainer) = compare_trainer c.trainer t d1 in
    let (d3, place) = renew (same_place c.location l) location_lines l d2 c.location in
    let (d4, party) = compare_slots 0 c.party p.pokemon d3 in
    (
      d4,
      record {
        trainer = trainer;
        party = party;
        location = place;
        game = game;
        initialized = true;
        frame_count = u32 (c.frame_count + 1);
      },
    )

-- Everything is drawn again in the next frame.
abbrev pub invalidate : OverlayCache → OverlayCache
invalidate c = record c { initialized = false }
