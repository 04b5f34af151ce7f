-- ===== src/EventChains/Context.antt =====
-- The store that passes through a chain, kernel/src/event_chains/context.rs: 32 entries with keys
-- of at most 32 bytes. A key is the bytes of the source's `&str`.
pub mod Laws
pub mod Typed
pub mod Invariant
use gb_os.Base.{
  ℕ, zero, suc, ◌-◌, ◌<◌, Bool, true, false, ◌&&◌, not, Option, none, some, List, [], ◌∷◌, ◌++◌,
  min,
}
use gb_os.Base.{◌==◌, leb, if◌then◌else◌, length, take, drop, set, get_elem?, replicate}
use mathlib.Core.Option
use gb_os.EventChains.Value.{ContextValue}

abbrev pub Key : Type 0
Key = List ℕ

abbrev pub max_entries : ℕ
max_entries = 32

abbrev pub max_key_len : ℕ
max_key_len = 32

pub record ContextEntry : Type 0 where
  pub key : List ℕ
  pub key_len : ℕ
  pub value : ContextValue
  pub occupied : Bool

unfoldable pub empty : ContextEntry
empty = record {
  key = replicate max_key_len 0;
  key_len = 0;
  value = ContextValue.none;
  occupied = false;
}

pub record EventContext : Type 0 where
  pub entries : List ContextEntry
  pub count : ℕ

unfoldable pub new : EventContext
unfolding empty
new = record { entries = replicate max_entries empty; count = 0 }

-- Equality of byte slices.
unfoldable pub same_bytes : List ℕ → List ℕ → Bool
same_bytes [] [] = true
same_bytes [] (y ∷ ys) = false
same_bytes (x ∷ xs) [] = false
same_bytes (x ∷ xs) (y ∷ ys) = if x == y then same_bytes xs ys else false

-- The test of `find_key` on one entry.
unfoldable pub holds : ContextEntry → Key → Bool
unfolding same_bytes
holds e key = e.occupied && e.key_len == length key && same_bytes (take e.key_len e.key) key

unfoldable pub find_in : Key → List ContextEntry → Option ℕ
unfolding holds
find_in key [] = none
find_in key (e ∷ es) = if holds e key then some 0 else Option.map suc (find_in key es)

unfoldable pub find_key : EventContext → Key → Option ℕ
unfolding find_in
find_key c key = find_in key c.entries

unfoldable pub get_value : EventContext → Key → Option ContextValue
unfolding find_key
get_value c key = elim (find_key c key) [
  | none ↦ none
  | some idx ↦ Option.map (λ e. e.value) (get_elem? c.entries idx)
]

-- The write of a new key into a free entry.
unfoldable pub fill : ContextEntry → Key → ContextValue → ContextEntry
fill e key value =
    let copy_len = min (length key) max_key_len in
    record {
      key = take copy_len key ++ drop copy_len e.key;
      key_len = copy_len;
      value = value;
      occupied = true;
    }

-- The loop over the entries of `set_value`: the first free entry is filled, if there is one.
unfoldable pub fill_first : Key → ContextValue → List ContextEntry → List ContextEntry
unfolding fill
fill_first key value [] = []
fill_first key value (e ∷ es) =
    if e.occupied then e ∷ fill_first key value es else fill e key value ∷ es

unfoldable pub has_free : List ContextEntry → Bool
has_free [] = false
has_free (e ∷ es) = if e.occupied then has_free es else true

-- The write of a value at an entry that holds the key.
unfoldable pub update_at : ℕ → (ContextEntry → ContextEntry) → List ContextEntry → List ContextEntry
update_at i f [] = []
update_at zero f (e ∷ es) = f e ∷ es
update_at (suc i) f (e ∷ es) = e ∷ update_at i f es

abbrev pub with_value : ContextValue → ContextEntry → ContextEntry
with_value value e = record e { value = value }

abbrev pub vacated : ContextEntry → ContextEntry
vacated e = record e { occupied = false }

unfoldable pub set_value : EventContext → Key → ContextValue → EventContext
unfolding find_key update_at fill_first has_free
set_value c key value = elim (find_key c key) [
  | some idx ↦ record c { entries = update_at idx (with_value value) c.entries }
  | none ↦
      if leb max_entries c.count
      then c
      else if has_free c.entries
      then record { entries = fill_first key value c.entries; count = suc c.count }
      else c
]

unfoldable pub has : EventContext → Key → Bool
unfolding find_key
has c key = elim (find_key c key) [ some _ ↦ true | none ↦ false ]

unfoldable pub remove : EventContext → Key → EventContext
unfolding find_key update_at
remove c key = elim (find_key c key) [
  | some idx ↦ record { entries = update_at idx vacated c.entries; count = c.count - 1 }
  | none ↦ c
]

unfoldable pub vacate_all : List ContextEntry → List ContextEntry
vacate_all [] = []
vacate_all (e ∷ es) = vacated e ∷ vacate_all es

unfoldable pub clear : EventContext → EventContext
unfolding vacate_all
clear c = record { entries = vacate_all c.entries; count = 0 }

unfoldable pub len : EventContext → ℕ
len c = c.count

unfoldable pub is_empty : EventContext → Bool
is_empty c = c.count == 0
