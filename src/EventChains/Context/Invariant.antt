-- ===== src/EventChains/Context/Invariant.antt =====
-- The invariant of the store under its operations, and what becomes of keys that are too long.
use gb_os.Base.{ℕ, zero, suc, ◌<◌, ◌≤◌, ◌≡◌, refl, true, none, some, List, [], ◌∷◌, inl, inr, arith}
use gb_os.Base.{
  leb, if_both, if_cases, length, replicate, length-replicate, Bool-cases, Option-cases, All,
  All-replicate,
}
use gb_os.EventChains.Value.{ContextValue}
use gb_os.EventChains.Context.{
  ContextEntry, EventContext, Key, max_entries, empty, new, holds, find_in, find_key, get_value,
  fill, fill_first, has_free, update_at, with_value, vacated, set_value, remove, vacate_all, clear,
  len,
}
use gb_os.EventChains.Context.Laws.{IsValid, used, free_of_used, used-fill_first}

abbrev IsBounded : ContextEntry → Type 0
IsBounded e = e.key_len ≤ 32

length-update_at :
    (es : List ContextEntry) (f : ContextEntry → ContextEntry) (i : ℕ)
    → length (update_at i f es) ≡ length es
unfolding update_at
length-update_at [] f i = refl
length-update_at (e ∷ es) f zero = refl
length-update_at (e ∷ es) f (suc i) = omega (arith, length-update_at es f i)

update_at-IsBounded :
    (es : List ContextEntry) (f : ContextEntry → ContextEntry) (i : ℕ)
    → ((e : ContextEntry) → IsBounded e → IsBounded (f e))
    → All IsBounded es
    → All IsBounded (update_at i f es)
unfolding update_at
update_at-IsBounded [] f i keeps h = tt
update_at-IsBounded (e ∷ es) f zero keeps h = (keeps e h.0, h.1)
update_at-IsBounded (e ∷ es) f (suc i) keeps h = (h.0, update_at-IsBounded es f i keeps h.1)

used-with_value :
    (es : List ContextEntry) (v : ContextValue) (i : ℕ)
    → used (update_at i (with_value v) es) ≡ used es
unfolding update_at
used-with_value [] v i = refl
used-with_value (e ∷ es) v zero = refl
used-with_value (e ∷ es) v (suc i) = ground (arith, used-with_value es v i)

holds-occupied : (e : ContextEntry) (k : Key) → holds e k ≡ true → e.occupied ≡ true
unfolding holds
holds-occupied e k h = ground arith

used-vacated :
    (es : List ContextEntry) (k : Key) (i : ℕ)
    → find_in k es ≡ some i
    → used es ≡ suc (used (update_at i vacated es))
unfolding update_at find_in
used-vacated [] k i h = ground arith
used-vacated (e ∷ es) k zero h = ground (arith, holds-occupied e k)
used-vacated (e ∷ es) k (suc i) h = ground (arith, used-vacated es k i)

length-fill_first :
    (es : List ContextEntry) (k : Key) (v : ContextValue) → length (fill_first k v es) ≡ length es
unfolding fill_first
length-fill_first [] k v = refl
length-fill_first (e ∷ es) k v = ground (arith, length-fill_first es k v)

fill_first-IsBounded :
    (es : List ContextEntry) (k : Key) (v : ContextValue)
    → All IsBounded es
    → All IsBounded (fill_first k v es)
unfolding fill_first fill
fill_first-IsBounded [] k v h = tt
fill_first-IsBounded (e ∷ es) k v h = elim (Bool-cases e.occupied) [
  | inl busy ↦ rw busy (h.0, fill_first-IsBounded es k v h.1)
  | inr vacant ↦ rw vacant (omega arith, h.1)
]

set_value-IsValid :
    (c : EventContext) (k : Key) (v : ContextValue) → IsValid c → IsValid (set_value c k v)
unfolding set_value find_key
set_value-IsValid c k v h = elim (Option-cases (find_in k c.entries)) [
  | inr (i, found) ↦
      rw (found, set_value, find_key)
        (record {
          size = omega (arith, length-update_at c.entries (with_value v) i, h.size);
          counted = omega (arith, used-with_value c.entries v i, h.counted);
          bounded = update_at-IsBounded c.entries (with_value v) i (λ e b. b) h.bounded;
        })
  | inl missing ↦
      rw (missing, set_value, find_key)
        (if_both IsValid (leb max_entries c.count) c _ h
          (if_cases IsValid (has_free c.entries) _ c (λ free. filled free) (λ full. h)))
]
  where
    filled :
        has_free c.entries ≡ true
        → IsValid (record { entries = fill_first k v c.entries; count = suc c.count })
    filled free = record {
      size = omega (arith, length-fill_first c.entries k v, h.size);
      counted = omega (arith, used-fill_first c.entries k v free, h.counted);
      bounded = fill_first-IsBounded c.entries k v h.bounded;
    }

remove-IsValid : (c : EventContext) (k : Key) → IsValid c → IsValid (remove c k)
unfolding remove find_key
remove-IsValid c k h = elim (Option-cases (find_in k c.entries)) [
  | inl missing ↦ rw (missing, remove, find_key) h
  | inr (i, found) ↦
      rw (found, remove, find_key)
        (record {
          size = omega (arith, length-update_at c.entries vacated i, h.size);
          counted = omega (arith, used-vacated c.entries k i found, h.counted);
          bounded = update_at-IsBounded c.entries vacated i (λ e b. b) h.bounded;
        })
]

used-vacate_all : (es : List ContextEntry) → used (vacate_all es) ≡ 0
unfolding vacate_all
used-vacate_all [] = refl
used-vacate_all (e ∷ es) = used-vacate_all es

length-vacate_all : (es : List ContextEntry) → length (vacate_all es) ≡ length es
unfolding vacate_all
length-vacate_all [] = refl
length-vacate_all (e ∷ es) = omega (arith, length-vacate_all es)

vacate_all-IsBounded : (es : List ContextEntry) → All IsBounded es → All IsBounded (vacate_all es)
unfolding vacate_all
vacate_all-IsBounded [] h = tt
vacate_all-IsBounded (e ∷ es) h = (h.0, vacate_all-IsBounded es h.1)

clear-IsValid : (c : EventContext) → IsValid c → IsValid (clear c)
unfolding clear
clear-IsValid c h = record {
  size = omega (arith, length-vacate_all c.entries, h.size);
  counted = omega (arith, used-vacate_all c.entries);
  bounded = vacate_all-IsBounded c.entries h.bounded;
}

used-empty : (n : ℕ) → used (replicate n empty) ≡ 0
unfolding replicate empty
used-empty zero = refl
used-empty (suc n) = used-empty n

new-IsValid : IsValid new
unfolding new empty replicate
new-IsValid = record {
  size = length-replicate 32 empty;
  counted = refl;
  bounded = All-replicate IsBounded 32 empty (omega arith);
}

-- The operations that change a store.
pub data ContextOp : Type 0 where
  sets : Key → ContextValue → ContextOp
  removes : Key → ContextOp
  clears : ContextOp

unfoldable pub perform : EventContext → ContextOp → EventContext
unfolding set_value remove clear
perform c (sets k v) = set_value c k v
perform c (removes k) = remove c k
perform c clears = clear c

unfoldable pub performs : EventContext → List ContextOp → EventContext
performs c [] = c
performs c (op ∷ ops) = performs (perform c op) ops

perform-IsValid : (c : EventContext) (op : ContextOp) → IsValid c → IsValid (perform c op)
unfolding perform
perform-IsValid c (sets k v) h = set_value-IsValid c k v h
perform-IsValid c (removes k) h = remove-IsValid c k h
perform-IsValid c clears h = clear-IsValid c h

performs_keep : (c : EventContext) (ops : List ContextOp) → IsValid c → IsValid (performs c ops)
unfolding performs
performs_keep c [] h = h
performs_keep c (op ∷ ops) h = performs_keep (perform c op) ops (perform-IsValid c op h)

-- After any sequence of writes, removals and clears of a new store: it has 32 entries, its count is
-- the number of entries in use, and every key has at most 32 bytes.
pub performs-IsValid : (ops : List ContextOp) → IsValid (performs new ops)
performs-IsValid ops = performs_keep new ops new-IsValid

long_key_missing :
    (es : List ContextEntry) (k : Key) → 32 < length k → All IsBounded es → find_in k es ≡ none
unfolding find_in holds
long_key_missing [] k long h = refl
long_key_missing (e ∷ es) k long h = ground (arith, long_key_missing es k)

-- A key of more than 32 bytes is stored where an entry is free, and cannot be read back: the write
-- takes one more entry every time, also where the key was written before.
pub long_key_lost :
    (c : EventContext) (k : Key) (v : ContextValue)
    → IsValid c
    → 32 < length k
    → len c < 32
    → (get_value (set_value c k v) k ≡ none) × (len (set_value c k v) ≡ suc (len c))
unfolding get_value set_value find_key len
long_key_lost c k v h long room =
    let after = set_value-IsValid c k v h in
    let missing = long_key_missing c.entries k long h.bounded in
    let missing' = long_key_missing (set_value c k v).entries k long after.bounded in
    let free = free_of_used c.entries (omega (arith, h.size, h.counted)) in
    (ground arith, ground arith)
