-- ===== src/EventChains/Context/Laws.antt =====
-- The store as a map: what a write shows to later reads.
use gb_os.Base.{
  ℕ, zero, suc, ◌<◌, ◌≤◌, ◌≡◌, refl, ap, true, false, ◌&&◌, ◌||◌, Option, none, some, List, [], ◌∷◌,
  ◌++◌, min, inl, inr, arith,
}
use gb_os.Base.{ltb, if◌then◌else◌, length, take, drop, get_elem?, Bool-cases, Option-cases, All}
use mathlib.Core.Option
use mathlib.Core.Path.{ap₂}
use gb_os.EventChains.Value.{ContextValue}
use gb_os.EventChains.Context.{
  ContextEntry, EventContext, Key, max_entries, same_bytes, holds, find_in, find_key, get_value,
  fill, fill_first, has_free, update_at, with_value, set_value, has,
}

pub same_bytes→eq : (xs ys : List ℕ) → same_bytes xs ys ≡ true → xs ≡ ys
unfolding same_bytes
same_bytes→eq [] [] h = refl
same_bytes→eq [] (y ∷ ys) h = ground arith
same_bytes→eq (x ∷ xs) [] h = ground arith
same_bytes→eq (x ∷ xs) (y ∷ ys) h = ground (arith, same_bytes→eq xs ys)

pub same_bytes_refl : (xs : List ℕ) → same_bytes xs xs ≡ true
unfolding same_bytes
same_bytes_refl [] = refl
same_bytes_refl (x ∷ xs) = ground (arith, same_bytes_refl xs)

pub same_bytes-length : (xs ys : List ℕ) → same_bytes xs ys ≡ true → length xs ≡ length ys
same_bytes-length xs ys h = ap length (same_bytes→eq xs ys h)

take-append : (xs ys : List ℕ) → take (length xs) (xs ++ ys) ≡ xs
take-append [] ys = refl
take-append (x ∷ xs) ys = ap₂ ◌∷◌ refl (take-append xs ys)

take_whole : (xs : List ℕ) → take (length xs) xs ≡ xs
take_whole [] = refl
take_whole (x ∷ xs) = ap₂ ◌∷◌ refl (take_whole xs)

-- The number of entries in use.
abbrev pub used : List ContextEntry → ℕ
used [] = 0
used (e ∷ es) = if e.occupied then suc (used es) else used es

pub record IsValid (c : EventContext) : Type 0 where
  pub size : length c.entries ≡ max_entries
  pub counted : c.count ≡ used c.entries
  pub bounded : All (λ e. e.key_len ≤ 32) c.entries

-- The value of the first entry that holds the key.
seek : Key → List ContextEntry → Option ContextValue
seek key [] = none
seek key (e ∷ es) = if holds e key then some e.value else seek key es

get_in : Key → List ContextEntry → Option ContextValue
get_in key es = elim (find_in key es) [
  | none ↦ none
  | some idx ↦ Option.map (λ e. e.value) (get_elem? es idx)
]

get_in-eq-seek : (key : Key) (es : List ContextEntry) → get_in key es ≡ seek key es
unfolding get_in find_in seek
get_in-eq-seek key [] = refl
get_in-eq-seek key (e ∷ es) = elim (Option-cases (find_in key es)) [
  | inl missing ↦ ground (arith, get_in-eq-seek key es)
  | inr (i, found) ↦ ground (arith, get_in-eq-seek key es)
]

get_value-eq-seek : (c : EventContext) (key : Key) → get_value c key ≡ seek key c.entries
unfolding get_value find_key get_in
get_value-eq-seek c key = get_in-eq-seek key c.entries

-- An entry that holds a key holds it alone.
holds-eq : (e : ContextEntry) (k j : Key) → holds e k ≡ true → holds e j ≡ same_bytes k j
unfolding holds
holds-eq e k j h =
    let eq = same_bytes→eq (take e.key_len e.key) k (ground arith) in
    let here : e.occupied ≡ true = ground arith in
    let lengths : e.key_len ≡ length k = ground arith in
    elim (Bool-cases (same_bytes k j)) [
      | inl same ↦ ground (arith, same_bytes-length k j same, ap (λ t. same_bytes t j) eq)
      | inr differs ↦ ground (arith, ap (λ t. same_bytes t j) eq)
    ]

holds-with_value :
    (e : ContextEntry) (j : Key) (v : ContextValue) → holds (with_value v e) j ≡ holds e j
unfolding holds
holds-with_value e j v = refl

seek-update :
    (es : List ContextEntry) (k j : Key) (v : ContextValue) (i : ℕ)
    → find_in k es ≡ some i
    → seek j (update_at i (with_value v) es) ≡ (if same_bytes k j then some v else seek j es)
unfolding seek find_in update_at
seek-update [] k j v i h = ground arith
seek-update (e ∷ es) k j v zero h = ground (arith, holds-with_value e j v, holds-eq e k j)
seek-update (e ∷ es) k j v (suc i) h =
    ground (arith, holds-eq e j k, same_bytes→eq k j, same_bytes_refl k, seek-update es k j v i)

fill-holds :
    (e : ContextEntry) (k j : Key) (v : ContextValue)
    → length k ≤ 32
    → holds (fill e k v) j ≡ same_bytes k j
unfolding holds fill
fill-holds e k j v h =
    let copied : min (length k) 32 ≡ length k = omega arith in
    rw (copied, take_whole k, take-append k (drop (length k) e.key))
      (ground (arith, same_bytes-length k j))

holds_vacant : (e : ContextEntry) (j : Key) → e.occupied ≡ false → holds e j ≡ false
unfolding holds
holds_vacant e j h = rw h refl

seek-fill_first :
    (es : List ContextEntry) (k j : Key) (v : ContextValue)
    → length k ≤ 32
    → find_in k es ≡ none
    → has_free es ≡ true
    → seek j (fill_first k v es) ≡ (if same_bytes k j then some v else seek j es)
unfolding seek find_in fill_first has_free
seek-fill_first [] k j v short missing free = ground arith
seek-fill_first (e ∷ es) k j v short missing free = elim (Bool-cases e.occupied) [
  | inl busy ↦
      ground (
        arith,
        holds-eq e j k,
        same_bytes→eq k j,
        same_bytes_refl k,
        seek-fill_first es k j v short,
      )
  | inr vacant ↦ ground (arith, fill-holds e k j v short, holds_vacant e j vacant)
]

used-le-length : (es : List ContextEntry) → used es ≤ length es
used-le-length [] = omega arith
used-le-length (e ∷ es) = ground (arith, used-le-length es)

pub free_of_used : (es : List ContextEntry) → used es < length es → has_free es ≡ true
unfolding has_free
free_of_used [] h = absurd (omega arith)
free_of_used (e ∷ es) h = ground (arith, free_of_used es)

pub used-fill_first :
    (es : List ContextEntry) (k : Key) (v : ContextValue)
    → has_free es ≡ true
    → used (fill_first k v es) ≡ suc (used es)
unfolding has_free fill_first fill
used-fill_first [] k v h = ground arith
used-fill_first (e ∷ es) k v h = ground (arith, used-fill_first es k v)

-- A write of a key of at most 32 bytes is what later reads of that key give, and no other key
-- changes; only where the key is new and all 32 entries are in use the write is lost.
pub get_value-set_value :
    (c : EventContext) (k j : Key) (v : ContextValue)
    → IsValid c
    → length k ≤ 32
    → get_value (set_value c k v) j
      ≡ (if same_bytes k j && (has c k || ltb c.count 32) then some v else get_value c j)
unfolding set_value has find_key
get_value-set_value c k j v valid short =
    rw (get_value-eq-seek c j, get_value-eq-seek (set_value c k v) j)
      (elim (Option-cases (find_in k c.entries)) [
        | inl missing ↦
            ground (arith, seek-fill_first c.entries k j v short, free_of_used c.entries)
        | inr (i, found) ↦ ground (arith, seek-update c.entries k j v i found)
      ])
