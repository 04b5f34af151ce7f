-- ===== src/Mm/Intrusive/Links.antt =====
-- What it is for nodes to be linked in a given order, and how writes to nodes act on it.
use mathlib.Core.Path.{subst}
use gb_os.Base.{
  ℕ, ◌≡◌, ◌≢◌, refl, sym, ap, ◌∙◌, Bool, true, false, ◌||◌, Option, none, some, List, [], ◌∷◌, ◌++◌,
  inl, inr, arith,
}
use gb_os.Base.{◌==◌, ==_iff, if◌then◌else◌, Bool-cases}
use gb_os.Mm.Intrusive.{IntrusiveNode, Nodes, update, set_next, set_prev}

abbrev pub mem : ℕ → List ℕ → Bool
mem a [] = false
mem a (x ∷ xs) = if x == a then true else mem a xs

abbrev pub Distinct : List ℕ → Type 0
Distinct [] = Unit {0}
Distinct (x ∷ xs) = (mem x xs ≡ false) × Distinct xs

-- The first address, or the one that follows the list.
abbrev pub first : List ℕ → Option ℕ → Option ℕ
first [] q = q
first (x ∷ xs) q = some x

-- The last address, or the one before the list.
abbrev pub last : List ℕ → Option ℕ → Option ℕ
last [] p = p
last (x ∷ xs) p = last xs (some x)

-- The nodes of `xs` are linked in this order, after `p` and before `q`.
abbrev pub Links : Nodes → Option ℕ → List ℕ → Option ℕ → Type 0
Links ns p [] q = Unit {0}
Links ns p (x ∷ xs) q = ((ns x).prev ≡ p) × ((ns x).next ≡ first xs q) × Links ns (some x) xs q

pub mem-append : (a : ℕ) (xs ys : List ℕ) → mem a (xs ++ ys) ≡ (mem a xs || mem a ys)
mem-append a [] ys = refl
mem-append a (x ∷ xs) ys = ground (arith, mem-append a xs ys)

pub Distinct-left : (xs ys : List ℕ) → Distinct (xs ++ ys) → Distinct xs
Distinct-left [] ys h = tt
Distinct-left (x ∷ xs) ys h = (ground (arith, mem-append x xs ys, h.0), Distinct-left xs ys h.1)

pub Distinct-right : (xs ys : List ℕ) → Distinct (xs ++ ys) → Distinct ys
Distinct-right [] ys h = h
Distinct-right (x ∷ xs) ys h = Distinct-right xs ys h.1

-- No address stands in both parts.
pub Distinct-apart :
    (xs ys : List ℕ) (a : ℕ) → Distinct (xs ++ ys) → mem a xs ≡ true → mem a ys ≡ false
Distinct-apart [] ys a h m = ground arith
Distinct-apart (x ∷ xs) ys a h m = elim (Bool-cases (x == a)) [
  | inl here ↦
      let same = (==_iff x a).0 here in
      ground (arith, mem-append x xs ys, h.0, ap (λ t. mem t ys) same)
  | inr there ↦ Distinct-apart xs ys a h.1 (ground arith)
]

pub first-append : (xs ys : List ℕ) (q : Option ℕ) → first (xs ++ ys) q ≡ first xs (first ys q)
first-append [] ys q = refl
first-append (x ∷ xs) ys q = refl

pub last-append : (xs ys : List ℕ) (p : Option ℕ) → last (xs ++ ys) p ≡ last ys (last xs p)
last-append [] ys p = refl
last-append (x ∷ xs) ys p = last-append xs ys (some x)

pub Links-append :
    (ns : Nodes) (p : Option ℕ) (xs ys : List ℕ) (q : Option ℕ)
    → Links ns p xs (first ys q)
    → Links ns (last xs p) ys q
    → Links ns p (xs ++ ys) q
Links-append ns p [] ys q h k = k
Links-append ns p (x ∷ xs) ys q h k =
    (h.0, h.1 ∙ sym (first-append xs ys q), Links-append ns (some x) xs ys q h.2 k)

pub Links-left :
    (ns : Nodes) (p : Option ℕ) (xs ys : List ℕ) (q : Option ℕ)
    → Links ns p (xs ++ ys) q
    → Links ns p xs (first ys q)
Links-left ns p [] ys q h = tt
Links-left ns p (x ∷ xs) ys q h =
    (h.0, h.1 ∙ first-append xs ys q, Links-left ns (some x) xs ys q h.2)

pub Links-right :
    (ns : Nodes) (p : Option ℕ) (xs ys : List ℕ) (q : Option ℕ)
    → Links ns p (xs ++ ys) q
    → Links ns (last xs p) ys q
Links-right ns p [] ys q h = h
Links-right ns p (x ∷ xs) ys q h = Links-right ns (some x) xs ys q h.2

-- A write to a node that is not of the list.
pub Links-update :
    (ns : Nodes) (a : ℕ) (n : IntrusiveNode) (p : Option ℕ) (xs : List ℕ) (q : Option ℕ)
    → mem a xs ≡ false
    → Links ns p xs q
    → Links (update ns a n) p xs q
Links-update ns a n p [] q out h = tt
Links-update ns a n p (x ∷ xs) q out h =
    (ground arith, ground arith, Links-update ns a n (some x) xs q (ground arith) h.2)

-- Nodes that agree on a list are linked alike.
pub Links-agree :
    (ns ns' : Nodes) (p : Option ℕ) (xs : List ℕ) (q : Option ℕ)
    → ((a : ℕ) → mem a xs ≡ true → ns' a ≡ ns a)
    → Links ns p xs q
    → Links ns' p xs q
Links-agree ns ns' p [] q same h = tt
Links-agree ns ns' p (x ∷ xs) q same h =
    let here = same x (ground arith) in
    (
      rw here (h.0),
      rw here (h.1),
      Links-agree ns ns' (some x) xs q (λ a m. same a (ground arith)) h.2,
    )

-- The write of `v` after the last node of a list, if it has one.
abbrev pub set_next_of : Nodes → Option ℕ → Option ℕ → Nodes
set_next_of ns none v = ns
set_next_of ns (some a) v = set_next ns a v

abbrev pub set_prev_of : Nodes → Option ℕ → Option ℕ → Nodes
set_prev_of ns none v = ns
set_prev_of ns (some a) v = set_prev ns a v

pub last-mem :
    (x : ℕ) (xs : List ℕ) → (t : ℕ) × (last xs (some x) ≡ some t) × (mem t (x ∷ xs) ≡ true)
last-mem x [] = (x, refl, ground arith)
last-mem x (y ∷ xs) = let (t, e, m) = last-mem y xs in (t, e, ground arith)

Links-set_next :
    (ns : Nodes) (p : Option ℕ) (x : ℕ) (xs : List ℕ) (q v : Option ℕ) (t : ℕ)
    → Distinct (x ∷ xs)
    → last xs (some x) ≡ some t
    → Links ns p (x ∷ xs) q
    → Links (set_next ns t v) p (x ∷ xs) v
Links-set_next ns p x [] q v t d e h = (ground arith, ground arith, tt)
Links-set_next ns p x (y ∷ xs) q v t d e h =
    let (t', e', m) = last-mem y xs in
    (ground arith, ground arith, Links-set_next ns (some x) y xs q v t d.1 e h.2)

-- After that write the list stands before `v`.
pub Links-set_next_of :
    (ns : Nodes) (p : Option ℕ) (xs : List ℕ) (q v : Option ℕ)
    → Distinct xs
    → Links ns p xs q
    → Links (set_next_of ns (last xs none) v) p xs v
Links-set_next_of ns p [] q v d h = tt
Links-set_next_of ns p (x ∷ xs) q v d h =
    let (t, e, m) = last-mem x xs in
    subst (λ o. Links (set_next_of ns o v) p (x ∷ xs) v) (sym e)
      (Links-set_next ns p x xs q v t d e h)

pub Links-set_prev_of :
    (ns : Nodes) (p : Option ℕ) (xs : List ℕ) (q u : Option ℕ)
    → Distinct xs
    → Links ns p xs q
    → Links (set_prev_of ns (first xs none) u) u xs q
Links-set_prev_of ns p [] q u d h = tt
Links-set_prev_of ns p (x ∷ xs) q u d h =
    (ground arith, ground arith, Links-update ns x _ (some x) xs q d.0 h.2)

-- These writes leave a node alone that is not of the list.
pub set_next_of_other :
    (ns : Nodes) (xs : List ℕ) (v : Option ℕ) (a : ℕ)
    → mem a xs ≡ false
    → set_next_of ns (last xs none) v a ≡ ns a
set_next_of_other ns [] v a out = refl
set_next_of_other ns (x ∷ xs) v a out =
    let (t, e, m) = last-mem x xs in
    let differs : t ≢ a = λ same. ground (arith, ap (λ b. mem b (x ∷ xs)) same) in
    subst (λ o. set_next_of ns o v a ≡ ns a) (sym e) (ground arith)

pub set_prev_of_other :
    (ns : Nodes) (xs : List ℕ) (v : Option ℕ) (a : ℕ)
    → mem a xs ≡ false
    → set_prev_of ns (first xs none) v a ≡ ns a
set_prev_of_other ns [] v a out = refl
set_prev_of_other ns (x ∷ xs) v a out = ground arith

pub Distinct-snoc : (xs : List ℕ) (a : ℕ) → mem a xs ≡ false → Distinct xs → Distinct (xs ++ a ∷ [])
Distinct-snoc [] a out d = (refl, tt)
Distinct-snoc (x ∷ xs) a out d =
    (ground (arith, mem-append x xs (a ∷ []), d.0), Distinct-snoc xs a (ground arith) d.1)

pub Distinct-without :
    (xs : List ℕ) (a : ℕ) (ys : List ℕ) → Distinct (xs ++ a ∷ ys) → Distinct (xs ++ ys)
Distinct-without [] a ys d = d.1
Distinct-without (x ∷ xs) a ys d = (
  ground (arith, mem-append x xs (a ∷ ys), mem-append x xs ys, d.0),
  Distinct-without xs a ys d.1,
)

pub Distinct-append :
    (xs ys : List ℕ)
    → Distinct xs
    → Distinct ys
    → ((a : ℕ) → mem a xs ≡ true → mem a ys ≡ false)
    → Distinct (xs ++ ys)
Distinct-append [] ys d e apart = e
Distinct-append (x ∷ xs) ys d e apart = (
  ground (arith, mem-append x xs ys, d.0, apart x),
  Distinct-append xs ys d.1 e (λ a m. apart a (ground arith)),
)
