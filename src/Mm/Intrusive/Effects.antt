-- ===== src/Mm/Intrusive/Effects.antt =====
-- What each operation on an intrusive list computes, where the list stands for some addresses.
use mathlib.Core.Path.{ap₂}
use mathlib.Core.List.{append-nil}
use gb_os.Base.{
  ℕ, ◌-◌, ◌≡◌, ◌≢◌, refl, sym, ap, ◌∙◌, true, false, Option, none, some, List, [], ◌∷◌, ◌++◌, arith,
}
use gb_os.Base.{length, length-append}
use gb_os.Mm.Intrusive.{
  IntrusiveNode, Nodes, IntrusiveList, unlinked, update, set_next, set_prev, new, push_front,
  push_back, pop_front, pop_back, remove,
}
use gb_os.Mm.Intrusive.Links.{
  mem, Distinct, first, last, Links, Distinct-apart, last-append, Links-right, set_next_of,
  set_prev_of, last-mem,
}

-- The list stands for these addresses, from front to back.
pub record IsList (ns : Nodes) (l : IntrusiveList) (xs : List ℕ) : Type 0 where
  pub head : l.head ≡ first xs none
  pub tail : l.tail ≡ last xs none
  pub len : l.len ≡ length xs
  pub links : Links ns none xs none
  pub distinct : Distinct xs

-- Nodes outside these addresses are as before.
abbrev pub SameOutside : List ℕ → Nodes → Nodes → Type 0
SameOutside xs ns ns' = (a : ℕ) → mem a xs ≡ false → ns' a ≡ ns a

pub new-IsList : (ns : Nodes) → IsList ns new []
unfolding new
new-IsList ns = record { head = refl; tail = refl; len = refl; links = tt; distinct = tt }

-- A list after an operation, by the addresses it stands for.
abbrev pub ends : List ℕ → IntrusiveList
ends xs = record { head = first xs none; tail = last xs none; len = length xs }

abbrev pub Is : List ℕ → IntrusiveList × Nodes → Type 0
Is xs r = IsList r.1 r.0 xs

pub ends-IsList :
    (ns : Nodes) (xs : List ℕ) → Links ns none xs none → Distinct xs → Is xs (ends xs, ns)
ends-IsList ns xs linked distinct = record {
  head = refl;
  tail = refl;
  len = refl;
  links = linked;
  distinct = distinct;
}

abbrev pub node : Option ℕ → Option ℕ → IntrusiveNode
node next prev = record { next = next; prev = prev }

-- The nodes after each operation.
unfoldable pub pushed_front : Nodes → ℕ → List ℕ → Nodes
pushed_front ns item xs =
    set_prev_of (update ns item (node (first xs none) none)) (first xs none) (some item)

unfoldable pub pushed_back : Nodes → ℕ → List ℕ → Nodes
pushed_back ns item xs =
    set_next_of (update ns item (node none (last xs none))) (last xs none) (some item)

unfoldable pub removed : Nodes → ℕ → List ℕ → List ℕ → Nodes
removed ns item xs ys =
    update
      (set_prev_of (set_next_of ns (last xs none) (first ys none)) (first ys none) (last xs none))
      item unlinked

list_eq :
    (l : IntrusiveList) {head tail : Option ℕ} {len len' : ℕ}
    → l.head ≡ head
    → l.tail ≡ tail
    → len ≡ len'
    → record l { len = len } ≡ record { head = head; tail = tail; len = len' }
list_eq l h t n = ground arith

out_of :
    (t : ℕ) {item : ℕ}
    → t ≡ item
    → (xs ys : List ℕ) → mem t xs ≡ true
    → mem item ys ≡ true
    → Distinct (xs ++ ys)
    → ⊥
out_of t same xs ys m n d = ground (arith, Distinct-apart xs ys t d m, ap (λ b. mem b ys) same)

module _ (ns : Nodes) (l : IntrusiveList) (item : ℕ) where
  pub push_front_lem :
      (xs : List ℕ)
      → IsList ns l xs
      → push_front l ns item ≡ (ends (item ∷ xs), pushed_front ns item xs)
  unfolding push_front pushed_front
  push_front_lem [] h = ground (arith, h.head, h.len)
  push_front_lem (x ∷ xs) h = ground (arith, h.head, h.len, h.tail)

  pub push_back_lem :
      (xs : List ℕ)
      → IsList ns l xs
      → push_back l ns item ≡ (ends (xs ++ item ∷ []), pushed_back ns item xs)
  unfolding push_back pushed_back
  push_back_lem [] h = ground (arith, h.tail, h.len)
  push_back_lem (x ∷ xs) h =
      let (t, e, m) = last-mem x xs in
      ground (
        arith,
        h.head,
        h.len,
        h.tail,
        e,
        last-append xs (item ∷ []) (some x),
        length-append xs (item ∷ []),
      )

  pub pop_front_lem :
      (xs : List ℕ)
      → IsList ns l (item ∷ xs)
      → pop_front l ns ≡ (some item, ends xs, removed ns item [] xs)
  unfolding pop_front removed
  pop_front_lem [] h = ground (arith, h.head, h.len, h.links)
  pop_front_lem (x ∷ xs) h = ground (arith, h.head, h.len, h.tail, h.links)

  pub pop_back_lem :
      (xs : List ℕ)
      → IsList ns l (xs ++ item ∷ [])
      → pop_back l ns ≡ (some item, ends xs, removed ns item xs [])
  unfolding pop_back removed
  pop_back_lem [] h = ground (arith, h.tail, h.len, h.links)
  pop_back_lem (x ∷ xs) h =
      let (t, e, m) = last-mem x xs in
      let linked = Links-right ns none (x ∷ xs) (item ∷ []) none h.links in
      ground (
        arith,
        h.head,
        h.len,
        h.tail,
        e,
        last-append xs (item ∷ []) (some x),
        length-append xs (item ∷ []),
        linked.0,
      )

  remove_between :
      (t y : ℕ)
      → t ≢ item
      → (ns item).prev ≡ some t
      → (ns item).next ≡ some y
      → remove l ns item ≡ (
        record l { len = l.len - 1 },
        update (set_prev (set_next ns t (some y)) y (some t)) item unlinked,
      )
  unfolding remove
  remove_between t y apart before after = ground arith

  remove_last :
      (t : ℕ)
      → t ≢ item
      → (ns item).prev ≡ some t
      → (ns item).next ≡ none
      → remove l ns item
        ≡ (record l { tail = some t; len = l.len - 1 }, update (set_next ns t none) item unlinked)
  unfolding remove
  remove_last t apart before after = ground arith

  pub remove_lem :
      (xs ys : List ℕ)
      → IsList ns l (xs ++ item ∷ ys)
      → remove l ns item ≡ (ends (xs ++ ys), removed ns item xs ys)
  unfolding remove removed
  remove_lem [] [] h = ground (arith, h.head, h.len, h.tail, h.links)
  remove_lem [] (y ∷ ys) h = ground (arith, h.head, h.len, h.tail, h.links)
  remove_lem (x ∷ xs) [] h =
      let (t, e, m) = last-mem x xs in
      let linked = Links-right ns none (x ∷ xs) (item ∷ []) none h.links in
      let apart : t ≢ item =
        λ same. out_of t same (x ∷ xs) (item ∷ []) m (ground arith) h.distinct in
      let shorter : l.len - 1 ≡ length (x ∷ xs) =
        omega (arith, h.len, length-append xs (item ∷ [])) in
      let cut : IntrusiveList = record l { tail = some t } in
      let after : IntrusiveList = record cut { len = l.len - 1 } in
      let kept : after ≡ ends (x ∷ xs) = list_eq cut h.head (sym e) shorter in
      remove_last t apart (linked.0 ∙ e) linked.1
      ∙ ap₂ (λ r (o : Option ℕ). (r, update (set_next_of ns o none) item unlinked)) kept (sym e)
      ∙ ap (λ zs. (ends zs, update (set_next_of ns (last (x ∷ xs) none) none) item unlinked))
          (sym (append-nil (x ∷ xs)))
  remove_lem (x ∷ xs) (y ∷ ys) h =
      let (t, e, m) = last-mem x xs in
      let linked = Links-right ns none (x ∷ xs) (item ∷ y ∷ ys) none h.links in
      let apart : t ≢ item =
        λ same. out_of t same (x ∷ xs) (item ∷ y ∷ ys) m (ground arith) h.distinct in
      let shorter : l.len - 1 ≡ length ((x ∷ xs) ++ y ∷ ys) =
        omega (arith, h.len, length-append xs (item ∷ y ∷ ys), length-append xs (y ∷ ys)) in
      let after : IntrusiveList = record l { len = l.len - 1 } in
      let kept : after ≡ ends ((x ∷ xs) ++ y ∷ ys) =
        list_eq l h.head
          (h.tail
            ∙ last-append xs (item ∷ y ∷ ys) (some x)
            ∙ sym (last-append xs (y ∷ ys) (some x)))
          shorter in
      remove_between t y apart (linked.0 ∙ e) linked.1
      ∙ ap₂
          (λ r (o : Option ℕ).
            (r, update (set_prev_of (set_next_of ns o (some y)) (some y) o) item unlinked))
          kept (sym e)
