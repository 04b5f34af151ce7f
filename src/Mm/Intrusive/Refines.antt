-- ===== src/Mm/Intrusive/Refines.antt =====
-- The intrusive lists refine lists of addresses: what each operation does to the list that its
-- nodes stand for, and that it leaves all other nodes alone.
use mathlib.Core.Path.{subst}
use mathlib.Core.List.{append-nil}
use gb_os.Base.{ℕ, ◌≡◌, refl, sym, true, false, none, some, List, [], ◌∷◌, ◌++◌, arith}
use gb_os.Mm.Intrusive.{
  Nodes, IntrusiveList, unlinked, update, push_front, push_back, Popped, pop_front, pop_back,
  remove,
}
use gb_os.Mm.Intrusive.Links.{
  mem, Distinct, first, last, Links, mem-append, Distinct-left, Distinct-right, Distinct-apart,
  Links-append, Links-left, Links-right, Links-update, Links-agree, set_next_of, set_prev_of,
  Links-set_next_of, Links-set_prev_of, set_next_of_other, set_prev_of_other, Distinct-snoc,
  Distinct-without,
}
use gb_os.Mm.Intrusive.Effects.{
  IsList, SameOutside, ends, Is, node, pushed_front, pushed_back, removed, ends-IsList,
  push_front_lem, push_back_lem, pop_front_lem, pop_back_lem, remove_lem,
}

-- The nodes after each operation are linked in the new order, and no others have changed.
pushed_front-Links :
    (ns : Nodes) (item : ℕ) (xs : List ℕ)
    → mem item xs ≡ false
    → Distinct xs
    → Links ns none xs none
    → Links (pushed_front ns item xs) none (item ∷ xs) none
unfolding pushed_front
pushed_front-Links ns item xs out distinct h =
    let ns1 = update ns item (node (first xs none) none) in
    let here = set_prev_of_other ns1 xs (some item) item out in
    (
      ground (arith, here),
      ground (arith, here),
      Links-set_prev_of ns1 none xs none (some item) distinct
          (Links-update ns item (node (first xs none) none) none xs none out h),
    )

pushed_front_same :
    (ns : Nodes) (item : ℕ) (xs : List ℕ) → SameOutside (item ∷ xs) ns (pushed_front ns item xs)
unfolding pushed_front
pushed_front_same ns item xs a m = ground (
  arith,
  set_prev_of_other (update ns item (node (first xs none) none)) xs (some item) a (ground arith),
)

pushed_back-Links :
    (ns : Nodes) (item : ℕ) (xs : List ℕ)
    → mem item xs ≡ false
    → Distinct xs
    → Links ns none xs none
    → Links (pushed_back ns item xs) none (xs ++ item ∷ []) none
unfolding pushed_back
pushed_back-Links ns item xs out distinct h =
    let ns1 = update ns item (node none (last xs none)) in
    let here = set_next_of_other ns1 xs (some item) item out in
    Links-append (pushed_back ns item xs) none xs (item ∷ []) none
      (Links-set_next_of ns1 none xs none (some item) distinct
        (Links-update ns item (node none (last xs none)) none xs none out h))
      (ground (arith, here), ground (arith, here), tt)

pushed_back_same :
    (ns : Nodes) (item : ℕ) (xs : List ℕ) → SameOutside (item ∷ xs) ns (pushed_back ns item xs)
unfolding pushed_back
pushed_back_same ns item xs a m = ground (
  arith,
  set_next_of_other (update ns item (node none (last xs none))) xs (some item) a (ground arith),
)

removed-Links :
    (ns : Nodes) (item : ℕ) (xs ys : List ℕ)
    → Distinct (xs ++ item ∷ ys)
    → Links ns none (xs ++ item ∷ ys) none
    → Links (removed ns item xs ys) none (xs ++ ys) none
unfolding removed
removed-Links ns item xs ys d h = Links-update ns2 item unlinked none (xs ++ ys) none out (
    Links-append ns2 none xs ys none
      (Links-agree ns1 ns2 none xs (first ys none)
        (λ a m. set_prev_of_other ns1 ys (last xs none) a (in_rest a m))
        (Links-set_next_of ns none xs (some item) (first ys none) (Distinct-left xs (item ∷ ys) d)
          (Links-left ns none xs (item ∷ ys) none h)))
      (Links-set_prev_of ns1 (some item) ys none (last xs none) right.1 (
        Links-agree ns ns1 (some item) ys none
          (λ a m. set_next_of_other ns xs (first ys none) a (before a m))
          (Links-right ns none xs (item ∷ ys) none h).2)))
  where
    ns1 : Nodes
    ns1 = set_next_of ns (last xs none) (first ys none)

    ns2 : Nodes
    ns2 = set_prev_of ns1 (first ys none) (last xs none)

    right : Distinct (item ∷ ys)
    right = Distinct-right xs (item ∷ ys) d

    in_rest : (a : ℕ) → mem a xs ≡ true → mem a ys ≡ false
    in_rest a m = ground (arith, Distinct-apart xs (item ∷ ys) a d m)

    before : (a : ℕ) → mem a ys ≡ true → mem a xs ≡ false
    before a m = ground (arith, Distinct-apart xs (item ∷ ys) a d)

    out : mem item (xs ++ ys) ≡ false
    out = ground (arith, mem-append item xs ys, Distinct-apart xs (item ∷ ys) item d, right.0)

removed_same :
    (ns : Nodes) (item : ℕ) (xs ys : List ℕ)
    → SameOutside (xs ++ item ∷ ys) ns (removed ns item xs ys)
unfolding removed
removed_same ns item xs ys a m = ground (
  arith,
  mem-append a xs (item ∷ ys),
  set_next_of_other ns xs (first ys none) a,
  set_prev_of_other (set_next_of ns (last xs none) (first ys none)) ys (last xs none) a,
)

pub pop_front_nil :
    (ns : Nodes) (l : IntrusiveList) → IsList ns l [] → pop_front l ns ≡ (none, l, ns)
unfolding pop_front
pop_front_nil ns l h = ground (arith, h.head)

module _ {ns : Nodes} {l : IntrusiveList} (item : ℕ) where
  -- A push to the front of an element that is not in the list.
  pub push_front-IsList :
      (xs : List ℕ)
      → mem item xs ≡ false
      → IsList ns l xs
      → Is (item ∷ xs) (push_front l ns item) × SameOutside (item ∷ xs) ns (push_front l ns item).1
  push_front-IsList xs out h =
      subst (λ r. Is (item ∷ xs) r × SameOutside (item ∷ xs) ns r.1)
        (sym (push_front_lem ns l item xs h))
        (
          ends-IsList (pushed_front ns item xs) (item ∷ xs)
              (pushed_front-Links ns item xs out h.distinct h.links) (out, h.distinct),
          pushed_front_same ns item xs,
        )

  -- A push to the back of an element that is not in the list.
  pub push_back-IsList :
      (xs : List ℕ)
      → mem item xs ≡ false
      → IsList ns l xs
      → Is (xs ++ item ∷ []) (push_back l ns item)
        × SameOutside (item ∷ xs) ns (push_back l ns item).1
  push_back-IsList xs out h =
      subst (λ r. Is (xs ++ item ∷ []) r × SameOutside (item ∷ xs) ns r.1)
        (sym (push_back_lem ns l item xs h))
        (
          ends-IsList (pushed_back ns item xs) (xs ++ item ∷ [])
              (pushed_back-Links ns item xs out h.distinct h.links)
              (Distinct-snoc xs item out h.distinct),
          pushed_back_same ns item xs,
        )

  -- What a removal of the item leaves, given as the nodes of that.
  removed-IsList :
      (xs ys : List ℕ)
      → IsList ns l (xs ++ item ∷ ys)
      → Is (xs ++ ys) (ends (xs ++ ys), removed ns item xs ys)
        × SameOutside (xs ++ item ∷ ys) ns (removed ns item xs ys)
        × (removed ns item xs ys item ≡ unlinked)
  removed-IsList xs ys h = (
    ends-IsList (removed ns item xs ys) (xs ++ ys) (removed-Links ns item xs ys h.distinct h.links)
        (Distinct-without xs item ys h.distinct),
    removed_same ns item xs ys,
    unfold removed in ground arith,
  )

  -- A pop from the front.
  pub pop_front-IsList :
      (xs : List ℕ)
      → IsList ns l (item ∷ xs)
      → ((pop_front l ns).0 ≡ some item)
        × Is xs ((pop_front l ns).1, (pop_front l ns).2)
        × SameOutside (item ∷ xs) ns (pop_front l ns).2
        × ((pop_front l ns).2 item ≡ unlinked)
  pop_front-IsList xs h =
      let (list, same, free) = removed-IsList [] xs h in
      subst
        (λ (r : Popped).
          (r.0 ≡ some item)
          × Is xs (r.1, r.2)
          × SameOutside (item ∷ xs) ns r.2
          × (r.2 item ≡ unlinked))
        (sym (pop_front_lem ns l item xs h)) (refl, list, same, free)

  -- A pop from the back.
  pub pop_back-IsList :
      (xs : List ℕ)
      → IsList ns l (xs ++ item ∷ [])
      → ((pop_back l ns).0 ≡ some item)
        × Is xs ((pop_back l ns).1, (pop_back l ns).2)
        × SameOutside (xs ++ item ∷ []) ns (pop_back l ns).2
        × ((pop_back l ns).2 item ≡ unlinked)
  pop_back-IsList xs h =
      let (list, same, free) = removed-IsList xs [] h in
      subst
        (λ (r : Popped).
          (r.0 ≡ some item)
          × Is xs (r.1, r.2)
          × SameOutside (xs ++ item ∷ []) ns r.2
          × (r.2 item ≡ unlinked))
        (sym (pop_back_lem ns l item xs h))
        (
          refl,
          subst (λ zs. Is zs (ends zs, removed ns item xs [])) (append-nil xs) list,
          same,
          free,
        )

  -- The removal of an element that stands anywhere in the list: the others keep their order, the
  -- element is unlinked, and no node outside the list changes.
  pub remove-IsList :
      (xs ys : List ℕ)
      → IsList ns l (xs ++ item ∷ ys)
      → Is (xs ++ ys) (remove l ns item)
        × SameOutside (xs ++ item ∷ ys) ns (remove l ns item).1
        × ((remove l ns item).1 item ≡ unlinked)
  remove-IsList xs ys h =
      subst (λ r. Is (xs ++ ys) r × SameOutside (xs ++ item ∷ ys) ns r.1 × (r.1 item ≡ unlinked))
        (sym (remove_lem ns l item xs ys h)) (removed-IsList xs ys h)
