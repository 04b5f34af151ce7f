-- ===== src/Base/Slots.antt =====
-- A fixed array of optional values that is filled from the front, as the source has for its lists
-- without allocation.
use gb_os.Base.{
  ℕ, zero, suc, ◌<◌, ◌≤◌, ◌≡◌, refl, sym, ap, ◌∙◌, inl, inr, Option, none, some, List, [], ◌∷◌,
  ◌++◌, min, arith,
}
use gb_os.Base.{length, get_or, get_elem?, set, take, replicate, leb, Bool-cases, take_all}

module _ {ℓ} {A : Type ℓ} where
  -- The array of `n` places with the first values of a list.
  unfoldable pub slots : ℕ → List A → List (Option A)
  slots zero xs = []
  slots (suc n) [] = none ∷ slots n []
  slots (suc n) (x ∷ xs) = some x ∷ slots n xs

  pub slots-nil : (n : ℕ) → slots n [] ≡ replicate n none
  unfolding slots replicate
  slots-nil zero = refl
  slots-nil (suc n) = ap (λ t. none ∷ t) (slots-nil n)

  pub slots_full : (n : ℕ) (xs ys : List A) → n ≤ length xs → slots n (xs ++ ys) ≡ slots n xs
  unfolding slots
  slots_full zero xs ys h = refl
  slots_full (suc n) [] ys h = absurd (omega arith)
  slots_full (suc n) (x ∷ xs) ys h = ap (λ t. some x ∷ t) (slots_full n xs ys (omega arith))

  pub set-slots :
      (n : ℕ) (xs : List A) (x : A)
      → length xs < n
      → set (slots n xs) (length xs) (some x) ≡ slots n (xs ++ x ∷ [])
  unfolding slots
  set-slots zero xs x h = absurd (omega arith)
  set-slots (suc n) [] x h = refl
  set-slots (suc n) (y ∷ xs) x h = ap (λ t. some y ∷ t) (set-slots n xs x (omega arith))

  pub get_or-slots :
      (n : ℕ) (xs : List A) (i : ℕ) → i < n → get_or (slots n xs) i none ≡ get_elem? xs i
  unfolding slots
  get_or-slots zero xs i h = absurd (omega arith)
  get_or-slots (suc n) [] zero h = refl
  get_or-slots (suc n) [] (suc i) h = get_or-slots n [] i (omega arith)
  get_or-slots (suc n) (x ∷ xs) zero h = refl
  get_or-slots (suc n) (x ∷ xs) (suc i) h = get_or-slots n xs i (omega arith)

  -- The places from `i` on hold these values.
  abbrev pub Loaded : List (Option A) → ℕ → List A → Type ℓ
  Loaded ss i [] = Unit
  Loaded ss i (x ∷ xs) = (get_or ss i none ≡ some x) × Loaded ss (suc i) xs

  Loaded-cons :
      (s : Option A) (ss : List (Option A)) (i : ℕ) (xs : List A)
      → Loaded ss i xs
      → Loaded (s ∷ ss) (suc i) xs
  Loaded-cons s ss i [] h = tt
  Loaded-cons s ss i (x ∷ xs) h = (h.0, Loaded-cons s ss (suc i) xs h.1)

  pub Loaded-slots : (n : ℕ) (xs : List A) → Loaded (slots n xs) 0 (take n xs)
  unfolding slots
  Loaded-slots zero xs = tt
  Loaded-slots (suc n) [] = tt
  Loaded-slots (suc n) (x ∷ xs) =
      (refl, Loaded-cons (some x) (slots n xs) 0 (take n xs) (Loaded-slots n xs))

  -- One value more of a list, at its place.
  pub take_next :
      (xs : List A) (n : ℕ)
      → n < length xs
      → (x : A) × (get_elem? xs n ≡ some x) × (take (suc n) xs ≡ take n xs ++ x ∷ [])
  take_next [] n h = absurd (omega arith)
  take_next (x ∷ xs) zero h = (x, refl, refl)
  take_next (x ∷ xs) (suc n) h =
      let (y, at, more) = take_next xs n (omega arith) in (y, at, ap (λ t. x ∷ t) more)

  pub take-min : (k : ℕ) (xs : List A) → take (min (length xs) k) xs ≡ take k xs
  take-min k xs = elim (Bool-cases (leb (length xs) k)) [
    | inl le ↦
        let small : min (length xs) k ≡ length xs = ground arith in
        rw small (take_all (length xs) xs (omega arith) ∙ sym (take_all k xs (ground arith)))
    | inr gt ↦ let large : min (length xs) k ≡ k = ground arith in rw large refl
  ]
