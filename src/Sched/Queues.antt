-- ===== src/Sched/Queues.antt =====
-- Several lists over one store of nodes, and what an operation on one of them does to all.
use mathlib.Core.Path.{subst}
use gb_os.Base.{
  ℕ, zero, suc, ◌<◌, ◌≡◌, sym, ap, ◌∙◌, true, false, ◌||◌, none, List, [], ◌∷◌, ◌++◌, inl, inr,
  arith,
}
use gb_os.Base.{◌==◌, ==_iff, if◌then◌else◌, Bool-cases, length, set, get_or, length-append}
use gb_os.Mm.Intrusive as Intrusive
use gb_os.Mm.Intrusive.{Nodes, IntrusiveList, push_back, pop_front}
use gb_os.Mm.Intrusive.Links.{
  mem, mem-append, Distinct, Distinct-left, Distinct-right, Distinct-apart, Distinct-append,
  Distinct-snoc, Links-agree,
}
use gb_os.Mm.Intrusive.Effects.{IsList}

abbrev pub concat : List (List ℕ) → List ℕ
concat [] = []
concat (q ∷ qs) = q ++ concat qs

-- Each list stands for its tasks.
abbrev pub AreLists : Nodes → List IntrusiveList → List (List ℕ) → Type 0
AreLists ns [] [] = Unit {0}
AreLists ns [] (q ∷ qs) = ⊥
AreLists ns (l ∷ ls) [] = ⊥
AreLists ns (l ∷ ls) (q ∷ qs) = IsList ns l q × AreLists ns ls qs

pub IsList-agree :
    {ns ns' : Nodes} {l : IntrusiveList} (q : List ℕ)
    → ((a : ℕ) → mem a q ≡ true → ns' a ≡ ns a)
    → IsList ns l q
    → IsList ns' l q
IsList-agree {ns} {ns'} q same h = record {
  head = h.head;
  tail = h.tail;
  len = h.len;
  links = Links-agree ns ns' none q none same h.links;
  distinct = h.distinct;
}

AreLists-agree :
    (ns ns' : Nodes) (ls : List IntrusiveList) (qs : List (List ℕ))
    → ((a : ℕ) → mem a (concat qs) ≡ true → ns' a ≡ ns a)
    → AreLists ns ls qs
    → AreLists ns' ls qs
AreLists-agree ns ns' [] [] same h = tt
AreLists-agree ns ns' [] (q ∷ qs) same h = h
AreLists-agree ns ns' (l ∷ ls) [] same h = h
AreLists-agree ns ns' (l ∷ ls) (q ∷ qs) same h = (
  IsList-agree q (λ a m. same a (ground (arith, mem-append a q (concat qs)))) h.0,
  AreLists-agree ns ns' ls qs (λ a m. same a (ground (arith, mem-append a q (concat qs)))) h.1,
)

pub AreLists-at :
    (ns : Nodes) (ls : List IntrusiveList) (qs : List (List ℕ)) (p : ℕ)
    → p < length qs
    → AreLists ns ls qs
    → IsList ns (get_or ls p Intrusive.new) (get_or qs p [])
AreLists-at ns [] [] p lt h = absurd (omega arith)
AreLists-at ns [] (q ∷ qs) p lt h = absurd h
AreLists-at ns (l ∷ ls) [] p lt h = absurd h
AreLists-at ns (l ∷ ls) (q ∷ qs) zero lt h = h.0
AreLists-at ns (l ∷ ls) (q ∷ qs) (suc p) lt h = AreLists-at ns ls qs p (omega arith) h.1

pub mem-concat :
    (qs : List (List ℕ)) (p a : ℕ) → mem a (get_or qs p []) ≡ true → mem a (concat qs) ≡ true
mem-concat [] p a m = ground arith
mem-concat (q ∷ qs) zero a m = ground (arith, mem-append a q (concat qs))
mem-concat (q ∷ qs) (suc p) a m = ground (arith, mem-append a q (concat qs), mem-concat qs p a)

-- One list is replaced, and the nodes change only at its tasks and at one task that is in no list.
pub AreLists-set :
    (ns ns' : Nodes) (ls : List IntrusiveList) (qs : List (List ℕ)) (p t : ℕ) (l' : IntrusiveList)
    (q' : List ℕ)
    → p < length qs
    → Distinct (concat qs)
    → ((a : ℕ) → mem a (concat qs) ≡ true → mem a (get_or qs p []) ≡ false → ns' a ≡ ns a)
    → IsList ns' l' q'
    → AreLists ns ls qs
    → AreLists ns' (set ls p l') (set qs p q')
AreLists-set ns ns' [] [] p t l' q' lt d same is h = absurd (omega arith)
AreLists-set ns ns' [] (q ∷ qs) p t l' q' lt d same is h = absurd h
AreLists-set ns ns' (l ∷ ls) [] p t l' q' lt d same is h = absurd h
AreLists-set ns ns' (l ∷ ls) (q ∷ qs) zero t l' q' lt d same is h = (
  is,
  AreLists-agree ns ns' ls qs
      (λ a m.
        same a (ground (arith, mem-append a q (concat qs)))
          (ground (arith, Distinct-apart q (concat qs) a d)))
      h.1,
)
AreLists-set ns ns' (l ∷ ls) (q ∷ qs) (suc p) t l' q' lt d same is h = (
  IsList-agree q
      (λ a m.
        same a (ground (arith, mem-append a q (concat qs)))
          (ground (arith, Distinct-apart q (concat qs) a d m, mem-concat qs p a)))
      h.0,
  AreLists-set ns ns' ls qs p t l' q' (omega arith) (Distinct-right q (concat qs) d)
      (λ a m out. same a (ground (arith, mem-append a q (concat qs))) out) is h.1,
)

-- Where the tasks stand after a push to the back of list `p`.
pub mem-set_push :
    (qs : List (List ℕ)) (p t a : ℕ)
    → p < length qs
    → mem a (concat (set qs p (get_or qs p [] ++ t ∷ []))) ≡ (mem a (concat qs) || t == a)
mem-set_push [] p t a lt = absurd (omega arith)
mem-set_push (q ∷ qs) zero t a lt = ground (
  arith,
  mem-append a (q ++ t ∷ []) (concat qs),
  mem-append a q (t ∷ []),
  mem-append a q (concat qs),
)
mem-set_push (q ∷ qs) (suc p) t a lt = ground (
  arith,
  mem-append a q (concat qs),
  mem-set_push qs p t a (omega arith),
  mem-append a q (concat (set qs p (get_or qs p [] ++ t ∷ []))),
)

pub set_push-Distinct :
    (qs : List (List ℕ)) (p t : ℕ)
    → p < length qs
    → mem t (concat qs) ≡ false
    → Distinct (concat qs)
    → Distinct (concat (set qs p (get_or qs p [] ++ t ∷ [])))
set_push-Distinct [] p t lt out d = absurd (omega arith)
set_push-Distinct (q ∷ qs) zero t lt out d =
    let absent : mem t q ≡ false = ground (arith, mem-append t q (concat qs)) in
    Distinct-append (q ++ t ∷ []) (concat qs)
      (Distinct-snoc q t absent (Distinct-left q (concat qs) d)) (Distinct-right q (concat qs) d)
      (λ a m. elim (Bool-cases (t == a)) [
        | inl same ↦
            ground
              (arith, mem-append t q (concat qs), ap (λ b. mem b (concat qs)) ((==_iff t a).0 same))
        | inr other ↦ ground (arith, mem-append a q (t ∷ []), Distinct-apart q (concat qs) a d)
      ])
set_push-Distinct (q ∷ qs) (suc p) t lt out d =
    let absent : (mem t q ≡ false) × (mem t (concat qs) ≡ false) =
      ground (arith, mem-append t q (concat qs)) in
    Distinct-append q (concat (set qs p (get_or qs p [] ++ t ∷ []))) (Distinct-left q (concat qs) d)
      (set_push-Distinct qs p t (omega arith) absent.1 (Distinct-right q (concat qs) d))
      (λ a m.
        ground (arith, mem-set_push qs p t a (omega arith), Distinct-apart q (concat qs) a d m))

-- The same after the pop of the first task of list `p`.
first_gone :
    (t a : ℕ) (rest others : List ℕ)
    → Distinct (t ∷ rest ++ others)
    → mem a (rest ++ others) ≡ (if t == a then false else mem a (t ∷ rest ++ others))
first_gone t a rest others d = elim (Bool-cases (t == a)) [
  | inl same ↦ ground (arith, d.0, ap (λ b. mem b (rest ++ others)) ((==_iff t a).0 same))
  | inr other ↦ ground arith
]

pub mem-set_pop :
    (qs : List (List ℕ)) (p t a : ℕ) (rest : List ℕ)
    → get_or qs p [] ≡ t ∷ rest
    → Distinct (concat qs)
    → mem a (concat (set qs p rest)) ≡ (if t == a then false else mem a (concat qs))
mem-set_pop [] p t a rest at d = ground arith
mem-set_pop (q ∷ qs) zero t a rest at d =
    let d' = subst (λ l. Distinct (l ++ concat qs)) at d in
    first_gone t a rest (concat qs) d'
    ∙ ap (λ l. if t == a then false else mem a (l ++ concat qs)) (sym at)
mem-set_pop (q ∷ qs) (suc p) t a rest at d =
    let held = mem-concat qs p t (subst (λ l. mem t l ≡ true) (sym at) (ground arith)) in
    elim (Bool-cases (t == a)) [
      | inl same ↦ ground (
        arith,
        mem-append a q (concat (set qs p rest)),
        mem-set_pop qs p t a rest at (Distinct-right q (concat qs) d),
        Distinct-apart q (concat qs) t d,
        ap (λ b. mem b q) ((==_iff t a).0 same),
      )
      | inr other ↦ ground (
        arith,
        mem-append a q (concat (set qs p rest)),
        mem-append a q (concat qs),
        mem-set_pop qs p t a rest at (Distinct-right q (concat qs) d),
      )
    ]

pub set_pop-Distinct :
    (qs : List (List ℕ)) (p t : ℕ) (rest : List ℕ)
    → get_or qs p [] ≡ t ∷ rest
    → Distinct (concat qs)
    → Distinct (concat (set qs p rest))
set_pop-Distinct [] p t rest at d = tt
set_pop-Distinct (q ∷ qs) zero t rest at d = (subst (λ l. Distinct (l ++ concat qs)) at d).1
set_pop-Distinct (q ∷ qs) (suc p) t rest at d =
    Distinct-append q (concat (set qs p rest)) (Distinct-left q (concat qs) d)
      (set_pop-Distinct qs p t rest at (Distinct-right q (concat qs) d))
      (λ a m. ground (
        arith,
        mem-set_pop qs p t a rest at (Distinct-right q (concat qs) d),
        Distinct-apart q (concat qs) a d m,
      ))

-- The lengths.
pub length-concat_push :
    (qs : List (List ℕ)) (p t : ℕ)
    → p < length qs
    → length (concat (set qs p (get_or qs p [] ++ t ∷ []))) ≡ suc (length (concat qs))
length-concat_push [] p t lt = absurd (omega arith)
length-concat_push (q ∷ qs) zero t lt = omega (
  arith,
  length-append (q ++ t ∷ []) (concat qs),
  length-append q (t ∷ []),
  length-append q (concat qs),
)
length-concat_push (q ∷ qs) (suc p) t lt = omega (
  arith,
  length-concat_push qs p t (omega arith),
  length-append q (concat qs),
  length-append q (concat (set qs p (get_or qs p [] ++ t ∷ []))),
)

pub length-concat_pop :
    (qs : List (List ℕ)) (p t : ℕ) (rest : List ℕ)
    → get_or qs p [] ≡ t ∷ rest
    → length (concat qs) ≡ suc (length (concat (set qs p rest)))
length-concat_pop [] p t rest at = ground arith
length-concat_pop (q ∷ qs) zero t rest at =
    omega (arith, length-append q (concat qs), length-append rest (concat qs), ap length at)
length-concat_pop (q ∷ qs) (suc p) t rest at = omega (
  arith,
  length-concat_pop qs p t rest at,
  length-append q (concat qs),
  length-append q (concat (set qs p rest)),
)
