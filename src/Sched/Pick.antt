-- ===== src/Sched/Pick.antt =====
-- The pick of the next task: the first of the highest queue that has any.
use mathlib.Core.Path.{subst}
use gb_os.Base.{
  ℕ, zero, suc, ◌-◌, ◌<◌, ◌≤◌, ◌≡◌, refl, sym, ap, ◌∙◌, true, false, none, some, List, [], ◌∷◌, inl,
  inr, arith,
}
use gb_os.Base.{◌==◌, ==_iff, Bool-cases, length, set, get_or, length-set, get_or-set}
use gb_os.Mm.Intrusive as Intrusive
use gb_os.Mm.Intrusive.{Nodes, IntrusiveList, Popped, push_back, pop_front}
use gb_os.Mm.Intrusive.Links.{mem}
use gb_os.Mm.Intrusive.Effects.{IsList}
use gb_os.Mm.Intrusive.Refines.{pop_front-IsList, pop_front_nil}
use gb_os.Sched.{level, Scheduler, queue, pick_from}
use gb_os.Sched.Queues.{AreLists-at, AreLists-set, mem-set_pop, set_pop-Distinct, length-concat_pop}
use gb_os.Sched.Enqueue.{Holds, set_same}

unfoldable pub popped : Scheduler → ℕ → Scheduler
popped s n = record s {
  run_queues = set s.run_queues n (pop_front (queue s n) s.nodes).1;
  nodes = (pop_front (queue s n) s.nodes).2;
  ready_count = s.ready_count - 1;
}

pick_from_none :
    (s : Scheduler) (n : ℕ)
    → (pop_front (queue s n) s.nodes).0 ≡ none
    → pick_from (suc n) s
      ≡ pick_from n (record s {
        run_queues = set s.run_queues n (pop_front (queue s n) s.nodes).1;
        nodes = (pop_front (queue s n) s.nodes).2;
      })
unfolding pick_from
pick_from_none s n h = rw (h, pick_from) refl

pick_from_empty :
    (s : Scheduler) (n : ℕ) → IsList s.nodes (queue s n) [] → pick_from (suc n) s ≡ pick_from n s
pick_from_empty s n h =
    let nothing = pop_front_nil s.nodes (queue s n) h in
    pick_from_none s n (ap (λ r. r.0) nothing)
    ∙ ap
        (λ (r : Popped).
          pick_from n (record s { run_queues = set s.run_queues n r.1; nodes = r.2 }))
        nothing
    ∙ ap (λ qs. pick_from n (record s { run_queues = qs })) (set_same s.run_queues n Intrusive.new)

pick_from_first :
    (s : Scheduler) (n t : ℕ)
    → (pop_front (queue s n) s.nodes).0 ≡ some t
    → pick_from (suc n) s ≡ (some t, popped s n)
unfolding pick_from popped
pick_from_first s n t h = ground arith

module _ (s : Scheduler) (qs : List (List ℕ)) (h : Holds s qs) where
  queue-IsList : (n : ℕ) → n < 5 → IsList s.nodes (queue s n) (get_or qs n [])
  queue-IsList n lt = AreLists-at s.nodes s.run_queues qs n (omega (arith, h.levels)) h.lists

  -- All queues below `k` are empty.
  pub pick_from_idle :
      (k : ℕ) → k ≤ 5 → ((p : ℕ) → p < k → get_or qs p [] ≡ []) → pick_from k s ≡ (s.idle_task, s)
  pick_from_idle zero le empty = unfold pick_from in refl
  pick_from_idle (suc k) le empty =
      pick_from_empty s k
        (subst (IsList s.nodes (queue s k)) (empty k (omega arith)) (queue-IsList k (omega arith)))
      ∙ pick_from_idle k (omega arith) (λ p lt. empty p (omega arith))

  -- The highest queue below `k` that has tasks is queue `n`.
  pub pick_from_highest :
      (k n t : ℕ) (rest : List ℕ)
      → k ≤ 5
      → n < k
      → get_or qs n [] ≡ t ∷ rest
      → ((p : ℕ) → n < p → p < k → get_or qs p [] ≡ [])
      → pick_from k s ≡ (some t, popped s n)
  pick_from_highest zero n t rest le lt at empty = absurd (omega arith)
  pick_from_highest (suc k) n t rest le lt at empty = elim (Bool-cases (n == k)) [
    | inl here ↦
        let same : n ≡ k = (==_iff n k).0 here in
        let is = subst (IsList s.nodes (queue s n)) at (queue-IsList n (omega arith)) in
        subst (λ j. pick_from (suc j) s ≡ (some t, popped s n)) same
          (pick_from_first s n t (pop_front-IsList t rest is).0)
    | inr below ↦
        pick_from_empty s k (
          subst (IsList s.nodes (queue s k)) (empty k (ground arith) (omega arith))
            (queue-IsList k (omega arith)))
        ∙ pick_from_highest k n t rest (omega arith) (ground arith) at
            (λ p gt lt. empty p gt (omega arith))
  ]

  pub popped-Holds :
      (n t : ℕ) (rest : List ℕ)
      → n < 5
      → get_or qs n [] ≡ t ∷ rest
      → Holds (popped s n) (set qs n rest)
  unfolding popped
  popped-Holds n t rest lt at =
      let inside : n < length qs = omega (arith, h.levels) in
      let (_, is, same, _) =
        pop_front-IsList t rest (subst (IsList s.nodes (queue s n)) at (queue-IsList n lt)) in
      record {
        lists =
            AreLists-set s.nodes (pop_front (queue s n) s.nodes).2 s.run_queues qs n t
              (pop_front (queue s n) s.nodes).1 rest inside h.distinct
              (λ a m out. same a (subst (λ l. mem a l ≡ false) at out)) is h.lists;
        levels = length-set qs n rest ∙ h.levels;
        distinct = set_pop-Distinct qs n t rest at h.distinct;
        counted = omega (arith, h.counted, length-concat_pop qs n t rest at);
        placed = λ p u m. place p u m inside;
        waiting = λ u m. h.waiting u (ground (arith, mem-set_pop qs n t u rest at h.distinct));
      }
    where
      place :
          (p u : ℕ)
          → mem u (get_or (set qs n rest) p []) ≡ true
          → n < length qs
          → level (s.tasks u).priority ≡ p
      place p u m inside = elim (Bool-cases (n == p)) [
        | inl here ↦
            let kept : mem u rest ≡ true = ground (arith, get_or-set qs n p rest [] inside) in
            h.placed n u (subst (λ l. mem u l ≡ true) (sym at) (ground arith)) ∙ (==_iff n p).0 here
        | inr there ↦ h.placed p u (ground (arith, get_or-set qs n p rest [] inside))
      ]
