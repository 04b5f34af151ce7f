-- ===== src/Sched/Enqueue.antt =====
-- The run queues as lists of tasks, one for each priority, and a task that enters one.
use gb_os.Base.{
  ℕ, zero, suc, ◌<◌, ◌≡◌, refl, sym, ap, ◌∙◌, true, false, some, List, [], ◌∷◌, ◌++◌, inl, inr,
  arith,
}
use gb_os.Base.{◌==◌, ==_iff, Bool-cases, length, set, get_or, length-set, get_or-set}
use gb_os.Mm.Intrusive.{IntrusiveList, push_back}
use gb_os.Mm.Intrusive.Links.{mem, mem-append, Distinct}
use gb_os.Mm.Intrusive.Effects.{IsList}
use gb_os.Mm.Intrusive.Refines.{push_back-IsList}
use gb_os.Sched.{
  ready, Priority, idle, low, normal, high, realtime, level, Task, Scheduler, queue, enqueue,
  set_task,
}
use gb_os.Sched.Queues.{
  concat, AreLists, AreLists-at, AreLists-set, mem-concat, mem-set_push, set_push-Distinct,
  length-concat_push,
}

-- The run queues stand for these lists of tasks, by priority: no task stands in two places, the
-- count is right, and each is ready and has the priority of its queue.
pub record Holds (s : Scheduler) (qs : List (List ℕ)) : Type 0 where
  pub lists : AreLists s.nodes s.run_queues qs
  pub levels : length qs ≡ 5
  pub distinct : Distinct (concat qs)
  pub counted : s.ready_count ≡ length (concat qs)
  pub placed : (p t : ℕ) → mem t (get_or qs p []) ≡ true → level (s.tasks t).priority ≡ p
  pub waiting : (t : ℕ) → mem t (concat qs) ≡ true → (s.tasks t).state ≡ ready

-- And the current task is in none of them.
pub record IsSchedule (s : Scheduler) (qs : List (List ℕ)) : Type 0 where
  pub queues : Holds s qs
  pub apart : (t : ℕ) → s.current ≡ some t → mem t (concat qs) ≡ false

level-lt : (p : Priority) → level p < 5
level-lt idle = omega arith
level-lt low = omega arith
level-lt normal = omega arith
level-lt high = omega arith
level-lt realtime = omega arith

pub set_same {ℓ} : {A : Type ℓ} (xs : List A) (i : ℕ) (d : A) → set xs i (get_or xs i d) ≡ xs
set_same [] i d = refl
set_same (x ∷ xs) zero d = refl
set_same (x ∷ xs) (suc i) d = ap (λ t. x ∷ t) (set_same xs i d)

-- The queues with a task at the back of its own.
abbrev pub queued : Scheduler → ℕ → List (List ℕ) → List (List ℕ)
queued s t qs = let p = level (s.tasks t).priority in set qs p (get_or qs p [] ++ t ∷ [])

pub enqueue-Holds :
    (s : Scheduler) (t : ℕ) (qs : List (List ℕ))
    → Holds s qs
    → mem t (concat qs) ≡ false
    → (s.tasks t).state ≡ ready
    → Holds (enqueue s t) (queued s t qs)
unfolding enqueue
enqueue-Holds s t qs h out is_ready = record {
  lists =
      AreLists-set s.nodes (push_back l s.nodes t).1 s.run_queues qs p t (push_back l s.nodes t).0
        (q ++ t ∷ []) inside h.distinct (λ a m n. pushed.1 a (ground (arith, differs a m))) pushed.0
        h.lists;
  levels = length-set qs p (q ++ t ∷ []) ∙ h.levels;
  distinct = set_push-Distinct qs p t inside out h.distinct;
  counted = omega (arith, h.counted, length-concat_push qs p t inside);
  placed = λ p' u m. place p' u m;
  waiting = λ u m. wait u m;
}
  where
    p : ℕ
    p = level (s.tasks t).priority

    l : IntrusiveList
    l = queue s p

    q : List ℕ
    q = get_or qs p []

    inside : p < length qs
    inside = omega (arith, h.levels, level-lt (s.tasks t).priority)

    absent : mem t q ≡ false
    absent = ground (arith, mem-concat qs p t)

    pushed :
        IsList (push_back l s.nodes t).1 (push_back l s.nodes t).0 (q ++ t ∷ [])
        × ((a : ℕ) → mem a (t ∷ q) ≡ false → (push_back l s.nodes t).1 a ≡ s.nodes a)
    pushed = push_back-IsList t q absent (AreLists-at s.nodes s.run_queues qs p inside h.lists)

    differs : (a : ℕ) → mem a (concat qs) ≡ true → (t == a) ≡ false
    differs a m = elim (Bool-cases (t == a)) [
      | inl same ↦ ground (arith, ap (λ b. mem b (concat qs)) ((==_iff t a).0 same))
      | inr other ↦ other
    ]

    same_task : (u : ℕ) → (t == u) ≡ true → t ≡ u
    same_task u e = (==_iff t u).0 e

    place :
        (p' u : ℕ)
        → mem u (get_or (set qs p (q ++ t ∷ [])) p' []) ≡ true
        → level (s.tasks u).priority ≡ p'
    place p' u m = elim (Bool-cases (t == u)) [
      | inl same ↦ elim (Bool-cases (p == p')) [
        | inl here ↦
            ap (λ b. level (s.tasks b).priority) (sym (same_task u same)) ∙ (==_iff p p').0 here
        | inr there ↦ h.placed p' u (ground (arith, get_or-set qs p p' (q ++ t ∷ []) [] inside))
      ]
      | inr other ↦ elim (Bool-cases (p == p')) [
        | inl here ↦
            h.placed p u
              (ground (arith, get_or-set qs p p' (q ++ t ∷ []) [] inside, mem-append u q (t ∷ [])))
            ∙ (==_iff p p').0 here
        | inr there ↦ h.placed p' u (ground (arith, get_or-set qs p p' (q ++ t ∷ []) [] inside))
      ]
    ]

    wait : (u : ℕ) → mem u (concat (set qs p (q ++ t ∷ []))) ≡ true → (s.tasks u).state ≡ ready
    wait u m = elim (Bool-cases (t == u)) [
      | inl same ↦ ap (λ b. (s.tasks b).state) (sym (same_task u same)) ∙ is_ready
      | inr other ↦ h.waiting u (ground (arith, mem-set_push qs p t u inside))
    ]

module _ (s : Scheduler) (qs : List (List ℕ)) (h : Holds s qs) where
  -- A change to a task that is in no queue.
  pub set_task-Holds :
      (t : ℕ) (task : Task) → mem t (concat qs) ≡ false → Holds (set_task s t task) qs
  set_task-Holds t task out = record {
    lists = h.lists;
    levels = h.levels;
    distinct = h.distinct;
    counted = h.counted;
    placed = λ p u m. ap (λ k. level k.priority) (others u (mem-concat qs p u m)) ∙ h.placed p u m;
    waiting = λ u m. ap (λ k. k.state) (others u m) ∙ h.waiting u m;
  }
    where
      others : (u : ℕ) → mem u (concat qs) ≡ true → (set_task s t task).tasks u ≡ s.tasks u
      others u m = elim (Bool-cases (u == t)) [
        | inl same ↦ absurd (ground (arith, ap (λ b. mem b (concat qs)) ((==_iff u t).0 same)))
        | inr other ↦ ground arith
      ]
