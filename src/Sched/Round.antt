-- ===== src/Sched/Round.antt =====
-- A reschedule as an operation on lists of tasks, one for each priority.
use mathlib.Core.Path.{subst}
use gb_os.Base.{
  ℕ, suc, ◌<◌, ◌≡◌, ◌⊎◌, refl, sym, ap, ◌∙◌, true, false, Option, none, some, List, [], ◌∷◌, inl,
  inr, arith,
}
use gb_os.Base.{◌==◌, if◌then◌else◌, Bool-cases, Option-cases, length, set, get_or}
use gb_os.Mm.Intrusive.Links.{mem}
use gb_os.Sched.{
  ready, running, Scheduler, enqueue, pick_next, set_task, is_running, rested, put_back, start,
  switch_of, schedule,
}
use gb_os.Sched.Queues.{concat, mem-set_pop}
use gb_os.Sched.Enqueue.{Holds, IsSchedule, queued, enqueue-Holds, set_task-Holds}
use gb_os.Sched.Pick.{popped, pick_from_idle, pick_from_highest, popped-Holds}

-- The queues after the current task went back into its own, if it is still running.
unfoldable pub round : Scheduler → List (List ℕ) → List (List ℕ)
round s qs = elim s.current [
  | none ↦ qs
  | some t ↦ if is_running (s.tasks t).state then queued s t qs else qs
]

module _ (s : Scheduler) (qs : List (List ℕ)) where
  put_back_running :
      (t : ℕ)
      → s.current ≡ some t
      → is_running (s.tasks t).state ≡ true
      → (put_back s ≡ enqueue (set_task s t (rested (s.tasks t))) t)
        × (round s qs ≡ queued (set_task s t (rested (s.tasks t))) t qs)
  unfolding put_back round
  put_back_running t current runs = (ground arith, ground arith)

  put_back_other :
      (s.current ≡ none) ⊎ ((t : ℕ) × (s.current ≡ some t) × (is_running (s.tasks t).state ≡ false))
      → (put_back s ≡ s) × (round s qs ≡ qs)
  unfolding put_back round
  put_back_other (inl current) = (ground arith, ground arith)
  put_back_other (inr (t, current, rests)) = (ground arith, ground arith)

  put_back-Holds : IsSchedule s qs → Holds (put_back s) (round s qs)
  put_back-Holds h = elim (Option-cases s.current) [
    | inl nothing ↦ unchanged (put_back_other (inl nothing))
    | inr (t, current) ↦ elim (Bool-cases (is_running (s.tasks t).state)) [
      | inr rests ↦ unchanged (put_back_other (inr (t, current, rests)))
      | inl runs ↦
          let (after, queues) = put_back_running t current runs in
          let rests : ((set_task s t (rested (s.tasks t))).tasks t).state ≡ ready = ground arith in
          subst (λ r. Holds (put_back s) r) (sym queues)
            (subst (λ r. Holds r (queued (set_task s t (rested (s.tasks t))) t qs)) (sym after)
              (enqueue-Holds (set_task s t (rested (s.tasks t))) t qs
                (set_task-Holds s qs h.queues t (rested (s.tasks t)) (h.apart t current))
                (h.apart t current) rests))
    ]
  ]
    where
      unchanged : (put_back s ≡ s) × (round s qs ≡ qs) → Holds (put_back s) (round s qs)
      unchanged (after, queues) =
          subst (λ r. Holds (put_back s) r) (sym queues)
            (subst (λ r. Holds r qs) (sym after) h.queues)

put_back_idle : (s : Scheduler) → (put_back s).idle_task ≡ s.idle_task
unfolding put_back
put_back_idle s = ground arith

schedule-some :
    (s after : Scheduler) (t : ℕ)
    → pick_next (put_back s) ≡ (some t, after)
    → schedule s ≡ (switch_of s.current t, start after t)
unfolding schedule
schedule-some s after t e = ground arith

start-IsSchedule :
    (s : Scheduler) (qs : List (List ℕ)) (t : ℕ)
    → Holds s qs
    → mem t (concat qs) ≡ false
    → IsSchedule (start s t) qs
      × ((start s t).current ≡ some t)
      × (((start s t).tasks t).state ≡ running)
unfolding start
start-IsSchedule s qs t h out = (
  record {
    queues = keep (set_task-Holds s qs h t (record (s.tasks t) { state = running }) out);
    apart = λ u e. ground arith;
  },
  refl,
  ground arith,
)
  where
    started : Scheduler
    started = set_task s t (record (s.tasks t) { state = running })

    keep : Holds started qs → Holds (start s t) qs
    keep k = record {
      lists = k.lists;
      levels = k.levels;
      distinct = k.distinct;
      counted = k.counted;
      placed = k.placed;
      waiting = k.waiting;
    }

-- The pair of tasks to switch between: none at the start, or where the same task goes on.
abbrev pub switch_between : Option ℕ → ℕ → Option (ℕ × ℕ)
switch_between none t = none
switch_between (some old) t = if old == t then none else some (old, t)

switch_of-switch_between :
    (current : Option ℕ) (t : ℕ) → switch_of current t ≡ switch_between current t
unfolding switch_of
switch_of-switch_between none t = refl
switch_of-switch_between (some old) t = refl

-- What a reschedule owes where it picks a task and leaves these queues.
abbrev pub Switched : Scheduler → ℕ → List (List ℕ) → Option (ℕ × ℕ) × Scheduler → Type 0
Switched s t qs (switch, s') =
    (switch ≡ switch_between s.current t)
    × (s'.current ≡ some t)
    × ((s'.tasks t).state ≡ running)
    × IsSchedule s' qs

switched :
    (s after : Scheduler) (qs : List (List ℕ)) (t : ℕ)
    → pick_next (put_back s) ≡ (some t, after)
    → Holds after qs
    → mem t (concat qs) ≡ false
    → Switched s t qs (schedule s)
switched s after qs t picked h out =
    let (is, current, runs) = start-IsSchedule after qs t h out in
    subst (Switched s t qs) (sym (schedule-some s after t picked))
      (switch_of-switch_between s.current t, current, runs, is)

concat_empty :
    (qs : List (List ℕ)) → ((p : ℕ) → p < length qs → get_or qs p [] ≡ []) → concat qs ≡ []
concat_empty [] empty = refl
concat_empty (q ∷ qs) empty =
    rw (empty 0 (omega arith)) (concat_empty qs (λ p lt. empty (suc p) (omega arith)))

module _ (s : Scheduler) (qs : List (List ℕ)) (h : IsSchedule s qs) where
  -- A reschedule first puts the current task, if it is running, at the back of the queue of its
  -- priority. Where queue `n` is then the highest that has tasks, its first task `t` becomes the
  -- current one and is running, the others keep their places, the switch goes from the task before
  -- it, and the queues stay well formed.
  pub schedule_highest :
      (n t : ℕ) (rest : List ℕ)
      → n < 5
      → get_or (round s qs) n [] ≡ t ∷ rest
      → ((p : ℕ) → n < p → p < 5 → get_or (round s qs) p [] ≡ [])
      → Switched s t (set (round s qs) n rest) (schedule s)
  schedule_highest n t rest lt at empty =
      let back = put_back-Holds s qs h in
      switched s (popped (put_back s) n) (set (round s qs) n rest) t
        (unfold pick_next in
          pick_from_highest (put_back s) (round s qs) back 5 n t rest (omega arith) lt at empty)
        (popped-Holds (put_back s) (round s qs) back n t rest lt at)
        (ground (arith, mem-set_pop (round s qs) n t t rest at back.distinct))

  -- Where no queue has a task after that, the idle task becomes the current one.
  pub schedule_idle :
      (i : ℕ)
      → ((p : ℕ) → p < 5 → get_or (round s qs) p [] ≡ [])
      → s.idle_task ≡ some i
      → Switched s i (round s qs) (schedule s)
  schedule_idle i empty has =
      let back = put_back-Holds s qs h in
      let none_left = concat_empty (round s qs) (λ p lt. empty p (omega (arith, back.levels))) in
      switched s (put_back s) (round s qs) i
        (unfold pick_next in
          pick_from_idle (put_back s) (round s qs) back 5 (omega arith) empty
          ∙ ap (λ (o : Option ℕ). (o, put_back s)) (put_back_idle s ∙ has))
        back (ap (mem i) none_left)
