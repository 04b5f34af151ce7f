-- ===== src/Sched/Tests.antt =====
-- Tests of the scheduler, and its theorems at concrete queues.
use gb_os.Base.{ℕ, zero, suc, ◌<◌, false, ◌≡◌, refl, some, List, [], ◌∷◌, arith}
use gb_os.Base.{get_or, set, replicate}
use gb_os.Mm.Intrusive.{Nodes, unlinked}
use gb_os.Mm.Intrusive.Effects.{IsList, new-IsList}
use gb_os.Mm.Intrusive.Links.{mem}
use gb_os.Mm.Intrusive as Intrusive
use gb_os.Sched.{Task, Scheduler, new_task, normal, new, enqueue, schedule, set_current}
use gb_os.Sched.Enqueue.{Holds, IsSchedule, queued, enqueue-Holds}
use gb_os.Sched.Round.{round, Switched, schedule_highest}
use gb_os.Sched.Ticks.{AtLastTick, after_ticks, slice_runs_out}

abbrev blank : Nodes
blank a = unlinked

abbrev tasks : ℕ → Task
tasks t = (new_task t [] normal).0

abbrev empty : Scheduler
empty = new tasks blank

abbrev no_tasks : List (List ℕ)
no_tasks = [] ∷ [] ∷ [] ∷ [] ∷ [] ∷ []

none_there : (p t : ℕ) → mem t (get_or no_tasks p []) ≡ false
none_there zero t = refl
none_there (suc zero) t = refl
none_there (suc (suc zero)) t = refl
none_there (suc (suc (suc zero))) t = refl
none_there (suc (suc (suc (suc zero)))) t = refl
none_there (suc (suc (suc (suc (suc p))))) t = refl

empty-Holds : Holds empty no_tasks
unfolding new replicate
empty-Holds = record {
  lists = (nil, (nil, (nil, (nil, (nil, tt)))));
  levels = refl;
  distinct = tt;
  counted = refl;
  placed = λ p t m. ground (arith, none_there p t);
  waiting = λ t m. ground arith;
}
  where
    nil : IsList blank Intrusive.new []
    nil = new-IsList blank

-- One task waits.
abbrev waiting_one : Scheduler
waiting_one = enqueue empty 7

waiting_one-IsSchedule : IsSchedule waiting_one (queued empty 7 no_tasks)
unfolding enqueue new new_task
waiting_one-IsSchedule = record {
  queues = enqueue-Holds empty 7 no_tasks empty-Holds refl refl;
  apart = λ t e. ground arith;
}

schedule_highest_example :
    Switched waiting_one 7
      (set (round waiting_one (queued empty 7 no_tasks)) 2 [])
      (schedule waiting_one)
unfolding round enqueue new new_task
schedule_highest_example =
    schedule_highest waiting_one (queued empty 7 no_tasks) waiting_one-IsSchedule 2 7 []
      (omega arith) refl higher
  where
    higher :
        (p : ℕ) → 2 < p → p < 5 → get_or (round waiting_one (queued empty 7 no_tasks)) p [] ≡ []
    higher zero gt lt = absurd (omega arith)
    higher (suc zero) gt lt = absurd (omega arith)
    higher (suc (suc zero)) gt lt = absurd (omega arith)
    higher (suc (suc (suc zero))) gt lt = refl
    higher (suc (suc (suc (suc zero)))) gt lt = refl
    higher (suc (suc (suc (suc (suc p))))) gt lt = absurd (omega arith)

slice_runs_out_example :
    AtLastTick 7
      (set_current empty (some 7)).run_queues
      (after_ticks 9 (set_current empty (some 7)))
unfolding set_current new new_task
slice_runs_out_example = slice_runs_out 9 (set_current empty (some 7)) 7 refl refl
