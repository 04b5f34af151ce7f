-- ===== src/Sched/Ticks.antt =====
-- The time slice of the running task.
use mathlib.Core.Path.{subst}
use gb_os.Base.{ℕ, zero, suc, ◌≤◌, ◌≡◌, refl, sym, Option, none, some, List, arith}
use gb_os.Base.{◌==◌}
use gb_os.Mm.Intrusive.{IntrusiveList}
use gb_os.Sched.{Scheduler, set_task, ticked, tick, schedule, timer_tick}

-- The scheduler after some timer interrupts.
unfoldable pub after_ticks : ℕ → Scheduler → Scheduler
after_ticks zero s = s
after_ticks (suc n) s = after_ticks n (timer_tick s).1

tick-some :
    (s : Scheduler) (t : ℕ)
    → s.current ≡ some t
    → tick s ≡ ((ticked (s.tasks t)).time_slice == 0, set_task s t (ticked (s.tasks t)))
unfolding tick
tick-some s t current = ground arith

-- A tick that leaves some of the slice.
tick_within :
    (s : Scheduler) (t k : ℕ)
    → s.current ≡ some t
    → (s.tasks t).time_slice ≡ suc (suc k)
    → timer_tick s ≡ (none, set_task s t (ticked (s.tasks t)))
unfolding timer_tick
tick_within s t k current slice = ground (arith, tick-some s t current)

tick_last :
    (s : Scheduler) (t : ℕ)
    → s.current ≡ some t
    → (s.tasks t).time_slice ≤ 1
    → timer_tick s ≡ schedule (set_task s t (ticked (s.tasks t)))
unfolding timer_tick
tick_last s t current slice = ground (arith, tick-some s t current)

-- Task `t` is the current one with one tick left, and the next interrupt reschedules.
abbrev pub AtLastTick : ℕ → List IntrusiveList → Scheduler → Type 0
AtLastTick t queues s =
    (s.current ≡ some t)
    × (s.run_queues ≡ queues)
    × ((s.tasks t).time_slice ≡ 1)
    × (timer_tick s ≡ schedule (set_task s t (ticked (s.tasks t))))

-- A task that has `k + 1` ticks left stays the current one through `k` timer interrupts, with one
-- tick left and the run queues as they were; the next interrupt charges the last tick and
-- reschedules.
pub slice_runs_out :
    (k : ℕ) (s : Scheduler) (t : ℕ)
    → s.current ≡ some t
    → (s.tasks t).time_slice ≡ suc k
    → AtLastTick t s.run_queues (after_ticks k s)
unfolding after_ticks
slice_runs_out zero s t current slice = (current, refl, slice, tick_last s t current (omega arith))
slice_runs_out (suc k) s t current slice =
    let step = tick_within s t k current slice in
    let next : Scheduler = set_task s t (ticked (s.tasks t)) in
    let rest = slice_runs_out k next t current (ground arith) in
    subst (λ (r : Option (ℕ × ℕ) × Scheduler). AtLastTick t s.run_queues (after_ticks k r.1))
      (sym step) rest
