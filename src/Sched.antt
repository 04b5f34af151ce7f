-- ===== src/Sched.antt =====
-- The scheduler, kernel/src/sched/mod.rs. A task stands for its address; the nodes are those of the
-- run queues. `context_switch` is assembly: its two arguments are given back to the caller.
pub mod Queues
pub mod Enqueue
pub mod Pick
pub mod Round
pub mod Ticks
mod Tests
use gb_os.Base.{
  ℕ, zero, suc, ◌+◌, ◌-◌, ◌%◌, ◌^◌, Bool, true, false, Option, none, some, List, [], ◌∷◌, ◌++◌, min,
}
use gb_os.Base.{◌==◌, ltb, if◌then◌else◌, length, take, set, get_or, replicate}
use gb_os.Mm.Intrusive as Intrusive
use gb_os.Mm.Intrusive.{Nodes, IntrusiveList, push_back, pop_front}

pub data TaskState : Type 0 where
  ready : TaskState
  running : TaskState
  blocked : TaskState
  zombie : TaskState

pub data Priority : Type 0 where
  idle : Priority
  low : Priority
  normal : Priority
  high : Priority
  realtime : Priority

-- `priority as usize`
abbrev pub level : Priority → ℕ
level idle = 0
level low = 1
level normal = 2
level high = 3
level realtime = 4

abbrev pub num_priorities : ℕ
num_priorities = 5

pub record Task : Type 0 where
  pub pid : ℕ
  pub ppid : ℕ
  pub name : List ℕ
  pub state : TaskState
  pub priority : Priority
  pub time_slice : ℕ
  pub cpu_time : ℕ
  pub eax : ℕ
  pub ebx : ℕ
  pub ecx : ℕ
  pub edx : ℕ
  pub esi : ℕ
  pub edi : ℕ
  pub ebp : ℕ
  pub esp : ℕ
  pub eip : ℕ
  pub eflags : ℕ
  pub cr3 : ℕ
  pub kernel_stack : ℕ
  pub user_stack : ℕ

-- A new task, given the next process number; the number after it comes back.
unfoldable pub new_task : ℕ → List ℕ → Priority → Task × ℕ
new_task next_pid name priority = (
  record {
    pid = next_pid;
    ppid = 0;
    name = take (min (length name) 15) name ++ replicate (16 - min (length name) 15) 0;
    state = ready;
    priority = priority;
    time_slice = 10;
    cpu_time = 0;
    eax = 0;
    ebx = 0;
    ecx = 0;
    edx = 0;
    esi = 0;
    edi = 0;
    ebp = 0;
    esp = 0;
    eip = 0;
    eflags = 0x202;
    cr3 = 0;
    kernel_stack = 0;
    user_stack = 0;
  },
  (next_pid + 1) % 2 ^ 32,
)

pub record Scheduler : Type 0 where
  pub run_queues : List IntrusiveList
  pub current : Option ℕ
  pub idle_task : Option ℕ
  pub ready_count : ℕ
  pub context_switches : ℕ
  -- The tasks that the scheduler points to, and the nodes in them.
  pub tasks : ℕ → Task
  pub nodes : Nodes

unfoldable pub new : (ℕ → Task) → Nodes → Scheduler
unfolding Intrusive.new
new tasks nodes = record {
  run_queues = replicate num_priorities Intrusive.new;
  current = none;
  idle_task = none;
  ready_count = 0;
  context_switches = 0;
  tasks = tasks;
  nodes = nodes;
}

abbrev pub queue : Scheduler → ℕ → IntrusiveList
queue s p = get_or s.run_queues p Intrusive.new

unfoldable pub enqueue : Scheduler → ℕ → Scheduler
enqueue s t =
    let p = level (s.tasks t).priority in
    let (l, nodes) = push_back (queue s p) s.nodes t in
    record s { run_queues = set s.run_queues p l; nodes = nodes; ready_count = s.ready_count + 1 }

-- The loop over the priorities, from the highest down; `n` of them are left.
unfoldable pub pick_from : ℕ → Scheduler → Option ℕ × Scheduler
pick_from zero s = (s.idle_task, s)
pick_from (suc n) s =
    let (popped, l, nodes) = pop_front (queue s n) s.nodes in
    let after : Scheduler = record s { run_queues = set s.run_queues n l; nodes = nodes } in
    elim popped [
      | some t ↦ (some t, record after { ready_count = s.ready_count - 1 })
      | none ↦ pick_from n after
    ]

unfoldable pub pick_next : Scheduler → Option ℕ × Scheduler
unfolding pick_from
pick_next s = pick_from num_priorities s

unfoldable pub set_current : Scheduler → Option ℕ → Scheduler
set_current s t = record s { current = t }

unfoldable pub set_idle : Scheduler → ℕ → Scheduler
set_idle s t = record s { idle_task = some t }

unfoldable pub record_context_switch : Scheduler → Scheduler
record_context_switch s = record s { context_switches = (s.context_switches + 1) % 2 ^ 64 }

abbrev pub set_task : Scheduler → ℕ → Task → Scheduler
set_task s t task = record s { tasks = λ u. if u == t then task else s.tasks u }

abbrev pub ticked : Task → Task
ticked task = record task {
  cpu_time = (task.cpu_time + 1) % 2 ^ 64;
  time_slice = task.time_slice - 1;
}

-- `Scheduler::timer_tick`: whether the time slice of the current task has expired.
unfoldable pub tick : Scheduler → Bool × Scheduler
tick s = elim s.current [
  | none ↦ (false, s)
  | some t ↦ let task = ticked (s.tasks t) in (task.time_slice == 0, set_task s t task)
]

abbrev pub is_running : TaskState → Bool
is_running ready = false
is_running running = true
is_running blocked = false
is_running zombie = false

abbrev pub rested : Task → Task
rested task = record task { state = ready; time_slice = 10 }

-- The current task goes back into its run queue, if it is still runnable.
unfoldable pub put_back : Scheduler → Scheduler
unfolding enqueue
put_back s = elim s.current [
  | none ↦ s
  | some old ↦
      if is_running (s.tasks old).state
      then enqueue (set_task s old (rested (s.tasks old))) old
      else s
]

-- A task that was picked becomes the current one.
unfoldable pub start : Scheduler → ℕ → Scheduler
unfolding set_current record_context_switch
start s t =
    record_context_switch
      (set_current (set_task s t (record (s.tasks t) { state = running })) (some t))

-- The switch that is made, from the old task to the new one, if both are there and differ.
unfoldable pub switch_of : Option ℕ → ℕ → Option (ℕ × ℕ)
switch_of none t = none
switch_of (some old) t = if old == t then none else some (old, t)

unfoldable pub schedule : Scheduler → Option (ℕ × ℕ) × Scheduler
unfolding put_back pick_next start switch_of
schedule s =
    let (picked, after) = pick_next (put_back s) in
    elim picked [ none ↦ (none, after) | some t ↦ (switch_of s.current t, start after t) ]

unfoldable pub timer_tick : Scheduler → Option (ℕ × ℕ) × Scheduler
unfolding tick schedule
timer_tick s = let (expired, s') = tick s in if expired then schedule s' else (none, s')
