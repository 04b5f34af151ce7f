-- ===== src/EventChains/Chain.antt =====
-- Chains of events, kernel/src/event_chains/chain.rs and mod.rs. An event or a middleware is a
-- trait object: its `execute` is a function of the context, and of the rest for a middleware.
pub mod Trace
pub mod Built
pub mod Refines
use Prim.Native.String.{String}
use gb_os.Base.{ℕ, zero, suc, ◌+◌, ◌-◌, Bool, true, false, Option, none, some, List, [], ◌∷◌}
use gb_os.Base.{ltb, ◌==◌, if◌then◌else◌, set, get_or, replicate}
use gb_os.EventChains.Context.{EventContext}
use gb_os.EventChains.Result.{
  EventResult, ErrorMessage, EventFailure, ChainResult, ChainStatus, from_static, codes, is_failure,
  is_middleware_failure, error_message, chain_success, add_failure,
}

abbrev pub Handler : Type 0
Handler = EventContext → EventResult (Unit {0}) × EventContext

pub record ChainableEvent : Type 0 where
  pub execute : Handler
  pub name : String

pub record EventMiddleware : Type 0 where
  pub execute : ChainableEvent → EventContext → Handler → EventResult (Unit {0}) × EventContext
  pub name : String

pub data FaultToleranceMode : Type 0 where
  strict : FaultToleranceMode
  lenient : FaultToleranceMode
  best_effort : FaultToleranceMode

abbrev pub max_events : ℕ
max_events = 16

abbrev pub max_middleware : ℕ
max_middleware = 8

pub record EventChain : Type 0 where
  pub events : List (Option ChainableEvent)
  pub event_count : ℕ
  pub middlewares : List (Option EventMiddleware)
  pub middleware_count : ℕ
  pub fault_tolerance : FaultToleranceMode

unfoldable pub new : EventChain
new = record {
  events = replicate max_events none;
  event_count = 0;
  middlewares = replicate max_middleware none;
  middleware_count = 0;
  fault_tolerance = FaultToleranceMode.strict;
}

unfoldable pub with_fault_tolerance : EventChain → FaultToleranceMode → EventChain
with_fault_tolerance c mode = record c { fault_tolerance = mode }

unfoldable pub event : EventChain → ChainableEvent → EventChain
event c e =
    if ltb c.event_count max_events
    then record c { events = set c.events c.event_count (some e); event_count = c.event_count + 1 }
    else c

unfoldable pub middleware : EventChain → EventMiddleware → EventChain
middleware c mw =
    if ltb c.middleware_count max_middleware
    then record c {
      middlewares = set c.middlewares c.middleware_count (some mw);
      middleware_count = c.middleware_count + 1;
    }
    else c

-- `left` is the source's `middleware_count - index`, so the middleware that comes next is the one
-- at `left - 1`.
unfoldable pub execute_middleware_recursive : EventChain → ℕ → ChainableEvent → Handler
execute_middleware_recursive c zero e ctx = e.execute ctx
execute_middleware_recursive c (suc left) e ctx = elim (get_or c.middlewares left none) [
  | some mw ↦ mw.execute e ctx (execute_middleware_recursive c left e)
  | none ↦ e.execute ctx
]

unfoldable pub execute_with_middleware : EventChain → ChainableEvent → Handler
unfolding execute_middleware_recursive
execute_with_middleware c e ctx =
    if c.middleware_count == 0
    then e.execute ctx
    else execute_middleware_recursive c c.middleware_count e ctx

unfoldable pub failure_of : ChainableEvent → EventResult (Unit {0}) → EventFailure
failure_of e r = record {
  event_name = e.name;
  error = elim (error_message r) [ some m ↦ m | none ↦ from_static (codes "unknown error") ];
  is_middleware_failure = is_middleware_failure r;
}

-- Whether a failure ends the chain.
unfoldable pub ends : FaultToleranceMode → EventResult (Unit {0}) → Bool
ends FaultToleranceMode.strict r = true
ends FaultToleranceMode.lenient r = false
ends FaultToleranceMode.best_effort r = is_middleware_failure r

abbrev pub stopped : ChainResult → ChainResult
stopped r = record r { is_success = false; status = ChainStatus.failed }

-- The final status, after the loop.
unfoldable pub finished : ChainResult → Bool → ChainResult
finished r had_failures =
    if had_failures then record r { status = ChainStatus.completed_with_warnings } else r

-- The loop over `i`, with its rounds left.
unfoldable pub run_events :
    EventChain → ℕ → ℕ → ChainResult → Bool → EventContext → ChainResult × EventContext
unfolding failure_of ends finished
run_events c zero i result had_failures ctx = (finished result had_failures, ctx)
run_events c (suc rounds) i result had_failures ctx = elim (get_or c.events i none) [
  | none ↦ run_events c rounds (suc i) result had_failures ctx
  | some e ↦
      let (event_result, ctx') = execute_with_middleware c e ctx in
      let result' = add_failure result (failure_of e event_result) in
      elim (is_failure event_result) [
        | false ↦ run_events c rounds (suc i) result had_failures ctx'
        | true ↦ elim (ends c.fault_tolerance event_result) [
          | true ↦ (stopped result', ctx')
          | false ↦ run_events c rounds (suc i) result' true ctx'
        ]
      ]
]

unfoldable pub execute : EventChain → EventContext → ChainResult × EventContext
unfolding run_events execute_with_middleware
execute c ctx = run_events c c.event_count 0 chain_success false ctx

-- A chain with neither middleware nor trait objects.
pub record StaticChain : Type 0 where
  pub events : List ChainableEvent
  pub fault_tolerance : FaultToleranceMode

-- Only `Strict` ends a static chain.
unfoldable pub ends_static : FaultToleranceMode → Bool
ends_static FaultToleranceMode.strict = true
ends_static FaultToleranceMode.lenient = false
ends_static FaultToleranceMode.best_effort = false

unfoldable pub run_static :
    FaultToleranceMode
    → List ChainableEvent
    → ChainResult
    → Bool
    → EventContext
    → ChainResult × EventContext
unfolding failure_of ends_static finished
run_static mode [] result had_failures ctx = (finished result had_failures, ctx)
run_static mode (e ∷ es) result had_failures ctx =
    let (event_result, ctx') = e.execute ctx in
    let result' = add_failure result (failure_of e event_result) in
    elim (is_failure event_result) [
      | false ↦ run_static mode es result had_failures ctx'
      | true ↦ elim (ends_static mode) [
        | true ↦ (stopped result', ctx')
        | false ↦ run_static mode es result' true ctx'
      ]
    ]

unfoldable pub execute_static : StaticChain → EventContext → ChainResult × EventContext
unfolding run_static
execute_static c ctx = run_static c.fault_tolerance c.events chain_success false ctx
