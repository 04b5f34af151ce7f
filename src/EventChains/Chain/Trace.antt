-- ===== src/EventChains/Chain/Trace.antt =====
-- A chain against its reading over lists: the events that run, in order, and the report on them.
use gb_os.Base.{Bool, true, false, not, List, [], ◌∷◌}
use gb_os.Base.{if◌then◌else◌, length}
use gb_os.Base.Slots.{slots}
use gb_os.EventChains.Context.{EventContext}
use gb_os.EventChains.Result.{EventResult, EventFailure, ChainResult, ChainStatus, is_failure}
use gb_os.EventChains.Result.{success, failure, middleware_failure}
use gb_os.EventChains.Chain.{
  Handler, ChainableEvent, EventMiddleware, FaultToleranceMode, EventChain, new,
  with_fault_tolerance, event, middleware, failure_of,
}
use gb_os.EventChains.Chain.{strict, lenient, best_effort}

unfoldable pub add_events : EventChain → List ChainableEvent → EventChain
unfolding event
add_events c [] = c
add_events c (e ∷ es) = add_events (event c e) es

unfoldable pub add_middlewares : EventChain → List EventMiddleware → EventChain
unfolding middleware
add_middlewares c [] = c
add_middlewares c (m ∷ ms) = add_middlewares (middleware c m) ms

-- A chain as its users build it.
unfoldable pub build : FaultToleranceMode → List ChainableEvent → List EventMiddleware → EventChain
unfolding new with_fault_tolerance add_events add_middlewares
build mode es ms = with_fault_tolerance (add_middlewares (add_events new es) ms) mode

-- An event behind its middleware: the one that was added last is the outermost.
unfoldable pub layered : List EventMiddleware → ChainableEvent → Handler → Handler
layered [] e next = next
layered (m ∷ ms) e next = layered ms e (λ ctx. m.execute e ctx next)

abbrev pub Outcome : Type 0
Outcome = ChainableEvent × EventResult (Unit {0})

-- Whether a result ends the chain: strict on any failure, best effort on those of middleware.
unfoldable pub is_end : FaultToleranceMode → EventResult (Unit {0}) → Bool
is_end mode (success v) = false
is_end strict (failure m) = true
is_end lenient (failure m) = false
is_end best_effort (failure m) = false
is_end strict (middleware_failure m) = true
is_end lenient (middleware_failure m) = false
is_end best_effort (middleware_failure m) = true

-- The events that run, with their results, and the context in the end.
unfoldable pub outcomes :
    FaultToleranceMode
    → List EventMiddleware
    → List ChainableEvent
    → EventContext
    → List Outcome × EventContext
outcomes mode ms [] ctx = ([], ctx)
outcomes mode ms (e ∷ es) ctx =
    let (r, ctx') = layered ms e e.execute ctx in
    let rest = outcomes mode ms es ctx' in
    if is_end mode r then ((e, r) ∷ [], ctx') else ((e, r) ∷ rest.0, rest.1)

unfoldable pub failures_in : List Outcome → List EventFailure
unfolding failure_of
failures_in [] = []
failures_in ((e, r) ∷ os) = if is_failure r then failure_of e r ∷ failures_in os else failures_in os

unfoldable pub has_end : FaultToleranceMode → List Outcome → Bool
has_end mode [] = false
has_end mode ((e, r) ∷ os) = if is_end mode r then true else has_end mode os

abbrev pub status_of : Bool → List EventFailure → ChainStatus
status_of true fs = ChainStatus.failed
status_of false [] = ChainStatus.completed
status_of false (f ∷ fs) = ChainStatus.completed_with_warnings

-- The result that a chain owes for its failures, and whether one of them ended it.
unfoldable pub report : Bool → List EventFailure → ChainResult
report ended fs = record {
  is_success = not ended;
  status = status_of ended fs;
  failures = slots 16 fs;
  failure_count = length fs;
}
