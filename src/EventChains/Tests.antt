-- ===== src/EventChains/Tests.antt =====
-- Tests of the event chains, and their theorems at concrete chains.
use gb_os.Base.{
  ℕ, zero, suc, ◌+◌, ◌%◌, ◌<◌, ◌≡◌, refl, Bool, true, false, ◌&&◌, ◌||◌, none, some, [], ◌∷◌, inl,
  arith,
}
use gb_os.Base.{◌==◌, ltb, if◌then◌else◌, length, take, replicate}
use gb_os.EventChains.Value.{ContextValue}
use gb_os.EventChains.Context.{EventContext, Key, set_value, get_value, same_bytes, has, len}
use gb_os.EventChains.Context as Context
use gb_os.EventChains.Context.Laws.{IsValid, get_value-set_value}
use gb_os.EventChains.Context.Typed.{set_u32, get_u32}
use gb_os.EventChains.Context.Invariant.{
  sets, removes, clears, performs, performs-IsValid, long_key_lost,
}
use gb_os.EventChains.Result.{
  EventResult, success, failure, middleware_failure, from_static, codes, failures_of, is_success,
  is_failure, add_failure,
}
use gb_os.EventChains.Chain.{
  ChainableEvent, EventMiddleware, FaultToleranceMode, StaticChain, execute, execute_static,
}
use gb_os.EventChains.Chain.Trace.{build, outcomes, report, has_end, failures_in}
use gb_os.EventChains.Chain.Refines.{execute-build}
use gb_os.EventChains.Middleware.{permission, retry, audit, ring_key}
use gb_os.EventChains.Middleware.Retry.{attempt, retry-attempt}
use gb_os.EventChains.Middleware.Permission.{denied, execute_denied}

abbrev count_key : Key
count_key = codes "count"

-- Counts its runs in the store, and fails in each that finds an odd count.
abbrev counted : EventContext → ℕ → EventResult (Unit {0}) × EventContext
counted ctx n = (
  if n % 2 == 1 then failure (from_static (codes "odd")) else success tt,
  set_u32 ctx count_key (n + 1),
)

abbrev counting : ChainableEvent
counting = record {
  execute = λ ctx. elim (get_u32 ctx count_key) [ none ↦ counted ctx 1 | some n ↦ counted ctx n ];
  name = "counting";
}

-- A middleware that does not let anything through.
abbrev closed : EventMiddleware
closed = record {
  execute = λ e ctx next. (middleware_failure (from_static (codes "closed")), ctx);
  name = "closed";
}

abbrev lenient_chain : EventContext → Bool × ℕ
lenient_chain ctx =
    let (r, ctx') =
      execute (build FaultToleranceMode.lenient (counting ∷ counting ∷ counting ∷ []) []) ctx in
    (r.is_success, length (failures_of r))

lenient_chain_continues : lenient_chain Context.new ≡ (true, 2)
unfolding execute build failures_of Context.new get_u32 set_u32 get_value set_value replicate
    is_failure add_failure from_static
lenient_chain_continues = refl

abbrev static_closed : StaticChain
static_closed = record {
  events =
      record { execute = λ ctx. closed.execute counting ctx counting.execute; name = "closed" }
      ∷ [];
  fault_tolerance = FaultToleranceMode.best_effort;
}

-- A static chain goes on after a failure of middleware also with best effort.
static_goes_on : (execute_static static_closed Context.new).0.is_success ≡ true
unfolding execute_static is_failure add_failure
static_goes_on = refl

execute-build_example :
    execute
      (build FaultToleranceMode.best_effort (counting ∷ counting ∷ []) (audit ∷ []))
      Context.new
    ≡ (let (trace, ctx') =
          outcomes FaultToleranceMode.best_effort
            (take 8 (audit ∷ []))
            (take 16 (counting ∷ counting ∷ []))
            Context.new in
        (report (has_end FaultToleranceMode.best_effort trace) (failures_in trace), ctx'))
execute-build_example =
    execute-build FaultToleranceMode.best_effort (counting ∷ counting ∷ []) (audit ∷ []) Context.new

get_value-set_value_example :
    get_value
      (set_value
        (performs Context.new (sets ring_key (ContextValue.u32 3) ∷ []))
        count_key
        (ContextValue.bool true))
      ring_key
    ≡ (if same_bytes count_key ring_key
          && (has (performs Context.new (sets ring_key (ContextValue.u32 3) ∷ [])) count_key
              || ltb (performs Context.new (sets ring_key (ContextValue.u32 3) ∷ [])).count 32)
        then some (ContextValue.bool true)
        else get_value (performs Context.new (sets ring_key (ContextValue.u32 3) ∷ [])) ring_key)
get_value-set_value_example =
    get_value-set_value (performs Context.new (sets ring_key (ContextValue.u32 3) ∷ [])) count_key
      ring_key (ContextValue.bool true) (performs-IsValid (sets ring_key (ContextValue.u32 3) ∷ []))
      (omega arith)

performs-IsValid_example :
    IsValid
      (performs Context.new (sets ring_key (ContextValue.u32 3) ∷ removes ring_key ∷ clears ∷ []))
performs-IsValid_example =
    performs-IsValid (sets ring_key (ContextValue.u32 3) ∷ removes ring_key ∷ clears ∷ [])

abbrev long_key : Key
long_key = codes "a key of more than thirty-two bytes"

long_key_lost_example :
    (get_value (set_value (performs Context.new []) long_key (ContextValue.u8 1)) long_key ≡ none)
    × (len (set_value (performs Context.new []) long_key (ContextValue.u8 1))
        ≡ suc (len (performs Context.new [])))
unfolding len performs Context.new
long_key_lost_example =
    long_key_lost (performs Context.new []) long_key (ContextValue.u8 1) (performs-IsValid [])
      (omega arith) (omega arith)

retry-attempt_example :
    (retry (record { max_retries = 3 })).execute counting Context.new counting.execute
    ≡ attempt counting.execute 1 Context.new
unfolding attempt Context.new get_u32 set_u32 get_value set_value is_success replicate
retry-attempt_example =
    retry-attempt (record { max_retries = 3 }) counting Context.new counting.execute 1 (omega arith)
      first_fails (inl refl)
  where
    first_fails : (j : ℕ) → j < 1 → is_success (attempt counting.execute j Context.new).0 ≡ false
    first_fails zero h = refl
    first_fails (suc j) h = absurd (omega arith)

execute_denied_example :
    execute
      (build FaultToleranceMode.strict
        (counting ∷ [])
        (audit ∷ permission (record { required_ring = 0 }) ∷ []))
      (set_u32 (performs Context.new []) ring_key 3)
    ≡ (report true (denied counting ∷ []), set_u32 (performs Context.new []) ring_key 3)
unfolding performs Context.new
execute_denied_example =
    execute_denied (record { required_ring = 0 }) counting [] (audit ∷ []) (performs Context.new [])
      3 (performs-IsValid []) (ground arith) (omega arith) (omega arith)
