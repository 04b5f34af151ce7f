-- ===== src/EventChains/Middleware/Permission.antt =====
-- The permission middleware around a whole chain.
use gb_os.Base.{ℕ, ◌%◌, ◌<◌, ◌≡◌, ap, ◌∙◌, true, false, ◌||◌, some, List, [], ◌∷◌, ◌++◌, arith}
use gb_os.Base.{ltb, length, take, take_all, length-append}
use gb_os.EventChains.Value.{ContextValue}
use gb_os.EventChains.Context.{EventContext, has}
use gb_os.EventChains.Context.Typed.{set_u32, get_u32}
use gb_os.EventChains.Context.Laws.{IsValid, get_value-set_value, same_bytes_refl}
use gb_os.EventChains.Result.{
  EventFailure, failure, from_static, codes, is_failure, is_middleware_failure, error_message,
}
use gb_os.EventChains.Chain.{
  ChainableEvent, EventMiddleware, FaultToleranceMode, execute, failure_of,
}
use gb_os.EventChains.Chain.Trace.{build, layered, outcomes, is_end, report, failures_in, has_end}
use gb_os.EventChains.Chain.Built.{layered-append}
use gb_os.EventChains.Chain.Refines.{execute-build}
use gb_os.EventChains.Middleware.{
  PermissionMiddleware, ring_key, current_ring, check_permission, permission,
}

abbrev pub denied : ChainableEvent → EventFailure
denied e = record {
  event_name = e.name;
  error = from_static (codes "insufficient privileges");
  is_middleware_failure = false;
}

pub get_u32-set_u32 :
    (c : EventContext) (r : ℕ)
    → IsValid c
    → (has c ring_key || ltb c.count 32) ≡ true
    → get_u32 (set_u32 c ring_key r) ring_key ≡ some r
unfolding get_u32 set_u32
get_u32-set_u32 c r valid room = ground (
  arith,
  get_value-set_value c ring_key ring_key (ContextValue.u32 r) valid (omega arith),
  same_bytes_refl ring_key,
)

module _ (m : PermissionMiddleware) (ctx : EventContext)
    (above : m.required_ring < current_ring ctx) where
  check_denies :
      (ms : List EventMiddleware) (e : ChainableEvent)
      → layered (ms ++ permission m ∷ []) e e.execute ctx
        ≡ (failure (from_static (codes "insufficient privileges")), ctx)
  unfolding permission check_permission
  check_denies ms e = rw (layered-append ms (permission m) e e.execute) (ground arith)

  denied_outcomes :
      (ms : List EventMiddleware) (e : ChainableEvent) (es : List ChainableEvent)
      → outcomes FaultToleranceMode.strict (ms ++ permission m ∷ []) (e ∷ es) ctx
        ≡ ((e, failure (from_static (codes "insufficient privileges"))) ∷ [], ctx)
  unfolding outcomes is_end
  denied_outcomes ms e es = ground (arith, check_denies ms e)

current_ring-set_u32 :
    (c : EventContext) (r : ℕ)
    → IsValid c
    → (has c ring_key || ltb c.count 32) ≡ true
    → current_ring (set_u32 c ring_key r) ≡ r % 256
unfolding current_ring
current_ring-set_u32 c r valid room = ground (arith, get_u32-set_u32 c r valid room)

-- A chain whose last middleware asks for a ring runs no event in a less privileged one: where the
-- ring was written to the store as `r`, and `r` modulo 256 is above the ring that is asked for, a
-- strict chain with at least one event and at most eight middleware fails with one failure, the
-- denial of its first event, and leaves the store as it was.
pub execute_denied :
    (m : PermissionMiddleware) (e : ChainableEvent) (es : List ChainableEvent)
    (ms : List EventMiddleware) (c : EventContext) (r : ℕ)
    → IsValid c
    → (has c ring_key || ltb c.count 32) ≡ true
    → m.required_ring < r % 256
    → length ms < 8
    → execute
        (build FaultToleranceMode.strict (e ∷ es) (ms ++ permission m ∷ []))
        (set_u32 c ring_key r)
      ≡ (report true (denied e ∷ []), set_u32 c ring_key r)
unfolding failures_in has_end failure_of is_failure is_middleware_failure error_message is_end
execute_denied m e es ms c r valid room above few =
    let mode = FaultToleranceMode.strict in
    let ctx = set_u32 c ring_key r in
    let all =
      take_all 8 (ms ++ permission m ∷ []) (omega (arith, length-append ms (permission m ∷ []))) in
    let ring : m.required_ring < current_ring ctx =
      omega (arith, current_ring-set_u32 c r valid room) in
    execute-build mode (e ∷ es) (ms ++ permission m ∷ []) ctx
    ∙ ap (λ t. (report (has_end mode t.0) (failures_in t.0), t.1))
        (ap (λ l. outcomes mode l (take 16 (e ∷ es)) ctx) all
          ∙ denied_outcomes m ctx ring ms e (take 15 es))
