-- ===== src/EventChains/Chain/Built.antt =====
-- How a chain stands after it was built, and its middleware in their order.
use mathlib.Core.Path.{fun_ext}
use mathlib.Core.List.{append-nil, append_assoc}
use gb_os.Base.{
  ℕ, zero, suc, ◌≤◌, ◌≡◌, refl, sym, ap, ◌∙◌, none, some, List, [], ◌∷◌, ◌++◌, min, arith,
}
use gb_os.Base.{ltb, if_cases, length, take, set, get_or, length-append}
use gb_os.Base.Slots.{slots, slots-nil, slots_full, set-slots, get_or-slots, take_next, take-min}
use gb_os.EventChains.Result.{}
use gb_os.EventChains.Chain.{
  Handler, ChainableEvent, EventMiddleware, FaultToleranceMode, EventChain, new,
  with_fault_tolerance, event, middleware, execute_middleware_recursive, execute_with_middleware,
}
use gb_os.EventChains.Chain.Trace.{add_events, add_middlewares, build, layered}

-- How a chain stands while it is built.
pub record Holds (c : EventChain) (es : List ChainableEvent) (ms : List EventMiddleware)
    : Type 0 where
  pub events : c.events ≡ slots 16 es
  pub event_count : c.event_count ≡ min (length es) 16
  pub middlewares : c.middlewares ≡ slots 8 ms
  pub middleware_count : c.middleware_count ≡ min (length ms) 8

event-Holds :
    (c : EventChain) (es : List ChainableEvent) (ms : List EventMiddleware) (e : ChainableEvent)
    → Holds c es ms
    → Holds (event c e) (es ++ e ∷ []) ms
unfolding event
event-Holds c es ms e h =
    if_cases (λ c'. Holds c' (es ++ e ∷ []) ms) (ltb c.event_count 16) _ c
      (λ room.
        let place : c.event_count ≡ length es = ground (arith, h.event_count) in
        record {
          events =
              ap (λ t. set t c.event_count (some e)) h.events
              ∙ ap (λ t. set (slots 16 es) t (some e)) place
              ∙ set-slots 16 es e (ground (arith, h.event_count));
          event_count = ground (arith, h.event_count, length-append es (e ∷ []));
          middlewares = h.middlewares;
          middleware_count = h.middleware_count;
        })
      (λ full. record {
        events = h.events ∙ sym (slots_full 16 es (e ∷ []) (ground (arith, h.event_count)));
        event_count = ground (arith, h.event_count, length-append es (e ∷ []));
        middlewares = h.middlewares;
        middleware_count = h.middleware_count;
      })

middleware-Holds :
    (c : EventChain) (es : List ChainableEvent) (ms : List EventMiddleware) (m : EventMiddleware)
    → Holds c es ms
    → Holds (middleware c m) es (ms ++ m ∷ [])
unfolding middleware
middleware-Holds c es ms m h =
    if_cases (λ c'. Holds c' es (ms ++ m ∷ [])) (ltb c.middleware_count 8) _ c
      (λ room.
        let place : c.middleware_count ≡ length ms = ground (arith, h.middleware_count) in
        record {
          middlewares =
              ap (λ t. set t c.middleware_count (some m)) h.middlewares
              ∙ ap (λ t. set (slots 8 ms) t (some m)) place
              ∙ set-slots 8 ms m (ground (arith, h.middleware_count));
          middleware_count = ground (arith, h.middleware_count, length-append ms (m ∷ []));
          events = h.events;
          event_count = h.event_count;
        })
      (λ full. record {
        middlewares =
            h.middlewares ∙ sym (slots_full 8 ms (m ∷ []) (ground (arith, h.middleware_count)));
        middleware_count = ground (arith, h.middleware_count, length-append ms (m ∷ []));
        events = h.events;
        event_count = h.event_count;
      })

add_events-Holds :
    (c : EventChain) (xs es : List ChainableEvent) (ms : List EventMiddleware)
    → Holds c xs ms
    → Holds (add_events c es) (xs ++ es) ms
unfolding add_events
add_events-Holds c xs [] ms h = rw append-nil h
add_events-Holds c xs (e ∷ es) ms h =
    rw (← append_assoc xs (e ∷ []) es)
      (add_events-Holds (event c e) (xs ++ e ∷ []) es ms (event-Holds c xs ms e h))

add_middlewares-Holds :
    (c : EventChain) (es : List ChainableEvent) (xs ms : List EventMiddleware)
    → Holds c es xs
    → Holds (add_middlewares c ms) es (xs ++ ms)
unfolding add_middlewares
add_middlewares-Holds c es xs [] h = rw append-nil h
add_middlewares-Holds c es xs (m ∷ ms) h =
    rw (← append_assoc xs (m ∷ []) ms)
      (add_middlewares-Holds (middleware c m) es (xs ++ m ∷ []) ms (middleware-Holds c es xs m h))

new-Holds : Holds new [] []
unfolding new
new-Holds = record {
  events = sym (slots-nil 16);
  event_count = refl;
  middlewares = sym (slots-nil 8);
  middleware_count = refl;
}

pub build-Holds :
    (mode : FaultToleranceMode) (es : List ChainableEvent) (ms : List EventMiddleware)
    → Holds (build mode es ms) es ms
unfolding build with_fault_tolerance
build-Holds mode es ms =
    let h =
      add_middlewares-Holds (add_events new es) es [] ms
        (add_events-Holds new [] es [] new-Holds) in
    record {
      events = h.events;
      event_count = h.event_count;
      middlewares = h.middlewares;
      middleware_count = h.middleware_count;
    }

pub layered-append :
    (ms : List EventMiddleware) (m : EventMiddleware) (e : ChainableEvent) (next : Handler)
    → layered (ms ++ m ∷ []) e next ≡ (λ ctx. m.execute e ctx (layered ms e next))
unfolding layered
layered-append [] m e next = refl
layered-append (x ∷ ms) m e next = layered-append ms m e (λ ctx. x.execute e ctx next)

module _ (c : EventChain) (es : List ChainableEvent) (ms : List EventMiddleware)
    (h : Holds c es ms) where
  recursive-eq-layered :
      (n : ℕ) (e : ChainableEvent)
      → n ≤ length ms
      → n ≤ 8
      → execute_middleware_recursive c n e ≡ layered (take n ms) e e.execute
  unfolding execute_middleware_recursive layered
  recursive-eq-layered zero e le small = refl
  recursive-eq-layered (suc n) e le small =
      let (m, at, more) = take_next ms n (omega arith) in
      let found : get_or c.middlewares n none ≡ some m =
        ap (λ t. get_or t n none) h.middlewares ∙ get_or-slots 8 ms n (omega arith) ∙ at in
      let rest = recursive-eq-layered n e (omega arith) (omega arith) in
      fun_ext λ ctx.
        rw
          (
            found,
            execute_middleware_recursive,
            rest,
            more,
            layered-append (take n ms) m e e.execute,
          )
          refl

  pub execute_with_middleware-eq-layered :
      (e : ChainableEvent) → execute_with_middleware c e ≡ layered (take 8 ms) e e.execute
  unfolding execute_with_middleware execute_middleware_recursive
  execute_with_middleware-eq-layered e = fun_ext λ ctx. ground (arith, ap (λ f. f ctx) whole)
    where
      whole : execute_middleware_recursive c c.middleware_count e ≡ layered (take 8 ms) e e.execute
      whole = rw (h.middleware_count) (
          recursive-eq-layered (min (length ms) 8) e (omega arith) (omega arith)
          ∙ ap (λ t. layered t e e.execute) (take-min 8 ms))
