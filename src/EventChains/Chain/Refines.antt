-- ===== src/EventChains/Chain/Refines.antt =====
-- The run of a chain refines its reading over lists.
use mathlib.Core.List.{append-nil, append_assoc}
use gb_os.Base.{
  ℕ, suc, ◌+◌, ◌<◌, ◌≤◌, ◌≡◌, refl, sym, ap, ◌∙◌, Bool, true, false, List, [], ◌∷◌, ◌++◌, inl, inr,
  arith,
}
use gb_os.Base.{if◌then◌else◌, Bool-cases, length, take, length-append, length-take}
use gb_os.Base.Slots.{slots, slots-nil, set-slots, Loaded, Loaded-slots}
use gb_os.EventChains.Context.{EventContext}
use gb_os.EventChains.Result.{
  EventResult, EventFailure, ChainResult, ChainStatus, is_failure, is_middleware_failure,
  chain_success, add_failure,
}
use gb_os.EventChains.Result.{success, failure, middleware_failure}
use gb_os.EventChains.Chain.{
  ChainableEvent, EventMiddleware, FaultToleranceMode, EventChain, with_fault_tolerance,
  execute_with_middleware, failure_of, ends, stopped, finished, run_events, execute,
}
use gb_os.EventChains.Chain.{strict, lenient, best_effort}
use gb_os.EventChains.Chain.Trace.{
  build, layered, Outcome, is_end, outcomes, failures_in, has_end, report,
}
use gb_os.EventChains.Chain.Built.{build-Holds, execute_with_middleware-eq-layered}

-- Whether there are any failures.
abbrev nonempty : List EventFailure → Bool
nonempty [] = false
nonempty (f ∷ fs) = true

-- A result on the way: no failure has ended the chain.
abbrev so_far : List EventFailure → ChainResult
so_far fs = record {
  is_success = true;
  status = ChainStatus.completed;
  failures = slots 16 fs;
  failure_count = length fs;
}

add_failure-so_far :
    (fs : List EventFailure) (f : EventFailure)
    → length fs < 16
    → add_failure (so_far fs) f ≡ so_far (fs ++ f ∷ [])
unfolding add_failure
add_failure-so_far fs f room =
    rw (← set-slots 16 fs f room) (ground (arith, length-append fs (f ∷ [])))

finished-so_far : (fs : List EventFailure) → finished (so_far fs) (nonempty fs) ≡ report false fs
unfolding finished report
finished-so_far [] = refl
finished-so_far (f ∷ fs) = refl

stopped-so_far : (fs : List EventFailure) → stopped (so_far fs) ≡ report true fs
unfolding report
stopped-so_far fs = refl

nonempty-append : (fs : List EventFailure) (f : EventFailure) → nonempty (fs ++ f ∷ []) ≡ true
nonempty-append [] f = refl
nonempty-append (g ∷ fs) f = refl

is_end_lem :
    (mode : FaultToleranceMode) (r : EventResult (Unit {0}))
    → is_end mode r ≡ (if is_failure r then ends mode r else false)
unfolding is_end is_failure ends is_middleware_failure
is_end_lem strict (success v) = refl
is_end_lem lenient (success v) = refl
is_end_lem best_effort (success v) = refl
is_end_lem strict (failure m) = refl
is_end_lem lenient (failure m) = refl
is_end_lem best_effort (failure m) = refl
is_end_lem strict (middleware_failure m) = refl
is_end_lem lenient (middleware_failure m) = refl
is_end_lem best_effort (middleware_failure m) = refl

-- What a chain answers that has met some failures and still has this trace before it.
abbrev answer :
    FaultToleranceMode
    → List EventFailure
    → List Outcome × EventContext
    → ChainResult × EventContext
answer mode fs t = (report (has_end mode t.0) (fs ++ failures_in t.0), t.1)

module _ (c : EventChain) (ms : List EventMiddleware)
    (runs : (e : ChainableEvent) → execute_with_middleware c e ≡ layered ms e e.execute) where
  run_events-answer :
      (rest : List ChainableEvent) (i : ℕ) (fs : List EventFailure) (ctx : EventContext)
      → Loaded c.events i rest
      → length fs + length rest ≤ 16
      → run_events c (length rest) i (so_far fs) (nonempty fs) ctx
        ≡ answer c.fault_tolerance fs (outcomes c.fault_tolerance ms rest ctx)
  unfolding run_events outcomes failures_in has_end
  run_events-answer [] i fs ctx at room = rw (finished-so_far fs, append-nil fs) refl
  run_events-answer (e ∷ rest) i fs ctx at room =
      let mode = c.fault_tolerance in
      let p = layered ms e e.execute ctx in
      let f = failure_of e p.0 in
      let added = add_failure-so_far fs f (omega arith) in
      rw (at.0, run_events, runs e)
        (elim (Bool-cases (is_failure p.0)) [
          | inr fine ↦
              let passes : is_end mode p.0 ≡ false = rw (is_end_lem mode p.0, fine) refl in
              rw (fine, runs e, passes, passes, fine)
                (run_events-answer rest (suc i) fs p.1 at.1 (omega arith))
          | inl fails ↦ elim (Bool-cases (ends mode p.0)) [
            | inl last ↦
                let ended : is_end mode p.0 ≡ true = rw (is_end_lem mode p.0, fails, last) refl in
                rw
                  (
                    fails,
                    runs e,
                    last,
                    runs e,
                    added,
                    stopped-so_far (fs ++ f ∷ []),
                    ended,
                    ended,
                    fails,
                  )
                  refl
            | inr more ↦
                let goes_on : is_end mode p.0 ≡ false =
                  rw (is_end_lem mode p.0, fails, more) refl in
                rw (fails, runs e, more, runs e, added, goes_on, goes_on, fails)
                  (ap (λ b. run_events c (length rest) (suc i) (so_far (fs ++ f ∷ [])) b p.1)
                      (sym (nonempty-append fs f))
                    ∙ run_events-answer rest (suc i) (fs ++ f ∷ []) p.1 at.1
                        (omega (arith, length-append fs (f ∷ [])))
                    ∙ ap
                        (λ t. (
                          report (has_end mode (outcomes mode ms rest p.1).0) t,
                          (outcomes mode ms rest p.1).1,
                        ))
                        (append_assoc fs (f ∷ []) (failures_in (outcomes mode ms rest p.1).0)))
          ]
        ])

chain_success-so_far : chain_success ≡ so_far []
chain_success-so_far = ap (λ t. record chain_success { failures = t }) (sym (slots-nil 16))

built_mode :
    (mode : FaultToleranceMode) (es : List ChainableEvent) (ms : List EventMiddleware)
    → (build mode es ms).fault_tolerance ≡ mode
unfolding build with_fault_tolerance
built_mode mode es ms = refl

-- A chain that was built from any events and middleware: the first 16 events run in order, each
-- behind the first 8 middleware with the last added outermost, up to the first failure that ends
-- the chain in its mode. The result lists every failure of those in order, is a success unless one
-- ended the chain, and has warnings if there are failures and none ended it.
pub execute-build :
    (mode : FaultToleranceMode) (es : List ChainableEvent) (ms : List EventMiddleware)
    (ctx : EventContext)
    → execute (build mode es ms) ctx ≡ (
        let (trace, ctx') = outcomes mode (take 8 ms) (take 16 es) ctx in
        (report (has_end mode trace) (failures_in trace), ctx'))
unfolding execute
execute-build mode es ms ctx =
    let c = build mode es ms in
    let h = build-Holds mode es ms in
    let count : c.event_count ≡ length (take 16 es) =
      omega (arith, h.event_count, length-take 16 es) in
    let loaded : Loaded c.events 0 (take 16 es) = rw h.events (Loaded-slots 16 es) in
    let ran =
      run_events-answer c (take 8 ms) (execute_with_middleware-eq-layered c es ms h) (take 16 es) 0
        [] ctx loaded (omega (arith, length-take 16 es)) in
    ap (λ n. run_events c n 0 chain_success false ctx) count
    ∙ ap (λ r. run_events c (length (take 16 es)) 0 r false ctx) chain_success-so_far
    ∙ ran
    ∙ ap (λ m. answer m [] (outcomes m (take 8 ms) (take 16 es) ctx)) (built_mode mode es ms)
