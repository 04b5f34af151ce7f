-- ===== src/EventChains/Middleware/Retry.antt =====
-- What the retry middleware gives: the first success, or the last of its attempts.
use gb_os.Base.{ℕ, zero, suc, ◌<◌, ◌≤◌, ◌≡◌, refl, true, false, ◌⊎◌, inl, inr, arith}
use gb_os.Base.{Bool-cases}
use gb_os.EventChains.Context.{EventContext}
use gb_os.EventChains.Result.{EventResult, failure, from_static, codes, is_success}
use gb_os.EventChains.Chain.{Handler, ChainableEvent}
use gb_os.EventChains.Middleware.{RetryMiddleware, retry_loop, run_retries, retry}

-- The attempt after `k` others, each on the context that the one before it left.
unfoldable pub attempt : Handler → ℕ → Handler
attempt next zero ctx = next ctx
attempt next (suc k) ctx = attempt next k (next ctx).1

retry_loop-attempt :
    (next : Handler) (rounds k : ℕ) (last : EventResult (Unit {0})) (ctx : EventContext)
    → k < rounds
    → ((j : ℕ) → j < k → is_success (attempt next j ctx).0 ≡ false)
    → (is_success (attempt next k ctx).0 ≡ true) ⊎ (suc k ≡ rounds)
    → retry_loop rounds next last ctx ≡ attempt next k ctx
unfolding retry_loop attempt
retry_loop-attempt next zero k last ctx lt fails stop = absurd (omega arith)
retry_loop-attempt next (suc rounds) zero last ctx lt fails (inl done) = rw done refl
retry_loop-attempt next (suc zero) zero last ctx lt fails (inr over) =
    elim (Bool-cases (is_success (next ctx).0)) [ inl s ↦ rw s refl | inr s ↦ rw s refl ]
retry_loop-attempt next (suc (suc rounds)) zero last ctx lt fails (inr over) = absurd (omega arith)
retry_loop-attempt next (suc rounds) (suc k) last ctx lt fails stop = rw (fails 0 (omega arith)) (
    retry_loop-attempt next rounds k (next ctx).0 (next ctx).1 (omega arith)
      (λ j h. fails (suc j) (omega arith))
      (elim stop [ inl done ↦ inl done | inr over ↦ inr (omega arith) ]))

-- Where the attempts before number `k` failed, and that one succeeds or is the last that the
-- limit allows, the middleware has made exactly these attempts: its result and its context are
-- those of attempt `k`.
pub retry-attempt :
    (m : RetryMiddleware) (e : ChainableEvent) (ctx : EventContext) (next : Handler) (k : ℕ)
    → k ≤ m.max_retries
    → ((j : ℕ) → j < k → is_success (attempt next j ctx).0 ≡ false)
    → (is_success (attempt next k ctx).0 ≡ true) ⊎ (k ≡ m.max_retries)
    → (retry m).execute e ctx next ≡ attempt next k ctx
unfolding retry run_retries
retry-attempt m e ctx next k le fails stop =
    retry_loop-attempt next (suc m.max_retries) k (failure (from_static (codes "no attempts made")))
      ctx (omega arith) fails (elim stop [ inl done ↦ inl done | inr over ↦ inr (omega arith) ])
