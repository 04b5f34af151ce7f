-- ===== src/EventChains/Middleware.antt =====
-- The middleware of kernel/src/event_chains/middleware.rs. The event that each is given is not
-- looked at by any of them.
pub mod Retry
pub mod Permission
use gb_os.Base.{ℕ, zero, suc, ◌%◌, Bool, true, false, Option, none, some}
use gb_os.Base.{ltb, if◌then◌else◌}
use gb_os.EventChains.Context.{EventContext, Key}
use gb_os.EventChains.Context.Typed.{get_u32}
use gb_os.EventChains.Result.{EventResult, failure, from_static, codes, is_success}
use gb_os.EventChains.Chain.{Handler, ChainableEvent, EventMiddleware}

pub record LoggingMiddleware : Type 0 where
  pub log_success : Bool
  pub log_failure : Bool

unfoldable pub logging_new : LoggingMiddleware
logging_new = record { log_success = true; log_failure = true }

unfoldable pub errors_only : LoggingMiddleware
errors_only = record { log_success = false; log_failure = true }

-- Nothing is logged yet: the rest runs, and its result is passed on.
unfoldable pub logging : LoggingMiddleware → EventMiddleware
logging m = record { execute = λ e ctx next. next ctx; name = "LoggingMiddleware" }

unfoldable pub audit : EventMiddleware
audit = record { execute = λ e ctx next. next ctx; name = "AuditMiddleware" }

unfoldable pub timing : EventMiddleware
timing = record { execute = λ e ctx next. next ctx; name = "TimingMiddleware" }

pub record PermissionMiddleware : Type 0 where
  pub required_ring : ℕ

unfoldable pub kernel_only : PermissionMiddleware
kernel_only = record { required_ring = 0 }

unfoldable pub user_allowed : PermissionMiddleware
user_allowed = record { required_ring = 3 }

unfoldable pub permission_new : ℕ → PermissionMiddleware
permission_new ring = record { required_ring = ring }

abbrev pub ring_key : Key
ring_key = codes "ring"

-- `context.get_u32("ring").unwrap_or(0) as u8`
unfoldable pub current_ring : EventContext → ℕ
current_ring ctx = elim (get_u32 ctx ring_key) [ some r ↦ r % 256 | none ↦ 0 ]

unfoldable pub check_permission :
    PermissionMiddleware
    → ChainableEvent
    → EventContext
    → Handler
    → EventResult (Unit {0}) × EventContext
unfolding current_ring
check_permission m e ctx next =
    if ltb m.required_ring (current_ring ctx)
    then (failure (from_static (codes "insufficient privileges")), ctx)
    else next ctx

unfoldable pub permission : PermissionMiddleware → EventMiddleware
unfolding check_permission
permission m = record { execute = check_permission m; name = "PermissionMiddleware" }

pub record RetryMiddleware : Type 0 where
  pub max_retries : ℕ

unfoldable pub retry_new : ℕ → RetryMiddleware
retry_new n = record { max_retries = n }

unfoldable pub default_retries : RetryMiddleware
default_retries = record { max_retries = 3 }

-- The loop over `0..=max_retries`, with its rounds left.
unfoldable pub retry_loop :
    ℕ → Handler → EventResult (Unit {0}) → EventContext → EventResult (Unit {0}) × EventContext
retry_loop zero next last_result ctx = (last_result, ctx)
retry_loop (suc rounds) next last_result ctx =
    let (result, ctx') = next ctx in
    let rest = retry_loop rounds next result ctx' in
    if is_success result then (result, ctx') else rest

unfoldable pub run_retries :
    RetryMiddleware
    → ChainableEvent
    → EventContext
    → Handler
    → EventResult (Unit {0}) × EventContext
unfolding retry_loop
run_retries m e ctx next =
    retry_loop (suc m.max_retries) next (failure (from_static (codes "no attempts made"))) ctx

unfoldable pub retry : RetryMiddleware → EventMiddleware
unfolding run_retries
retry m = record { execute = run_retries m; name = "RetryMiddleware" }
