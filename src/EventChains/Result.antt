-- ===== src/EventChains/Result.antt =====
-- The results of events and of chains, kernel/src/event_chains/result.rs. A message is its bytes,
-- cut at 128; `as_str`, which checks their encoding, is not modelled.
use Prim.Native.Char.{code}
use Prim.Native.String.{String}
use gb_os.Base.{ℕ, ◌+◌, ◌-◌, Bool, true, false, Option, none, some, List, [], ◌∷◌, ◌++◌, min}
use gb_os.Base.{ltb, if◌then◌else◌, length, take, set, replicate}

-- The bytes of a text of ASCII characters.
abbrev pub codes : String → List ℕ
codes String.[] = []
codes (String.◌∷◌ c s) = code c ∷ codes s

abbrev pub max_error_len : ℕ
max_error_len = 128

pub record ErrorMessage : Type 0 where
  pub bytes : List ℕ
  pub len : ℕ

unfoldable pub from_str : List ℕ → ErrorMessage
from_str s =
    let len = min (length s) max_error_len in
    record { bytes = take len s ++ replicate (max_error_len - len) 0; len = len }

unfoldable pub from_static : List ℕ → ErrorMessage
from_static s =
    let len = if ltb max_error_len (length s) then max_error_len else length s in
    record { bytes = take len s ++ replicate (max_error_len - len) 0; len = len }

pub data EventResult {ℓ} (A : Type ℓ) : Type ℓ where
  success : A → EventResult A
  failure : ErrorMessage → EventResult A
  middleware_failure : ErrorMessage → EventResult A

module _ {ℓ} {A : Type ℓ} where
  unfoldable pub is_success : EventResult A → Bool
  is_success (success v) = true
  is_success (failure m) = false
  is_success (middleware_failure m) = false

  unfoldable pub is_failure : EventResult A → Bool
  is_failure (success v) = false
  is_failure (failure m) = true
  is_failure (middleware_failure m) = true

  unfoldable pub is_event_failure : EventResult A → Bool
  is_event_failure (success v) = false
  is_event_failure (failure m) = true
  is_event_failure (middleware_failure m) = false

  unfoldable pub is_middleware_failure : EventResult A → Bool
  is_middleware_failure (success v) = false
  is_middleware_failure (failure m) = false
  is_middleware_failure (middleware_failure m) = true

  unfoldable pub error_message : EventResult A → Option ErrorMessage
  error_message (success v) = none
  error_message (failure m) = some m
  error_message (middleware_failure m) = some m

  unfoldable pub unwrap_or : EventResult A → A → A
  unwrap_or (success v) d = v
  unwrap_or (failure m) d = d
  unwrap_or (middleware_failure m) d = d

unfoldable pub map {ℓ κ} : {A : Type ℓ} {B : Type κ} → (A → B) → EventResult A → EventResult B
map f (success v) = success (f v)
map f (failure m) = failure m
map f (middleware_failure m) = middleware_failure m

pub data ChainStatus : Type 0 where
  completed : ChainStatus
  completed_with_warnings : ChainStatus
  failed : ChainStatus

abbrev pub max_failures : ℕ
max_failures = 16

pub record EventFailure : Type 0 where
  pub event_name : String
  pub error : ErrorMessage
  pub is_middleware_failure : Bool

pub record ChainResult : Type 0 where
  pub is_success : Bool
  pub status : ChainStatus
  pub failures : List (Option EventFailure)
  pub failure_count : ℕ

abbrev no_failures : List (Option EventFailure)
no_failures = replicate max_failures none

abbrev pub chain_success : ChainResult
chain_success = record {
  is_success = true;
  status = ChainStatus.completed;
  failures = no_failures;
  failure_count = 0;
}

abbrev pub partial_success : ChainResult
partial_success = record chain_success { status = ChainStatus.completed_with_warnings }

abbrev pub chain_failed : ChainResult
chain_failed = record chain_success { is_success = false; status = ChainStatus.failed }

unfoldable pub add_failure : ChainResult → EventFailure → ChainResult
add_failure r f =
    if ltb r.failure_count max_failures
    then record r {
      failures = set r.failures r.failure_count (some f);
      failure_count = r.failure_count + 1;
    }
    else r

-- The failures that a caller sees, in order.
unfoldable pub some_of : List (Option EventFailure) → List EventFailure
some_of [] = []
some_of (none ∷ fs) = some_of fs
some_of (some f ∷ fs) = f ∷ some_of fs

unfoldable pub failures_of : ChainResult → List EventFailure
unfolding some_of
failures_of r = some_of (take r.failure_count r.failures)
