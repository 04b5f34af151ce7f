-- ===== src/EventChains/Context/Typed.antt =====
-- The typed accessors of the store, kernel/src/event_chains/context.rs.
use gb_os.Base.{ℕ, Bool, Option, none, some}
use gb_os.EventChains.Value.{ContextValue}
use gb_os.EventChains.Context.{EventContext, Key, get_value, set_value}

unfoldable pub set_bool : EventContext → Key → Bool → EventContext
set_bool c key value = set_value c key (ContextValue.bool value)

as_bool : ContextValue → Option Bool
as_bool (ContextValue.bool v) = some v
as_bool other = none

unfoldable pub get_bool : EventContext → Key → Option Bool
unfolding as_bool
get_bool c key = elim (get_value c key) [ none ↦ none | some value ↦ as_bool value ]

unfoldable pub set_u32 : EventContext → Key → ℕ → EventContext
set_u32 c key value = set_value c key (ContextValue.u32 value)

as_u32 : ContextValue → Option ℕ
as_u32 (ContextValue.u32 v) = some v
as_u32 other = none

unfoldable pub get_u32 : EventContext → Key → Option ℕ
unfolding as_u32
get_u32 c key = elim (get_value c key) [ none ↦ none | some value ↦ as_u32 value ]

unfoldable pub set_u64 : EventContext → Key → ℕ → EventContext
set_u64 c key value = set_value c key (ContextValue.u64 value)

as_u64 : ContextValue → Option ℕ
as_u64 (ContextValue.u64 v) = some v
as_u64 other = none

unfoldable pub get_u64 : EventContext → Key → Option ℕ
unfolding as_u64
get_u64 c key = elim (get_value c key) [ none ↦ none | some value ↦ as_u64 value ]

unfoldable pub set_usize : EventContext → Key → ℕ → EventContext
set_usize c key value = set_value c key (ContextValue.usize value)

as_usize : ContextValue → Option ℕ
as_usize (ContextValue.usize v) = some v
as_usize other = none

unfoldable pub get_usize : EventContext → Key → Option ℕ
unfolding as_usize
get_usize c key = elim (get_value c key) [ none ↦ none | some value ↦ as_usize value ]

unfoldable pub set_ptr : EventContext → Key → ℕ → EventContext
set_ptr c key value = set_value c key (ContextValue.ptr value)

as_ptr : ContextValue → Option ℕ
as_ptr (ContextValue.ptr v) = some v
as_ptr other = none

unfoldable pub get_ptr : EventContext → Key → Option ℕ
unfolding as_ptr
get_ptr c key = elim (get_value c key) [ none ↦ none | some value ↦ as_ptr value ]

unfoldable pub set_mut_ptr : EventContext → Key → ℕ → EventContext
set_mut_ptr c key value = set_value c key (ContextValue.mut_ptr value)

as_mut_ptr : ContextValue → Option ℕ
as_mut_ptr (ContextValue.mut_ptr v) = some v
as_mut_ptr other = none

unfoldable pub get_mut_ptr : EventContext → Key → Option ℕ
unfolding as_mut_ptr
get_mut_ptr c key = elim (get_value c key) [ none ↦ none | some value ↦ as_mut_ptr value ]
