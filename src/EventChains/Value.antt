-- ===== src/EventChains/Value.antt =====
-- The values of a context, `ContextValue` of kernel/src/event_chains/context.rs.
use gb_os.Base.{ℕ, Bool}

-- A signed number stands as its bit pattern, a pointer as its address.
pub data ContextValue : Type 0 where
  none : ContextValue
  bool : Bool → ContextValue
  u8 : ℕ → ContextValue
  u16 : ℕ → ContextValue
  u32 : ℕ → ContextValue
  u64 : ℕ → ContextValue
  i8 : ℕ → ContextValue
  i16 : ℕ → ContextValue
  i32 : ℕ → ContextValue
  i64 : ℕ → ContextValue
  usize : ℕ → ContextValue
  isize : ℕ → ContextValue
  ptr : ℕ → ContextValue
  mut_ptr : ℕ → ContextValue
