-- ===== src/EventChains.antt =====
-- Event chains, kernel/src/event_chains/: fallible events behind middleware, with a store of
-- values that passes through them.
pub mod Value
pub mod Context
pub mod Result
pub mod Chain
pub mod Middleware
mod Tests
