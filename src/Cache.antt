-- ===== src/Cache.antt =====
-- One cache of the cache state machine: hiqlite/src/store/state_machine/memory/kv_handler.rs.
--
-- The handler task owns the values, the counters and an index of the expiries, and answers over
-- one-shot channels. A channel is a number, and a step returns its answers beside the new state. Time
-- is in microseconds since the epoch, and each `Utc::now()` is an argument.
pub mod State
pub mod Handlers
pub mod Index
pub mod Mirror
pub mod Expiry
pub mod History
mod Tests
