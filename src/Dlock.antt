-- ===== src/Dlock.antt =====
-- Distributed locks: hiqlite/src/store/state_machine/memory/dlock_handler.rs.
--
-- The handler task owns two hash maps, `locks` and `waiters`, and answers over one-shot channels.
-- A channel is a number here, and a step returns the answers that it sends beside the new maps.
-- Every `Utc::now()` of the code is an argument of its own, since two readings can differ.
pub mod State
pub mod Handlers
pub mod Frame
pub mod Waiting
pub mod Line
pub mod Holder
pub mod Granted
pub mod Answers
pub mod Balance
pub mod Sweep
mod Tests
