-- ===== src/External.antt =====
-- The state machine for callers with their own consensus: hiqlite/src/external_state_machine.rs.
--
-- Data has the types, Tables the two tables that the engine keeps beside the application's, Statements
-- the statements on them, Check the validation of what is stored, Apply the two ways to commit an
-- entry, Reconcile what follows them, Snapshot the evidence of a snapshot, Writer the thread that
-- owns the connection, and Open the start. The other modules hold the proofs.
mod Data
mod Tables
mod Statements
mod Check
mod Apply
mod Reconcile
mod Rows
mod Tests
mod Reload
mod Consistent
mod Recorded
mod Transact
mod Step
mod Advanced
mod Snapshot
mod Writer
mod Open
mod Invariant
mod Change
mod Running
mod Handled
mod Recovery
mod Replay
mod Moves
mod Retry
mod Held
mod Answers
mod Restored
mod Installed
