-- ===== src/Wal.antt =====
-- The write-ahead log of the crate hiqlite-wal.
pub mod Memory
pub mod Platform
pub mod Outcome
pub mod File
pub mod Layout
pub mod Append
pub mod Header
pub mod First
pub mod Logs
pub mod Rounds
pub mod Range
pub mod Set
pub mod RollOver
pub mod Delete
pub mod Cut
pub mod Intact
pub mod Metadata
pub mod Durable
pub mod Shared
pub mod Writer
pub mod Task
pub mod Copies
pub mod Sealed
pub mod Active
pub mod Batch
pub mod Seen
pub mod Turn
pub mod Ahead
pub mod Commit
pub mod Loop
mod Voted
pub mod Served
pub mod Popped
pub mod Purge
pub mod Frontier
pub mod Boundary
pub mod Oversized
pub mod Repair
pub mod Reader
pub mod ReadTask
pub mod LogStore
pub mod Ranges
pub mod Sent
pub mod Serve
mod Tests
mod SetTests
mod WriterTests
mod StoreTests
