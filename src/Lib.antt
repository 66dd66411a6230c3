-- ===== src/Lib.antt =====
-- A verification library for hiqlite, a SQLite database and cache replicated by Raft.
--
-- The parts of the program, and the files that model them:
--
-- * The write-ahead log, the crate hiqlite-wal. The writer of the Raft log appends records to the
--   active `WalFile` of a `WalFileSet` (hiqlite-wal/src/wal.rs) and rolls over to a new file where
--   `has_space` says no; the reader reads ranges of ids with a memo of its last position. Wal.File
--   has the record `WalFile` and its operations (`append_log`, `read_record_unchecked` as
--   `read_record`, `build_header`, `update_header`), Wal.Header `read_from_file`, Wal.Logs
--   `read_logs`, Wal.Repair `check_repair_data_integrity`, Wal.Set the `WalFileSet` with its roll-over
--   and the check of its headers, Wal.Delete `shift_delete_logs`, Wal.Shared the copies of a set that
--   the writer and the readers share, and Wal.Reader the reader's answer to a range
--   (hiqlite-wal/src/reader.rs). Wal.Memory is the byte image that both mappings of a file show, and
--   Wal.Outcome a call's result with the errors of hiqlite-wal/src/error.rs.
-- * The tasks of that log. Wal.Writer has the writer's state, its batch of entries and
--   `Action::Append`, Wal.Task its other actions, its start, its loop and its end
--   (hiqlite-wal/src/writer.rs); Wal.Metadata the file of the vote and the purge frontier
--   (hiqlite-wal/src/metadata.rs); Wal.ReadTask the reader's actions; and Wal.LogStore the log
--   store that openraft calls (hiqlite-wal/src/log_store_impl.rs). The writer tells the readers of
--   its files by the copy that both lock, which each reader takes over before it reads.
-- * The proofs on the log are in Wal.Layout, Wal.Append, Wal.First, Wal.Rounds, Wal.Range, Wal.Sent,
--   Wal.Serve, Wal.RollOver, Wal.Cut and Wal.Intact for a file and a set, in Wal.Copies, Wal.Sealed,
--   Wal.Active, Wal.Batch, Wal.Seen, Wal.Turn, Wal.Ahead, Wal.Commit, Wal.Popped, Wal.Purge,
--   Wal.Frontier, Wal.Loop, Wal.Served and Wal.Ranges for the tasks and the store, in Wal.Durable and
--   Wal.Voted for the metadata, and in Wal.Boundary and Wal.Oversized for what goes wrong.
-- * The in-memory Raft log of the cache, hiqlite/src/store/logs/memory.rs: LogMemory, with its
--   proofs in LogMemory.Entries and LogMemory.Contract.
-- * The key-value handler of the cache, hiqlite/src/store/state_machine/memory/kv_handler.rs.
--   Cache.State has the values and the index of their expiries, Cache.Handlers the requests, the head
--   of the loop and the loop; Cache.Index, Cache.Mirror, Cache.Expiry and Cache.History hold the proofs.
-- * The state machine of the cache, hiqlite/src/store/state_machine/memory/state_machine.rs.
--   CacheMachine applies each log entry by a request to the handler of a cache or of the locks, and
--   builds and installs the content of a snapshot; CacheMachine.Told, CacheMachine.Routed,
--   CacheMachine.Logged and CacheMachine.Installed hold the proofs. The serialization of a snapshot
--   is the record CacheMachine.Serde, which may fail; CacheMachine.Tests has an instance.
-- * Distributed locks, hiqlite/src/store/state_machine/memory/dlock_handler.rs. The cache's state
--   machine sends each applied lock request to one handler task. Dlock.State has the tables and the
--   promotion, Dlock.Handlers a function for each handler, the sweep and the loop; the other files
--   under Dlock hold the proofs.
-- * The client's rate limit, hiqlite/src/client/rate_limit.rs: RateLimit has the token bucket, the
--   channel of waiting requests, and `run_ticker` as a step for each second.
-- * The state machine for callers with a consensus of their own,
--   hiqlite/src/external_state_machine.rs. External.Data has its types and what a caller brings,
--   External.Tables the metadata row and the receipts, External.Statements the statements on
--   them, External.Check the validation, External.Apply the transaction of a commit,
--   External.Reconcile `apply_committed` and `advance_committed`, External.Snapshot and
--   External.Writer the evidence, the restore and the loop of the thread that owns the
--   connection, and External.Open the open of a directory; the other files under External hold
--   the proofs.
-- * Common has the libraries' names, lists over the native numbers, and dictionaries. A hash map is
--   an association list, and its iteration order is the list's.
--
-- Time is an argument: each `Utc::now()` of a handler is a parameter of its own. The lease has the
-- ten seconds of a release build. Debug assertions are not modelled, and unsigned arithmetic wraps
-- as in a release build; `u32` is reduced where the code computes on it. A WAL file's ids are `u64`
-- and are bounded where that matters.
--
-- The big-endian coding of the crate byteorder and the checksum of the crate crc are the record
-- Wal.Platform, with the laws that the code relies on; Wal.Tests has an instance of it.
--
-- `read_logs` is a loop; its model has as much fuel as the file has bytes and one more. A round goes
-- on at least seventeen bytes further, so this is enough. The loops of the repair have the same fuel.
--
-- A `BTreeMap` of the cache's values is a dictionary; that of the expiries is a list in the order of
-- its keys. Times of the cache are counted from the smallest `i64`, as its counters are; the
-- clock is taken to show 1970 or later.
--
-- `Metadata::write` is a list of calls of the file system, so that a power loss can fall between any
-- two of them. A file has its synced bytes and those that only the system has: a power loss may put
-- any bytes in the place of the latter, and may undo a rename until the directory is synced. The
-- binary code of the metadata and its checksum are the record Wal.Metadata.Codec; an instance of it
-- is in Wal.WriterTests. The writer has in `writes` which of its coming writes of the metadata fail.
--
-- A reader's mapping of a file shows the bytes that the file had when the reader took the writer's
-- copy over: what the writer stores later lies outside the range that the copy names. The parameter
-- `stale` of Wal.Shared says of which numbers a file was removed and created anew since it was mapped.
--
-- The database of External is what SQLite has committed, and an open transaction is a second one
-- that a rollback drops. Which calls of SQLite and of the file system fail is an input of each
-- request; a COMMIT may report an error though it took effect. A crash of the process loses
-- nothing that is committed; External.Recovery.MayLose says what a power loss may take, by the
-- durability. A column of eight bytes is its number. The caller's operation, its codes and the
-- digest are the record External.Data.Application, with its documented laws in
-- External.Data.Lawful; External.Tests has an instance of both.
--
-- Not modelled: flushes, and the opening and the removal of files as such, which are taken to
-- succeed; the reading of a set from its directory; the log store's state and its vote; the files
-- of the cache's snapshots; notifications beyond their queue; the SQLite state machine, and the
-- authorizer and the pool of readers of the external one; the network, the client but for its
-- rate limit, backups and the dashboard, which are input and output around third-party crates.
pub mod Common
pub mod Wal
pub mod LogMemory
pub mod Cache
pub mod Dlock
pub mod RateLimit
pub mod External
pub mod CacheMachine
