-- ===== src/External/Writer.antt =====
-- The thread of external_state_machine.rs that owns the connection: `spawn_external_writer`.
--
-- A request carries how its calls of SQLite and of the file system end. A marker that cannot be
-- written is left as it was. The readers of the one-shot
-- channels are taken to be there, or their absence is not noticed.
use hiqlite.Common.{String, Bool, true, Option, none, some, List, [], ◌∷◌, ◌++◌, if◌then◌else◌}
use hiqlite.External.Data.{
  Application, ExternalError, snapshot_mismatch, sqlite, io, writer_poisoned, Result, Fallible, ok,
  err, ◌>>=◌, ◌>>◌, guard, ApplyOutcome, ApplyError, Commit, StoredState, Marker, dirty_poisoned,
}
use hiqlite.External.Tables.{Database, Faults, load_state}
use hiqlite.External.Check.{validate_receipts}
use hiqlite.External.Apply.{Connection, Ended}
use hiqlite.External.Reconcile.{apply_committed, advance_committed}
use hiqlite.External.Snapshot.{
  Evidence, SnapshotFile, evidence_of, same_evidence, persist_snapshot_id,
  validate_snapshot_compatibility, reject_stale_snapshot, validate_snapshot_file,
}

-- How the calls of a restore end; the database that a failed one leaves is any.
pub record RestoreCalls (a : Application) : Type 0 where
  pub mark : Bool
  pub restored : Fallible (Unit {0})
  pub left : Database a
  pub read : Bool
  pub unmark : Bool

pub data Request (a : Application) : Type 0 where
  apply : Faults → Commit a → a.Operation → Request a
  advance_over : Faults → Commit a → Request a
  state : Request a
  -- with the results of the UPDATE and of the backup
  snapshot : String → Fallible (Unit {0}) → Fallible (Unit {0}) → Request a
  restore : SnapshotFile a → Evidence a → RestoreCalls a → Request a
  shutdown : Request a

pub data Reply (a : Application) : Type 0 where
  apply_reply : Result (ApplyError a.Failure) (ApplyOutcome a.Output) → Reply a
  advance_reply : Fallible (ApplyOutcome (Unit {0})) → Reply a
  state_reply : StoredState a → Reply a
  snapshot_reply : Fallible (StoredState a) → Reply a
  restore_reply : Fallible (Evidence a) → Reply a

pub record Writer (a : Application) : Type 0 where
  pub connection : Connection a
  pub stored : StoredState a
  pub dirty : Option Marker
  pub active_marker : Marker
  pub poisoned : Option ExternalError
  -- the loop has been left
  pub stopped : Bool

module _ {a : Application} where
  abbrev pub ended :
      {R : Type 0} → Faults → (R → Reply a) → Writer a → Ended a R → Writer a × Reply a
  ended f wrap w (conn, s, reply, none) = (record w { connection = conn; stored = s }, wrap reply)
  ended f wrap w (conn, s, reply, some e) = (
    record w {
      connection = conn;
      stored = s;
      dirty = if f.mark then w.dirty else some dirty_poisoned;
      poisoned = some e;
      stopped = true;
    },
    wrap reply,
  )

  abbrev pub published : Writer a → Fallible (Unit {0}) → Writer a × Reply a
  published w (ok _) = (w, snapshot_reply (ok w.stored))
  published w (err e) = (w, snapshot_reply (err e))

  unfoldable pub take_snapshot :
      String → Fallible (Unit {0}) → Fallible (Unit {0}) → Writer a → Writer a × Reply a
  take_snapshot id (err e) backup w = (w, snapshot_reply (err e))
  take_snapshot id (ok _) backup w =
      let conn = w.connection in
      published
        (record w {
          connection = record conn { database = persist_snapshot_id id conn.database };
          stored = record w.stored { snapshot_id = some id };
        })
        backup

  unfoldable pub preflight : StoredState a → SnapshotFile a → Evidence a → Fallible (Unit {0})
  preflight s file e = do
    validate_snapshot_compatibility s e
    reject_stale_snapshot s.last_applied e.checkpoint
    validate_snapshot_file file e

  -- What is checked of the database that the restore has left.
  unfoldable pub check_restored :
      RestoreCalls a → Evidence a → Database a → Fallible (StoredState a)
  check_restored calls e db = do
    calls.restored
    guard calls.read sqlite
    restored ← load_state a db
    validate_receipts a db restored
    guard (same_evidence (evidence_of restored e) e)
        (snapshot_mismatch "restored metadata differs from supplied evidence")
    guard calls.unmark io
    ok restored

  abbrev pub restore_checked : Writer a → Evidence a → Fallible (StoredState a) → Writer a × Reply a
  restore_checked w e (ok restored) = (
    record w { stored = restored; dirty = some w.active_marker },
    restore_reply (ok (evidence_of restored e)),
  )
  restore_checked w e (err x) = (
    record w { poisoned = some (writer_poisoned x); stopped = true },
    restore_reply (err (writer_poisoned x)),
  )

  -- The database behind `restore_snapshot`.
  abbrev pub database_behind :
      RestoreCalls a → Option (Database a) → Fallible (Unit {0}) → Database a
  database_behind calls (some db) (ok _) = db
  database_behind calls none (ok _) = calls.left
  database_behind calls db (err _) = calls.left

  abbrev pub restore_behind :
      Writer a
      → SnapshotFile a
      → Evidence a
      → RestoreCalls a
      → Fallible (Unit {0})
      → Writer a × Reply a
  restore_behind w file e calls (err x) = (w, restore_reply (err x))
  restore_behind w file e calls (ok _) =
      let conn = w.connection in
      let db = database_behind calls file.database calls.restored in
      let marked = record w {
        connection = record conn { database = db };
        dirty = some dirty_poisoned;
      } in
      if calls.mark
      then restore_checked marked e (check_restored calls e db)
      else (w, restore_reply (err io))

  unfoldable pub handle_restore :
      Writer a → SnapshotFile a → Evidence a → RestoreCalls a → Writer a × Reply a
  handle_restore w file e calls = restore_behind w file e calls (preflight w.stored file e)

  -- One request of the loop.
  unfoldable pub handle : Writer a → Request a → Writer a × List (Reply a)
  handle w (apply f commit op) =
      let (w', reply) = ended f apply_reply w (apply_committed f w.connection w.stored commit op) in
      (w', reply ∷ [])
  handle w (advance_over f commit) =
      let (w', reply) =
        ended f advance_reply w (advance_committed f w.connection w.stored commit) in
      (w', reply ∷ [])
  handle w state = (w, state_reply w.stored ∷ [])
  handle w (snapshot id updated backup) =
      let (w', reply) = take_snapshot id updated backup w in (w', reply ∷ [])
  handle w (restore file e calls) =
      let (w', reply) = handle_restore w file e calls in (w', reply ∷ [])
  handle w shutdown = (record w { stopped = true }, [])

  -- The loop, which leaves the requests behind its end unanswered.
  unfoldable pub run : Writer a → List (Request a) → Writer a × List (Reply a)
  run w [] = (w, [])
  run w (r ∷ rs) =
      let (w', sent) = handle w r in
      let (w'', others) = run w' rs in if w.stopped then (w, []) else (w'', sent ++ others)

-- The calls behind the loop: the last checkpoint, the close and the sync of the file, and the removal
-- of the marker.
pub record ExitCalls : Type 0 where
  pub finalize : Fallible (Unit {0})
  pub close : Fallible (Unit {0})
  pub sync : Fallible (Unit {0})
  pub unmark : Fallible (Unit {0})

abbrev pub exit_result : Option ExternalError → ExitCalls → Fallible (Unit {0})
exit_result (some e) calls = err e
exit_result none calls = do calls.finalize; calls.close; calls.sync; calls.unmark

abbrev pub unmarked :
    {a : Application} → Writer a → Fallible (Unit {0}) → Writer a × Fallible (Unit {0})
unmarked w (ok _) = (record w { dirty = none }, ok tt)
unmarked w (err e) = (w, err e)

unfoldable pub exit : {a : Application} → ExitCalls → Writer a → Writer a × Fallible (Unit {0})
exit calls w = unmarked w (exit_result w.poisoned calls)
