-- ===== src/Wal/ReadTask.antt =====
-- The task of the reader in hiqlite-wal/src/reader.rs: its own set of files and its actions.
use hiqlite.Common.{
  ℕ, ◌-◌, Bool, false, Option, none, some, List, [], ◌∷◌, if◌then◌else◌, length, get_elem?, last?,
  ltb,
}
use hiqlite.Wal.Platform.{Platform}
use hiqlite.Wal.Outcome.{Outcome, ok, panic, ◌>>=◌}
use hiqlite.Wal.File.{WalFile, is_some, map_read}
use hiqlite.Wal.Layout.{Entry}
use hiqlite.Wal.Logs.{LogReadMemo, ReadLogs, read_logs}
use hiqlite.Wal.Metadata.{Metadata}
use hiqlite.Wal.Reader.{Message, serve_logs}
use hiqlite.Wal.Set.{WalFileSet, found, active_of, put_active, set_at}
use hiqlite.Wal.Shared.{clone_no_map, refresh}

-- The reader's copy of the files, and where its last read ended.
pub record LogReader : Type 0 where
  pub wal : WalFileSet
  pub memo : Option LogReadMemo

pub record LogState : Type 0 where
  pub last_purged_log_id : Option (List ℕ)
  pub last_log : Option (List ℕ)

unfoldable pub open_reader : WalFileSet → LogReader
open_reader locked = record { wal = clone_no_map locked; memo = none }

-- The last file but one.
abbrev pub before_last : List WalFile → Option WalFile
before_last files = get_elem? files (length files - 2)

-- The id of the last log, by the last file.
abbrev pub id_until_of : Option WalFile → Option ℕ
id_until_of none = none
id_until_of (some w) = some w.id_until

unfoldable pub latest_log_id : List WalFile → Outcome (Option ℕ)
latest_log_id files = found (last? files) >>= λ file.
    if is_some file.data_start
    then ok (some file.id_until)
    else if ltb 1 (length files)
    then ok (id_until_of (before_last files))
    else ok none

-- `buf.swap_remove(0)` panics without an entry.
abbrev pub first_data : List Entry → Outcome (List ℕ)
first_data [] = panic
first_data ((id, d) ∷ rs) = ok d

-- A read that must not fail.
abbrev pub unwrapped : Outcome ReadLogs → Outcome ReadLogs
unwrapped (ok r) = ok r
unwrapped other = panic

abbrev pub Read : Type 0
Read = List Entry × LogReader

module _ (p : Platform) where
  -- `Action::Logs` behind an update of the reader's copy.
  unfoldable pub handle_logs :
      (ℕ → Bool) → ℕ → ℕ → WalFileSet → LogReader → Outcome (List Message × LogReader)
  handle_logs stale from until locked rd = refresh stale locked rd.wal >>= λ wal.
      serve_logs p from until rd.memo wal.files >>= λ r.
      ok (r.sent, record { wal = record wal { files = r.files }; memo = r.memo })

  -- The read of the last log: from the active file, which stays mapped, or from the one before.
  abbrev pub read_active : ℕ → LogReader → WalFile → Outcome Read
  read_active id rd w = unwrapped (read_logs p id id rd.memo (map_read w)) >>= λ r.
      ok (r.logs, record { wal = put_active (map_read w) rd.wal; memo = r.memo })

  abbrev pub read_before : ℕ → LogReader → WalFile → Outcome Read
  read_before id rd w = unwrapped (read_logs p id id rd.memo (map_read w)) >>= λ r. ok (
    r.logs,
    record {
      wal = record rd.wal {
        files = set_at rd.wal.files (length rd.wal.files - 2) (record w { mmap = false });
      };
      memo = r.memo;
    },
  )

  abbrev pub read_last : Option ℕ → LogReader → Outcome (Option (List ℕ) × LogReader)
  read_last none rd = ok (none, rd)
  read_last (some id) rd = active_of rd.wal >>= λ w.
      (if is_some w.data_start
        then read_active id rd w
        else if ltb 1 (length rd.wal.files)
        then found (before_last rd.wal.files) >>= read_before id rd
        else ok ([], rd))
      >>= λ r. first_data r.0 >>= λ d. ok (some d, r.1)

  -- `Action::LogState`, with the metadata that the reader shares with the writer.
  unfoldable pub handle_log_state :
      (ℕ → Bool) → Metadata → WalFileSet → LogReader → Outcome (LogState × LogReader)
  handle_log_state stale m locked rd = refresh stale locked rd.wal >>= λ wal.
      latest_log_id wal.files >>= λ id. read_last id (record rd { wal = wal }) >>= λ r.
      ok (record { last_purged_log_id = m.last_purged_log_id; last_log = r.0 }, r.1)

  -- `Action::Vote`
  abbrev pub handle_read_vote : Metadata → Option (List ℕ)
  handle_read_vote m = m.vote
