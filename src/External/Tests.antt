-- ===== src/External/Tests.antt =====
-- A small application for external_state_machine.rs, and its runs.
use hiqlite.Common.{
  ℕ, ◌+◌, ◌≤◌, ◌≡◌, refl, sym, ap, subst, inl, inr, true, false, Option, none, some, List, [], ◌∷◌,
  length, arith, ◌==◌, if◌then◌else◌, replicate, All,
}
use hiqlite.External.Data.{
  Application, Lawful, ok, StoredState, Commit, dirty_full, dirty_normal, recovered, has_widths,
  same_commit, as_i64, from_i64, checked_next,
}
use hiqlite.External.Tables.{
  Database, Faults, committed, took_effect, load_state, load_row, load_columns, decode_u64,
  load_applied, decode_digest, read_row,
}
use hiqlite.External.Statements.{
  persist_new_commit, floor_at, select, insert_row, delete_below, load_receipt,
}
use hiqlite.External.Check.{
  Options, validate_configuration, validate_receipts, check_suffix, check_sequences, check_newest,
  check_receipt,
}
use hiqlite.Wal.Header.{bytes_eq}
use hiqlite.External.Snapshot.{Evidence, SnapshotFile, snapshot_evidence, reject_stale_snapshot}
use hiqlite.External.Restored.{handle_restore-next_sequence}
use hiqlite.External.Installed.{file_of, all_succeed, handle_restore-take_snapshot}
use hiqlite.External.Answers.{handle-applied, handle-failed}
use hiqlite.External.Retry.{run-retry}
use hiqlite.External.Consistent.{next_sequence}
use hiqlite.External.Apply.{
  apply_operation, apply_advance, classify_commit, classify_retry, classify_next, transact,
  update_state_after_commit,
}
use hiqlite.External.Reconcile.{apply_committed, advance_committed, reconcile_after_apply, reload}
use hiqlite.External.Open.{Disk, OpenCalls, create_metadata_tables, load_validated, open_inner}
use hiqlite.External.Writer.{
  Writer, Request, apply, advance_over, apply_reply, restore_reply, take_snapshot, handle_restore,
  handle, run,
}
use hiqlite.External.Running.{IsSound, is_typed}
use hiqlite.External.Replay.{IsReplay, run-IsReplay}
use hiqlite.External.Moves.{awaited, accepted, is_restore}
use hiqlite.External.Recovery.{spawn, run-IsSound, open_inner-IsSound}

abbrev only : List ℕ → Option ℕ
only [] = none
only (x ∷ xs) = some x

-- A counter: 0 fails behind a change, any other number is added and the sum returned.
abbrev counter : Application
counter = record {
  Tables = ℕ;
  Operation = ℕ;
  Output = ℕ;
  Failure = Unit {0};
  Coordinate = ℕ;
  same_coordinate = λ x y. x == y;
  perform = λ n t. if n == 0 then (t + 100, inl tt) else (t + n, inr (t + n));
  receipt_codec = "counter-v1";
  encode_receipt = λ x. some (x ∷ []);
  decode_receipt = only;
  serialize = λ x. some (x ∷ []);
  deserialize_exact = only;
  serialize_unit = some [];
  sha256 = λ bytes. replicate 32 0;
}

counter-Lawful : Lawful counter
counter-Lawful = record {
  same_coordinate_refl = λ c. ground arith;
  decode_receipt-encode_receipt = λ x bytes e. subst (λ o. decoded o ≡ some x) e refl;
  deserialize_exact-serialize = λ x bytes e. subst (λ o. decoded o ≡ some x) e refl;
  serialize_unit-empty = λ bytes e. sym (ap (λ o. measured o) e);
  length-sha256 = λ bytes. refl;
}
  where
    decoded : Option (List ℕ) → Option ℕ
    decoded none = none
    decoded (some bytes) = only bytes

    measured : Option (List ℕ) → ℕ
    measured none = 0
    measured (some bytes) = length bytes

abbrev options : Options
options = record {
  application_id = "app";
  initial_sequence = 1;
  initial_state_schema = 1;
  receipt_retention = 2;
  max_receipt_bytes = 16;
}

abbrev fine : Faults
fine = record {
  read = false;
  begin = false;
  authorize = false;
  unauthorize = false;
  insert = false;
  update = false;
  delete = false;
  commit = committed;
  drop = false;
  rollback = false;
  reload = false;
  mark = false;
}

-- The COMMIT takes effect and reports an error.
abbrev ambiguous : Faults
ambiguous = record fine { commit = took_effect }

abbrev calls : OpenCalls counter
calls = record { is_locked = false; quick_check = true; fresh = 5 }

abbrev empty : Disk counter
empty = record { dirty = none; file = none }

abbrev commit : ℕ → Commit counter
commit n = record {
  sequence = n;
  coordinate = n + 70;
  command_digest = replicate 32 7;
  state_schema = 1;
  receipt_schema = 1;
}

abbrev first_database : Database counter
first_database = create_metadata_tables options "counter-v1" 5

abbrev first_state : StoredState counter
first_state = record {
  application_id = "app";
  initial_sequence = 1;
  initial_state_schema = 1;
  receipt_codec = "counter-v1";
  receipt_retention = 2;
  max_receipt_bytes = 16;
  last_applied = none;
  receipt_floor = none;
  snapshot_id = none;
}

abbrev first_disk : Disk counter
first_disk = record { dirty = some dirty_full; file = some first_database }

abbrev writer : Writer counter
writer = spawn first_disk first_database first_state dirty_full

open_empty : open_inner calls options dirty_full false false empty ≡ (first_disk, ok first_state)
unfolding open_inner create_metadata_tables load_validated load_state load_row load_columns
    decode_u64 validate_configuration validate_receipts
open_empty = refl

writer-IsSound : IsSound options writer
unfolding open_inner create_metadata_tables load_validated load_state load_row load_columns
    decode_u64 validate_configuration validate_receipts
writer-IsSound =
    open_inner-IsSound options calls dirty_full false false empty first_state first_database refl
      refl

-- A commit whose reply is lost, its retry, an entry for others, and a failure.
abbrev requests : List (Request counter)
requests =
    apply ambiguous (commit 1) 3
    ∷ apply fine (commit 1) 3
    ∷ advance_over fine (commit 2)
    ∷ apply fine (commit 3) 0
    ∷ []

requests_typed : All (λ r. (is_typed r ≡ true) × (is_restore r ≡ false)) requests
unfolding has_widths
requests_typed = ((refl, refl), ((refl, refl), ((refl, refl), ((refl, refl), tt))))

run-IsReplay_example :
    IsReplay (accepted writer requests) first_database (run writer requests).0.connection.database
run-IsReplay_example =
    run-IsReplay counter-Lawful options writer requests writer-IsSound requests_typed

handle-applied_example :
    let db' = (handle writer (apply fine (commit 1) 3)).0.connection.database in
    (1 ≡ awaited first_database) × (counter.perform 3 5 ≡ (db'.tables, inr 8)) × (awaited db' ≡ 2)
unfolding handle apply_committed apply_operation apply_advance advance_committed classify_commit
    classify_retry classify_next checked_next transact persist_new_commit floor_at select insert_row
    delete_below update_state_after_commit reconcile_after_apply reload load_state load_row
    load_columns load_applied decode_u64 decode_digest as_i64 from_i64 validate_receipts
    check_suffix check_sequences check_newest check_receipt load_receipt read_row same_commit
    bytes_eq create_metadata_tables has_widths awaited next_sequence run
handle-applied_example =
    handle-applied counter-Lawful options writer fine (commit 1) 3 8 writer-IsSound refl refl refl
      refl

handle-failed_example :
    (handle writer (apply fine (commit 1) 0)).0.connection.database ≡ first_database
unfolding has_widths
handle-failed_example =
    handle-failed counter-Lawful options writer fine (commit 1) 0 tt writer-IsSound refl refl refl

abbrev retried : Writer counter
retried =
    (run (handle writer (apply ambiguous (commit 1) 3)).0 (advance_over fine (commit 2) ∷ [])).0

run-retry_example :
    (out : ℕ) × ((counter.perform 3 5).1 ≡ inr out)
    × (handle retried (apply fine (commit 1) 4) ≡ (retried, apply_reply (ok (recovered out)) ∷ []))
unfolding handle apply_committed apply_operation apply_advance advance_committed classify_commit
    classify_retry classify_next checked_next transact persist_new_commit floor_at select insert_row
    delete_below update_state_after_commit reconcile_after_apply reload load_state load_row
    load_columns load_applied decode_u64 decode_digest as_i64 from_i64 validate_receipts
    check_suffix check_sequences check_newest check_receipt load_receipt read_row same_commit
    bytes_eq create_metadata_tables has_widths awaited next_sequence run
run-retry_example =
    run-retry counter-Lawful options writer ambiguous fine (commit 1) 3 4
      (advance_over fine (commit 2) ∷ []) writer-IsSound refl refl (omega arith) ((refl, refl), tt)
      (omega arith) refl refl

-- A writer with `NORMAL`, and a power loss that takes the commits of its last two requests.
abbrev kept : List (Request counter)
kept = apply ambiguous (commit 1) 3 ∷ apply fine (commit 1) 3 ∷ []

abbrev lost : List (Request counter)
lost = advance_over fine (commit 2) ∷ apply fine (commit 3) 0 ∷ []

abbrev first_normal : Writer counter
first_normal =
    spawn (record { dirty = some dirty_normal; file = some first_database }) first_database
      first_state dirty_normal

abbrev source : Writer counter
source = (run writer requests).0

source-IsSound : IsSound options source
unfolding has_widths
source-IsSound =
    run-IsSound options counter-Lawful writer requests writer-IsSound
      (refl, (refl, (refl, (refl, tt))))

abbrev taken : Writer counter
taken = (take_snapshot "s1" (ok tt) (ok tt) source).0

abbrev evidence : Evidence counter
evidence = snapshot_evidence taken.stored "s1" 4096 8192 (replicate 32 9)

abbrev file : SnapshotFile counter
file = file_of taken.connection.database 4096 8192 (replicate 32 9)

handle_restore-take_snapshot_example :
    handle_restore writer file evidence (all_succeed first_database) ≡ (
      record writer {
        connection = record { database = taken.connection.database; transaction = none };
        stored = taken.stored;
        dirty = some dirty_full;
      },
      restore_reply (ok evidence),
    )
unfolding handle apply_committed apply_operation apply_advance advance_committed classify_commit
    classify_retry classify_next checked_next transact persist_new_commit floor_at select insert_row
    delete_below update_state_after_commit reconcile_after_apply reload load_state load_row
    load_columns load_applied decode_u64 decode_digest as_i64 from_i64 validate_receipts
    check_suffix check_sequences check_newest check_receipt load_receipt read_row same_commit
    bytes_eq create_metadata_tables has_widths awaited next_sequence run reject_stale_snapshot
handle_restore-take_snapshot_example =
    handle_restore-take_snapshot counter-Lawful options source writer "s1" 4096 8192
      (replicate 32 9) first_database source-IsSound refl writer-IsSound refl refl

handle_restore-next_sequence_example :
    next_sequence writer.stored
    ≤ next_sequence (handle_restore writer file evidence (all_succeed first_database)).0.stored
handle_restore-next_sequence_example =
    handle_restore-next_sequence options writer file evidence (all_succeed first_database)
      writer-IsSound refl
