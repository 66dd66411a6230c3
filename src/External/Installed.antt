-- ===== src/External/Installed.antt =====
-- A snapshot that one writer of external_state_machine.rs builds is installed by another.
use hiqlite.Common.{
  ℕ, ◌≡◌, ◌∙◌, refl, ap, true, false, Option, none, some, List, arith, eq_refl, eq_iff, ◌==◌,
  String,
}
use hiqlite.Wal.Header.{bytes_eq_refl}
use hiqlite.External.Data.{
  Application, Lawful, ok, StoredState, Applied, same_commit, dirty_poisoned,
}
use hiqlite.External.Tables.{Database}
use hiqlite.External.Check.{Options, validate_configuration}
use hiqlite.External.Snapshot.{
  Evidence, SnapshotFile, snapshot_evidence, same_evidence, same_applied, same_option,
  persist_snapshot_id, validate_snapshot_compatibility, reject_stale_snapshot,
  validate_snapshot_file,
}
use hiqlite.External.Writer.{
  Writer, restore_reply, RestoreCalls, preflight, check_restored, restore_checked, handle_restore,
  take_snapshot,
}
use hiqlite.External.Consistent.{IsConsistent}
use hiqlite.External.Recorded.{same_kind_refl}
use hiqlite.External.Running.{IsSound, persist_snapshot_id-IsConsistent}
use hiqlite.External.Handled.{running}

-- The file of a database, as it is read back.
abbrev pub file_of : {a : Application} → Database a → ℕ → ℕ → List ℕ → SnapshotFile a
file_of db page_size len sha256 = record {
  is_file = true;
  len = len;
  sha256 = sha256;
  quick_check = true;
  page_size = page_size;
  database = some db;
}

==_refl : (n : ℕ) → (n == n) ≡ true
==_refl n = ground arith

-- A restore of which every call succeeds.
abbrev pub all_succeed : {a : Application} → Database a → RestoreCalls a
all_succeed left = record { mark = true; restored = ok tt; left = left; read = true; unmark = true }

module _ {a : Application} (l : Lawful a) where
  same_applied_refl : (x : Applied a) → same_applied x x ≡ true
  unfolding same_applied same_commit
  same_applied_refl x = ground (
    arith,
    l.same_coordinate_refl x.commit.coordinate,
    bytes_eq_refl x.commit.command_digest,
    bytes_eq_refl x.receipt_digest,
    same_kind_refl x.kind,
  )

  same_checkpoint_refl : (o : Option (Applied a)) → same_option same_applied o o ≡ true
  same_checkpoint_refl none = refl
  same_checkpoint_refl (some x) = same_applied_refl x

  same_floor_refl : (o : Option ℕ) → same_option ◌==◌ o o ≡ true
  same_floor_refl none = refl
  same_floor_refl (some n) = ground arith

  same_evidence_refl : (e : Evidence a) → same_evidence e e ≡ true
  unfolding same_evidence
  same_evidence_refl e =
      rw
        (
          ==_refl e.format_version,
          ==_refl e.initial_sequence,
          ==_refl e.initial_state_schema,
          ==_refl e.receipt_retention,
          ==_refl e.max_receipt_bytes,
          ==_refl e.sqlite_page_size,
          ==_refl e.sqlite_bytes,
          same_checkpoint_refl e.checkpoint,
          same_floor_refl e.receipt_floor,
          bytes_eq_refl e.sqlite_sha256,
          eq_refl e.snapshot_format,
          eq_refl e.snapshot_id,
          eq_refl e.application_id,
          eq_refl e.receipt_codec,
        )
        refl

  module _ (options : Options) (db : Database a) (s live : StoredState a) (id : String)
      (page len : ℕ) (sha : List ℕ) where
    compatible :
        validate_configuration s options a.receipt_codec ≡ ok tt
        → validate_configuration live options a.receipt_codec ≡ ok tt
        → validate_snapshot_compatibility live (snapshot_evidence s id page len sha) ≡ ok tt
    unfolding validate_snapshot_compatibility snapshot_evidence validate_configuration
    compatible c k = ground (
      arith,
      c,
      k,
      eq_iff s.application_id options.application_id,
      eq_iff live.application_id options.application_id,
      eq_iff s.application_id live.application_id,
      eq_iff s.receipt_codec a.receipt_codec,
      eq_iff live.receipt_codec a.receipt_codec,
      eq_iff s.receipt_codec live.receipt_codec,
    )

    file_accepted :
        IsConsistent db s
        → s.snapshot_id ≡ some id
        → validate_snapshot_file (file_of db page len sha) (snapshot_evidence s id page len sha)
          ≡ ok tt
    unfolding validate_snapshot_file snapshot_evidence
    file_accepted v i =
        rw
          (
            bytes_eq_refl sha,
            ==_refl page,
            ==_refl len,
            v.loaded,
            v.validated,
            i,
            eq_refl id,
            same_evidence_refl (snapshot_evidence s id page len sha),
          )
          refl

    restored_checked :
        (left : Database a)
        → IsConsistent db s
        → check_restored (all_succeed left) (snapshot_evidence s id page len sha) db ≡ ok s
    unfolding check_restored snapshot_evidence
    restored_checked left v =
        rw (v.loaded, v.validated, same_evidence_refl (snapshot_evidence s id page len sha)) refl

  -- A snapshot that is taken of one writer is restored by another with the same configuration that is
  -- not ahead of it: when every call succeeds, the other one then has exactly the database and the
  -- state of the first, behind the marker of its own durability.
  pub handle_restore-take_snapshot :
      (options : Options) (source target : Writer a) (id : String) (page len : ℕ) (sha : List ℕ)
      (left : Database a)
      → IsSound options source
      → source.stopped ≡ false
      → IsSound options target
      → target.stopped ≡ false
      → reject_stale_snapshot target.stored.last_applied source.stored.last_applied ≡ ok tt
      → let w = (take_snapshot id (ok tt) (ok tt) source).0 in
        let db = w.connection.database in
        let e = snapshot_evidence w.stored id page len sha in
        let conn = target.connection in
        handle_restore target (file_of db page len sha) e (all_succeed left) ≡ (
          record target {
            connection = record conn { database = db };
            stored = w.stored;
            dirty = some target.active_marker;
          },
          restore_reply (ok e),
        )
  unfolding handle_restore take_snapshot
  handle_restore-take_snapshot options source target id page len sha left v n u o stale =
      let (held, _, c) = running options source v n in
      let (_, _, c') = running options target u o in
      let db = persist_snapshot_id id source.connection.database in
      let s = record (source.stored) { snapshot_id = some id } in
      let there =
        persist_snapshot_id-IsConsistent id source.connection.database source.stored held in
      let e = snapshot_evidence s id page len sha in
      let fresh : reject_stale_snapshot target.stored.last_applied e.checkpoint ≡ ok tt =
        unfold snapshot_evidence in stale in
      let first : preflight target.stored (file_of db page len sha)
            (snapshot_evidence s id page len sha)
          ≡ ok tt =
        unfold preflight in
        rw
          (
            compatible options db s target.stored id page len sha
                (unfold validate_configuration in c) c',
            fresh,
            file_accepted options db s target.stored id page len sha there refl,
          )
          refl in
      let conn = target.connection in
      let marked = record target {
        connection = record conn { database = db };
        dirty = some dirty_poisoned;
      } in
      rw first (
        ap (restore_checked marked e)
          (restored_checked options db s target.stored id page len sha left there)
        ∙ unfold snapshot_evidence in refl)
