-- ===== src/External/Snapshot.antt =====
-- Snapshots of external_state_machine.rs: the evidence that binds a file to a checkpoint, and the
-- checks that come before a restore.
use hiqlite.Common.{
  ℕ, String, Bool, true, false, ◌&&◌, not, Option, none, some, List, ltb, ◌==◌, if◌then◌else◌,
  str_eq,
}
use hiqlite.Wal.Header.{bytes_eq}
use hiqlite.External.Data.{
  Application, snapshot_mismatch, unsupported_format, stale_snapshot, commit_conflict, sqlite,
  Fallible, ok, err, ◌>>=◌, ◌>>◌, guard, same_kind, Applied, StoredState, same_commit,
}
use hiqlite.External.Tables.{Database, load_state}
use hiqlite.External.Statements.{map_metadata}
use hiqlite.External.Check.{validate_receipts}

pub record Evidence (a : Application) : Type 0 where
  pub format_version : ℕ
  pub snapshot_format : String
  pub snapshot_id : String
  pub application_id : String
  pub initial_sequence : ℕ
  pub initial_state_schema : ℕ
  pub receipt_codec : String
  pub checkpoint : Option (Applied a)
  pub receipt_floor : Option ℕ
  pub receipt_retention : ℕ
  pub max_receipt_bytes : ℕ
  pub sqlite_page_size : ℕ
  pub sqlite_bytes : ℕ
  pub sqlite_sha256 : List ℕ

-- What the file system and SQLite say of a file: `none` where it cannot be read.
pub record SnapshotFile (a : Application) : Type 0 where
  pub is_file : Bool
  pub len : ℕ
  pub sha256 : List ℕ
  pub quick_check : Bool
  pub page_size : ℕ
  pub database : Option (Database a)

abbrev pub sqlite_snapshot_format : String
sqlite_snapshot_format = "sqlite3-online-backup/page-image-v1"

-- `==` of the derived `PartialEq`s.
abbrev pub same_option {ℓ} : {A : Type ℓ} → (A → A → Bool) → Option A → Option A → Bool
same_option same none none = true
same_option same (some x) (some y) = same x y
same_option same none (some y) = false
same_option same (some x) none = false

module _ {a : Application} where
  unfoldable pub same_applied : Applied a → Applied a → Bool
  same_applied x y =
      same_commit x.commit y.commit
      && same_kind x.kind y.kind
      && bytes_eq x.receipt_digest y.receipt_digest

  unfoldable pub same_evidence : Evidence a → Evidence a → Bool
  same_evidence x y =
      x.format_version == y.format_version
      && str_eq x.snapshot_format y.snapshot_format
      && str_eq x.snapshot_id y.snapshot_id
      && str_eq x.application_id y.application_id
      && x.initial_sequence == y.initial_sequence
      && x.initial_state_schema == y.initial_state_schema
      && str_eq x.receipt_codec y.receipt_codec
      && same_option same_applied x.checkpoint y.checkpoint
      && same_option ◌==◌ x.receipt_floor y.receipt_floor
      && x.receipt_retention == y.receipt_retention
      && x.max_receipt_bytes == y.max_receipt_bytes
      && x.sqlite_page_size == y.sqlite_page_size
      && x.sqlite_bytes == y.sqlite_bytes
      && bytes_eq x.sqlite_sha256 y.sqlite_sha256

  unfoldable pub snapshot_evidence : StoredState a → String → ℕ → ℕ → List ℕ → Evidence a
  snapshot_evidence s snapshot_id sqlite_page_size sqlite_bytes sqlite_sha256 = record {
    format_version = 1;
    snapshot_format = sqlite_snapshot_format;
    snapshot_id = snapshot_id;
    application_id = s.application_id;
    initial_sequence = s.initial_sequence;
    initial_state_schema = s.initial_state_schema;
    receipt_codec = s.receipt_codec;
    checkpoint = s.last_applied;
    receipt_floor = s.receipt_floor;
    receipt_retention = s.receipt_retention;
    max_receipt_bytes = s.max_receipt_bytes;
    sqlite_page_size = sqlite_page_size;
    sqlite_bytes = sqlite_bytes;
    sqlite_sha256 = sqlite_sha256;
  }

  -- The evidence of a state as it is compared with that of a snapshot.
  abbrev pub evidence_of : StoredState a → Evidence a → Evidence a
  evidence_of s e =
      snapshot_evidence s e.snapshot_id e.sqlite_page_size e.sqlite_bytes e.sqlite_sha256

  unfoldable pub persist_snapshot_id : String → Database a → Database a
  persist_snapshot_id snapshot_id db = record db {
    metadata = map_metadata (λ row. record row { snapshot_id = some snapshot_id }) db.metadata;
  }

  -- `validate_snapshot_compatibility`, which tells all of the mismatches in one error.
  unfoldable pub validate_snapshot_compatibility : StoredState a → Evidence a → Fallible (Unit {0})
  validate_snapshot_compatibility live e = do
    guard (e.format_version == 1) (unsupported_format e.format_version)
    guard (str_eq e.snapshot_format sqlite_snapshot_format)
        (snapshot_mismatch "unsupported SQLite snapshot format")
    guard
        (str_eq e.application_id live.application_id
          && e.initial_sequence == live.initial_sequence
          && e.initial_state_schema == live.initial_state_schema
          && str_eq e.receipt_codec live.receipt_codec
          && e.receipt_retention == live.receipt_retention
          && e.max_receipt_bytes == live.max_receipt_bytes)
        (snapshot_mismatch "incompatible")

  unfoldable pub reject_stale_snapshot :
      Option (Applied a) → Option (Applied a) → Fallible (Unit {0})
  reject_stale_snapshot (some live) none = err stale_snapshot
  reject_stale_snapshot (some live) (some incoming) =
      if ltb incoming.commit.sequence live.commit.sequence
      then err stale_snapshot
      else if incoming.commit.sequence == live.commit.sequence && not (same_applied incoming live)
      then err (commit_conflict incoming.commit.sequence)
      else ok tt
  reject_stale_snapshot none incoming = ok tt

  abbrev pub readable : Option (Database a) → Fallible (Database a)
  readable none = err sqlite
  readable (some db) = ok db

  unfoldable pub validate_snapshot_file : SnapshotFile a → Evidence a → Fallible (Unit {0})
  validate_snapshot_file file e = do
    guard (e.format_version == 1) (unsupported_format e.format_version)
    guard (str_eq e.snapshot_format sqlite_snapshot_format)
        (snapshot_mismatch "unsupported SQLite snapshot format")
    guard file.is_file (snapshot_mismatch "snapshot path is not a regular file")
    guard (file.len == e.sqlite_bytes) (snapshot_mismatch "file size differs from evidence")
    guard (bytes_eq file.sha256 e.sqlite_sha256)
        (snapshot_mismatch "file SHA-256 differs from evidence")
    db ← readable file.database
    guard file.quick_check (snapshot_mismatch "SQLite quick_check")
    guard (file.page_size == e.sqlite_page_size)
        (snapshot_mismatch "SQLite page size differs from evidence")
    state ← load_state a db
    validate_receipts a db state
    guard (same_option str_eq state.snapshot_id (some e.snapshot_id))
        (snapshot_mismatch "embedded snapshot ID differs from evidence")
    guard (same_evidence (evidence_of state e) e)
        (snapshot_mismatch "embedded metadata differs from evidence")
