-- ===== src/External/Tables.antt =====
-- The metadata row and the table of receipts of external_state_machine.rs, and their statements.
--
-- A column of eight bytes is the number that it encodes, so that a blob of another length is a number
-- of 2 ^ 64 or more. SQLite orders such blobs by their bytes, and so by their numbers. A table is
-- the list of its rows in the order of its key.
use hiqlite.Common.{
  ℕ, ◌^◌, String, Bool, true, false, ◌&&◌, Option, none, some, List, ltb, leb, ◌==◌, if◌then◌else◌,
  length,
}
use hiqlite.Wal.Header.{bytes_eq}
use hiqlite.External.Data.{
  Application, invalid_metadata, unsupported_format, missing_metadata, Fallible, ok, err, ◌>>=◌,
  ◌>>◌, guard, present, from_i64, Applied, StoredState, StoredReceipt, max_receipt_retention,
  max_receipt_bytes,
}

pub record MetadataRow : Type 0 where
  pub format_version : ℕ
  pub application_id : String
  pub initial_sequence : ℕ
  pub initial_state_schema : ℕ
  pub receipt_codec : String
  pub receipt_retention : ℕ
  pub max_receipt_bytes : ℕ
  pub last_sequence : Option ℕ
  pub last_coordinate : Option (List ℕ)
  pub last_command_digest : Option (List ℕ)
  pub last_kind : Option ℕ
  pub last_state_schema : Option ℕ
  pub last_receipt_schema : Option ℕ
  pub last_receipt_digest : Option (List ℕ)
  pub receipt_floor : Option ℕ
  pub snapshot_id : Option String

pub record ReceiptRow : Type 0 where
  pub sequence : ℕ
  pub coordinate : List ℕ
  pub command_digest : List ℕ
  pub kind : ℕ
  pub state_schema : ℕ
  pub receipt_schema : ℕ
  pub codec : String
  pub receipt : List ℕ
  pub receipt_digest : List ℕ

-- The database file: the application's tables, the metadata table's row, and the receipts.
pub record Database (a : Application) : Type 0 where
  pub tables : a.Tables
  pub metadata : Option MetadataRow
  pub receipts : List ReceiptRow

-- Which of the calls of one request fail. A failed COMMIT may have taken effect all the same.
pub data CommitCall : Type 0 where
  committed rolled_back took_effect : CommitCall

pub record Faults : Type 0 where
  pub read : Bool
  pub begin : Bool
  pub authorize : Bool
  pub unauthorize : Bool
  pub insert : Bool
  pub update : Bool
  pub delete : Bool
  pub commit : CommitCall
  pub drop : Bool
  pub rollback : Bool
  pub reload : Bool
  pub mark : Bool

unfoldable pub decode_u64 : ℕ → Fallible ℕ
decode_u64 n =
    if ltb n (2 ^ 64) then ok n else err (invalid_metadata "must contain exactly 8 bytes")

unfoldable pub decode_digest : List ℕ → Fallible (List ℕ)
decode_digest bytes =
    if length bytes == 32 then ok bytes else err (invalid_metadata "must contain exactly 32 bytes")

abbrev pub is_some {ℓ} : {A : Type ℓ} → Option A → Bool
is_some none = false
is_some (some x) = true

module _ (a : Application) where
  -- The columns that are there when a checkpoint is.
  unfoldable pub load_applied :
      ℕ → List ℕ → List ℕ → ℕ → ℕ → ℕ → List ℕ → ℕ → Fallible (Applied a × ℕ)
  load_applied sequence coordinate command kind schema receipt_schema digest floor = do
    sequence ← decode_u64 sequence
    coordinate ←
        present (a.deserialize_exact coordinate) (invalid_metadata "last-applied coordinate")
    command ← decode_digest command
    kind ← from_i64 kind
    schema ← decode_u64 schema
    receipt_schema ← decode_u64 receipt_schema
    digest ← decode_digest digest
    floor ← decode_u64 floor
    ok (
      record {
        commit = record {
          sequence = sequence;
          coordinate = coordinate;
          command_digest = command;
          state_schema = schema;
          receipt_schema = receipt_schema;
        };
        kind = kind;
        receipt_digest = digest;
      },
      floor,
    )

  unfoldable pub load_columns :
      Option ℕ
      → Option (List ℕ)
      → Option (List ℕ)
      → Option ℕ
      → Option ℕ
      → Option ℕ
      → Option (List ℕ)
      → Option ℕ
      → Fallible (Option (Applied a) × Option ℕ)
  load_columns none none none none none none none none = ok (none, none)
  load_columns (some q) (some c) (some d) (some k) (some s) (some r) (some g) (some f) = do
    (checkpoint, floor) ← load_applied q c d k s r g f
    ok (some checkpoint, some floor)
  load_columns _ _ _ _ _ _ _ _ = err (invalid_metadata "partial last-applied metadata")

  abbrev pub load_last : MetadataRow → Fallible (Option (Applied a) × Option ℕ)
  load_last row =
      load_columns row.last_sequence row.last_coordinate row.last_command_digest row.last_kind
        row.last_state_schema row.last_receipt_schema row.last_receipt_digest row.receipt_floor

  unfoldable pub load_row : MetadataRow → Fallible (StoredState a)
  load_row row = do
    guard (ltb row.format_version (2 ^ 16)) (invalid_metadata "invalid format version")
    guard (row.format_version == 1) (unsupported_format row.format_version)
    initial_sequence ← decode_u64 row.initial_sequence
    initial_state_schema ← decode_u64 row.initial_state_schema
    receipt_retention ← decode_u64 row.receipt_retention
    max_bytes ← decode_u64 row.max_receipt_bytes
    guard (leb 1 receipt_retention && leb receipt_retention max_receipt_retention)
        (invalid_metadata "receipt_retention is outside the supported range")
    guard (leb 1 max_bytes && leb max_bytes max_receipt_bytes)
        (invalid_metadata "max_receipt_bytes is outside the supported range")
    (last_applied, receipt_floor) ← load_last row
    ok (record {
      application_id = row.application_id;
      initial_sequence = initial_sequence;
      initial_state_schema = initial_state_schema;
      receipt_codec = row.receipt_codec;
      receipt_retention = receipt_retention;
      max_receipt_bytes = max_bytes;
      last_applied = last_applied;
      receipt_floor = receipt_floor;
      snapshot_id = row.snapshot_id;
    })

  unfoldable pub load_state : Database a → Fallible (StoredState a)
  load_state db = do row ← present db.metadata missing_metadata; load_row row

  unfoldable pub read_row : ℕ → ReceiptRow → Fallible (StoredReceipt a)
  read_row limit row = do
    guard (leb (length row.receipt) limit) (invalid_metadata "exceeds configured maximum")
    coordinate ←
        present (a.deserialize_exact row.coordinate) (invalid_metadata "receipt coordinate")
    digest ← decode_digest row.receipt_digest
    guard (bytes_eq (a.sha256 row.receipt) digest) (invalid_metadata "receipt digest mismatch")
    command ← decode_digest row.command_digest
    schema ← decode_u64 row.state_schema
    receipt_schema ← decode_u64 row.receipt_schema
    kind ← from_i64 row.kind
    ok (record {
      commit = record {
        sequence = row.sequence;
        coordinate = coordinate;
        command_digest = command;
        state_schema = schema;
        receipt_schema = receipt_schema;
      };
      kind = kind;
      codec = row.codec;
      receipt = row.receipt;
      receipt_digest = digest;
    })
