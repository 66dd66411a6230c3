-- ===== src/External/Open.antt =====
-- Opening a data directory: `open_inner` of external_state_machine.rs.
--
-- Left out are the directories, the pragma of the durability and the pool of readers.
use hiqlite.Common.{String, Bool, true, false, ◌&&◌, not, Option, none, some, [], if◌then◌else◌}
use hiqlite.External.Data.{
  Application, ExternalError, missing_metadata, invalid_metadata, unsupported_format, serialization,
  sqlite, locked, rebuild_required, rebuild_not_required, adoption_not_allowed, Fallible, ok, err,
  ◌>>=◌, ◌>>◌, guard, StoredState, Marker, dirty_full, dirty_normal, dirty_off, dirty_poisoned,
}
use hiqlite.External.Tables.{Database, MetadataRow, load_state, is_some}
use hiqlite.External.Check.{Options, validate_configuration, validate_receipts}

-- The managed files: the marker and the database.
pub record Disk (a : Application) : Type 0 where
  pub dirty : Option Marker
  pub file : Option (Database a)

-- What the open meets: whether another owner holds the lock, whether `quick_check` says ok, and the
-- application's tables in a file that SQLite creates.
pub record OpenCalls (a : Application) : Type 0 where
  pub is_locked : Bool
  pub quick_check : Bool
  pub fresh : a.Tables

abbrev pub needs_rebuild : Option Marker → Bool
needs_rebuild none = false
needs_rebuild (some dirty_full) = false
needs_rebuild (some dirty_normal) = false
needs_rebuild (some dirty_off) = true
needs_rebuild (some dirty_poisoned) = true

abbrev pub requires_projection_rebuild : ExternalError → Bool
requires_projection_rebuild missing_metadata = true
requires_projection_rebuild (invalid_metadata _) = true
requires_projection_rebuild (unsupported_format _) = true
requires_projection_rebuild serialization = true
requires_projection_rebuild sqlite = true
requires_projection_rebuild _ = false

abbrev pub first_row : Options → String → MetadataRow
first_row options receipt_codec = record {
  format_version = 1;
  application_id = options.application_id;
  initial_sequence = options.initial_sequence;
  initial_state_schema = options.initial_state_schema;
  receipt_codec = receipt_codec;
  receipt_retention = options.receipt_retention;
  max_receipt_bytes = options.max_receipt_bytes;
  last_sequence = none;
  last_coordinate = none;
  last_command_digest = none;
  last_kind = none;
  last_state_schema = none;
  last_receipt_schema = none;
  last_receipt_digest = none;
  receipt_floor = none;
  snapshot_id = none;
}

-- `InitLock`: a marker that was not there before is removed when the open fails.
abbrev pub disarmed : Option Marker → Marker → Option Marker
disarmed none marker = none
disarmed (some old) marker = some marker

module _ {a : Application} where
  -- `create_metadata_tables`, in a file without those tables.
  unfoldable pub create_metadata_tables : Options → String → a.Tables → Database a
  create_metadata_tables options receipt_codec tables = record {
    tables = tables;
    metadata = some (first_row options receipt_codec);
    receipts = [];
  }

  -- `load_state`, `validate_configuration` and `validate_receipts`, in this order.
  unfoldable pub load_validated : Options → Database a → Fallible (StoredState a)
  load_validated options db = do
    state ← load_state a db
    validate_configuration state options a.receipt_codec
    validate_receipts a db state
    ok state

  unfoldable pub check_adoption : OpenCalls a → Database a → Fallible (Unit {0})
  check_adoption calls db = do
    guard (not (is_some db.metadata)) (adoption_not_allowed "external metadata already exists")
    guard calls.quick_check (adoption_not_allowed "SQLite quick_check")

  unfoldable pub open_preflight : OpenCalls a → Options → Bool → Database a → Fallible (Unit {0})
  open_preflight calls options adopt db =
      if adopt then check_adoption calls db else do state ← load_validated options db; ok tt

  abbrev pub opened :
      Options
      → Option Marker
      → Marker
      → Database a
      → Fallible (StoredState a)
      → Disk a × Fallible (StoredState a)
  opened options before marker db (ok s) = (record { dirty = some marker; file = some db }, ok s)
  opened options before marker db (err e) =
      (record { dirty = disarmed before marker; file = some db }, err e)

  abbrev pub open_checked :
      Options
      → Option Marker
      → Marker
      → Bool
      → Database a
      → Fallible (Unit {0})
      → Disk a × Fallible (StoredState a)
  open_checked options before marker adopt db (err e) =
      let after =
        if requires_projection_rebuild e then some dirty_poisoned else disarmed before marker in
      (record { dirty = after; file = some db }, err e)
  open_checked options before marker adopt db (ok _) =
      let ready = if adopt then create_metadata_tables options a.receipt_codec db.tables else db in
      opened options before marker ready (load_validated options ready)

  abbrev pub open_file :
      OpenCalls a
      → Options
      → Option Marker
      → Marker
      → Bool
      → Option (Database a)
      → Disk a × Fallible (StoredState a)
  open_file calls options before marker adopt none =
      let ready = create_metadata_tables options a.receipt_codec calls.fresh in
      if adopt
      then (
        record { dirty = disarmed before marker; file = none },
        err (adoption_not_allowed "the managed SQLite database does not exist"),
      )
      else opened options before marker ready (load_validated options ready)
  open_file calls options before marker adopt (some db) =
      open_checked options before marker adopt db (open_preflight calls options adopt db)

  unfoldable pub open_inner :
      OpenCalls a → Options → Marker → Bool → Bool → Disk a → Disk a × Fallible (StoredState a)
  open_inner calls options marker rebuild adopt disk =
      if calls.is_locked
      then (disk, err locked)
      else if adopt && is_some disk.dirty
      then (disk, err (adoption_not_allowed "an external dirty marker already exists"))
      else if rebuild
      then if needs_rebuild disk.dirty
        then open_file calls options disk.dirty marker adopt none
        else (disk, err rebuild_not_required)
      else if needs_rebuild disk.dirty
      then (disk, err rebuild_required)
      else open_file calls options disk.dirty marker adopt disk.file
