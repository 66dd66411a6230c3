-- ===== src/External/Statements.antt =====
-- The statements on the table of receipts and on the metadata row, of external_state_machine.rs.
use hiqlite.Common.{
  ℕ, ◌-◌, String, ◌||◌, Option, none, some, List, [], ◌∷◌, ltb, ◌==◌, if◌then◌else◌,
}
use Prim.Native.Nat.{max}
use hiqlite.External.Data.{
  Application, serialization, sqlite, Fallible, ok, err, ◌>>=◌, EntryKind, as_i64, Commit,
  StoredState, StoredReceipt,
}
use hiqlite.External.Tables.{Database, Faults, MetadataRow, ReceiptRow, is_some, read_row}

-- `SELECT … WHERE sequence=?1`
unfoldable pub select : ℕ → List ReceiptRow → Option ReceiptRow
select n [] = none
select n (row ∷ rows) = if row.sequence == n then some row else select n rows

-- `INSERT INTO …`, for a key that the table does not have.
unfoldable pub insert_row : ReceiptRow → List ReceiptRow → List ReceiptRow
insert_row new [] = new ∷ []
insert_row new (row ∷ rows) =
    let behind = insert_row new rows in
    if ltb new.sequence row.sequence then new ∷ row ∷ rows else row ∷ behind

-- `DELETE FROM … WHERE sequence < ?1`
unfoldable pub delete_below : ℕ → List ReceiptRow → List ReceiptRow
delete_below floor [] = []
delete_below floor (row ∷ rows) =
    let rest = delete_below floor rows in if ltb row.sequence floor then rest else row ∷ rest

abbrev pub read_some :
    (a : Application) → ℕ → Option ReceiptRow → Fallible (Option (StoredReceipt a))
read_some a limit none = ok none
read_some a limit (some row) = do receipt ← read_row a limit row; ok (some receipt)

unfoldable pub load_receipt :
    (a : Application) → Database a → ℕ → ℕ → Fallible (Option (StoredReceipt a))
load_receipt a db sequence limit = read_some a limit (select sequence db.receipts)

-- The floor of the receipts behind a commit, computed alike in three functions.
unfoldable pub floor_at : {a : Application} → StoredState a → ℕ → ℕ
floor_at s sequence = max (sequence - (s.receipt_retention - 1)) s.initial_sequence

abbrev pub new_row :
    {a : Application} → Commit a → List ℕ → EntryKind → String → List ℕ → List ℕ → ReceiptRow
new_row commit coordinate kind codec receipt digest = record {
  sequence = commit.sequence;
  coordinate = coordinate;
  command_digest = commit.command_digest;
  kind = as_i64 kind;
  state_schema = commit.state_schema;
  receipt_schema = commit.receipt_schema;
  codec = codec;
  receipt = receipt;
  receipt_digest = digest;
}

abbrev pub update_row :
    {a : Application} → Commit a → List ℕ → EntryKind → List ℕ → ℕ → MetadataRow → MetadataRow
update_row commit coordinate kind digest floor row = record row {
  last_sequence = some commit.sequence;
  last_coordinate = some coordinate;
  last_command_digest = some commit.command_digest;
  last_kind = some (as_i64 kind);
  last_state_schema = some commit.state_schema;
  last_receipt_schema = some commit.receipt_schema;
  last_receipt_digest = some digest;
  receipt_floor = some floor;
}

abbrev pub map_metadata : (MetadataRow → MetadataRow) → Option MetadataRow → Option MetadataRow
map_metadata f none = none
map_metadata f (some row) = some (f row)

-- `persist_new_commit`: its three statements, of which each can fail, and what they leave behind.
abbrev pub persist_row :
    {a : Application}
    → Faults
    → StoredState a
    → Commit a
    → EntryKind
    → String
    → List ℕ
    → List ℕ
    → Option (List ℕ)
    → Database a
    → Database a × Fallible (Unit {0})
persist_row f s commit kind codec receipt digest none db = (db, err serialization)
persist_row f s commit kind codec receipt digest (some coordinate) db =
    let floor = floor_at s commit.sequence in
    let inserted = record db {
      receipts = insert_row (new_row commit coordinate kind codec receipt digest) db.receipts;
    } in
    let updated = record inserted {
      metadata = map_metadata (update_row commit coordinate kind digest floor) db.metadata;
    } in
    if f.insert || is_some (select commit.sequence db.receipts)
    then (db, err sqlite)
    else if f.update
    then (inserted, err sqlite)
    else if f.delete
    then (updated, err sqlite)
    else (record updated { receipts = delete_below floor inserted.receipts }, ok tt)

unfoldable pub persist_new_commit :
    {a : Application}
    → Faults
    → StoredState a
    → Commit a
    → EntryKind
    → String
    → List ℕ
    → List ℕ
    → Database a
    → Database a × Fallible (Unit {0})
persist_new_commit {a} f s commit kind codec receipt digest db =
    persist_row f s commit kind codec receipt digest (a.serialize commit.coordinate) db
