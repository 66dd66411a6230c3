-- ===== src/External/Check.antt =====
-- The validation of what external_state_machine.rs has stored, when it opens a file, after a failed
-- request and around a restore.
use hiqlite.Common.{
  ℕ, ◌+◌, ◌-◌, ◌%◌, ◌^◌, String, ◌&&◌, Option, none, some, List, [], ◌∷◌, map, leb, ◌==◌, length,
  str_eq,
}
use hiqlite.Wal.Header.{bytes_eq}
use hiqlite.External.Data.{
  Application, invalid_metadata, configuration_mismatch, serialization, Fallible, ok, err, ◌>>=◌,
  ◌>>◌, guard, present, EntryKind, operation, advance, same_kind, Applied, StoredState,
  StoredReceipt, same_commit, advance_receipt_codec,
}
use hiqlite.External.Tables.{ReceiptRow, Database}
use hiqlite.External.Statements.{load_receipt, floor_at}

-- The part of `ExternalSqliteOptions` that is stored.
pub record Options : Type 0 where
  pub application_id : String
  pub initial_sequence : ℕ
  pub initial_state_schema : ℕ
  pub receipt_retention : ℕ
  pub max_receipt_bytes : ℕ

-- `validate_configuration`, which tells all of the mismatches in one error.
unfoldable pub validate_configuration :
    {a : Application} → StoredState a → Options → String → Fallible (Unit {0})
validate_configuration s options receipt_codec =
    guard
      (str_eq s.application_id options.application_id
        && s.initial_sequence == options.initial_sequence
        && s.initial_state_schema == options.initial_state_schema
        && str_eq s.receipt_codec receipt_codec
        && s.receipt_retention == options.receipt_retention
        && s.max_receipt_bytes == options.max_receipt_bytes)
      (configuration_mismatch "configuration")

module _ (a : Application) where
  abbrev pub expected_codec : StoredState a → EntryKind → String
  expected_codec s operation = s.receipt_codec
  expected_codec s advance = advance_receipt_codec

  -- The match on the kind at the end of the loop's body.
  abbrev pub check_content : EntryKind → List ℕ → Fallible (Unit {0})
  check_content operation receipt = do
    output ← present (a.decode_receipt receipt) (invalid_metadata "is not decodable")
    ok tt
  check_content advance receipt = do
    canonical ← present a.serialize_unit serialization
    guard (bytes_eq receipt canonical) (invalid_metadata "is not canonical")

  -- What the loop's body asks of a receipt.
  unfoldable pub check_receipt : StoredState a → StoredReceipt a → Fallible (Unit {0})
  check_receipt s r = do
    guard (str_eq r.codec (expected_codec s r.kind)) (invalid_metadata "receipt codec mismatch")
    guard (leb (length r.receipt) s.max_receipt_bytes)
        (invalid_metadata "exceeds configured maximum")
    check_content r.kind r.receipt

  -- The loop over the stored sequences, each at its offset.
  unfoldable pub check_sequences : Database a → StoredState a → ℕ → List ℕ → Fallible (Unit {0})
  check_sequences db s expected [] = ok tt
  check_sequences db s expected (actual ∷ rest) = do
    guard (actual == expected) (invalid_metadata "receipt suffix contains a gap")
    found ← load_receipt a db actual s.max_receipt_bytes
    receipt ← present found (invalid_metadata "disappeared during validation")
    check_receipt s receipt
    check_sequences db s (expected + 1) rest

  unfoldable pub check_newest : Database a → StoredState a → Applied a → Fallible (Unit {0})
  check_newest db s last = do
    found ← load_receipt a db last.commit.sequence s.max_receipt_bytes
    newest ← present found (invalid_metadata "newest receipt is missing")
    guard
        (same_commit newest.commit last.commit
          && same_kind newest.kind last.kind
          && bytes_eq newest.receipt_digest last.receipt_digest)
        (invalid_metadata "newest receipt does not match checkpoint")

  unfoldable pub check_suffix : Database a → StoredState a → Applied a → ℕ → Fallible (Unit {0})
  check_suffix db s last floor = do
    let expected_count = (last.commit.sequence - floor + 1) % 2 ^ 64
    guard (leb floor last.commit.sequence) (invalid_metadata "receipt floor exceeds checkpoint")
    guard (leb expected_count s.receipt_retention)
        (invalid_metadata "receipt suffix exceeds configured retention")
    guard (floor == floor_at s last.commit.sequence)
        (invalid_metadata "receipt floor does not match configured retention")
    guard (length db.receipts == expected_count) (invalid_metadata "receipt suffix count mismatch")
    check_sequences db s floor (map ReceiptRow.sequence db.receipts)
    check_newest db s last

  abbrev pub check_state :
      Database a → StoredState a → Option (Applied a) → Option ℕ → Fallible (Unit {0})
  check_state db s none none =
      guard (length db.receipts == 0) (invalid_metadata "receipts exist without a checkpoint")
  check_state db s (some last) (some floor) = check_suffix db s last floor
  check_state db s _ _ = err (invalid_metadata "checkpoint and receipt floor presence mismatch")

  unfoldable pub validate_receipts : Database a → StoredState a → Fallible (Unit {0})
  validate_receipts db s = check_state db s s.last_applied s.receipt_floor
