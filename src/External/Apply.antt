-- ===== src/External/Apply.antt =====
-- Committing an entry: `classify_commit`, `apply_operation`, `apply_advance` and the two requests
-- that the writer runs for them, of external_state_machine.rs.
use hiqlite.Common.{
  ℕ, String, ◌&&◌, not, Option, none, some, List, ltb, leb, ◌==◌, if◌then◌else◌, length, str_eq,
  ◌⊎◌, inl, inr,
}
use hiqlite.External.Data.{
  Application, ExternalError, sequence_gap, sequence_before_initial, receipt_too_large,
  commit_conflict, receipt_unavailable, serialization, sqlite, Result, Fallible, ok, err, ◌>>=◌,
  ◌>>◌, guard, present, checked_next, EntryKind, operation, advance, same_kind, ApplyOutcome,
  applied, recovered, ApplyError, engine, failed, Commit, Applied, StoredState, StoredReceipt,
  same_commit, advance_receipt_codec,
}
use hiqlite.External.Tables.{Database, Faults, committed, rolled_back, took_effect}
use hiqlite.External.Statements.{load_receipt, floor_at, persist_new_commit}

-- The connection: what is committed, and what an open transaction has made of it.
pub record Connection (a : Application) : Type 0 where
  pub database : Database a
  pub transaction : Option (Database a)

pub data CommitClass (a : Application) : Type 0 where
  new : CommitClass a
  retry : StoredReceipt a → CommitClass a

-- What a request ends in: the connection, the state, what the caller is told, and the error that
-- poisons the writer.
abbrev pub Ended : Application → Type 0 → Type 0
Ended a R = Connection a × StoredState a × R × Option ExternalError

-- The receipt of a retry, decoded.
abbrev pub recover : {F T : Type 0} → Option T → Result (ApplyError F) (ApplyOutcome T)
recover none = err (engine serialization)
recover (some output) = ok (recovered output)

module _ {a : Application} where
  abbrev pub classify_initial : StoredState a → Commit a → Fallible (CommitClass a)
  classify_initial s commit =
      if commit.sequence == s.initial_sequence
      then ok new
      else if ltb s.initial_sequence commit.sequence
      then err (sequence_gap s.initial_sequence commit.sequence)
      else err (sequence_before_initial s.initial_sequence commit.sequence)

  unfoldable pub classify_retry :
      Faults → Database a → StoredState a → Commit a → EntryKind → String → Fallible (CommitClass a)
  classify_retry f db s commit kind codec = do
    guard (not f.read) sqlite
    found ← load_receipt a db commit.sequence s.max_receipt_bytes
    receipt ← present found (receipt_unavailable commit.sequence)
    guard
        (same_commit receipt.commit commit
          && same_kind receipt.kind kind
          && str_eq receipt.codec codec)
        (commit_conflict commit.sequence)
    ok (retry receipt)

  unfoldable pub classify_next : Commit a → Commit a → Fallible (CommitClass a)
  classify_next current commit = do
    expected ← checked_next current.sequence
    guard (commit.sequence == expected) (sequence_gap expected commit.sequence)
    ok new

  abbrev pub classify_at :
      Faults
      → Database a
      → StoredState a
      → Option (Applied a)
      → Commit a
      → EntryKind
      → String
      → Fallible (CommitClass a)
  classify_at f db s none commit kind codec = classify_initial s commit
  classify_at f db s (some current) commit kind codec =
      if leb commit.sequence current.commit.sequence
      then classify_retry f db s commit kind codec
      else classify_next current.commit commit

  unfoldable pub classify_commit :
      Faults → Database a → StoredState a → Commit a → EntryKind → String → Fallible (CommitClass a)
  classify_commit f db s commit kind codec = classify_at f db s s.last_applied commit kind codec

  unfoldable pub update_state_after_commit :
      StoredState a → Commit a → EntryKind → List ℕ → StoredState a
  update_state_after_commit s commit kind digest = record s {
    last_applied = some (record { commit = commit; kind = kind; receipt_digest = digest });
    receipt_floor = some (floor_at s commit.sequence);
  }

  -- A transaction that is dropped is rolled back, unless that fails.
  abbrev pub drop_transaction : Faults → Database a → Database a → Connection a
  drop_transaction f db inside = record {
    database = db;
    transaction = if f.drop then some inside else none;
  }

  -- The end of a transaction: `?` on what it came to, and its commit.
  abbrev pub conclude :
      {E B : Type 0}
      → Faults
      → (ExternalError → E)
      → Database a
      → Database a × Result E B
      → Connection a × Result E B
  conclude f wrap db (inside, err e) = (drop_transaction f db inside, err e)
  conclude f wrap db (inside, ok b) = elim f.commit [
    | committed ↦ (record { database = inside; transaction = none }, ok b)
    | rolled_back ↦ (drop_transaction f db inside, err (wrap sqlite))
    | took_effect ↦ (record { database = inside; transaction = none }, err (wrap sqlite))
  ]

  abbrev pub persisted :
      {E B : Type 0}
      → (ExternalError → E)
      → B
      → Database a × Fallible (Unit {0})
      → Database a × Result E B
  persisted wrap b (db, ok _) = (db, ok b)
  persisted wrap b (db, err e) = (db, err (wrap e))

  abbrev pub store_receipt :
      Faults
      → StoredState a
      → Commit a
      → a.Output
      → Option (List ℕ)
      → Database a
      → Database a × Result (ApplyError a.Failure) (a.Output × List ℕ)
  store_receipt f s commit output none db = (db, err (engine serialization))
  store_receipt f s commit output (some receipt) db =
      let digest = a.sha256 receipt in
      if ltb s.max_receipt_bytes (length receipt)
      then (db, err (engine (receipt_too_large (length receipt) s.max_receipt_bytes)))
      else persisted engine (output, digest)
          (persist_new_commit f s commit operation a.receipt_codec receipt digest db)

  abbrev pub operation_result :
      Faults
      → StoredState a
      → Commit a
      → a.Failure ⊎ a.Output
      → Database a
      → Database a × Result (ApplyError a.Failure) (a.Output × List ℕ)
  operation_result f s commit (inl failure) db = (db, err (failed failure))
  operation_result f s commit (inr output) db =
      store_receipt f s commit output (a.encode_receipt output) db

  abbrev pub operation_done :
      Faults
      → StoredState a
      → Commit a
      → Database a
      → a.Tables × (a.Failure ⊎ a.Output)
      → Database a × Result (ApplyError a.Failure) (a.Output × List ℕ)
  operation_done f s commit db (tables, result) =
      let inside = record db { tables = tables } in
      if f.unauthorize
      then (inside, err (engine sqlite))
      else operation_result f s commit result inside

  -- What `apply_operation` does inside its transaction.
  unfoldable pub transact :
      Faults
      → StoredState a
      → Commit a
      → a.Operation
      → Database a
      → Database a × Result (ApplyError a.Failure) (a.Output × List ℕ)
  transact f s commit op db =
      if f.authorize
      then (db, err (engine sqlite))
      else operation_done f s commit db (a.perform op db.tables)

  abbrev pub operation_committed :
      StoredState a
      → Commit a
      → Connection a × Result (ApplyError a.Failure) (a.Output × List ℕ)
      → Connection a × StoredState a × Result (ApplyError a.Failure) (ApplyOutcome a.Output)
  operation_committed s commit (conn, err e) = (conn, s, err e)
  operation_committed s commit (conn, ok (output, digest)) =
      (conn, update_state_after_commit s commit operation digest, ok (applied output))

  abbrev pub apply_class :
      Faults
      → Connection a
      → StoredState a
      → Commit a
      → a.Operation
      → Fallible (CommitClass a)
      → Connection a × StoredState a × Result (ApplyError a.Failure) (ApplyOutcome a.Output)
  apply_class f conn s commit op (err e) = (conn, s, err (engine e))
  apply_class f conn s commit op (ok (retry receipt)) =
      (conn, s, recover (a.decode_receipt receipt.receipt))
  apply_class f conn s commit op (ok new) =
      if f.begin
      then (conn, s, err (engine sqlite))
      else operation_committed s commit
          (conclude f engine conn.database (transact f s commit op conn.database))

  unfoldable pub apply_operation :
      Faults
      → Connection a
      → StoredState a
      → Commit a
      → a.Operation
      → Connection a × StoredState a × Result (ApplyError a.Failure) (ApplyOutcome a.Output)
  apply_operation f conn s commit op =
      apply_class f conn s commit op
        (classify_commit f conn.database s commit operation a.receipt_codec)

  abbrev pub advance_committed_state :
      StoredState a
      → Commit a
      → List ℕ
      → Connection a × Fallible (Unit {0})
      → Connection a × StoredState a × Fallible (ApplyOutcome (Unit {0}))
  advance_committed_state s commit digest (conn, err e) = (conn, s, err e)
  advance_committed_state s commit digest (conn, ok _) =
      (conn, update_state_after_commit s commit advance digest, ok (applied tt))

  abbrev pub advance_with :
      Faults
      → Connection a
      → StoredState a
      → Commit a
      → Option (List ℕ)
      → Connection a × StoredState a × Fallible (ApplyOutcome (Unit {0}))
  advance_with f conn s commit none = (conn, s, err serialization)
  advance_with f conn s commit (some receipt) =
      let digest = a.sha256 receipt in
      if f.begin
      then (conn, s, err sqlite)
      else advance_committed_state s commit digest (
          conclude f (λ e. e) conn.database
            (persist_new_commit f s commit advance advance_receipt_codec receipt digest
              conn.database))

  abbrev pub advance_class :
      Faults
      → Connection a
      → StoredState a
      → Commit a
      → Fallible (CommitClass a)
      → Connection a × StoredState a × Fallible (ApplyOutcome (Unit {0}))
  advance_class f conn s commit (err e) = (conn, s, err e)
  advance_class f conn s commit (ok (retry receipt)) = (conn, s, ok (recovered tt))
  advance_class f conn s commit (ok new) = advance_with f conn s commit a.serialize_unit

  unfoldable pub apply_advance :
      Faults
      → Connection a
      → StoredState a
      → Commit a
      → Connection a × StoredState a × Fallible (ApplyOutcome (Unit {0}))
  apply_advance f conn s commit =
      advance_class f conn s commit
        (classify_commit f conn.database s commit advance advance_receipt_codec)
