-- ===== src/External/Reconcile.antt =====
-- What follows a commit in the writer of external_state_machine.rs: `reconcile_after_apply` and the two
-- requests that end in it.
use hiqlite.Common.{Bool, not, none, some, if◌then◌else◌}
use hiqlite.External.Data.{
  Application, ExternalError, sqlite, writer_poisoned, Result, Fallible, ok, err, ◌>>=◌, ◌>>◌,
  guard, is_err, ApplyOutcome, ApplyError, engine, Commit, StoredState,
}
use hiqlite.External.Tables.{Database, Faults, load_state}
use hiqlite.External.Check.{validate_receipts}
use hiqlite.External.Apply.{Connection, Ended, apply_advance, apply_operation}

module _ {a : Application} where
  -- `execute_batch("ROLLBACK")` where a transaction is still open.
  abbrev pub end_transaction : Faults → Connection a → Connection a × Fallible (Unit {0})
  end_transaction f conn = elim conn.transaction [
    | none ↦ (conn, ok tt)
    | some inside ↦
        if f.rollback then (conn, err sqlite) else (record conn { transaction = none }, ok tt)
  ]

  -- What is stored, read and validated.
  unfoldable pub reload : Faults → Database a → Fallible (StoredState a)
  reload f db = do
    guard (not f.reload) sqlite
    stored ← load_state a db
    validate_receipts a db stored
    ok stored

  abbrev pub reloaded :
      Connection a
      → StoredState a
      → Fallible (StoredState a)
      → Connection a × StoredState a × Fallible (Unit {0})
  reloaded conn s (ok stored) = (conn, stored, ok tt)
  reloaded conn s (err e) = (conn, s, err e)

  abbrev pub reconcile_state :
      Faults
      → StoredState a
      → Bool
      → Connection a × Fallible (Unit {0})
      → Connection a × StoredState a × Fallible (Unit {0})
  reconcile_state f s apply_failed (conn, err e) = (conn, s, err e)
  reconcile_state f s apply_failed (conn, ok _) =
      if apply_failed then reloaded conn s (reload f conn.database) else (conn, s, ok tt)

  unfoldable pub reconcile_after_apply :
      Faults
      → Connection a
      → StoredState a
      → Bool
      → Connection a × StoredState a × Fallible (Unit {0})
  reconcile_after_apply f conn s apply_failed =
      reconcile_state f s apply_failed (end_transaction f conn)

  abbrev pub poison_with :
      {E B : Type 0}
      → (ExternalError → E)
      → Result E B
      → Connection a × StoredState a × Fallible (Unit {0})
      → Ended a (Result E B)
  poison_with wrap result (conn, s, ok _) = (conn, s, result, none)
  poison_with wrap result (conn, s, err e) =
      (conn, s, err (wrap (writer_poisoned e)), some (writer_poisoned e))

  abbrev pub reconciled :
      {E B : Type 0}
      → Faults
      → (ExternalError → E)
      → Connection a × StoredState a × Result E B
      → Ended a (Result E B)
  reconciled f wrap (conn, s, result) =
      poison_with wrap result (reconcile_after_apply f conn s (is_err result))

  unfoldable pub apply_committed :
      Faults
      → Connection a
      → StoredState a
      → Commit a
      → a.Operation
      → Ended a (Result (ApplyError a.Failure) (ApplyOutcome a.Output))
  apply_committed f conn s commit op = reconciled f engine (apply_operation f conn s commit op)

  unfoldable pub advance_committed :
      Faults
      → Connection a
      → StoredState a
      → Commit a
      → Ended a (Fallible (ApplyOutcome (Unit {0})))
  advance_committed f conn s commit = reconciled f (λ e. e) (apply_advance f conn s commit)
