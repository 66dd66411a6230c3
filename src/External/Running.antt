-- ===== src/External/Running.antt =====
-- The writer of external_state_machine.rs over a run: what is stored is valid, or the file is marked.
use hiqlite.Common.{
  ◌≡◌, refl, sym, subst, ◌⊎◌, inl, inr, Bool, true, false, none, some, arith, String,
}
use hiqlite.External.Data.{
  Application, Result, Fallible, ok, err, StoredState, has_widths, ApplyOutcome, dirty_poisoned,
}
use hiqlite.External.Tables.{Database, Faults, load_state, load_row, MetadataRow}
use hiqlite.External.Statements.{load_receipt, floor_at}
use hiqlite.External.Check.{
  Options, validate_configuration, validate_receipts, check_suffix, check_sequences, check_newest,
  check_receipt,
}
use hiqlite.External.Apply.{Ended, update_state_after_commit}
use hiqlite.External.Snapshot.{persist_snapshot_id}
use hiqlite.External.Writer.{
  Writer, Request, apply, advance_over, state, snapshot, restore, shutdown, Reply, ended,
  take_snapshot, published,
}
use hiqlite.External.Consistent.{IsConsistent, loaded-row}
use hiqlite.External.Recorded.{Entry}
use hiqlite.External.Change.{IsChange, IsCommitted}

-- What is stored is a valid state, and the state that is kept, unless the writer is poisoned.
pub record IsStored {a : Application} (options : Options) (w : Writer a) : Type 0 where
  pub after : StoredState a
  pub configured : validate_configuration after options a.receipt_codec ≡ ok tt
  pub consistent : IsConsistent w.connection.database after
  pub known : w.poisoned ≡ none → (w.stored ≡ after) × (w.connection.transaction ≡ none)

pub record IsSound {a : Application} (options : Options) (w : Writer a) : Type 0 where
  pub stored : IsStored options w ⊎ (w.dirty ≡ some dirty_poisoned)
  pub poison : w.stopped ≡ false → (w.poisoned ≡ none) × IsStored options w

-- The widths of the request's commit.
abbrev pub is_typed : {a : Application} → Request a → Bool
is_typed (apply f commit op) = has_widths commit
is_typed (advance_over f commit) = has_widths commit
is_typed state = true
is_typed (snapshot id updated backup) = true
is_typed (restore file e calls) = true
is_typed shutdown = true

module _ {a : Application} where
  -- The snapshot's id changes nothing else.
  load_row-snapshot_id :
      (id : String) (row : MetadataRow) (s : StoredState a)
      → load_row a row ≡ ok s
      → load_row a (record row { snapshot_id = some id }) ≡ ok (record s { snapshot_id = some id })
  unfolding load_row
  load_row-snapshot_id id row s h = ground (arith, h)

  pub persist_snapshot_id-IsConsistent :
      (id : String) (db : Database a) (s : StoredState a)
      → IsConsistent db s
      → IsConsistent (persist_snapshot_id id db) (record s { snapshot_id = some id })
  unfolding persist_snapshot_id load_state
  persist_snapshot_id-IsConsistent id db s v =
      let (row, at_row, loads) = loaded-row db s v.loaded in
      record {
        loaded = rw at_row (load_row-snapshot_id id row s loads);
        validated =
            unfold validate_receipts check_suffix check_sequences check_newest check_receipt
              load_receipt floor_at in
            v.validated;
        codec = v.codec;
      }

  -- A commit does not touch the configuration.
  change-configured :
      (options : Options) (db db' : Database a) (s s' : StoredState a) (tables : a.Tables)
      (P : Entry a → Type 0)
      → IsChange db s tables P db' s'
      → validate_configuration s options a.receipt_codec ≡ ok tt
      → validate_configuration s' options a.receipt_codec ≡ ok tt
  unfolding validate_configuration update_state_after_commit
  change-configured options db db' s s' tables P (inl (_, same)) h =
      subst (λ z. validate_configuration z options a.receipt_codec ≡ ok tt) (sym same) h
  change-configured options db db' s s' tables P (inr (e, _, _, _, same)) h =
      subst (λ z. validate_configuration z options a.receipt_codec ≡ ok tt) (sym same) h

module _ {a : Application} (options : Options) where
  -- A request to commit.
  pub ended-IsSound :
      {E T : Type 0} (f : Faults) (wrap : Result E (ApplyOutcome T) → Reply a) (w : Writer a)
      (x : Ended a (Result E (ApplyOutcome T))) (s : StoredState a) (tables : a.Tables)
      (Q : T → Entry a → Type 0)
      → w.poisoned ≡ none
      → validate_configuration s options a.receipt_codec ≡ ok tt
      → IsCommitted w.connection.database s tables Q x
      → IsSound options (ended f wrap w x).0
  ended-IsSound f wrap w (conn, s', reply, none) s tables Q p k c =
      let here : IsStored options (record w { connection = conn; stored = s' }) = record {
        after = c.after;
        configured =
            change-configured options w.connection.database conn.database s c.after tables _
              c.change k;
        consistent = c.consistent;
        known = λ _. c.known refl;
      } in
      record { stored = inl here; poison = λ _. (p, here) }
  ended-IsSound f wrap w (conn, s', reply, some e) s tables Q p k c = record {
    stored = inl (record {
      after = c.after;
      configured =
          change-configured options w.connection.database conn.database s c.after tables _ c.change
            k;
      consistent = c.consistent;
      known = λ q. absurd (cc q);
    });
    poison = λ q. absurd (cc q);
  }

  pub take_snapshot-IsSound :
      (id : String) (updated backup : Fallible (Unit {0})) (w : Writer a)
      → w.poisoned ≡ none
      → IsStored options w
      → IsSound options (take_snapshot id updated backup w).0
  unfolding take_snapshot
  take_snapshot-IsSound id (err e) backup w p v = record { stored = inl v; poison = λ _. (p, v) }
  take_snapshot-IsSound id (ok _) backup w p v = of backup
    where
      here : IsStored options (record w {
        connection = record (w.connection) {
          database = persist_snapshot_id id w.connection.database;
        };
        stored = record (w.stored) { snapshot_id = some id };
      })
      here = record {
        after = record (w.stored) { snapshot_id = some id };
        configured =
            unfold validate_configuration in
            subst (λ s. validate_configuration s options a.receipt_codec ≡ ok tt)
              (sym (v.known p).0) v.configured;
        consistent =
            persist_snapshot_id-IsConsistent id w.connection.database w.stored
              (subst (λ s. IsConsistent w.connection.database s) (sym (v.known p).0) v.consistent);
        known = λ _. (refl, (v.known p).1);
      }

      of :
          (b : Fallible (Unit {0}))
          → IsSound options
              (published
                (record w {
                  connection = record (w.connection) {
                    database = persist_snapshot_id id w.connection.database;
                  };
                  stored = record (w.stored) { snapshot_id = some id };
                })
                b).0
      of (ok _) = record { stored = inl here; poison = λ _. (p, here) }
      of (err e) = record { stored = inl here; poison = λ _. (p, here) }
