-- ===== src/External/Transact.antt =====
-- What a transaction of external_state_machine.rs comes to that reaches its COMMIT.
use hiqlite.Common.{
  ℕ, ◌≤◌, ◌≡◌, ◌∙◌, refl, sym, ap, ◌⊎◌, inl, inr, Option, none, some, List, arith, length, ltb,
  String, if_ind,
}
use hiqlite.External.Data.{
  Application, Result, ok, err, EntryKind, operation, advance, Commit, Applied, StoredState,
  ApplyError, engine, advance_receipt_codec, Fallible, checked_next,
}
use hiqlite.External.Tables.{Database, Faults}
use hiqlite.External.Statements.{persist_row, persist_new_commit}
use hiqlite.External.Apply.{
  transact, operation_result, store_receipt, persisted, new, classify_at, classify_commit,
  classify_retry, classify_next,
}
use hiqlite.External.Consistent.{next_sequence, next_of}
use hiqlite.External.Recorded.{Entry, recorded}

-- The entry of an operation that succeeded on the tables.
pub record IsOperation {a : Application} (commit : Commit a) (op : a.Operation) (tables : a.Tables)
    (output : a.Output) (e : Entry a) : Type 0 where
  pub its_commit : e.commit ≡ commit
  pub its_kind : e.kind ≡ operation
  pub its_codec : e.codec ≡ a.receipt_codec
  pub performed : (a.perform op tables).1 ≡ inr output
  pub encoded : a.encode_receipt output ≡ some e.receipt

pub record IsAdvance {a : Application} (commit : Commit a) (e : Entry a) : Type 0 where
  pub its_commit : e.commit ≡ commit
  pub its_kind : e.kind ≡ advance
  pub its_codec : e.codec ≡ advance_receipt_codec
  pub encoded : a.serialize_unit ≡ some e.receipt

-- A transaction on `db` that has made `db'` of it, ready for its COMMIT.
pub record IsPerformed {a : Application} (s : StoredState a) (commit : Commit a) (op : a.Operation)
    (db : Database a) (output : a.Output) (digest : List ℕ) (db' : Database a) : Type 0 where
  pub entry : Entry a
  pub its : IsOperation commit op db.tables output entry
  pub serialized : a.serialize commit.coordinate ≡ some entry.coordinate
  pub size : length entry.receipt ≤ s.max_receipt_bytes
  pub digested : digest ≡ a.sha256 entry.receipt
  pub result : db' ≡ recorded s entry (a.perform op db.tables).0 db

module _ {a : Application} where
  pub persist_new_commit-ok :
      (f : Faults) (s : StoredState a) (commit : Commit a) (kind : EntryKind) (codec : String)
      (receipt : List ℕ) (db : Database a)
      → let (db', result) =
          persist_new_commit f s commit kind codec receipt (a.sha256 receipt) db in
        result ≡ ok tt
        → (coordinate : List ℕ) × (a.serialize commit.coordinate ≡ some coordinate)
          × (db'
              ≡ recorded s
                  (record {
                    commit = commit;
                    kind = kind;
                    codec = codec;
                    receipt = receipt;
                    coordinate = coordinate;
                  })
                  db.tables
                  db)
  unfolding persist_new_commit
  persist_new_commit-ok f s commit kind codec receipt db = of (a.serialize commit.coordinate) refl
    where
      of :
          (o : Option (List ℕ))
          → a.serialize commit.coordinate ≡ o
          → let (db', result) = persist_row f s commit kind codec receipt (a.sha256 receipt) o db in
            result ≡ ok tt
            → (coordinate : List ℕ) × (a.serialize commit.coordinate ≡ some coordinate)
              × (db'
                  ≡ recorded s
                      (record {
                        commit = commit;
                        kind = kind;
                        codec = codec;
                        receipt = receipt;
                        coordinate = coordinate;
                      })
                      db.tables
                      db)
      of none e h = absurd cc
      of (some coordinate) e h = (coordinate, e, ground (arith, h))

  pub classify_commit-new :
      (f : Faults) (db : Database a) (s : StoredState a) (commit : Commit a) (kind : EntryKind)
      (codec : String)
      → classify_commit f db s commit kind codec ≡ ok new
      → commit.sequence ≡ next_sequence s
  unfolding classify_commit classify_next classify_retry next_sequence checked_next
  classify_commit-new f db s commit kind codec h = of s.last_applied h
    where
      of :
          (o : Option (Applied a))
          → classify_at f db s o commit kind codec ≡ ok new
          → commit.sequence ≡ next_of s o
      of none h = ground (arith, h)
      of (some last) h = ground (arith, h)

  module _ (f : Faults) (s : StoredState a) (commit : Commit a) (op : a.Operation)
      (db : Database a) where
    persisted-ok :
        (tables : a.Tables) (out output : a.Output) (receipt digest : List ℕ)
        (r : Database a × Fallible (Unit {0}))
        → a.perform op db.tables ≡ (tables, inr out)
        → a.encode_receipt out ≡ some receipt
        → length receipt ≤ s.max_receipt_bytes
        → persist_new_commit f s commit operation a.receipt_codec receipt
            (a.sha256 receipt)
            (record db { tables = tables })
          ≡ r
        → let (db', result) =
            persisted {a = a} {E = ApplyError a.Failure} {B = a.Output × List ℕ} engine
              (out, a.sha256 receipt)
              r in
          result ≡ ok (output, digest) → IsPerformed s commit op db output digest db'
    persisted-ok tables out output receipt digest (db', err x) p e size made h = absurd cc
    persisted-ok tables out output receipt digest (db', ok _) p e size made h =
        let (coordinate, c, d) =
          persist_new_commit-ok f s commit operation a.receipt_codec receipt
            (record db { tables = tables }) (cc made) in
        let this : out ≡ output = cc h in
        let entry : Entry a = record {
          commit = commit;
          kind = operation;
          codec = a.receipt_codec;
          receipt = receipt;
          coordinate = coordinate;
        } in
        record {
          entry = entry;
          its = record {
            its_commit = refl;
            its_kind = refl;
            its_codec = refl;
            performed = cc (p, this);
            encoded = cc (e, this);
          };
          serialized = c;
          size = size;
          digested = cc h;
          result =
              sym (ap (λ x. x.0) made)
              ∙ d
              ∙ ap (λ t. recorded s entry t db) (sym (ap (λ x. x.0) p));
        }

    -- A transaction that ends in this answer.
    abbrev IsDone :
        a.Output → List ℕ → Database a × Result (ApplyError a.Failure) (a.Output × List ℕ) → Type 0
    IsDone output digest x =
        x.1 ≡ ok (output, digest) → IsPerformed s commit op db output digest x.0

    store_receipt-ok :
        (tables : a.Tables) (out output : a.Output) (o : Option (List ℕ)) (digest : List ℕ)
        → a.perform op db.tables ≡ (tables, inr out)
        → a.encode_receipt out ≡ o
        → IsDone output digest (store_receipt f s commit out o (record db { tables = tables }))
    store_receipt-ok tables out output none digest p e = λ h. absurd (cc h)
    store_receipt-ok tables out output (some receipt) digest p e =
        if_ind (IsDone output digest) (ltb s.max_receipt_bytes (length receipt))
          (λ big h. absurd (cc h))
          (λ fits. persisted-ok tables out output receipt digest _ p e (ground (arith, fits)) refl)

    operation_result-ok :
        (tables : a.Tables) (output : a.Output) (digest : List ℕ) (result : a.Failure ⊎ a.Output)
        → a.perform op db.tables ≡ (tables, result)
        → IsDone output digest (operation_result f s commit result (record db { tables = tables }))
    operation_result-ok tables output digest (inl failure) p = λ h. absurd (cc h)
    operation_result-ok tables output digest (inr out) p =
        store_receipt-ok tables out output (a.encode_receipt out) digest p refl

    -- Of an operation that reaches its COMMIT.
    pub transact-ok :
        (output : a.Output) (digest : List ℕ) → IsDone output digest (transact f s commit op db)
    unfolding transact
    transact-ok output digest =
        if_ind (IsDone output digest) f.authorize (λ _ h. absurd (cc h))
          (λ _.
            if_ind (IsDone output digest) f.unauthorize (λ _ h. absurd (cc h))
              (λ _.
                operation_result-ok (a.perform op db.tables).0 output digest
                  (a.perform op db.tables).1 refl))
