-- ===== src/External/Moves.antt =====
-- What one request does to the stored database of external_state_machine.rs.
use hiqlite.Common.{
  ℕ, zero, suc, ◌+◌, ◌≡◌, ◌∙◌, refl, sym, ap, ◌⊎◌, inl, inr, Bool, true, false, none, some, List,
  [], ◌∷◌, String, ltb, if◌then◌else◌,
}
use hiqlite.External.Data.{Application, Fallible, ok, err, StoredState}
use hiqlite.External.Tables.{Database, Faults, load_state}
use hiqlite.External.Statements.{floor_at, insert_row, delete_below}
use hiqlite.External.Apply.{Ended, update_state_after_commit}
use hiqlite.External.Snapshot.{persist_snapshot_id}
use hiqlite.External.Writer.{
  Writer, Request, apply, advance_over, restore, Reply, ended, take_snapshot, published, handle,
}
use hiqlite.External.Consistent.{IsConsistent, next_sequence}
use hiqlite.External.Recorded.{Entry, row_of, state_behind}
use hiqlite.External.Change.{IsChange}
use hiqlite.External.Running.{persist_snapshot_id-IsConsistent}

-- The sequence that the stored checkpoint awaits next.
unfoldable pub awaited : {a : Application} → Database a → ℕ
awaited {a} db = of (load_state a db)
  where
    of : Fallible (StoredState a) → ℕ
    of (ok s) = next_sequence s
    of (err e) = 0

-- What a request means for the tables, once it is accepted.
abbrev pub effect : {a : Application} → Request a → a.Tables → a.Tables
effect {a} (apply f commit op) tables = (a.perform op tables).0
effect _ tables = tables

abbrev pub replay : {a : Application} → List (Request a) → a.Tables → a.Tables
replay [] tables = tables
replay (r ∷ rs) tables = replay rs (effect r tables)

abbrev pub sequence_of : {a : Application} → Request a → ℕ
sequence_of (apply f commit op) = commit.sequence
sequence_of (advance_over f commit) = commit.sequence
sequence_of _ = 0

-- A restore brings other tables.
abbrev pub is_restore : {a : Application} → Request a → Bool
is_restore (restore file e calls) = true
is_restore _ = false

-- The requests of a run that moved the stored checkpoint.
unfoldable pub accepted : {a : Application} → Writer a → List (Request a) → List (Request a)
accepted w [] = []
accepted w (r ∷ rs) =
    let w' = (handle w r).0 in
    let rest = accepted w' rs in
    if w.stopped
    then []
    else if ltb (awaited w.connection.database) (awaited w'.connection.database)
    then r ∷ rest
    else rest

abbrev pub up_from : ℕ → ℕ → List ℕ
up_from n zero = []
up_from n (suc k) = n ∷ up_from (n + 1) k

module _ {a : Application} where
  pub awaited-IsConsistent :
      (db : Database a) (s : StoredState a) → IsConsistent db s → awaited db ≡ next_sequence s
  unfolding awaited
  awaited-IsConsistent db s v = rw v.loaded refl

  -- A step of the stored database: none, or the entry of the request.
  pub record IsEntry (w : Writer a) (r : Request a) (db' : Database a) (e : Entry a) : Type 0 where
    pub asked : sequence_of r ≡ e.commit.sequence
    pub next : e.commit.sequence ≡ awaited w.connection.database
    pub tables : db'.tables ≡ effect r w.connection.database.tables
    pub receipts :
        db'.receipts
        ≡ delete_below
            (floor_at w.stored e.commit.sequence)
            (insert_row (row_of e) w.connection.database.receipts)
    pub behind : awaited db' ≡ awaited w.connection.database + 1

  pub record IsIdle (w : Writer a) (db' : Database a) : Type 0 where
    pub tables : db'.tables ≡ w.connection.database.tables
    pub receipts : db'.receipts ≡ w.connection.database.receipts
    pub awaits : awaited db' ≡ awaited w.connection.database

  pub entry-next :
      (s : StoredState a) (e : Entry a) → next_sequence (state_behind s e) ≡ e.commit.sequence + 1
  unfolding next_sequence update_state_after_commit
  entry-next s e = refl

  pub change-step :
      {Q : Entry a → Type 0} (w : Writer a) (r : Request a) (db' : Database a) (s' : StoredState a)
      → IsConsistent w.connection.database w.stored
      → IsConsistent db' s'
      → ((e : Entry a) → Q e → sequence_of r ≡ e.commit.sequence)
      → IsChange w.connection.database w.stored (effect r w.connection.database.tables) Q db' s'
      → IsIdle w db' ⊎ ((e : Entry a) × IsEntry w r db' e)
  change-step w r db' s' v v' asked (inl (same, _)) = inl (record {
    tables = ap Database.tables same;
    receipts = ap Database.receipts same;
    awaits = ap awaited same;
  })
  change-step w r db' s' v v' asked (inr (e, n, q, d, t)) = inr (
    e,
    record {
      asked = asked e q;
      next = n.next ∙ sym (awaited-IsConsistent w.connection.database w.stored v);
      tables = ap Database.tables d;
      receipts = ap Database.receipts d;
      behind =
          awaited-IsConsistent db' s' v'
          ∙ ap next_sequence t
          ∙ entry-next w.stored e
          ∙ ap (λ k. k + 1) (n.next ∙ sym (awaited-IsConsistent w.connection.database w.stored v));
    },
  )

  pub ended-database :
      {R : Type 0} (f : Faults) (wrap : R → Reply a) (w : Writer a) (x : Ended a R)
      → (ended f wrap w x).0.connection.database ≡ x.0.database
  ended-database f wrap w (conn, s, reply, none) = refl
  ended-database f wrap w (conn, s, reply, some e) = refl

  published-database :
      (w : Writer a) (r : Fallible (Unit {0}))
      → (published w r).0.connection.database ≡ w.connection.database
  published-database w (ok _) = refl
  published-database w (err e) = refl

  pub idle : (w : Writer a) (db : Database a) → db ≡ w.connection.database → IsIdle w db
  idle w db e = record {
    tables = ap Database.tables e;
    receipts = ap Database.receipts e;
    awaits = ap awaited e;
  }

  persist_snapshot_id-awaited :
      (id : String) (db : Database a) (s : StoredState a)
      → IsConsistent db s
      → awaited (persist_snapshot_id id db) ≡ awaited db
  unfolding next_sequence
  persist_snapshot_id-awaited id db s v =
      awaited-IsConsistent _ _ (persist_snapshot_id-IsConsistent id db s v)
      ∙ sym (awaited-IsConsistent db s v)

  pub take_snapshot-IsIdle :
      (id : String) (updated backup : Fallible (Unit {0})) (w : Writer a)
      → IsConsistent w.connection.database w.stored
      → IsIdle w (take_snapshot id updated backup w).0.connection.database
  unfolding take_snapshot persist_snapshot_id
  take_snapshot-IsIdle id (err e) backup w v = idle w _ refl
  take_snapshot-IsIdle id (ok _) backup w v =
      let there =
        published-database
          (record w {
            connection = record (w.connection) {
              database = persist_snapshot_id id w.connection.database;
            };
            stored = record (w.stored) { snapshot_id = some id };
          })
          backup in
      record {
        tables = ap Database.tables there;
        receipts = ap Database.receipts there;
        awaits = ap awaited there ∙ persist_snapshot_id-awaited id w.connection.database w.stored v;
      }
