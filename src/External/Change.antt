-- ===== src/External/Change.antt =====
-- A request to commit changes what is stored by one entry, or not at all.
use hiqlite.Common.{◌≡◌, ◌∙◌, refl, sym, ap, subst, ◌⊎◌, inl, inr, true, none}
use hiqlite.External.Data.{
  Application, Lawful, Result, ok, is_err, Commit, StoredState, has_widths, ApplyOutcome, applied,
  engine, ExternalError,
}
use hiqlite.External.Tables.{Database, Faults}
use hiqlite.External.Apply.{Connection, Ended, apply_operation, apply_advance}
use hiqlite.External.Reconcile.{reconciled, apply_committed, advance_committed}
use hiqlite.External.Consistent.{IsConsistent}
use hiqlite.External.Recorded.{Entry, IsNext, recorded, state_behind, recorded-IsConsistent}
use hiqlite.External.Transact.{IsOperation, IsAdvance}
use hiqlite.External.Step.{IsKept, IsEntered, apply_operation-IsOutcome}
use hiqlite.External.Advanced.{apply_advance-IsAdvanced}
use hiqlite.External.Invariant.{IsBehind, reconciled-IsSettled}

-- The stored database and state are as before, or one entry further, the next one.
abbrev pub IsChange :
    {a : Application}
    → Database a
    → StoredState a
    → a.Tables
    → (Entry a → Type 0)
    → Database a
    → StoredState a
    → Type 0
IsChange {a} db s tables Q db' s' =
    ((db' ≡ db) × (s' ≡ s))
    ⊎ ((e : Entry a) × IsNext s e × Q e × (db' ≡ recorded s e tables db) × (s' ≡ state_behind s e))

-- What a request comes to: its state `s'` is the stored one, and known unless the writer is poisoned.
pub record IsCommitted {a : Application} {E T : Type 0} (db : Database a) (s : StoredState a)
    (tables : a.Tables) (Q : T → Entry a → Type 0) (x : Ended a (Result E (ApplyOutcome T)))
    : Type 0 where
  pub after : StoredState a
  pub change : IsChange db s tables (λ e. (t : T) × Q t e) x.0.database after
  pub consistent : IsConsistent x.0.database after
  pub known : x.3 ≡ none → (x.1 ≡ after) × (x.0.transaction ≡ none)
  pub acknowledged :
      (t : T)
      → x.3 ≡ none
      → x.2 ≡ ok (applied t)
      → (e : Entry a) × IsNext s e
        × Q t e
        × (x.0.database ≡ recorded s e tables db)
        × (after ≡ state_behind s e)

applied-injective :
    {E T : Type 0} {x y : T}
    → ◌≡◌ {A = Result E (ApplyOutcome T)} (ok (applied x)) (ok (applied y))
    → x ≡ y
applied-injective p = cc p

module _ {a : Application} (l : Lawful a) where
  kept-IsCommitted :
      {E T : Type 0} (f : Faults) (wrap : ExternalError → E) (conn : Connection a)
      (s : StoredState a) (tables : a.Tables) (Q : T → Entry a → Type 0)
      (x : Connection a × StoredState a × Result E (ApplyOutcome T))
      → IsConsistent conn.database s
      → conn.transaction ≡ none
      → IsKept conn s x
      → IsCommitted conn.database s tables Q (reconciled f wrap x)
  kept-IsCommitted f wrap conn s tables Q x v t k =
      let behind : IsBehind x.0 x.1 s (is_err x.2) = record {
        consistent = subst (λ db. IsConsistent db s) (sym k.database) v;
        sure = λ p. (k.state, ap Connection.transaction (k.closed p) ∙ t);
      } in
      let done = reconciled-IsSettled f wrap x.0 x.1 s x.2 behind in
      record {
        after = s;
        change = inl (done.database ∙ k.database, refl);
        consistent = subst (λ db. IsConsistent db s) (sym (done.database ∙ k.database)) v;
        known = λ p. let (same, closed, _) = done.sound p in (same, closed);
        acknowledged =
            λ y p q. absurd (k.not_applied y (let (_, _, r) = done.sound p in sym r ∙ q));
      }

  entered-IsCommitted :
      {E T : Type 0} (f : Faults) (wrap : ExternalError → E) (conn : Connection a)
      (s : StoredState a) (tables : a.Tables) (Q : T → Entry a → Type 0)
      (x : Connection a × StoredState a × Result E (ApplyOutcome T)) (e : Entry a) (answer : T)
      → IsConsistent conn.database s
      → Q answer e
      → IsEntered s conn.database e tables answer x
      → IsCommitted conn.database s tables Q (reconciled f wrap x)
  entered-IsCommitted f wrap conn s tables Q x e answer v q i =
      let there = recorded-IsConsistent l conn.database s e tables v i.next in
      let behind : IsBehind x.0 x.1 (state_behind s e) (is_err x.2) = record {
        consistent = subst (λ db. IsConsistent db (state_behind s e)) (sym i.database) there;
        sure = λ p. ((i.answered p).0, i.closed);
      } in
      let done = reconciled-IsSettled f wrap x.0 x.1 (state_behind s e) x.2 behind in
      let stored = done.database ∙ i.database in
      record {
        after = state_behind s e;
        change = inr (e, i.next, (answer, q), stored, refl);
        consistent = subst (λ db. IsConsistent db (state_behind s e)) (sym stored) there;
        known = λ p. let (same, closed, _) = done.sound p in (same, closed);
        acknowledged = λ t p r.
            let (_, _, same) = done.sound p in
            let said : x.2 ≡ ok (applied t) = sym same ∙ r in
            let its : x.2 ≡ ok (applied answer) = (i.answered (ap is_err said)).1 in
            let this : answer ≡ t = applied-injective (sym its ∙ said) in
            (e, i.next, subst (λ y. Q y e) this q, stored, refl);
      }

  -- Of `apply_committed`, with the entry of the operation.
  pub apply_committed-IsCommitted :
      (f : Faults) (conn : Connection a) (s : StoredState a) (commit : Commit a) (op : a.Operation)
      → IsConsistent conn.database s
      → conn.transaction ≡ none
      → has_widths commit ≡ true
      → IsCommitted conn.database s
          (a.perform op conn.database.tables).0
          (IsOperation commit op conn.database.tables)
          (apply_committed f conn s commit op)
  unfolding apply_committed
  apply_committed-IsCommitted f conn s commit op v t w =
      let Q = IsOperation commit op conn.database.tables in
      let tables = (a.perform op conn.database.tables).0 in
      let x = apply_operation f conn s commit op in
      elim (apply_operation-IsOutcome l f conn s commit op v w) [
        | inl k ↦ kept-IsCommitted f engine conn s tables Q x v t k
        | inr (output, e, its, i) ↦ entered-IsCommitted f engine conn s tables Q x e output v its i
      ]

  -- Of `advance_committed`, with the entry that it records and the tables as they are.
  pub advance_committed-IsCommitted :
      (f : Faults) (conn : Connection a) (s : StoredState a) (commit : Commit a)
      → IsConsistent conn.database s
      → conn.transaction ≡ none
      → has_widths commit ≡ true
      → IsCommitted conn.database s conn.database.tables
          (λ _ e. IsAdvance commit e)
          (advance_committed f conn s commit)
  unfolding advance_committed
  advance_committed-IsCommitted f conn s commit v t w =
      let x = apply_advance f conn s commit in
      elim (apply_advance-IsAdvanced l f conn s commit v w) [
        | inl k ↦
            kept-IsCommitted f (λ e. e) conn s conn.database.tables (λ _ e. IsAdvance commit e) x v
              t k
        | inr (e, its, i) ↦
            entered-IsCommitted f (λ e. e) conn s conn.database.tables (λ _ e. IsAdvance commit e) x
              e tt v its i
      ]
