-- ===== src/External/Step.antt =====
-- What one request to commit does to the database and to the state of external_state_machine.rs:
-- nothing, or all of it.
use hiqlite.Common.{
  ℕ, ◌≡◌, ◌∙◌, refl, sym, ap, ◌⊎◌, inl, inr, true, false, Option, none, some, List, le→leb, eq_refl,
  str_eq, if_ind,
}
use hiqlite.External.Data.{
  Application, Lawful, Result, Fallible, ok, err, is_err, operation, Commit, StoredState,
  has_widths, ApplyOutcome, applied, ApplyError, engine,
}
use hiqlite.External.Tables.{Database, Faults, CommitCall, committed, rolled_back, took_effect}
use hiqlite.External.Check.{check_receipt}
use hiqlite.External.Apply.{
  Connection, CommitClass, new, retry, classify_commit, transact, conclude, operation_committed,
  recover, apply_class, apply_operation,
}
use hiqlite.External.Consistent.{IsConsistent, next_sequence}
use hiqlite.External.Recorded.{Entry, IsNext, recorded, state_behind}
use hiqlite.External.Transact.{IsOperation, IsPerformed, classify_commit-new, transact-ok}

-- Nothing is changed, and no entry is acknowledged as new.
pub record IsKept {a : Application} {E T : Type 0} (conn : Connection a) (s : StoredState a)
    (x : Connection a × StoredState a × Result E (ApplyOutcome T)) : Type 0 where
  pub database : x.0.database ≡ conn.database
  pub state : x.1 ≡ s
  pub closed : is_err x.2 ≡ false → x.0 ≡ conn
  pub not_applied : (t : T) → ¬ (x.2 ≡ ok (applied t))

-- An entry is recorded; it is acknowledged, unless the COMMIT reported an error all the same.
pub record IsEntered {a : Application} {E T : Type 0} (s : StoredState a) (db : Database a)
    (e : Entry a) (tables : a.Tables) (answer : T)
    (x : Connection a × StoredState a × Result E (ApplyOutcome T)) : Type 0 where
  pub next : IsNext s e
  pub database : x.0.database ≡ recorded s e tables db
  pub closed : x.0.transaction ≡ none
  pub answered : is_err x.2 ≡ false → (x.1 ≡ state_behind s e) × (x.2 ≡ ok (applied answer))

module _ {a : Application} (l : Lawful a) where
  open l use {decode_receipt-encode_receipt, deserialize_exact-serialize, serialize_unit-empty}

  IsOperation-IsNext :
      (s : StoredState a) (commit : Commit a) (op : a.Operation) (db db' : Database a)
      (output : a.Output) (digest : List ℕ)
      → IsConsistent db s
      → has_widths commit ≡ true
      → commit.sequence ≡ next_sequence s
      → (p : IsPerformed s commit op db output digest db') → IsNext s p.entry
  unfolding check_receipt
  IsOperation-IsNext s commit op db db' output digest v w q p =
      let e = p.entry in
      let same_codec : str_eq e.codec s.receipt_codec ≡ true =
        cc (v.codec, p.its.its_codec, eq_refl e.codec) in
      let decoded = decode_receipt-encode_receipt output e.receipt p.its.encoded in
      record {
        next = ap Commit.sequence p.its.its_commit ∙ q;
        widths = ap has_widths p.its.its_commit ∙ w;
        decoded =
            deserialize_exact-serialize commit.coordinate e.coordinate p.serialized
            ∙ ap (λ c. some (Commit.coordinate c)) (sym p.its.its_commit);
        accepted = rw (p.its.its_kind, same_codec, le→leb _ _ p.size, decoded) refl;
      }

  module _ (f : Faults) (conn : Connection a) (s : StoredState a) (commit : Commit a)
      (op : a.Operation) where
    abbrev Outcome : Type 0
    Outcome = Connection a × StoredState a × Result (ApplyError a.Failure) (ApplyOutcome a.Output)

    -- Nothing, or the entry of the operation with its output.
    abbrev pub IsOutcome : Outcome → Type 0
    IsOutcome x =
        IsKept conn s x
        ⊎ ((output : a.Output) × (e : Entry a) × IsOperation commit op conn.database.tables output e
            × IsEntered s conn.database e (a.perform op conn.database.tables).0 output x)

    kept-err :
        (inside : Connection a) (e : ApplyError a.Failure)
        → inside.database ≡ conn.database
        → IsOutcome (inside, s, err e)
    kept-err inside e h = inl (record {
      database = h;
      state = refl;
      closed = λ x. absurd (cc x);
      not_applied = λ t x. cc x;
    })

    concluded :
        (x : Database a × Result (ApplyError a.Failure) (a.Output × List ℕ))
        → IsConsistent conn.database s
        → has_widths commit ≡ true
        → commit.sequence ≡ next_sequence s
        → transact f s commit op conn.database ≡ x
        → (c : CommitCall)
        → IsOutcome (
            operation_committed s commit
              (conclude (record f { commit = c }) engine conn.database x))
    concluded (inside, err e) v w q t c = kept-err _ e refl
    concluded (inside, ok (output, digest)) v w q t rolled_back = kept-err _ _ refl
    concluded (inside, ok (output, digest)) v w q t committed =
        let p = transact-ok f s commit op conn.database output digest (ap (λ x. x.1) t) in
        inr (
          output,
          p.entry,
          p.its,
          record {
            next = IsOperation-IsNext s commit op conn.database _ output digest v w q p;
            database = sym (ap (λ x. x.0) t) ∙ p.result;
            closed = refl;
            answered = λ _. (cc (p.its.its_commit, p.its.its_kind, p.digested), refl);
          },
        )
    concluded (inside, ok (output, digest)) v w q t took_effect =
        let p = transact-ok f s commit op conn.database output digest (ap (λ x. x.1) t) in
        inr (
          output,
          p.entry,
          p.its,
          record {
            next = IsOperation-IsNext s commit op conn.database _ output digest v w q p;
            database = sym (ap (λ x. x.0) t) ∙ p.result;
            closed = refl;
            answered = λ x. absurd (cc x);
          },
        )

    apply_class-IsOutcome :
        (c : Fallible (CommitClass a))
        → IsConsistent conn.database s
        → has_widths commit ≡ true
        → classify_commit f conn.database s commit operation a.receipt_codec ≡ c
        → IsOutcome (apply_class f conn s commit op c)
    apply_class-IsOutcome (err e) v w c = kept-err conn (engine e) refl
    apply_class-IsOutcome (ok (retry r)) v w c = recovered-kept (a.decode_receipt r.receipt)
      where
        recovered-kept : (o : Option a.Output) → IsOutcome (conn, s, recover o)
        recovered-kept none = kept-err conn _ refl
        recovered-kept (some t) = inl (record {
          database = refl;
          state = refl;
          closed = λ _. refl;
          not_applied = λ t x. cc x;
        })
    apply_class-IsOutcome (ok new) v w c =
        if_ind IsOutcome f.begin (λ _. kept-err conn _ refl)
          (λ _.
            concluded _ v w
              (classify_commit-new f conn.database s commit operation a.receipt_codec c) refl
              f.commit)

    pub apply_operation-IsOutcome :
        IsConsistent conn.database s
        → has_widths commit ≡ true
        → IsOutcome (apply_operation f conn s commit op)
    unfolding apply_operation
    apply_operation-IsOutcome v w = apply_class-IsOutcome _ v w refl
