-- ===== src/External/Advanced.antt =====
-- What `advance_committed` of external_state_machine.rs does to the database and to the state: nothing,
-- or the entry of an advance.
use hiqlite.Common.{
  ℕ, ◌≡◌, ◌∙◌, refl, sym, ap, ◌⊎◌, inl, inr, true, Option, none, some, List, arith, length, le→leb,
  if_ind,
}
use hiqlite.Wal.Header.{bytes_eq_refl}
use hiqlite.External.Data.{
  Application, Lawful, Fallible, ok, err, advance, Commit, StoredState, has_widths, ApplyOutcome,
  ExternalError, advance_receipt_codec,
}
use hiqlite.External.Tables.{Database, Faults, CommitCall, committed, rolled_back, took_effect}
use hiqlite.External.Statements.{persist_new_commit}
use hiqlite.External.Check.{check_receipt}
use hiqlite.External.Apply.{
  Connection, CommitClass, new, retry, classify_commit, conclude, advance_committed_state,
  advance_class, advance_with, apply_advance,
}
use hiqlite.External.Consistent.{IsConsistent, next_sequence, bounds}
use hiqlite.External.Recorded.{Entry, IsNext, recorded}
use hiqlite.External.Transact.{IsAdvance, classify_commit-new, persist_new_commit-ok}
use hiqlite.External.Step.{IsEntered, IsKept}

module _ {a : Application} (l : Lawful a) where
  open l use {deserialize_exact-serialize, serialize_unit-empty}

  module _ (f : Faults) (conn : Connection a) (s : StoredState a) (commit : Commit a) where
    abbrev pub IsAdvanced :
        Connection a × StoredState a × Fallible (ApplyOutcome (Unit {0})) → Type 0
    IsAdvanced x =
        IsKept conn s x
        ⊎ ((e : Entry a) × IsAdvance commit e
            × IsEntered s conn.database e conn.database.tables tt x)

    kept-error :
        (inside : Connection a) (e : ExternalError)
        → inside.database ≡ conn.database
        → IsAdvanced (inside, s, err e)
    kept-error inside e h = inl (record {
      database = h;
      state = refl;
      closed = λ x. absurd (cc x);
      not_applied = λ t x. cc x;
    })

    advance-entry :
        (receipt : List ℕ) (inside : Database a)
        → IsConsistent conn.database s
        → has_widths commit ≡ true
        → commit.sequence ≡ next_sequence s
        → a.serialize_unit ≡ some receipt
        → persist_new_commit f s commit advance advance_receipt_codec receipt
            (a.sha256 receipt)
            conn.database
          ≡ (inside, ok tt)
        → (e : Entry a) × IsNext s e
          × IsAdvance commit e
          × (inside ≡ recorded s e conn.database.tables conn.database)
    unfolding check_receipt
    advance-entry receipt inside v w q u t =
        let (coordinate, c, d) =
          persist_new_commit-ok f s commit advance advance_receipt_codec receipt conn.database
            (ap (λ x. x.1) t) in
        let (_, _, _, m) = bounds conn.database s v.loaded in
        let e : Entry a = record {
          commit = commit;
          kind = advance;
          codec = advance_receipt_codec;
          receipt = receipt;
          coordinate = coordinate;
        } in
        let n : IsNext s e = record {
          next = q;
          widths = w;
          decoded = deserialize_exact-serialize commit.coordinate coordinate c;
          accepted =
              rw
                (
                  le→leb (length receipt) s.max_receipt_bytes
                      (omega (arith, m, serialize_unit-empty receipt u)),
                  u,
                  bytes_eq_refl receipt,
                )
                refl;
        } in
        (
          e,
          n,
          record { its_commit = refl; its_kind = refl; its_codec = refl; encoded = u },
          sym (ap (λ x. x.0) t) ∙ d,
        )

    advanced :
        (receipt : List ℕ) (x : Database a × Fallible (Unit {0}))
        → IsConsistent conn.database s
        → has_widths commit ≡ true
        → commit.sequence ≡ next_sequence s
        → a.serialize_unit ≡ some receipt
        → persist_new_commit f s commit advance advance_receipt_codec receipt
            (a.sha256 receipt)
            conn.database
          ≡ x
        → (c : CommitCall)
        → IsAdvanced (
            advance_committed_state s commit
              (a.sha256 receipt)
              (conclude (record f { commit = c }) (λ e. e) conn.database x))
    advanced receipt (inside, err e) v w q u t c = kept-error _ e refl
    advanced receipt (inside, ok _) v w q u t rolled_back = kept-error _ _ refl
    advanced receipt (inside, ok _) v w q u t committed =
        let (e, n, i, d) = advance-entry receipt inside v w q u t in
        inr (
          e,
          i,
          record {
            next = n;
            database = d;
            closed = refl;
            answered = λ _. (cc (i.its_commit, i.its_kind, i.encoded, u), refl);
          },
        )
    advanced receipt (inside, ok _) v w q u t took_effect =
        let (e, n, i, d) = advance-entry receipt inside v w q u t in
        inr (e, i, record { next = n; database = d; closed = refl; answered = λ x. absurd (cc x) })

    advance_with-IsAdvanced :
        (o : Option (List ℕ))
        → IsConsistent conn.database s
        → has_widths commit ≡ true
        → commit.sequence ≡ next_sequence s
        → a.serialize_unit ≡ o
        → IsAdvanced (advance_with f conn s commit o)
    advance_with-IsAdvanced none v w q u = kept-error conn _ refl
    advance_with-IsAdvanced (some receipt) v w q u =
        if_ind IsAdvanced f.begin (λ _. kept-error conn _ refl)
          (λ _. advanced receipt _ v w q u refl f.commit)

    advance_class-IsAdvanced :
        (c : Fallible (CommitClass a))
        → IsConsistent conn.database s
        → has_widths commit ≡ true
        → classify_commit f conn.database s commit advance advance_receipt_codec ≡ c
        → IsAdvanced (advance_class f conn s commit c)
    advance_class-IsAdvanced (err e) v w c = kept-error conn e refl
    advance_class-IsAdvanced (ok (retry r)) v w c =
        inl
          (record { database = refl; state = refl; closed = λ _. refl; not_applied = λ t x. cc x })
    advance_class-IsAdvanced (ok new) v w c =
        advance_with-IsAdvanced a.serialize_unit v w
          (classify_commit-new f conn.database s commit advance advance_receipt_codec c) refl

    pub apply_advance-IsAdvanced :
        IsConsistent conn.database s
        → has_widths commit ≡ true
        → IsAdvanced (apply_advance f conn s commit)
    unfolding apply_advance
    apply_advance-IsAdvanced v w = advance_class-IsAdvanced _ v w refl
