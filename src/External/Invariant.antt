-- ===== src/External/Invariant.antt =====
-- The writer of external_state_machine.rs keeps what it has stored valid, or marks it.
use hiqlite.Common.{
  ◌≡◌, refl, sym, subst, ◌⊎◌, inl, inr, Bool, Bool-cases, true, false, none, arith,
}
use hiqlite.External.Data.{
  Application, Result, Fallible, ok, err, is_err, StoredState, ApplyOutcome, ExternalError, sqlite,
}
use hiqlite.External.Tables.{Database, Faults}
use hiqlite.External.Apply.{Connection, Ended}
use hiqlite.External.Reconcile.{
  end_transaction, reload, reloaded, reconcile_state, reconciled, poison_with,
  reconcile_after_apply,
}
use hiqlite.External.Consistent.{IsConsistent}

module _ {a : Application} where
  -- A connection behind a request whose database holds the state `s`, which is known unless the
  -- request failed.
  pub record IsBehind (conn : Connection a) (known s : StoredState a) (is_failed : Bool)
      : Type 0 where
    pub consistent : IsConsistent conn.database s
    pub sure : is_failed ≡ false → (known ≡ s) × (conn.transaction ≡ none)

  -- The request in full: what is stored is what is kept, unless the writer is poisoned.
  pub record IsSettled {R : Type 0} (db : Database a) (s : StoredState a) (reply : R)
      (x : Ended a R) : Type 0 where
    pub database : x.0.database ≡ db
    pub sound : x.3 ≡ none → (x.1 ≡ s) × (x.0.transaction ≡ none) × (x.2 ≡ reply)

  reload-ok :
      (f : Faults) (db : Database a) (s : StoredState a)
      → IsConsistent db s
      → (reload f db ≡ ok s) ⊎ (reload f db ≡ err sqlite)
  unfolding reload
  reload-ok f db s v = elim (Bool-cases f.reload) [
    | inl bad ↦ inr (rw bad refl)
    | inr good ↦ inl (rw (good, v.loaded, v.validated) refl)
  ]

  end_transaction-cases :
      (f : Faults) (conn : Connection a)
      → let (conn', result) = end_transaction f conn in
        (conn'.database ≡ conn.database) × (result ≡ ok tt → conn'.transaction ≡ none)
  end_transaction-cases f conn = ground arith

  pub reconciled-IsSettled :
      {E T : Type 0} (f : Faults) (wrap : ExternalError → E) (conn : Connection a)
      (known s : StoredState a) (result : Result E (ApplyOutcome T))
      → IsBehind conn known s (is_err result)
      → IsSettled conn.database s result (reconciled f wrap (conn, known, result))
  unfolding reconcile_after_apply
  reconciled-IsSettled {E = E} {T = T} f wrap conn known s (ok x) b =
      let (same, closed) = b.sure refl in
      rw closed (record { database = refl; sound = λ _. (same, refl, refl) })
  reconciled-IsSettled {E = E} {T = T} f wrap conn known s (err e) b =
      failed_settled (end_transaction f conn) (end_transaction-cases f conn)
    where
      reloaded_settled :
          (there : Connection a) (r : Fallible (StoredState a))
          → there.database ≡ conn.database
          → there.transaction ≡ none
          → (r ≡ ok s) ⊎ (r ≡ err sqlite)
          → IsSettled {R = Result E (ApplyOutcome T)} conn.database s
              (err e)
              (poison_with wrap (err e) (reloaded there known r))
      reloaded_settled there (ok stored) d t c = record {
        database = d;
        sound = λ _. (elim c [ inl p ↦ cc p | inr p ↦ absurd (cc p) ], t, refl);
      }
      reloaded_settled there (err x) d t c = record { database = d; sound = λ p. absurd (cc p) }

      failed_settled :
          (x : Connection a × Fallible (Unit {0}))
          → (x.0.database ≡ conn.database) × (x.1 ≡ ok tt → x.0.transaction ≡ none)
          → IsSettled {R = Result E (ApplyOutcome T)} conn.database s
              (err e)
              (poison_with wrap (err e) (reconcile_state f known true x))
      failed_settled (there, err x) (d, t) = record { database = d; sound = λ p. absurd (cc p) }
      failed_settled (there, ok _) (d, t) =
          reloaded_settled there (reload f there.database) d (t refl) (
            subst (λ db. (reload f db ≡ ok s) ⊎ (reload f db ≡ err sqlite)) (sym d)
              (reload-ok f conn.database s b.consistent))
