-- ===== src/External/Answers.antt =====
-- What the answer to a request of external_state_machine.rs says of the tables.
use hiqlite.Common.{◌+◌, ◌≡◌, ◌∙◌, refl, sym, ap, ap₂, inl, inr, true, false, none, some, [], ◌∷◌}
use hiqlite.External.Data.{
  Application, Lawful, Result, ok, Commit, ApplyOutcome, applied, ApplyError, has_widths,
}
use hiqlite.External.Tables.{Database, Faults}
use hiqlite.External.Check.{Options}
use hiqlite.External.Apply.{Ended}
use hiqlite.External.Reconcile.{apply_committed}
use hiqlite.External.Writer.{Writer, apply, Reply, apply_reply, ended, handle}
use hiqlite.External.Consistent.{next_sequence}
use hiqlite.External.Change.{apply_committed-IsCommitted}
use hiqlite.External.Running.{IsSound}
use hiqlite.External.Handled.{running}
use hiqlite.External.Moves.{awaited, awaited-IsConsistent, ended-database, entry-next}

module _ {a : Application} where
  -- An operation that fails leaves nothing in the database, whatever it did to the tables before.
  pub handle-failed :
      (l : Lawful a) (options : Options) (w : Writer a) (f : Faults) (commit : Commit a)
      (op : a.Operation) (failure : a.Failure)
      → IsSound options w
      → w.stopped ≡ false
      → has_widths commit ≡ true
      → (a.perform op w.connection.database.tables).1 ≡ inl failure
      → (handle w (apply f commit op)).0.connection.database ≡ w.connection.database
  unfolding handle
  handle-failed l options w f commit op failure v n t p =
      let (held, closed, _) = running options w v n in
      let c = apply_committed-IsCommitted l f w.connection w.stored commit op held closed t in
      let there =
        ended-database f apply_reply w (apply_committed f w.connection w.stored commit op) in
      elim c.change [
        | inl (same, _) ↦ there ∙ same
        | inr (e, x, (out, its), d, _) ↦ absurd (cc (p, its.performed))
      ]

  reply-of :
      (w : Writer a) (f : Faults)
      (x : Ended a (Result (ApplyError a.Failure) (ApplyOutcome a.Output)))
      (reply : Result (ApplyError a.Failure) (ApplyOutcome a.Output))
      → (ended f apply_reply w x).1 ≡ apply_reply reply
      → (ended f apply_reply w x).0.stopped ≡ false
      → (x.3 ≡ none) × (x.2 ≡ reply)
  reply-of w f (conn, s, r, none) reply h n = (refl, cc h)
  reply-of w f (conn, s, r, some e) reply h n = absurd (cc n)

  -- The answer `Applied` is true: the commit was the next one, its operation was performed once on
  -- the tables as they were and they are stored as it left them, and the output is its own.
  pub handle-applied :
      (l : Lawful a) (options : Options) (w : Writer a) (f : Faults) (commit : Commit a)
      (op : a.Operation) (out : a.Output)
      → IsSound options w
      → w.stopped ≡ false
      → has_widths commit ≡ true
      → let (w', sent) = handle w (apply f commit op) in
        let db = w.connection.database in
        let db' = w'.connection.database in
        sent ≡ apply_reply (ok (applied out)) ∷ []
        → w'.stopped ≡ false
        → (commit.sequence ≡ awaited db)
          × (a.perform op db.tables ≡ (db'.tables, inr out))
          × (awaited db' ≡ commit.sequence + 1)
  unfolding handle
  handle-applied l options w f commit op out v n t h on =
      let (held, closed, _) = running options w v n in
      let db = w.connection.database in
      let x = apply_committed f w.connection w.stored commit op in
      let c = apply_committed-IsCommitted l f w.connection w.stored commit op held closed t in
      let there = ended-database f apply_reply w x in
      let (fine, said) = reply-of w f x (ok (applied out)) (singleton h) on in
      let (e, m, its, d, after) = c.acknowledged out fine said in
      let q = ap Commit.sequence its.its_commit in
      (
        sym q ∙ m.next ∙ sym (awaited-IsConsistent db w.stored held),
        ap₂ (λ t o. (t, o)) (sym (ap Database.tables (there ∙ d))) its.performed,
        ap awaited there
            ∙ awaited-IsConsistent x.0.database c.after c.consistent
            ∙ ap next_sequence after
            ∙ entry-next w.stored e
            ∙ ap (λ k. k + 1) q,
      )
    where
      singleton : {x y : Reply a} → x ∷ [] ≡ y ∷ [] → x ≡ y
      singleton p = cc p
