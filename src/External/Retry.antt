-- ===== src/External/Retry.antt =====
-- A lost reply of external_state_machine.rs is recovered: the retry of an accepted operation.
use hiqlite.Common.{
  ◌+◌, ◌<◌, ◌≤◌, ◌≡◌, ◌∙◌, refl, sym, ap, subst, inl, inr, true, false, Option, none, some, List,
  [], ◌∷◌, arith, le→leb, All, eq_refl,
}
use hiqlite.Wal.Header.{bytes_eq_refl}
use hiqlite.External.Data.{
  Application, Lawful, ok, StoredState, StoredReceipt, Applied, Commit, operation, recovered,
  has_widths, same_commit,
}
use hiqlite.External.Tables.{Database, Faults, read_row}
use hiqlite.External.Statements.{load_receipt}
use hiqlite.External.Check.{Options, validate_configuration}
use hiqlite.External.Apply.{classify_commit, classify_retry, classify_at, retry, apply_operation}
use hiqlite.External.Reconcile.{apply_committed, reconcile_after_apply}
use hiqlite.External.Writer.{Writer, Request, apply, apply_reply, handle, run}
use hiqlite.External.Consistent.{IsConsistent, next_sequence, next_of}
use hiqlite.External.Recorded.{
  Entry, IsNext, row_of, stored, same_kind_refl, select-recorded, read_row-row_of,
}
use hiqlite.External.Running.{IsSound, is_typed}
use hiqlite.External.Handled.{running, handle-IsSound}
use hiqlite.External.Change.{apply_committed-IsCommitted}
use hiqlite.External.Recovery.{run-IsSound}
use hiqlite.External.Transact.{IsOperation}
use hiqlite.External.Replay.{run-IsReplay}
use hiqlite.External.Moves.{awaited, awaited-IsConsistent, is_restore, ended-database}
use hiqlite.External.Held.{IsHeld, run-IsHeld}

module _ {a : Application} where
  classify_at-retry :
      (f : Faults) (db : Database a) (s : StoredState a) (o : Option (Applied a)) (e : Entry a)
      → Lawful a
      → f.read ≡ false
      → s.initial_sequence ≤ e.commit.sequence
      → e.commit.sequence < next_of s o
      → IsHeld e db
      → read_row a s.max_receipt_bytes (row_of e) ≡ ok (stored e)
      → classify_at f db s o e.commit e.kind e.codec ≡ ok (retry (stored e))
  classify_at-retry f db s none e l r i lt h read = absurd (omega (arith, i, lt))
  classify_at-retry f db s (some last) e l r i lt h read =
      rw (le→leb e.commit.sequence last.commit.sequence (omega (arith, lt))) (
        unfold classify_retry load_receipt same_commit in
        rw (r, h, read, same_kind_refl e.kind, eq_refl e.codec)
          (ground (
            arith,
            l.same_coordinate_refl e.commit.coordinate,
            bytes_eq_refl e.commit.command_digest,
          )))

  -- A request that is answered without an error leaves the writer as it is.
  recovered-handle :
      (f : Faults) (w : Writer a) (commit : Commit a) (op : a.Operation) (receipt : StoredReceipt a)
      (out : a.Output)
      → w.poisoned ≡ none
      → w.connection.transaction ≡ none
      → classify_commit f w.connection.database w.stored commit operation a.receipt_codec
        ≡ ok (retry receipt)
      → a.decode_receipt receipt.receipt ≡ some out
      → handle w (apply f commit op) ≡ (w, apply_reply (ok (recovered out)) ∷ [])
  unfolding handle apply_committed apply_operation
  recovered-handle f w commit op receipt out p t c d =
      let same : reconcile_after_apply f w.connection w.stored false
          ≡ (w.connection, w.stored, ok tt) =
        unfold reconcile_after_apply in ground (arith, t) in
      rw (c, d, same) refl

  pub initial_sequence-eq :
      (options : Options) (s : StoredState a)
      → validate_configuration s options a.receipt_codec ≡ ok tt
      → (s.initial_sequence ≡ options.initial_sequence)
        × (s.max_receipt_bytes ≡ options.max_receipt_bytes)
  unfolding validate_configuration
  initial_sequence-eq options s c = (ground (arith, c), ground (arith, c))

  -- The retry of an entry that is still held.
  held-retry :
      (l : Lawful a) (options : Options) (w : Writer a) (s : StoredState a) (f : Faults)
      (commit : Commit a) (op : a.Operation) (tables : a.Tables) (out : a.Output) (e : Entry a)
      → IsSound options w
      → w.stopped ≡ false
      → f.read ≡ false
      → IsNext s e
      → IsOperation commit op tables out e
      → s.max_receipt_bytes ≡ options.max_receipt_bytes
      → options.initial_sequence ≤ e.commit.sequence
      → e.commit.sequence < awaited w.connection.database
      → IsHeld e w.connection.database
      → (op' : a.Operation)
      → handle w (apply f commit op') ≡ (w, apply_reply (ok (recovered out)) ∷ [])
  held-retry l options w s f commit op tables out e v n r x its m i lt h op' =
      let (p, _) = v.poison n in
      let (held, t, c) = running options w v n in
      let (i', m') = initial_sequence-eq options w.stored c in
      let read : read_row a w.stored.max_receipt_bytes (row_of e) ≡ ok (stored e) =
        subst (λ k. read_row a k (row_of e) ≡ ok (stored e)) (m ∙ sym m')
          (read_row-row_of l s e x) in
      let there : e.commit.sequence < next_of w.stored w.stored.last_applied =
        unfold next_sequence in
        subst (λ k. e.commit.sequence < k)
          (awaited-IsConsistent w.connection.database w.stored held) lt in
      let class : classify_commit f w.connection.database w.stored e.commit e.kind e.codec
          ≡ ok (retry (stored e)) =
        unfold classify_commit in
        classify_at-retry f w.connection.database w.stored w.stored.last_applied e l r
          (omega (arith, i, i')) there h read in
      let this : classify_commit f w.connection.database w.stored commit operation a.receipt_codec
          ≡ ok (retry (stored e)) =
        cc (class, its.its_commit, its.its_kind, its.its_codec) in
      recovered-handle f w commit op' (stored e) out p t this
        (l.decode_receipt-encode_receipt out e.receipt its.encoded)

  typed :
      (rs : List (Request a))
      → All (λ r. (is_typed r ≡ true) × (is_restore r ≡ false)) rs
      → All (λ r. is_typed r ≡ true) rs
  typed [] ts = tt
  typed (r ∷ rs) ((t, _), ts) = (t, typed rs ts)

  -- The entry of an operation that moves the checkpoint.
  accepted-entry :
      (l : Lawful a) (w : Writer a) (f : Faults) (commit : Commit a) (op : a.Operation)
      → IsConsistent w.connection.database w.stored
      → w.connection.transaction ≡ none
      → has_widths commit ≡ true
      → let db₁ = (handle w (apply f commit op)).0.connection.database in
        awaited w.connection.database < awaited db₁
        → (e : Entry a) × IsNext w.stored e
          × ((out : a.Output) × IsOperation commit op w.connection.database.tables out e)
          × IsHeld e db₁
  unfolding handle
  accepted-entry l w f commit op held closed t on =
      let c = apply_committed-IsCommitted l f w.connection w.stored commit op held closed t in
      let there =
        ended-database f apply_reply w (apply_committed f w.connection w.stored commit op) in
      elim c.change [
        | inl (same, _) ↦ absurd (omega (arith, on, ap awaited (there ∙ same)))
        | inr (e, x, its, d, _) ↦
            let (found, _) =
              select-recorded l w.connection.database w.stored e
                (a.perform op w.connection.database.tables).0 held x in
            (e, x, its, subst (λ db. IsHeld e db) (sym (there ∙ d)) found)
      ]

  -- An operation is accepted, whatever the caller is told of it: the same commit is answered with the
  -- output of that operation for as long as its receipt is retained, whatever has failed or been
  -- committed meanwhile, and the second operation is not performed.
  pub run-retry :
      (l : Lawful a) (options : Options) (w : Writer a) (f f' : Faults) (commit : Commit a)
      (op op' : a.Operation) (rs : List (Request a))
      → IsSound options w
      → w.stopped ≡ false
      → has_widths commit ≡ true
      → let w₁ = (handle w (apply f commit op)).0 in
        let w₂ = (run w₁ rs).0 in
        awaited w.connection.database < awaited w₁.connection.database
        → All (λ r. (is_typed r ≡ true) × (is_restore r ≡ false)) rs
        → awaited w₂.connection.database ≤ commit.sequence + options.receipt_retention
        → w₂.stopped ≡ false
        → f'.read ≡ false
        → (out : a.Output) × ((a.perform op w.connection.database.tables).1 ≡ inr out)
          × (handle w₂ (apply f' commit op') ≡ (w₂, apply_reply (ok (recovered out)) ∷ []))
  run-retry l options w f f' commit op op' rs v n t on ts le n₂ r =
      let (held, closed, c) = running options w v n in
      let (i, m) = initial_sequence-eq options w.stored c in
      let w₁ = (handle w (apply f commit op)).0 in
      let sound₁ = handle-IsSound options l w (apply f commit op) v n t in
      let sound₂ = run-IsSound options l w₁ rs sound₁ (typed rs ts) in
      let (e, x, (out, its), found) = accepted-entry l w f commit op held closed t on in
      let q = ap Commit.sequence its.its_commit in
      let awaits : e.commit.sequence ≡ awaited w.connection.database =
        x.next ∙ sym (awaited-IsConsistent w.connection.database w.stored held) in
      let (_, start) =
        select-recorded l w.connection.database w.stored e w.connection.database.tables held x in
      let low : options.initial_sequence ≤ e.commit.sequence = omega (arith, start, i) in
      let here : e.commit.sequence < awaited w₁.connection.database = omega (arith, awaits, on) in
      let later = (run-IsReplay l options w₁ rs sound₁ ts).awaits in
      let kept = run-IsHeld l options w₁ rs e sound₁ ts low here (omega (arith, le, q)) found in
      (
        out,
        its.performed,
        held-retry l options (run w₁ rs).0 w.stored f' commit op w.connection.database.tables out e
            sound₂ n₂ r x its m low (omega (arith, here, later)) kept op',
      )
