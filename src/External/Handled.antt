-- ===== src/External/Handled.antt =====
-- The requests of the writer of external_state_machine.rs keep its invariant, the restore among them.
use hiqlite.Common.{
  ◌≡◌, ◌∙◌, refl, sym, ap, subst, inl, inr, true, false, none, some, arith, eq_iff, if_ind,
}
use hiqlite.External.Data.{Application, Lawful, Fallible, ok, err, StoredState, dirty_poisoned}
use hiqlite.External.Tables.{Database}
use hiqlite.External.Check.{Options, validate_configuration}
use hiqlite.External.Apply.{Connection}
use hiqlite.External.Snapshot.{
  Evidence, SnapshotFile, snapshot_evidence, same_evidence, validate_snapshot_compatibility,
}
use hiqlite.External.Writer.{
  Writer, Request, apply, advance_over, state, snapshot, restore, shutdown, Reply, apply_reply,
  advance_reply, database_behind, RestoreCalls, preflight, check_restored, restore_checked,
  restore_behind, handle_restore, handle,
}
use hiqlite.External.Consistent.{IsConsistent}
use hiqlite.External.Change.{apply_committed-IsCommitted, advance_committed-IsCommitted}
use hiqlite.External.Running.{IsSound, IsStored, ended-IsSound, is_typed, take_snapshot-IsSound}

module _ {a : Application} (options : Options) where
  -- A database that a restore has left and checked holds the state that it is read as.
  pub check_restored-IsConsistent :
      (calls : RestoreCalls a) (file : SnapshotFile a) (e : Evidence a) (db : Database a)
      (live s : StoredState a)
      → live.receipt_codec ≡ a.receipt_codec
      → preflight live file e ≡ ok tt
      → check_restored calls e db ≡ ok s
      → IsConsistent db s
  unfolding preflight validate_snapshot_compatibility check_restored same_evidence snapshot_evidence
  check_restored-IsConsistent calls file e db live s c p h =
      let said : s.receipt_codec ≡ e.receipt_codec =
        ground (arith, h, eq_iff s.receipt_codec e.receipt_codec) in
      let ours : e.receipt_codec ≡ live.receipt_codec =
        ground (arith, p, eq_iff e.receipt_codec live.receipt_codec) in
      record { loaded = ground (arith, h); validated = ground (arith, h); codec = said ∙ ours ∙ c }

  pub check_restored-configured :
      (calls : RestoreCalls a) (file : SnapshotFile a) (e : Evidence a) (db : Database a)
      (live s : StoredState a)
      → validate_configuration live options a.receipt_codec ≡ ok tt
      → preflight live file e ≡ ok tt
      → check_restored calls e db ≡ ok s
      → validate_configuration s options a.receipt_codec ≡ ok tt
  unfolding preflight validate_snapshot_compatibility check_restored same_evidence snapshot_evidence
      validate_configuration
  check_restored-configured calls file e db live s c p h = ground (
    arith,
    c,
    p,
    h,
    eq_iff s.receipt_codec e.receipt_codec,
    eq_iff e.receipt_codec live.receipt_codec,
    eq_iff s.application_id e.application_id,
    eq_iff e.application_id live.application_id,
  )

  restore_checked-IsSound :
      (w : Writer a) (file : SnapshotFile a) (e : Evidence a) (calls : RestoreCalls a)
      (live : StoredState a) (db : Database a) (r : Fallible (StoredState a))
      → w.poisoned ≡ none
      → w.dirty ≡ some dirty_poisoned
      → w.connection ≡ record { database = db; transaction = none }
      → live.receipt_codec ≡ a.receipt_codec
      → validate_configuration live options a.receipt_codec ≡ ok tt
      → preflight live file e ≡ ok tt
      → check_restored calls e db ≡ r
      → IsSound options (restore_checked w e r).0
  restore_checked-IsSound w file e calls live db (ok s) q m d c k p h =
      let here : IsStored options (restore_checked w e (ok s)).0 = record {
        after = s;
        configured = check_restored-configured calls file e db live s k p h;
        consistent =
            subst (λ conn. IsConsistent (Connection.database conn) s) (sym d)
              (check_restored-IsConsistent calls file e db live s c p h);
        known = λ _. (refl, ap Connection.transaction d);
      } in
      record { stored = inl here; poison = λ _. (q, here) }
  restore_checked-IsSound w file e calls live db (err x) q m d c k p h = record {
    stored = inr m;
    poison = λ y. absurd (cc y);
  }

  restore_behind-IsSound :
      (w : Writer a) (file : SnapshotFile a) (e : Evidence a) (calls : RestoreCalls a)
      (r : Fallible (Unit {0}))
      → w.poisoned ≡ none
      → IsStored options w
      → preflight w.stored file e ≡ r
      → IsSound options (restore_behind w file e calls r).0
  restore_behind-IsSound w file e calls (err x) q v p = record {
    stored = inl v;
    poison = λ _. (q, v);
  }
  restore_behind-IsSound w file e calls (ok _) q v p =
      let (same, closed) = v.known q in
      let db = database_behind calls file.database calls.restored in
      let codec : w.stored.receipt_codec ≡ a.receipt_codec =
        ap StoredState.receipt_codec same ∙ v.consistent.codec in
      let configured =
        subst (λ s. validate_configuration s options a.receipt_codec ≡ ok tt) (sym same)
          v.configured in
      if_ind (λ (x : Writer a × Reply a). IsSound options x.0) calls.mark
        (λ _.
          restore_checked-IsSound _ file e calls w.stored db _ q refl
            (ap (λ t. record { database = db; transaction = t }) closed) codec configured p refl)
        (λ _. record { stored = inl v; poison = λ _. (q, v) })

  -- The state of a writer that runs is the stored one.
  pub running :
      (w : Writer a)
      → IsSound options w
      → w.stopped ≡ false
      → IsConsistent w.connection.database w.stored
        × (w.connection.transaction ≡ none)
        × (validate_configuration w.stored options a.receipt_codec ≡ ok tt)
  running w v n =
      let (p, here) = v.poison n in
      let (same, closed) = here.known p in
      (
        subst (λ s. IsConsistent w.connection.database s) (sym same) here.consistent,
        closed,
        subst (λ s. validate_configuration s options a.receipt_codec ≡ ok tt) (sym same)
            here.configured,
      )

  pub handle-IsSound :
      Lawful a
      → (w : Writer a) (r : Request a) → IsSound options w
      → w.stopped ≡ false
      → is_typed r ≡ true
      → IsSound options (handle w r).0
  unfolding handle handle_restore
  handle-IsSound l w (apply f commit op) v n t =
      let (p, _) = v.poison n in
      let (held, closed, configured) = running w v n in
      ended-IsSound options f apply_reply w _ w.stored _ _ p configured
        (apply_committed-IsCommitted l f w.connection w.stored commit op held closed t)
  handle-IsSound l w (advance_over f commit) v n t =
      let (p, _) = v.poison n in
      let (held, closed, configured) = running w v n in
      ended-IsSound options f advance_reply w _ w.stored _ _ p configured
        (advance_committed-IsCommitted l f w.connection w.stored commit held closed t)
  handle-IsSound l w state v n t = v
  handle-IsSound l w (snapshot id updated backup) v n t =
      let (p, here) = v.poison n in take_snapshot-IsSound options id updated backup w p here
  handle-IsSound l w (restore file e calls) v n t =
      let (p, here) = v.poison n in restore_behind-IsSound w file e calls _ p here refl
  handle-IsSound l w shutdown v n t =
      let (p, here) = v.poison n in
      record {
        stored = inl record {
          after = here.after;
          configured = here.configured;
          consistent = here.consistent;
          known = here.known;
        };
        poison = λ y. absurd (cc y);
      }
