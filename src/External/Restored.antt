-- ===== src/External/Restored.antt =====
-- What a restore of external_state_machine.rs promises.
use hiqlite.Common.{◌≤◌, ◌≡◌, refl, true, false, Option, none, some, arith, if_ind}
use hiqlite.External.Data.{
  Application, Fallible, ok, err, StoredState, Applied, same_commit, dirty_poisoned,
}
use hiqlite.External.Tables.{Database}
use hiqlite.External.Check.{Options, validate_configuration}
use hiqlite.External.Snapshot.{
  Evidence, SnapshotFile, snapshot_evidence, same_evidence, same_applied, same_option,
  reject_stale_snapshot,
}
use hiqlite.External.Writer.{
  Writer, Reply, RestoreCalls, preflight, check_restored, restore_checked, restore_behind,
  database_behind, handle_restore,
}
use hiqlite.External.Consistent.{next_sequence, next_of, retained}
use hiqlite.External.Retry.{initial_sequence-eq}
use hiqlite.External.Running.{IsSound}
use hiqlite.External.Handled.{running, check_restored-IsConsistent, check_restored-configured}

module _ {a : Application} where
  -- The order that `reject_stale_snapshot` keeps between the checkpoints.
  stale-le :
      (live incoming : Option (Applied a)) (s s' : StoredState a)
      → reject_stale_snapshot live incoming ≡ ok tt
      → s.initial_sequence ≤ next_of s' incoming
      → next_of s live ≤ next_of s' incoming
  unfolding reject_stale_snapshot
  stale-le none incoming s s' h i = i
  stale-le (some live) none s s' h i = absurd (cc h)
  stale-le (some live) (some incoming) s s' h i = ground (arith, h)

  same_option-next :
      (x y : Option (Applied a)) (s : StoredState a)
      → same_option same_applied x y ≡ true
      → next_of s x ≡ next_of s y
  unfolding same_applied same_commit
  same_option-next none none s h = refl
  same_option-next (some x) (some y) s h = ground (arith, h)
  same_option-next none (some y) s h = absurd (cc h)
  same_option-next (some x) none s h = absurd (cc h)

  checked-forward :
      (options : Options) (calls : RestoreCalls a) (file : SnapshotFile a) (e : Evidence a)
      (db : Database a) (live s : StoredState a)
      → live.receipt_codec ≡ a.receipt_codec
      → validate_configuration live options a.receipt_codec ≡ ok tt
      → preflight live file e ≡ ok tt
      → check_restored calls e db ≡ ok s
      → next_sequence live ≤ next_sequence s
  unfolding preflight next_sequence
  checked-forward options calls file e db live s c k p h =
      let there = check_restored-IsConsistent options calls file e db live s c p h in
      let (_, held) = retained db s there in
      let (i, _) = initial_sequence-eq options live k in
      let (i', _) =
        initial_sequence-eq options s
          (check_restored-configured options calls file e db live s k p h) in
      let not_stale : reject_stale_snapshot live.last_applied e.checkpoint ≡ ok tt =
        ground (arith, p) in
      let same : same_option same_applied s.last_applied e.checkpoint ≡ true =
        unfold check_restored same_evidence snapshot_evidence in ground (arith, h) in
      let next = same_option-next s.last_applied e.checkpoint s same in
      let start : s.initial_sequence ≤ next_of s s.last_applied =
        unfold next_sequence in held.start in
      omega (
        arith,
        stale-le live.last_applied e.checkpoint live s not_stale
            (omega (arith, start, next, i, i')),
        next,
      )

  behind-forward :
      (options : Options) (w : Writer a) (file : SnapshotFile a) (e : Evidence a)
      (calls : RestoreCalls a) (r : Fallible (Unit {0}))
      → w.stored.receipt_codec ≡ a.receipt_codec
      → validate_configuration w.stored options a.receipt_codec ≡ ok tt
      → preflight w.stored file e ≡ r
      → next_sequence w.stored ≤ next_sequence (restore_behind w file e calls r).0.stored
  behind-forward options w file e calls (err x) c k p = omega arith
  behind-forward options w file e calls (ok _) c k p =
      if_ind (λ (x : Writer a × Reply a). next_sequence w.stored ≤ next_sequence x.0.stored)
        calls.mark
        (λ _. of (check_restored calls e (database_behind calls file.database calls.restored)) refl)
        (λ _. omega arith)
    where
      of :
          (r : Fallible (StoredState a))
          → check_restored calls e (database_behind calls file.database calls.restored) ≡ r
          → next_sequence w.stored
            ≤ next_sequence
                (restore_checked
                  (record w {
                    connection = record (w.connection) {
                      database = database_behind calls file.database calls.restored;
                    };
                    dirty = some dirty_poisoned;
                  })
                  e
                  r).0.stored
      of (ok s) h = checked-forward options calls file e _ w.stored s c k p h
      of (err x) h = omega arith

  -- A restore never goes back: whatever the file, the evidence and the outcome, the next sequence
  -- that the writer takes is not before the one it took.
  pub handle_restore-next_sequence :
      (options : Options) (w : Writer a) (file : SnapshotFile a) (e : Evidence a)
      (calls : RestoreCalls a)
      → IsSound options w
      → w.stopped ≡ false
      → next_sequence w.stored ≤ next_sequence (handle_restore w file e calls).0.stored
  unfolding handle_restore
  handle_restore-next_sequence options w file e calls v n =
      let (held, _, k) = running options w v n in
      behind-forward options w file e calls _ held.codec k refl
