-- ===== src/External/Replay.antt =====
-- What a run of the writer of external_state_machine.rs makes of the application's tables.
use hiqlite.Common.{
  ◌+◌, ◌≡◌, ◌∙◌, refl, sym, ap, ap₂, subst, ◌⊎◌, inl, inr, Bool, true, false, List, [], ◌∷◌, ◌++◌,
  map, length, arith, ltb, lt→ltb, ltb_ge, if◌then◌else◌, All,
}
use hiqlite.External.Data.{Application, Lawful, Commit}
use hiqlite.External.Tables.{Database}
use hiqlite.External.Check.{Options}
use hiqlite.External.Reconcile.{apply_committed, advance_committed}
use hiqlite.External.Writer.{
  Writer, Request, apply, advance_over, state, snapshot, restore, shutdown, Reply, apply_reply,
  advance_reply, handle, run,
}
use hiqlite.External.Recorded.{Entry}
use hiqlite.External.Change.{apply_committed-IsCommitted, advance_committed-IsCommitted}
use hiqlite.External.Running.{IsSound, is_typed}
use hiqlite.External.Handled.{running, handle-IsSound}
use hiqlite.External.Moves.{
  IsEntry, IsIdle, accepted, awaited, change-step, ended-database, idle, is_restore, replay,
  sequence_of, take_snapshot-IsIdle, up_from,
}

module _ {a : Application} where
  pub handle-step :
      Lawful a
      → (options : Options) (w : Writer a) (r : Request a) → IsSound options w
      → w.stopped ≡ false
      → is_typed r ≡ true
      → is_restore r ≡ false
      → let db' = (handle w r).0.connection.database in
        IsIdle w db' ⊎ ((e : Entry a) × IsEntry w r db' e)
  unfolding handle
  handle-step l options w (apply f commit op) v n t x =
      let (held, closed, _) = running options w v n in
      let c = apply_committed-IsCommitted l f w.connection w.stored commit op held closed t in
      let there =
        ended-database f apply_reply w (apply_committed f w.connection w.stored commit op) in
      subst (λ db. IsIdle w db ⊎ ((e : Entry a) × IsEntry w (apply f commit op) db e)) (sym there)
        (change-step w (apply f commit op) _ c.after held c.consistent
          (λ e (_, q). ap Commit.sequence (sym q.its_commit)) c.change)
  handle-step l options w (advance_over f commit) v n t x =
      let (held, closed, _) = running options w v n in
      let c = advance_committed-IsCommitted l f w.connection w.stored commit held closed t in
      let there =
        ended-database f advance_reply w (advance_committed f w.connection w.stored commit) in
      subst (λ db. IsIdle w db ⊎ ((e : Entry a) × IsEntry w (advance_over f commit) db e))
        (sym there)
        (change-step w (advance_over f commit) _ c.after held c.consistent
          (λ e (_, q). ap Commit.sequence (sym q.its_commit)) c.change)
  handle-step l options w state v n t x = inl (idle w _ refl)
  handle-step l options w (snapshot id updated backup) v n t x =
      let (held, _, _) = running options w v n in
      inl (take_snapshot-IsIdle id updated backup w held)
  handle-step l options w (restore file e calls) v n t x = absurd (cc x)
  handle-step l options w shutdown v n t x = inl (idle w _ refl)

  -- The database `db'` is `db` with the requests performed in their order, each at the next sequence.
  pub record IsReplay (es : List (Request a)) (db db' : Database a) : Type 0 where
    pub tables : db'.tables ≡ replay es db.tables
    pub sequences : map sequence_of es ≡ up_from (awaited db) (length es)
    pub awaits : awaited db' ≡ awaited db + length es

  -- The requests of a run that are accepted when its first one makes `there` of `db`.
  abbrev accepted_from : Request a → Database a → Database a → List (Request a) → List (Request a)
  accepted_from r db there rest = if ltb (awaited db) (awaited there) then r ∷ rest else rest

  step-IsReplay :
      (w : Writer a) (r : Request a) (there db' : Database a) (es : List (Request a))
      → IsReplay es there db'
      → IsIdle w there ⊎ ((e : Entry a) × IsEntry w r there e)
      → IsReplay (accepted_from r w.connection.database there es) w.connection.database db'
  step-IsReplay w r there db' es v (inl i) =
      rw (ltb_ge (awaited w.connection.database) (awaited there) (omega (arith, i.awaits)))
        (record {
          tables = v.tables ∙ ap (replay es) i.tables;
          sequences = v.sequences ∙ ap (λ n. up_from n (length es)) i.awaits;
          awaits = omega (arith, v.awaits, i.awaits);
        })
  step-IsReplay w r there db' es v (inr (e, i)) =
      rw (lt→ltb (awaited w.connection.database) (awaited there) (omega (arith, i.behind)))
        (record {
          tables = v.tables ∙ ap (replay es) i.tables;
          sequences =
              ap₂ (λ n ns. n ∷ ns) (i.asked ∙ i.next)
                (v.sequences ∙ ap (λ n. up_from n (length es)) i.behind);
          awaits = omega (arith, v.awaits, i.behind);
        })

  -- A run moves the tables by the requests that it accepts, in their order, and by no other: behind
  -- it they are the replay of those requests, whose sequences are the dense ones from the awaited
  -- one on.
  pub run-IsReplay :
      (l : Lawful a) (options : Options) (w : Writer a) (rs : List (Request a))
      → IsSound options w
      → All (λ r. (is_typed r ≡ true) × (is_restore r ≡ false)) rs
      → IsReplay (accepted w rs) w.connection.database (run w rs).0.connection.database
  unfolding run accepted
  run-IsReplay l options w [] v t = record { tables = refl; sequences = refl; awaits = omega arith }
  run-IsReplay l options w (r ∷ rs) v ((t, x), ts) =
      of w.stopped refl (λ v'. run-IsReplay l options (handle w r).0 rs v' ts)
    where
      of :
          (b : Bool)
          → w.stopped ≡ b
          → (IsSound options (handle w r).0
              → IsReplay
                  (accepted (handle w r).0 rs)
                  (handle w r).0.connection.database
                  (run (handle w r).0 rs).0.connection.database)
          → let w' = (handle w r).0 in
            let stop : Writer a × List (Reply a) = (w, []) in
            let w'' = (if b then stop else ((run w' rs).0, (handle w r).1 ++ (run w' rs).1)).0 in
            IsReplay
              (if b
                then []
                else accepted_from r w.connection.database w'.connection.database (accepted w' rs))
              w.connection.database
              w''.connection.database
      of true n ih = record { tables = refl; sequences = refl; awaits = omega arith }
      of false n ih =
          step-IsReplay w r _ _ _ (ih (handle-IsSound options l w r v n t))
            (handle-step l options w r v n t x)
