-- ===== src/External/Held.antt =====
-- The receipt of an entry stays in the table of external_state_machine.rs for as long as it is retained.
use hiqlite.Common.{
  ℕ, ◌+◌, ◌<◌, ◌≤◌, ◌≡◌, ◌∙◌, refl, sym, subst, ◌⊎◌, inl, inr, Bool, true, false, some, List, [],
  ◌∷◌, ◌++◌, arith, if◌then◌else◌, All, ==_lt,
}
use hiqlite.External.Data.{Application, Lawful, ok, StoredState}
use hiqlite.External.Tables.{Database}
use hiqlite.External.Statements.{select, floor_at}
use hiqlite.External.Check.{Options, validate_configuration}
use hiqlite.External.Writer.{Writer, Request, Reply, handle, run}
use hiqlite.External.Rows.{select-insert_row_ne, select-delete_below}
use hiqlite.External.Recorded.{Entry, row_of}
use hiqlite.External.Running.{IsSound, is_typed}
use hiqlite.External.Handled.{running, handle-IsSound}
use hiqlite.External.Replay.{handle-step, run-IsReplay, IsReplay}
use hiqlite.External.Moves.{awaited, accepted, is_restore, IsIdle, IsEntry}

-- The table of receipts holds the row of an entry.
abbrev pub IsHeld : {a : Application} → Entry a → Database a → Type 0
IsHeld e db = select e.commit.sequence db.receipts ≡ some (row_of e)

module _ {a : Application} where
  floor_at-le :
      (options : Options) (s : StoredState a) (q m : ℕ)
      → validate_configuration s options a.receipt_codec ≡ ok tt
      → options.initial_sequence ≤ m
      → q + 1 ≤ m + options.receipt_retention
      → floor_at s q ≤ m
  unfolding validate_configuration
  floor_at-le options s q m c i h =
      let r : s.receipt_retention ≡ options.receipt_retention = ground (arith, c) in
      let n : s.initial_sequence ≡ options.initial_sequence = ground (arith, c) in
      unfold floor_at in omega (arith, r, n)

  step-IsHeld :
      (options : Options) (w : Writer a) (r : Request a) (db' : Database a) (e : Entry a)
      → validate_configuration w.stored options a.receipt_codec ≡ ok tt
      → options.initial_sequence ≤ e.commit.sequence
      → e.commit.sequence < awaited w.connection.database
      → awaited db' ≤ e.commit.sequence + options.receipt_retention
      → IsHeld e w.connection.database
      → IsIdle w db' ⊎ ((e' : Entry a) × IsEntry w r db' e')
      → IsHeld e db'
  step-IsHeld options w r db' e c i lt le v (inl x) =
      subst (λ rows. select e.commit.sequence rows ≡ some (row_of e)) (sym x.receipts) v
  step-IsHeld options w r db' e c i lt le v (inr (e', x)) =
      let q = e'.commit.sequence in
      let low : floor_at w.stored q ≤ e.commit.sequence =
        floor_at-le options w.stored q e.commit.sequence c i
          (omega (arith, x.next, x.behind, le)) in
      let other = ==_lt e.commit.sequence q (omega (arith, x.next, lt)) in
      subst (λ rows. select e.commit.sequence rows ≡ some (row_of e)) (sym x.receipts)
        (select-delete_below e.commit.sequence _ _ low
          ∙ select-insert_row_ne e.commit.sequence (row_of e') w.connection.database.receipts other
          ∙ v)

  step-awaits :
      (w : Writer a) (r : Request a) (db' : Database a) (m : ℕ)
      → m < awaited w.connection.database
      → IsIdle w db' ⊎ ((e' : Entry a) × IsEntry w r db' e')
      → m < awaited db'
  step-awaits w r db' m lt (inl x) = omega (arith, x.awaits)
  step-awaits w r db' m lt (inr (e', x)) = omega (arith, x.behind)

  -- Fewer accepted requests than the retention leave the row.
  pub run-IsHeld :
      (l : Lawful a) (options : Options) (w : Writer a) (rs : List (Request a)) (e : Entry a)
      → IsSound options w
      → All (λ r. (is_typed r ≡ true) × (is_restore r ≡ false)) rs
      → options.initial_sequence ≤ e.commit.sequence
      → e.commit.sequence < awaited w.connection.database
      → awaited (run w rs).0.connection.database ≤ e.commit.sequence + options.receipt_retention
      → IsHeld e w.connection.database
      → IsHeld e (run w rs).0.connection.database
  unfolding run
  run-IsHeld l options w [] e v t i lt le h = h
  run-IsHeld l options w (r ∷ rs) e v ((t, x), ts) i lt le h =
      of w.stopped refl le (λ v'. run-IsHeld l options (handle w r).0 rs e v' ts i)
        (λ v'. run-IsReplay l options (handle w r).0 rs v' ts)
    where
      there : Database a
      there = (handle w r).0.connection.database

      of :
          (b : Bool)
          → w.stopped ≡ b
          → let stop : Writer a × List (Reply a) = (w, []) in
            let w'' =
              (if b
                then stop
                else ((run (handle w r).0 rs).0, (handle w r).1 ++ (run (handle w r).0 rs).1)).0 in
            awaited w''.connection.database ≤ e.commit.sequence + options.receipt_retention
            → (IsSound options (handle w r).0
                → e.commit.sequence < awaited there
                → awaited (run (handle w r).0 rs).0.connection.database
                  ≤ e.commit.sequence + options.receipt_retention
                → IsHeld e there
                → IsHeld e (run (handle w r).0 rs).0.connection.database)
            → (IsSound options (handle w r).0
                → IsReplay
                    (accepted (handle w r).0 rs)
                    there
                    (run (handle w r).0 rs).0.connection.database)
            → IsHeld e w''.connection.database
      of true n le ih replayed = h
      of false n le ih replayed =
          let sound = handle-IsSound options l w r v n t in
          let moved = handle-step l options w r v n t x in
          let (_, _, c) = running options w v n in
          let total = (replayed sound).awaits in
          ih sound (step-awaits w r there e.commit.sequence lt moved) le
            (step-IsHeld options w r there e c i lt (omega (arith, le, total)) h moved)
