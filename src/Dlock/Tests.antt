-- ===== src/Dlock/Tests.antt =====
-- A lock that is held, queued for and waited for, in runs of the handlers of dlock_handler.rs.
use hiqlite.Common.{◌+◌, ◌≡◌, refl, true, some, List, [], ◌∷◌, lookup, insert, arith}
use hiqlite.Dlock.State.{
  lock_valid_seconds, locked, queued, LockQueue, state, Locks, lock, await, release, promote,
  promote_key, wake, granted,
}
use hiqlite.Dlock.Handlers.{
  handle_lock, handle_await, handle_release, promote_keys, sweep_keys, handle_request,
  sweep_expired, Event, request, sweep, turn, empty, run,
}
use hiqlite.Dlock.Frame.{SameAt, handle_request-frame}
use hiqlite.Dlock.Waiting.{run-queued, QueuedAt}
use hiqlite.Dlock.Line.{line, handle_request-line, handle_lock-overtakes}
use hiqlite.Dlock.Holder.{holder, handle_request-keeps_holder}
use hiqlite.Dlock.Granted.{all_held, handle_request-held}
use hiqlite.Dlock.Answers.{answers, waits_in}
use hiqlite.Dlock.Balance.{run-answers, asked_in}

-- Ticket 1 holds the lock until the clock shows 20, and the tickets 2 and 3 queue for it.
abbrev held : LockQueue
held = record { current_ticket = some 1; exp = 20; queue = 2 ∷ 3 ∷ [] }

abbrev table : Locks
table = record { locks = ("k", held) ∷ []; waiters = ("k", (2, 70) ∷ []) ∷ [] }

-- What the table answers, and how it ends, in a run where ticket 2 waits for the release of ticket 1.
abbrev script : List Event
script =
    request 10 10 (lock "k" 1 50)
    ∷ request 11 11 (lock "k" 2 51)
    ∷ request 12 12 (await "k" 2 52)
    ∷ sweep 13 (λ key. 13)
    ∷ request 14 14 (release "k" 1)
    ∷ []

handle_request-frame_example : SameAt "other" table (handle_request 15 15 (lock "k" 4 71) table).0
handle_request-frame_example = handle_request-frame 15 15 (lock "k" 4 71) table "other" refl

run-queued_example : QueuedAt "k" (run script empty).0
run-queued_example = run-queued script "k"

handle_request-line_example :
    line 25 "k" (handle_request 25 25 (lock "k" 4 71) table).0 ≡ 2 ∷ 3 ∷ 4 ∷ []
unfolding lookup
handle_request-line_example = handle_request-line 25 (lock "k" 4 71) "k" table refl

handle_lock-overtakes_example :
    let (s', sent) = handle_lock 20 21 "k" 4 71 table in
    (lookup "k" s'.locks
      ≡ some
          (record { current_ticket = some 4; exp = 21 + lock_valid_seconds; queue = 2 ∷ 3 ∷ [] }))
    × (sent ≡ (71, state (locked 4)) ∷ [])
unfolding lookup
handle_lock-overtakes_example =
    handle_lock-overtakes 20 21 "k" 4 71 table held 1 refl refl (omega arith) (omega arith)

handle_request-keeps_holder_example :
    holder "k" (handle_request 15 16 (lock "k" 4 71) table).0 ≡ some 1
unfolding lookup
handle_request-keeps_holder_example =
    handle_request-keeps_holder "k" 1 15 16 table (lock "k" 4 71) refl (omega arith) (omega arith)
      refl

handle_request-held_example :
    all_held
      (holder "k" (handle_request 25 26 (lock "k" 4 71) table).0)
      (handle_request 25 26 (lock "k" 4 71) table).1
    ≡ true
unfolding lookup
handle_request-held_example = handle_request-held 25 26 (lock "k" 4 71) "k" table (omega arith) refl

run-answers_example : answers 52 (run script empty).1 + waits_in 52 (run script empty).0.waiters ≡ 1
unfolding asked_in
run-answers_example = run-answers 52 script

-- Ticket 2 is told of the lock at the release, and no entry is left but its own.
run-script :
    (run script empty).1
    ≡ (50, state (locked 1)) ∷ (51, state (queued 2)) ∷ (52, state (locked 2)) ∷ []
unfolding run turn handle_request handle_lock promote_key lookup insert promote handle_await
    sweep_expired promote_keys sweep_keys handle_release wake granted
run-script = refl
