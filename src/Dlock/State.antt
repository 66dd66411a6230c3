-- ===== src/Dlock/State.antt =====
-- The lock table of dlock_handler.rs, and the promotion of the ticket at the front of a queue.
use hiqlite.Common.{
  ℕ, ◌+◌, String, Bool, true, false, ◌||◌, not, Option, none, some, List, [], ◌∷◌, ltb, ◌==◌,
  if◌then◌else◌, Dict, lookup, insert,
}

-- The lease in seconds, as in a release build.
abbrev pub lock_valid_seconds : ℕ
lock_valid_seconds = 10

pub data LockState : Type 0 where
  locked queued : ℕ → LockState
  released : LockState

pub record LockQueue : Type 0 where
  pub current_ticket : Option ℕ
  pub exp : ℕ
  pub queue : List ℕ

-- What goes through a one-shot channel.
pub data Answer : Type 0 where
  state : LockState → Answer
  snapshot : Dict LockQueue → Answer
  installed : Answer

-- A registered `Await`: its ticket and its channel.
abbrev pub Waiter : Type 0
Waiter = ℕ × ℕ

-- A sent answer: the channel and what went through it.
abbrev pub Reply : Type 0
Reply = ℕ × Answer

pub record Locks : Type 0 where
  pub locks : Dict LockQueue
  pub waiters : Dict (List Waiter)

pub data LockRequest : Type 0 where
  lock acquire await alive : String → ℕ → ℕ → LockRequest
  release : String → ℕ → LockRequest
  snapshot_build : ℕ → LockRequest
  snapshot_install : Dict LockQueue → ℕ → LockRequest

abbrev pub holds : Option ℕ → ℕ → Bool
holds none id = false
holds (some t) id = t == id

abbrev pub is_none : Option ℕ → Bool
is_none none = true
is_none (some t) = false

abbrev pub is_empty {ℓ} : {A : Type ℓ} → List A → Bool
is_empty [] = true
is_empty (x ∷ xs) = false

abbrev pub is_free : LockQueue → ℕ → Bool
is_free q now = is_none q.current_ticket || ltb q.exp now

-- The answers to the waiters of the promoted ticket.
unfoldable pub granted : ℕ → List Waiter → List Reply
granted front [] = []
granted front ((id, ack) ∷ rest) =
    let others = granted front rest in
    if id == front then (ack, state (locked front)) ∷ others else others

-- The waiters that stay.
unfoldable pub kept : ℕ → List Waiter → List Waiter
kept front [] = []
kept front ((id, ack) ∷ rest) =
    let others = kept front rest in if id == front then others else (id, ack) ∷ others

abbrev pub or_empty {ℓ} : {A : Type ℓ} → Option (List A) → List A
or_empty none = []
or_empty (some l) = l

-- `if let Some(list) = waiters.get_mut(key)` of `promote`
unfoldable pub wake_found :
    ℕ → String → Option (List Waiter) → Dict (List Waiter) → Dict (List Waiter) × List Reply
wake_found front key none waiters = (waiters, [])
wake_found front key (some list) waiters =
    (insert key (kept front list) waiters, granted front list)

unfoldable pub wake : ℕ → String → Dict (List Waiter) → Dict (List Waiter) × List Reply
unfolding wake_found
wake front key waiters = wake_found front key (lookup key waiters) waiters

abbrev pub Promoted : Type 0
Promoted = LockQueue × Dict (List Waiter) × List Reply

unfoldable pub promote_front : ℕ → LockQueue → List ℕ → Dict (List Waiter) → String → Promoted
promote_front now q [] waiters key = (q, waiters, [])
promote_front now q (front ∷ rest) waiters key =
    let (waiters', replies) = wake front key waiters in
    (
      record { current_ticket = some front; exp = now + lock_valid_seconds; queue = rest },
      waiters',
      replies,
    )

unfoldable pub promote : ℕ → LockQueue → Dict (List Waiter) → String → Promoted
unfolding promote_front
promote now q waiters key =
    if not (is_free q now) || is_empty q.queue
    then (q, waiters, [])
    else promote_front now q q.queue waiters key

abbrev pub Step : Type 0
Step = Locks × List Reply

unfoldable pub promote_found : ℕ → String → Option LockQueue → Locks → Step
promote_found now key none s = (s, [])
promote_found now key (some q) s =
    let (q', waiters', replies) = promote now q s.waiters key in
    (record { locks = insert key q' s.locks; waiters = waiters' }, replies)

unfoldable pub promote_key : ℕ → String → Locks → Step
unfolding promote_found
promote_key now key s = promote_found now key (lookup key s.locks) s
