-- ===== src/Dlock/Handlers.antt =====
-- The handlers of dlock_handler.rs, one for each request, the sweep, and the handler's loop.
use hiqlite.Common.{
  ℕ, ◌+◌, String, Bool, ◌||◌, ◌&&◌, not, Option, none, some, List, [], ◌∷◌, ◌++◌, leb,
  if◌then◌else◌, contains, Dict, lookup, insert, remove,
}
use hiqlite.Dlock.State.{
  lock_valid_seconds, locked, queued, released, LockQueue, state, snapshot, installed, Waiter,
  Reply, Locks, LockRequest, lock, acquire, await, alive, release, snapshot_build, snapshot_install,
  holds, is_none, is_empty, is_free, or_empty, promote, Step, promote_key,
}

-- A lock held by `id` from `now` on, with nobody queued.
abbrev pub fresh_lock : ℕ → ℕ → LockQueue
fresh_lock now id = record { current_ticket = some id; exp = now + lock_valid_seconds; queue = [] }

abbrev pub grant : ℕ → ℕ → LockQueue → LockQueue
grant now id q = record q { current_ticket = some id; exp = now + lock_valid_seconds }

abbrev pub put_lock : String → LockQueue → Locks → Locks
put_lock key q s = record s { locks = insert key q s.locks }

-- The `match` of `handle_lock`, behind the promotion.
unfoldable pub lock_found : ℕ → String → ℕ → ℕ → Option LockQueue → Locks → Step
lock_found now key id ack none s =
    (put_lock key (fresh_lock now id) s, (ack, state (locked id)) ∷ [])
lock_found now key id ack (some q) s =
    if is_none q.current_ticket || is_free q now
    then (put_lock key (grant now id q) s, (ack, state (locked id)) ∷ [])
    else (put_lock key (record q { queue = q.queue ++ (id ∷ []) }) s, (ack, state (queued id)) ∷ [])

unfoldable pub handle_lock : ℕ → ℕ → String → ℕ → ℕ → Locks → Step
unfolding lock_found
handle_lock t₀ t₁ key id ack s =
    let (s₁, woken) = promote_key t₀ key s in
    let (s₂, answer) = lock_found t₁ key id ack (lookup key s₁.locks) s₁ in (s₂, woken ++ answer)

unfoldable pub acquire_found : ℕ → String → ℕ → ℕ → Option LockQueue → Locks → Step
acquire_found now key id ack none s =
    (put_lock key (fresh_lock now id) s, (ack, state (locked id)) ∷ [])
acquire_found now key id ack (some q) s =
    if holds q.current_ticket id && leb now q.exp
    then (s, (ack, state (locked id)) ∷ [])
    else if is_none q.current_ticket || is_free q now
    then (put_lock key (grant now id q) s, (ack, state (locked id)) ∷ [])
    else (
      if contains q.queue id then s else put_lock key (record q { queue = q.queue ++ (id ∷ []) }) s,
      (ack, state (queued id)) ∷ [],
    )

unfoldable pub handle_acquire : ℕ → ℕ → String → ℕ → ℕ → Locks → Step
unfolding acquire_found
handle_acquire t₀ t₁ key id ack s =
    let (s₁, woken) = promote_key t₀ key s in
    let (s₂, answer) = acquire_found t₁ key id ack (lookup key s₁.locks) s₁ in (s₂, woken ++ answer)

-- Every waiter is told that its lock is gone.
unfoldable pub all_released : List Waiter → List Reply
all_released [] = []
all_released ((id, ack) ∷ rest) = (ack, state released) ∷ all_released rest

abbrev pub is_idle : LockQueue → Bool
is_idle q = is_none q.current_ticket && is_empty q.queue

unfoldable pub release_found : ℕ → String → ℕ → Option LockQueue → Locks → Step
release_found now key id none s = (s, [])
release_found now key id (some q) s =
    if holds q.current_ticket id
    then (let (q', waiters', woken) =
          promote now (record q { current_ticket = none }) s.waiters key in
        if is_idle q'
        then (
          record { locks = remove key s.locks; waiters = remove key waiters' },
          woken ++ all_released (or_empty (lookup key waiters')),
        )
        else (record { locks = insert key q' s.locks; waiters = waiters' }, woken))
    else (s, [])

unfoldable pub handle_release : ℕ → String → ℕ → Locks → Step
unfolding release_found
handle_release now key id s = release_found now key id (lookup key s.locks) s

unfoldable pub alive_found : ℕ → String → ℕ → ℕ → Option LockQueue → Locks → Step
alive_found now key id ack none s = (s, (ack, state released) ∷ [])
alive_found now key id ack (some q) s =
    if holds q.current_ticket id
    then (
      put_lock key (record q { exp = now + lock_valid_seconds }) s,
      (ack, state (locked id)) ∷ [],
    )
    else (s, (ack, state released) ∷ [])

unfoldable pub handle_alive : ℕ → String → ℕ → ℕ → Locks → Step
unfolding alive_found
handle_alive now key id ack s = alive_found now key id ack (lookup key s.locks) s

unfoldable pub await_found : ℕ → String → ℕ → ℕ → Option LockQueue → Locks → Step
await_found now key id ack none s = (s, (ack, state released) ∷ [])
await_found now key id ack (some q) s =
    if holds q.current_ticket id && leb now q.exp
    then (s, (ack, state (locked id)) ∷ [])
    else if is_free q now
    then (s, (ack, state released) ∷ [])
    else if contains q.queue id
    then (
      record s {
        waiters = insert key (or_empty (lookup key s.waiters) ++ ((id, ack) ∷ [])) s.waiters;
      },
      [],
    )
    else (s, (ack, state released) ∷ [])

unfoldable pub handle_await : ℕ → ℕ → String → ℕ → ℕ → Locks → Step
unfolding await_found
handle_await t₀ t₁ key id ack s =
    let (s₁, woken) = promote_key t₀ key s in
    let (s₂, answer) = await_found t₁ key id ack (lookup key s₁.locks) s₁ in (s₂, woken ++ answer)

-- The drained waiters of all keys; the order of a hash map's keys is that of the list.
unfoldable pub drained : Dict (List Waiter) → List Reply
drained [] = []
drained ((key, list) ∷ m) = all_released list ++ drained m

unfoldable pub handle_request : ℕ → ℕ → LockRequest → Locks → Step
unfolding drained
handle_request t₀ t₁ (lock key id ack) s = handle_lock t₀ t₁ key id ack s
handle_request t₀ t₁ (acquire key id ack) s = handle_acquire t₀ t₁ key id ack s
handle_request t₀ t₁ (await key id ack) s = handle_await t₀ t₁ key id ack s
handle_request t₀ t₁ (alive key id ack) s = handle_alive t₀ key id ack s
handle_request t₀ t₁ (release key id) s = handle_release t₀ key id s
handle_request t₀ t₁ (snapshot_build ack) s = (s, (ack, snapshot s.locks) ∷ [])
handle_request t₀ t₁ (snapshot_install new ack) s =
    (record { locks = new; waiters = [] }, drained s.waiters ++ ((ack, installed) ∷ []))

-- The keys that `sweep_expired` collects.
unfoldable pub sweep_keys : ℕ → Dict LockQueue → List String
sweep_keys now [] = []
sweep_keys now ((key, q) ∷ m) =
    let others = sweep_keys now m in
    if is_free q now && not (is_empty q.queue) then key ∷ others else others

-- Each promotion reads the clock again.
unfoldable pub promote_keys : (String → ℕ) → List String → Locks → Step
promote_keys clock [] s = (s, [])
promote_keys clock (key ∷ keys) s =
    let (s₁, woken) = promote_key (clock key) key s in
    let (s₂, others) = promote_keys clock keys s₁ in (s₂, woken ++ others)

unfoldable pub sweep_expired : ℕ → (String → ℕ) → Locks → Step
sweep_expired now clock s = promote_keys clock (sweep_keys now s.locks) s

-- One turn of the handler's loop: a request or the ticker, at the clock's readings.
pub data Event : Type 0 where
  request : ℕ → ℕ → LockRequest → Event
  sweep : ℕ → (String → ℕ) → Event

unfoldable pub turn : Event → Locks → Step
turn (request t₀ t₁ r) s = handle_request t₀ t₁ r s
turn (sweep now clock) s = sweep_expired now clock s

abbrev pub empty : Locks
empty = record { locks = []; waiters = [] }

-- The handler from its start, over the events it receives.
unfoldable pub run : List Event → Locks → Step
run [] s = (s, [])
run (e ∷ es) s = let (s₁, sent) = turn e s in let (s₂, others) = run es s₁ in (s₂, sent ++ others)
