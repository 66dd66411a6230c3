-- ===== src/Dlock/Waiting.antt =====
-- The registry of waiters of dlock_handler.rs: whoever waits is in the queue of its key.
use hiqlite.Common.{
  ℕ, String, ◌≡◌, refl, Bool, true, false, ◌&&◌, Option, none, some, List, [], ◌∷◌, ◌++◌, arith,
  contains, contains-append, Dict, lookup, lookup-insert_self, lookup-remove_self, str_eq, eq_iff,
  subst, Bool-cases, inl, inr,
}
use hiqlite.Dlock.State.{
  LockRequest, lock, acquire, await, alive, release, snapshot_build, snapshot_install, LockQueue,
  Waiter, Locks, kept, or_empty, wake_found, wake, promote, promote_front, promote_found,
  promote_key,
}
use hiqlite.Dlock.Handlers.{
  lock_found, acquire_found, release_found, alive_found, await_found, handle_lock, handle_acquire,
  handle_await, handle_alive, handle_release, handle_request, promote_keys, sweep_keys,
  sweep_expired, Event, request, sweep, turn, run, empty,
}
use hiqlite.Dlock.Frame.{SameAt, promote_key-frame, handle_request-frame}

-- The waiters of one key, and the queue of one key.
abbrev pub waiting : Locks → String → List Waiter
waiting s k = or_empty (lookup k s.waiters)

abbrev pub queue_of : Option LockQueue → List ℕ
queue_of none = []
queue_of (some q) = q.queue

unfoldable pub all_queued : List ℕ → List Waiter → Bool
all_queued queue [] = true
all_queued queue ((id, ack) ∷ ws) = contains queue id && all_queued queue ws

-- The invariant at one key.
abbrev pub QueuedAt : String → Locks → Type 0
QueuedAt k s = all_queued (queue_of (lookup k s.locks)) (waiting s k) ≡ true

-- Every registered waiter's ticket stands in the queue of its key.
abbrev pub WaitersQueued : Locks → Type 0
WaitersQueued s = (k : String) → QueuedAt k s

all_queued-kept :
    (front : ℕ) (rest : List ℕ) (ws : List Waiter)
    → all_queued (front ∷ rest) ws ≡ true
    → all_queued rest (kept front ws) ≡ true
unfolding kept all_queued
all_queued-kept front rest [] h = refl
all_queued-kept front rest ((id, ack) ∷ ws) h = ground (arith, all_queued-kept front rest ws)

all_queued-push :
    (queue : List ℕ) (id : ℕ) (ws : List Waiter)
    → all_queued queue ws ≡ true
    → all_queued (queue ++ (id ∷ [])) ws ≡ true
unfolding all_queued
all_queued-push queue id [] h = refl
all_queued-push queue id ((t, ack) ∷ ws) h =
    ground (arith, contains-append queue (id ∷ []) t, all_queued-push queue id ws)

all_queued-register :
    (queue : List ℕ) (id ack : ℕ) (ws : List Waiter)
    → contains queue id ≡ true
    → all_queued queue ws ≡ true
    → all_queued queue (ws ++ ((id, ack) ∷ [])) ≡ true
unfolding all_queued
all_queued-register queue id ack [] e h = ground arith
all_queued-register queue id ack ((t, ack') ∷ ws) e h =
    ground (arith, all_queued-register queue id ack ws)

module _ (key : String) where
  wake_found-waiting :
      (front : ℕ) (o : Option (List Waiter)) (m : Dict (List Waiter))
      → lookup key m ≡ o
      → or_empty (lookup key (wake_found front key o m).0) ≡ kept front (or_empty o)
  unfolding wake_found kept
  wake_found-waiting front none m e = rw e
  wake_found-waiting front (some list) m e = rw lookup-insert_self

  promote_front-queued :
      (now : ℕ) (q : LockQueue) (queue : List ℕ) (m : Dict (List Waiter))
      → q.queue ≡ queue
      → all_queued queue (or_empty (lookup key m)) ≡ true
      → let (q', m', sent) = promote_front now q queue m key in
        all_queued q'.queue (or_empty (lookup key m')) ≡ true
  unfolding promote_front wake
  promote_front-queued now q [] m e h = rw e h
  promote_front-queued now q (front ∷ rest) m e h =
      rw (wake_found-waiting front (lookup key m) m refl) (all_queued-kept front rest _ h)

  promote-queued :
      (now : ℕ) (q : LockQueue) (m : Dict (List Waiter))
      → all_queued q.queue (or_empty (lookup key m)) ≡ true
      → let (q', m', sent) = promote now q m key in
        all_queued q'.queue (or_empty (lookup key m')) ≡ true
  unfolding promote
  promote-queued now q m h = ground (arith, promote_front-queued now q q.queue m)

  promote_found-queued :
      (now : ℕ) (o : Option LockQueue) (s : Locks)
      → lookup key s.locks ≡ o
      → all_queued (queue_of o) (waiting s key) ≡ true
      → QueuedAt key (promote_found now key o s).0
  unfolding promote_found
  promote_found-queued now none s e h = rw e h
  promote_found-queued now (some q) s e h = rw lookup-insert_self (promote-queued now q s.waiters h)

  promote_key-queued :
      (now : ℕ) (s : Locks) → QueuedAt key s → QueuedAt key (promote_key now key s).0
  unfolding promote_key
  promote_key-queued now s h = promote_found-queued now (lookup key s.locks) s refl h

  lock_found-queued :
      (now id ack : ℕ) (s : Locks)
      → QueuedAt key s
      → QueuedAt key (lock_found now key id ack (lookup key s.locks) s).0
  unfolding lock_found
  lock_found-queued now id ack s h = grind (arith, lookup-insert_self, all_queued-push)

  acquire_found-queued :
      (now id ack : ℕ) (s : Locks)
      → QueuedAt key s
      → QueuedAt key (acquire_found now key id ack (lookup key s.locks) s).0
  unfolding acquire_found
  acquire_found-queued now id ack s h = grind (arith, lookup-insert_self, all_queued-push)

  release_found-queued :
      (now id : ℕ) (s : Locks)
      → QueuedAt key s
      → QueuedAt key (release_found now key id (lookup key s.locks) s).0
  unfolding release_found all_queued
  release_found-queued now id s h =
      grind (arith, lookup-insert_self, lookup-remove_self, promote-queued)

  alive_found-queued :
      (now id ack : ℕ) (s : Locks)
      → QueuedAt key s
      → QueuedAt key (alive_found now key id ack (lookup key s.locks) s).0
  unfolding alive_found
  alive_found-queued now id ack s h = grind (arith, lookup-insert_self)

  await_found-queued :
      (now id ack : ℕ) (s : Locks)
      → QueuedAt key s
      → QueuedAt key (await_found now key id ack (lookup key s.locks) s).0
  unfolding await_found
  await_found-queued now id ack s h = grind (arith, lookup-insert_self, all_queued-register)

SameAt-queued : {j : String} {s s' : Locks} → SameAt j s s' → QueuedAt j s → QueuedAt j s'
SameAt-queued a h = rw (a.same_lock, a.same_waiters) h

-- A step that is right at its own key, and leaves the others alone, keeps the invariant.
WaitersQueued-step :
    (key : String) (s s' : Locks)
    → (QueuedAt key s → QueuedAt key s')
    → ((j : String) → str_eq key j ≡ false → SameAt j s s')
    → WaitersQueued s
    → WaitersQueued s'
WaitersQueued-step key s s' own frame h j = elim (Bool-cases (str_eq key j)) [
  | inl e ↦ subst (λ k. QueuedAt k s') ((eq_iff key j).0 e) (own (h key))
  | inr e ↦ SameAt-queued (frame j e) (h j)
]

-- Every request keeps this: whoever waits for a ticket has that ticket in the queue of its key. The
-- exception is an installed snapshot, which drops all waiters and so makes it true from any table.
pub handle_request-queued :
    (t₀ t₁ : ℕ) (r : LockRequest) (s : Locks)
    → WaitersQueued s
    → WaitersQueued (handle_request t₀ t₁ r s).0
unfolding handle_request handle_lock handle_acquire handle_await handle_alive handle_release lookup
    all_queued
handle_request-queued t₀ t₁ (lock k id ack) s h =
    WaitersQueued-step k s _ (λ p. lock_found-queued k t₁ id ack _ (promote_key-queued k t₀ s p))
      (handle_request-frame t₀ t₁ (lock k id ack) s) h
handle_request-queued t₀ t₁ (acquire k id ack) s h =
    WaitersQueued-step k s _ (λ p. acquire_found-queued k t₁ id ack _ (promote_key-queued k t₀ s p))
      (handle_request-frame t₀ t₁ (acquire k id ack) s) h
handle_request-queued t₀ t₁ (await k id ack) s h =
    WaitersQueued-step k s _ (λ p. await_found-queued k t₁ id ack _ (promote_key-queued k t₀ s p))
      (handle_request-frame t₀ t₁ (await k id ack) s) h
handle_request-queued t₀ t₁ (alive k id ack) s h =
    WaitersQueued-step k s _ (λ p. alive_found-queued k t₀ id ack s p)
      (handle_request-frame t₀ t₁ (alive k id ack) s) h
handle_request-queued t₀ t₁ (release k id) s h =
    WaitersQueued-step k s _ (λ p. release_found-queued k t₀ id s p)
      (handle_request-frame t₀ t₁ (release k id) s) h
handle_request-queued t₀ t₁ (snapshot_build ack) s h = h
handle_request-queued t₀ t₁ (snapshot_install new ack) s h = λ j. refl

promote_keys-queued :
    (clock : String → ℕ) (keys : List String) (s : Locks)
    → WaitersQueued s
    → WaitersQueued (promote_keys clock keys s).0
unfolding promote_keys
promote_keys-queued clock [] s h = h
promote_keys-queued clock (k ∷ keys) s h = promote_keys-queued clock keys _ (
    WaitersQueued-step k s _ (promote_key-queued k (clock k) s)
      (λ j ne. promote_key-frame k j ne (clock k) s) h)

turn-queued : (e : Event) (s : Locks) → WaitersQueued s → WaitersQueued (turn e s).0
unfolding turn sweep_expired
turn-queued (request t₀ t₁ r) s h = handle_request-queued t₀ t₁ r s h
turn-queued (sweep now clock) s h = promote_keys-queued clock (sweep_keys now s.locks) s h

run-WaitersQueued : (es : List Event) (s : Locks) → WaitersQueued s → WaitersQueued (run es s).0
unfolding run
run-WaitersQueued [] s h = h
run-WaitersQueued (e ∷ es) s h = run-WaitersQueued es _ (turn-queued e s h)

-- Whatever requests, snapshots and sweeps the handler has served since its start, and whatever its
-- clock showed, every registered waiter's ticket stands in the queue of the waiter's key.
pub run-queued : (es : List Event) (k : String) → QueuedAt k (run es empty).0
unfolding lookup all_queued
run-queued es = run-WaitersQueued es empty (λ k. refl)
