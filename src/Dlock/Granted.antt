-- ===== src/Dlock/Granted.antt =====
-- Mutual exclusion: who is told by dlock_handler.rs that it has a lock.
use hiqlite.Common.{
  ℕ, ◌+◌, ◌≤◌, String, ◌≡◌, refl, Bool, true, ◌||◌, ◌&&◌, not, Option, none, some, List, [], ◌∷◌,
  ◌++◌, arith, Dict, lookup, lookup-insert_self, lookup-remove_self, eq_iff, Bool-cases, inl, inr,
  ◌⊎◌,
}
use hiqlite.Dlock.State.{
  lock_valid_seconds, locked, queued, released, state, snapshot, installed, Reply, LockRequest,
  lock, acquire, await, alive, release, snapshot_build, snapshot_install, LockQueue, Waiter, Locks,
  holds, is_empty, is_free, granted, wake, wake_found, promote, promote_front, promote_found,
  promote_key,
}
use hiqlite.Dlock.Handlers.{
  lock_found, acquire_found, release_found, alive_found, await_found, all_released, drained,
  handle_lock, handle_acquire, handle_await, handle_alive, handle_release, handle_request,
}
use hiqlite.Dlock.Frame.{concerns}
use hiqlite.Dlock.Holder.{
  holder_of, exp_of, holder, IsAlive, lock_found-keeps, acquire_found-keeps, await_found-keeps,
}

-- Every `Locked` among the answers names the ticket that holds the lock.
unfoldable pub all_held : Option ℕ → List Reply → Bool
all_held h [] = true
all_held h ((ack, state (locked id)) ∷ sent) = holds h id && all_held h sent
all_held h ((ack, other) ∷ sent) = all_held h sent

all_held-append :
    (h : Option ℕ) (xs ys : List Reply) → all_held h (xs ++ ys) ≡ (all_held h xs && all_held h ys)
unfolding all_held
all_held-append h [] ys = refl
all_held-append h ((ack, state (locked id)) ∷ xs) ys = ground (arith, all_held-append h xs ys)
all_held-append h ((ack, state (queued id)) ∷ xs) ys = all_held-append h xs ys
all_held-append h ((ack, state released) ∷ xs) ys = all_held-append h xs ys
all_held-append h ((ack, snapshot m) ∷ xs) ys = all_held-append h xs ys
all_held-append h ((ack, installed) ∷ xs) ys = all_held-append h xs ys

all_held-granted : (front : ℕ) (ws : List Waiter) → all_held (some front) (granted front ws) ≡ true
unfolding all_held granted
all_held-granted front [] = refl
all_held-granted front ((id, ack) ∷ ws) = ground (arith, all_held-granted front ws)

all_held-all_released : (h : Option ℕ) (ws : List Waiter) → all_held h (all_released ws) ≡ true
unfolding all_held all_released
all_held-all_released h [] = refl
all_held-all_released h ((id, ack) ∷ ws) = all_held-all_released h ws

-- Nobody was woken, or those who were hold the lock of `o`, and still do at `now`.
abbrev Woken : ℕ → Option LockQueue → List Reply → Type 0
Woken now o sent =
    (sent ≡ [])
    ⊎ ((f : ℕ) × (holder_of o ≡ some f) × (now ≤ exp_of o) × (all_held (some f) sent ≡ true))

module _ (t₀ t₁ : ℕ) (key : String) (soon : t₁ ≤ t₀ + lock_valid_seconds) where
  wake_found-held :
      (front : ℕ) (o : Option (List Waiter)) (m : Dict (List Waiter))
      → all_held (some front) (wake_found front key o m).1 ≡ true
  unfolding wake_found all_held
  wake_found-held front none m = refl
  wake_found-held front (some ws) m = all_held-granted front ws

  promote_front-Woken :
      (q : LockQueue) (queue : List ℕ) (m : Dict (List Waiter))
      → let (q', m', sent) = promote_front t₀ q queue m key in Woken t₁ (some q') sent
  unfolding promote_front wake
  promote_front-Woken q [] m = inl refl
  promote_front-Woken q (front ∷ rest) m =
      inr (front, refl, soon, wake_found-held front (lookup key m) m)

  promote-Woken :
      (q : LockQueue) (m : Dict (List Waiter))
      → let (q', m', sent) = promote t₀ q m key in Woken t₁ (some q') sent
  unfolding promote
  promote-Woken q m = elim (Bool-cases (not (is_free q t₀) || is_empty q.queue)) [
    | inl e ↦ rw e (inl refl)
    | inr e ↦ rw e (promote_front-Woken q q.queue m)
  ]

  promote_found-Woken :
      (o : Option LockQueue) (s : Locks)
      → lookup key s.locks ≡ o
      → let (s', sent) = promote_found t₀ key o s in Woken t₁ (lookup key s'.locks) sent
  unfolding promote_found
  promote_found-Woken none s e = inl refl
  promote_found-Woken (some q) s e = rw lookup-insert_self (promote-Woken q s.waiters)

  promote_key-Woken :
      (s : Locks) → let (s', sent) = promote_key t₀ key s in Woken t₁ (lookup key s'.locks) sent
  unfolding promote_key
  promote_key-Woken s = promote_found-Woken (lookup key s.locks) s refl

  -- A handler behind a promotion: those who were woken keep the lock, and its own answer is right.
  after_promotion :
      (s : Locks) (woken answer : List Reply) (h : Option ℕ)
      → Woken t₁ (lookup key s.locks) woken
      → ((f : ℕ) → holder key s ≡ some f → IsAlive t₁ key s → h ≡ some f)
      → all_held h answer ≡ true
      → all_held h (woken ++ answer) ≡ true
  unfolding all_held
  after_promotion s woken answer h (inl e) keeps own = rw e own
  after_promotion s woken answer h (inr (f, held, valid, ok)) keeps own =
      let e = keeps f held valid in rw (all_held-append h woken answer, own, e, ok)

module _ (now id ack : ℕ) (key : String) (s : Locks) where
  lock_found-held :
      let (s', sent) = lock_found now key id ack (lookup key s.locks) s in
      all_held (holder key s') sent ≡ true
  unfolding lock_found all_held
  lock_found-held = grind (arith, lookup-insert_self)

  acquire_found-held :
      let (s', sent) = acquire_found now key id ack (lookup key s.locks) s in
      all_held (holder key s') sent ≡ true
  unfolding acquire_found all_held
  acquire_found-held = grind (arith, lookup-insert_self)

  await_found-held :
      let (s', sent) = await_found now key id ack (lookup key s.locks) s in
      all_held (holder key s') sent ≡ true
  unfolding await_found all_held
  await_found-held = grind (arith, lookup-insert_self)

  alive_found-held :
      let (s', sent) = alive_found now key id ack (lookup key s.locks) s in
      all_held (holder key s') sent ≡ true
  unfolding alive_found all_held
  alive_found-held = grind (arith, lookup-insert_self)

promote-held :
    (now : ℕ) (q : LockQueue) (m : Dict (List Waiter)) (key : String)
    → all_held (promote now q m key).0.current_ticket (promote now q m key).2 ≡ true
unfolding all_held
promote-held now q m key = elim (promote-Woken now now key (omega arith) q m) [
  | inl e ↦ rw e refl
  | inr (f, held, valid, ok) ↦ rw held ok
]

release_found-held :
    (now id : ℕ) (key : String) (s : Locks)
    → let (s', sent) = release_found now key id (lookup key s.locks) s in
      all_held (holder key s') sent ≡ true
unfolding release_found all_held
release_found-held now id key s = grind (
  arith, lookup-insert_self, lookup-remove_self, promote-held, all_held-append,
  all_held-all_released,
)

all_held-drained : (h : Option ℕ) (m : Dict (List Waiter)) → all_held h (drained m) ≡ true
unfolding all_held drained
all_held-drained h [] = refl
all_held-drained h ((k, ws) ∷ m) =
    rw (all_held-append, all_held-all_released h ws, all_held-drained h m)

own_held :
    (t₀ t₁ : ℕ) (r : LockRequest) (k : String) (s : Locks)
    → t₁ ≤ t₀ + lock_valid_seconds
    → concerns r k ≡ true
    → let (s', sent) = handle_request t₀ t₁ r s in all_held (holder k s') sent ≡ true
unfolding handle_request handle_lock handle_acquire handle_await handle_alive handle_release
    all_held
own_held t₀ t₁ (lock key id ack) k s soon c = rw (← (eq_iff key k).0 c) (
    after_promotion t₀ t₁ key soon (promote_key t₀ key s).0 _ _ _
      (promote_key-Woken t₀ t₁ key soon s)
      (λ f held valid. lock_found-keeps key f _ held t₁ id ack valid)
      (lock_found-held t₁ id ack key _))
own_held t₀ t₁ (acquire key id ack) k s soon c = rw (← (eq_iff key k).0 c) (
    after_promotion t₀ t₁ key soon (promote_key t₀ key s).0 _ _ _
      (promote_key-Woken t₀ t₁ key soon s)
      (λ f held valid. acquire_found-keeps key f _ held t₁ id ack valid)
      (acquire_found-held t₁ id ack key _))
own_held t₀ t₁ (await key id ack) k s soon c = rw (← (eq_iff key k).0 c) (
    after_promotion t₀ t₁ key soon (promote_key t₀ key s).0 _ _ _
      (promote_key-Woken t₀ t₁ key soon s)
      (λ f held valid. await_found-keeps key f _ held t₁ id ack) (await_found-held t₁ id ack key _))
own_held t₀ t₁ (alive key id ack) k s soon c =
    rw (← (eq_iff key k).0 c) (alive_found-held t₀ id ack key s)
own_held t₀ t₁ (release key id) k s soon c =
    rw (← (eq_iff key k).0 c) (release_found-held t₀ id key s)
own_held t₀ t₁ (snapshot_build ack) k s soon c = refl
own_held t₀ t₁ (snapshot_install new ack) k s soon c =
    rw (all_held-append, all_held-drained _ s.waiters) refl

-- Whenever a request for the key `k` makes the handler answer `Locked` to anybody, the ticket in the
-- answer is the one that holds the lock of `k` afterwards. The two readings of the clock lie at most
-- one lease apart.
pub handle_request-held :
    (t₀ t₁ : ℕ) (r : LockRequest) (k : String) (s : Locks)
    → t₁ ≤ t₀ + lock_valid_seconds
    → concerns r k ≡ true
    → all_held (holder k (handle_request t₀ t₁ r s).0) (handle_request t₀ t₁ r s).1 ≡ true
handle_request-held t₀ t₁ r k s soon c = own_held t₀ t₁ r k s soon c
