-- ===== src/Dlock/Frame.antt =====
-- What the handlers of dlock_handler.rs leave alone: every key but that of the request.
use hiqlite.Common.{
  ℕ, String, ◌≡◌, ◌∙◌, refl, Bool, false, Option, none, some, List, [], ◌∷◌, arith, Dict, lookup,
  lookup-insert_ne, lookup-remove_ne, str_eq, true, if_ind,
}
use hiqlite.Dlock.State.{
  LockQueue, Waiter, Locks, LockRequest, lock, acquire, await, alive, release, snapshot_build,
  snapshot_install, wake_found, wake, promote, promote_front, promote_found, promote_key, Promoted,
}
use hiqlite.Dlock.Handlers.{
  lock_found, acquire_found, release_found, alive_found, await_found, handle_lock, handle_acquire,
  handle_release, handle_alive, handle_await, handle_request, put_lock,
}

-- Two tables agree on the key `j`.
pub record SameAt (j : String) (s s' : Locks) : Type 0 where
  pub same_lock : lookup j s'.locks ≡ lookup j s.locks
  pub same_waiters : lookup j s'.waiters ≡ lookup j s.waiters

pub SameAt-trans :
    {j : String} {s s' s'' : Locks} → SameAt j s s' → SameAt j s' s'' → SameAt j s s''
SameAt-trans a b = record {
  same_lock = b.same_lock ∙ a.same_lock;
  same_waiters = b.same_waiters ∙ a.same_waiters;
}

-- Whether a request can touch the key `j`.
abbrev pub concerns : LockRequest → String → Bool
concerns (lock key id ack) j = str_eq key j
concerns (acquire key id ack) j = str_eq key j
concerns (await key id ack) j = str_eq key j
concerns (alive key id ack) j = str_eq key j
concerns (release key id) j = str_eq key j
concerns (snapshot_build ack) j = false
concerns (snapshot_install new ack) j = true

module _ (key j : String) (ne : str_eq key j ≡ false) where
  wake_found-frame :
      (front : ℕ) (o : Option (List Waiter)) (m : Dict (List Waiter))
      → lookup j (wake_found front key o m).0 ≡ lookup j m
  unfolding wake_found
  wake_found-frame front none m = refl
  wake_found-frame front (some list) m = lookup-insert_ne key j _ m ne

  promote_front-frame :
      (now : ℕ) (q : LockQueue) (queue : List ℕ) (m : Dict (List Waiter))
      → lookup j (promote_front now q queue m key).1 ≡ lookup j m
  unfolding promote_front wake
  promote_front-frame now q [] m = refl
  promote_front-frame now q (front ∷ rest) m = wake_found-frame front (lookup key m) m

  promote-frame :
      (now : ℕ) (q : LockQueue) (m : Dict (List Waiter))
      → lookup j (promote now q m key).1 ≡ lookup j m
  unfolding promote
  promote-frame now q m =
      if_ind (λ (r : Promoted). lookup j r.1 ≡ lookup j m) _ (λ e. refl)
        (λ e. promote_front-frame now q q.queue m)

  promote_found-frame :
      (now : ℕ) (o : Option LockQueue) (s : Locks) → SameAt j s (promote_found now key o s).0
  unfolding promote_found
  promote_found-frame now none s = record { same_lock = refl; same_waiters = refl }
  promote_found-frame now (some q) s = record {
    same_lock = lookup-insert_ne key j _ s.locks ne;
    same_waiters = promote-frame now q s.waiters;
  }

  pub promote_key-frame : (now : ℕ) (s : Locks) → SameAt j s (promote_key now key s).0
  unfolding promote_key
  promote_key-frame now s = promote_found-frame now (lookup key s.locks) s

  SameAt-refl : (s : Locks) → SameAt j s s
  SameAt-refl s = record { same_lock = refl; same_waiters = refl }

  put_lock-frame : (q : LockQueue) (s : Locks) → SameAt j s (put_lock key q s)
  put_lock-frame q s = record {
    same_lock = lookup-insert_ne key j q s.locks ne;
    same_waiters = refl;
  }

  lock_found-frame :
      (now id ack : ℕ) (o : Option LockQueue) (s : Locks)
      → SameAt j s (lock_found now key id ack o s).0
  unfolding lock_found
  lock_found-frame now id ack none s = put_lock-frame _ s
  lock_found-frame now id ack (some q) s = grind (arith, put_lock-frame)

  acquire_found-frame :
      (now id ack : ℕ) (o : Option LockQueue) (s : Locks)
      → SameAt j s (acquire_found now key id ack o s).0
  unfolding acquire_found
  acquire_found-frame now id ack none s = put_lock-frame _ s
  acquire_found-frame now id ack (some q) s = grind (arith, put_lock-frame, SameAt-refl)

  release_found-frame :
      (now id : ℕ) (o : Option LockQueue) (s : Locks) → SameAt j s (release_found now key id o s).0
  unfolding release_found
  release_found-frame now id none s = SameAt-refl s
  release_found-frame now id (some q) s =
      let p = promote-frame now (record q { current_ticket = none }) s.waiters in
      ground (
        arith,
        p,
        put_lock-frame (promote now (record q { current_ticket = none }) s.waiters key).0 s,
        lookup-remove_ne key j s.locks ne,
        lookup-remove_ne key j (promote now (record q { current_ticket = none }) s.waiters key).1
            ne,
      )

  alive_found-frame :
      (now id ack : ℕ) (o : Option LockQueue) (s : Locks)
      → SameAt j s (alive_found now key id ack o s).0
  unfolding alive_found
  alive_found-frame now id ack none s = SameAt-refl s
  alive_found-frame now id ack (some q) s = grind (arith, put_lock-frame)

  await_found-frame :
      (now id ack : ℕ) (o : Option LockQueue) (s : Locks)
      → SameAt j s (await_found now key id ack o s).0
  unfolding await_found
  await_found-frame now id ack none s = SameAt-refl s
  await_found-frame now id ack (some q) s = grind (arith, lookup-insert_ne)

-- A request for one key leaves the lock and the waiters of every other key as they were; building a
-- snapshot leaves all keys as they were.
pub handle_request-frame :
    (t₀ t₁ : ℕ) (r : LockRequest) (s : Locks) (j : String)
    → concerns r j ≡ false
    → SameAt j s (handle_request t₀ t₁ r s).0
unfolding handle_request handle_lock handle_acquire handle_await handle_alive handle_release
handle_request-frame t₀ t₁ (lock k id ack) s j ne =
    SameAt-trans (promote_key-frame k j ne t₀ s) (lock_found-frame k j ne t₁ id ack _ _)
handle_request-frame t₀ t₁ (acquire k id ack) s j ne =
    SameAt-trans (promote_key-frame k j ne t₀ s) (acquire_found-frame k j ne t₁ id ack _ _)
handle_request-frame t₀ t₁ (await k id ack) s j ne =
    SameAt-trans (promote_key-frame k j ne t₀ s) (await_found-frame k j ne t₁ id ack _ _)
handle_request-frame t₀ t₁ (alive k id ack) s j ne = alive_found-frame k j ne t₀ id ack _ s
handle_request-frame t₀ t₁ (release k id) s j ne = release_found-frame k j ne t₀ id _ s
handle_request-frame t₀ t₁ (snapshot_build ack) s j ne = record {
  same_lock = refl;
  same_waiters = refl;
}
handle_request-frame t₀ t₁ (snapshot_install new ack) s j ne = cc
