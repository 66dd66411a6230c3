-- ===== src/Dlock/Holder.antt =====
-- Mutual exclusion: who holds a lock of dlock_handler.rs, and who is told so.
use hiqlite.Common.{
  ℕ, ◌≤◌, String, ◌≡◌, ◌∙◌, ap, Bool, true, false, ◌&&◌, Option, none, some, arith, ◌==◌, lookup,
  lookup-insert_self, str_eq, eq_iff, Bool-cases, inl, inr,
}
use hiqlite.Dlock.State.{
  LockRequest, lock, acquire, await, alive, release, snapshot_build, snapshot_install, LockQueue,
  Locks, promote, promote_found, promote_key,
}
use hiqlite.Dlock.Handlers.{
  lock_found, acquire_found, release_found, alive_found, await_found, handle_lock, handle_acquire,
  handle_await, handle_alive, handle_release, handle_request,
}
use hiqlite.Dlock.Frame.{concerns, handle_request-frame}

abbrev pub holder_of : Option LockQueue → Option ℕ
holder_of none = none
holder_of (some q) = q.current_ticket

abbrev pub exp_of : Option LockQueue → ℕ
exp_of none = 0
exp_of (some q) = q.exp

abbrev pub holder : String → Locks → Option ℕ
holder k s = holder_of (lookup k s.locks)

-- The lease of the key `k` is alive at `now`.
abbrev pub IsAlive : ℕ → String → Locks → Type 0
IsAlive now k s = now ≤ exp_of (lookup k s.locks)

-- The requests that may take the lock of `k` from its holder `t`.
abbrev pub takes_away : LockRequest → String → ℕ → Bool
takes_away (release key id) k t = str_eq key k && id == t
takes_away (snapshot_install new ack) k t = true
takes_away _ k t = false

module _ (key : String) (t : ℕ) (s : Locks) (held : holder key s ≡ some t) where
  promote_key-busy :
      (now : ℕ)
      → IsAlive now key s
      → lookup key (promote_key now key s).0.locks ≡ lookup key s.locks
  unfolding promote_key promote_found promote
  promote_key-busy now a = grind (arith, lookup-insert_self)

  pub lock_found-keeps :
      (now id ack : ℕ)
      → IsAlive now key s
      → holder key (lock_found now key id ack (lookup key s.locks) s).0 ≡ some t
  unfolding lock_found
  lock_found-keeps now id ack a = grind (arith, lookup-insert_self)

  pub acquire_found-keeps :
      (now id ack : ℕ)
      → IsAlive now key s
      → holder key (acquire_found now key id ack (lookup key s.locks) s).0 ≡ some t
  unfolding acquire_found
  acquire_found-keeps now id ack a = grind (arith, lookup-insert_self)

  alive_found-keeps :
      (now id ack : ℕ) → holder key (alive_found now key id ack (lookup key s.locks) s).0 ≡ some t
  unfolding alive_found
  alive_found-keeps now id ack = grind (arith, lookup-insert_self)

  pub await_found-keeps :
      (now id ack : ℕ) → holder key (await_found now key id ack (lookup key s.locks) s).0 ≡ some t
  unfolding await_found
  await_found-keeps now id ack = grind arith

  release_found-keeps :
      (now id : ℕ)
      → (id == t) ≡ false
      → holder key (release_found now key id (lookup key s.locks) s).0 ≡ some t
  unfolding release_found
  release_found-keeps now id ne = grind arith

module _ (key : String) (t t₀ t₁ : ℕ) (s : Locks) (held : holder key s ≡ some t)
    (a₀ : IsAlive t₀ key s) (a₁ : IsAlive t₁ key s) where
  promoted : Locks
  promoted = (promote_key t₀ key s).0

  held_on : holder key promoted ≡ some t
  unfolding promoted
  held_on = rw (promote_key-busy key t s held t₀ a₀) held

  IsAlive-on : IsAlive t₁ key promoted
  unfolding promoted
  IsAlive-on = rw (promote_key-busy key t s held t₀ a₀) a₁

  own_keeps :
      (r : LockRequest)
      → concerns r key ≡ true
      → takes_away r key t ≡ false
      → holder key (handle_request t₀ t₁ r s).0 ≡ some t
  unfolding promoted handle_request handle_lock handle_acquire handle_await handle_alive
      handle_release
  own_keeps (lock k id ack) c n =
      rw ((eq_iff k key).0 c) (lock_found-keeps key t promoted held_on t₁ id ack IsAlive-on)
  own_keeps (acquire k id ack) c n =
      rw ((eq_iff k key).0 c) (acquire_found-keeps key t promoted held_on t₁ id ack IsAlive-on)
  own_keeps (await k id ack) c n =
      rw ((eq_iff k key).0 c) (await_found-keeps key t promoted held_on t₁ id ack)
  own_keeps (alive k id ack) c n =
      rw ((eq_iff k key).0 c) (alive_found-keeps key t s held t₀ id ack)
  own_keeps (release k id) c n =
      rw ((eq_iff k key).0 c) (release_found-keeps key t s held t₀ id (ground (arith, c, n)))
  own_keeps (snapshot_build ack) c n = cc
  own_keeps (snapshot_install new ack) c n = cc

-- A holder whose lease is alive at both readings of the clock keeps its lock through every request
-- but its own `Release` and the installation of a snapshot.
pub handle_request-keeps_holder :
    (key : String) (t t₀ t₁ : ℕ) (s : Locks) (r : LockRequest)
    → holder key s ≡ some t
    → IsAlive t₀ key s
    → IsAlive t₁ key s
    → takes_away r key t ≡ false
    → holder key (handle_request t₀ t₁ r s).0 ≡ some t
handle_request-keeps_holder key t t₀ t₁ s r held a₀ a₁ n = elim (Bool-cases (concerns r key)) [
  | inl c ↦ own_keeps key t t₀ t₁ s held a₀ a₁ r c n
  | inr c ↦ ap holder_of (handle_request-frame t₀ t₁ r s key c).same_lock ∙ held
]
