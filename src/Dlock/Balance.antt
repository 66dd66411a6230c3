-- ===== src/Dlock/Balance.antt =====
-- The answers of whole runs of dlock_handler.rs.
use hiqlite.Common.{
  unique, ℕ, ◌+◌, String, ◌≡◌, refl, true, List, [], ◌∷◌, ◌++◌, arith, ◌==◌, if◌then◌else◌, Dict,
}
use hiqlite.Dlock.State.{
  LockRequest, lock, acquire, await, alive, release, snapshot_build, snapshot_install, installed,
  Waiter, Reply, Locks, promote_key,
}
use hiqlite.Dlock.Handlers.{
  handle_lock, handle_acquire, handle_await, handle_alive, handle_release, handle_request, drained,
  promote_keys, sweep_keys, sweep_expired, Event, request, sweep, turn, run, empty,
}
use hiqlite.Dlock.Answers.{
  answers, waits_in, answers-append, answers-drained, Balanced, promote_key-Balanced,
  lock_found-Balanced, acquire_found-Balanced, alive_found-Balanced, await_found-Balanced,
  release_found-Balanced,
}

-- How often a request asks for an answer on the channel `a`.
abbrev pub asks : ℕ → LockRequest → ℕ
asks a (lock key id ack) = if ack == a then 1 else 0
asks a (acquire key id ack) = if ack == a then 1 else 0
asks a (await key id ack) = if ack == a then 1 else 0
asks a (alive key id ack) = if ack == a then 1 else 0
asks a (release key id) = 0
asks a (snapshot_build ack) = if ack == a then 1 else 0
asks a (snapshot_install new ack) = if ack == a then 1 else 0

unfoldable pub asked_in : ℕ → List Event → ℕ
asked_in a [] = 0
asked_in a (request t₀ t₁ r ∷ es) = asks a r + asked_in a es
asked_in a (sweep now clock ∷ es) = asked_in a es

asked_in-cons :
    (a : ℕ) (e : Event) (es : List Event)
    → asked_in a (e ∷ es) ≡ asked_in a (e ∷ []) + asked_in a es
unfolding asked_in
asked_in-cons a (request t₀ t₁ r) es = omega arith
asked_in-cons a (sweep now clock) es = omega arith

module _ (a : ℕ) where
  -- One step behind another.
  Balanced-trans :
      (n k : ℕ) (m m' m'' : Dict (List Waiter)) (xs ys : List Reply)
      → Balanced a n m m' xs
      → Balanced a k m' m'' ys
      → Balanced a (n + k) m m'' (xs ++ ys)
  Balanced-trans n k m m' m'' xs ys p q = (q.0, omega (arith, p.1, q.1, answers-append a xs ys))

  handle_request-Balanced :
      (t₀ t₁ : ℕ) (r : LockRequest) (s : Locks)
      → unique s.waiters ≡ true
      → let (s', sent) = handle_request t₀ t₁ r s in
        Balanced a (0 + asks a r) s.waiters s'.waiters sent
  unfolding handle_request handle_lock handle_acquire handle_await handle_alive handle_release
      answers unique waits_in
  handle_request-Balanced t₀ t₁ (lock key id ack) s u =
      let p = promote_key-Balanced a key t₀ s u in
      Balanced-trans 0 _ _ _ _ _ _ p
        (lock_found-Balanced a key t₁ id ack (promote_key t₀ key s).0 p.0)
  handle_request-Balanced t₀ t₁ (acquire key id ack) s u =
      let p = promote_key-Balanced a key t₀ s u in
      Balanced-trans 0 _ _ _ _ _ _ p
        (acquire_found-Balanced a key t₁ id ack (promote_key t₀ key s).0 p.0)
  handle_request-Balanced t₀ t₁ (await key id ack) s u =
      let p = promote_key-Balanced a key t₀ s u in
      Balanced-trans 0 _ _ _ _ _ _ p
        (await_found-Balanced a key t₁ id ack (promote_key t₀ key s).0 p.0)
  handle_request-Balanced t₀ t₁ (alive key id ack) s u =
      let p = alive_found-Balanced a key t₀ id ack s u in (p.0, omega (arith, p.1))
  handle_request-Balanced t₀ t₁ (release key id) s u =
      let p = release_found-Balanced a key t₀ id 0 s u in (p.0, omega (arith, p.1))
  handle_request-Balanced t₀ t₁ (snapshot_build ack) s u = (u, omega arith)
  handle_request-Balanced t₀ t₁ (snapshot_install new ack) s u = (
    refl,
    omega (
      arith,
      answers-append a (drained s.waiters) ((ack, installed) ∷ []),
      answers-drained a s.waiters,
    ),
  )

  promote_keys-Balanced :
      (clock : String → ℕ) (keys : List String) (s : Locks)
      → unique s.waiters ≡ true
      → let (s', sent) = promote_keys clock keys s in Balanced a 0 s.waiters s'.waiters sent
  unfolding promote_keys answers
  promote_keys-Balanced clock [] s u = (u, omega arith)
  promote_keys-Balanced clock (k ∷ keys) s u =
      let p = promote_key-Balanced a k (clock k) s u in
      let q = promote_keys-Balanced clock keys (promote_key (clock k) k s).0 p.0 in
      let r = Balanced-trans 0 0 _ _ _ _ _ p q in (r.0, omega (arith, r.1))

  turn-Balanced :
      (e : Event) (s : Locks)
      → unique s.waiters ≡ true
      → let (s', sent) = turn e s in Balanced a (asked_in a (e ∷ [])) s.waiters s'.waiters sent
  unfolding turn sweep_expired asked_in
  turn-Balanced (request t₀ t₁ r) s u =
      let p = handle_request-Balanced t₀ t₁ r s u in (p.0, omega (arith, p.1))
  turn-Balanced (sweep now clock) s u = promote_keys-Balanced clock (sweep_keys now s.locks) s u

  run-Balanced :
      (es : List Event) (s : Locks)
      → unique s.waiters ≡ true
      → let (s', sent) = run es s in Balanced a (asked_in a es) s.waiters s'.waiters sent
  unfolding run asked_in answers
  run-Balanced [] s u = (u, omega arith)
  run-Balanced (e ∷ es) s u =
      let p = turn-Balanced e s u in
      let q = run-Balanced es (turn e s).0 p.0 in
      let r = Balanced-trans _ _ _ _ _ _ _ p q in (r.0, omega (arith, r.1, asked_in-cons a e es))

-- Whatever the handler has served since its start: a channel has been answered as often as requests
-- asked for an answer on it, less the `Await`s that still wait with it.
pub run-answers :
    (a : ℕ) (es : List Event)
    → answers a (run es empty).1 + waits_in a (run es empty).0.waiters ≡ asked_in a es
unfolding waits_in unique
run-answers a es = omega (arith, (run-Balanced a es empty refl).1)
