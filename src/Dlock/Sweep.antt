-- ===== src/Dlock/Sweep.antt =====
-- The sweep of dlock_handler.rs leaves no queue behind a free lock.
use hiqlite.Common.{
  ℕ, String, ◌≡◌, refl, Bool, true, false, ◌||◌, List, [], ◌∷◌, arith, Dict, lookup, str_eq, eq_iff,
  subst, Bool-cases, inl, inr,
}
use hiqlite.Dlock.State.{LockQueue, Locks, promote_key}
use hiqlite.Dlock.Handlers.{sweep_keys, promote_keys, sweep_expired}
use hiqlite.Dlock.Frame.{promote_key-frame}
use hiqlite.Dlock.Line.{settled, promote_key-line}

listed : String → List String → Bool
listed k [] = false
listed k (key ∷ keys) = str_eq key k || listed k keys

module _ (now : ℕ) (k : String) where
  sweep_keys-listed :
      (m : Dict LockQueue) → (listed k (sweep_keys now m) || settled now (lookup k m)) ≡ true
  unfolding listed sweep_keys lookup
  sweep_keys-listed [] = refl
  sweep_keys-listed ((key, q) ∷ m) = ground (arith, sweep_keys-listed m)

  promote_key-settled :
      (key : String) (s : Locks)
      → (str_eq key k || settled now (lookup k s.locks)) ≡ true
      → settled now (lookup k (promote_key now key s).0.locks) ≡ true
  promote_key-settled key s h = elim (Bool-cases (str_eq key k)) [
    | inl e ↦
        subst (λ j. settled now (lookup j (promote_key now key s).0.locks) ≡ true)
          ((eq_iff key k).0 e) (promote_key-line now key s).1
    | inr e ↦ rw (promote_key-frame key k e now s).same_lock (ground (arith, e, h))
  ]

  promote_keys-settled :
      (keys : List String) (s : Locks)
      → (listed k keys || settled now (lookup k s.locks)) ≡ true
      → settled now (lookup k (promote_keys (λ key. now) keys s).0.locks) ≡ true
  unfolding listed promote_keys
  promote_keys-settled [] s h = h
  promote_keys-settled (key ∷ keys) s h =
      promote_keys-settled keys (promote_key now key s).0
        (ground (arith, promote_key-settled key s))

-- After a sweep at one reading of the clock no key has a free lock, one with no holder or with a
-- holder whose lease is over, and somebody in its queue.
pub sweep_expired-settled :
    (now : ℕ) (s : Locks) (k : String)
    → settled now (lookup k (sweep_expired now (λ key. now) s).0.locks) ≡ true
unfolding sweep_expired
sweep_expired-settled now s k =
    promote_keys-settled now k (sweep_keys now s.locks) s (sweep_keys-listed now k s.locks)
