-- ===== src/CacheMachine/Told.antt =====
-- The answer that `apply` of the cache's state machine awaits of the locks is always sent.
use hiqlite.Common.{
  ℕ, String, Dict, lookup, ◌≡◌, refl, sym, subst, Bool, true, false, ◌&&◌, ◌||◌, leb, Option, none,
  some, List, [], ◌∷◌, ◌++◌, ◌==◌, if◌then◌else◌, arith, Bool-cases, inl, inr,
}
use hiqlite.Dlock.State as Lock
use hiqlite.Dlock.State.{Locks}
use hiqlite.Dlock.Handlers as Locking
use hiqlite.CacheMachine.{as_state, CacheResponse, lock_response, Clocks, answer_of, bind}

-- The answers to a lock's waiters, and to a lock's requests, are states.
states : List Lock.Reply → Bool
states [] = true
states ((ack, Lock.state x) ∷ sent) = states sent
states ((ack, other) ∷ sent) = false

abbrev Told : List Lock.Reply → Type 0
Told sent = (reply : CacheResponse) × (bind (answer_of sent) as_state ≡ some reply)

last-Told :
    (sent : List Lock.Reply) (x : Lock.LockState)
    → states sent ≡ true
    → Told (sent ++ ((0, Lock.state x) ∷ []))
unfolding states answer_of
last-Told [] x h = (lock_response x, refl)
last-Told ((ack, Lock.state y) ∷ sent) x h = elim (Bool-cases (ack == 0)) [
  | inl e ↦ (lock_response y, rw e refl)
  | inr e ↦ let (reply, told) = last-Told sent x h in (reply, rw e told)
]
last-Told ((ack, Lock.snapshot m) ∷ sent) x h = absurd (cc h)
last-Told ((ack, Lock.installed) ∷ sent) x h = absurd (cc h)

states-granted : (front : ℕ) (ws : List Lock.Waiter) → states (Lock.granted front ws) ≡ true
unfolding states Lock.granted
states-granted front [] = refl
states-granted front ((id, ack) ∷ ws) = ground (arith, states-granted front ws)

states-wake_found :
    (front : ℕ) (key : String) (o : Option (List Lock.Waiter)) (m : Dict (List Lock.Waiter))
    → states (Lock.wake_found front key o m).1 ≡ true
unfolding states Lock.wake_found
states-wake_found front key none m = refl
states-wake_found front key (some ws) m = states-granted front ws

states-promote_front :
    (now : ℕ) (q : Lock.LockQueue) (queue : List ℕ) (m : Dict (List Lock.Waiter)) (key : String)
    → states (Lock.promote_front now q queue m key).2 ≡ true
unfolding states Lock.promote_front Lock.wake
states-promote_front now q [] m key = refl
states-promote_front now q (front ∷ rest) m key = states-wake_found front key _ m

states-promote_found :
    (now : ℕ) (key : String) (o : Option Lock.LockQueue) (s : Locks)
    → states (Lock.promote_found now key o s).1 ≡ true
unfolding states Lock.promote_found Lock.promote
states-promote_found now key none s = refl
states-promote_found now key (some q) s =
    ground (arith, states-promote_front now q q.queue s.waiters key)

-- Each request of the log that waits for its answer is told a state.
abbrev IsState : List Lock.Reply → Type 0
IsState sent = (x : Lock.LockState) × (sent ≡ (0, Lock.state x) ∷ [])

if-IsState :
    (b : Bool) (x y : Lock.Step) → IsState x.1 → IsState y.1 → IsState (if b then x else y).1
if-IsState true x y h k = h
if-IsState false x y h k = k

behind-Told :
    (woken sent : List Lock.Reply) → states woken ≡ true → IsState sent → Told (woken ++ sent)
behind-Told woken sent h (x, e) = subst (λ l. Told (woken ++ l)) (sym e) (last-Told woken x h)

lock_found-IsState :
    (now : ℕ) (key : String) (id : ℕ) (o : Option Lock.LockQueue) (s : Locks)
    → IsState (Locking.lock_found now key id 0 o s).1
unfolding Locking.lock_found
lock_found-IsState now key id none s = (_, refl)
lock_found-IsState now key id (some q) s = if-IsState _ _ _ (_, refl) (_, refl)

acquire_found-IsState :
    (now : ℕ) (key : String) (id : ℕ) (o : Option Lock.LockQueue) (s : Locks)
    → IsState (Locking.acquire_found now key id 0 o s).1
unfolding Locking.acquire_found
acquire_found-IsState now key id none s = (_, refl)
acquire_found-IsState now key id (some q) s =
    if-IsState (Lock.holds q.current_ticket id && leb now q.exp) _ _ (Lock.locked id, refl)
      (if-IsState (Lock.is_none q.current_ticket || Lock.is_free q now) _ _ (Lock.locked id, refl)
        (Lock.queued id, refl))

alive_found-IsState :
    (now : ℕ) (key : String) (id : ℕ) (o : Option Lock.LockQueue) (s : Locks)
    → IsState (Locking.alive_found now key id 0 o s).1
unfolding Locking.alive_found
alive_found-IsState now key id none s = (_, refl)
alive_found-IsState now key id (some q) s = if-IsState _ _ _ (_, refl) (_, refl)

module _ (t : Clocks) where
  pub lock-Told :
      (key : String) (id : ℕ) (s : Locks)
      → Told (Locking.turn (Locking.request t.lock_before t.lock_behind (Lock.lock key id 0)) s).1
  unfolding Locking.turn Locking.handle_request Locking.handle_lock Lock.promote_key
  lock-Told key id s =
      behind-Told _ _ (states-promote_found t.lock_before key _ s)
        (lock_found-IsState t.lock_behind key id _ _)

  pub acquire-Told :
      (key : String) (id : ℕ) (s : Locks)
      → Told
          (Locking.turn (Locking.request t.lock_before t.lock_behind (Lock.acquire key id 0)) s).1
  unfolding Locking.turn Locking.handle_request Locking.handle_acquire Lock.promote_key
  acquire-Told key id s =
      behind-Told _ _ (states-promote_found t.lock_before key _ s)
        (acquire_found-IsState t.lock_behind key id _ _)

  pub alive-Told :
      (key : String) (id : ℕ) (s : Locks)
      → Told (Locking.turn (Locking.request t.lock_before t.lock_behind (Lock.alive key id 0)) s).1
  unfolding Locking.turn Locking.handle_request Locking.handle_alive states
  alive-Told key id s =
      behind-Told [] _ refl (alive_found-IsState t.lock_before key id (lookup key s.locks) s)
