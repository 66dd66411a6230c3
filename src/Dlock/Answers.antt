-- ===== src/Dlock/Answers.antt =====
-- Every one-shot channel of dlock_handler.rs is answered once, or still waits.
use hiqlite.Common.{
  ℕ, ◌+◌, String, ◌≡◌, refl, ap, true, Option, none, some, List, [], ◌∷◌, ◌++◌, arith, ◌==◌,
  if◌then◌else◌, Dict, lookup, insert, remove, eq_iff, is_absent, unique, unique-insert,
  unique-remove,
}
use hiqlite.Dlock.State.{
  LockQueue, Waiter, Reply, Locks, granted, kept, or_empty, wake, wake_found, promote,
  promote_front, promote_found, promote_key,
}
use hiqlite.Dlock.Handlers.{
  lock_found, acquire_found, release_found, alive_found, await_found, all_released, drained,
}

-- How often the channel `a` is answered, and how often it waits.
unfoldable pub answers : ℕ → List Reply → ℕ
answers a [] = 0
answers a ((ack, answer) ∷ sent) = (if ack == a then 1 else 0) + answers a sent

unfoldable pub waits : ℕ → List Waiter → ℕ
waits a [] = 0
waits a ((id, ack) ∷ ws) = (if ack == a then 1 else 0) + waits a ws

unfoldable pub waits_in : ℕ → Dict (List Waiter) → ℕ
waits_in a [] = 0
waits_in a ((k, ws) ∷ m) = waits a ws + waits_in a m

pub answers-append :
    (a : ℕ) (xs ys : List Reply) → answers a (xs ++ ys) ≡ answers a xs + answers a ys
unfolding answers
answers-append a [] ys = omega arith
answers-append a ((ack, x) ∷ xs) ys = omega (arith, answers-append a xs ys)

waits-append : (a : ℕ) (xs ys : List Waiter) → waits a (xs ++ ys) ≡ waits a xs + waits a ys
unfolding waits
waits-append a [] ys = omega arith
waits-append a ((id, ack) ∷ xs) ys = omega (arith, waits-append a xs ys)

answers-granted :
    (a front : ℕ) (ws : List Waiter)
    → answers a (granted front ws) + waits a (kept front ws) ≡ waits a ws
unfolding answers waits granted kept
answers-granted a front [] = refl
answers-granted a front ((id, ack) ∷ ws) = ground (arith, answers-granted a front ws)

answers-all_released : (a : ℕ) (ws : List Waiter) → answers a (all_released ws) ≡ waits a ws
unfolding answers waits all_released
answers-all_released a [] = refl
answers-all_released a ((id, ack) ∷ ws) = omega (arith, answers-all_released a ws)

pub answers-drained : (a : ℕ) (m : Dict (List Waiter)) → answers a (drained m) ≡ waits_in a m
unfolding answers waits_in drained
answers-drained a [] = refl
answers-drained a ((k, ws) ∷ m) = omega (
  arith,
  answers-append a (all_released ws) (drained m),
  answers-all_released a ws,
  answers-drained a m,
)

waits_in-insert :
    (a : ℕ) (k : String) (ws : List Waiter) (m : Dict (List Waiter))
    → waits_in a (insert k ws m) + waits a (or_empty (lookup k m)) ≡ waits_in a m + waits a ws
unfolding waits waits_in insert lookup
waits_in-insert a k ws [] = omega arith
waits_in-insert a k ws ((j, vs) ∷ m) = ground (arith, waits_in-insert a k ws m)

remove-absent :
    (k : String) (m : Dict (List Waiter)) → is_absent (lookup k m) ≡ true → remove k m ≡ m
unfolding remove lookup
remove-absent k [] h = refl
remove-absent k ((j, vs) ∷ m) h = ground (arith, remove-absent k m)

waits_in-remove :
    (a : ℕ) (k : String) (m : Dict (List Waiter))
    → unique m ≡ true
    → waits_in a (remove k m) + waits a (or_empty (lookup k m)) ≡ waits_in a m
unfolding waits waits_in remove lookup unique
waits_in-remove a k [] u = refl
waits_in-remove a k ((j, vs) ∷ m) u =
    ground (arith, waits_in-remove a k m, remove-absent k m, eq_iff j k)

-- What waits under `w` and is answered in `sent` makes up what waited, and some new answers.
abbrev pub Balanced : ℕ → ℕ → Dict (List Waiter) → Dict (List Waiter) → List Reply → Type 0
Balanced a new m m' sent =
    (unique m' ≡ true) × (answers a sent + waits_in a m' ≡ waits_in a m + new)

module _ (a : ℕ) (key : String) where
  wake_found-Balanced :
      (front : ℕ) (m : Dict (List Waiter))
      → unique m ≡ true
      → let (m', sent) = wake_found front key (lookup key m) m in Balanced a 0 m m' sent
  unfolding wake_found
  wake_found-Balanced front m u = go (lookup key m) refl
    where
      go :
          (o : Option (List Waiter))
          → lookup key m ≡ o
          → let (m', sent) = wake_found front key o m in Balanced a 0 m m' sent
      go none e = (u, unfold answers in omega arith)
      go (some ws) e = (
        unique-insert key (kept front ws) m u,
        omega (
          arith,
          answers-granted a front ws,
          waits_in-insert a key (kept front ws) m,
          ap (λ o. waits a (or_empty o)) e,
        ),
      )

  promote_front-Balanced :
      (now : ℕ) (q : LockQueue) (queue : List ℕ) (m : Dict (List Waiter))
      → unique m ≡ true
      → let (q', m', sent) = promote_front now q queue m key in Balanced a 0 m m' sent
  unfolding promote_front wake answers
  promote_front-Balanced now q [] m u = (u, omega arith)
  promote_front-Balanced now q (front ∷ rest) m u = wake_found-Balanced front m u

  promote-Balanced :
      (now : ℕ) (q : LockQueue) (m : Dict (List Waiter))
      → unique m ≡ true
      → let (q', m', sent) = promote now q m key in Balanced a 0 m m' sent
  unfolding promote answers
  promote-Balanced now q m u = ground (arith, promote_front-Balanced now q q.queue m u)

  pub promote_key-Balanced :
      (now : ℕ) (s : Locks)
      → unique s.waiters ≡ true
      → let (s', sent) = promote_key now key s in Balanced a 0 s.waiters s'.waiters sent
  unfolding promote_key promote_found answers
  promote_key-Balanced now s u = grind (arith, promote-Balanced)

  module _ (now id ack : ℕ) (s : Locks) (u : unique s.waiters ≡ true) where
    abbrev asked : ℕ
    asked = if ack == a then 1 else 0

    pub lock_found-Balanced :
        let (s', sent) = lock_found now key id ack (lookup key s.locks) s in
        Balanced a asked s.waiters s'.waiters sent
    unfolding lock_found answers
    lock_found-Balanced = grind arith

    pub acquire_found-Balanced :
        let (s', sent) = acquire_found now key id ack (lookup key s.locks) s in
        Balanced a asked s.waiters s'.waiters sent
    unfolding acquire_found answers
    acquire_found-Balanced = grind arith

    pub alive_found-Balanced :
        let (s', sent) = alive_found now key id ack (lookup key s.locks) s in
        Balanced a asked s.waiters s'.waiters sent
    unfolding alive_found answers
    alive_found-Balanced = grind arith

    pub await_found-Balanced :
        let (s', sent) = await_found now key id ack (lookup key s.locks) s in
        Balanced a asked s.waiters s'.waiters sent
    unfolding await_found answers waits
    await_found-Balanced = grind (arith, waits_in-insert, waits-append, unique-insert)

    pub release_found-Balanced :
        let (s', sent) = release_found now key id (lookup key s.locks) s in
        Balanced a 0 s.waiters s'.waiters sent
    unfolding release_found answers
    release_found-Balanced = grind (
      arith, promote-Balanced, waits_in-remove, unique-remove, answers-append, answers-all_released,
    )
