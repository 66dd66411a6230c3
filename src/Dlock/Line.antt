-- ===== src/Dlock/Line.antt =====
-- The tickets of one key in their order, and what each request of dlock_handler.rs does to them.
use hiqlite.Common.{
  ℕ, ◌+◌, ◌≤◌, ◌<◌, String, ◌≡◌, refl, Bool, true, false, ◌||◌, ◌&&◌, not, Option, none, some, List,
  [], ◌∷◌, ◌++◌, arith, ltb, if◌then◌else◌, contains, Dict, lookup, lookup-insert_self,
  lookup-remove_self, str_eq, eq_iff, subst, ap, ◌∙◌,
}
use hiqlite.Dlock.State.{
  lock_valid_seconds, locked, queued, state, LockRequest, lock, acquire, await, alive, release,
  snapshot_build, snapshot_install, LockQueue, Waiter, Locks, holds, is_empty, is_free, promote,
  promote_front, promote_found, promote_key,
}
use hiqlite.Dlock.Frame.{concerns}
use hiqlite.Dlock.Handlers.{
  lock_found, acquire_found, release_found, alive_found, await_found, handle_lock, handle_acquire,
  handle_await, handle_alive, handle_release, handle_request,
}

abbrev pub with_holder : Option ℕ → List ℕ → List ℕ
with_holder none queue = queue
with_holder (some t) queue = t ∷ queue

-- The holder, if its lease is alive at `now`, and the queue behind it.
abbrev pub line_of : ℕ → Option LockQueue → List ℕ
line_of now none = []
line_of now (some q) = if is_free q now then q.queue else with_holder q.current_ticket q.queue

abbrev pub line : ℕ → String → Locks → List ℕ
line now key s = line_of now (lookup key s.locks)

-- No lock of the table is free while somebody queues for it.
abbrev pub settled : ℕ → Option LockQueue → Bool
settled now none = true
settled now (some q) = not (is_free q now) || is_empty q.queue

-- `id` holds the lock, and its lease is over or alive.
abbrev pub lapsed : ℕ → ℕ → Option LockQueue → Bool
lapsed now id none = false
lapsed now id (some q) = holds q.current_ticket id && ltb q.exp now

abbrev pub leads : ℕ → ℕ → Option LockQueue → Bool
leads now id none = false
leads now id (some q) = holds q.current_ticket id && not (ltb q.exp now)

abbrev pub tail : List ℕ → List ℕ
tail [] = []
tail (x ∷ xs) = xs

promote_front-line :
    (now : ℕ) (q : LockQueue) (queue : List ℕ) (m : Dict (List Waiter)) (key : String)
    → q.queue ≡ queue
    → is_free q now ≡ true
    → let q' = (promote_front now q queue m key).0 in
      (line_of now (some q') ≡ queue) × (settled now (some q') ≡ true)
unfolding promote_front
promote_front-line now q [] m key e f = ground arith
promote_front-line now q (front ∷ rest) m key e f = ground arith

promote-line :
    (now : ℕ) (q : LockQueue) (m : Dict (List Waiter)) (key : String)
    → let q' = (promote now q m key).0 in
      (line_of now (some q') ≡ line_of now (some q)) × (settled now (some q') ≡ true)
unfolding promote
promote-line now q m key = ground (arith, promote_front-line now q q.queue m key)

module _ (now : ℕ) (key : String) (s : Locks) where
  promote_found-line :
      (o : Option LockQueue)
      → lookup key s.locks ≡ o
      → let s' = (promote_found now key o s).0 in
        (line now key s' ≡ line_of now o) × (settled now (lookup key s'.locks) ≡ true)
  unfolding promote_found
  promote_found-line none e = rw e (refl, refl)
  promote_found-line (some q) e = rw lookup-insert_self (promote-line now q s.waiters key)

  -- A promotion moves nobody in the line, and leaves the key settled.
  pub promote_key-line :
      let s' = (promote_key now key s).0 in
      (line now key s' ≡ line now key s) × (settled now (lookup key s'.locks) ≡ true)
  unfolding promote_key
  promote_key-line = promote_found-line (lookup key s.locks) refl

  lock_found-line :
      (id ack : ℕ)
      → settled now (lookup key s.locks) ≡ true
      → let (s', sent) = lock_found now key id ack (lookup key s.locks) s in
        (line now key s' ≡ line now key s ++ (id ∷ []))
        × (sent ≡ (ack, state (if is_empty (line now key s) then locked id else queued id)) ∷ [])
  unfolding lock_found
  lock_found-line id ack h = grind (arith, lookup-insert_self)

  acquire_found-line :
      (id ack : ℕ)
      → settled now (lookup key s.locks) ≡ true
      → let (s', sent) = acquire_found now key id ack (lookup key s.locks) s in
        line now key s'
        ≡ (if contains (line now key s) id then line now key s else line now key s ++ (id ∷ []))
  unfolding acquire_found
  acquire_found-line id ack h = grind (arith, lookup-insert_self)

  await_found-line :
      (id ack : ℕ)
      → let (s', sent) = await_found now key id ack (lookup key s.locks) s in
        line now key s' ≡ line now key s
  unfolding await_found
  await_found-line id ack = grind arith

  alive_found-line :
      (id ack : ℕ)
      → let s' = (alive_found now key id ack (lookup key s.locks) s).0 in
        line now key s'
        ≡ (if lapsed now id (lookup key s.locks) then id ∷ line now key s else line now key s)
  unfolding alive_found
  alive_found-line id ack = grind (arith, lookup-insert_self)

  release_found-line :
      (id : ℕ)
      → let s' = (release_found now key id (lookup key s.locks) s).0 in
        line now key s'
        ≡ (if leads now id (lookup key s.locks) then tail (line now key s) else line now key s)
  unfolding release_found
  release_found-line id = grind (arith, lookup-insert_self, lookup-remove_self, promote-line)

-- What a request does to the line of the key `k`, where `o` is the lock of that key.
abbrev pub next_line : ℕ → LockRequest → String → Option LockQueue → List ℕ
next_line now (lock key id ack) k o = line_of now o ++ (id ∷ [])
next_line now (acquire key id ack) k o =
    if contains (line_of now o) id then line_of now o else line_of now o ++ (id ∷ [])
next_line now (await key id ack) k o = line_of now o
next_line now (alive key id ack) k o = if lapsed now id o then id ∷ line_of now o else line_of now o
next_line now (release key id) k o = if leads now id o then tail (line_of now o) else line_of now o
next_line now (snapshot_build ack) k o = line_of now o
next_line now (snapshot_install new ack) k o = line_of now (lookup k new)

own_line :
    (now : ℕ) (r : LockRequest) (key k : String) (s : Locks)
    → str_eq key k ≡ true
    → line now key (handle_request now now r s).0 ≡ next_line now r key (lookup key s.locks)
    → line now k (handle_request now now r s).0 ≡ next_line now r key (lookup k s.locks)
own_line now r key k s e h =
    subst (λ i. line now i (handle_request now now r s).0 ≡ next_line now r key (lookup i s.locks))
      ((eq_iff key k).0 e) h

-- At one reading of the clock, a request moves the line of each key that it concerns in order: a
-- `Lock` joins at the back, an `Acquire` does so unless its ticket is in the line, an `Await` moves
-- nobody, a `Release` takes off the head if that is its ticket and the ticket's lease is alive, and
-- an `Alive` for a holder whose lease is over puts it back at the head. No other ticket is skipped,
-- lost or moved. An installed snapshot brings its own line.
pub handle_request-line :
    (now : ℕ) (r : LockRequest) (k : String) (s : Locks)
    → concerns r k ≡ true
    → line now k (handle_request now now r s).0 ≡ next_line now r k (lookup k s.locks)
unfolding handle_request handle_lock handle_acquire handle_await handle_alive handle_release
handle_request-line now (lock key id ack) k s e = own_line now (lock key id ack) key k s e (
    unfold handle_request handle_lock in
    (lock_found-line now key _ id ack (promote_key-line now key s).1).0
    ∙ ap (λ l. l ++ (id ∷ [])) (promote_key-line now key s).0)
handle_request-line now (acquire key id ack) k s e = own_line now (acquire key id ack) key k s e (
    acquire_found-line now key _ id ack (promote_key-line now key s).1
    ∙ ap (λ l. if contains l id then l else l ++ (id ∷ [])) (promote_key-line now key s).0)
handle_request-line now (await key id ack) k s e =
    own_line now (await key id ack) key k s e
      (await_found-line now key (promote_key now key s).0 id ack ∙ (promote_key-line now key s).0)
handle_request-line now (alive key id ack) k s e =
    own_line now (alive key id ack) key k s e (alive_found-line now key s id ack)
handle_request-line now (release key id) k s e =
    own_line now (release key id) key k s e (release_found-line now key s id)
handle_request-line now (snapshot_build ack) k s e = refl
handle_request-line now (snapshot_install new ack) k s e = refl

-- A first try is told at once that it has the lock if nobody stands in the line of its key, and else
-- that it is queued. Before that, only the waiters of a promoted ticket are answered.
pub handle_lock-answer :
    (now : ℕ) (key : String) (id ack : ℕ) (s : Locks)
    → (handle_lock now now key id ack s).1
      ≡ (promote_key now key s).1
        ++ ((ack, state (if is_empty (line now key s) then locked id else queued id)) ∷ [])
unfolding handle_lock
handle_lock-answer now key id ack s =
    ap (λ l. (promote_key now key s).1 ++ l)
      ((lock_found-line now key _ id ack (promote_key-line now key s).1).1
        ∙ ap (λ l. (ack, state (if is_empty l then locked id else queued id)) ∷ [])
            (promote_key-line now key s).0)

-- Two readings of the clock in one `Lock`: where the holder's lease is alive at the first and over at
-- the second, the new ticket is told that it has the lock, and has it with a new lease, though others
-- queue, and they stay queued behind it.
pub handle_lock-overtakes :
    (t₀ t₁ : ℕ) (key : String) (id ack : ℕ) (s : Locks) (q : LockQueue) (holder : ℕ)
    → lookup key s.locks ≡ some q
    → q.current_ticket ≡ some holder
    → t₀ ≤ q.exp
    → q.exp < t₁
    → let (s', sent) = handle_lock t₀ t₁ key id ack s in
      (lookup key s'.locks
        ≡ some
            (record { current_ticket = some id; exp = t₁ + lock_valid_seconds; queue = q.queue }))
      × (sent ≡ (ack, state (locked id)) ∷ [])
unfolding handle_lock promote_key promote_found promote lock_found
handle_lock-overtakes t₀ t₁ key id ack s q holder e h valid over = grind (arith, lookup-insert_self)
