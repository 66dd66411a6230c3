-- ===== src/CacheMachine/Routed.antt =====
-- What a request of the log of state_machine.rs is to each cache and to the locks.
use hiqlite.Common.{
  ℕ, zero, suc, ◌<◌, ◌≡◌, ◌∙◌, refl, sym, ap, Option, none, some, List, [], ◌∷◌, ◌++◌, ◌==◌,
  if◌then◌else◌, arith, length, get_elem?, Bool-cases, inl, inr,
}
use hiqlite.Cache.State.{Cache}
use hiqlite.Cache.Handlers as Kv
use hiqlite.Dlock.State as Lock
use hiqlite.Dlock.State.{Locks}
use hiqlite.Dlock.Handlers as Locking
use hiqlite.CacheMachine.{
  as_value, as_sum, as_state, Raft, Machine, get, put, get_remove, replace, delete, clear,
  clear_counters, clear_all, notify, lock, lock_await, lock_release, lock_alive, counter_get,
  counter_set, counter_add, counter_del, ok, CacheRequest, CacheResponse, lock_response, Clocks,
  answer_of, put_at, clear_caches, send_cache, send_lock, done, awaited, apply_request, bind,
}
use hiqlite.CacheMachine.Told.{lock-Told, acquire-Told, alive-Told}

-- What a request is to the handler of the cache at `j`.
abbrev pub at_cache : Clocks → ℕ → ℕ → Kv.CacheRequest → List Kv.Event
at_cache t j i req = if i == j then Kv.request t.due t.now req ∷ [] else []

abbrev pub cache_events : Clocks → ℕ → CacheRequest → List Kv.Event
cache_events t j (put i key v expires) = at_cache t j i (Kv.put key v expires)
cache_events t j (get_remove i key) = at_cache t j i (Kv.get_remove key 0)
cache_events t j (replace i key v expires) = at_cache t j i (Kv.replace key v expires 0)
cache_events t j (delete i key) = at_cache t j i (Kv.delete key)
cache_events t j (clear i) = at_cache t j i Kv.clear
cache_events t j (clear_counters i) = at_cache t j i Kv.clear_counters
cache_events t j clear_all =
    Kv.request t.due t.now Kv.clear ∷ Kv.request t.due t.now Kv.clear_counters ∷ []
cache_events t j (counter_set i key v) = at_cache t j i (Kv.counter_set key v)
cache_events t j (counter_add i key delta) = at_cache t j i (Kv.counter_add key delta 0)
cache_events t j (counter_del i key) = at_cache t j i (Kv.counter_del key)
cache_events t j _ = []

-- The ticket of a first try is the entry's index.
abbrev pub lock_events : Clocks → ℕ → CacheRequest → List Locking.Event
lock_events t index (lock key none) =
    Locking.request t.lock_before t.lock_behind (Lock.lock key index 0) ∷ []
lock_events t index (lock key (some ticket)) =
    Locking.request t.lock_before t.lock_behind (Lock.acquire key ticket 0) ∷ []
lock_events t index (lock_alive key ticket) =
    Locking.request t.lock_before t.lock_behind (Lock.alive key ticket 0) ∷ []
lock_events t index (lock_release key ticket) =
    Locking.request t.lock_before t.lock_behind (Lock.release key ticket) ∷ []
lock_events t index _ = []

-- The log has writes alone, of caches that are there.
abbrev pub IsWrite : ℕ → CacheRequest → Type 0
IsWrite n (get i key) = ⊥
IsWrite n (counter_get i key) = ⊥
IsWrite n (lock_await key ticket) = ⊥
IsWrite n (put i key v expires) = i < n
IsWrite n (get_remove i key) = i < n
IsWrite n (replace i key v expires) = i < n
IsWrite n (delete i key) = i < n
IsWrite n (clear i) = i < n
IsWrite n (clear_counters i) = i < n
IsWrite n (counter_set i key v) = i < n
IsWrite n (counter_add i key delta) = i < n
IsWrite n (counter_del i key) = i < n
IsWrite n _ = Unit

some-injective {ℓ} : {A : Type ℓ} {x y : A} → some x ≡ some y → x ≡ y
some-injective p = cc p

module _ {ℓ} {A : Type ℓ} where
  get_elem?-lt : (xs : List A) (i : ℕ) → i < length xs → (a : A) × (get_elem? xs i ≡ some a)
  get_elem?-lt [] i h = absurd (omega (arith, h))
  get_elem?-lt (x ∷ xs) zero h = (x, refl)
  get_elem?-lt (x ∷ xs) (suc i) h = get_elem?-lt xs i (omega (arith, h))

  length-put_at : (i : ℕ) (a : A) (xs : List A) → length (put_at i a xs) ≡ length xs
  unfolding put_at
  length-put_at i a [] = refl
  length-put_at zero a (x ∷ xs) = refl
  length-put_at (suc i) a (x ∷ xs) = ap suc (length-put_at i a xs)

  get_elem?-put_at :
      (i j : ℕ) (a b : A) (xs : List A)
      → get_elem? xs j ≡ some b
      → get_elem? (put_at i a xs) j ≡ some (if i == j then a else b)
  unfolding put_at
  get_elem?-put_at i j a b [] h = absurd (cc h)
  get_elem?-put_at zero zero a b (x ∷ xs) h = refl
  get_elem?-put_at zero (suc j) a b (x ∷ xs) h = ground (arith, h)
  get_elem?-put_at (suc i) zero a b (x ∷ xs) h = ground (arith, h)
  get_elem?-put_at (suc i) (suc j) a b (x ∷ xs) h = ground (arith, get_elem?-put_at i j a b xs h)

length-clear_caches :
    (t : Clocks) (caches : List Cache) → length (clear_caches t caches) ≡ length caches
unfolding clear_caches
length-clear_caches t [] = refl
length-clear_caches t (cache ∷ caches) = ap suc (length-clear_caches t caches)

get_elem?-clear_caches :
    (t : Clocks) (j : ℕ) (c : Cache) (caches : List Cache)
    → get_elem? caches j ≡ some c
    → get_elem? (clear_caches t caches) j ≡ some (Kv.run (cache_events t j clear_all) c).0
unfolding clear_caches Kv.run
get_elem?-clear_caches t j c [] h = absurd (cc h)
get_elem?-clear_caches t zero c (x ∷ xs) h = rw (some-injective h) refl
get_elem?-clear_caches t (suc j) c (x ∷ xs) h = get_elem?-clear_caches t j c xs h

module _ {r : Raft} where
  -- A request that one cache, or the locks, or nobody takes, is answered and leaves the cache at `j`
  -- and the locks as their own handlers do.
  abbrev pub Goes :
      ℕ
      → Cache
      → Machine r
      → List Kv.Event
      → List Locking.Event
      → Option (Machine r × CacheResponse)
      → Type 0
  Goes j c m cs ls x =
      (m₁ : Machine r) × (reply : CacheResponse) × (x ≡ some (m₁, reply))
      × (length m₁.caches ≡ length m.caches)
      × (get_elem? m₁.caches j ≡ some (Kv.run cs c).0)
      × (m₁.locks ≡ (Locking.run ls m.locks).0)

  module _ (t : Clocks) (j : ℕ) (c : Cache) (m : Machine r)
      (at : get_elem? m.caches j ≡ some c) where
    own_turn :
        (i : ℕ) (req : Kv.CacheRequest) (cache : Cache)
        → get_elem? m.caches i ≡ some cache
        → (if i == j then (Kv.turn (Kv.request t.due t.now req) cache).0 else c)
          ≡ (Kv.run (at_cache t j i req) c).0
    unfolding Kv.run
    own_turn i req cache e = elim (Bool-cases (i == j)) [
      | inl same ↦
          let ij : i ≡ j = ground (arith, same) in
          let here : cache ≡ c = some-injective (sym e ∙ ap (get_elem? m.caches) ij ∙ at) in
          rw same (ap (λ v. (Kv.turn (Kv.request t.due t.now req) v).0) here)
      | inr other ↦ rw other refl
    ]

    send_cache-lt :
        (i : ℕ) (req : Kv.CacheRequest)
        → i < length m.caches
        → (m₁ : Machine r) × (cache : Cache) × (send_cache t i req m
            ≡ some (m₁, (Kv.turn (Kv.request t.due t.now req) cache).1))
          × (length m₁.caches ≡ length m.caches)
          × (get_elem? m₁.caches j ≡ some (Kv.run (at_cache t j i req) c).0)
          × (m₁.locks ≡ m.locks)
    unfolding send_cache
    send_cache-lt i req h =
        let (cache, e) = get_elem?-lt m.caches i h in
        let new = (Kv.turn (Kv.request t.due t.now req) cache).0 in
        (
          record m { caches = put_at i new m.caches },
          cache,
          rw e refl,
          length-put_at i new m.caches,
          get_elem?-put_at i j new c m.caches at ∙ ap some (own_turn i req cache e),
          refl,
        )

    done-Goes :
        (i : ℕ) (req : Kv.CacheRequest)
        → i < length m.caches
        → Goes j c m (at_cache t j i req) [] (done ok (send_cache t i req m))
    unfolding Locking.run
    done-Goes i req h =
        let (m₁, cache, e, len, own, locks) = send_cache-lt i req h in
        (m₁, ok, rw e refl, len, own, locks)

    awaited-Goes :
        (i : ℕ) (req : Kv.CacheRequest) (read : Kv.Answer → Option CacheResponse)
        → i < length m.caches
        → ((cache : Cache)
            → (reply : CacheResponse) × (bind
                  (answer_of (Kv.turn (Kv.request t.due t.now req) cache).1)
                  read
                ≡ some reply))
        → Goes j c m (at_cache t j i req) [] (awaited read (send_cache t i req m))
    unfolding Locking.run
    awaited-Goes i req read h answers =
        let (m₁, cache, e, len, own, locks) = send_cache-lt i req h in
        let (reply, told) = answers cache in (m₁, reply, rw (e, told) refl, len, own, locks)

    lock-Goes :
        (req : Lock.LockRequest) (reply : CacheResponse)
        → bind
            (answer_of (Locking.turn (Locking.request t.lock_before t.lock_behind req) m.locks).1)
            as_state
          ≡ some reply
        → Goes j c m []
            (Locking.request t.lock_before t.lock_behind req ∷ [])
            (awaited as_state (some (send_lock t req m)))
    unfolding send_lock Kv.run Locking.run
    lock-Goes req reply told =
        let locks = (Locking.turn (Locking.request t.lock_before t.lock_behind req) m.locks).0 in
        (record m { locks = locks }, reply, rw told refl, refl, at, refl)

    -- A write is answered, and taken by its own cache or by the locks.
    pub apply_request-Goes :
        (id : r.LogId) (req : CacheRequest)
        → IsWrite (length m.caches) req
        → Goes j c m
            (cache_events t j req)
            (lock_events t (r.index id) req)
            (apply_request t id req m)
    unfolding apply_request Kv.run Locking.run Kv.turn Kv.handle_request answer_of
    apply_request-Goes id (get i key) h = absurd h
    apply_request-Goes id (counter_get i key) h = absurd h
    apply_request-Goes id (lock_await key ticket) h = absurd h
    apply_request-Goes id (put i key v expires) h = done-Goes i _ h
    apply_request-Goes id (delete i key) h = done-Goes i _ h
    apply_request-Goes id (clear i) h = done-Goes i _ h
    apply_request-Goes id (clear_counters i) h = done-Goes i _ h
    apply_request-Goes id (counter_set i key v) h = done-Goes i _ h
    apply_request-Goes id (counter_del i key) h = done-Goes i _ h
    apply_request-Goes id (get_remove i key) h = awaited-Goes i _ as_value h (λ cache. (_, refl))
    apply_request-Goes id (replace i key v expires) h =
        awaited-Goes i _ as_value h (λ cache. (_, refl))
    apply_request-Goes id (counter_add i key delta) h =
        awaited-Goes i _ as_sum h (λ cache. (_, refl))
    apply_request-Goes id clear_all h = (
      record m { caches = clear_caches t m.caches },
      ok,
      refl,
      length-clear_caches t m.caches,
      get_elem?-clear_caches t j c m.caches at,
      refl,
    )
    apply_request-Goes id (notify n payload) h =
        (record m { notified = m.notified ++ ((n, payload) ∷ []) }, ok, refl, refl, at, refl)
    apply_request-Goes id (lock key none) h =
        let (reply, told) = lock-Told t key (r.index id) m.locks in lock-Goes _ reply told
    apply_request-Goes id (lock key (some ticket)) h =
        let (reply, told) = acquire-Told t key ticket m.locks in lock-Goes _ reply told
    apply_request-Goes id (lock_alive key ticket) h =
        let (reply, told) = alive-Told t key ticket m.locks in lock-Goes _ reply told
    apply_request-Goes id (lock_release key ticket) h =
        unfold send_lock in
        (
          record m {
            locks =
                (Locking.turn
                  (Locking.request t.lock_before t.lock_behind (Lock.release key ticket))
                  m.locks).0;
          },
          lock_response Lock.released,
          refl,
          refl,
          at,
          refl,
        )
