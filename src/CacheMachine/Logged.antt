-- ===== src/CacheMachine/Logged.antt =====
-- What a log is to each cache and to the locks of state_machine.rs.
use hiqlite.Common.{
  if_ind, ◌≤◌, ℕ, String, suc, ◌≡◌, ◌∙◌, refl, sym, ap, subst, Option, none, some, List, [], ◌∷◌,
  ◌++◌, ◌==◌, length, get_elem?, All,
}
use hiqlite.Cache.State.{Cache}
use hiqlite.Cache.Handlers as Kv
use hiqlite.Dlock.State.{Locks}
use hiqlite.Dlock.Handlers as Locking
use hiqlite.CacheMachine.{
  Raft, Machine, Entry, get, put, get_remove, replace, delete, clear, clear_counters, clear_all,
  notify, lock, lock_await, lock_release, lock_alive, counter_get, counter_set, counter_add,
  counter_del, Payload, blank, normal, membership, empty, CacheRequest, CacheResponse, Clocks,
  apply_entry, apply_entries, apply,
}
use hiqlite.CacheMachine.Routed.{
  at_cache, cache_events, lock_events, IsWrite, Goes, apply_request-Goes,
}
use hiqlite.Cache.History.{history, IsMap, AreMaps, ReadBy, get-history}

Kv_run-append :
    (xs ys : List Kv.Event) (s : Cache) → (Kv.run (xs ++ ys) s).0 ≡ (Kv.run ys (Kv.run xs s).0).0
unfolding Kv.run
Kv_run-append [] ys s = refl
Kv_run-append (x ∷ xs) ys s = Kv_run-append xs ys (Kv.turn x s).0

Locking_run-append :
    (xs ys : List Locking.Event) (s : Locks)
    → (Locking.run (xs ++ ys) s).0 ≡ (Locking.run ys (Locking.run xs s).0).0
unfolding Locking.run
Locking_run-append [] ys s = refl
Locking_run-append (x ∷ xs) ys s = Locking_run-append xs ys (Locking.turn x s).0

-- No request of a log installs a snapshot.
at_cache-AreMaps :
    (t : Clocks) (j i : ℕ) (req : Kv.CacheRequest) → IsMap req → AreMaps (at_cache t j i req)
at_cache-AreMaps t j i req h = if_ind AreMaps (i == j) (λ _. (h, tt)) (λ _. tt)

cache_events-AreMaps : (t : Clocks) (j : ℕ) (req : CacheRequest) → AreMaps (cache_events t j req)
cache_events-AreMaps t j (get i key) = tt
cache_events-AreMaps t j (put i key v expires) = at_cache-AreMaps t j i _ tt
cache_events-AreMaps t j (get_remove i key) = at_cache-AreMaps t j i _ tt
cache_events-AreMaps t j (replace i key v expires) = at_cache-AreMaps t j i _ tt
cache_events-AreMaps t j (delete i key) = at_cache-AreMaps t j i _ tt
cache_events-AreMaps t j (clear i) = at_cache-AreMaps t j i _ tt
cache_events-AreMaps t j (clear_counters i) = at_cache-AreMaps t j i _ tt
cache_events-AreMaps t j clear_all = (tt, (tt, tt))
cache_events-AreMaps t j (notify n payload) = tt
cache_events-AreMaps t j (lock key ticket) = tt
cache_events-AreMaps t j (lock_alive key ticket) = tt
cache_events-AreMaps t j (lock_await key ticket) = tt
cache_events-AreMaps t j (lock_release key ticket) = tt
cache_events-AreMaps t j (counter_get i key) = tt
cache_events-AreMaps t j (counter_del i key) = at_cache-AreMaps t j i _ tt
cache_events-AreMaps t j (counter_set i key v) = at_cache-AreMaps t j i _ tt
cache_events-AreMaps t j (counter_add i key delta) = at_cache-AreMaps t j i _ tt

AreMaps-append : (xs ys : List Kv.Event) → AreMaps xs → AreMaps ys → AreMaps (xs ++ ys)
AreMaps-append [] ys h k = k
AreMaps-append (Kv.request clock now r ∷ xs) ys (h, hs) k = (h, AreMaps-append xs ys hs k)
AreMaps-append (Kv.timeout clock ∷ xs) ys h k = AreMaps-append xs ys h k

module _ {r : Raft} where
  -- What a log is to the handler of the cache at `j`, and to that of the locks.
  abbrev payload_events : ℕ → Clocks → Payload r → List Kv.Event
  payload_events j t blank = []
  payload_events j t (normal req) = cache_events t j req
  payload_events j t (membership mem) = []

  abbrev pub events_at : ℕ → List (Entry r) → List Kv.Event
  events_at j [] = []
  events_at j (e ∷ es) = payload_events j e.clocks e.payload ++ events_at j es

  abbrev payload_locks : r.LogId → Clocks → Payload r → List Locking.Event
  payload_locks id t blank = []
  payload_locks id t (normal req) = lock_events t (r.index id) req
  payload_locks id t (membership mem) = []

  abbrev pub events_locks : List (Entry r) → List Locking.Event
  events_locks [] = []
  events_locks (e ∷ es) = payload_locks e.log_id e.clocks e.payload ++ events_locks es

  abbrev pub IsLogged : ℕ → Payload r → Type 0
  IsLogged n blank = Unit
  IsLogged n (normal req) = IsWrite n req
  IsLogged n (membership mem) = Unit

  apply_payload-Goes :
      (id : r.LogId) (t : Clocks) (payload : Payload r) (j : ℕ) (c : Cache) (m : Machine r)
      → IsLogged (length m.caches) payload
      → get_elem? m.caches j ≡ some c
      → Goes j c m
          (payload_events j t payload)
          (payload_locks id t payload)
          (apply_entry (record { log_id = id; payload = payload; clocks = t }) m)
  unfolding apply_entry Kv.run Locking.run
  apply_payload-Goes id t blank j c m h at = (m, empty, refl, refl, at, refl)
  apply_payload-Goes id t (normal req) j c m h at = apply_request-Goes t j c m at id req h
  apply_payload-Goes id t (membership mem) j c m h at =
      (record m { last_membership = (some id, some mem) }, empty, refl, refl, at, refl)

  apply_entries-run :
      (es : List (Entry r)) (last : Option r.LogId) (j : ℕ) (c : Cache) (m : Machine r)
      → All (λ e. IsLogged (length m.caches) e.payload) es
      → get_elem? m.caches j ≡ some c
      → (m' : Machine r) × (replies : List CacheResponse) × (last' : Option r.LogId)
        × (apply_entries last es m ≡ some (m', replies, last'))
        × (length replies ≡ length es)
        × (get_elem? m'.caches j ≡ some (Kv.run (events_at j es) c).0)
        × (m'.locks ≡ (Locking.run (events_locks es) m.locks).0)
  unfolding apply_entries Kv.run Locking.run
  apply_entries-run [] last j c m h at = (m, [], last, refl, refl, at, refl)
  apply_entries-run (e ∷ es) last j c m (h, hs) at =
      let (m₁, reply, run₁, len, at₁, locks₁) =
        apply_payload-Goes e.log_id e.clocks e.payload j c m h at in
      let (m', replies, last', run', len', at', locks') =
        apply_entries-run es (some e.log_id) j _ m₁
          (subst (λ n. All (λ e. IsLogged n e.payload) es) (sym len) hs) at₁ in
      (
        m',
        reply ∷ replies,
        last',
        rw (run₁, run') refl,
        ap suc len',
        at'
            ∙ ap some
                (sym (Kv_run-append (payload_events j e.clocks e.payload) (events_at j es) c)),
        locks'
            ∙ ap (λ l. (Locking.run (events_locks es) l).0) locks₁
            ∙ sym (
                Locking_run-append (payload_locks e.log_id e.clocks e.payload) (events_locks es)
                  m.locks),
      )

  -- The application of a log, by the runs of the handlers.
  pub apply-run :
      (es : List (Entry r)) (j : ℕ) (c : Cache) (m : Machine r)
      → All (λ e. IsLogged (length m.caches) e.payload) es
      → get_elem? m.caches j ≡ some c
      → (m' : Machine r) × (replies : List CacheResponse) × (apply es m ≡ some (m', replies))
        × (length replies ≡ length es)
        × (get_elem? m'.caches j ≡ some (Kv.run (events_at j es) c).0)
        × (m'.locks ≡ (Locking.run (events_locks es) m.locks).0)
  unfolding apply
  apply-run es j c m h at =
      let (m', replies, last, e, len, own, locks) = apply_entries-run es none j c m h at in
      (record m' { last_applied_log_id = last }, replies, rw e refl, len, own, locks)

  payload_events-AreMaps :
      (j : ℕ) (t : Clocks) (payload : Payload r) → AreMaps (payload_events j t payload)
  payload_events-AreMaps j t blank = tt
  payload_events-AreMaps j t (normal req) = cache_events-AreMaps t j req
  payload_events-AreMaps j t (membership mem) = tt

  events_at-AreMaps : (j : ℕ) (es : List (Entry r)) → AreMaps (events_at j es)
  events_at-AreMaps j [] = tt
  events_at-AreMaps j (e ∷ es) =
      AreMaps-append (payload_events j e.clocks e.payload) (events_at j es)
        (payload_events-AreMaps j e.clocks e.payload) (events_at-AreMaps j es)

  -- A log of writes to caches that are there, of blank entries and of memberships is applied without a
  -- panic, with a reply for each entry. The locks are then as their handler leaves them behind the lock
  -- requests of the log, in its order, with the index of its entry for the ticket of a first try. A
  -- `Get` of a key in a cache that was empty before, at a time `t` that no reading of its clock before
  -- passes, is answered with the value that the last request of the log for that cache and key left,
  -- unless its expiry has passed at `t` or that request removed it.
  pub apply-history :
      (es : List (Entry r)) (j : ℕ) (m : Machine r) (clock : ℕ → ℕ) (key : String) (reply t : ℕ)
      → All (λ e. IsLogged (length m.caches) e.payload) es
      → get_elem? m.caches j ≡ some Kv.empty
      → ReadBy t (events_at j es)
      → ((e : ℕ) → clock e ≤ t)
      → (m' : Machine r) × (replies : List CacheResponse) × (c : Cache) × (apply es m
          ≡ some (m', replies))
        × (length replies ≡ length es)
        × (m'.locks ≡ (Locking.run (events_locks es) m.locks).0)
        × (get_elem? m'.caches j ≡ some c)
        × ((Kv.turn (Kv.request clock t (Kv.get key reply)) c).1
            ≡ (reply, Kv.value (Kv.served t (history key (events_at j es) none))) ∷ [])
  apply-history es j m clock key reply t h at by now =
      let (m', replies, e, len, own, locks) = apply-run es j Kv.empty m h at in
      (
        m',
        replies,
        (Kv.run (events_at j es) Kv.empty).0,
        e,
        len,
        locks,
        own,
        (get-history (events_at j es) clock key reply t (events_at-AreMaps j es) by now).0,
      )
