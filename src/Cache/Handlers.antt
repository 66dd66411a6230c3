-- ===== src/Cache/Handlers.antt =====
-- The requests of kv_handler.rs, the expiry at the head of its loop, and the loop.
use hiqlite.Common.{
  ℕ, ◌+◌, ◌-◌, ◌^◌, min, Bool, ◌&&◌, String, Option, none, some, List, [], ◌∷◌, ◌++◌, leb,
  if◌then◌else◌, Dict, lookup, insert, remove,
}
use hiqlite.Cache.State.{Entry, Expiries, Cache, CacheSnapshot, drop_expiry, register_at}

pub data CacheRequest : Type 0 where
  get get_remove : String → ℕ → CacheRequest
  put : String → List ℕ → Option ℕ → CacheRequest
  replace : String → List ℕ → Option ℕ → ℕ → CacheRequest
  delete : String → CacheRequest
  clear clear_counters : CacheRequest
  snapshot_build_cache_only snapshot_build : ℕ → CacheRequest
  snapshot_install : CacheSnapshot → ℕ → CacheRequest
  counter_get : String → ℕ → CacheRequest
  counter_set : String → ℕ → CacheRequest
  counter_add : String → ℕ → ℕ → CacheRequest
  counter_del : String → CacheRequest

pub data Answer : Type 0 where
  value : Option (List ℕ) → Answer
  kvs : Dict (List ℕ) → Answer
  snapshot : CacheSnapshot → Answer
  installed : Answer
  count : Option ℕ → Answer
  sum : ℕ → Answer

abbrev pub Reply : Type 0
Reply = ℕ × Answer

abbrev pub Step : Type 0
Step = Cache × List Reply

-- What may be served of an entry at a time.
abbrev pub unexpired : ℕ → List ℕ → Option ℕ → Option (List ℕ)
unexpired now v none = some v
unexpired now v (some exp) = if leb exp now then none else some v

abbrev pub served : ℕ → Option Entry → Option (List ℕ)
served now none = none
served now (some v) = unexpired now v.value v.expires

abbrev pub stored : Option Entry → Option (List ℕ)
stored none = none
stored (some v) = some v.value

unfoldable pub remove_value : String → Cache → Cache
remove_value key s = record s {
  values = remove key s.values;
  expiries = drop_expiry s.values s.expiries key;
}

unfoldable pub put_value : String → List ℕ → Option ℕ → Cache → Cache
put_value key v expires s = record s {
  values = insert key (record { value = v; expires = expires }) s.values;
  expiries = register_at expires (drop_expiry s.values s.expiries key) key;
}

unfoldable pub only_values : Dict Entry → Dict (List ℕ)
only_values [] = []
only_values ((key, v) ∷ rest) = (key, v.value) ∷ only_values rest

-- The index after an install: the expiries of the entries, in the order of the map.
unfoldable pub register_all : Dict Entry → Expiries → Expiries
register_all [] expiries = expiries
register_all ((key, v) ∷ rest) expiries = register_all rest (register_at v.expires expiries key)

unfoldable pub saturating_add : ℕ → ℕ → ℕ
saturating_add a b = min (a + b - 2 ^ 63) (2 ^ 64 - 1)

abbrev pub added : Option ℕ → ℕ → ℕ
added none delta = delta
added (some current) delta = saturating_add current delta

unfoldable pub handle_request : ℕ → CacheRequest → Cache → Step
handle_request now (get key reply) s = (s, (reply, value (served now (lookup key s.values))) ∷ [])
handle_request now (get_remove key reply) s =
    (remove_value key s, (reply, value (served now (lookup key s.values))) ∷ [])
handle_request now (put key v expires) s = (put_value key v expires s, [])
handle_request now (replace key v expires reply) s =
    (put_value key v expires s, (reply, value (stored (lookup key s.values))) ∷ [])
handle_request now (delete key) s = (remove_value key s, [])
handle_request now clear s = (record s { values = []; expiries = [] }, [])
handle_request now clear_counters s = (record s { counters = [] }, [])
handle_request now (snapshot_build_cache_only reply) s =
    (s, (reply, kvs (only_values s.values)) ∷ [])
handle_request now (snapshot_build reply) s =
    (s, (reply, snapshot (record { kvs = s.values; counts = s.counters })) ∷ [])
handle_request now (snapshot_install new ack) s = (
  record { values = new.kvs; counters = new.counts; expiries = register_all new.kvs [] },
  (ack, installed) ∷ [],
)
handle_request now (counter_get key reply) s = (s, (reply, count (lookup key s.counters)) ∷ [])
handle_request now (counter_set key v) s = (record s { counters = insert key v s.counters }, [])
handle_request now (counter_add key delta reply) s =
    let v = added (lookup key s.counters) delta in
    (record s { counters = insert key v s.counters }, (reply, sum v) ∷ [])
handle_request now (counter_del key) s = (record s { counters = remove key s.counters }, [])

unfoldable pub remove_keys : List String → Dict Entry → Dict Entry
remove_keys [] values = values
remove_keys (key ∷ keys) values = remove_keys keys (remove key values)

-- `exp - Utc::now().timestamp_micros() < 1` on `i64`, both times kept as the distance from the
-- smallest one. A clock that shows 1970 or later leaves one way for the difference to overflow in a
-- release build: below the smallest `i64`, where it wraps around to a positive number.
unfoldable pub is_due : ℕ → ℕ → Bool
is_due exp now = leb exp now && leb (now - exp) (2 ^ 63)

-- The head of the loop: the buckets that are due, from the earliest on. The clock is read again for
-- each of them.
unfoldable pub expire_due : (ℕ → ℕ) → Expiries → Cache → Cache
expire_due clock [] s = record s { expiries = [] }
expire_due clock ((exp, keys) ∷ rest) s =
    let behind = expire_due clock rest (record s { values = remove_keys keys s.values }) in
    if is_due exp (clock exp) then behind else record s { expiries = (exp, keys) ∷ rest }

-- A turn of the loop: a request, or the end of the sleep.
pub data Event : Type 0 where
  request : (ℕ → ℕ) → ℕ → CacheRequest → Event
  timeout : (ℕ → ℕ) → Event

unfoldable pub turn : Event → Cache → Step
turn (request clock now r) s = handle_request now r (expire_due clock s.expiries s)
turn (timeout clock) s = (expire_due clock s.expiries s, [])

abbrev pub empty : Cache
empty = record { values = []; counters = []; expiries = [] }

unfoldable pub run : List Event → Cache → Step
run [] s = (s, [])
run (e ∷ es) s = let (s₁, sent) = turn e s in let (s₂, others) = run es s₁ in (s₂, sent ++ others)
