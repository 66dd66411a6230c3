-- ===== src/Cache/History.antt =====
-- What a run of kv_handler.rs serves, by the requests alone: the last one that wrote a key counts, and
-- neither the index nor the times at which entries are removed can be seen.
use hiqlite.Common.{
  ℕ, ◌≤◌, ◌≡◌, ◌∙◌, refl, String, true, false, Option, none, some, List, [], ◌∷◌, if◌then◌else◌,
  str_eq, lookup, unique, lookup-insert, lookup-remove, Bool-cases, inl, inr, All, ◌+◌, ◌^◌,
}
use hiqlite.Cache.State.{Entry, expiry_of, Cache}
use hiqlite.Cache.Handlers.{
  CacheRequest, Reply, get, get_remove, put, replace, delete, clear, clear_counters,
  snapshot_build_cache_only, snapshot_build, snapshot_install, counter_get, counter_set,
  counter_add, counter_del, value, served, remove_value, put_value, handle_request, expire_due,
  Event, request, timeout, turn, empty, run,
}
use hiqlite.Cache.Index.{listed, sorted_from}
use hiqlite.Cache.Mirror.{
  is_at, Mirrors, remove_value-Mirrors, put_value-Mirrors, register_all-Mirrors,
}
use hiqlite.Cache.Expiry.{expire_due-Mirrors, expire_due-served, expire_due-past}

-- The maps that come with a snapshot have each key once.
abbrev pub IsMap : CacheRequest → Type 0
IsMap (snapshot_install new ack) = unique new.kvs ≡ true
IsMap _ = Unit

abbrev pub AreMaps : List Event → Type 0
AreMaps [] = Unit
AreMaps (request clock now r ∷ es) = IsMap r × AreMaps es
AreMaps (timeout clock ∷ es) = AreMaps es

-- What a request makes of the entry of a key.
unfoldable pub written : String → CacheRequest → Option Entry → Option Entry
written key (put k v expires) o =
    if str_eq k key then some (record { value = v; expires = expires }) else o
written key (replace k v expires reply) o =
    if str_eq k key then some (record { value = v; expires = expires }) else o
written key (get_remove k reply) o = if str_eq k key then none else o
written key (delete k) o = if str_eq k key then none else o
written key clear o = none
written key (snapshot_install new ack) o = lookup key new.kvs
written key _ o = o

-- The entry that the events leave to a key, where nothing ever expires.
unfoldable pub history : String → List Event → Option Entry → Option Entry
history key [] o = o
history key (request clock now r ∷ es) o = history key es (written key r o)
history key (timeout clock ∷ es) o = history key es o

-- No reading of the clock, at the head of a turn, passes `t`.
abbrev pub ReadBy : ℕ → List Event → Type 0
ReadBy t [] = Unit
ReadBy t (request clock now r ∷ es) = ((e : ℕ) → clock e ≤ t) × ReadBy t es
ReadBy t (timeout clock ∷ es) = ((e : ℕ) → clock e ≤ t) × ReadBy t es

empty-Mirrors : Mirrors [] []
unfolding listed sorted_from lookup
empty-Mirrors = record { in_order = refl; lists = λ e k. refl }

handle_request-Mirrors :
    (now : ℕ) (r : CacheRequest) (s : Cache)
    → IsMap r
    → Mirrors s.expiries s.values
    → let s' = (handle_request now r s).0 in Mirrors s'.expiries s'.values
unfolding handle_request
handle_request-Mirrors now (get key reply) s u m = m
handle_request-Mirrors now (get_remove key reply) s u m = remove_value-Mirrors key s m
handle_request-Mirrors now (put key v expires) s u m = put_value-Mirrors key v expires s m
handle_request-Mirrors now (replace key v expires reply) s u m = put_value-Mirrors key v expires s m
handle_request-Mirrors now (delete key) s u m = remove_value-Mirrors key s m
handle_request-Mirrors now clear s u m = empty-Mirrors
handle_request-Mirrors now clear_counters s u m = m
handle_request-Mirrors now (snapshot_build_cache_only reply) s u m = m
handle_request-Mirrors now (snapshot_build reply) s u m = m
handle_request-Mirrors now (snapshot_install new ack) s u m = register_all-Mirrors new.kvs u
handle_request-Mirrors now (counter_get key reply) s u m = m
handle_request-Mirrors now (counter_set key v) s u m = m
handle_request-Mirrors now (counter_add key delta reply) s u m = m
handle_request-Mirrors now (counter_del key) s u m = m

run-Mirrors_from :
    (es : List Event) (s : Cache)
    → AreMaps es
    → Mirrors s.expiries s.values
    → let s' = (run es s).0 in Mirrors s'.expiries s'.values
unfolding run turn
run-Mirrors_from [] s u m = m
run-Mirrors_from (request clock now r ∷ es) s u m =
    run-Mirrors_from es _ u.1
      (handle_request-Mirrors now r _ u.0 (expire_due-Mirrors clock s.expiries s m))
run-Mirrors_from (timeout clock ∷ es) s u m =
    run-Mirrors_from es _ u (expire_due-Mirrors clock s.expiries s m)

-- Whatever a cache has served since its start, its index is in order and lists a key at a time just if
-- the stored entry of the key expires at that time. Installed snapshots have each key once.
pub run-Mirrors :
    (es : List Event) → AreMaps es → let s = (run es empty).0 in Mirrors s.expiries s.values
run-Mirrors es u = run-Mirrors_from es empty u empty-Mirrors

lookup-handle_request :
    (now : ℕ) (r : CacheRequest) (s : Cache) (key : String)
    → lookup key (handle_request now r s).0.values ≡ written key r (lookup key s.values)
unfolding handle_request written remove_value put_value lookup
lookup-handle_request now (get k reply) s key = refl
lookup-handle_request now (get_remove k reply) s key = lookup-remove k key s.values
lookup-handle_request now (put k v expires) s key = lookup-insert k key _ s.values
lookup-handle_request now (replace k v expires reply) s key = lookup-insert k key _ s.values
lookup-handle_request now (delete k) s key = lookup-remove k key s.values
lookup-handle_request now clear s key = refl
lookup-handle_request now clear_counters s key = refl
lookup-handle_request now (snapshot_build_cache_only reply) s key = refl
lookup-handle_request now (snapshot_build reply) s key = refl
lookup-handle_request now (snapshot_install new ack) s key = refl
lookup-handle_request now (counter_get k reply) s key = refl
lookup-handle_request now (counter_set k v) s key = refl
lookup-handle_request now (counter_add k delta reply) s key = refl
lookup-handle_request now (counter_del k) s key = refl

module _ (t : ℕ) (key : String) where
  written_mono :
      (r : CacheRequest) (o o' : Option Entry)
      → served t o ≡ served t o'
      → served t (written key r o) ≡ served t (written key r o')
  unfolding written
  written_mono (put k v expires) o o' h = elim (Bool-cases (str_eq k key)) [
    | inl e ↦ rw e refl
    | inr e ↦ rw e h
  ]
  written_mono (replace k v expires reply) o o' h = elim (Bool-cases (str_eq k key)) [
    | inl e ↦ rw e refl
    | inr e ↦ rw e h
  ]
  written_mono (get_remove k reply) o o' h = elim (Bool-cases (str_eq k key)) [
    | inl e ↦ rw e refl
    | inr e ↦ rw e h
  ]
  written_mono (delete k) o o' h = elim (Bool-cases (str_eq k key)) [
    | inl e ↦ rw e refl
    | inr e ↦ rw e h
  ]
  written_mono clear o o' h = refl
  written_mono (snapshot_install new ack) o o' h = refl
  written_mono (get k reply) o o' h = h
  written_mono clear_counters o o' h = h
  written_mono (snapshot_build_cache_only reply) o o' h = h
  written_mono (snapshot_build reply) o o' h = h
  written_mono (counter_get k reply) o o' h = h
  written_mono (counter_set k v) o o' h = h
  written_mono (counter_add k delta reply) o o' h = h
  written_mono (counter_del k) o o' h = h

  history_mono :
      (es : List Event) (o o' : Option Entry)
      → served t o ≡ served t o'
      → served t (history key es o) ≡ served t (history key es o')
  unfolding history
  history_mono [] o o' h = h
  history_mono (request clock now r ∷ es) o o' h = history_mono es _ _ (written_mono r o o' h)
  history_mono (timeout clock ∷ es) o o' h = history_mono es o o' h

  run-history :
      (es : List Event) (s : Cache)
      → AreMaps es
      → ReadBy t es
      → Mirrors s.expiries s.values
      → served t (lookup key (run es s).0.values) ≡ served t (history key es (lookup key s.values))
  unfolding run turn history
  run-history [] s u h m = refl
  run-history (request clock now r ∷ es) s u h m =
      let s₁ = expire_due clock s.expiries s in
      let m₁ = expire_due-Mirrors clock s.expiries s m in
      run-history es (handle_request now r s₁).0 u.1 h.1 (handle_request-Mirrors now r s₁ u.0 m₁)
      ∙ rw (lookup-handle_request now r s₁ key) (
          history_mono es _ _
            (written_mono r _ _ (expire_due-served clock s.expiries s key t m h.0)))
  run-history (timeout clock ∷ es) s u h m =
      run-history es _ u h.1 (expire_due-Mirrors clock s.expiries s m)
      ∙ history_mono es _ _ (expire_due-served clock s.expiries s key t m h.0)

-- A `Get` at a time `t`, after any run of a cache from its start, is answered with the value that the
-- last request for its key left, unless the value's expiry has passed at `t` or that request removed
-- it; so is a `GetRemove`. The clock readings before do not pass `t`, in whatever order they come, and
-- installed snapshots have each key once.
pub get-history :
    (es : List Event) (clock : ℕ → ℕ) (key : String) (reply t : ℕ)
    → AreMaps es
    → ReadBy t es
    → ((e : ℕ) → clock e ≤ t)
    → let s = (run es empty).0 in
      let answer : List Reply = (reply, value (served t (history key es none))) ∷ [] in
      ((turn (request clock t (get key reply)) s).1 ≡ answer)
      × ((turn (request clock t (get_remove key reply)) s).1 ≡ answer)
unfolding turn handle_request
get-history es clock key reply t u h c =
    let s = (run es empty).0 in
    let e : served t (lookup key (expire_due clock s.expiries s).values)
        ≡ served t (history key es none) =
      expire_due-served clock s.expiries s key t (run-Mirrors es u) c
      ∙ (unfold lookup in run-history t key es empty u h empty-Mirrors) in
    (rw e refl, rw e refl)

-- When a cache's loop comes to its sleep, at any reading of the clock, after any run from its start,
-- no entry is stored whose expiry is at or before this reading. Installed snapshots have each key once,
-- and no expiry that is indexed lies more than 2^63 before the reading, where the difference of the two
-- is no `i64`.
pub run-past :
    (es : List Event) (now : ℕ) (key : String) (e : ℕ)
    → AreMaps es
    → All (λ bucket. now ≤ bucket.0 + 2 ^ 63) (run es empty).0.expiries
    → e ≤ now
    → is_at (expiry_of (lookup key (turn (timeout (λ exp. now)) (run es empty).0).0.values)) e
      ≡ false
unfolding turn
run-past es now key e u near h =
    let s = (run es empty).0 in expire_due-past now s.expiries s key e (run-Mirrors es u) near h
