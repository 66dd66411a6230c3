-- ===== src/CacheMachine/Installed.antt =====
-- A snapshot of the cache's state machine, installed elsewhere.
use hiqlite.Common.{
  suc, ◌≡◌, ◌∙◌, refl, sym, ap, String, true, some, List, [], ◌∷◌, map, length, arith,
}
use hiqlite.Cache.State.{Cache, CacheSnapshot}
use hiqlite.Cache.Handlers as Kv
use hiqlite.Dlock.Handlers as Locking
use hiqlite.CacheMachine.{
  Raft, Machine, Clocks, SnapshotMeta, Serde, ReadsBack, answer_of, build_caches, install_cache,
  install_caches, build_snapshot_data, update_state_machine, apply_snapshot_bytes, send_lock,
}

-- What a snapshot keeps of a cache.
abbrev pub content_of : Cache → CacheSnapshot
content_of c = record { kvs = c.values; counts = c.counters }

-- A cache behind the head of its loop.
abbrev pub settled : Clocks → Cache → Cache
settled t c = Kv.expire_due t.due c.expiries c

length-map : {A B : Type 0} (f : A → B) (xs : List A) → length (map f xs) ≡ length xs
length-map f [] = refl
length-map f (x ∷ xs) = ap suc (length-map f xs)

map-map :
    {A B C : Type 0} (f : B → C) (g : A → B) (xs : List A)
    → map f (map g xs) ≡ map (λ x. f (g x)) xs
map-map f g [] = refl
map-map f g (x ∷ xs) = ap (λ l. f (g x) ∷ l) (map-map f g xs)

build_caches-eq :
    (t : Clocks) (caches : List Cache)
    → build_caches t caches
      ≡ some (map (settled t) caches, map (λ c. content_of (settled t c)) caches)
unfolding build_caches answer_of Kv.turn Kv.handle_request
build_caches-eq t [] = refl
build_caches-eq t (c ∷ cs) = rw (build_caches-eq t cs) refl

install_caches-content :
    (t : Clocks) (snaps : List CacheSnapshot) (caches : List Cache)
    → length caches ≡ length snaps
    → (caches' : List Cache) × (install_caches t snaps caches ≡ some caches')
      × (map content_of caches' ≡ snaps)
unfolding install_caches install_cache Kv.turn Kv.handle_request
install_caches-content t [] [] e = ([], refl, refl)
install_caches-content t [] (c ∷ cs) e = absurd (omega (arith, e))
install_caches-content t (s ∷ ss) [] e = absurd (omega (arith, e))
install_caches-content t (s ∷ ss) (c ∷ cs) e =
    let (cs', i, m) = install_caches-content t ss cs (omega (arith, e)) in
    (install_cache t s c ∷ cs', rw i refl, ap (λ l. s ∷ l) m)

module _ {r : Raft} (c : Serde r) where
  -- What a snapshot of a machine has, with the bytes of its locks.
  abbrev pub snapshot_of :
      Clocks → String → Machine r → c.Bytes → SnapshotMeta r × List CacheSnapshot × c.Bytes
  snapshot_of t snapshot_id m locks = (
    record {
      last_log_id = m.last_applied_log_id;
      last_membership = m.last_membership;
      snapshot_id = snapshot_id;
    },
    map (λ cache. content_of (settled t cache)) m.caches,
    locks,
  )

  -- A snapshot of one machine, installed on another with as many caches: where both of its
  -- serializations succeed, and what was serialized is read back, the build and the install succeed,
  -- and the other machine then has the applied log id, the membership, the lock queues, and each
  -- cache's values and counters of the first, as they are behind the build.
  pub apply_snapshot_bytes-build_snapshot_data :
      ReadsBack c
      → (t t' : Clocks) (snapshot_id : String) (m other : Machine r) (locks bytes : c.Bytes)
      → c.serialize_locks m.locks.locks ≡ some locks
      → c.serialize (snapshot_of t snapshot_id m locks) ≡ some bytes
      → length other.caches ≡ length m.caches
      → (m' : Machine r) × (there : Machine r) × (build_snapshot_data c t snapshot_id m
          ≡ some (m', some ((snapshot_of t snapshot_id m locks).0, bytes)))
        × (apply_snapshot_bytes c t' bytes other ≡ some (there, true))
        × (there.last_applied_log_id ≡ m'.last_applied_log_id)
        × (there.last_membership ≡ m'.last_membership)
        × (there.locks.locks ≡ m'.locks.locks)
        × (map content_of there.caches ≡ map content_of m'.caches)
  unfolding build_snapshot_data apply_snapshot_bytes update_state_machine send_lock answer_of
      Locking.turn Locking.handle_request
  apply_snapshot_bytes-build_snapshot_data back t t' snapshot_id m other locks bytes e₁ e₂ e =
      let snaps = map (λ cache. content_of (settled t cache)) m.caches in
      let (caches', i, same) =
        install_caches-content t' snaps other.caches
          (e ∙ sym (length-map (λ cache. content_of (settled t cache)) m.caches)) in
      (
        record m { caches = map (settled t) m.caches },
        record other {
          last_applied_log_id = m.last_applied_log_id;
          last_membership = m.last_membership;
          caches = caches';
          locks = record { locks = m.locks.locks; waiters = [] };
        },
        rw (build_caches-eq t m.caches, e₁, e₂) refl,
        rw
            (
              back.content (snapshot_of t snapshot_id m locks) bytes e₂,
              i,
              back.locks m.locks.locks locks e₁,
            )
            refl,
        refl,
        refl,
        refl,
        same ∙ sym (map-map content_of (settled t) m.caches),
      )
