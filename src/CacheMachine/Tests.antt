-- ===== src/CacheMachine/Tests.antt =====
-- A machine with two caches, and its log.
use hiqlite.Common.{
  All, arith, length, get_elem?, ℕ, ◌≡◌, refl, sym, ap, true, Dict, Option, none, some, List, [],
  ◌∷◌, map,
}
use hiqlite.Cache.State.{Cache, CacheSnapshot}
use hiqlite.Dlock.State.{LockQueue}
use hiqlite.CacheMachine.{
  Raft, Machine, Entry, Clocks, CacheRequest, CacheResponse, put, delete, lock, counter_add, normal,
  membership, SnapshotMeta, Serde, ReadsBack, apply, build_snapshot_data, apply_snapshot_bytes,
}
use hiqlite.CacheMachine.Logged.{events_locks, IsLogged, apply-history}
use hiqlite.Cache.Handlers as Kv
use hiqlite.Cache.History.{history, written}
use hiqlite.Dlock.Handlers as Locking
use hiqlite.CacheMachine.Installed.{
  content_of, snapshot_of, apply_snapshot_bytes-build_snapshot_data,
}

abbrev raft : Raft
raft = record { LogId = ℕ; index = λ i. i; Membership = ℕ }

abbrev clocks : Clocks
clocks = record { due = λ exp. 5; now = 5; lock_before = 5; lock_behind = 6 }

abbrev no_cache : Cache
no_cache = record { values = []; counters = []; expiries = [] }

abbrev start : Machine raft
start = record {
  last_applied_log_id = none;
  last_membership = (none, none);
  caches = no_cache ∷ no_cache ∷ [];
  locks = record { locks = []; waiters = [] };
  notified = [];
}

abbrev entry : ℕ → CacheRequest → Entry raft
entry i req = record { log_id = i; payload = normal req; clocks = clocks }

abbrev log : List (Entry raft)
log =
    record { log_id = 1; payload = membership 3; clocks = clocks }
    ∷ entry 2 (put 1 "k" (7 ∷ []) (some 9))
    ∷ entry 3 (lock "l" none)
    ∷ entry 4 (put 0 "k" (8 ∷ []) none)
    ∷ entry 5 (delete 0 "k")
    ∷ entry 6 (counter_add 0 "c" 2)
    ∷ []

log-IsLogged : All (λ e. IsLogged {r = raft} 2 e.payload) log
log-IsLogged = (tt, (omega arith, (tt, (omega arith, (omega arith, (omega arith, tt))))))

apply-history_example :
    (m' : Machine raft) × (replies : List CacheResponse) × (c : Cache) × (apply log start
      ≡ some (m', replies))
    × (length replies ≡ 6)
    × (m'.locks ≡ (Locking.run (events_locks log) start.locks).0)
    × (get_elem? m'.caches 1 ≡ some c)
    × ((Kv.turn (Kv.request (λ e. 7) 7 (Kv.get "k" 6)) c).1 ≡ (6, Kv.value (some (7 ∷ []))) ∷ [])
unfolding history written
apply-history_example =
    apply-history log 1 start (λ e. 7) "k" 6 7 log-IsLogged refl (λ e. omega arith, tt)
      (λ e. omega arith)

abbrev filled : Machine raft
filled = record start {
  last_applied_log_id = some 3;
  caches =
      record no_cache {
        values = ("k", record { value = 7 ∷ []; expires = some 9 }) ∷ [];
        expiries = (9, "k" ∷ []) ∷ [];
      }
      ∷ record no_cache { counters = ("c", 4) ∷ [] }
      ∷ [];
}

-- Bytes that are what they stand for.
data Blob : Type 0 where
  of_locks : Dict LockQueue → Blob
  of_content : SnapshotMeta raft → List CacheSnapshot → Blob → Blob

abbrev read_locks : Blob → Option (Dict LockQueue)
read_locks (of_locks l) = some l
read_locks (of_content meta kvs locks) = none

abbrev read_content : Blob → Option (SnapshotMeta raft × List CacheSnapshot × Blob)
read_content (of_locks l) = none
read_content (of_content meta kvs locks) = some (meta, kvs, locks)

abbrev serde : Serde raft
serde = record {
  Bytes = Blob;
  serialize_locks = λ l. some (of_locks l);
  deserialize_locks = read_locks;
  serialize = λ (meta, kvs, locks). some (of_content meta kvs locks);
  deserialize = read_content;
}

some-injective : {A : Type 0} {x y : A} → some x ≡ some y → x ≡ y
some-injective p = cc p

serde-ReadsBack : ReadsBack serde
serde-ReadsBack = record {
  locks = λ l b e. ap read_locks (sym (some-injective e));
  content = λ (meta, kvs, locks) b e. ap read_content (sym (some-injective e));
}

abbrev queues : Dict LockQueue
queues = ("l", record { current_ticket = some 3; exp = 15; queue = 8 ∷ [] }) ∷ []

abbrev locked : Machine raft
locked = record filled { locks = record { locks = queues; waiters = [] } }

abbrev locked_content : SnapshotMeta raft × List CacheSnapshot × Blob
locked_content = snapshot_of serde clocks "5-1-3" locked (of_locks queues)

apply_snapshot_bytes-build_snapshot_data_example :
    let bytes = of_content locked_content.0 locked_content.1 locked_content.2 in
    (m' : Machine raft) × (there : Machine raft) × (build_snapshot_data serde clocks "5-1-3" locked
      ≡ some (m', some (locked_content.0, bytes)))
    × (apply_snapshot_bytes serde clocks bytes start ≡ some (there, true))
    × (there.last_applied_log_id ≡ m'.last_applied_log_id)
    × (there.last_membership ≡ m'.last_membership)
    × (there.locks.locks ≡ m'.locks.locks)
    × (map content_of there.caches ≡ map content_of m'.caches)
apply_snapshot_bytes-build_snapshot_data_example =
    apply_snapshot_bytes-build_snapshot_data serde serde-ReadsBack clocks clocks "5-1-3" locked
      start (of_locks queues) (of_content locked_content.0 locked_content.1 locked_content.2) refl
      refl refl
