-- ===== src/CacheMachine.antt =====
-- The state machine of the cache: hiqlite/src/store/state_machine/memory/state_machine.rs.
--
-- Each cache and the locks are a task with an unbounded channel, which takes its requests in the order
-- of `apply`; a request is taken here when it is sent, at the clock readings of that turn. `none`
-- stands for a panic: an `unreachable!`, or an `unwrap` on the index of a cache that is not there.
mod Installed
mod Told
mod Routed
mod Logged
mod Tests
use hiqlite.Common.{
  ℕ, zero, suc, ◌+◌, ◌≡◌, String, Bool, true, false, Option, none, some, List, [], ◌∷◌, ◌++◌, ◌==◌,
  if◌then◌else◌, get_elem?, Dict,
}
use hiqlite.Cache.State.{Cache, CacheSnapshot}
use hiqlite.Cache.Handlers as Kv
use hiqlite.Dlock.State.{LockState, released, LockQueue, Locks}
use hiqlite.Dlock.State as Lock
use hiqlite.Dlock.Handlers as Locking

-- openraft's log ids and memberships.
pub record Raft : Type 1 where
  pub LogId : Type 0
  pub index : LogId → ℕ
  pub Membership : Type 0

pub data CacheRequest : Type 0 where
  get get_remove delete : ℕ → String → CacheRequest
  put replace : ℕ → String → List ℕ → Option ℕ → CacheRequest
  clear clear_counters : ℕ → CacheRequest
  clear_all : CacheRequest
  notify : ℕ → List ℕ → CacheRequest
  lock : String → Option ℕ → CacheRequest
  lock_alive lock_await lock_release : String → ℕ → CacheRequest
  counter_get counter_del : ℕ → String → CacheRequest
  counter_set counter_add : ℕ → String → ℕ → CacheRequest

pub data CacheResponse : Type 0 where
  empty ok : CacheResponse
  lock_response : LockState → CacheResponse
  value : Option (List ℕ) → CacheResponse
  counter_value : Option ℕ → CacheResponse

pub data Payload (r : Raft) : Type 0 where
  blank : Payload r
  normal : CacheRequest → Payload r
  membership : r.Membership → Payload r

-- The readings of the clocks while an entry is applied: those of a cache's turn, and of a lock's.
pub record Clocks : Type 0 where
  pub due : ℕ → ℕ
  pub now : ℕ
  pub lock_before : ℕ
  pub lock_behind : ℕ

pub record Entry (r : Raft) : Type 0 where
  pub log_id : r.LogId
  pub payload : Payload r
  pub clocks : Clocks

pub record Machine (r : Raft) : Type 0 where
  pub last_applied_log_id : Option r.LogId
  pub last_membership : Option r.LogId × Option r.Membership
  pub caches : List Cache
  pub locks : Locks
  pub notified : List (ℕ × List ℕ)

-- The answer that goes through the entry's own channel, numbered 0.
unfoldable pub answer_of {ℓ} : {A : Type ℓ} → List (ℕ × A) → Option A
answer_of [] = none
answer_of ((ack, answer) ∷ rest) = if ack == 0 then some answer else answer_of rest

abbrev pub bind {ℓ κ} : {A : Type ℓ} {B : Type κ} → Option A → (A → Option B) → Option B
bind none f = none
bind (some a) f = f a

unfoldable pub put_at {ℓ} : {A : Type ℓ} → ℕ → A → List A → List A
put_at n a [] = []
put_at zero a (x ∷ xs) = a ∷ xs
put_at (suc n) a (x ∷ xs) = x ∷ put_at n a xs

abbrev pub as_value : Kv.Answer → Option CacheResponse
as_value (Kv.value v) = some (value v)
as_value _ = none

abbrev pub as_sum : Kv.Answer → Option CacheResponse
as_sum (Kv.sum v) = some (counter_value (some v))
as_sum _ = none

abbrev pub as_state : Lock.Answer → Option CacheResponse
as_state (Lock.state s) = some (lock_response s)
as_state _ = none

-- `for tx in &self.tx_caches`, with both of its requests.
unfoldable pub clear_caches : Clocks → List Cache → List Cache
clear_caches t [] = []
clear_caches t (cache ∷ caches) =
    let cleared = (Kv.turn (Kv.request t.due t.now Kv.clear) cache).0 in
    (Kv.turn (Kv.request t.due t.now Kv.clear_counters) cleared).0 ∷ clear_caches t caches

module _ {r : Raft} where
  -- `self.tx_caches.get(idx).unwrap().send(…)`, with what the handler answers.
  unfoldable pub send_cache :
      Clocks → ℕ → Kv.CacheRequest → Machine r → Option (Machine r × List Kv.Reply)
  send_cache t idx req m = bind (get_elem? m.caches idx) λ cache.
      let (cache', sent) = Kv.turn (Kv.request t.due t.now req) cache in
      some (record m { caches = put_at idx cache' m.caches }, sent)

  unfoldable pub send_lock : Clocks → Lock.LockRequest → Machine r → Machine r × List Lock.Reply
  send_lock t req m =
      let (locks', sent) = Locking.turn (Locking.request t.lock_before t.lock_behind req) m.locks in
      (record m { locks = locks' }, sent)

  -- A request that is not waited for.
  abbrev pub done :
      CacheResponse → Option (Machine r × List Kv.Reply) → Option (Machine r × CacheResponse)
  done reply none = none
  done reply (some (m, sent)) = some (m, reply)

  -- A request whose answer is waited for.
  abbrev pub awaited :
      {A : Type 0}
      → (A → Option CacheResponse)
      → Option (Machine r × List (ℕ × A))
      → Option (Machine r × CacheResponse)
  awaited read none = none
  awaited read (some (m, sent)) = bind (bind (answer_of sent) read) λ reply. some (m, reply)

  unfoldable pub apply_request :
      Clocks → r.LogId → CacheRequest → Machine r → Option (Machine r × CacheResponse)
  apply_request t id (get idx key) m = none
  apply_request t id (put idx key v expires) m = done ok (send_cache t idx (Kv.put key v expires) m)
  apply_request t id (get_remove idx key) m =
      awaited as_value (send_cache t idx (Kv.get_remove key 0) m)
  apply_request t id (replace idx key v expires) m =
      awaited as_value (send_cache t idx (Kv.replace key v expires 0) m)
  apply_request t id (delete idx key) m = done ok (send_cache t idx (Kv.delete key) m)
  apply_request t id (clear idx) m = done ok (send_cache t idx Kv.clear m)
  apply_request t id (clear_counters idx) m = done ok (send_cache t idx Kv.clear_counters m)
  apply_request t id clear_all m = some (record m { caches = clear_caches t m.caches }, ok)
  apply_request t id (notify at payload) m =
      some (record m { notified = m.notified ++ ((at, payload) ∷ []) }, ok)
  apply_request t id (lock key (some ticket)) m =
      awaited as_state (some (send_lock t (Lock.acquire key ticket 0) m))
  apply_request t id (lock key none) m =
      awaited as_state (some (send_lock t (Lock.lock key (r.index id) 0) m))
  apply_request t id (lock_await key ticket) m = none
  apply_request t id (lock_release key ticket) m =
      let (m', sent) = send_lock t (Lock.release key ticket) m in some (m', lock_response released)
  apply_request t id (lock_alive key ticket) m =
      awaited as_state (some (send_lock t (Lock.alive key ticket 0) m))
  apply_request t id (counter_get idx key) m = none
  apply_request t id (counter_set idx key v) m = done ok (send_cache t idx (Kv.counter_set key v) m)
  apply_request t id (counter_add idx key delta) m =
      awaited as_sum (send_cache t idx (Kv.counter_add key delta 0) m)
  apply_request t id (counter_del idx key) m = done ok (send_cache t idx (Kv.counter_del key) m)

  unfoldable pub apply_entry : Entry r → Machine r → Option (Machine r × CacheResponse)
  apply_entry e m = elim e.payload [
    | blank ↦ some (m, empty)
    | normal req ↦ apply_request e.clocks e.log_id req m
    | membership mem ↦ some (record m { last_membership = (some e.log_id, some mem) }, empty)
  ]

  -- The loop of `apply`: the replies, and the last entry's id.
  unfoldable pub apply_entries :
      Option r.LogId
      → List (Entry r)
      → Machine r
      → Option (Machine r × List CacheResponse × Option r.LogId)
  apply_entries last [] m = some (m, [], last)
  apply_entries last (e ∷ es) m = bind (apply_entry e m) λ (m₁, reply).
      bind (apply_entries (some e.log_id) es m₁)
        λ (m₂, replies, last'). some (m₂, reply ∷ replies, last')

  unfoldable pub apply : List (Entry r) → Machine r → Option (Machine r × List CacheResponse)
  apply es m =
      bind (apply_entries none es m)
        λ (m', replies, last). some (record m' { last_applied_log_id = last }, replies)

pub record SnapshotMeta (r : Raft) : Type 0 where
  pub last_log_id : Option r.LogId
  pub last_membership : Option r.LogId × Option r.Membership
  pub snapshot_id : String

-- `serialize_serde` and `deserialize_serde` of the lock queues and of a snapshot's content, the second
-- of which has the bytes of the first. Each may fail; that what was serialized is read back is
-- `ReadsBack`.
pub record Serde (r : Raft) : Type 1 where
  pub Bytes : Type 0
  pub serialize_locks : Dict LockQueue → Option Bytes
  pub deserialize_locks : Bytes → Option (Dict LockQueue)
  pub serialize : SnapshotMeta r × List CacheSnapshot × Bytes → Option Bytes
  pub deserialize : Bytes → Option (SnapshotMeta r × List CacheSnapshot × Bytes)

pub record ReadsBack {r : Raft} (c : Serde r) : Type 0 where
  pub locks :
      (l : Dict LockQueue) (b : c.Bytes)
      → c.serialize_locks l ≡ some b
      → c.deserialize_locks b ≡ some l
  pub content :
      (x : SnapshotMeta r × List CacheSnapshot × c.Bytes) (b : c.Bytes)
      → c.serialize x ≡ some b
      → c.deserialize b ≡ some x

abbrev pub as_snapshot : Kv.Answer → Option CacheSnapshot
as_snapshot (Kv.snapshot s) = some s
as_snapshot _ = none

abbrev pub as_locks : Lock.Answer → Option (Dict LockQueue)
as_locks (Lock.snapshot s) = some s
as_locks _ = none

-- One round trip to each cache, which first drops what is due.
unfoldable pub build_caches : Clocks → List Cache → Option (List Cache × List CacheSnapshot)
build_caches t [] = some ([], [])
build_caches t (cache ∷ caches) =
    let (cache', sent) = Kv.turn (Kv.request t.due t.now (Kv.snapshot_build 0)) cache in
    bind (bind (answer_of sent) as_snapshot)
      λ snap. bind (build_caches t caches) λ (caches', snaps). some (cache' ∷ caches', snap ∷ snaps)

unfoldable pub install_cache : Clocks → CacheSnapshot → Cache → Cache
install_cache t snap cache = (Kv.turn (Kv.request t.due t.now (Kv.snapshot_install snap 0)) cache).0

-- `for (idx, snapshot) in kvs.into_iter().enumerate()`: a panic where a cache is not there.
unfoldable pub install_caches : Clocks → List CacheSnapshot → List Cache → Option (List Cache)
install_caches t [] caches = some caches
install_caches t (snap ∷ snaps) [] = none
install_caches t (snap ∷ snaps) (cache ∷ caches) =
    bind (install_caches t snaps caches) λ caches'. some (install_cache t snap cache ∷ caches')

module _ {r : Raft} (c : Serde r) where
  abbrev pub SnapshotDataContent : Type 0
  SnapshotDataContent = SnapshotMeta r × List CacheSnapshot × c.Bytes

  -- The result of a build; `none` is the storage error.
  abbrev pub built : SnapshotMeta r → Option c.Bytes → Option (SnapshotMeta r × c.Bytes)
  built meta none = none
  built meta (some bytes) = some (meta, bytes)

  -- `snapshot_id` is the text of the clock and of the last log id. The serialization of the locks is
  -- unwrapped, that of the content may be an error.
  unfoldable pub build_snapshot_data :
      Clocks → String → Machine r → Option (Machine r × Option (SnapshotMeta r × c.Bytes))
  build_snapshot_data t snapshot_id m =
      let meta : SnapshotMeta r = record {
        last_log_id = m.last_applied_log_id;
        last_membership = m.last_membership;
        snapshot_id = snapshot_id;
      } in
      let (m', sent) = send_lock t (Lock.snapshot_build 0) m in
      bind (build_caches t m.caches) λ (caches', snaps).
        bind (bind (answer_of sent) as_locks) λ locks. bind (c.serialize_locks locks) λ locks_bytes.
          some (record m' { caches = caches' }, built meta (c.serialize (meta, snaps, locks_bytes)))

  unfoldable pub update_state_machine :
      Clocks → SnapshotDataContent → Machine r → Option (Machine r)
  update_state_machine t (meta, kvs, locks) m = bind (install_caches t kvs m.caches) λ caches'.
      bind (c.deserialize_locks locks) λ queues.
        let (m', sent) =
          send_lock t (Lock.snapshot_install queues 0) (record m { caches = caches' }) in
        some (record m' {
          last_applied_log_id = meta.last_log_id;
          last_membership = meta.last_membership;
        })

  -- `false` is the storage error.
  abbrev pub apply_content :
      Clocks → Option SnapshotDataContent → Machine r → Option (Machine r × Bool)
  apply_content t none m = some (m, false)
  apply_content t (some content) m = bind (update_state_machine t content m) λ m'. some (m', true)

  unfoldable pub apply_snapshot_bytes : Clocks → c.Bytes → Machine r → Option (Machine r × Bool)
  unfolding update_state_machine
  apply_snapshot_bytes t bytes m = apply_content t (c.deserialize bytes) m
