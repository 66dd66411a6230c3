-- ===== src/LogMemory.antt =====
-- The in-memory Raft log of the cache: hiqlite/src/store/logs/memory.rs.
--
-- A log id of openraft is its index and a leader, which the store only passes on; so are an entry's
-- payload and a vote. The store's two locks are taken one after the other by a single task, and an
-- operation is one function on the state. `none` is a panic.
pub mod Entries
pub mod Contract
mod Tests
use hiqlite.Common.{
  ℕ, ◌+◌, ◌-◌, ◌%◌, ◌^◌, Bool, true, false, Option, none, some, List, [], ◌∷◌, ◌++◌, leb, ltb, ◌==◌,
  if◌then◌else◌, length, take, drop, head?, last?,
}

pub record LogId (L : Type 0) : Type 0 where
  pub index : ℕ
  pub leader : L

pub record Entry (L P : Type 0) : Type 0 where
  pub log_id : LogId L
  pub payload : P

pub record LogStore (L P V : Type 0) : Type 0 where
  pub logs : List (Entry L P)
  pub last_purged : Option (LogId L)
  pub vote : Option V

pub record LogState (L : Type 0) : Type 0 where
  pub last_purged_log_id : Option (LogId L)
  pub last_log_id : Option (LogId L)

pub data Bound : Type 0 where
  included excluded : ℕ → Bound
  unbounded : Bound

-- `u64` subtraction wraps.
abbrev pub sub64 : ℕ → ℕ → ℕ
sub64 a b = (a + 2 ^ 64 - b) % 2 ^ 64

abbrev pub start_of : Bound → ℕ
start_of (included i) = i
start_of (excluded i) = (i + 1) % 2 ^ 64
start_of unbounded = 0

module _ {L : Type 0} where
  abbrev pub or : Option (LogId L) → Option (LogId L) → Option (LogId L)
  or none b = b
  or (some a) b = some a

module _ {L P : Type 0} where
  -- `logs.range(from..=until)`
  abbrev pub range : ℕ → ℕ → List (Entry L P) → Option (List (Entry L P))
  range from until logs =
      if leb from (until + 1)
      then (if leb (until + 1) (length logs)
          then some (take (until + 1 - from) (drop from logs))
          else none)
      else none

  -- The entries from `start` to `end`, where the deque's front is the entry `e`.
  unfoldable pub entries_between : ℕ → ℕ → List (Entry L P) → Option (List (Entry L P))
  entries_between start end [] = some []
  entries_between start end (e ∷ es) =
      range (sub64 start e.log_id.index) (sub64 end e.log_id.index) (e ∷ es)

  unfoldable pub get_until : ℕ → ℕ → List (Entry L P) → Option (List (Entry L P))
  unfolding entries_between
  get_until start end logs = if ltb end start then some [] else entries_between start end logs

  abbrev pub map_id : Option (Entry L P) → Option (LogId L)
  map_id none = none
  map_id (some e) = some e.log_id

  unfoldable pub truncate_logs : LogId L → List (Entry L P) → List (Entry L P)
  truncate_logs id [] = []
  truncate_logs id (e ∷ es) = take (sub64 id.index e.log_id.index) (e ∷ es)

  -- The purged log, and the id for `last_purged`. `drain` panics past the end.
  unfoldable pub purge_logs :
      LogId L → List (Entry L P) → Option (List (Entry L P) × Option (LogId L))
  purge_logs id [] = some ([], some id)
  purge_logs id (e ∷ es) =
      let n = sub64 id.index e.log_id.index in
      if leb n (length (e ∷ es))
      then some (drop 1 (drop n (e ∷ es)), map_id (head? (drop n (e ∷ es))))
      else none

module _ {L P V : Type 0} where
  -- `new`
  abbrev pub new : LogStore L P V
  new = record { logs = []; last_purged = none; vote = none }

  unfoldable pub try_get_log_entries : Bound → Bound → LogStore L P V → Option (List (Entry L P))
  unfolding get_until
  try_get_log_entries from (included i) s = get_until (start_of from) i s.logs
  try_get_log_entries from (excluded i) s =
      if i == 0 then some [] else get_until (start_of from) (i - 1) s.logs
  try_get_log_entries from unbounded s = none

  unfoldable pub get_log_state : LogStore L P V → LogState L
  get_log_state s = record {
    last_purged_log_id = s.last_purged;
    last_log_id = or (map_id (last? s.logs)) s.last_purged;
  }

  unfoldable pub save_vote : V → LogStore L P V → LogStore L P V
  save_vote v s = record s { vote = some v }

  unfoldable pub read_vote : LogStore L P V → Option V
  read_vote s = s.vote

  unfoldable pub append : List (Entry L P) → LogStore L P V → LogStore L P V
  append entries s = record s { logs = s.logs ++ entries }

  unfoldable pub truncate : LogId L → LogStore L P V → LogStore L P V
  unfolding truncate_logs
  truncate id s = record s { logs = truncate_logs id s.logs }

  unfoldable pub purge_with :
      LogStore L P V → Option (List (Entry L P) × Option (LogId L)) → Option (LogStore L P V)
  purge_with s none = none
  purge_with s (some (logs, purged)) =
      some (record s { logs = logs; last_purged = or purged s.last_purged })

  unfoldable pub purge : LogId L → LogStore L P V → Option (LogStore L P V)
  unfolding purge_logs purge_with
  purge id s = purge_with s (purge_logs id s.logs)
