-- ===== src/Wal/LogStore.antt =====
-- The log store of hiqlite-wal/src/log_store_impl.rs: what it asks of the reader and of the writer.
use hiqlite.Common.{
  ℕ, ◌+◌, ◌-◌, ◌^◌, Bool, Option, none, some, List, [], ◌∷◌, ltb, ◌==◌, ◌≡◌, if◌then◌else◌,
}
use hiqlite.Wal.Platform.{Platform}
use hiqlite.Wal.Outcome.{Outcome, ok, err, panic, ◌>>=◌, decode}
use hiqlite.Wal.Layout.{Entry}
use hiqlite.Wal.Reader.{Message, log, failed, end}
use hiqlite.Wal.ReadTask.{LogReader, handle_logs}
use hiqlite.Wal.Set.{WalFileSet}
use hiqlite.Wal.Writer.{Action, append, remove, vote}

pub data Bound : Type 0 where
  included excluded : ℕ → Bound
  unbounded : Bound

abbrev pub u64_max : ℕ
u64_max = 2 ^ 64 - 1

-- `checked_add(1).unwrap_or(u64::MAX)`
abbrev pub from_of : Bound → ℕ
from_of (included i) = i
from_of (excluded i) = if i == u64_max then u64_max else i + 1
from_of unbounded = 0

-- `saturating_sub(1)`; an end without a bound is unreachable.
abbrev pub until_of : Bound → Outcome ℕ
until_of (included i) = ok i
until_of (excluded i) = ok (i - 1)
until_of unbounded = panic

-- The binary code of the Raft's entries, and their indices.
pub record EntryCodec (E : Type 0) : Type 0 where
  pub serialize : E → List ℕ
  pub deserialize : List ℕ → Option E
  pub index : E → ℕ
  pub deserialize-serialize : (e : E) → deserialize (serialize e) ≡ some e

module _ {E : Type 0} (codec : EntryCodec E) where
  open codec use {serialize, deserialize, index}

  abbrev pub entry_of : Option E → Outcome E
  entry_of none = err decode
  entry_of (some e) = ok e

  -- The channel from the reader up to its end; the first error is the result.
  unfoldable pub collect : List Message → Outcome (List E)
  collect [] = panic
  collect (log d ∷ more) = entry_of (deserialize d) >>= λ e. collect more >>= λ es. ok (e ∷ es)
  collect (failed e ∷ more) = err e
  collect (end ∷ more) = ok []

  -- A range is read by the reader, which goes on with what it has then.
  abbrev pub read_range :
      Platform → (ℕ → Bool) → ℕ → WalFileSet → LogReader → ℕ → Outcome (List E × LogReader)
  read_range p stale from locked rd until =
      if ltb until from
      then ok ([], rd)
      else (handle_logs p stale from until locked rd >>= λ r. collect r.0 >>= λ es. ok (es, r.1))

  unfoldable pub try_get_log_entries :
      Platform → (ℕ → Bool) → Bound → Bound → WalFileSet → LogReader → Outcome (List E × LogReader)
  try_get_log_entries p stale start stop locked rd =
      until_of stop >>= read_range p stale (from_of start) locked rd

  -- The requests that the store makes of the writer.
  unfoldable pub serialized : List E → List Entry
  serialized [] = []
  serialized (e ∷ es) = (index e, serialize e) ∷ serialized es

  unfoldable pub append_action : List E → ℕ → ℕ → Action
  append_action es callback ack = append (serialized es) callback ack

-- `truncate`, `purge` and `save_vote`, with the bytes of the log id and of the vote.
abbrev pub truncate_action : ℕ → ℕ → Action
truncate_action index ack = remove index u64_max none ack

abbrev pub purge_action : ℕ → List ℕ → ℕ → Action
purge_action index log_id ack = remove 0 index (some log_id) ack

abbrev pub save_vote_action : List ℕ → ℕ → Action
save_vote_action value ack = vote value ack
