-- ===== src/Wal/Writer.antt =====
-- The writer of the log: the loop of hiqlite-wal/src/writer.rs.
--
-- The state is the writer's own set of files, the copy that it shares with the readers, the metadata
-- and its directory, and whether a flush is due. A flush itself does nothing here, and does not fail.
use hiqlite.Common.{
  ℕ, ◌-◌, ◌*◌, Bool, true, false, not, Option, none, some, List, [], ◌∷◌, ltb, if◌then◌else◌,
  length,
}
use hiqlite.Wal.Platform.{Platform}
use hiqlite.Wal.Outcome.{Error, Outcome, ok, err, panic, out_of_fuel, ◌>>=◌, wal_size_exceeded, io}
use hiqlite.Wal.File.{
  WalFile, Written, offset_logs, has_space, space_left, append_log, update_header,
}
use hiqlite.Wal.Layout.{Entry}
use hiqlite.Wal.Set.{WalFileSet, active_of, put_active, roll_over}
use hiqlite.Wal.Shared.{refresh, clone_from_no_mmap}
use hiqlite.Wal.Metadata.{Metadata, Directory}

pub data LogSync : Type 0 where
  immediate immediate_async : LogSync
  interval_millis : ℕ → LogSync

-- A request, with the channels of its answers.
pub data Action : Type 0 where
  append : List Entry → ℕ → ℕ → Action
  remove : ℕ → ℕ → Option (List ℕ) → ℕ → Action
  vote : List ℕ → ℕ → Action
  sync : Action

-- An answer is `none` for success, or the error.
abbrev pub Reply : Type 0
Reply = ℕ × Option Error

pub record Config : Type 0 where
  pub wal_size : ℕ
  pub log_sync : LogSync
  pub oversized_entry_error : Bool

pub record Writer : Type 0 where
  pub wal : WalFileSet
  pub wal_locked : WalFileSet
  pub meta : Metadata
  pub directory : Directory
  pub is_dirty : Bool
  -- How the coming writes of the metadata end: `some n` is an I/O error behind `n` calls of the file
  -- system, and a write that is not named here succeeds.
  pub writes : List (Option ℕ)

abbrev pub Turn : Type 0
Turn = Outcome Writer × List Reply

-- A batch is over: the sets, and the error that ended it early.
pub record Batch : Type 0 where
  pub wal : WalFileSet
  pub wal_locked : WalFileSet
  pub failed : Option Error

-- The largest entry that a file can hold.
abbrev pub data_len_limit : ℕ → ℕ
data_len_limit wal_size = wal_size - offset_logs - 2

-- No file that the writer's copy shares is mapped.
abbrev pub share : WalFileSet → WalFileSet → Outcome WalFileSet
share wal locked = refresh (λ k. false) wal locked

-- The copy's active file is updated.
unfoldable pub share_active : WalFileSet → WalFileSet → Outcome WalFileSet
share_active wal locked = active_of wal >>= λ w.
    active_of locked >>= λ f. ok (put_active (clone_from_no_mmap false w f) locked)

module _ (p : Platform) where
  -- An append to the active file: the set with that file, and the error if it failed.
  abbrev pub appended : WalFileSet → WalFileSet → Written → Outcome Batch
  appended wal locked (ok u, w) =
      ok (record { wal = put_active w wal; wal_locked = locked; failed = none })
  appended wal locked (err e, w) =
      ok (record { wal = put_active w wal; wal_locked = locked; failed = some e })
  appended wal locked (panic, w) = panic
  appended wal locked (out_of_fuel, w) = out_of_fuel

  -- A roll-over, and the new files to the readers.
  unfoldable pub roll : ℕ → WalFileSet → WalFileSet → Outcome (WalFileSet × WalFileSet)
  roll wal_size wal locked =
      roll_over p wal_size wal >>= λ wal'. share wal' locked >>= λ locked'. ok (wal', locked')

  unfoldable pub append_active : ℕ → List ℕ → WalFileSet → WalFileSet → Outcome Batch
  append_active id bytes wal locked =
      active_of wal >>= λ w. appended wal locked (append_log p id bytes w)

  abbrev pub with_room : ℕ → ℕ → List ℕ → WalFileSet → WalFileSet → WalFile → Outcome Batch
  with_room wal_size id bytes wal locked w =
      if has_space w (length bytes)
      then append_active id bytes wal locked
      else (roll wal_size wal locked >>= λ r. append_active id bytes r.0 r.1)

  unfoldable pub append_entry : Config → Entry → WalFileSet → WalFileSet → Outcome Batch
  append_entry c (id, bytes) wal locked =
      if ltb (data_len_limit c.wal_size) (length bytes)
      then (if c.oversized_entry_error
          then ok (record { wal = wal; wal_locked = locked; failed = some wal_size_exceeded })
          else panic)
      else (active_of wal >>= with_room c.wal_size id bytes wal locked)

  -- The batch goes on where an entry did not fail.
  abbrev pub and_then :
      Option Error → (WalFileSet → WalFileSet → Outcome Batch) → Batch → Outcome Batch
  and_then none next b = next b.wal b.wal_locked
  and_then (some e) next b = ok b

  unfoldable pub append_entries : Config → List Entry → WalFileSet → WalFileSet → Outcome Batch
  append_entries c [] wal locked = ok (record { wal = wal; wal_locked = locked; failed = none })
  append_entries c (e ∷ es) wal locked =
      append_entry c e wal locked >>= λ b. and_then b.failed (append_entries c es) b

  -- `flush_blocking`: only a writer that is dirty has something to flush.
  abbrev pub flushed : Writer → Written → Outcome (Unit {0}) × Writer
  flushed s (ok u, w) = (ok tt, record s { wal = put_active w s.wal; is_dirty = false })
  flushed s (err e, w) = (err e, record s { wal = put_active w s.wal })
  flushed s (panic, w) = (panic, s)
  flushed s (out_of_fuel, w) = (out_of_fuel, s)

  abbrev pub flush_active : Writer → Outcome WalFile → Outcome (Unit {0}) × Writer
  flush_active s (ok w) = flushed s (update_header p w)
  flush_active s (err e) = (err e, s)
  flush_active s panic = (panic, s)
  flush_active s out_of_fuel = (out_of_fuel, s)

  unfoldable pub flush_blocking : Writer → Outcome (Unit {0}) × Writer
  flush_blocking s = if not s.is_dirty then (ok tt, s) else flush_active s (active_of s.wal)

  -- A block behind a flush whose error ends the task.
  abbrev pub or_end : (Writer → Turn) → Outcome (Unit {0}) × Writer → Turn
  or_end next (ok u, s) = next s
  or_end next (err e, s) = (err e, [])
  or_end next (panic, s) = (panic, [])
  or_end next (out_of_fuel, s) = (out_of_fuel, [])

  -- What the callback of an append says after the entries, and after a flush of its own.
  abbrev pub as_io : Option Error → Option Error
  as_io none = none
  as_io (some e) = some io

  -- The end of an append, with its replies: a roll-over ahead, where only little space is left.
  abbrev pub with_sets : Writer → WalFileSet × WalFileSet → Writer
  with_sets s r = record s { wal = r.0; wal_locked = r.1 }

  unfoldable pub roll_ahead : Config → Writer → Outcome Writer
  roll_ahead c s = active_of s.wal >>= λ w.
      if ltb (space_left w) (4 * 1024)
      then (roll c.wal_size s.wal s.wal_locked >>= λ r. ok (with_sets s r))
      else ok s

  abbrev pub append_replies : Config → ℕ → ℕ → Option Error → Option Error → Writer → Turn
  append_replies c callback ack failed called s =
      let answer : List Reply = (ack, failed) ∷ (callback, called) ∷ [] in (roll_ahead c s, answer)

  -- The reply of the append is sent before the flush of `immediate`.
  abbrev pub after_flush : Config → ℕ → ℕ → Option Error → Outcome (Unit {0}) × Writer → Turn
  after_flush c callback ack failed (ok u, s) =
      append_replies c callback ack failed (as_io failed) s
  after_flush c callback ack failed (err e, s) = append_replies c callback ack failed (some io) s
  after_flush c callback ack failed (panic, s) = (panic, (ack, failed) ∷ [])
  after_flush c callback ack failed (out_of_fuel, s) = (out_of_fuel, (ack, failed) ∷ [])

  abbrev pub synced : Config → LogSync → ℕ → ℕ → Option Error → Writer → Turn
  synced c immediate callback ack failed s = after_flush c callback ack failed (flush_blocking s)
  synced c immediate_async callback ack failed s =
      append_replies c callback ack failed (as_io failed) s
  synced c (interval_millis n) callback ack failed s =
      append_replies c callback ack failed (as_io failed) s

  -- An append behind its entries, which the readers are to see.
  abbrev pub turned : (Writer → Turn) → Outcome Writer → Turn
  turned next (ok s) = next s
  turned next (err e) = (err e, [])
  turned next panic = (panic, [])
  turned next out_of_fuel = (out_of_fuel, [])

  unfoldable pub batch_done : Writer → Batch → Outcome Writer
  batch_done s b = share_active b.wal b.wal_locked >>= λ locked.
      ok (record s { wal = b.wal; wal_locked = locked; is_dirty = true })

  abbrev pub with_batch : Config → ℕ → ℕ → Writer → Outcome Batch → Turn
  with_batch c callback ack s (ok b) =
      turned (synced c c.log_sync callback ack b.failed) (batch_done s b)
  with_batch c callback ack s (err e) = (err e, [])
  with_batch c callback ack s panic = (panic, [])
  with_batch c callback ack s out_of_fuel = (out_of_fuel, [])

  unfoldable pub handle_append : Config → List Entry → ℕ → ℕ → Writer → Turn
  handle_append c es callback ack s =
      with_batch c callback ack s (append_entries c es s.wal s.wal_locked)
