-- ===== src/Wal/Task.antt =====
-- The task of the writer in hiqlite-wal/src/writer.rs: its start, its actions, its loop and its end.
use hiqlite.Common.{ℕ, false, Option, none, some, List, [], ◌∷◌, ◌++◌, take}
use hiqlite.Wal.Platform.{Platform}
use hiqlite.Wal.Outcome.{Outcome, io, ok, err, panic, out_of_fuel, ◌>>=◌}
use hiqlite.Wal.File.{WalFile, update_header, map_mut}
use hiqlite.Wal.Set.{WalFileSet, active_of, put_active, outcome_of, add_file}
use hiqlite.Wal.Delete.{shift_delete_logs, Shifted}
use hiqlite.Wal.Shared.{clone_no_map}
use hiqlite.Wal.Metadata.{Metadata, Codec, Directory, write, write_unchecked, calls}
use hiqlite.Wal.Writer.{
  Action, append, remove, vote, sync, Reply, Config, Writer, Turn, share, flush_blocking, or_end,
  with_sets, turned, handle_append,
}

module _ (p : Platform) (codec : Codec) where
  -- `Metadata::write` of the metadata as they are.
  abbrev pub persist_with : List (Option ℕ) → Writer → Outcome (Unit {0}) × Writer
  persist_with [] s = (ok tt, record s { directory = write codec s.meta s.directory })
  persist_with (none ∷ more) s =
      (ok tt, record s { directory = write codec s.meta s.directory; writes = more })
  persist_with (some n ∷ more) s = (
    err io,
    record s {
      directory = calls (take n (write_unchecked codec (codec.serialize s.meta))) s.directory;
      writes = more;
    },
  )

  unfoldable pub persist : Writer → Outcome (Unit {0}) × Writer
  persist s = persist_with s.writes s

  abbrev pub purged_to : Option (List ℕ) → Metadata → Metadata
  purged_to last_log m = record m { last_purged_log_id = last_log }

  -- The frontier is persisted before the files are removed, where there is one.
  unfoldable pub persist_purged : Option (List ℕ) → Writer → Outcome (Unit {0}) × Writer
  unfolding persist
  persist_purged none s = (ok tt, s)
  persist_purged (some log) s = persist (record s { meta = purged_to (some log) s.meta })

  -- An error of the revert is only logged.
  unfoldable pub revert_purged : Option (List ℕ) → Option (List ℕ) → Writer → Writer
  unfolding persist
  revert_purged none previous s = s
  revert_purged (some log) previous s = (persist (record s { meta = purged_to previous s.meta })).1

  abbrev pub removed : Option (List ℕ) → Option (List ℕ) → ℕ → Writer → Shifted → Turn
  removed last_log previous ack s (ok u, wal) =
      turned p (λ s'. (ok s', (ack, none) ∷ []))
        (share wal s.wal_locked >>= λ locked. ok (with_sets p s (wal, locked)))
  removed last_log previous ack s (err e, wal) =
      (ok (revert_purged last_log previous (record s { wal = wal })), (ack, some e) ∷ [])
  removed last_log previous ack s (panic, wal) = (panic, [])
  removed last_log previous ack s (out_of_fuel, wal) = (out_of_fuel, [])

  -- The deletion behind the flush; an error of the flush is the answer.
  abbrev pub remove_flushed :
      Config → ℕ → ℕ → Option (List ℕ) → ℕ → Outcome (Unit {0}) × Writer → Turn
  remove_flushed c from until last_log ack (ok u, s) =
      or_end p
        (λ s'.
          removed last_log s.meta.last_purged_log_id ack s'
            (shift_delete_logs p from until c.wal_size s'.wal))
        (persist_purged last_log s)
  remove_flushed c from until last_log ack (err e, s) = (ok s, (ack, some e) ∷ [])
  remove_flushed c from until last_log ack (panic, s) = (panic, [])
  remove_flushed c from until last_log ack (out_of_fuel, s) = (out_of_fuel, [])

  unfoldable pub handle_remove : Config → ℕ → ℕ → Option (List ℕ) → ℕ → Writer → Turn
  handle_remove c from until last_log ack s =
      remove_flushed c from until last_log ack (flush_blocking p s)

  -- `ack.send(res)`, with the result of the write.
  abbrev pub answered : ℕ → Outcome (Unit {0}) × Writer → Turn
  answered ack (ok u, s) = (ok s, (ack, none) ∷ [])
  answered ack (err e, s) = (ok s, (ack, some e) ∷ [])
  answered ack (panic, s) = (panic, [])
  answered ack (out_of_fuel, s) = (out_of_fuel, [])

  unfoldable pub handle_vote : List ℕ → ℕ → Writer → Turn
  unfolding persist
  handle_vote value ack s =
      or_end p
        (λ s'. answered ack (persist (record s' { meta = record s'.meta { vote = some value } })))
        (flush_blocking p s)

  unfoldable pub handle : Config → Action → Writer → Turn
  handle c (append es callback ack) s = handle_append p c es callback ack s
  handle c (remove from until last_log ack) s = handle_remove c from until last_log ack s
  handle c (vote value ack) s = handle_vote value ack s
  handle c sync s = or_end p (λ s'. (ok s', [])) (flush_blocking p s)

  abbrev pub persisted : Outcome (Unit {0}) × Writer → Outcome Writer
  persisted (ok u, s) = ok s
  persisted (err e, s) = err e
  persisted (panic, s) = panic
  persisted (out_of_fuel, s) = out_of_fuel

  -- The end of the task: the active file is flushed and the metadata is written.
  unfoldable pub shutdown : Writer → Outcome Writer
  unfolding persist
  shutdown s = active_of s.wal >>= λ w. outcome_of (update_header p w) >>= λ w'.
      persisted (persist (record s { wal = put_active w' s.wal }))

  abbrev pub then_run : List Reply → Turn → Turn
  then_run replies (o, more) = (o, replies ++ more)

  -- The loop, and the end behind it.
  abbrev pub go_on : (Writer → Turn) → Turn → Turn
  go_on next (ok s, replies) = then_run replies (next s)
  go_on next (other, replies) = (other, replies)

  unfoldable pub run : Config → List Action → Writer → Turn
  run c [] s = (shutdown s, [])
  run c (a ∷ more) s = go_on (run c more) (handle c a s)

  -- The start, with the files as the integrity check leaves them: a log without a file gets its first.
  abbrev pub with_first : ℕ → List WalFile → WalFileSet → Outcome WalFileSet
  with_first wal_size [] s = add_file p wal_size s
  with_first wal_size (w ∷ ws) s = ok s

  -- `writes` says how the writes of the metadata end later.
  unfoldable pub open_writer :
      Config → List (Option ℕ) → Metadata → Directory → WalFileSet → Outcome Writer
  open_writer c writes m d s = with_first c.wal_size s.files s >>= λ s'. active_of s' >>= λ w.
      ok (record {
        wal = put_active (map_mut w) s';
        wal_locked = clone_no_map s';
        meta = m;
        directory = d;
        is_dirty = false;
        writes = writes;
      })
