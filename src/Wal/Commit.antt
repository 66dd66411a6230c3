-- ===== src/Wal/Commit.antt =====
-- `Action::Append` of hiqlite-wal/src/writer.rs from its entries to its replies.
use hiqlite.Common.{
  ℕ, suc, ◌+◌, ◌^◌, ◌≤◌, ◌<◌, ◌≡◌, ◌∙◌, refl, ap, sym, subst, Bool, true, false, none, List, [],
  ◌∷◌, ◌++◌, arith, length,
}
use hiqlite.Wal.Platform.{Platform}
use hiqlite.Wal.Outcome.{ok}
use hiqlite.Wal.File.{min_wal_size}
use hiqlite.Wal.Layout.{Entry, AreEntries}
use hiqlite.Wal.Rounds.{Consecutive}
use hiqlite.Wal.Batch.{set_of, Fit, append_entries-IsLog}
use hiqlite.Wal.Seen.{IsSeen}
use hiqlite.Wal.Turn.{IsWriter, Goes, flush_blocking-IsWriter, share_active-IsLog}
use hiqlite.Wal.Ahead.{roll_ahead-IsWriter}
use hiqlite.Wal.Writer.{
  Config, Writer, LogSync, immediate, immediate_async, interval_millis, Reply, batch_done, synced,
  append_replies, handle_append,
}

-- The two replies of an append that succeeded.
abbrev pub accepted : ℕ → ℕ → List Reply
accepted callback ack = (ack, none) ∷ (callback, none) ∷ []

-- Whether the level of the writer leaves something to flush behind an append.
abbrev pub leaves_dirty : LogSync → Bool
leaves_dirty immediate = false
leaves_dirty immediate_async = true
leaves_dirty (interval_millis ms) = true

module _ (p : Platform) (c : Config) (k n : ℕ) (small : c.wal_size < 2 ^ 32)
    (large : min_wal_size ≤ c.wal_size) where
  append_replies-IsWriter :
      (all : List Entry) (count : ℕ) (s : Writer) (callback ack : ℕ)
      → suc (k + count) < 2 ^ 64
      → IsWriter p c k n all count s
      → (s' : Writer) × (append_replies p c callback ack none none s
          ≡ (ok s', accepted callback ack))
        × (s'.is_dirty ≡ s.is_dirty)
        × Goes p c k n all (suc count) s s'
  append_replies-IsWriter all count s callback ack room h =
      let (s', e, dirty, goes) = roll_ahead-IsWriter p c k n all s count small large room h in
      (s', rw e refl, dirty, goes)

  synced-IsWriter :
      (level : LogSync) (all : List Entry) (count : ℕ) (s : Writer) (callback ack : ℕ)
      → suc (k + count) < 2 ^ 64
      → s.is_dirty ≡ true
      → IsWriter p c k n all count s
      → (s' : Writer) × (synced p c level callback ack none s ≡ (ok s', accepted callback ack))
        × (s'.is_dirty ≡ leaves_dirty level)
        × Goes p c k n all (suc count) s s'
  synced-IsWriter immediate all count s callback ack room dirty h =
      let (s', e, clean, goes) = flush_blocking-IsWriter p c k n all count s large h in
      let (s'', e', same, goes') =
        append_replies-IsWriter all count s' callback ack room goes.writer in
      (
        s'',
        rw e e',
        same ∙ clean,
        record {
          meta = goes'.meta ∙ goes.meta;
          directory = goes'.directory ∙ goes.directory;
          writes = goes'.writes ∙ goes.writes;
          writer = goes'.writer;
        },
      )
  synced-IsWriter immediate_async all count s callback ack room dirty h =
      let (s', e, same, goes) = append_replies-IsWriter all count s callback ack room h in
      (s', e, same ∙ dirty, goes)
  synced-IsWriter (interval_millis ms) all count s callback ack room dirty h =
      let (s', e, same, goes) = append_replies-IsWriter all count s callback ack room h in
      (s', e, same ∙ dirty, goes)

  -- An append of entries that carry on the ids of the log, each of which fits into a new file,
  -- succeeds: both replies say so, the writer's files and the readers' hold the entries of before and
  -- those of the batch, and the metadata stay as they are. The writer has nothing to flush afterwards
  -- at the level `immediate`, and has at the others.
  pub handle_append-IsWriter :
      (all es : List Entry) (count : ℕ) (s : Writer) (callback ack : ℕ)
      → Fit c.wal_size es
      → AreEntries es
      → Consecutive (n + length all) es
      → suc (k + count + length es) < 2 ^ 64
      → IsWriter p c k n all count s
      → (s' : Writer) × (handle_append p c es callback ack s ≡ (ok s', accepted callback ack))
        × (s'.is_dirty ≡ leaves_dirty c.log_sync)
        × Goes p c k n (all ++ es) (suc (count + length es)) s s'
  unfolding handle_append batch_done
  handle_append-IsWriter all es count s callback ack fits entries next room h =
      let (qs, w, rs, copy, done, l, holds, bound) =
        append_entries-IsLog p c k n small large es h.parts h.file h.rest s.wal_locked fits entries
          (subst (λ l. Consecutive (n + length l) es) (sym h.entries) next)
          (omega (arith, room, h.closed_files)) h.log in
      let (copy', shared, l', seen) = share_active-IsLog p c k n qs w rs copy l in
      let all' = holds ∙ ap (λ l. l ++ es) h.entries in
      let s₁ : Writer = record s { wal = set_of qs w; wal_locked = copy'; is_dirty = true } in
      let writer : IsWriter p c k n (all ++ es) (count + length es) s₁ = record {
        parts = qs;
        file = w;
        rest = rs;
        set = refl;
        log = l';
        entries = all';
        closed_files = omega (arith, bound, h.closed_files);
        seen = subst (IsSeen p k n copy'.files) all' seen;
      } in
      let (s', e, dirty, goes) =
        synced-IsWriter c.log_sync (all ++ es) (count + length es) s₁ callback ack
          (omega (arith, room)) refl writer in
      (
        s',
        rw (h.set, done, shared) e,
        dirty,
        record {
          meta = goes.meta;
          directory = goes.directory;
          writes = goes.writes;
          writer = goes.writer;
        },
      )
