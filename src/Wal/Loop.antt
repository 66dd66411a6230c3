-- ===== src/Wal/Loop.antt =====
-- The loop of hiqlite-wal/src/writer.rs over appends, purges, votes and syncs, and its end.
use hiqlite.Common.{
  ◌-◌, drop, ℕ, suc, ◌+◌, ◌^◌, ◌≤◌, ◌<◌, ◌≡◌, ◌∙◌, refl, ap, false, some, none, List, [], ◌∷◌, ◌++◌,
  arith, length,
}
use hiqlite.Wal.Platform.{Platform}
use hiqlite.Wal.Outcome.{ok}
use hiqlite.Wal.File.{min_wal_size}
use hiqlite.Wal.Layout.{Entry, AreEntries}
use hiqlite.Wal.Rounds.{Consecutive}
use hiqlite.Wal.Header.{update_header-ok}
use hiqlite.Wal.Metadata.{Metadata, Codec, Directory, read_or_create, write}
use hiqlite.Wal.Durable.{read_or_create-write}
use hiqlite.Wal.Batch.{set_of, active_of-set_of, put_active-set_of, Fit}
use hiqlite.Wal.Turn.{IsWriter, headed, headed-IsLog, flush_blocking-IsWriter}
use hiqlite.Wal.Frontier.{frontier, handle_remove-IsWriter}
use hiqlite.Wal.Commit.{handle_append-IsWriter}
use hiqlite.Wal.Writer.{Config, Writer, Action, append, remove, vote, sync, Turn, Reply}
use hiqlite.Wal.Task.{persist, handle_vote, handle, shutdown, then_run, run}

abbrev pub voted : List ℕ → Metadata → Metadata
voted value m = record m { vote = some value }

-- The first id, the entries and the metadata behind some actions, and the files that these may close.
abbrev pub first_after : ℕ → List Action → ℕ
first_after n [] = n
first_after n (append es callback ack ∷ more) = first_after n more
first_after n (remove from until last_log ack ∷ more) = first_after until more
first_after n (vote value ack ∷ more) = first_after n more
first_after n (sync ∷ more) = first_after n more

abbrev pub entries_after : ℕ → List Entry → List Action → List Entry
entries_after n all [] = all
entries_after n all (append es callback ack ∷ more) = entries_after n (all ++ es) more
entries_after n all (remove from until last_log ack ∷ more) =
    entries_after until (drop (until - n) all) more
entries_after n all (vote value ack ∷ more) = entries_after n all more
entries_after n all (sync ∷ more) = entries_after n all more

abbrev pub meta_after : Metadata → List Action → Metadata
meta_after m [] = m
meta_after m (append es callback ack ∷ more) = meta_after m more
meta_after m (remove from until none ack ∷ more) = meta_after m more
meta_after m (remove from until (some log) ack ∷ more) = meta_after (frontier log m) more
meta_after m (vote value ack ∷ more) = meta_after (voted value m) more
meta_after m (sync ∷ more) = meta_after m more

abbrev pub rolls : List Action → ℕ
rolls [] = 0
rolls (append es callback ack ∷ more) = suc (length es) + rolls more
rolls (remove from until last_log ack ∷ more) = rolls more
rolls (vote value ack ∷ more) = rolls more
rolls (sync ∷ more) = rolls more

-- The replies of success.
abbrev pub replies : List Action → List Reply
replies [] = []
replies (append es callback ack ∷ more) = (ack, none) ∷ (callback, none) ∷ replies more
replies (remove from until last_log ack ∷ more) = (ack, none) ∷ replies more
replies (vote value ack ∷ more) = (ack, none) ∷ replies more
replies (sync ∷ more) = replies more

-- Each append carries on the ids of the entries before it, which are from `n` on, with entries that
-- fit into a new file. What is removed is the front of the log up to an id that it holds, with a new
-- purge frontier.
abbrev pub Chain : ℕ → ℕ → List Entry → List Action → Type 0
Chain wal_size n all [] = Unit
Chain wal_size n all (append es callback ack ∷ more) =
    Fit wal_size es
    × AreEntries es
    × Consecutive (n + length all) es
    × Chain wal_size n (all ++ es) more
Chain wal_size n all (remove from until none ack ∷ more) = ⊥
Chain wal_size n all (remove from until (some log) ack ∷ more) =
    (from ≤ n)
    × (n ≤ until)
    × (until < n + length all)
    × Chain wal_size until (drop (until - n) all) more
Chain wal_size n all (vote value ack ∷ more) = Chain wal_size n all more
Chain wal_size n all (sync ∷ more) = Chain wal_size n all more

module _ (p : Platform) (codec : Codec) (c : Config) (k n : ℕ) (small : c.wal_size < 2 ^ 32)
    (large : min_wal_size ≤ c.wal_size) where
  pub with_meta-IsWriter :
      (all : List Entry) (count : ℕ) (s : Writer) (m : Metadata) (d : Directory)
      → IsWriter p c k n all count s
      → IsWriter p c k n all count (record s { meta = m; directory = d })
  with_meta-IsWriter all count s m d h = record {
    parts = h.parts;
    file = h.file;
    rest = h.rest;
    set = h.set;
    log = h.log;
    entries = h.entries;
    closed_files = h.closed_files;
    seen = h.seen;
  }

  -- A vote is flushed and persisted, where the writes of the metadata succeed: nothing is left to
  -- flush, the metadata file is read as the metadata with the new vote, and the entries stay as they
  -- are.
  pub handle_vote-IsWriter :
      (all : List Entry) (count : ℕ) (s : Writer) (value : List ℕ) (ack : ℕ)
      → s.writes ≡ []
      → IsWriter p c k n all count s
      → (s' : Writer) × (handle_vote p codec value ack s ≡ (ok s', (ack, none) ∷ []))
        × (s'.is_dirty ≡ false)
        × (s'.writes ≡ [])
        × (s'.meta ≡ voted value s.meta)
        × (read_or_create codec s'.directory ≡ (ok (voted value s.meta), s'.directory))
        × IsWriter p c k n all count s'
  unfolding handle_vote persist
  handle_vote-IsWriter all count s value ack sure h =
      let (s', e, clean, goes) = flush_blocking-IsWriter p c k n all count s large h in
      let m = voted value s'.meta in
      let d = write codec m s'.directory in
      let same : m ≡ voted value s.meta = ap (voted value) goes.meta in
      (
        record s' { meta = m; directory = d },
        rw (e, goes.writes ∙ sure) refl,
        clean,
        goes.writes ∙ sure,
        same,
        read_or_create-write codec m s'.directory ∙ ap (λ v. (ok v, d)) same,
        with_meta-IsWriter all count s' m d goes.writer,
      )

  -- The end of the loop succeeds and writes the metadata, where that write succeeds.
  pub shutdown-IsWriter :
      (all : List Entry) (count : ℕ) (s : Writer)
      → s.writes ≡ []
      → IsWriter p c k n all count s
      → (s' : Writer) × (shutdown p codec s ≡ ok s')
        × (s'.meta ≡ s.meta)
        × (read_or_create codec s'.directory ≡ (ok s.meta, s'.directory))
        × IsWriter p c k n all count s'
  unfolding shutdown persist
  shutdown-IsWriter all count s sure h =
      let l = h.log in
      let size : 32 ≤ h.file.size = omega (arith, l.active.sized, l.active.len_max, large) in
      let wal = set_of h.parts (headed p h.file) in
      (
        record s { wal = wal; directory = write codec s.meta s.directory },
        rw
            (
              h.set,
              active_of-set_of h.parts h.file,
              update_header-ok p h.file l.active.version l.active.mapped size,
              put_active-set_of h.parts h.file (headed p h.file),
              sure,
            )
            refl,
        refl,
        read_or_create-write codec s.meta s.directory,
        record {
          parts = h.parts;
          file = headed p h.file;
          rest = h.rest;
          set = refl;
          log = headed-IsLog p c k n h.parts h.file h.rest s.wal_locked l;
          entries = h.entries;
          closed_files = h.closed_files;
          seen = h.seen;
        },
      )

module _ (p : Platform) (codec : Codec) (c : Config) (small : c.wal_size < 2 ^ 32)
    (large : min_wal_size ≤ c.wal_size) where
  abbrev pub Runs : ℕ → List Entry → List Action → Metadata → Turn → Type 0
  Runs n all actions m t =
      (s' : Writer) × (k' : ℕ) × (count' : ℕ) × (t ≡ (ok s', replies actions))
      × (s'.meta ≡ meta_after m actions)
      × (read_or_create codec s'.directory ≡ (ok (meta_after m actions), s'.directory))
      × IsWriter p c k' (first_after n actions) (entries_after n all actions) count' s'

  -- The rest of a run, behind the replies of an action.
  Runs-behind :
      (before : List Reply) (n : ℕ) (all : List Entry) (more : List Action) (m m' : Metadata)
      (t : Turn)
      → m' ≡ m
      → Runs n all more m' t
      → (s' : Writer) × (k' : ℕ) × (count' : ℕ) × (then_run p codec before t
          ≡ (ok s', before ++ replies more))
        × (s'.meta ≡ meta_after m more)
        × (read_or_create codec s'.directory ≡ (ok (meta_after m more), s'.directory))
        × IsWriter p c k' (first_after n more) (entries_after n all more) count' s'
  Runs-behind before n all more m m' t same (s', k', count', e, meta, kept, h) =
      let here = ap (λ v. meta_after v more) same in
      (
        s',
        k',
        count',
        ap (then_run p codec before) e,
        meta ∙ here,
        kept ∙ ap (λ v. (ok v, s'.directory)) here,
        h,
      )

  -- Where the writes of the metadata succeed, the writer serves every action of a sequence of appends,
  -- purges, votes and syncs and then ends:
  -- all of the replies say success, the files of the writer and of the readers hold what they held and
  -- what was appended, less what was purged, in its order, and the metadata file is read as the
  -- metadata with the last vote and the last purge frontier.
  pub run-IsWriter :
      (actions : List Action) (k n : ℕ) (all : List Entry) (count : ℕ) (s : Writer)
      → Chain c.wal_size n all actions
      → suc (k + count + rolls actions) < 2 ^ 64
      → s.writes ≡ []
      → IsWriter p c k n all count s
      → Runs n all actions s.meta (run p codec c actions s)
  unfolding run handle
  run-IsWriter [] k n all count s chain room sure h =
      let (s', e, meta, kept, h') =
        shutdown-IsWriter p codec c k n small large all count s sure h in
      (s', k, count, rw e refl, meta, kept, h')
  run-IsWriter (append es callback ack ∷ more) k n all count s (fits, entries, next, chain) room
        sure h =
      let (s', e, dirty, goes) =
        handle_append-IsWriter p c k n small large all es count s callback ack fits entries next
          (omega (arith, room)) h in
      let (s'', k', count', e', meta', kept', h'') =
        Runs-behind ((ack, none) ∷ (callback, none) ∷ []) n (all ++ es) more s.meta s'.meta
          (run p codec c more s') goes.meta
          (run-IsWriter more k n (all ++ es) (suc (count + length es)) s' chain
            (omega (arith, room)) (goes.writes ∙ sure) goes.writer) in
      (s'', k', count', rw e e', meta', kept', h'')
  run-IsWriter (remove from until none ack ∷ more) k n all count s chain room sure h = absurd chain
  run-IsWriter (remove from until (some log) ack ∷ more) k n all count s (le, lo, hi, chain) room
        sure h =
      let (s', k', count', e, clean, sure', meta, kept, bound, h') =
        handle_remove-IsWriter p codec c k n large all count s from until log ack le lo hi sure h in
      let (s'', k'', count'', e', meta', kept', h'') =
        Runs-behind ((ack, none) ∷ []) until (drop (until - n) all) more (frontier log s.meta)
          s'.meta (run p codec c more s') meta
          (run-IsWriter more k' until (drop (until - n) all) count' s' chain
            (omega (arith, room, bound)) sure' h') in
      (s'', k'', count'', rw e e', meta', kept', h'')
  run-IsWriter (vote value ack ∷ more) k n all count s chain room sure h =
      let (s', e, clean, sure', meta, kept, h') =
        handle_vote-IsWriter p codec c k n small large all count s value ack sure h in
      let (s'', k', count', e', meta', kept', h'') =
        Runs-behind ((ack, none) ∷ []) n all more (voted value s.meta) s'.meta
          (run p codec c more s') meta (run-IsWriter more k n all count s' chain room sure' h') in
      (s'', k', count', rw e e', meta', kept', h'')
  run-IsWriter (sync ∷ more) k n all count s chain room sure h =
      let (s', e, clean, goes) = flush_blocking-IsWriter p c k n all count s large h in
      let (s'', k', count', e', meta', kept', h'') =
        Runs-behind [] n all more s.meta s'.meta (run p codec c more s') goes.meta
          (run-IsWriter more k n all count s' chain room (goes.writes ∙ sure) goes.writer) in
      (s'', k', count', rw e e', meta', kept', h'')
