-- ===== src/Wal/Served.antt =====
-- A log from its first file on: the start of the writer, its loop, and a read of what it wrote.
use hiqlite.Common.{
  ℕ, suc, ◌+◌, ◌-◌, ◌^◌, ◌≤◌, ◌<◌, ◌≡◌, refl, subst, none, some, List, [], ◌∷◌, ◌++◌, arith, length,
  take, drop, ltb_ge, false,
}
use hiqlite.Wal.Platform.{Platform}
use hiqlite.Wal.Outcome.{ok}
use hiqlite.Wal.File.{new, map_mut, min_wal_size}
use hiqlite.Wal.Layout.{Entry}
use hiqlite.Wal.Metadata.{Metadata, Codec, Directory}
use hiqlite.Wal.Reader.{Message, logs_of, end}
use hiqlite.Wal.ReadTask.{LogReader, open_reader, handle_logs}
use hiqlite.Wal.Copies.{Shows, Shows-Begin, Shows-clone_all, refresh-Begin}
use hiqlite.Wal.Serve.{files_of}
use hiqlite.Wal.Set.{WalFileSet, active_of, put_active, add_file}
use hiqlite.Wal.RollOver.{created, create_file-ok}
use hiqlite.Wal.Shared.{clone_all, clone_no_map}
use hiqlite.Wal.Seen.{IsSeen, IsSeen-serve_logs, Fronts-IsSeen, Shows-Fronts}
use hiqlite.Wal.Turn.{IsWriter}
use hiqlite.Wal.Loop.{Chain, rolls, replies, entries_after, first_after, run-IsWriter}
use hiqlite.Wal.Writer.{Config, Writer, Action}
use hiqlite.Wal.Task.{open_writer, run}

abbrev pub no_files : WalFileSet
no_files = record { active = none; files = [] }

module _ (p : Platform) where
  -- A reader that starts on files that hold some entries is served every range of their ids.
  pub open_reader-handle_logs :
      (k n from until : ℕ) (locked : WalFileSet) (all : List Entry)
      → IsSeen p k n locked.files all
      → n ≤ from
      → from ≤ until
      → until < n + length all
      → until < 2 ^ 64
      → (sent : List Message) × (rd : LogReader) × (handle_logs p
            (λ k. false)
            from
            until
            locked
            (open_reader locked)
          ≡ ok (sent, rd))
        × (sent ≡ logs_of (take (suc until - from) (drop (from - n) all)) ++ (end ∷ []))
  unfolding handle_logs open_reader clone_no_map
  open_reader-handle_logs k n from until locked all seen lo mid hi small =
      let (gs, e, shows) =
        refresh-Begin locked (clone_no_map locked)
          (Shows-Begin (clone_all locked.files) locked.files (Shows-clone_all locked.files)) in
      let here : IsSeen p k n gs all = subst (IsSeen p k n gs) seen.entries (
        Fronts-IsSeen p k n seen.parts gs seen.holds (
          Shows-Fronts gs (files_of seen.parts) seen.behind (subst (Shows gs) seen.files shows))) in
      let (r, served, sent) = IsSeen-serve_logs p k n from until gs all here lo mid hi small in
      (
        r.sent,
        record { wal = record { active = locked.active; files = r.files }; memo = r.memo },
        rw (e, served) refl,
        sent,
      )

-- The writer behind its start without a file.
abbrev pub first_writer : Platform → ℕ → Metadata → Directory → Writer
first_writer p wal_size m d = record {
  wal = record { active = some 0; files = map_mut (created p 1 wal_size) ∷ [] };
  wal_locked = record { active = some 0; files = created p 1 wal_size ∷ [] };
  meta = m;
  directory = d;
  is_dirty = false;
  writes = [];
}

module _ (p : Platform) (codec : Codec) (c : Config) (n : ℕ) (small : c.wal_size < 2 ^ 32)
    (large : min_wal_size ≤ c.wal_size) where
  add_file-first :
      add_file p c.wal_size no_files
      ≡ ok (record { active = some 0; files = created p 1 c.wal_size ∷ [] })
  unfolding add_file new
  add_file-first = rw (ltb_ge c.wal_size min_wal_size large, create_file-ok p 1 c.wal_size) refl

  open_writer-first :
      (m : Metadata) (d : Directory)
      → open_writer p codec c [] m d no_files ≡ ok (first_writer p c.wal_size m d)
  unfolding open_writer active_of put_active clone_no_map clone_all
  open_writer-first m d = rw add_file-first refl

  -- A writer that starts without a file holds no entry, and is ready for a log from any id on.
  pub first_writer-IsWriter :
      (m : Metadata) (d : Directory) → IsWriter p c 1 n [] 0 (first_writer p c.wal_size m d)
  first_writer-IsWriter m d = record {
    parts = [];
    file = map_mut (created p 1 c.wal_size);
    rest = [];
    set = refl;
    log = record {
      parts = tt;
      active = record {
        number = refl;
        version = refl;
        mapped = refl;
        sized = refl;
        len_max = refl;
        kept = (refl, refl);
      };
      shared = record {
        active = refl;
        files = (record { number = refl; version = refl; len_max = refl; size = refl }, refl);
      };
    };
    entries = refl;
    closed_files = omega arith;
    seen = record {
      parts = [];
      behind = created p 1 c.wal_size ∷ [];
      holds = tt;
      files = refl;
      entries = refl;
    };
  }

  -- From the start of a log on, where the writes of the metadata succeed: the writer starts without a
  -- file, serves every action of a sequence of appends, purges of the front, votes and syncs whose
  -- entries carry on their ids from `n` on and fit into a file, replies success to each of them and
  -- ends. A reader that starts then and is asked for any range of the ids that are left sends exactly
  -- the data of the entries of that range, in their order, and the end.
  pub run-served :
      (m : Metadata) (d : Directory) (actions : List Action) (from until : ℕ)
      → Chain c.wal_size n [] actions
      → suc (suc (rolls actions)) < 2 ^ 64
      → first_after n actions ≤ from
      → from ≤ until
      → until < first_after n actions + length (entries_after n [] actions)
      → until < 2 ^ 64
      → (s : Writer) × (s' : Writer) × (sent : List Message) × (rd : LogReader) × (open_writer p
            codec c [] m d no_files
          ≡ ok s)
        × (run p codec c actions s ≡ (ok s', replies actions))
        × (handle_logs p (λ k. false) from until s'.wal_locked (open_reader s'.wal_locked)
            ≡ ok (sent, rd))
        × (sent
            ≡ logs_of (
                take
                  (suc until - from)
                  (drop (from - first_after n actions) (entries_after n [] actions)))
              ++ (end ∷ []))
  run-served m d actions from until chain room lo mid hi narrow =
      let s = first_writer p c.wal_size m d in
      let (s', k', count', done, meta, kept, h') =
        run-IsWriter p codec c small large actions 1 n [] 0 s chain (omega (arith, room)) refl
          (first_writer-IsWriter m d) in
      let (sent, rd, served, same) =
        open_reader-handle_logs p k' (first_after n actions) from until s'.wal_locked
          (entries_after n [] actions) h'.seen lo mid hi narrow in
      (s, s', sent, rd, open_writer-first m d, done, served, same)
