-- ===== src/Wal/Turn.antt =====
-- A turn of the writer's loop in hiqlite-wal/src/writer.rs on a log that its files hold.
use hiqlite.Common.{
  ℕ, ◌+◌, ◌≤◌, ◌≡◌, ◌∙◌, refl, sym, subst, Bool, true, false, some, List, [], ◌∷◌, ◌++◌, append-nil,
  arith, length,
}
use hiqlite.Wal.Platform.{Platform}
use hiqlite.Wal.Outcome.{ok}
use hiqlite.Wal.Memory.{put}
use hiqlite.Wal.File.{WalFile, min_wal_size}
use hiqlite.Wal.Header.{header, update_header-ok}
use hiqlite.Wal.Layout.{Entry}
use hiqlite.Wal.Copies.{Shows, Shows-Lags, Lags-last, Lags-share}
use hiqlite.Wal.RollOver.{closed, get_elem?-append}
use hiqlite.Wal.Serve.{Part, files_of, entries_of, AreParts}
use hiqlite.Wal.Set.{WalFileSet, set_at, active_of, put_active}
use hiqlite.Wal.Shared.{clone_from_no_mmap}
use hiqlite.Wal.Sealed.{
  IsActive, AreParts-append, files_of-append, entries_of-append, closed-IsPart,
}
use hiqlite.Wal.Seen.{IsSeen, IsPart-Shown, Fronts-IsSeen, Shows-Fronts}
use hiqlite.Wal.Batch.{set_of, active_of-set_of, put_active-set_of, IsLog}
use hiqlite.Wal.Writer.{Config, Writer, share_active, flush_blocking}

-- The active file with its header written.
module _ (p : Platform) where
  abbrev pub headed : WalFile → WalFile
  headed w = record w { bytes = put w.bytes 0 (header p w) }

  headed-IsActive :
      (wal_size k m : ℕ) (w : WalFile) (rs : List Entry)
      → IsActive p wal_size k m w rs
      → IsActive p wal_size k m (headed w) rs
  headed-IsActive wal_size k m w [] a = record {
    number = a.number;
    version = a.version;
    mapped = a.mapped;
    sized = a.sized;
    len_max = a.len_max;
    kept = a.kept;
  }
  headed-IsActive wal_size k m w (r ∷ rs) a =
      let (s, e, part) = a.kept in
      record {
        number = a.number;
        version = a.version;
        mapped = a.mapped;
        sized = a.sized;
        len_max = a.len_max;
        kept = (
          s,
          e,
          IsPart-Shown p k m (record { file = closed p w; start = s; stop = e; entries = r ∷ rs })
              (headed w) refl (closed-IsPart p k m s e w (r ∷ rs) part),
        );
      }

module _ (p : Platform) (c : Config) (k n : ℕ) where
  -- The files of the writer hold the entries `all`, in at most `count` closed files, and those of the
  -- readers hold them too.
  pub record IsWriter (all : List Entry) (count : ℕ) (s : Writer) : Type 0 where
    pub parts : List Part
    pub file : WalFile
    pub rest : List Entry
    pub set : s.wal ≡ set_of parts file
    pub log : IsLog p c k n parts file rest s.wal_locked
    pub entries : entries_of parts ++ rest ≡ all
    pub closed_files : length parts ≤ count
    pub seen : IsSeen p k n s.wal_locked.files all

  -- A copy that shows all of the files shows all of the entries.
  pub Shows-IsSeen :
      (qs : List Part) (w : WalFile) (rs : List Entry) (fs : List WalFile)
      → AreParts p k n qs
      → IsActive p c.wal_size (k + length qs) (n + length (entries_of qs)) w rs
      → Shows fs (files_of qs ++ (w ∷ []))
      → IsSeen p k n fs (entries_of qs ++ rs)
  Shows-IsSeen qs w [] fs parts a b =
      subst (IsSeen p k n fs) (sym (append-nil (entries_of qs)))
        (Fronts-IsSeen p k n qs fs parts (Shows-Fronts fs (files_of qs) (w ∷ []) b))
  Shows-IsSeen qs w (r ∷ rs) fs parts a b =
      let (s, e, part) = a.kept in
      let q : Part = record { file = w; start = s; stop = e; entries = r ∷ rs } in
      subst (IsSeen p k n fs) (entries_of-append qs q) (
        Fronts-IsSeen p k n (qs ++ (q ∷ [])) fs (AreParts-append p k n qs q parts part) (
          Shows-Fronts fs (files_of (qs ++ (q ∷ []))) [] (
            subst (Shows fs)
              (sym (files_of-append qs q) ∙ sym (append-nil (files_of (qs ++ (q ∷ []))))) b)))

  pub share_active-IsLog :
      (qs : List Part) (w : WalFile) (rs : List Entry) (copy : WalFileSet)
      → IsLog p c k n qs w rs copy
      → (copy' : WalFileSet) × (share_active (set_of qs w) copy ≡ ok copy')
        × IsLog p c k n qs w rs copy'
        × IsSeen p k n copy'.files (entries_of qs ++ rs)
  unfolding share_active active_of put_active
  share_active-IsLog qs w rs copy l =
      let (f, e, shows) = Lags-share copy.files (files_of qs) w l.shared.files in
      let fs = set_at copy.files (length (files_of qs)) (clone_from_no_mmap false w f) in
      (
        record { active = some (length (files_of qs)); files = fs },
        rw (get_elem?-append (files_of qs) [] w, l.shared.active, e) refl,
        record {
          parts = l.parts;
          active = l.active;
          shared = record { active = refl; files = Shows-Lags fs (files_of qs) w shows };
        },
        Shows-IsSeen qs w rs fs l.parts l.active shows,
      )

  pub headed-IsLog :
      (qs : List Part) (w : WalFile) (rs : List Entry) (copy : WalFileSet)
      → IsLog p c k n qs w rs copy
      → IsLog p c k n qs (headed p w) rs copy
  headed-IsLog qs w rs copy l = record {
    parts = l.parts;
    active =
        headed-IsActive p c.wal_size (k + length qs) (n + length (entries_of qs)) w rs l.active;
    shared = record {
      active = l.shared.active;
      files =
          Lags-last copy.files (files_of qs) w (headed p w)
            (record { number = refl; version = refl; len_max = refl; size = refl }) l.shared.files;
    };
  }

  -- The writer goes on with the metadata as they were.
  pub record Goes (all : List Entry) (count : ℕ) (s s' : Writer) : Type 0 where
    pub meta : s'.meta ≡ s.meta
    pub directory : s'.directory ≡ s.directory
    pub writes : s'.writes ≡ s.writes
    pub writer : IsWriter all count s'

  flush_split :
      (b : Bool) (all : List Entry) (count : ℕ) (s : Writer)
      → min_wal_size ≤ c.wal_size
      → IsWriter all count s
      → s.is_dirty ≡ b
      → (s' : Writer) × (flush_blocking p s ≡ (ok tt, s'))
        × (s'.is_dirty ≡ false)
        × Goes all count s s'
  unfolding flush_blocking
  flush_split false all count s large h clean =
      (s, rw clean refl, clean, record { meta = refl; directory = refl; writes = refl; writer = h })
  flush_split true all count s large h dirty =
      let l = h.log in
      let size : 32 ≤ h.file.size = omega (arith, l.active.sized, l.active.len_max, large) in
      (
        record s { wal = set_of h.parts (headed p h.file); is_dirty = false },
        rw
            (
              dirty,
              h.set,
              active_of-set_of h.parts h.file,
              update_header-ok p h.file l.active.version l.active.mapped size,
              put_active-set_of h.parts h.file (headed p h.file),
            )
            refl,
        refl,
        record {
          meta = refl;
          directory = refl;
          writes = refl;
          writer = record {
            parts = h.parts;
            file = headed p h.file;
            rest = h.rest;
            set = refl;
            log = headed-IsLog h.parts h.file h.rest s.wal_locked l;
            entries = h.entries;
            closed_files = h.closed_files;
            seen = h.seen;
          };
        },
      )

  -- A blocking flush leaves nothing to flush, and the entries as they are.
  pub flush_blocking-IsWriter :
      (all : List Entry) (count : ℕ) (s : Writer)
      → min_wal_size ≤ c.wal_size
      → IsWriter all count s
      → (s' : Writer) × (flush_blocking p s ≡ (ok tt, s'))
        × (s'.is_dirty ≡ false)
        × Goes all count s s'
  flush_blocking-IsWriter all count s large h = flush_split s.is_dirty all count s large h refl
