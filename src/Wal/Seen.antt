-- ===== src/Wal/Seen.antt =====
-- What the readers of hiqlite-wal/src/reader.rs see in the writer's copy of the files.
use hiqlite.Common.{
  ℕ, suc, ◌+◌, ◌^◌, ◌-◌, ◌≤◌, ◌<◌, ◌≡◌, ◌∙◌, refl, ap, sym, subst, none, List, [], ◌∷◌, ◌++◌,
  length, take, drop,
}
use hiqlite.Wal.Platform.{Platform}
use hiqlite.Wal.Outcome.{ok}
use hiqlite.Wal.File.{WalFile}
use hiqlite.Wal.Layout.{Entry}
use hiqlite.Wal.Reader.{Served, serve_logs, logs_of, end}
use hiqlite.Wal.Shared.{clone_no_mmap}
use hiqlite.Wal.Copies.{Shown, Shows, Lags}
use hiqlite.Wal.Serve.{Part, files_of, entries_of, IsPart, AreParts, MemoFits, serve_logs-behind}

-- The copies begin with ones that show the files.
abbrev pub Fronts : List WalFile → List WalFile → Type 0
Fronts fs [] = Unit
Fronts [] (w ∷ ws) = ⊥
Fronts (f ∷ fs) (w ∷ ws) = Shown f w × Fronts fs ws

pub Shows-Fronts : (fs ws vs : List WalFile) → Shows fs (ws ++ vs) → Fronts fs ws
Shows-Fronts fs [] vs b = tt
Shows-Fronts [] (w ∷ ws) vs b = b
Shows-Fronts (f ∷ fs) (w ∷ ws) vs (h, b) = (h, Shows-Fronts fs ws vs b)

pub Lags-Fronts : (fs ws : List WalFile) (w : WalFile) → Lags fs ws w → Fronts fs ws
Lags-Fronts fs [] w b = tt
Lags-Fronts [] (v ∷ ws) w b = b
Lags-Fronts (f ∷ fs) (v ∷ ws) w (h, b) = (h, Lags-Fronts fs ws w b)

module _ (p : Platform) where
  abbrev of_file : Part → WalFile → Part
  of_file q f = record q { file = f }

  clone-IsPart :
      (k n : ℕ) (q : Part) → IsPart p k n q → IsPart p k n (of_file q (clone_no_mmap q.file))
  clone-IsPart k n q part = record {
    number = part.number;
    first = part.first;
    version = part.version;
    layout = record {
      start = part.layout.start;
      stop = part.layout.stop;
      behind_header = part.layout.behind_header;
      ends = part.layout.ends;
      fits = part.layout.fits;
      sized = part.layout.sized;
      small = part.layout.small;
      entries = part.layout.entries;
      holds = part.layout.holds;
    };
    consecutive = part.consecutive;
    full = part.full;
    some_entry = part.some_entry;
  }

  IsPart-clone :
      (k n : ℕ) (q : Part) (f : WalFile)
      → IsPart p k n (of_file q (clone_no_mmap f))
      → IsPart p k n (of_file q f)
  IsPart-clone k n q f part = record {
    number = part.number;
    first = part.first;
    version = part.version;
    layout = record {
      start = part.layout.start;
      stop = part.layout.stop;
      behind_header = part.layout.behind_header;
      ends = part.layout.ends;
      fits = part.layout.fits;
      sized = part.layout.sized;
      small = part.layout.small;
      entries = part.layout.entries;
      holds = part.layout.holds;
    };
    consecutive = part.consecutive;
    full = part.full;
    some_entry = part.some_entry;
  }

  -- A file that shows the same holds the same part.
  pub IsPart-Shown :
      (k n : ℕ) (q : Part) (f : WalFile)
      → Shown f q.file
      → IsPart p k n q
      → IsPart p k n (of_file q f)
  IsPart-Shown k n q f h part =
      IsPart-clone k n q f
        (subst (λ v. IsPart p k n (of_file q v)) (sym h) (clone-IsPart k n q part))

  -- The files hold the entries in parts, with further files behind these.
  pub record IsSeen (k n : ℕ) (fs : List WalFile) (all : List Entry) : Type 0 where
    pub parts : List Part
    pub behind : List WalFile
    pub holds : AreParts p k n parts
    pub files : fs ≡ files_of parts ++ behind
    pub entries : entries_of parts ≡ all

  pub Fronts-IsSeen :
      (k n : ℕ) (qs : List Part) (fs : List WalFile)
      → AreParts p k n qs
      → Fronts fs (files_of qs)
      → IsSeen k n fs (entries_of qs)
  Fronts-IsSeen k n [] fs a b = record {
    parts = [];
    behind = fs;
    holds = tt;
    files = refl;
    entries = refl;
  }
  Fronts-IsSeen k n (q ∷ qs) [] a b = absurd b
  Fronts-IsSeen k n (q ∷ qs) (f ∷ fs) (part, a) (h, b) =
      let seen = Fronts-IsSeen (suc k) (suc q.file.id_until) qs fs a b in
      record {
        parts = of_file q f ∷ seen.parts;
        behind = seen.behind;
        holds = (
          IsPart-Shown k n q f h part,
          subst (λ i. AreParts p (suc k) (suc i) seen.parts) (ap (λ v. v.id_until) (sym h))
              seen.holds,
        );
        files = ap (λ gs. f ∷ gs) seen.files;
        entries = ap (λ es. q.entries ++ es) seen.entries;
      }

  MemoFits-none : (qs : List Part) → MemoFits p none qs
  MemoFits-none [] = tt
  MemoFits-none (q ∷ qs) = (tt, MemoFits-none qs)

  -- A reader without a memo is served every range of the ids.
  pub IsSeen-serve_logs :
      (k n from until : ℕ) (fs : List WalFile) (all : List Entry)
      → IsSeen k n fs all
      → n ≤ from
      → from ≤ until
      → until < n + length all
      → until < 2 ^ 64
      → (r : Served) × (serve_logs p from until none fs ≡ ok r)
        × (r.sent ≡ logs_of (take (suc until - from) (drop (from - n) all)) ++ (end ∷ []))
  IsSeen-serve_logs k n from until fs all seen lo mid hi small =
      let (r, e, sent) =
        serve_logs-behind p k n from until none seen.parts seen.behind seen.holds lo mid
          (subst (λ es. until < n + length es) (sym seen.entries) hi) small
          (MemoFits-none seen.parts) in
      (
        r,
        ap (serve_logs p from until none) seen.files ∙ e,
        sent
            ∙ ap (λ es. logs_of (take (suc until - from) (drop (from - n) es)) ++ (end ∷ []))
                seen.entries,
      )
