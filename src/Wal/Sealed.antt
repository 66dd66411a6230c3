-- ===== src/Wal/Sealed.antt =====
-- A log in parts that grows at its end: the active file after an append and after a roll-over.
use hiqlite.Common.{
  ℕ, suc, ◌+◌, ◌^◌, ◌<◌, ◌≡◌, ◌∙◌, refl, ap, sym, subst, true, none, List, [], ◌∷◌, ◌++◌,
  append-nil, append_assoc, arith, length, length-append,
}
use hiqlite.Wal.Memory.{put, read-put_after}
use hiqlite.Wal.Platform.{Platform}
use hiqlite.Wal.File.{WalFile}
use hiqlite.Wal.Layout.{Entry, Layout, Holds-eq}
use hiqlite.Wal.Header.{header, length-header}
use hiqlite.Wal.Rounds.{Consecutive}
use hiqlite.Wal.Copies.{IsTwin}
use hiqlite.Wal.RollOver.{closed, next_file}
use hiqlite.Wal.Serve.{Part, files_of, entries_of, IsPart, AreParts}

pub files_of-append :
    (qs : List Part) (q : Part) → files_of (qs ++ (q ∷ [])) ≡ files_of qs ++ (q.file ∷ [])
files_of-append [] q = refl
files_of-append (r ∷ qs) q = ap (λ l. r.file ∷ l) (files_of-append qs q)

pub entries_of-append :
    (qs : List Part) (q : Part) → entries_of (qs ++ (q ∷ [])) ≡ entries_of qs ++ q.entries
entries_of-append [] q = append-nil q.entries
entries_of-append (r ∷ qs) q =
    ap (λ l. r.entries ++ l) (entries_of-append qs q)
    ∙ sym (append_assoc r.entries (entries_of qs) q.entries)

pub Consecutive-append :
    (n : ℕ) (rs : List Entry) (id : ℕ) (d : List ℕ)
    → id ≡ n + length rs
    → Consecutive n rs
    → Consecutive n (rs ++ ((id, d) ∷ []))
Consecutive-append n [] id d e c = (omega (arith, e), tt)
Consecutive-append n ((i, b) ∷ rs) id d e (h, c) =
    (h, Consecutive-append (suc n) rs id d (omega (arith, e)) c)

module _ (p : Platform) where
  -- The active file: it is of the current version, of the configured size and open for writing, and
  -- it holds the entries from the id `m` on, or none yet.
  abbrev pub Kept : ℕ → ℕ → WalFile → List Entry → Type 0
  Kept k m w [] = (w.data_start ≡ none) × (w.data_end ≡ none)
  Kept k m w (r ∷ rs) =
      (s : ℕ) × (e : ℕ) × IsPart p k m (record { file = w; start = s; stop = e; entries = r ∷ rs })

  pub record IsActive (wal_size k m : ℕ) (w : WalFile) (rs : List Entry) : Type 0 where
    pub number : w.wal_no ≡ k
    pub version : w.version ≡ 1
    pub mapped : w.mmap_mut ≡ true
    pub sized : w.size ≡ w.len_max
    pub len_max : w.len_max ≡ wal_size
    pub kept : Kept k m w rs

  pub AreParts-append :
      (k n : ℕ) (qs : List Part) (q : Part)
      → AreParts p k n qs
      → IsPart p (k + length qs) (n + length (entries_of qs)) q
      → AreParts p k n (qs ++ (q ∷ []))
  AreParts-append k n [] q a h = (
    subst (λ i. IsPart p i n q) {x = k + 0} (omega arith)
        (subst (λ i. IsPart p (k + 0) i q) {x = n + 0} (omega arith) h),
    tt,
  )
  AreParts-append k n (r ∷ qs) q (part, a) h =
      let len = length-append r.entries (entries_of qs) in
      (
        part,
        AreParts-append (suc k) (suc r.file.id_until) qs q a (
            subst (λ i. IsPart p i (suc r.file.id_until + length (entries_of qs)) q)
              {x = k + suc (length qs)} (omega arith)
              (subst (λ i. IsPart p (k + suc (length qs)) i q)
                {x = n + length (entries_of (r ∷ qs))} (omega (arith, len, part.full, part.first))
                h)),
      )

  -- The header that closes a file leaves its entries as they are.
  closed-Layout :
      (w : WalFile) (s e : ℕ) (rs : List Entry) → Layout p w s e rs → Layout p (closed p w) s e rs
  closed-Layout w s e rs l = record {
    start = l.start;
    stop = l.stop;
    behind_header = l.behind_header;
    ends = l.ends;
    fits = l.fits;
    sized = l.sized;
    small = l.small;
    entries = l.entries;
    holds =
        Holds-eq p w.bytes (put w.bytes 0 (header p w)) s rs
          (λ from n ge le.
            read-put_after w.bytes 0 (header p w) from n
              (omega (arith, length-header p w, l.behind_header)))
          l.holds;
  }

  pub closed-IsPart :
      (k m s e : ℕ) (w : WalFile) (rs : List Entry)
      → IsPart p k m (record { file = w; start = s; stop = e; entries = rs })
      → IsPart p k m (record { file = closed p w; start = s; stop = e; entries = rs })
  closed-IsPart k m s e w rs part = record {
    number = part.number;
    first = part.first;
    version = part.version;
    layout = closed-Layout w s e rs part.layout;
    consecutive = part.consecutive;
    full = part.full;
    some_entry = part.some_entry;
  }

  pub closed-IsTwin : (w : WalFile) → IsTwin w (closed p w)
  closed-IsTwin w = record { number = refl; version = refl; len_max = refl; size = refl }

  -- The file behind a file is ready for the next entry.
  pub next_file-IsActive :
      (wal_size k m : ℕ) (w : WalFile)
      → w.wal_no ≡ k
      → suc k < 2 ^ 64
      → IsActive wal_size (suc k) m (next_file p w wal_size) []
  next_file-IsActive wal_size k m w e small = record {
    number = omega (arith, e, small);
    version = refl;
    mapped = refl;
    sized = refl;
    len_max = refl;
    kept = (refl, refl);
  }
