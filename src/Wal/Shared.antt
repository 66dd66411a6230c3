-- ===== src/Wal/Shared.antt =====
-- The copies of a set of files that the writer and the readers share: `clone_no_map`,
-- `clone_from_no_mmap` and `clone_files_from_no_mmap` of hiqlite-wal/src/wal.rs.
--
-- A copy has its own mappings, of the same files. A mapping goes on to show a file that was removed;
-- `stale` says of which numbers a file was removed and created again since the copy mapped it.
use hiqlite.Common.{ℕ, Bool, false, ◌&&◌, ◌||◌, List, [], ◌∷◌, ◌==◌, if◌then◌else◌}
use hiqlite.Wal.Outcome.{Outcome, ok, panic, ◌>>=◌}
use hiqlite.Wal.File.{WalFile}
use hiqlite.Wal.Set.{WalFileSet}

abbrev pub clone_no_mmap : WalFile → WalFile
clone_no_mmap w = record w { mmap = false; mmap_mut = false }

unfoldable pub clone_all : List WalFile → List WalFile
clone_all [] = []
clone_all (w ∷ ws) = clone_no_mmap w ∷ clone_all ws

unfoldable pub clone_no_map : WalFileSet → WalFileSet
clone_no_map s = record { active = s.active; files = clone_all s.files }

unfoldable pub clone_from_no_mmap : Bool → WalFile → WalFile → WalFile
clone_from_no_mmap stale other f = record f {
  id_from = other.id_from;
  id_until = other.id_until;
  data_start = other.data_start;
  data_end = other.data_end;
  bytes = if stale && f.mmap then f.bytes else other.bytes;
}

-- `other.iter().any(|upd| upd.wal_no == f.wal_no)`
unfoldable pub has_number : ℕ → List WalFile → Bool
has_number k [] = false
has_number k (w ∷ ws) = w.wal_no == k || has_number k ws

unfoldable pub retained : List WalFile → List WalFile → List WalFile
retained other [] = []
retained other (f ∷ fs) =
    let rest = retained other fs in if has_number f.wal_no other then f ∷ rest else rest

-- The files that stay are updated by position, and the others are new. `other[i]` panics past the end.
unfoldable pub updated : (ℕ → Bool) → List WalFile → List WalFile → Outcome (List WalFile)
updated stale [] other = ok (clone_all other)
updated stale (f ∷ fs) [] = panic
updated stale (f ∷ fs) (u ∷ us) =
    updated stale fs us >>= λ rest. ok (clone_from_no_mmap (stale f.wal_no) u f ∷ rest)

unfoldable pub clone_files_from_no_mmap :
    (ℕ → Bool) → List WalFile → List WalFile → Outcome (List WalFile)
clone_files_from_no_mmap stale other files = updated stale (retained other files) other

-- A copy takes over the active index and the files.
unfoldable pub refresh : (ℕ → Bool) → WalFileSet → WalFileSet → Outcome WalFileSet
refresh stale other s = clone_files_from_no_mmap stale other.files s.files >>= λ files.
    ok (record { active = other.active; files = files })
