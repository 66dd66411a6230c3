-- ===== src/Wal/Set.antt =====
-- `WalFileSet` of hiqlite-wal/src/wal.rs: the files of a log in their order.
--
-- The directory holds the files of the set, so creating one adds it and removing one drops it, and
-- these calls of the file system succeed. `base_path` is left out.
use hiqlite.Common.{
  ℕ, zero, suc, ◌+◌, ◌-◌, false, ◌&&◌, ◌||◌, not, Option, none, some, List, [], ◌∷◌, ◌++◌, ltb,
  ◌==◌, if◌then◌else◌, length, get_elem?, last?, Bool, true, leb,
}
use hiqlite.Wal.Memory.{put}
use hiqlite.Wal.Platform.{Platform}
use hiqlite.Wal.Outcome.{Outcome, ok, err, panic, out_of_fuel, ◌>>=◌, integrity, file_corrupted}
use hiqlite.Wal.File.{
  WalFile, Written, u32, u64, new, is_some, unwrap_or, offset_logs, build_header, update_header,
  map_mut,
}

pub record WalFileSet : Type 0 where
  pub active : Option ℕ
  pub files : List WalFile

abbrev pub set_at : List WalFile → ℕ → WalFile → List WalFile
set_at [] i w = []
set_at (v ∷ vs) zero w = w ∷ vs
set_at (v ∷ vs) (suc i) w = v ∷ set_at vs i w

-- The number of the next file.
abbrev pub next_no : Option WalFile → ℕ
next_no none = 1
next_no (some w) = u64 (w.wal_no + 1)

abbrev pub data_ends : WalFile → Bool
data_ends w = leb (unwrap_or w.data_end 0) w.len_max

-- The offsets of a file's data, in `check_integrity`.
unfoldable pub check_data : Option ℕ → ℕ → Outcome (Unit {0})
check_data none data_end = ok tt
check_data (some data_start) data_end =
    if ltb data_start offset_logs
    then err integrity
    else if data_start == data_end || ltb data_end (u32 (data_start + 8 + 4 + 4))
    then err integrity
    else ok tt

-- A round of the loop in `check_integrity`: an error, or whether the loop ends with this file.
unfoldable pub check_file : ℕ → ℕ → WalFile → Outcome Bool
check_file wal_no until w =
    if not (data_ends w)
    then err integrity
    else if not (u64 (wal_no + 1) == w.wal_no)
    then err integrity
    else if w.id_from == 0 && w.id_until == 0
    then ok true
    else if is_some w.data_start && not (is_some w.data_end)
        || not (is_some w.data_start) && is_some w.data_end
    then err integrity
    else (check_data w.data_start (unwrap_or w.data_end 0) >>= λ u.
        if not (u64 (until + 1) == w.id_from) then err integrity else ok false)

abbrev pub check_behind : Outcome Bool → Outcome (Unit {0}) → Outcome (Unit {0})
check_behind (ok true) rest = ok tt
check_behind (ok false) rest = rest
check_behind (err e) rest = err e
check_behind panic rest = panic
check_behind out_of_fuel rest = out_of_fuel

-- `check_integrity` up to its deep check: the headers, in their order.
unfoldable pub check_rest : ℕ → ℕ → List WalFile → Outcome (Unit {0})
check_rest wal_no until [] = ok tt
check_rest wal_no until (w ∷ ws) =
    check_behind (check_file wal_no until w) (check_rest w.wal_no w.id_until ws)

unfoldable pub check_files : List WalFile → Outcome (Unit {0})
check_files [] = ok tt
check_files (w ∷ ws) =
    if not (data_ends w)
    then err integrity
    else if ltb w.id_until w.id_from
    then err file_corrupted
    else check_rest w.wal_no w.id_until ws

unfoldable pub check_headers : WalFileSet → Outcome (Unit {0})
unfolding check_files
check_headers s = check_files s.files

-- The file in use; `active()` panics without one.
abbrev pub found : Option WalFile → Outcome WalFile
found none = panic
found (some w) = ok w

abbrev pub active_at : Option ℕ → List WalFile → Outcome WalFile
active_at none files = panic
active_at (some i) files = found (get_elem? files i)

unfoldable pub active_of : WalFileSet → Outcome WalFile
active_of s = active_at s.active s.files

abbrev pub put_at : Option ℕ → WalFile → List WalFile → List WalFile
put_at none w files = files
put_at (some i) w files = set_at files i w

unfoldable pub put_active : WalFile → WalFileSet → WalFileSet
put_active w s = record s { files = put_at s.active w s.files }

-- A file that was written, as a result.
abbrev pub outcome_of : Written → Outcome WalFile
outcome_of (ok u, w) = ok w
outcome_of (err e, w) = err e
outcome_of (panic, w) = panic
outcome_of (out_of_fuel, w) = out_of_fuel

-- The active file after its seal, and after it was opened.
abbrev pub sealed : WalFile → WalFile
sealed w = record w { mmap_mut = false }

abbrev pub opened_at : ℕ → WalFile → WalFile
opened_at id w = record (map_mut w) { id_from = id; id_until = id }

abbrev pub use_last : WalFileSet → WalFileSet
use_last s = record s { active = some (length s.files - 1) }

module _ (p : Platform) where
  -- `create_file`: a file of zeros with its header.
  unfoldable pub create_file : WalFile → Outcome WalFile
  create_file w =
      build_header p w >>= λ buf. ok (record w { size = w.len_max; bytes = put (λ i. 0) 0 buf })

  unfoldable pub add_file : ℕ → WalFileSet → Outcome WalFileSet
  add_file wal_size s =
      let wal_no = next_no (last? s.files) in
      new wal_no 0 0 wal_size >>= create_file >>= λ w.
      ok (record { active = if wal_no == 1 then some 0 else s.active; files = s.files ++ (w ∷ []) })

  unfoldable pub roll_over : ℕ → WalFileSet → Outcome WalFileSet
  roll_over wal_size s = active_of s >>= λ w. outcome_of (update_header p w) >>= λ w'.
      add_file wal_size (put_active (sealed w') s) >>= λ s'. active_of (use_last s') >>= λ next.
      ok (put_active (opened_at (u64 (w'.id_until + 1)) next) (use_last s'))
