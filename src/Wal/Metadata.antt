-- ===== src/Wal/Metadata.antt =====
-- The metadata file of a log: hiqlite-wal/src/metadata.rs.
--
-- `write_unchecked` is the list of its calls of the file system, so that a power loss can fall between
-- any two of them. A call that fails ends the list. The sync of the directory, which is done on Unix, is
-- taken to succeed.
use hiqlite.Common.{
  ℕ, ◌≤◌, ◌≡◌, not, Bool, Option, none, some, List, [], ◌∷◌, ◌++◌, ltb, if◌then◌else◌, length, take,
  drop,
}
use hiqlite.Wal.Outcome.{Outcome, ok, err, decode, file_corrupted}
use hiqlite.Wal.Header.{bytes_eq}

pub record Metadata : Type 0 where
  pub last_purged_log_id : Option (List ℕ)
  pub vote : Option (List ℕ)

-- `serialize` and `deserialize` of the crate bincode, and the checksum.
pub record Codec : Type 0 where
  pub serialize : Metadata → List ℕ
  pub deserialize : List ℕ → Option Metadata
  pub checksum : List ℕ → List ℕ
  -- A value is read back. It takes a byte at least for each of its two options.
  pub deserialize-serialize : (m : Metadata) → deserialize (serialize m) ≡ some m
  pub length-serialize : (m : Metadata) → 2 ≤ length (serialize m)
  pub length-checksum : (bytes : List ℕ) → length (checksum bytes) ≡ 4

-- A file: the bytes that are on the disk, and those behind them that only the system has.
pub record File : Type 0 where
  pub synced : List ℕ
  pub pending : List ℕ

-- What a process reads of a file.
abbrev pub bytes_of : Option File → Option (List ℕ)
bytes_of none = none
bytes_of (some f) = some (f.synced ++ f.pending)

-- The directory: the file meta.hql, the file meta.hql~ beside it, and the file that has the name
-- meta.hql on the disk.
pub record Directory : Type 0 where
  pub meta : Option File
  pub tmp : Option File
  pub on_disk : Option File

pub data FileCall : Type 0 where
  create_tmp sync_tmp rename_tmp sync_directory : FileCall
  write_tmp : List ℕ → FileCall

abbrev pub appended : Option File → List ℕ → Option File
appended none bytes = none
appended (some f) bytes = some (record f { pending = f.pending ++ bytes })

abbrev pub flushed : Option File → Option File
flushed none = none
flushed (some f) = some (record { synced = f.synced ++ f.pending; pending = [] })

unfoldable pub call : FileCall → Directory → Directory
call create_tmp d = record d { tmp = some (record { synced = []; pending = [] }) }
call (write_tmp bytes) d = record d { tmp = appended d.tmp bytes }
call sync_tmp d = record d { tmp = flushed d.tmp }
call rename_tmp d = record d { meta = d.tmp; tmp = none }
call sync_directory d = record d { on_disk = d.meta }

unfoldable pub calls : List FileCall → Directory → Directory
calls [] d = d
calls (c ∷ cs) d = calls cs (call c d)

-- What a power loss leaves of a file: what was on the disk, and any bytes in the place of the others.
abbrev pub torn : List ℕ → List ℕ → List ℕ → List ℕ
torn rest synced [] = synced
torn rest synced (b ∷ bs) = synced ++ rest

abbrev pub left_of : List ℕ → Option File → Option File
left_of rest none = none
left_of rest (some f) = some (record { synced = torn rest f.synced f.pending; pending = [] })

-- A power loss, where the renames since the last sync of the directory are undone or not.
unfoldable pub power_loss : Bool → List ℕ → Directory → Directory
power_loss undo rest d =
    let left = left_of rest (if undo then d.on_disk else d.meta) in
    record { meta = left; tmp = none; on_disk = left }

-- The bytes of "HQLMETA".
abbrev pub magic_no_meta : List ℕ
magic_no_meta = b'H' ∷ b'Q' ∷ b'L' ∷ b'M' ∷ b'E' ∷ b'T' ∷ b'A' ∷ []

abbrev pub decoded : Option Metadata → Outcome Metadata
decoded none = err decode
decoded (some m) = ok m

abbrev pub no_metadata : Metadata
no_metadata = record { last_purged_log_id = none; vote = none }

module _ (c : Codec) where
  open c use {serialize, deserialize, checksum}

  unfoldable pub write_unchecked : List ℕ → List FileCall
  write_unchecked bytes =
      create_tmp
      ∷ write_tmp magic_no_meta
      ∷ write_tmp (1 ∷ [])
      ∷ write_tmp (checksum bytes)
      ∷ write_tmp bytes
      ∷ sync_tmp
      ∷ rename_tmp
      ∷ sync_directory
      ∷ []

  unfoldable pub write : Metadata → Directory → Directory
  write m d = calls (write_unchecked (serialize m)) d

  unfoldable pub read_bytes : List ℕ → Outcome Metadata
  read_bytes bytes =
      if ltb (length bytes) 14
      then err file_corrupted
      else if not (bytes_eq (take 7 bytes) magic_no_meta)
      then err file_corrupted
      else if not (bytes_eq (take 1 (drop 7 bytes)) (1 ∷ []))
      then err file_corrupted
      else if not (bytes_eq (take 4 (drop 8 bytes)) (checksum (drop 12 bytes)))
      then err file_corrupted
      else decoded (deserialize (drop 12 bytes))

  -- `read_or_create`, by the file that is there.
  abbrev pub read_file : Option (List ℕ) → Directory → Outcome Metadata × Directory
  read_file none d = (ok no_metadata, write no_metadata d)
  read_file (some bytes) d = (read_bytes bytes, d)

  unfoldable pub read_or_create : Directory → Outcome Metadata × Directory
  read_or_create d = read_file (bytes_of d.meta) d
