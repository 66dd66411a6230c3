-- ===== src/Wal/WriterTests.antt =====
-- The writer at work on two files of the smallest size, and a metadata file on a concrete code.
use hiqlite.Common.{
  ℕ, ◌+◌, zero, suc, ◌≤◌, ◌≡◌, ◌⊎◌, refl, ap, Bool, true, false, Option, none, some, List, [], ◌∷◌,
  ◌++◌, arith, length, take, drop, replicate, take-append_len, drop-append_len, length-append,
}
use hiqlite.Wal.Outcome.{ok, panic, io}
use hiqlite.Wal.File.{
  WalFile, has_space, append_log, append_at, store_record, write_all, update_header, build_header,
}
use hiqlite.Wal.Layout.{Entry}
use hiqlite.Wal.Metadata.{
  Metadata, Codec, Directory, calls, power_loss, write, write_unchecked, read_or_create,
  no_metadata,
}
use hiqlite.Wal.Durable.{read_or_create-write, calls-write_unchecked}
use hiqlite.Wal.Reader.{Message, log, end}
use hiqlite.Wal.ReadTask.{LogReader, open_reader, handle_logs}
use hiqlite.Wal.Set.{WalFileSet}
use hiqlite.Wal.Delete.{shift_delete_logs}
use hiqlite.Wal.Shared.{clone_no_mmap}
use hiqlite.Wal.Tests.{digits, big_endian, fresh, two_entries, entries}
use hiqlite.Wal.SetTests.{part-AreParts}
use hiqlite.Wal.Batch.{set_of, IsLog}
use hiqlite.Wal.Turn.{IsWriter, Goes, Shows-IsSeen}
use hiqlite.Wal.Frontier.{frontier, handle_remove-IsWriter}
use hiqlite.Wal.Commit.{accepted, handle_append-IsWriter}
use hiqlite.Wal.Voted.{handle_vote-answer}
use hiqlite.Wal.Served.{first_writer, first_writer-IsWriter, no_files, run-served}
use hiqlite.Wal.Boundary.{shift_delete_logs-unmapped}
use hiqlite.Wal.Oversized.{append_entry-too_long}
use hiqlite.Wal.Writer.{
  Config, Writer, Action, append, remove, vote, sync, Batch, immediate, append_entry, handle_append,
  flush_blocking,
}
use hiqlite.Wal.Task.{persist, open_writer, run, handle_vote, handle_remove}

-- An option is its length and one more, and its bytes.
abbrev encoded : Option (List ℕ) → List ℕ
encoded none = 0 ∷ []
encoded (some bytes) = suc (length bytes) ∷ bytes

abbrev decoded_at : List ℕ → Option (Option (List ℕ) × List ℕ)
decoded_at [] = none
decoded_at (zero ∷ bytes) = some (none, bytes)
decoded_at (suc n ∷ bytes) = some (some (take n bytes), drop n bytes)

decoded_at-encoded :
    (o : Option (List ℕ)) (bytes : List ℕ) → decoded_at (encoded o ++ bytes) ≡ some (o, bytes)
decoded_at-encoded none bytes = refl
decoded_at-encoded (some d) bytes =
    rw (take-append_len (length d) d bytes refl, drop-append_len (length d) d bytes refl) refl

abbrev second : Option (List ℕ) → Option (Option (List ℕ) × List ℕ) → Option Metadata
second purged none = none
second purged (some (v, bytes)) = some (record { last_purged_log_id = purged; vote = v })

abbrev first : Option (Option (List ℕ) × List ℕ) → Option Metadata
first none = none
first (some (purged, bytes)) = second purged (decoded_at bytes)

abbrev serialized : Metadata → List ℕ
serialized m = encoded m.last_purged_log_id ++ (encoded m.vote ++ [])

pub first-serialized : (m : Metadata) → first (decoded_at (serialized m)) ≡ some m
first-serialized m =
    rw
      (decoded_at-encoded m.last_purged_log_id (encoded m.vote ++ []), decoded_at-encoded m.vote [])
      refl

some_byte : (o : Option (List ℕ)) → 1 ≤ length (encoded o)
some_byte none = omega arith
some_byte (some d) = omega arith

pub length-serialized : (m : Metadata) → 2 ≤ length (serialized m)
length-serialized m = omega (
  arith,
  length-append (encoded m.last_purged_log_id) (encoded m.vote ++ []),
  length-append (encoded m.vote) [],
  some_byte m.last_purged_log_id,
  some_byte m.vote,
)

abbrev pub plain : Codec
plain = record {
  serialize = serialized;
  deserialize = λ bytes. first (decoded_at bytes);
  checksum = λ bytes. length bytes ∷ 0 ∷ 0 ∷ 0 ∷ [];
  deserialize-serialize = first-serialized;
  length-serialize = length-serialized;
  length-checksum = λ bytes. refl;
}

abbrev voted_once : Metadata
voted_once = record { last_purged_log_id = none; vote = some (9 ∷ []) }

abbrev pub no_directory : Directory
no_directory = record { meta = none; tmp = none; on_disk = none }

read_or_create-write_example :
    read_or_create plain (write plain voted_once no_directory)
    ≡ (ok voted_once, write plain voted_once no_directory)
read_or_create-write_example = read_or_create-write plain voted_once no_directory

calls-write_unchecked_example :
    let cut = calls (take 7 (write_unchecked plain (serialized voted_once))) no_directory in
    let d' = power_loss false (8 ∷ 8 ∷ []) cut in
    (d'.meta ≡ (power_loss false (8 ∷ 8 ∷ []) no_directory).meta)
    ⊎ ((read_or_create plain d').0 ≡ ok voted_once)
calls-write_unchecked_example =
    calls-write_unchecked plain 7 false (8 ∷ 8 ∷ []) voted_once no_directory

abbrev pub config : Config
config = record { wal_size = 8192; log_sync = immediate; oversized_entry_error = true }

abbrev batch : List Entry
batch = (7, 1 ∷ 2 ∷ []) ∷ (8, 3 ∷ []) ∷ []

abbrev actions : List Action
actions =
    append batch 0 1
    ∷ vote (9 ∷ []) 2
    ∷ sync
    ∷ append ((9, 4 ∷ []) ∷ []) 3 4
    ∷ remove 0 8 (some (6 ∷ [])) 5
    ∷ []

abbrev pub first_one : Writer
first_one = first_writer big_endian 8192 no_metadata no_directory

run-served_example :
    (s : Writer) × (s' : Writer) × (sent : List Message) × (rd : LogReader) × (open_writer
        big_endian plain config [] no_metadata no_directory no_files
      ≡ ok s)
    × (run big_endian plain config actions s
        ≡ (ok s', (1, none) ∷ (0, none) ∷ (2, none) ∷ (4, none) ∷ (3, none) ∷ (5, none) ∷ []))
    × (handle_logs big_endian (λ k. false) 8 9 s'.wal_locked (open_reader s'.wal_locked)
        ≡ ok (sent, rd))
    × (sent ≡ log (3 ∷ []) ∷ log (4 ∷ []) ∷ end ∷ [])
run-served_example =
    run-served big_endian plain config 7 (omega arith) (omega arith) no_metadata no_directory
      actions 8 9
      (
        (omega arith, (omega arith, tt)),
        (omega arith, omega arith, (omega arith, omega arith, tt)),
        (refl, (refl, tt)),
        (
          (omega arith, tt),
          (omega arith, omega arith, tt),
          (refl, tt),
          (omega arith, omega arith, omega arith, tt),
        ),
      )
      (omega arith) (omega arith) (omega arith) (omega arith) (omega arith)

handle_append-IsWriter_example :
    (s' : Writer) × (handle_append big_endian config batch 0 1 first_one ≡ (ok s', accepted 0 1))
    × (s'.is_dirty ≡ false)
    × Goes big_endian config 1 7 batch 3 first_one s'
handle_append-IsWriter_example =
    handle_append-IsWriter big_endian config 1 7 (omega arith) (omega arith) [] batch 0 first_one 0
      1 (omega arith, (omega arith, tt)) (omega arith, omega arith, (omega arith, omega arith, tt))
      (refl, (refl, tt)) (omega arith)
      (first_writer-IsWriter big_endian plain config 7 (omega arith) (omega arith) no_metadata
        no_directory)

-- A writer whose next write of the metadata ends at its third call.
abbrev failing : Writer
failing = record first_one { writes = some 3 ∷ [] }

abbrev failed : Writer
failed = record first_one {
  meta = voted_once;
  directory = calls (take 3 (write_unchecked plain (serialized voted_once))) no_directory;
}

handle_vote-answer_example :
    (failed.meta ≡ voted_once)
    × ((failed.directory.meta ≡ none) ⊎ ((read_or_create plain failed.directory).0 ≡ ok voted_once))
unfolding handle_vote persist flush_blocking
handle_vote-answer_example =
    handle_vote-answer big_endian plain (9 ∷ []) 2 failing failed (some io) refl

-- The file of Wal.Tests as the active one, and the readers' copy of it.
abbrev shared_copy : WalFileSet
shared_copy = record { active = some 0; files = clone_no_mmap two_entries ∷ [] }

two_entries-IsLog : IsLog big_endian config 3 7 [] two_entries entries shared_copy
unfolding has_space append_log append_at store_record write_all digits update_header build_header
two_entries-IsLog = record {
  parts = tt;
  active = record {
    number = refl;
    version = refl;
    mapped = refl;
    sized = refl;
    len_max = refl;
    kept = (32, 68, part-AreParts.0);
  };
  shared = record {
    active = refl;
    files = (record { number = refl; version = refl; len_max = refl; size = refl }, refl);
  };
}

length-replicate : (n a : ℕ) → length (replicate n a) ≡ n
length-replicate zero a = refl
length-replicate (suc n) a = ap suc (length-replicate n a)

append_entry-too_long_example :
    (b : Batch) × (append_entry big_endian config
        (9, replicate 8150 1)
        (set_of [] two_entries)
        shared_copy
      ≡ ok b)
    × (b.failed ≡ some io)
    × (append_entry big_endian config (9, 4 ∷ []) b.wal b.wal_locked ≡ panic)
append_entry-too_long_example =
    append_entry-too_long big_endian config 3 7 9 9 (replicate 8150 1) (4 ∷ []) [] two_entries
      (7, 1 ∷ 2 ∷ []) ((8, 3 ∷ []) ∷ []) shared_copy (omega arith) (omega arith) (omega arith)
      (omega (arith, length-replicate 8150 1)) (omega (arith, length-replicate 8150 1))
      (omega arith) two_entries-IsLog

-- Three files, of which the last is active.
abbrev file_from : ℕ → ℕ → Bool → WalFile
file_from id last mapped = record fresh { id_from = id; id_until = last; mmap_mut = mapped }

abbrev three_files : WalFileSet
three_files = record {
  active = some 2;
  files = file_from 7 8 false ∷ file_from 9 11 false ∷ file_from 12 13 true ∷ [];
}

shift_delete_logs-unmapped_example :
    (s' : WalFileSet) × (shift_delete_logs big_endian 9 13 8192 three_files ≡ (ok tt, s'))
    × (append_entry big_endian config (9, 4 ∷ []) s' shared_copy ≡ panic)
shift_delete_logs-unmapped_example =
    shift_delete_logs-unmapped big_endian config 9 13 9 (4 ∷ []) (some 2) (file_from 7 8 false) []
      (file_from 9 11 false) (file_from 12 13 true) shared_copy (omega arith) refl (omega arith)
      (omega arith) refl (omega arith) refl

-- A writer on that file, and a purge of its first entry.
abbrev writer_of_two : Writer
writer_of_two = record {
  wal = set_of [] two_entries;
  wal_locked = shared_copy;
  meta = no_metadata;
  directory = no_directory;
  is_dirty = true;
  writes = [];
}

writer_of_two-IsWriter : IsWriter big_endian config 3 7 entries 0 writer_of_two
writer_of_two-IsWriter = record {
  parts = [];
  file = two_entries;
  rest = entries;
  set = refl;
  log = two_entries-IsLog;
  entries = refl;
  closed_files = omega arith;
  seen =
      Shows-IsSeen big_endian config 3 7 [] two_entries entries (clone_no_mmap two_entries ∷ []) tt
        two_entries-IsLog.active (refl, tt);
}

handle_remove-IsWriter_example :
    (s' : Writer) × (k' : ℕ) × (count' : ℕ) × (handle_remove big_endian plain config 0 8
        (some (6 ∷ []))
        5
        writer_of_two
      ≡ (ok s', (5, none) ∷ []))
    × (s'.is_dirty ≡ false)
    × (s'.writes ≡ [])
    × (s'.meta ≡ frontier (6 ∷ []) no_metadata)
    × (read_or_create plain s'.directory ≡ (ok (frontier (6 ∷ []) no_metadata), s'.directory))
    × (k' + count' ≤ 3)
    × IsWriter big_endian config k' 8 ((8, 3 ∷ []) ∷ []) count' s'
handle_remove-IsWriter_example =
    handle_remove-IsWriter big_endian plain config 3 7 (omega arith) entries 0 writer_of_two 0 8
      (6 ∷ []) 5 (omega arith) (omega arith) (omega arith) refl writer_of_two-IsWriter
