-- ===== src/Wal/SetTests.antt =====
-- The file of Wal.Tests in a set of files: served by the reader, rolled over, and cut.
use hiqlite.Common.{◌+◌, ◌-◌, ◌≡◌, ◌<◌, ◌≤◌, refl, true, none, some, [], ◌∷◌, arith, drop, take}
use hiqlite.Wal.Outcome.{ok}
use hiqlite.Wal.File.{
  WalFile, has_space, write_all, store_record, append_at, append_log, update_header, build_header,
}
use hiqlite.Wal.Layout.{end_of}
use hiqlite.Wal.Reader.{Served, serve_logs, log, end}
use hiqlite.Wal.Serve.{Part, AreParts, serve_logs-range}
use hiqlite.Wal.Set.{WalFileSet, check_headers, check_files, check_rest}
use hiqlite.Wal.RollOver.{closed}
use hiqlite.Wal.Memory.{read, put, get_or}
use hiqlite.Wal.Repair.{check_repair_data_integrity}
use hiqlite.Wal.Intact.{check_repair-intact}
use hiqlite.Wal.Tests.{two_entries-IsOpen}
use hiqlite.Wal.Delete.{purge_file, truncate_file}
use hiqlite.Wal.Cut.{IsFull, purge_file-IsFull, truncate_file-IsFull}
use hiqlite.Wal.Tests.{digits, big_endian, one_entry, two_entries, two_entries_lem, entries}

abbrev part : Part
part = record { file = two_entries; start = 32; stop = 68; entries = entries }

pub part-AreParts : AreParts big_endian 3 7 (part ∷ [])
unfolding has_space append_log append_at store_record write_all digits update_header build_header
part-AreParts = (
  record {
    number = refl;
    first = refl;
    version = refl;
    layout = two_entries_lem.3;
    consecutive = (refl, (refl, tt));
    full = refl;
    some_entry = omega arith;
  },
  tt,
)

serve_logs-range_example :
    (r : Served) × (serve_logs big_endian 7 8 none (two_entries ∷ []) ≡ ok r)
    × (r.sent ≡ log (1 ∷ 2 ∷ []) ∷ log (3 ∷ []) ∷ end ∷ [])
serve_logs-range_example =
    serve_logs-range big_endian 3 7 7 8 none (part ∷ []) part-AreParts (omega arith) (omega arith)
      (omega arith) (omega arith) (tt, tt)

abbrev before_roll : WalFileSet
before_roll = record { active = some 0; files = one_entry ∷ [] }

abbrev after_roll : WalFile → WalFileSet
after_roll n = record { active = some 1; files = closed big_endian one_entry ∷ n ∷ [] }

before_roll-check_headers : check_headers before_roll ≡ ok tt
unfolding check_headers check_files check_rest has_space append_log append_at store_record write_all
    digits update_header build_header
before_roll-check_headers = refl

two_entries-IsFull : IsFull big_endian two_entries 32 68 entries
unfolding has_space append_log append_at store_record write_all digits update_header build_header
two_entries-IsFull = record {
  layout = two_entries_lem.3;
  version = refl;
  consecutive = (refl, (refl, tt));
  count = refl;
}

two_entries_bounds : (two_entries.id_from < 8) × (8 ≤ two_entries.id_until)
unfolding has_space append_log append_at store_record write_all digits update_header build_header
two_entries_bounds = (omega arith, omega arith)

purge_file-IsFull_example :
    (w' : WalFile) × (purge_file big_endian 8 two_entries ≡ ok w')
    × (w'.id_from ≡ 8)
    × (w'.id_until ≡ two_entries.id_until)
    × IsFull big_endian w'
        (end_of 32 (take (8 - two_entries.id_from) entries))
        68
        (drop (8 - two_entries.id_from) entries)
purge_file-IsFull_example =
    purge_file-IsFull big_endian two_entries 32 68 entries two_entries-IsFull 8 two_entries_bounds.0
      two_entries_bounds.1

truncate_file-IsFull_example :
    (w' : WalFile) × (truncate_file big_endian 8 two_entries ≡ ok w')
    × (w'.id_from ≡ two_entries.id_from)
    × (w'.id_until + 1 ≡ 8)
    × IsFull big_endian w' 32
        (end_of 32 (take (8 - two_entries.id_from) entries) - 1)
        (take (8 - two_entries.id_from) entries)
truncate_file-IsFull_example =
    truncate_file-IsFull big_endian two_entries 32 68 entries two_entries-IsFull 8
      two_entries_bounds.0 two_entries_bounds.1 (omega arith)

two_entries-blank : (read two_entries.bytes 81 4 ≡ 0 ∷ 0 ∷ 0 ∷ 0 ∷ []) × (68 < two_entries.len_max)
unfolding has_space append_log append_at store_record write_all digits update_header build_header
    read put get_or
two_entries-blank = (refl, omega arith)

check_repair-intact_example :
    check_repair_data_integrity big_endian true two_entries ≡ (ok tt, two_entries)
check_repair-intact_example =
    check_repair-intact big_endian true two_entries two_entries-IsOpen 68 two_entries-blank.1 32
      entries two_entries-IsFull (omega (arith, two_entries_bounds.0, two_entries_bounds.1))
      two_entries-blank.0
