-- ===== src/Wal/Tests.antt =====
-- A WAL file in use: a header, two entries, a read of them, on a concrete big-endian code.
use hiqlite.Common.{
  ℕ, zero, suc, ◌+◌, ◌-◌, ◌*◌, ◌/◌, ◌%◌, ◌≤◌, ◌<◌, ◌≡◌, ◌∙◌, refl, sym, ap, true, false, none, some,
  List, [], ◌∷◌, ◌++◌, arith, length, take, drop,
}
use hiqlite.Wal.Platform.{Platform}
use hiqlite.Wal.Outcome.{ok}
use hiqlite.Wal.File.{
  WalFile, Written, has_space, write_all, store_record, append_at, build_header, update_header,
  append_log,
}
use hiqlite.Wal.Layout.{Entry, end_of, Layout}
use hiqlite.Wal.Append.{append_log-Layout}
use hiqlite.Wal.Header.{Fits}
use hiqlite.Wal.First.{append_log-first_Layout}
use hiqlite.Wal.Logs.{read_logs}
use hiqlite.Wal.Rounds.{IsOpen, position}
use hiqlite.Wal.Range.{IsMemo, read_logs-range}

-- The last digit of the number is the last of the list.
unfoldable pub digits : ℕ → ℕ → List ℕ
digits zero x = []
digits (suc n) x = digits n (x / 256) ++ ((x % 256) ∷ [])

unfoldable pub number : ℕ → List ℕ → ℕ
number acc [] = acc
number acc (b ∷ bs) = number (acc * 256 + b) bs

abbrev pub sum : List ℕ → ℕ
sum [] = 0
sum (b ∷ bs) = b + sum bs

-- The numbers of so many digits lie below it.
abbrev pub bound : ℕ → ℕ
bound zero = 1
bound (suc n) = 256 * bound n

length-append_one : (bs : List ℕ) (b : ℕ) → length (bs ++ (b ∷ [])) ≡ suc (length bs)
length-append_one [] b = refl
length-append_one (c ∷ bs) b = ap suc (length-append_one bs b)

number-append_one :
    (acc : ℕ) (bs : List ℕ) (b : ℕ) → number acc (bs ++ (b ∷ [])) ≡ number acc bs * 256 + b
unfolding number
number-append_one acc [] b = refl
number-append_one acc (c ∷ bs) b = number-append_one (acc * 256 + c) bs b

pub length-digits : (n x : ℕ) → length (digits n x) ≡ n
unfolding digits
length-digits zero x = refl
length-digits (suc n) x =
    length-append_one (digits n (x / 256)) (x % 256) ∙ ap suc (length-digits n (x / 256))

pub number-digits : (n x : ℕ) → x < bound n → number 0 (digits n x) ≡ x
unfolding digits number
number-digits zero x h = omega arith
number-digits (suc n) x h = omega (
  arith,
  number-append_one 0 (digits n (x / 256)) (x % 256),
  number-digits n (x / 256) (omega arith),
)

pub zeros_are_zero :
    (number 0 (0 ∷ 0 ∷ 0 ∷ 0 ∷ 0 ∷ 0 ∷ 0 ∷ 0 ∷ []) ≡ 0) × (number 0 (0 ∷ 0 ∷ 0 ∷ 0 ∷ []) ≡ 0)
unfolding number
zeros_are_zero = (refl, refl)

abbrev pub big_endian : Platform
big_endian = record {
  be64 = digits 8;
  of_be64 = number 0;
  be32 = digits 4;
  of_be32 = number 0;
  crc = λ bytes. digits 4 (sum bytes);
  length-be64 = length-digits 8;
  length-be32 = length-digits 4;
  of_be64-be64 = number-digits 8;
  of_be32-be32 = number-digits 4;
  of_be64-zeros = zeros_are_zero.0;
  of_be32-zeros = zeros_are_zero.1;
  length-crc = λ bytes. length-digits 4 (sum bytes);
}

-- An empty file of the smallest size, open for writing.
abbrev pub fresh : WalFile
fresh = record {
  version = 1;
  wal_no = 3;
  id_from = 0;
  id_until = 0;
  data_start = none;
  data_end = none;
  len_max = 8192;
  mmap = false;
  mmap_mut = true;
  size = 8192;
  bytes = λ i. 0;
}

abbrev pub one_entry : WalFile
one_entry = (append_log big_endian 7 (1 ∷ 2 ∷ []) fresh).1

abbrev pub two_entries : WalFile
two_entries = (append_log big_endian 8 (3 ∷ []) one_entry).1

abbrev pub entries : List Entry
entries = (7, 1 ∷ 2 ∷ []) ∷ (8, 3 ∷ []) ∷ []

abbrev pub HoldsOne : Written → Type 0
HoldsOne (r, w) =
    (r ≡ ok tt)
    × (w.id_from ≡ 7)
    × (w.id_until ≡ 7)
    × Layout big_endian w 32 50 ((7, 1 ∷ 2 ∷ []) ∷ [])

one_entry_lem : HoldsOne (append_log big_endian 7 (1 ∷ 2 ∷ []) fresh)
unfolding has_space
one_entry_lem =
    append_log-first_Layout big_endian 7 (1 ∷ 2 ∷ []) fresh refl refl refl refl refl (omega arith)
      refl (omega arith) (omega arith)

pub one_entry-open : (one_entry.mmap_mut ≡ true) × (has_space one_entry 1 ≡ true)
unfolding has_space append_log append_at store_record write_all digits update_header build_header
one_entry-open = (refl, refl)

abbrev pub HoldsTwo : Written → Type 0
HoldsTwo (r, w) =
    (r ≡ ok tt)
    × (w.id_from ≡ one_entry.id_from)
    × (w.id_until ≡ 8)
    × Layout big_endian w 32 68 entries

pub two_entries_lem : HoldsTwo (append_log big_endian 8 (3 ∷ []) one_entry)
two_entries_lem =
    append_log-Layout big_endian 8 (3 ∷ []) one_entry 32 50 ((7, 1 ∷ 2 ∷ []) ∷ []) one_entry_lem.3
      one_entry-open.0 one_entry-open.1 (omega arith) (omega arith)

pub two_entries-IsOpen : IsOpen big_endian two_entries
unfolding has_space append_log append_at store_record write_all digits update_header build_header
two_entries-IsOpen = record { mapped = refl; version = refl; sized = refl; small = omega arith }

pub two_entries_fields :
    (two_entries.id_from ≡ 7) × (two_entries.id_until ≡ 8) × (two_entries.len_max ≡ 8192)
unfolding has_space append_log append_at store_record write_all digits update_header build_header
two_entries_fields = (refl, refl, refl)

-- A read of the second entry, without a memo.
read_logs-range_example :
    (read_logs big_endian 8 8 none two_entries
      ≡ ok (record {
        offset = end_of 32 (take (8 - two_entries.id_from) entries);
        memo =
            some
              (position two_entries 8 (end_of 32 (take (suc (8 - two_entries.id_from)) entries)));
        logs = take 1 (drop (8 - two_entries.id_from) entries);
      }))
    × IsMemo big_endian two_entries 32 entries
        (some (position two_entries 8 (end_of 32 (take (suc (8 - two_entries.id_from)) entries))))
read_logs-range_example =
    read_logs-range big_endian two_entries 32 68 entries 8 8 none two_entries_lem.3
      two_entries-IsOpen (sym two_entries_fields.0, (ap suc (sym two_entries_fields.0), tt))
      (omega (arith, two_entries_fields.0, two_entries_fields.1))
      (omega (arith, two_entries_fields.0)) (omega arith) (omega (arith, two_entries_fields.1)) tt

one_entry-Fits : Fits big_endian one_entry
unfolding has_space append_log append_at store_record write_all digits update_header build_header
one_entry-Fits = record {
  id_from = omega arith;
  id_until = omega arith;
  data_start = omega arith;
  data_end = omega arith;
}

pub one_entry_size : (one_entry.version ≡ 1) × (32 ≤ one_entry.size)
unfolding has_space append_log append_at store_record write_all digits update_header build_header
one_entry_size = (refl, omega arith)
