-- ===== src/Wal/StoreTests.antt =====
-- The log store over a log of two entries from the index 0 on.
use hiqlite.Common.{ℕ, ◌≡◌, refl, sym, subst, arith, false, Option, none, some, List, [], ◌∷◌}
use hiqlite.Wal.Outcome.{ok}
use hiqlite.Wal.Set.{WalFileSet}
use hiqlite.Wal.ReadTask.{LogReader, open_reader}
use hiqlite.Wal.Metadata.{no_metadata}
use hiqlite.Wal.Tests.{big_endian}
use hiqlite.Wal.WriterTests.{config, plain, first_one, no_directory}
use hiqlite.Wal.Commit.{accepted, handle_append-IsWriter}
use hiqlite.Wal.Served.{first_writer-IsWriter}
use hiqlite.Wal.Turn.{Goes}
use hiqlite.Wal.Seen.{IsSeen}
use hiqlite.Wal.Writer.{Writer, handle_append}
use hiqlite.Wal.LogStore.{EntryCodec, included, excluded, serialized, try_get_log_entries}
use hiqlite.Wal.Ranges.{try_get_log_entries-range, try_get_log_entries-zero}

abbrev Numbered : Type 0
Numbered = ℕ × List ℕ

abbrev number_first : List ℕ → Option Numbered
number_first [] = none
number_first (i ∷ d) = some (i, d)

abbrev numbered : EntryCodec Numbered
numbered = record {
  serialize = λ e. e.0 ∷ e.1;
  deserialize = number_first;
  index = λ e. e.0;
  deserialize-serialize = λ e. refl;
}

abbrev two : List Numbered
two = (0, 5 ∷ []) ∷ (1, 6 ∷ []) ∷ []

abbrev two_serialized : List (ℕ × List ℕ)
two_serialized = (0, 0 ∷ 5 ∷ []) ∷ (1, 1 ∷ 6 ∷ []) ∷ []

two-serialized : serialized numbered two ≡ two_serialized
unfolding serialized
two-serialized = refl

-- The writer behind an append of the two.
two_appended :
    (s' : Writer) × (handle_append big_endian config two_serialized 0 1 first_one
      ≡ (ok s', accepted 0 1))
    × (s'.is_dirty ≡ false)
    × Goes big_endian config 1 0 two_serialized 3 first_one s'
two_appended =
    handle_append-IsWriter big_endian config 1 0 (omega arith) (omega arith) [] two_serialized 0
      first_one 0 1 (omega arith, (omega arith, tt))
      (omega arith, omega arith, (omega arith, omega arith, tt)) (refl, (refl, tt)) (omega arith)
      (first_writer-IsWriter big_endian plain config 0 (omega arith) (omega arith) no_metadata
        no_directory)

abbrev locked : WalFileSet
locked = two_appended.0.wal_locked

try_get_log_entries-range_example :
    (rd : LogReader) × (try_get_log_entries numbered big_endian
        (λ k. false)
        (included 1)
        (excluded 2)
        locked
        (open_reader locked)
      ≡ ok ((1, 6 ∷ []) ∷ [], rd))
try_get_log_entries-range_example =
    try_get_log_entries-range numbered big_endian 1 0 1 2 locked two
      (subst (λ es. IsSeen big_endian 1 0 locked.files es) (sym two-serialized)
        two_appended.3.writer.seen)
      (omega arith) (omega arith) (omega arith) (omega arith)

try_get_log_entries-zero_example :
    (rd : LogReader) × (try_get_log_entries numbered big_endian
        (λ k. false)
        (included 0)
        (excluded 0)
        locked
        (open_reader locked)
      ≡ ok ((0, 5 ∷ []) ∷ [], rd))
try_get_log_entries-zero_example =
    try_get_log_entries-zero numbered big_endian 1 locked (0, 5 ∷ []) ((1, 6 ∷ []) ∷ [])
      (subst (λ es. IsSeen big_endian 1 0 locked.files es) (sym two-serialized)
        two_appended.3.writer.seen)
