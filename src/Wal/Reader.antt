-- ===== src/Wal/Reader.antt =====
-- The reader's answer to a range: the loop of `Action::Logs` in hiqlite-wal/src/reader.rs.
use hiqlite.Common.{ℕ, ◌+◌, false, Option, List, [], ◌∷◌, ◌++◌, ltb, if◌then◌else◌}
use hiqlite.Wal.Platform.{Platform}
use hiqlite.Wal.Outcome.{Error, Outcome, ok, err, panic, out_of_fuel, ◌>>=◌}
use hiqlite.Wal.File.{WalFile, u64, map_read}
use hiqlite.Wal.Layout.{Entry}
use hiqlite.Wal.Logs.{LogReadMemo, ReadLogs, read_logs}

-- What goes through the channel of a read: a log's data, an error, or the end.
pub data Message : Type 0 where
  log : List ℕ → Message
  failed : Error → Message
  end : Message

pub record Served : Type 0 where
  pub sent : List Message
  pub memo : Option LogReadMemo
  pub files : List WalFile

abbrev pub logs_of : List Entry → List Message
logs_of [] = []
logs_of ((id, d) ∷ rs) = log d ∷ logs_of rs

-- What a file sends goes before what the files behind it send.
abbrev pub before : List Message → WalFile → Outcome Served → Outcome Served
before sent w rest =
    rest >>= λ r. ok (record { sent = sent ++ r.sent; memo = r.memo; files = w ∷ r.files })

-- A file that lies before the range's end. Its mapping is dropped, and the next file goes on.
unfoldable pub passed :
    WalFile
    → List WalFile
    → Option LogReadMemo
    → (ℕ → Option LogReadMemo → Outcome Served)
    → Outcome ReadLogs
    → Outcome Served
passed w ws memo next (ok r) =
    before (logs_of r.logs) (record w { mmap = false }) (next (u64 (w.id_until + 1)) r.memo)
passed w ws memo next (err e) = ok (record { sent = failed e ∷ []; memo = memo; files = w ∷ ws })
passed w ws memo next panic = panic
passed w ws memo next out_of_fuel = out_of_fuel

-- The file with the range's end.
unfoldable pub ended :
    WalFile → List WalFile → Option LogReadMemo → Outcome ReadLogs → Outcome Served
ended w ws memo (ok r) = ok (record { sent = logs_of r.logs; memo = r.memo; files = w ∷ ws })
ended w ws memo (err e) = ok (record { sent = failed e ∷ []; memo = memo; files = w ∷ ws })
ended w ws memo panic = panic
ended w ws memo out_of_fuel = out_of_fuel

-- The last message of every answer.
abbrev pub finished : Served → Served
finished r = record r { sent = r.sent ++ (end ∷ []) }

module _ (p : Platform) where
  unfoldable pub serve_file :
      ℕ
      → ℕ
      → Option LogReadMemo
      → WalFile
      → List WalFile
      → (ℕ → Option LogReadMemo → Outcome Served)
      → Outcome Served
  serve_file from until memo w ws next =
      if ltb w.id_until from
      then before [] w (next from memo)
      else if ltb w.id_until until
      then passed (map_read w) ws memo next (read_logs p from w.id_until memo (map_read w))
      else ended (map_read w) ws memo (read_logs p from until memo (map_read w))

  unfoldable pub serve_files : ℕ → ℕ → Option LogReadMemo → List WalFile → Outcome Served
  serve_files from until memo [] = ok (record { sent = []; memo = memo; files = [] })
  serve_files from until memo (w ∷ ws) =
      serve_file from until memo w ws (λ from' memo'. serve_files from' until memo' ws)

  unfoldable pub serve_logs : ℕ → ℕ → Option LogReadMemo → List WalFile → Outcome Served
  serve_logs from until memo files = serve_files from until memo files >>= λ r. ok (finished r)
