-- ===== src/Wal/Logs.antt =====
-- `read_logs` of wal.rs: a range of entries, from a memoized position where that fits.
use hiqlite.Common.{
  ℕ, zero, suc, ◌+◌, Bool, ◌&&◌, Option, none, some, List, [], ◌∷◌, ◌++◌, ltb, leb, ◌==◌,
  if◌then◌else◌, length,
}
use hiqlite.Wal.Platform.{Platform}
use hiqlite.Wal.Outcome.{Outcome, ok, err, panic, out_of_fuel, ◌>>=◌, generic, integrity}
use hiqlite.Wal.File.{WalFile, WalRecord, u32, record_len, read_record}
use hiqlite.Wal.Layout.{Entry}
use hiqlite.Wal.Header.{bytes_eq}

-- `LogReadMemo` of reader.rs
pub record LogReadMemo : Type 0 where
  pub last_wal_no : ℕ
  pub id_from : ℕ
  pub last_log_id : ℕ
  pub data_end : ℕ

-- What a read hands back: the offset of the first entry, the memo and the entries.
pub record ReadLogs : Type 0 where
  pub offset : ℕ
  pub memo : Option LogReadMemo
  pub logs : List Entry

-- The memo of the record `r` at `idx`.
abbrev pub memo_of : WalFile → WalRecord → ℕ → LogReadMemo
memo_of w r idx = record {
  last_wal_no = w.wal_no;
  id_from = w.id_from;
  last_log_id = r.log_id;
  data_end = u32 (u32 (idx + 8 + 4 + 4) + u32 (length r.payload));
}

module _ (p : Platform) where
  open p use {crc}

  -- The end of a round: the loop stops behind `until`, and else goes on at the next record.
  unfoldable pub finish :
      WalFile
      → ℕ
      → WalRecord
      → ℕ
      → ℕ
      → List Entry
      → (ℕ → ℕ → List Entry → Outcome ReadLogs)
      → Outcome ReadLogs
  finish w until r idx offset buf next =
      if leb until r.log_id
      then (if w.version == 1
          then ok (record { offset = offset; memo = some (memo_of w r idx); logs = buf })
          else panic)
      else next (u32 (idx + u32 (record_len r + 1))) offset buf

  -- A round behind the read of its record `r` at `idx`.
  unfoldable pub visit :
      WalFile
      → ℕ
      → ℕ
      → Option LogReadMemo
      → ℕ
      → ℕ
      → List Entry
      → (ℕ → ℕ → List Entry → Outcome ReadLogs)
      → WalRecord
      → Outcome ReadLogs
  unfolding finish
  visit w from until memo idx offset buf next r =
      let offset' = if r.log_id == from then idx else offset in
      if leb from r.log_id
      then (if leb r.log_id until
          then (if bytes_eq r.crc (crc r.payload)
              then finish w until r idx offset' (buf ++ ((r.log_id, r.payload) ∷ [])) next
              else err integrity)
          else ok (record { offset = offset'; memo = memo; logs = buf }))
      else finish w until r idx offset' buf next

  -- The loop of `read_logs`, on fuel. `memo` is what the caller handed in.
  unfoldable pub read_loop :
      ℕ → WalFile → ℕ → ℕ → Option LogReadMemo → ℕ → ℕ → List Entry → Outcome ReadLogs
  read_loop zero w from until memo idx offset buf = out_of_fuel
  read_loop (suc fuel) w from until memo idx offset buf =
      read_record p idx w
      >>= visit w from until memo idx offset buf (read_loop fuel w from until memo)

  -- Whether the memo is one of this file, and lies before the range.
  abbrev pub memo_fits : WalFile → ℕ → LogReadMemo → Bool
  memo_fits w from m = m.last_wal_no == w.wal_no && m.id_from == w.id_from && ltb m.last_log_id from

  abbrev pub start_of : WalFile → ℕ → Option LogReadMemo → ℕ → ℕ
  start_of w from none data_start = data_start
  start_of w from (some m) data_start =
      if memo_fits w from m then u32 (m.data_end + 1) else data_start

  unfoldable pub read_from :
      WalFile → ℕ → ℕ → Option LogReadMemo → Option ℕ → Option ℕ → Outcome ReadLogs
  unfolding read_loop
  read_from w from until memo none data_end = panic
  read_from w from until memo (some data_start) none = panic
  read_from w from until memo (some data_start) (some data_end) =
      read_loop (suc w.len_max) w from until memo (start_of w from memo data_start) 0 []

  unfoldable pub read_logs : ℕ → ℕ → Option LogReadMemo → WalFile → Outcome ReadLogs
  unfolding read_from
  read_logs from until memo w =
      if ltb from w.id_from
      then err generic
      else if ltb w.id_until until
      then err generic
      else if ltb until from
      then err generic
      else read_from w from until memo w.data_start w.data_end
