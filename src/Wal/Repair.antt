-- ===== src/Wal/Repair.antt =====
-- The deep check of a file after a crash: `check_repair_data_integrity` of hiqlite-wal/src/wal.rs.
--
-- It has two loops. The first walks over the records that the header names; the second adopts the
-- records behind them that the header does not name. Whether the feature `auto-heal` is built in is
-- an argument.
use hiqlite.Common.{
  ℕ, zero, suc, ◌+◌, ◌-◌, ◌^◌, Bool, true, ◌||◌, not, Option, none, some, [], ltb, leb, ◌==◌,
  if◌then◌else◌, length,
}
use hiqlite.Wal.Platform.{Platform}
use hiqlite.Wal.Outcome.{Outcome, ok, err, panic, out_of_fuel, integrity}
use hiqlite.Wal.File.{
  WalFile, WalRecord, Written, u32, u64, record_len, offset_logs, unwrap_or, write_all,
  ◌then_write◌, u64_to_bin, update_header, read_record,
}
use hiqlite.Wal.Header.{bytes_eq}

-- Where the first loop ends: with a result, or at an offset behind the record of an id.
pub data Scan : Type 0 where
  stop : Written → Scan
  go : ℕ → Option ℕ → Scan

-- Whether an id follows the one before it.
abbrev pub is_next : Option ℕ → ℕ → Bool
is_next none id = true
is_next (some before) id = id == u64 (before + 1)

-- The fields after a bad checksum at `offset`.
abbrev pub healed : ℕ → Option ℕ → WalFile → WalFile
healed offset none w = record w { id_until = w.id_from; data_start = none; data_end = none }
healed offset (some before) w = record w {
  id_until = before;
  data_end = some (u32 (offset + (2 ^ 32 - 1)));
}

-- The fields after a record at `offset` that the header did not name.
abbrev pub adopted : ℕ → WalRecord → WalFile → WalFile
adopted offset r w = record w {
  id_until = r.log_id;
  data_start = some (unwrap_or w.data_start offset);
  data_end = some (u32 (offset + record_len r));
}

module _ (p : Platform) where
  open p use {crc}

  unfoldable pub bad_record : Bool → ℕ → Option ℕ → WalFile → Written
  bad_record auto_heal offset before w =
      if auto_heal
      then write_all (healed offset before w) offset (offset + 8) (u64_to_bin p 0 [])
      else (err integrity, w)

  -- A round of the first loop behind the read of its record.
  unfoldable pub scan_record :
      Bool → ℕ → ℕ → Option ℕ → WalFile → (ℕ → Option ℕ → Scan) → Outcome WalRecord → Scan
  unfolding bad_record
  scan_record auto_heal data_end offset before w next (ok r) =
      if not (is_next before r.log_id)
      then stop (err integrity, w)
      else if not (bytes_eq r.crc (crc r.payload)) || length r.payload == 0
      then stop (bad_record auto_heal offset before w)
      else (let behind = u32 (offset + u32 (record_len r + 1)) in
          let rest = next behind (some r.log_id) in
          if ltb data_end behind || r.log_id == w.id_until then go behind (some r.log_id) else rest)
  scan_record auto_heal data_end offset before w next (err e) = stop (err e, w)
  scan_record auto_heal data_end offset before w next panic = stop (panic, w)
  scan_record auto_heal data_end offset before w next out_of_fuel = stop (out_of_fuel, w)

  unfoldable pub scan : ℕ → Bool → ℕ → ℕ → Option ℕ → WalFile → Scan
  scan zero auto_heal data_end offset before w = stop (out_of_fuel, w)
  scan (suc fuel) auto_heal data_end offset before w =
      scan_record auto_heal data_end offset before w
        (λ behind last. scan fuel auto_heal data_end behind last w) (read_record p offset w)

  -- A round of the second loop behind the read of its record. Any error ends the search.
  unfoldable pub recover_record :
      ℕ → Option ℕ → WalFile → (ℕ → Option ℕ → WalFile → Written) → Outcome WalRecord → Written
  recover_record offset before w next (ok r) =
      if r.log_id == 0 || not (is_next before r.log_id) || not (bytes_eq r.crc (crc r.payload))
      then (ok tt, w)
      else update_header p (adopted offset r w) then_write (λ w'.
        let behind = u32 (offset + u32 (record_len r + 1)) in
        let rest = next behind (some r.log_id) w' in
        if leb w'.len_max behind then (ok tt, w') else rest)
  recover_record offset before w next (err e) = (ok tt, w)
  recover_record offset before w next panic = (panic, w)
  recover_record offset before w next out_of_fuel = (out_of_fuel, w)

  unfoldable pub recover : ℕ → ℕ → Option ℕ → WalFile → Written
  recover zero offset before w = (out_of_fuel, w)
  recover (suc fuel) offset before w =
      let round = recover_record offset before w (recover fuel) (read_record p offset w) in
      if ltb w.len_max (offset + 8 + 4 + 4) then (ok tt, w) else round

  unfoldable pub recover_behind : Scan → WalFile → Written
  recover_behind (stop result) w = result
  recover_behind (go offset before) w = recover (suc w.len_max) offset before w

  unfoldable pub check_repair_from : Bool → Option ℕ → Option ℕ → WalFile → Written
  check_repair_from auto_heal none data_end w = recover (suc w.len_max) (u32 offset_logs + 1) none w
  check_repair_from auto_heal (some start) none w = (panic, w)
  check_repair_from auto_heal (some start) (some data_end) w =
      recover_behind (scan (suc w.len_max) auto_heal data_end start none w) w

  unfoldable pub check_repair_data_integrity : Bool → WalFile → Written
  check_repair_data_integrity auto_heal w = check_repair_from auto_heal w.data_start w.data_end w
