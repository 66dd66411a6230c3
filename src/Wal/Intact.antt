-- ===== src/Wal/Intact.antt =====
-- The deep check of hiqlite-wal/src/wal.rs on a file that needs no repair.
use hiqlite.Common.{
  ℕ, zero, suc, ◌+◌, ◌-◌, ◌≤◌, ◌<◌, ◌≡◌, ◌∙◌, refl, ap, ap₂, Bool, true, Option, none, some, List,
  [], ◌∷◌, arith, length, lt→ltb, ltb_ge, ==_lt, ==_gt, take, drop, replicate, le→leb,
}
use native.Mathlib.Decide.{dec_lt}
use hiqlite.Wal.Range.{length-le-end_of}
use hiqlite.Wal.Memory.{read, length-read, take-read, drop-read}
use hiqlite.Wal.Platform.{Platform}
use hiqlite.Wal.Outcome.{ok, err, integrity}
use hiqlite.Wal.File.{WalFile, u32, read_record, record_at, bin_to_u32, bin_to_u64}
use hiqlite.Wal.Header.{bytes_eq_refl}
use hiqlite.Wal.Layout.{Entry, end_of, le-end_of, AreEntries, Holds}
use hiqlite.Wal.Append.{read_bytes-ok, read_record-Holds}
use hiqlite.Wal.Rounds.{Consecutive, IsOpen}
use hiqlite.Wal.Cut.{IsFull}
use hiqlite.Wal.Repair.{
  Scan, go, is_next, scan, scan_record, recover, recover_record, recover_behind, check_repair_from,
  check_repair_data_integrity,
}

module _ (p : Platform) (auto_heal : Bool) (w : WalFile) (o : IsOpen p w) (e : ℕ)
    (fits : e < w.len_max) where
  open p use {crc, of_be32-zeros}

  scan_record-more :
      (off : ℕ) (before : Option ℕ) (id : ℕ) (d : List ℕ) (next : ℕ → Option ℕ → Scan)
      → is_next before id ≡ true
      → 0 < length d
      → off + 17 + length d ≤ e
      → id < w.id_until
      → scan_record p auto_heal e off before w next
          (ok (record { log_id = id; crc = crc d; payload = d }))
        ≡ next (off + 17 + length d) (some id)
  unfolding scan_record
  scan_record-more off before id d next n pos room lt =
      let behind : u32 (off + u32 (u32 (16 + u32 (length d)) + 1)) ≡ off + 17 + length d =
        omega (arith, o.small) in
      rw
        (
          n,
          bytes_eq_refl (crc d),
          ==_lt 0 (length d) pos,
          behind,
          ltb_ge e (off + 17 + length d) room,
          ==_gt id w.id_until lt,
        )
        refl

  scan_record-last :
      (off : ℕ) (before : Option ℕ) (id : ℕ) (d : List ℕ) (next : ℕ → Option ℕ → Scan)
      → is_next before id ≡ true
      → 0 < length d
      → off + 17 + length d ≡ e + 1
      → scan_record p auto_heal e off before w next
          (ok (record { log_id = id; crc = crc d; payload = d }))
        ≡ go (e + 1) (some id)
  unfolding scan_record
  scan_record-last off before id d next n pos room =
      let behind : u32 (off + u32 (u32 (16 + u32 (length d)) + 1)) ≡ e + 1 =
        omega (arith, o.small) in
      rw (n, bytes_eq_refl (crc d), ==_lt 0 (length d) pos, behind, lt→ltb e (e + 1) (omega arith))
        refl

  scan-intact :
      (fuel off n : ℕ) (before : Option ℕ) (rs : List Entry)
      → Holds p w.bytes off rs
      → AreEntries rs
      → Consecutive n rs
      → e + 1 ≡ end_of off rs
      → n + length rs ≡ suc w.id_until
      → length rs ≤ fuel
      → 0 < length rs
      → is_next before n ≡ true
      → scan p fuel auto_heal e off before w ≡ go (e + 1) (some w.id_until)
  unfolding scan end_of
  scan-intact fuel off n before [] h a c ends full enough pos m = absurd (omega arith)
  scan-intact zero off n before ((id, d) ∷ rs) h a c ends full enough pos m = absurd (omega arith)
  scan-intact (suc fuel) off n before ((id, d) ∷ []) h (dp, il, a) (ce, c) ends full enough pos m =
      rw
        (read_record-Holds p w off id d [] h o.mapped (omega (arith, ends, fits)) o.sized o.small dp
          il)
        (scan_record-last off before id d _ (rw ce m) dp (omega (arith, ends))
          ∙ ap (λ i. go (e + 1) (some i)) {y = w.id_until} (omega (arith, ce, full)))
  scan-intact (suc fuel) off n before ((id, d) ∷ (id', d') ∷ rs) h (dp, il, a) (ce, c) ends full
        enough pos m =
      let room : off + 17 + length d ≤ e =
        omega (arith, ends, le-end_of (off + 17 + length d + 17 + length d') rs) in
      rw
        (read_record-Holds p w off id d ((id', d') ∷ rs) h o.mapped (omega (arith, room, fits))
          o.sized o.small dp il)
        (scan_record-more off before id d _ (rw ce m) dp room (omega (arith, ce, full))
          ∙ scan-intact fuel (off + 17 + length d) (suc n) (some id) ((id', d') ∷ rs) h.4 a c ends
              (omega (arith, full)) (omega (arith, enough)) (omega arith)
              (ground (arith, ce, c.0, a.1)))

  -- Where the length is 0 there is no record.
  read_record-blank :
      (off : ℕ)
      → read w.bytes (off + 12) 4 ≡ replicate 4 0
      → off + 16 ≤ w.len_max
      → read_record p off w ≡ err integrity
  unfolding read_record record_at bin_to_u64 bin_to_u32
  read_record-blank off blank room =
      let a : u32 (off + 8 + 4 + 4) ≡ off + 8 + 4 + 4 = omega (arith, o.small) in
      let n : off + 8 + 4 + 4 - off ≡ 16 = omega arith in
      let at12 : take 4 (drop 12 (read w.bytes off 16)) ≡ replicate 4 0 =
        ap (take 4) (drop-read w.bytes off 12 16)
        ∙ take-read w.bytes (off + 12) 4 4 (omega arith)
        ∙ blank in
      rw
        (
          ltb_ge w.len_max (off + 8 + 4 + 4) (omega (arith, room)),
          a,
          read_bytes-ok p w off (off + 8 + 4 + 4) o.mapped (omega arith)
              (omega (arith, o.sized, room)),
          n,
          take-read w.bytes off 8 16 (omega arith),
          le→leb 8 (length (read w.bytes off 8)) (omega (arith, length-read w.bytes off 8)),
          at12,
          of_be32-zeros,
        )
        refl

  recover-blank :
      (fuel off : ℕ) (before : Option ℕ)
      → read w.bytes (off + 12) 4 ≡ replicate 4 0
      → recover p (suc fuel) off before w ≡ (ok tt, w)
  unfolding recover recover_record
  recover-blank fuel off before blank = elim (dec_lt w.len_max (off + 8 + 4 + 4)) [
    | yes lt ↦ rw (lt→ltb w.len_max (off + 8 + 4 + 4) lt) refl
    | no ge ↦
        rw
          (
            ltb_ge w.len_max (off + 8 + 4 + 4) (omega (arith, ge)),
            read_record-blank off blank (omega (arith, ge)),
          )
          refl
  ]

  -- The deep check leaves a file as it is that holds its ids without a gap, where the place of the
  -- next record's length is blank. It ends without an error, whether it may heal or not.
  pub check_repair-intact :
      (s : ℕ) (rs : List Entry)
      → IsFull p w s e rs
      → w.id_from ≤ w.id_until
      → read w.bytes (e + 1 + 12) 4 ≡ replicate 4 0
      → check_repair_data_integrity p auto_heal w ≡ (ok tt, w)
  unfolding check_repair_data_integrity check_repair_from recover_behind
  check_repair-intact s rs f some_id blank =
      ap₂ (λ a b. check_repair_from p auto_heal a b w) f.layout.start f.layout.stop
      ∙ (ap (λ r. recover_behind p r w)
            (scan-intact (suc w.len_max) s w.id_from none rs f.layout.holds f.layout.entries
              f.consecutive f.layout.ends f.count
              (omega (arith, length-le-end_of s rs, f.layout.ends, fits))
              (omega (arith, f.count, some_id)) refl)
          ∙ recover-blank w.len_max (e + 1) (some w.id_until) blank)
