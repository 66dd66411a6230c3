-- ===== src/Wal/Oversized.antt =====
-- Entries that pass the limit of hiqlite-wal/src/writer.rs and are too long for a file.
use hiqlite.Common.{
  ℕ, suc, ◌+◌, ◌-◌, ◌^◌, ◌≤◌, ◌<◌, ◌≡◌, ◌∙◌, refl, ap, true, false, some, none, List, [], ◌∷◌, ◌++◌,
  arith, length, take, ltb_ge, lt→ltb, le→leb, leb_lt,
}
use hiqlite.Wal.Platform.{Platform}
use hiqlite.Wal.Outcome.{ok, err, panic, io}
use hiqlite.Wal.Memory.{put}
use hiqlite.Wal.File.{
  WalFile, u32, offset_logs, unwrap_or, has_space, write_all, store_record, append_at, append_to,
  append_behind, append_log, min_wal_size, u32_to_bin,
}
use hiqlite.Wal.Layout.{Entry, Layout, le-end_of, write_all-ok}
use hiqlite.Wal.Serve.{Part}
use hiqlite.Wal.Set.{WalFileSet, active_of}
use hiqlite.Wal.Active.{has_space-none}
use hiqlite.Wal.Batch.{set_of, active_of-set_of, put_active-set_of, IsLog, roll-IsLog}
use hiqlite.Wal.Writer.{Config, Batch, data_len_limit, append_active, append_entry}

write_all-short :
    (w : WalFile) (from : ℕ) (bs : List ℕ)
    → w.mmap_mut ≡ true
    → from ≤ w.size
    → w.size < from + length bs
    → (w' : WalFile) × (write_all w from w.size bs ≡ (err io, w'))
      × (w'.data_start ≡ w.data_start)
      × (w'.data_end ≡ w.data_end)
      × (w'.len_max ≡ w.len_max)
unfolding write_all
write_all-short w from bs m a b = (
  record w { bytes = put w.bytes from (take (w.size - from) bs) },
  rw
      (
        m,
        le→leb from w.size a,
        le→leb w.size w.size (omega arith),
        leb_lt (length bs) (w.size - from) (omega arith),
      )
      refl,
  refl,
  refl,
  refl,
)

module _ (p : Platform) where
  open p use {be32, crc, length-be32, length-crc}

  -- The file with the checksum and the length of a record.
  abbrev half_stored : List ℕ → ℕ → WalFile → WalFile
  half_stored d start w = record w {
    bytes = put (put w.bytes (start + 8) (crc d)) (start + 8 + 4) (be32 (length d));
  }

  store_record-err :
      (id : ℕ) (d : List ℕ) (start : ℕ) (w w' : WalFile)
      → w.mmap_mut ≡ true
      → start + 16 ≤ w.size
      → length d < 2 ^ 32
      → write_all (half_stored d start w) (start + 8 + 4 + 4) w.size d ≡ (err io, w')
      → store_record p id d start w ≡ (err io, w')
  unfolding store_record u32_to_bin
  store_record-err id d start w w' m fits small e =
      let w₁ : WalFile = record w { bytes = put w.bytes (start + 8) (crc d) } in
      let n : u32 (length d) ≡ length d = omega arith in
      rw
        (
          write_all-ok p w (start + 8) (start + 8 + 8) (crc d) m (omega (arith, length-crc d))
              (omega arith),
          n,
          write_all-ok p w₁ (start + 8 + 4) (start + 8 + 4 + 4) (be32 (length d)) m
              (omega (arith, length-be32 (length d))) (omega arith),
          le→leb (start + 8 + 4 + 4) w.size (omega arith),
          e,
        )
        refl

  -- The data does not fit behind the checksum and the length.
  store_record-short :
      (id : ℕ) (d : List ℕ) (start : ℕ) (w : WalFile)
      → w.mmap_mut ≡ true
      → start + 16 ≤ w.size
      → w.size < start + 16 + length d
      → length d < 2 ^ 32
      → (w' : WalFile) × (store_record p id d start w ≡ (err io, w'))
        × (w'.data_start ≡ w.data_start)
        × (w'.data_end ≡ w.data_end)
        × (w'.len_max ≡ w.len_max)
  store_record-short id d start w m fits short small =
      let (w', e, kept_start, kept_end, max) =
        write_all-short (half_stored d start w) (start + 8 + 4 + 4) d m (omega arith)
          (omega arith) in
      (w', store_record-err id d start w w' m fits small e, kept_start, kept_end, max)

  abbrev started : ℕ → WalFile → WalFile
  started id w = record w { id_from = id; data_start = some (u32 offset_logs) }

  append_log-short :
      (id : ℕ) (d : List ℕ) (w : WalFile)
      → w.data_start ≡ none
      → w.data_end ≡ none
      → w.mmap_mut ≡ true
      → offset_logs + 16 ≤ w.size
      → w.size < offset_logs + 16 + length d
      → length d < 2 ^ 32
      → (w' : WalFile) × (append_log p id d w ≡ (err io, w'))
        × (w'.data_start ≡ some (u32 offset_logs))
        × (w'.data_end ≡ none)
        × (w'.len_max ≡ w.len_max)
  unfolding append_log append_to append_at
  append_log-short id d w s e m fits short small =
      let (w', stored, kept_start, kept_end, max) =
        store_record-short id d offset_logs (started id w) m fits short small in
      (w', ap (λ o. append_to p id d o w) s ∙ rw stored refl, kept_start, kept_end ∙ e, max)

  append_log-halfway :
      (id : ℕ) (d : List ℕ) (w : WalFile) (s : ℕ)
      → w.data_start ≡ some s
      → w.data_end ≡ none
      → append_log p id d w ≡ (panic, w)
  unfolding append_log append_to append_behind
  append_log-halfway id d w s start stop =
      ap (λ o. append_to p id d o w) start ∙ ap (λ o. append_behind p id d o w) stop

  module _ (c : Config) where
    append_active-halfway :
        (id : ℕ) (d : List ℕ) (s copy : WalFileSet) (e : WalFile) (start : ℕ)
        → active_of s ≡ ok e
        → e.data_start ≡ some start
        → e.data_end ≡ none
        → append_active p id d s copy ≡ panic
    unfolding append_active
    append_active-halfway id d s copy e start found at none_yet =
        rw (found, append_log-halfway id d e start at none_yet) refl

    append_entry-halfway :
        (id : ℕ) (d : List ℕ) (s copy : WalFileSet) (e : WalFile) (start : ℕ)
        → active_of s ≡ ok e
        → e.data_start ≡ some start
        → e.data_end ≡ none
        → length d + 50 ≤ c.wal_size
        → e.len_max ≡ c.wal_size
        → append_entry p c (id, d) s copy ≡ panic
    unfolding append_entry
    append_entry-halfway id d s copy e start found at none_yet fits max =
        rw
          (
            ltb_ge (data_len_limit c.wal_size) (length d) (omega (arith, fits)),
            found,
            has_space-none e (length d) none_yet,
            lt→ltb (offset_logs + 1 + 8 + 4 + 4 + length d) e.len_max (omega (arith, fits, max)),
          )
          (append_active-halfway id d s copy e start found at none_yet)

    no_space :
        (d : List ℕ) (w : WalFile) (s e : ℕ) (rs : List Entry)
        → Layout p w s e rs
        → w.len_max < length d + 48
        → has_space w (length d) ≡ false
    unfolding has_space
    no_space d w s e rs l long =
        let n : unwrap_or w.data_end offset_logs ≡ e = ap (λ o. unwrap_or o offset_logs) l.stop in
        ltb_ge (unwrap_or w.data_end offset_logs + 1 + 8 + 4 + 4 + length d) w.len_max
          (omega (arith, n, l.ends, l.behind_header, le-end_of s rs))

    append_active-short :
        (id : ℕ) (d : List ℕ) (qs : List Part) (v w' : WalFile) (copy : WalFileSet)
        → append_log p id d v ≡ (err io, w')
        → append_active p id d (set_of qs v) copy
          ≡ ok (record { wal = set_of qs w'; wal_locked = copy; failed = some io })
    unfolding append_active
    append_active-short id d qs v w' copy e =
        rw (active_of-set_of qs v, e, put_active-set_of qs v w') refl

    -- An entry that passes the check of the writer's limit, and is longer than what a new file has
    -- room for behind its header and the record's own, is not caught by that check: behind a
    -- roll-over its write fails with an I/O error, and the next append of an entry that fits panics,
    -- since the failed one has set the file's data_start and not its data_end.
    pub append_entry-too_long :
        (k n id id' : ℕ) (d d' : List ℕ) (qs : List Part) (w : WalFile) (r : Entry)
        (rs : List Entry) (copy : WalFileSet)
        → c.wal_size < 2 ^ 32
        → min_wal_size ≤ c.wal_size
        → suc (k + length qs) < 2 ^ 64
        → length d ≤ data_len_limit c.wal_size
        → c.wal_size < length d + 48
        → length d' + 50 ≤ c.wal_size
        → IsLog p c k n qs w (r ∷ rs) copy
        → (b : Batch) × (append_entry p c (id, d) (set_of qs w) copy ≡ ok b)
          × (b.failed ≡ some io)
          × (append_entry p c (id', d') b.wal b.wal_locked ≡ panic)
    unfolding append_entry
    append_entry-too_long k n id id' d d' qs w r rs copy small large room limit long fits l =
        let (s, e, part) = l.active.kept in
        let (q, v, copy', rolled, same, l') =
          roll-IsLog p c k n qs w r rs copy small large room l in
        let a = l'.active in
        let (w', failed, start, stop, max) =
          append_log-short id d v a.kept.0 a.kept.1 a.mapped
            (omega (arith, a.sized, a.len_max, large)) (omega (arith, a.sized, a.len_max, long))
            (omega (arith, limit, small)) in
        let qs' = qs ++ (q ∷ []) in
        (
          record { wal = set_of qs' w'; wal_locked = copy'; failed = some io },
          rw
              (
                ltb_ge (data_len_limit c.wal_size) (length d) limit,
                active_of-set_of qs w,
                no_space d w s e (r ∷ rs) part.layout (omega (arith, l.active.len_max, long)),
                rolled,
              )
              (append_active-short id d qs' v w' copy' failed),
          refl,
          append_entry-halfway id' d' (set_of qs' w') copy' w' (u32 offset_logs)
              (active_of-set_of qs' w') start stop fits (max ∙ a.len_max),
        )
