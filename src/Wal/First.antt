-- ===== src/Wal/First.antt =====
-- `append_log` of wal.rs into a file that holds no entry yet.
use hiqlite.Common.{
  ℕ, ◌+◌, ◌^◌, ◌≤◌, ◌<◌, ◌≡◌, ◌∙◌, refl, ap, true, none, some, List, [], ◌∷◌, arith, length, ltb→lt,
}
use hiqlite.Wal.Memory.{put, read-put_after}
use hiqlite.Wal.Platform.{Platform}
use hiqlite.Wal.Outcome.{ok}
use hiqlite.Wal.File.{
  WalFile, u32, offset_logs, unwrap_or, has_space, append_at, append_to, append_log,
}
use hiqlite.Wal.Layout.{Layout, end_of, Holds-eq, stored, stored-holds, store_record-ok}
use hiqlite.Wal.Header.{header, length-header, update_header-ok}

module _ (p : Platform) where
  -- The first record, before and after its header is written.
  abbrev opened : ℕ → WalFile → WalFile
  opened id w = record w { id_from = id; data_start = some (u32 offset_logs) }

  abbrev pub first_stored : ℕ → List ℕ → WalFile → WalFile
  first_stored id d w = record w {
    id_from = id;
    data_start = some (u32 offset_logs);
    bytes = stored p id d offset_logs w.bytes;
    id_until = id;
    data_end = some (u32 (offset_logs + 8 + 4 + 4 + length d));
  }

  abbrev pub first_appended : ℕ → List ℕ → WalFile → WalFile
  first_appended id d w = record (first_stored id d w) {
    bytes = put (first_stored id d w).bytes 0 (header p (first_stored id d w));
  }

  pub append_log-first :
      (id : ℕ) (d : List ℕ) (w : WalFile)
      → w.data_start ≡ none
      → w.version ≡ 1
      → w.mmap_mut ≡ true
      → offset_logs + 16 + length d ≤ w.size
      → w.size < 2 ^ 32
      → append_log p id d w ≡ (ok tt, first_appended id d w)
  unfolding append_log append_to append_at
  append_log-first id d w s v m fits small =
      ap (λ o. append_to p id d o w) s
      ∙ rw (store_record-ok p id d offset_logs (opened id w) m fits small)
          (update_header-ok p (first_stored id d w) v m (omega arith))

  -- The first append to an empty file of the current version, where `has_space` says that there is
  -- room, succeeds: the file then holds that one entry, at the first offset behind the header, and
  -- both its ids are the entry's.
  pub append_log-first_Layout :
      (id : ℕ) (d : List ℕ) (w : WalFile)
      → w.data_start ≡ none
      → w.data_end ≡ none
      → w.version ≡ 1
      → w.mmap_mut ≡ true
      → w.size ≡ w.len_max
      → w.len_max < 2 ^ 32
      → has_space w (length d) ≡ true
      → 0 < length d
      → id < 2 ^ 64
      → let (r, w') = append_log p id d w in
        (r ≡ ok tt)
        × (w'.id_from ≡ id)
        × (w'.id_until ≡ id)
        × Layout p w' offset_logs (offset_logs + 16 + length d) ((id, d) ∷ [])
  unfolding has_space
  append_log-first_Layout id d w s e v m sized small space pos lt =
      let n : unwrap_or w.data_end offset_logs ≡ offset_logs =
        ap (λ o. unwrap_or o offset_logs) e in
      let room : offset_logs + 17 + length d < w.len_max = omega (arith, ltb→lt _ _ space, n) in
      rw (append_log-first id d w s v m (omega arith) (omega arith)) (
        refl,
        refl,
        refl,
        record {
          start = refl;
          stop = ap some (omega arith);
          behind_header = omega arith;
          ends = unfold end_of in omega arith;
          fits = omega arith;
          sized = sized;
          small = small;
          entries = (pos, lt, tt);
          holds =
              Holds-eq p (stored p id d offset_logs w.bytes) _ offset_logs ((id, d) ∷ [])
                (λ from k ge le.
                  read-put_after _ 0 (header p (first_stored id d w)) from k
                    (omega (arith, length-header p (first_stored id d w))))
                (stored-holds p id offset_logs d w.bytes);
        },
      )
