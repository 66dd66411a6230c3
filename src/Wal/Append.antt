-- ===== src/Wal/Append.antt =====
-- `append_log` of wal.rs: what it adds to a file, and that it can be read back.
use hiqlite.Common.{
  ℕ, ◌+◌, ◌-◌, ◌^◌, ◌≤◌, ◌<◌, ◌≡◌, ◌∙◌, refl, ap, true, false, ◌||◌, some, List, [], ◌∷◌, ◌++◌,
  arith, length, take, drop, subst, le→leb, ltb→lt, take-all, ltb_ge, ==_lt,
}
use hiqlite.Wal.Memory.{Image, read, take-read, drop-read}
use hiqlite.Wal.Platform.{Platform}
use hiqlite.Wal.Outcome.{ok}
use hiqlite.Wal.File.{
  WalFile, u32, offset_logs, unwrap_or, has_space, read_bytes, append_at, append_behind, append_to,
  append_log, read_record, record_at, bin_to_u32, bin_to_u64,
}
use hiqlite.Wal.Layout.{
  Entry, end_of-append, Holds, Layout, stored, stored-before, stored-holds, Holds-eq, Holds-append,
  AreEntries-append, store_record-ok,
}

module _ (p : Platform) where
  open p use {
    be64, of_be64, be32, of_be32, crc, length-be64, length-be32, of_be64-be64, of_be32-be32,
  }

  append_log-behind :
      (id : ℕ) (d : List ℕ) (w : WalFile) (s e : ℕ)
      → w.data_start ≡ some s
      → w.data_end ≡ some e
      → append_log p id d w ≡ append_at p id d (e + 1) false w
  unfolding append_log
  append_log-behind id d w s e hs he =
      ap (λ o. append_to p id d o w) hs ∙ ap (λ o. append_behind p id d o w) he

  -- The file after a record was stored at `start`.
  abbrev pub appended : ℕ → List ℕ → ℕ → WalFile → WalFile
  appended id d start w = record w {
    bytes = stored p id d start w.bytes;
    id_until = id;
    data_end = some (u32 (start + 8 + 4 + 4 + length d));
  }

  append_at-ok :
      (id : ℕ) (d : List ℕ) (start : ℕ) (w : WalFile)
      → w.mmap_mut ≡ true
      → start + 16 + length d ≤ w.size
      → w.size < 2 ^ 32
      → append_at p id d start false w ≡ (ok tt, appended id d start w)
  unfolding append_at
  append_at-ok id d start w m fits small = rw (store_record-ok p id d start w m fits small)

  pub appended-Layout :
      (id : ℕ) (d : List ℕ) (w : WalFile) (s e : ℕ) (rs : List Entry)
      → Layout p w s e rs
      → e + 17 + length d < w.len_max
      → 0 < length d
      → id < 2 ^ 64
      → Layout p (appended id d (e + 1) w) s (e + 17 + length d) (rs ++ ((id, d) ∷ []))
  appended-Layout id d w s e rs l room pos lt = record {
    start = l.start;
    stop = ap some (omega (arith, l.small));
    behind_header = l.behind_header;
    ends = omega (arith, l.ends, end_of-append s id d rs);
    fits = room;
    sized = l.sized;
    small = l.small;
    entries = AreEntries-append p id d rs l.entries pos lt;
    holds =
        Holds-append p img s id d rs
          (Holds-eq p w.bytes img s rs
            (λ from n ge le.
              stored-before p id (e + 1) d w.bytes from n (omega (arith, le, l.ends)))
            l.holds)
          (subst (λ o. Holds p img o ((id, d) ∷ [])) l.ends (stored-holds p id (e + 1) d w.bytes));
  }
    where
      img : Image
      img = stored p id d (e + 1) w.bytes

  -- What `has_space` says of a file that has entries.
  pub has_space-room :
      (d : List ℕ) (w : WalFile) (s e : ℕ) (rs : List Entry)
      → Layout p w s e rs
      → has_space w (length d) ≡ true
      → e + 17 + length d < w.len_max
  unfolding has_space
  has_space-room d w s e rs l space =
      let n : unwrap_or w.data_end offset_logs ≡ e = ap (λ o. unwrap_or o offset_logs) l.stop in
      omega (arith, ltb→lt _ _ space, n)

  pub append_log-appended :
      (id : ℕ) (d : List ℕ) (w : WalFile) (s e : ℕ) (rs : List Entry)
      → Layout p w s e rs
      → w.mmap_mut ≡ true
      → e + 17 + length d < w.len_max
      → append_log p id d w ≡ (ok tt, appended id d (e + 1) w)
  append_log-appended id d w s e rs l m room =
      append_log-behind id d w s e l.start l.stop
      ∙ append_at-ok id d (e + 1) w m (omega (arith, room, l.sized))
          (omega (arith, l.sized, l.small))

  -- An append to a file that has entries, where `has_space` says that there is room, succeeds. It
  -- keeps the entries that the file holds and puts the new one behind them, and it sets `id_until`
  -- to the new id and leaves `id_from`.
  pub append_log-Layout :
      (id : ℕ) (d : List ℕ) (w : WalFile) (s e : ℕ) (rs : List Entry)
      → Layout p w s e rs
      → w.mmap_mut ≡ true
      → has_space w (length d) ≡ true
      → 0 < length d
      → id < 2 ^ 64
      → let (r, w') = append_log p id d w in
        (r ≡ ok tt)
        × (w'.id_from ≡ w.id_from)
        × (w'.id_until ≡ id)
        × Layout p w' s (e + 17 + length d) (rs ++ ((id, d) ∷ []))
  append_log-Layout id d w s e rs l m space pos lt =
      let room = has_space-room d w s e rs l space in
      rw (append_log-appended id d w s e rs l m room)
        (refl, refl, refl, appended-Layout id d w s e rs l room pos lt)

  pub read_bytes-ok :
      (w : WalFile) (from until : ℕ)
      → (w.mmap || w.mmap_mut) ≡ true
      → from ≤ until
      → until ≤ w.size
      → read_bytes w from until ≡ ok (read w.bytes from (until - from))
  unfolding read_bytes
  read_bytes-ok w from until m a b = ground (arith, m)

  record_at-ok :
      (w : WalFile) (off id : ℕ) (d head : List ℕ)
      → take 4 (drop 12 head) ≡ be32 (length d)
      → take 4 (drop 8 head) ≡ crc d
      → read w.bytes (off + 8 + 4 + 4) (length d) ≡ d
      → (w.mmap || w.mmap_mut) ≡ true
      → off + 16 + length d ≤ w.len_max
      → w.size ≡ w.len_max
      → w.len_max < 2 ^ 32
      → 0 < length d
      → record_at p off id head w ≡ ok (record { log_id = id; crc = crc d; payload = d })
  unfolding record_at bin_to_u32
  record_at-ok w off id d head hn hc hd m fits sized small pos =
      let a : u32 (off + 8 + 4 + 4) ≡ off + 8 + 4 + 4 = omega arith in
      let b : u32 (off + 8 + 4 + 4 + length d) ≡ off + 8 + 4 + 4 + length d = omega arith in
      let n : off + 8 + 4 + 4 + length d - (off + 8 + 4 + 4) ≡ length d = omega arith in
      let width : length (be32 (length d)) ≡ 4 = length-be32 (length d) in
      rw (
        hn,
        hc,
        le→leb 4 (length (be32 (length d))) (omega arith),
        take-all 4 (be32 (length d)) (omega arith),
        of_be32-be32 (length d) (omega arith),
        ==_lt 0 (length d) pos,
        ltb_ge w.len_max (off + 8 + 4 + 4 + length d) (omega arith),
        a,
        b,
        read_bytes-ok w (off + 8 + 4 + 4) (off + 8 + 4 + 4 + length d) m (omega arith)
            (omega arith),
        n,
        hd,
      )

  -- An entry that stands at `off`, inside the file, is what `read_record_unchecked` returns there: its
  -- id, its data, and the checksum of its data.
  pub read_record-Holds :
      (w : WalFile) (off id : ℕ) (d : List ℕ) (rs : List Entry)
      → Holds p w.bytes off ((id, d) ∷ rs)
      → (w.mmap || w.mmap_mut) ≡ true
      → off + 16 + length d ≤ w.len_max
      → w.size ≡ w.len_max
      → w.len_max < 2 ^ 32
      → 0 < length d
      → id < 2 ^ 64
      → read_record p off w ≡ ok (record { log_id = id; crc = crc d; payload = d })
  unfolding read_record bin_to_u64
  read_record-Holds w off id d rs h m fits sized small pos lt =
      let a : u32 (off + 8 + 4 + 4) ≡ off + 8 + 4 + 4 = omega arith in
      let n : off + 8 + 4 + 4 - off ≡ 16 = omega arith in
      let head : List ℕ = read w.bytes off 16 in
      let at12 : take 4 (drop 12 head) ≡ be32 (length d) =
        ap (take 4) (drop-read w.bytes off 12 16)
        ∙ take-read w.bytes (off + 12) 4 4 (omega arith)
        ∙ ap (λ o. read w.bytes o 4) (omega arith)
        ∙ h.2 in
      let at8 : take 4 (drop 8 head) ≡ crc d =
        ap (take 4) (drop-read w.bytes off 8 16)
        ∙ take-read w.bytes (off + 8) 4 8 (omega arith)
        ∙ h.1 in
      rw
        (
          ltb_ge w.len_max (off + 8 + 4 + 4) (omega arith),
          a,
          read_bytes-ok w off (off + 8 + 4 + 4) m (omega arith) (omega arith),
          n,
          take-read w.bytes off 8 16 (omega arith) ∙ h.0,
          le→leb 8 (length (be64 id)) (omega (arith, length-be64 id)),
          take-all 8 (be64 id) (omega (arith, length-be64 id)),
          of_be64-be64 id lt,
        )
        (record_at-ok w off id d head at12 at8 h.3 m fits sized small pos)
