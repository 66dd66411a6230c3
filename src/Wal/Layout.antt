-- ===== src/Wal/Layout.antt =====
-- The records of a WAL file as a list, and what `append_log` of wal.rs adds to it.
use hiqlite.Common.{
  ℕ, ◌+◌, ◌-◌, ◌^◌, ◌≤◌, ◌<◌, ◌≡◌, ◌∙◌, refl, true, some, List, [], ◌∷◌, ◌++◌, arith, length,
  take-all, le→leb,
}
use hiqlite.Wal.Memory.{
  Image, read, put, read-put_self, read-put_width, read-put_before, read-put_after,
}
use hiqlite.Wal.Platform.{Platform}
use hiqlite.Wal.Outcome.{ok}
use hiqlite.Wal.File.{WalFile, u32, offset_logs, write_all, store_record, u32_to_bin, u64_to_bin}

-- A log entry: its id and its data.
abbrev pub Entry : Type 0
Entry = ℕ × List ℕ

-- The offset behind the entries that start at `off`: sixteen bytes of head, the data, and one byte
-- that nothing is written to.
unfoldable pub end_of : ℕ → List Entry → ℕ
end_of off [] = off
end_of off ((id, d) ∷ rs) = end_of (off + 17 + length d) rs

-- Data is not empty, and ids are `u64`.
abbrev pub AreEntries : List Entry → Type 0
AreEntries [] = Unit
AreEntries ((id, d) ∷ rs) = (0 < length d) × (id < 2 ^ 64) × AreEntries rs

pub le-end_of : (off : ℕ) (rs : List Entry) → off ≤ end_of off rs
unfolding end_of
le-end_of off [] = omega arith
le-end_of off ((id, d) ∷ rs) = omega (arith, le-end_of (off + 17 + length d) rs)

pub end_of-append :
    (off id : ℕ) (d : List ℕ) (rs : List Entry)
    → end_of off (rs ++ ((id, d) ∷ [])) ≡ end_of off rs + 17 + length d
unfolding end_of
end_of-append off id d [] = refl
end_of-append off id d ((i, c) ∷ rs) = end_of-append (off + 17 + length c) id d rs

module _ (p : Platform) where
  open p use {be64, be32, crc, length-be64, length-be32, length-crc}

  -- The entries stand in the image, one behind the other, from `off` on.
  abbrev pub Holds : Image → ℕ → List Entry → Type 0
  Holds img off [] = Unit
  Holds img off ((id, d) ∷ rs) =
      (read img off 8 ≡ be64 id)
      × (read img (off + 8) 4 ≡ crc d)
      × (read img (off + 8 + 4) 4 ≡ be32 (length d))
      × (read img (off + 8 + 4 + 4) (length d) ≡ d)
      × Holds img (off + 17 + length d) rs

  -- The file holds the entries from `s` up to and with the offset `e`.
  pub record Layout (w : WalFile) (s e : ℕ) (rs : List Entry) : Type 0 where
    pub start : w.data_start ≡ some s
    pub stop : w.data_end ≡ some e
    pub behind_header : offset_logs ≤ s
    pub ends : e + 1 ≡ end_of s rs
    pub fits : e < w.len_max
    pub sized : w.size ≡ w.len_max
    pub small : w.len_max < 2 ^ 32
    pub entries : AreEntries rs
    pub holds : Holds w.bytes s rs

  -- The image after the four stores of a record at `start`.
  abbrev pub stored : ℕ → List ℕ → ℕ → Image → Image
  stored id d start img =
      put
        (put (put (put img (start + 8) (crc d)) (start + 8 + 4) (be32 (length d)))
          (start + 8 + 4 + 4) d)
        start (be64 id)

  module _ (id start : ℕ) (d : List ℕ) (img : Image) where
    pub stored-before :
        (from n : ℕ) → from + n ≤ start → read (stored id d start img) from n ≡ read img from n
    stored-before from n h =
        read-put_before _ start (be64 id) from n h
        ∙ read-put_before _ (start + 8 + 4 + 4) d from n (omega arith)
        ∙ read-put_before _ (start + 8 + 4) (be32 (length d)) from n (omega arith)
        ∙ read-put_before img (start + 8) (crc d) from n (omega arith)

    after-id :
        (from n : ℕ)
        → start + 8 ≤ from
        → read (stored id d start img) from n
          ≡ read
              (put
                (put (put img (start + 8) (crc d)) (start + 8 + 4) (be32 (length d)))
                (start + 8 + 4 + 4)
                d)
              from
              n
    after-id from n h = read-put_after _ start (be64 id) from n (omega (arith, length-be64 id))

    pub stored-holds : Holds (stored id d start img) start ((id, d) ∷ [])
    stored-holds = (
      read-put_width _ start (be64 id) (length-be64 id),
      after-id (start + 8) 4 (omega arith)
          ∙ read-put_before _ (start + 8 + 4 + 4) d (start + 8) 4 (omega arith)
          ∙ read-put_before _ (start + 8 + 4) (be32 (length d)) (start + 8) 4 (omega arith)
          ∙ read-put_width img (start + 8) (crc d) (length-crc d),
      after-id (start + 8 + 4) 4 (omega arith)
          ∙ read-put_before _ (start + 8 + 4 + 4) d (start + 8 + 4) 4 (omega arith)
          ∙ read-put_width _ (start + 8 + 4) (be32 (length d)) (length-be32 (length d)),
      after-id (start + 8 + 4 + 4) (length d) (omega arith) ∙ read-put_self _ (start + 8 + 4 + 4) d,
      tt,
    )

  pub Holds-eq :
      (img img' : Image) (off : ℕ) (rs : List Entry)
      → ((from n : ℕ) → off ≤ from → from + n ≤ end_of off rs → read img' from n ≡ read img from n)
      → Holds img off rs
      → Holds img' off rs
  unfolding end_of
  Holds-eq img img' off [] same h = tt
  Holds-eq img img' off ((id, d) ∷ rs) same h = (
    same off 8 (omega arith) (omega (arith, behind)) ∙ h.0,
    same (off + 8) 4 (omega arith) (omega (arith, behind)) ∙ h.1,
    same (off + 8 + 4) 4 (omega arith) (omega (arith, behind)) ∙ h.2,
    same (off + 8 + 4 + 4) (length d) (omega arith) (omega (arith, behind)) ∙ h.3,
    Holds-eq img img' (off + 17 + length d) rs (λ from n ge le. same from n (omega arith) le) h.4,
  )
    where
      behind : off + 17 + length d ≤ end_of (off + 17 + length d) rs
      behind = le-end_of (off + 17 + length d) rs

  pub Holds-append :
      (img : Image) (off id : ℕ) (d : List ℕ) (rs : List Entry)
      → Holds img off rs
      → Holds img (end_of off rs) ((id, d) ∷ [])
      → Holds img off (rs ++ ((id, d) ∷ []))
  unfolding end_of
  Holds-append img off id d [] h t = t
  Holds-append img off id d ((i, c) ∷ rs) h t =
      (h.0, h.1, h.2, h.3, Holds-append img (off + 17 + length c) id d rs h.4 t)

  pub AreEntries-append :
      (id : ℕ) (d : List ℕ) (rs : List Entry)
      → AreEntries rs
      → 0 < length d
      → id < 2 ^ 64
      → AreEntries (rs ++ ((id, d) ∷ []))
  AreEntries-append id d [] h pos lt = (pos, lt, tt)
  AreEntries-append id d ((i, c) ∷ rs) h pos lt = (h.0, h.1, AreEntries-append id d rs h.2 pos lt)

  pub write_all-ok :
      (w : WalFile) (from until : ℕ) (bs : List ℕ)
      → w.mmap_mut ≡ true
      → from + length bs ≤ until
      → until ≤ w.size
      → write_all w from until bs ≡ (ok tt, record w { bytes = put w.bytes from bs })
  unfolding write_all
  write_all-ok w from until bs m a b = ground (arith, take-all (until - from) bs)

  pub store_record-ok :
      (id : ℕ) (d : List ℕ) (start : ℕ) (w : WalFile)
      → w.mmap_mut ≡ true
      → start + 16 + length d ≤ w.size
      → w.size < 2 ^ 32
      → store_record p id d start w ≡ (ok tt, record w { bytes = stored id d start w.bytes })
  unfolding store_record u32_to_bin u64_to_bin
  store_record-ok id d start w m fits small =
      let w₁ : WalFile = record w { bytes = put w.bytes (start + 8) (crc d) } in
      let w₂ : WalFile = record w₁ { bytes = put w₁.bytes (start + 8 + 4) (be32 (length d)) } in
      let w₃ : WalFile = record w₂ { bytes = put w₂.bytes (start + 8 + 4 + 4) d } in
      let n : u32 (length d) ≡ length d = omega arith in
      rw (
        write_all-ok w (start + 8) (start + 8 + 8) (crc d) m (omega (arith, length-crc d))
            (omega arith),
        n,
        write_all-ok w₁ (start + 8 + 4) (start + 8 + 4 + 4) (be32 (length d)) m
            (omega (arith, length-be32 (length d))) (omega arith),
        le→leb (start + 8 + 4 + 4) w.size (omega arith),
        write_all-ok w₂ (start + 8 + 4 + 4) w.size d m (omega arith) (omega arith),
        write_all-ok w₃ start (start + 8) (be64 id) m (omega (arith, length-be64 id)) (omega arith),
      )
