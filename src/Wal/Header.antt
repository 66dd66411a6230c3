-- ===== src/Wal/Header.antt =====
-- The header of a WAL file: `update_header`, and `read_from_file` behind its look at the file's name.
use hiqlite.Common.{
  ℕ, ◌^◌, ◌≤◌, ◌<◌, ◌≡◌, ◌∙◌, refl, ap, sym, Bool, true, false, ◌&&◌, not, Option, none, some, List,
  [], ◌∷◌, ◌++◌, arith, ltb, ◌==◌, if◌then◌else◌, length, take, drop, le→leb, take-all,
  length-append, drop-drop, append_assoc, take-append_len, drop-append_len, ltb_ge,
}
use hiqlite.Wal.Memory.{Image, read, put, read-put_width}
use hiqlite.Wal.Platform.{Platform}
use hiqlite.Wal.Outcome.{Outcome, ok, err, ◌>>=◌, file_corrupted, io}
use hiqlite.Wal.File.{
  WalFile, u32, unwrap_or, magic_no_wal, build_header, write_header, update_header, bin_to_u64,
  bin_to_u32,
}
use hiqlite.Wal.Layout.{write_all-ok}

-- Equality of byte slices.
unfoldable pub bytes_eq : List ℕ → List ℕ → Bool
bytes_eq [] [] = true
bytes_eq (x ∷ xs) (y ∷ ys) = x == y && bytes_eq xs ys
bytes_eq _ _ = false

pub bytes_eq_refl : (xs : List ℕ) → bytes_eq xs xs ≡ true
unfolding bytes_eq
bytes_eq_refl [] = refl
bytes_eq_refl (x ∷ xs) = ground (arith, bytes_eq_refl xs)

-- 0 stands for "no data" in a header.
abbrev pub some_of : ℕ → Option ℕ
some_of n = if n == 0 then none else some n

module _ (p : Platform) where
  open p use {be64, be32, length-be64, length-be32, of_be64-be64, of_be32-be32}

  -- `read_from_file` for the file with number `wal_no`, of `size` bytes.
  unfoldable pub read_from_file : ℕ → ℕ → Image → Outcome WalFile
  read_from_file wal_no size bytes =
      if ltb size 32
      then err io
      else (let buf = read bytes 0 32 in
          if not (bytes_eq (take 7 buf) magic_no_wal)
          then err file_corrupted
          else if not (bytes_eq (take 1 (drop 7 buf)) (1 ∷ []))
          then err file_corrupted
          else do
            id_from ← bin_to_u64 p (take 8 (drop 8 buf))
            id_until ← bin_to_u64 p (take 8 (drop 16 buf))
            data_start ← bin_to_u32 p (take 4 (drop 24 buf))
            data_end ← bin_to_u32 p (take 4 (drop 28 buf))
            ok (record {
              version = 1;
              wal_no = wal_no;
              id_from = id_from;
              id_until = id_until;
              data_start = some_of data_start;
              data_end = some_of data_end;
              len_max = u32 size;
              mmap = false;
              mmap_mut = false;
              size = size;
              bytes = bytes;
            }))

  -- The 32 bytes that `build_header` writes.
  abbrev pub header : WalFile → List ℕ
  header w =
      (((magic_no_wal ++ (1 ∷ [])) ++ be64 w.id_from) ++ be64 w.id_until)
      ++ be32 (unwrap_or w.data_start 0)
      ++ be32 (unwrap_or w.data_end 0)

  pub length-header : (w : WalFile) → length (header w) ≡ 32
  length-header w =
      let a =
        length-append
          (((magic_no_wal ++ (1 ∷ [])) ++ be64 w.id_from)
            ++ be64 w.id_until
            ++ be32 (unwrap_or w.data_start 0))
          (be32 (unwrap_or w.data_end 0)) in
      let b =
        length-append (((magic_no_wal ++ (1 ∷ [])) ++ be64 w.id_from) ++ be64 w.id_until)
          (be32 (unwrap_or w.data_start 0)) in
      let c = length-append ((magic_no_wal ++ (1 ∷ [])) ++ be64 w.id_from) (be64 w.id_until) in
      let d = length-append (magic_no_wal ++ (1 ∷ [])) (be64 w.id_from) in
      omega (
        arith,
        a,
        b,
        c,
        d,
        length-be64 w.id_from,
        length-be64 w.id_until,
        length-be32 (unwrap_or w.data_start 0),
        length-be32 (unwrap_or w.data_end 0),
      )

  pub build_header-ok : (w : WalFile) → w.version ≡ 1 → build_header p w ≡ ok (header w)
  unfolding build_header
  build_header-ok w v = ground (arith, v)

  -- `update_header` of a file with a writable mapping overwrites the header and nothing else.
  pub update_header-ok :
      (w : WalFile)
      → w.version ≡ 1
      → w.mmap_mut ≡ true
      → 32 ≤ w.size
      → update_header p w ≡ (ok tt, record w { bytes = put w.bytes 0 (header w) })
  unfolding update_header
  update_header-ok w v m h =
      ap (λ o. write_header o w) (build_header-ok w v)
      ∙ write_all-ok p w 0 (length (header w)) (header w) m (omega arith)
          (omega (arith, length-header w))

  -- The four numbers of a header, where they stand.
  module _ (x y z v : List ℕ) (hx : length x ≡ 8) (hy : length y ≡ 8) (hz : length z ≡ 4)
      (hv : length v ≡ 4) where
    abbrev numbers : List ℕ
    numbers = ((x ++ y) ++ z) ++ v

    regroup : numbers ≡ x ++ (y ++ (z ++ v))
    regroup = simp append_assoc

    first_of_header : take 8 numbers ≡ x
    first_of_header = ap (take 8) regroup ∙ take-append_len 8 x _ hx

    second_of_header : take 8 (drop 8 numbers) ≡ y
    second_of_header =
        ap (λ l. take 8 (drop 8 l)) regroup
        ∙ ap (take 8) (drop-append_len 8 x _ hx)
        ∙ take-append_len 8 y _ hy

    behind_ids : drop 16 numbers ≡ z ++ v
    behind_ids =
        ap (drop 16) regroup
        ∙ sym (drop-drop 8 8 (x ++ (y ++ (z ++ v))))
        ∙ ap (drop 8) (drop-append_len 8 x _ hx)
        ∙ drop-append_len 8 y _ hy

    third_of_header : take 4 (drop 16 numbers) ≡ z
    third_of_header = ap (take 4) behind_ids ∙ take-append_len 4 z v hz

    fourth_of_header : take 4 (drop 20 numbers) ≡ v
    fourth_of_header =
        ap (take 4)
          (sym (drop-drop 4 16 numbers) ∙ ap (drop 4) behind_ids ∙ drop-append_len 4 z v hz)
        ∙ take-all 4 v (omega arith)

  number64 : (x : ℕ) (bs : List ℕ) → bs ≡ be64 x → x < 2 ^ 64 → bin_to_u64 p bs ≡ ok x
  unfolding bin_to_u64
  number64 x bs e lt = rw (
    e,
    le→leb 8 (length (be64 x)) (omega (arith, length-be64 x)),
    take-all 8 (be64 x) (omega (arith, length-be64 x)),
    of_be64-be64 x lt,
  )

  number32 : (x : ℕ) (bs : List ℕ) → bs ≡ be32 x → x < 2 ^ 32 → bin_to_u32 p bs ≡ ok x
  unfolding bin_to_u32
  number32 x bs e lt = rw (
    e,
    le→leb 4 (length (be32 x)) (omega (arith, length-be32 x)),
    take-all 4 (be32 x) (omega (arith, length-be32 x)),
    of_be32-be32 x lt,
  )

  -- What `read_from_file` makes of a file whose header is that of `w`: the fields of `w` that a header
  -- holds, where the offset 0 stands for none.
  abbrev pub reopened : ℕ → ℕ → WalFile → Image → WalFile
  reopened wal_no size w bytes = record {
    version = 1;
    wal_no = wal_no;
    id_from = w.id_from;
    id_until = w.id_until;
    data_start = some_of (unwrap_or w.data_start 0);
    data_end = some_of (unwrap_or w.data_end 0);
    len_max = u32 size;
    mmap = false;
    mmap_mut = false;
    size = size;
    bytes = bytes;
  }

  -- The fields fit their widths.
  pub record Fits (w : WalFile) : Type 0 where
    pub id_from : w.id_from < 2 ^ 64
    pub id_until : w.id_until < 2 ^ 64
    pub data_start : unwrap_or w.data_start 0 < 2 ^ 32
    pub data_end : unwrap_or w.data_end 0 < 2 ^ 32

  read_from_file-header :
      (wal_no size : ℕ) (w : WalFile) (bytes : Image)
      → Fits w
      → 32 ≤ size
      → read bytes 0 32 ≡ header w
      → read_from_file wal_no size bytes ≡ ok (reopened wal_no size w bytes)
  unfolding read_from_file bytes_eq
  read_from_file-header wal_no size w bytes f h e =
      let x = be64 w.id_from in
      let y = be64 w.id_until in
      let z = be32 (unwrap_or w.data_start 0) in
      let v = be32 (unwrap_or w.data_end 0) in
      let hx = length-be64 w.id_from in
      let hy = length-be64 w.id_until in
      let hz = length-be32 (unwrap_or w.data_start 0) in
      let hv = length-be32 (unwrap_or w.data_end 0) in
      rw (
        ltb_ge size 32 h,
        e,
        number64 w.id_from _ (first_of_header x y z v hx hy hz hv) f.id_from,
        number64 w.id_until _ (second_of_header x y z v hx hy hz hv) f.id_until,
        number32 (unwrap_or w.data_start 0) _ (third_of_header x y z v hx hy hz hv) f.data_start,
        number32 (unwrap_or w.data_end 0) _ (fourth_of_header x y z v hx hy hz hv) f.data_end,
      )

  -- What `update_header` writes, `read_from_file` reads: the ids, and the offsets of the data with 0
  -- for none, of a file whose fields fit their widths and whose mapping is writable.
  pub read_from_file-update_header :
      (wal_no : ℕ) (w : WalFile)
      → Fits w
      → w.version ≡ 1
      → w.mmap_mut ≡ true
      → 32 ≤ w.size
      → let w' = (update_header p w).1 in
        read_from_file wal_no w.size w'.bytes ≡ ok (reopened wal_no w.size w w'.bytes)
  read_from_file-update_header wal_no w f v m h = rw (update_header-ok w v m h) (
      read_from_file-header wal_no w.size w (put w.bytes 0 (header w)) f h
        (read-put_width w.bytes 0 (header w) (length-header w)))
