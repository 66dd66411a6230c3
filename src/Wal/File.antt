-- ===== src/Wal/File.antt =====
-- One WAL file: `WalFile` of hiqlite-wal/src/wal.rs, and the helpers of utils.rs.
--
-- `mmap` and `mmap_mut` are shared mappings of one file, so they show the same bytes: the record
-- holds these bytes and the file's size once, and of each mapping whether it exists. The path is
-- left out, since the number of a file determines it. Arithmetic on `u32` wraps.
use hiqlite.Common.{
  ℕ, ◌+◌, ◌-◌, ◌*◌, ◌%◌, ◌^◌, Bool, true, false, ◌||◌, ◌&&◌, not, Option, none, some, List, [], ◌∷◌,
  ◌++◌, ltb, leb, ◌==◌, if◌then◌else◌, length, take, drop,
}
use hiqlite.Wal.Memory.{Image, read, put}
use hiqlite.Wal.Platform.{Platform}
use hiqlite.Wal.Outcome.{Outcome, ok, err, panic, out_of_fuel, ◌>>=◌, integrity, generic, io}

pub record WalFile : Type 0 where
  pub version : ℕ
  pub wal_no : ℕ
  pub id_from : ℕ
  pub id_until : ℕ
  pub data_start : Option ℕ
  pub data_end : Option ℕ
  pub len_max : ℕ
  pub mmap : Bool
  pub mmap_mut : Bool
  pub size : ℕ
  pub bytes : Image

pub record WalRecord : Type 0 where
  pub log_id : ℕ
  pub crc : List ℕ
  pub payload : List ℕ

abbrev pub u32 : ℕ → ℕ
u32 n = n % 2 ^ 32

abbrev pub u64 : ℕ → ℕ
u64 n = n % 2 ^ 64

-- `WalRecord::len`
abbrev pub record_len : WalRecord → ℕ
record_len r = u32 (16 + u32 (length r.payload))

-- `offset_logs`, for the only version there is.
abbrev pub offset_logs : ℕ
offset_logs = 7 + 1 + 8 + 8 + 4 + 4

abbrev pub unwrap_or : Option ℕ → ℕ → ℕ
unwrap_or none d = d
unwrap_or (some n) d = n

abbrev pub is_some : Option ℕ → Bool
is_some none = false
is_some (some n) = true

-- The bytes of "HQL_WAL".
abbrev pub magic_no_wal : List ℕ
magic_no_wal = b'H' ∷ b'Q' ∷ b'L' ∷ b'_' ∷ b'W' ∷ b'A' ∷ b'L' ∷ []

abbrev pub min_wal_size : ℕ
min_wal_size = 8 * 1024

unfoldable pub has_space : WalFile → ℕ → Bool
has_space w data_len =
    let next = unwrap_or w.data_end offset_logs in ltb (next + 1 + 8 + 4 + 4 + data_len) w.len_max

unfoldable pub space_left : WalFile → ℕ
space_left w = w.len_max - unwrap_or w.data_end offset_logs

-- `read_bytes`: a slice of the mapping.
unfoldable pub read_bytes : WalFile → ℕ → ℕ → Outcome (List ℕ)
read_bytes w from until =
    if w.mmap || w.mmap_mut
    then (if leb from until && leb until w.size
        then ok (read w.bytes from (until - from))
        else panic)
    else err generic

-- `write_all` into `&mut map[from..until]`: the slice must lie in the mapping. Of data that is longer
-- than the slice only a part is written.
abbrev pub Written : Type 0
Written = Outcome (Unit {0}) × WalFile

unfoldable pub write_all : WalFile → ℕ → ℕ → List ℕ → Written
write_all w from until payload =
    if not w.mmap_mut
    then (panic, w)
    else if leb from until && leb until w.size
    then (
      if leb (length payload) (until - from) then ok tt else err io,
      record w { bytes = put w.bytes from (take (until - from) payload) },
    )
    else (panic, w)

-- The rest of a block, after a write that was complete.
infixl 5 ◌then_write◌
abbrev pub ◌then_write◌ : Written → (WalFile → Written) → Written
(ok u, w) then_write f = f w
(other, w) then_write f = (other, w)

unfoldable pub new : ℕ → ℕ → ℕ → ℕ → Outcome WalFile
new wal_no id_from id_until wal_size =
    if ltb wal_size min_wal_size
    then err generic
    else ok (record {
      version = 1;
      wal_no = wal_no;
      id_from = id_from;
      id_until = id_until;
      data_start = none;
      data_end = none;
      len_max = wal_size;
      mmap = false;
      mmap_mut = false;
      size = 0;
      bytes = λ i. 0;
    })

-- `mmap_mut` and `mmap` of an existing file, and their drop.
abbrev pub map_mut : WalFile → WalFile
map_mut w = record w { mmap_mut = true }

abbrev pub map_read : WalFile → WalFile
map_read w = record w { mmap = true }

unfoldable pub write_header : Outcome (List ℕ) → WalFile → Written
write_header (ok buf) w = write_all w 0 (length buf) buf
write_header (err e) w = (err e, w)
write_header panic w = (panic, w)
write_header out_of_fuel w = (out_of_fuel, w)

module _ (p : Platform) where
  open p use {be64, of_be64, be32, of_be32, crc}

  unfoldable pub u64_to_bin : ℕ → List ℕ → List ℕ
  u64_to_bin id buf = buf ++ be64 id

  unfoldable pub u32_to_bin : ℕ → List ℕ → List ℕ
  u32_to_bin id buf = buf ++ be32 id

  unfoldable pub bin_to_u64 : List ℕ → Outcome ℕ
  bin_to_u64 buf = if leb 8 (length buf) then ok (of_be64 (take 8 buf)) else panic

  unfoldable pub bin_to_u32 : List ℕ → Outcome ℕ
  bin_to_u32 buf = if leb 4 (length buf) then ok (of_be32 (take 4 buf)) else panic

  unfoldable pub build_header : WalFile → Outcome (List ℕ)
  unfolding u64_to_bin u32_to_bin
  build_header w =
      if w.version == 1
      then ok (
          u32_to_bin (unwrap_or w.data_end 0) (
            u32_to_bin (unwrap_or w.data_start 0)
              (u64_to_bin w.id_until (u64_to_bin w.id_from (magic_no_wal ++ (1 ∷ []))))))
      else panic

  unfoldable pub update_header : WalFile → Written
  unfolding write_header
  update_header w = write_header (build_header w) w

  -- The stores of `append_log` at `start`: the checksum, the length, the data, and the id last.
  unfoldable pub store_record : ℕ → List ℕ → ℕ → WalFile → Written
  unfolding u32_to_bin u64_to_bin
  store_record id payload start w =
      write_all w (start + 8) (start + 8 + 8) (crc payload)
      then_write (λ w₁.
          write_all w₁ (start + 8 + 4) (start + 8 + 4 + 4) (u32_to_bin (u32 (length payload)) []))
      then_write (λ w₂.
          if leb (start + 8 + 4 + 4) w₂.size
          then write_all w₂ (start + 8 + 4 + 4) w₂.size payload
          else (panic, w₂))
      then_write (λ w₃. write_all w₃ start (start + 8) (u64_to_bin id []))

  -- `append_log` behind its choice of the start: the stores, the fields, and a new file's header.
  unfoldable pub append_at : ℕ → List ℕ → ℕ → Bool → WalFile → Written
  append_at id payload start first w = store_record id payload start w then_write (λ w₁.
      let w₂ = record w₁ {
        id_until = id;
        data_end = some (u32 (start + 8 + 4 + 4 + length payload));
      } in
      if first then update_header w₂ else (ok tt, w₂))

  unfoldable pub append_behind : ℕ → List ℕ → Option ℕ → WalFile → Written
  append_behind id payload none w = (panic, w)
  append_behind id payload (some data_end) w = append_at id payload (data_end + 1) false w

  unfoldable pub append_to : ℕ → List ℕ → Option ℕ → WalFile → Written
  unfolding append_behind
  append_to id payload none w =
      append_at id payload offset_logs true
        (record w { id_from = id; data_start = some (u32 offset_logs) })
  append_to id payload (some start) w = append_behind id payload w.data_end w

  unfoldable pub append_log : ℕ → List ℕ → WalFile → Written
  unfolding append_to
  append_log id payload w = append_to id payload w.data_start w

  unfoldable pub record_at : ℕ → ℕ → List ℕ → WalFile → Outcome WalRecord
  record_at offset log_id head w = do
    data_len ← bin_to_u32 (take 4 (drop 12 head))
    if data_len == 0
        then err integrity
        else if ltb w.len_max (offset + 8 + 4 + 4 + data_len)
        then err integrity
        else do
          payload ←
              read_bytes w (u32 (offset + 8 + 4 + 4)) (u32 (u32 (offset + 8 + 4 + 4) + data_len))
          ok (record { log_id = log_id; crc = take 4 (drop 8 head); payload = payload })

  unfoldable pub read_record : ℕ → WalFile → Outcome WalRecord
  read_record offset w = if ltb w.len_max (offset + 8 + 4 + 4) then err integrity else do
    head ← read_bytes w offset (u32 (offset + 8 + 4 + 4))
    log_id ← bin_to_u64 (take 8 head)
    record_at offset log_id head w
