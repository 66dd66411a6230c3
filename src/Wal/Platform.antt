-- ===== src/Wal/Platform.antt =====
-- What the write-ahead log takes from other crates: big-endian numbers and the checksum.
use hiqlite.Common.{ℕ, ◌^◌, ◌<◌, ◌≡◌, List, length, replicate}

-- `byteorder`'s `write_u64::<BigEndian>` and its kin, and `crc`'s checksum as four bytes.
pub record Platform : Type 0 where
  pub be64 : ℕ → List ℕ
  pub of_be64 : List ℕ → ℕ
  pub be32 : ℕ → List ℕ
  pub of_be32 : List ℕ → ℕ
  pub crc : List ℕ → List ℕ
  -- A number fills its width, and is read back. Four or eight zero bytes are the number 0.
  pub length-be64 : (x : ℕ) → length (be64 x) ≡ 8
  pub length-be32 : (x : ℕ) → length (be32 x) ≡ 4
  pub of_be64-be64 : (x : ℕ) → x < 2 ^ 64 → of_be64 (be64 x) ≡ x
  pub of_be32-be32 : (x : ℕ) → x < 2 ^ 32 → of_be32 (be32 x) ≡ x
  pub of_be64-zeros : of_be64 (replicate 8 0) ≡ 0
  pub of_be32-zeros : of_be32 (replicate 4 0) ≡ 0
  pub length-crc : (bytes : List ℕ) → length (crc bytes) ≡ 4
