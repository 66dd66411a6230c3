-- ===== src/Wal/Outcome.antt =====
-- What a call of hiqlite-wal ends in: a value, an error of hiqlite-wal/src/error.rs without its
-- message, or a panic (a failed `unwrap`, a slice out of range, `unreachable!`).

pub data Error : Type 0 where
  decode generic encode file_corrupted integrity internal : Error
  invalid_path invalid_file_name io locked parse wal_size_exceeded : Error

pub data Outcome {ℓ} (A : Type ℓ) : Type ℓ where
  ok : A → Outcome A
  err : Error → Outcome A
  panic : Outcome A
  -- The fuel of a loop's model is used up; the theorems on termination exclude it.
  out_of_fuel : Outcome A

infixl 5 ◌>>=◌
abbrev pub ◌>>=◌ {ℓ κ} : {A : Type ℓ} {B : Type κ} → Outcome A → (A → Outcome B) → Outcome B
ok a >>= f = f a
err e >>= f = err e
panic >>= f = panic
out_of_fuel >>= f = out_of_fuel
