-- ===== src/External/Consistent.antt =====
-- The invariant of external_state_machine.rs: what is kept in memory is what would be loaded, and it
-- passes the validation that the open of a file makes.
use hiqlite.Common.{
  ℕ, ◌+◌, ◌-◌, ◌^◌, ◌%◌, ◌<◌, ◌≤◌, ◌≡◌, refl, true, Option, none, some, List, [], ◌∷◌, map, arith,
  le→leb, length, ◌==◌,
}
use hiqlite.External.Data.{Application, ok, ◌>>=◌, present, missing_metadata, Applied, StoredState}
use hiqlite.External.Tables.{ReceiptRow, Database, load_state, load_row, MetadataRow}
use hiqlite.External.Statements.{floor_at}
use hiqlite.External.Check.{
  check_sequences, check_newest, check_suffix, check_state, validate_receipts,
}
use hiqlite.External.Rows.{
  consecutive, IsChecked, check_sequences-consecutive, check_sequences-IsChecked,
  check_sequences-ok,
}
use hiqlite.External.Reload.{load_row-bounds}

pub record IsConsistent {a : Application} (db : Database a) (s : StoredState a) : Type 0 where
  pub loaded : load_state a db ≡ ok s
  pub validated : validate_receipts a db s ≡ ok tt
  pub codec : s.receipt_codec ≡ a.receipt_codec

eq→== : (m n : ℕ) → m ≡ n → (m == n) ≡ true
eq→== m n e = ground arith

-- What has been validated, part by part.
pub record IsSuffix {a : Application} (db : Database a) (s : StoredState a) (last : Applied a)
    (floor : ℕ) : Type 0 where
  pub least : floor ≡ floor_at s last.commit.sequence
  pub below : floor ≤ last.commit.sequence
  pub count : length db.receipts ≡ last.commit.sequence - floor + 1
  pub rows : consecutive floor db.receipts ≡ true
  pub checked : (m : ℕ) → floor ≤ m → m ≤ last.commit.sequence → IsChecked a db s m

module _ {a : Application} where
  pub check_suffix-IsSuffix :
      (db : Database a) (s : StoredState a) (last : Applied a) (floor : ℕ)
      → 1 ≤ s.receipt_retention
      → s.receipt_retention ≤ 1000000
      → check_suffix a db s last floor ≡ ok tt
      → IsSuffix db s last floor
  unfolding check_suffix
  check_suffix-IsSuffix db s last floor r₁ r₂ h =
      let l : floor ≡ floor_at s last.commit.sequence = ground (arith, h) in
      let b : floor ≤ last.commit.sequence = ground (arith, h) in
      let n : length db.receipts ≡ last.commit.sequence - floor + 1 =
        unfold floor_at in ground (arith, h) in
      let seqs : check_sequences a db s floor (map ReceiptRow.sequence db.receipts) ≡ ok tt =
        ground (arith, h) in
      record {
        least = l;
        below = b;
        count = n;
        rows = check_sequences-consecutive a db s floor db.receipts seqs;
        checked = λ m lo hi.
            check_sequences-IsChecked a db s floor m db.receipts seqs lo (omega (arith, n, b));
      }

  pub IsSuffix-check_suffix :
      (db : Database a) (s : StoredState a) (last : Applied a) (floor : ℕ)
      → 1 ≤ s.receipt_retention
      → s.receipt_retention ≤ 1000000
      → IsSuffix db s last floor
      → check_newest a db s last ≡ ok tt
      → check_suffix a db s last floor ≡ ok tt
  unfolding check_suffix
  IsSuffix-check_suffix db s last floor r₁ r₂ v newest =
      let width : last.commit.sequence - floor + 1 ≤ s.receipt_retention =
        unfold floor_at in omega (arith, v.least, r₁) in
      let small : (last.commit.sequence - floor + 1) % 2 ^ 64 ≡ last.commit.sequence - floor + 1 =
        omega (arith, width, r₂) in
      let seqs =
        check_sequences-ok a db s floor db.receipts v.rows
          (λ m lo hi. v.checked m lo (omega (arith, v.count, v.below))) in
      rw (small, le→leb _ _ v.below, le→leb _ _ width, eq→== _ _ v.least, eq→== _ _ v.count, seqs)
        newest

empty-consecutive : (rows : List ReceiptRow) (n : ℕ) → length rows ≡ 0 → consecutive n rows ≡ true
unfolding consecutive
empty-consecutive [] n h = refl
empty-consecutive (row ∷ rows) n h = absurd (omega arith)

-- The sequence of the next commit.
abbrev pub next_of : {a : Application} → StoredState a → Option (Applied a) → ℕ
next_of s none = s.initial_sequence
next_of s (some last) = last.commit.sequence + 1

unfoldable pub next_sequence : {a : Application} → StoredState a → ℕ
next_sequence s = next_of s s.last_applied

-- The rows before the next commit, from the sequence `n` on.
pub record IsRetained {a : Application} (db : Database a) (s : StoredState a) (next n : ℕ)
    : Type 0 where
  pub rows : consecutive n db.receipts ≡ true
  pub count : n + length db.receipts ≡ next
  pub least : n ≤ floor_at s next
  pub start : s.initial_sequence ≤ next
  pub checked : (m : ℕ) → n ≤ m → m < next → IsChecked a db s m

module _ {a : Application} where
  retained-of :
      (db : Database a) (s : StoredState a) (last : Option (Applied a)) (floor : Option ℕ)
      → 1 ≤ s.receipt_retention
      → s.receipt_retention ≤ 1000000
      → check_state a db s last floor ≡ ok tt
      → (n : ℕ) × IsRetained db s (next_of s last) n
  retained-of db s none none r₁ r₂ h =
      let n : length db.receipts ≡ 0 = ground (arith, h) in
      (
        s.initial_sequence,
        record {
          rows = empty-consecutive db.receipts s.initial_sequence n;
          count = omega (arith, n);
          least = unfold floor_at in omega arith;
          start = omega arith;
          checked = λ m lo hi. absurd (omega arith);
        },
      )
  retained-of db s (some last) (some floor) r₁ r₂ h =
      let v = check_suffix-IsSuffix db s last floor r₁ r₂ h in
      (
        floor,
        record {
          rows = v.rows;
          count = omega (arith, v.count, v.below);
          least = unfold floor_at in omega (arith, v.least);
          start = unfold floor_at in omega (arith, v.least, v.below);
          checked = λ m lo hi. v.checked m lo (omega arith);
        },
      )
  retained-of db s none (some floor) r₁ r₂ h = absurd cc
  retained-of db s (some last) none r₁ r₂ h = absurd cc

  pub loaded-row :
      (db : Database a) (s : StoredState a)
      → load_state a db ≡ ok s
      → (row : MetadataRow) × (db.metadata ≡ some row) × (load_row a row ≡ ok s)
  unfolding load_state
  loaded-row db s h = of db.metadata h
    where
      of :
          (o : Option MetadataRow)
          → (present o missing_metadata >>= load_row a) ≡ ok s
          → (row : MetadataRow) × (o ≡ some row) × (load_row a row ≡ ok s)
      of none h = absurd cc
      of (some row) h = (row, refl, h)

  pub bounds :
      (db : Database a) (s : StoredState a)
      → load_state a db ≡ ok s
      → (s.initial_sequence < 2 ^ 64)
        × (1 ≤ s.receipt_retention)
        × (s.receipt_retention ≤ 1000000)
        × (1 ≤ s.max_receipt_bytes)
  bounds db s h = let (row, _, e) = loaded-row db s h in load_row-bounds row s e

  pub retained :
      (db : Database a) (s : StoredState a)
      → IsConsistent db s
      → (n : ℕ) × IsRetained db s (next_sequence s) n
  unfolding next_sequence
  retained db s v =
      let (_, r₁, r₂, _) = bounds db s v.loaded in
      retained-of db s s.last_applied s.receipt_floor r₁ r₂
        (unfold validate_receipts in v.validated)
