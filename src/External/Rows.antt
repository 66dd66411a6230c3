-- ===== src/External/Rows.antt =====
-- The table of receipts under the statements of external_state_machine.rs, and its validation.
use hiqlite.Common.{
  ℕ, ◌+◌, ◌-◌, ◌≤◌, ◌<◌, ◌≡◌, refl, Bool, Bool-cases, inl, inr, true, false, ◌&&◌, none, some, List,
  [], ◌∷◌, ◌++◌, map, arith, ◌==◌, length,
}
use hiqlite.External.Data.{
  Application, ExternalError, Fallible, ok, err, ◌>>=◌, ◌>>◌, guard, present, StoredState,
  invalid_metadata,
}
use hiqlite.External.Tables.{ReceiptRow, Database}
use hiqlite.External.Statements.{select, insert_row, delete_below, load_receipt}
use hiqlite.External.Check.{check_receipt, check_sequences}

-- A success of a chain is a success of its parts.
pub guard-ok :
    {B : Type 0} (b : Bool) (e : ExternalError) (m : Fallible B) {x : B}
    → (guard b e >> m) ≡ ok x
    → (b ≡ true) × (m ≡ ok x)
guard-ok true e m h = (refl, h)
guard-ok false e m h = cc

pub >>=-ok :
    {A B : Type 0} (m : Fallible A) {f : A → Fallible B} {x : B}
    → (m >>= f) ≡ ok x
    → (y : A) × (m ≡ ok y) × (f y ≡ ok x)
>>=-ok (ok y) h = (y, refl, h)
>>=-ok (err e) h = cc

-- The rows of the sequences from `n` on.
unfoldable pub consecutive : ℕ → List ReceiptRow → Bool
consecutive n [] = true
consecutive n (row ∷ rows) = row.sequence == n && consecutive (n + 1) rows

pub select-insert_row_self :
    (new : ReceiptRow) (rows : List ReceiptRow)
    → select new.sequence rows ≡ none
    → select new.sequence (insert_row new rows) ≡ some new
unfolding select insert_row
select-insert_row_self new [] h = ground arith
select-insert_row_self new (row ∷ rows) h = ground (arith, select-insert_row_self new rows)

pub select-insert_row_ne :
    (m : ℕ) (new : ReceiptRow) (rows : List ReceiptRow)
    → (new.sequence == m) ≡ false
    → select m (insert_row new rows) ≡ select m rows
unfolding select insert_row
select-insert_row_ne m new [] h = ground arith
select-insert_row_ne m new (row ∷ rows) h = ground (arith, select-insert_row_ne m new rows)

pub select-delete_below :
    (m floor : ℕ) (rows : List ReceiptRow)
    → floor ≤ m
    → select m (delete_below floor rows) ≡ select m rows
unfolding select delete_below
select-delete_below m floor [] h = refl
select-delete_below m floor (row ∷ rows) h = ground (arith, select-delete_below m floor rows)

pub select-out :
    (m n : ℕ) (rows : List ReceiptRow)
    → consecutive n rows ≡ true
    → n + length rows ≤ m
    → select m rows ≡ none
unfolding select consecutive
select-out m n [] c h = refl
select-out m n (row ∷ rows) c h = ground (arith, select-out m (n + 1) rows)

pub insert_row-end :
    (n : ℕ) (new : ReceiptRow) (rows : List ReceiptRow)
    → consecutive n rows ≡ true
    → new.sequence ≡ n + length rows
    → insert_row new rows ≡ rows ++ (new ∷ [])
unfolding consecutive insert_row
insert_row-end n new [] c e = refl
insert_row-end n new (row ∷ rows) c e = ground (arith, insert_row-end (n + 1) new rows)

pub consecutive-append :
    (n : ℕ) (new : ReceiptRow) (rows : List ReceiptRow)
    → consecutive n rows ≡ true
    → new.sequence ≡ n + length rows
    → consecutive n (rows ++ (new ∷ [])) ≡ true
unfolding consecutive
consecutive-append n new [] c e = ground arith
consecutive-append n new (row ∷ rows) c e = ground (arith, consecutive-append (n + 1) new rows)

-- Below its first row there is nothing to delete.
pub delete_below-none :
    (n floor : ℕ) (rows : List ReceiptRow)
    → consecutive n rows ≡ true
    → floor ≤ n
    → delete_below floor rows ≡ rows
unfolding consecutive delete_below
delete_below-none n floor [] c h = refl
delete_below-none n floor (row ∷ rows) c h = ground (arith, delete_below-none (n + 1) floor rows)

pub delete_below-consecutive :
    (n floor : ℕ) (rows : List ReceiptRow)
    → consecutive n rows ≡ true
    → n ≤ floor
    → (consecutive floor (delete_below floor rows) ≡ true)
      × (length (delete_below floor rows) ≡ n + length rows - floor)
unfolding consecutive delete_below
delete_below-consecutive n floor [] c h = (refl, omega arith)
delete_below-consecutive n floor (row ∷ rows) c h =
    ground
      (arith, delete_below-consecutive (n + 1) floor rows, delete_below-none n floor (row ∷ rows))

module _ (a : Application) where
  -- What the validation asks of the receipt of a sequence.
  abbrev pub IsChecked : Database a → StoredState a → ℕ → Type 0
  IsChecked db s m =
      (do
        found ← load_receipt a db m s.max_receipt_bytes
        receipt ← present found (invalid_metadata "disappeared during validation")
        check_receipt a s receipt)
      ≡ ok tt

  pub check_sequences-consecutive :
      (db : Database a) (s : StoredState a) (n : ℕ) (rows : List ReceiptRow)
      → check_sequences a db s n (map ReceiptRow.sequence rows) ≡ ok tt
      → consecutive n rows ≡ true
  unfolding consecutive check_sequences
  check_sequences-consecutive db s n [] h = refl
  check_sequences-consecutive db s n (row ∷ rows) h =
      ground (arith, check_sequences-consecutive db s (n + 1) rows)

  pub check_sequences-IsChecked :
      (db : Database a) (s : StoredState a) (n m : ℕ) (rows : List ReceiptRow)
      → check_sequences a db s n (map ReceiptRow.sequence rows) ≡ ok tt
      → n ≤ m
      → m < n + length rows
      → IsChecked db s m
  unfolding check_sequences
  check_sequences-IsChecked db s n m [] h l u = absurd (omega arith)
  check_sequences-IsChecked db s n m (row ∷ rows) h l u = elim (Bool-cases (m == n)) [
    | inl e ↦ let same : m ≡ n = ground (arith, e) in ground (arith, same, h)
    | inr e ↦ ground (arith, check_sequences-IsChecked db s (n + 1) m rows, e)
  ]

  pub check_sequences-ok :
      (db : Database a) (s : StoredState a) (n : ℕ) (rows : List ReceiptRow)
      → consecutive n rows ≡ true
      → ((m : ℕ) → n ≤ m → m < n + length rows → IsChecked db s m)
      → check_sequences a db s n (map ReceiptRow.sequence rows) ≡ ok tt
  unfolding consecutive check_sequences
  check_sequences-ok db s n [] c h = refl
  check_sequences-ok db s n (row ∷ rows) c h = ground (
    arith,
    h n (omega arith) (omega arith),
    check_sequences-ok db s (n + 1) rows (ground arith) (λ m l u. h m (omega arith) (omega arith)),
  )
