-- ===== src/External/Recorded.antt =====
-- A commit that external_state_machine.rs records keeps its invariant.
use hiqlite.Common.{
  ℕ, ◌+◌, ◌-◌, ◌≤◌, ◌≡◌, ◌≢◌, refl, sym, ap, subst, ◌∙◌, inl, inr, Bool-cases, true, Option, some,
  List, [], ◌∷◌, ◌++◌, arith, length, length-append, String, ◌==◌,
}
use hiqlite.Wal.Header.{bytes_eq_refl}
use hiqlite.External.Data.{
  Application, Lawful, Fallible, ok, ◌>>=◌, present, invalid_metadata, EntryKind, operation,
  advance, Commit, StoredState, StoredReceipt, has_widths, same_commit, same_kind,
}
use hiqlite.External.Tables.{ReceiptRow, Database, read_row, load_state, decode_u64, decode_digest}
use hiqlite.External.Statements.{
  select, insert_row, delete_below, load_receipt, read_some, floor_at, new_row, update_row,
  map_metadata,
}
use hiqlite.External.Check.{check_receipt, check_newest, validate_receipts}
use hiqlite.External.Apply.{update_state_after_commit}
use hiqlite.External.Rows.{
  consecutive, select-insert_row_self, select-insert_row_ne, select-delete_below, select-out,
  insert_row-end, consecutive-append, delete_below-consecutive, IsChecked,
}
use hiqlite.External.Reload.{from_i64-as_i64, load_row-update_row}
use hiqlite.External.Consistent.{
  IsConsistent, IsRetained, next_sequence, IsSuffix-check_suffix, retained, bounds, loaded-row,
}

-- A commit, its receipt and the code of its coordinate.
pub record Entry (a : Application) : Type 0 where
  pub commit : Commit a
  pub kind : EntryKind
  pub codec : String
  pub receipt : List ℕ
  pub coordinate : List ℕ

abbrev pub stored : {a : Application} → Entry a → StoredReceipt a
stored {a} e = record {
  commit = e.commit;
  kind = e.kind;
  codec = e.codec;
  receipt = e.receipt;
  receipt_digest = a.sha256 e.receipt;
}

abbrev pub row_of : {a : Application} → Entry a → ReceiptRow
row_of {a} e = new_row e.commit e.coordinate e.kind e.codec e.receipt (a.sha256 e.receipt)

-- The database behind the transaction that records an entry.
abbrev pub recorded :
    {a : Application} → StoredState a → Entry a → a.Tables → Database a → Database a
recorded {a} s e tables db = record {
  tables = tables;
  metadata =
      map_metadata
        (update_row e.commit e.coordinate e.kind (a.sha256 e.receipt)
          (floor_at s e.commit.sequence))
        db.metadata;
  receipts = delete_below (floor_at s e.commit.sequence) (insert_row (row_of e) db.receipts);
}

abbrev pub state_behind : {a : Application} → StoredState a → Entry a → StoredState a
state_behind {a} s e = update_state_after_commit s e.commit e.kind (a.sha256 e.receipt)

pub record IsNext {a : Application} (s : StoredState a) (e : Entry a) : Type 0 where
  pub next : e.commit.sequence ≡ next_sequence s
  pub widths : has_widths e.commit ≡ true
  pub decoded : a.deserialize_exact e.coordinate ≡ some e.commit.coordinate
  pub accepted : check_receipt a s (stored e) ≡ ok tt

pub same_kind_refl : (kind : EntryKind) → same_kind kind kind ≡ true
same_kind_refl operation = refl
same_kind_refl advance = refl

module _ {a : Application} (l : Lawful a) where
  open l use {same_coordinate_refl, length-sha256}

  pub read_row-row_of :
      (s : StoredState a) (e : Entry a)
      → IsNext s e
      → read_row a s.max_receipt_bytes (row_of e) ≡ ok (stored e)
  unfolding read_row decode_u64 decode_digest has_widths check_receipt
  read_row-row_of s e n = ground (
    arith,
    n.widths,
    n.decoded,
    n.accepted,
    from_i64-as_i64 e.kind,
    length-sha256 e.receipt,
    bytes_eq_refl (a.sha256 e.receipt),
  )

  -- The rows that the delete leaves.
  kept-rows :
      (db : Database a) (s : StoredState a) (e : Entry a) (n : ℕ) (tables : a.Tables)
      → IsNext s e
      → 1 ≤ s.receipt_retention
      → IsRetained db s (next_sequence s) n
      → let floor = floor_at s e.commit.sequence in
        let db' = recorded s e tables db in
        (floor ≤ e.commit.sequence)
        × (consecutive floor db'.receipts ≡ true)
        × (length db'.receipts ≡ e.commit.sequence - floor + 1)
  kept-rows db s e n tables x r v =
      let q = e.commit.sequence in
      let floor = floor_at s q in
      let at_end : q ≡ n + length db.receipts = omega (arith, x.next, v.count) in
      let low : floor ≤ q = unfold floor_at in omega (arith, x.next, v.start) in
      let most : n ≤ floor = subst (λ k. n ≤ floor_at s k) (sym x.next) v.least in
      let ends = insert_row-end n (row_of e) db.receipts v.rows at_end in
      let behind = db.receipts ++ (row_of e ∷ []) in
      let (c, k) =
        delete_below-consecutive n floor behind
          (consecutive-append n (row_of e) db.receipts v.rows at_end) most in
      let grown = length-append db.receipts (row_of e ∷ []) in
      (
        low,
        subst (λ rows. consecutive floor (delete_below floor rows) ≡ true) (sym ends) c,
        ap (λ rows. length (delete_below floor rows)) ends ∙ omega (arith, k, grown, at_end, low),
      )

  -- The check of what a `SELECT` returns.
  abbrev check_found : StoredState a → Option ReceiptRow → Fallible (Unit {0})
  check_found s row = do
    found ← read_some a s.max_receipt_bytes row
    receipt ← present found (invalid_metadata "disappeared during validation")
    check_receipt a s receipt

  found-new :
      (s : StoredState a) (e : Entry a)
      → IsNext s e
      → check_found (state_behind s e) (some (row_of e)) ≡ ok tt
  unfolding update_state_after_commit check_receipt
  found-new s e x = rw (read_row-row_of s e x) x.accepted

  found-old :
      (s : StoredState a) (e : Entry a) (row : Option ReceiptRow)
      → check_found s row ≡ ok tt
      → check_found (state_behind s e) row ≡ ok tt
  unfolding update_state_after_commit check_receipt
  found-old s e row h = h

  -- The rows that were there are still checked, and the new one is.
  kept-IsChecked :
      (db : Database a) (s : StoredState a) (e : Entry a) (n : ℕ) (tables : a.Tables) (m : ℕ)
      → IsNext s e
      → IsRetained db s (next_sequence s) n
      → floor_at s e.commit.sequence ≤ m
      → m ≤ e.commit.sequence
      → IsChecked a (recorded s e tables db) (state_behind s e) m
  unfolding load_receipt
  kept-IsChecked db s e n tables m x v lo hi =
      let q = e.commit.sequence in
      let floor = floor_at s q in
      let kept = select-delete_below m floor (insert_row (row_of e) db.receipts) lo in
      let most : n ≤ floor = subst (λ k. n ≤ floor_at s k) (sym x.next) v.least in
      elim (Bool-cases (q == m)) [
        | inl same ↦
            let this : q ≡ m = ground (arith, same) in
            let found =
              select-insert_row_self (row_of e) db.receipts
                (select-out q n db.receipts v.rows (omega (arith, x.next, v.count))) in
            let here : select m (delete_below floor (insert_row (row_of e) db.receipts))
                ≡ some (row_of e) =
              kept
              ∙ subst (λ k. select k (insert_row (row_of e) db.receipts) ≡ some (row_of e)) this
                  found in
            subst (λ row. check_found (state_behind s e) row ≡ ok tt) (sym here) (found-new s e x)
        | inr other ↦
            let found = select-insert_row_ne m (row_of e) db.receipts other in
            let differ : q ≢ m = λ p. ground (arith, other) in
            subst (λ row. check_found (state_behind s e) row ≡ ok tt) (sym (kept ∙ found))
              (found-old s e (select m db.receipts)
                (v.checked m (omega arith) (omega (arith, differ, x.next))))
      ]

  -- The new row is found.
  select-new :
      (db : Database a) (s : StoredState a) (e : Entry a) (n : ℕ) (tables : a.Tables)
      → IsNext s e
      → IsRetained db s (next_sequence s) n
      → floor_at s e.commit.sequence ≤ e.commit.sequence
      → select e.commit.sequence (recorded s e tables db).receipts ≡ some (row_of e)
  select-new db s e n tables x v low =
      let q = e.commit.sequence in
      select-delete_below q (floor_at s q) (insert_row (row_of e) db.receipts) low
      ∙ select-insert_row_self (row_of e) db.receipts
          (select-out q n db.receipts v.rows (omega (arith, x.next, v.count)))

  pub select-recorded :
      (db : Database a) (s : StoredState a) (e : Entry a) (tables : a.Tables)
      → IsConsistent db s
      → IsNext s e
      → (select e.commit.sequence (recorded s e tables db).receipts ≡ some (row_of e))
        × (s.initial_sequence ≤ e.commit.sequence)
  select-recorded db s e tables v x =
      let (_, r₁, _, _) = bounds db s v.loaded in
      let (n, held) = retained db s v in
      let (low, _, _) = kept-rows db s e n tables x r₁ held in
      (select-new db s e n tables x held low, omega (arith, x.next, held.start))

  check_newest-recorded :
      (db : Database a) (s : StoredState a) (e : Entry a) (n : ℕ) (tables : a.Tables)
      → IsNext s e
      → IsRetained db s (next_sequence s) n
      → floor_at s e.commit.sequence ≤ e.commit.sequence
      → check_newest a
          (recorded s e tables db)
          (state_behind s e)
          (record { commit = e.commit; kind = e.kind; receipt_digest = a.sha256 e.receipt })
        ≡ ok tt
  unfolding check_newest load_receipt update_state_after_commit same_commit
  check_newest-recorded db s e n tables x v low =
      rw (select-new db s e n tables x v low, read_row-row_of s e x)
        (ground (
          arith,
          same_kind_refl e.kind,
          same_coordinate_refl e.commit.coordinate,
          bytes_eq_refl e.commit.command_digest,
          bytes_eq_refl (a.sha256 e.receipt),
        ))

  -- An entry that is recorded keeps the invariant.
  pub recorded-IsConsistent :
      (db : Database a) (s : StoredState a) (e : Entry a) (tables : a.Tables)
      → IsConsistent db s
      → IsNext s e
      → IsConsistent (recorded s e tables db) (state_behind s e)
  recorded-IsConsistent db s e tables v x =
      let (row, at_row, loads) = loaded-row db s v.loaded in
      let (_, r₁, r₂, _) = bounds db s v.loaded in
      let (n, held) = retained db s v in
      let (low, c, k) = kept-rows db s e n tables x r₁ held in
      record {
        loaded =
            unfold load_state in
            rw at_row (
              load_row-update_row e.commit e.coordinate e.kind (a.sha256 e.receipt) row s x.widths
                x.decoded (length-sha256 e.receipt) loads);
        validated =
            unfold validate_receipts update_state_after_commit in
            IsSuffix-check_suffix (recorded s e tables db) (state_behind s e)
              (record { commit = e.commit; kind = e.kind; receipt_digest = a.sha256 e.receipt })
              (floor_at s e.commit.sequence) r₁ r₂
              record {
                least = unfold floor_at in refl;
                below = low;
                count = k;
                rows = c;
                checked = λ m lo hi. kept-IsChecked db s e n tables m x held lo hi;
              }
              (check_newest-recorded db s e n tables x held low);
        codec = unfold update_state_after_commit in v.codec;
      }
