-- ===== src/External/Reload.antt =====
-- What external_state_machine.rs loads behind a commit is the state that it keeps in memory.
use hiqlite.Common.{ℕ, ◌^◌, ◌<◌, ◌≤◌, ◌≡◌, refl, true, some, List, arith, length}
use hiqlite.External.Data.{
  Application, ok, EntryKind, operation, advance, as_i64, from_i64, Commit, StoredState, has_widths,
}
use hiqlite.External.Tables.{
  MetadataRow, decode_u64, decode_digest, load_applied, load_columns, load_row,
}
use hiqlite.External.Statements.{floor_at, update_row}
use hiqlite.External.Apply.{update_state_after_commit}

pub from_i64-as_i64 : (kind : EntryKind) → from_i64 (as_i64 kind) ≡ ok kind
unfolding from_i64 as_i64
from_i64-as_i64 operation = refl
from_i64-as_i64 advance = refl

module _ {a : Application} where
  load_applied-ok :
      (commit : Commit a) (coordinate : List ℕ) (kind : EntryKind) (digest : List ℕ) (floor : ℕ)
      → has_widths commit ≡ true
      → a.deserialize_exact coordinate ≡ some commit.coordinate
      → length digest ≡ 32
      → floor < 2 ^ 64
      → load_applied a commit.sequence coordinate commit.command_digest
          (as_i64 kind)
          commit.state_schema
          commit.receipt_schema
          digest
          floor
        ≡ ok (record { commit = commit; kind = kind; receipt_digest = digest }, floor)
  unfolding load_applied has_widths decode_u64 decode_digest
  load_applied-ok commit coordinate kind digest floor w c g f = ground (arith, from_i64-as_i64 kind)

  -- The bounds that a stored state has.
  pub load_row-bounds :
      (row : MetadataRow) (s : StoredState a)
      → load_row a row ≡ ok s
      → (s.initial_sequence < 2 ^ 64)
        × (1 ≤ s.receipt_retention)
        × (s.receipt_retention ≤ 1000000)
        × (1 ≤ s.max_receipt_bytes)
  unfolding load_row decode_u64
  load_row-bounds row s h = ground arith

  pub load_row-update_row :
      (commit : Commit a) (coordinate : List ℕ) (kind : EntryKind) (digest : List ℕ)
      (row : MetadataRow) (s : StoredState a)
      → has_widths commit ≡ true
      → a.deserialize_exact coordinate ≡ some commit.coordinate
      → length digest ≡ 32
      → load_row a row ≡ ok s
      → load_row a (update_row commit coordinate kind digest (floor_at s commit.sequence) row)
        ≡ ok (update_state_after_commit s commit kind digest)
  unfolding load_row decode_u64 update_state_after_commit load_columns
  load_row-update_row commit coordinate kind digest row s w c g h =
      let low : floor_at s commit.sequence < 2 ^ 64 =
        unfold floor_at has_widths in ground (arith, load_row-bounds row s h) in
      ground (
        arith,
        load_applied-ok commit coordinate kind digest (floor_at s commit.sequence) w c g low,
      )
