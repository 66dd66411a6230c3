-- ===== src/Wal/Delete.antt =====
-- `shift_delete_logs` of hiqlite-wal/src/wal.rs: a purge at the front, or a truncation at the back.
use hiqlite.Common.{
  ℕ, ◌+◌, ◌-◌, ◌^◌, Bool, true, false, ◌&&◌, Option, none, some, List, [], ◌∷◌, ltb, leb, ◌==◌,
  if◌then◌else◌, head?, last?,
}
use hiqlite.Wal.Platform.{Platform}
use hiqlite.Wal.Outcome.{Outcome, ok, err, panic, out_of_fuel, ◌>>=◌}
use hiqlite.Wal.File.{WalFile, u32, u64, is_some, map_mut}
use hiqlite.Wal.Logs.{read_logs}
use hiqlite.Wal.Set.{WalFileSet, add_file, use_last}

-- `Some(a) <= b` and `Some(a) >= b`, by the id of a file.
abbrev pub some_le : ℕ → Option WalFile → Bool
some_le a none = false
some_le a (some w) = leb a w.id_from

abbrev pub some_ge : ℕ → Option WalFile → Bool
some_ge a none = true
some_ge a (some w) = leb w.id_until a

-- The files that stay when the front is purged, and when the back is truncated.
unfoldable pub pop_front : ℕ → List WalFile → List WalFile
pop_front id_until [] = []
pop_front id_until (w ∷ ws) =
    let rest = pop_front id_until ws in if ltb w.id_until id_until then rest else w ∷ ws

abbrev pub pop_last : ℕ → WalFile → List WalFile → List WalFile
pop_last id_from w [] = if ltb id_from w.id_from then [] else w ∷ []
pop_last id_from w (v ∷ vs) = w ∷ v ∷ vs

unfoldable pub pop_back : ℕ → List WalFile → List WalFile
pop_back id_from [] = []
pop_back id_from (w ∷ ws) = pop_last id_from w (pop_back id_from ws)

abbrev pub with_front : (WalFile → Outcome WalFile) → List WalFile → Outcome (List WalFile)
with_front f [] = panic
with_front f (w ∷ ws) = f w >>= λ w'. ok (w' ∷ ws)

abbrev pub with_back : (WalFile → Outcome WalFile) → List WalFile → Outcome (List WalFile)
with_back f [] = panic
with_back f (w ∷ []) = f w >>= λ w'. ok (w' ∷ [])
with_back f (w ∷ v ∷ ws) = with_back f (v ∷ ws) >>= λ ws'. ok (w ∷ ws')

-- `shift_delete_logs` ends with the set as it is then, also after an error.
abbrev pub Shifted : Type 0
Shifted = Outcome (Unit {0}) × WalFileSet

abbrev pub shifted : WalFileSet → Outcome (List WalFile) → Shifted
shifted s (ok files) = (ok tt, use_last (record s { files = files }))
shifted s (err e) = (err e, s)
shifted s panic = (panic, s)
shifted s out_of_fuel = (out_of_fuel, s)

abbrev pub refilled : WalFileSet → (WalFileSet → Shifted) → Outcome WalFileSet → Shifted
refilled s f (ok s') = f s'
refilled s f (err e) = (err e, s)
refilled s f panic = (panic, s)
refilled s f out_of_fuel = (out_of_fuel, s)

module _ (p : Platform) where
  unfoldable pub purge_file : ℕ → WalFile → Outcome WalFile
  purge_file id_until w =
      if ltb w.id_from id_until && is_some w.data_end
      then (read_logs p id_until id_until none (map_mut w) >>= λ r.
          ok (record (map_mut w) { id_from = id_until; data_start = some r.offset }))
      else ok w

  unfoldable pub truncate_file : ℕ → WalFile → Outcome WalFile
  truncate_file id_from w =
      if w.id_from == id_from
      then ok (record w { id_until = id_from; data_start = none; data_end = none })
      else if leb id_from w.id_until
      then (read_logs p id_from id_from none (map_mut w) >>= λ r. ok (record (map_mut w) {
        id_until = u64 (id_from + (2 ^ 64 - 1));
        data_end = some (u32 (r.offset + (2 ^ 32 - 1)));
      }))
      else ok w

  -- A set that has become empty gets a new first file, open for writing.
  unfoldable pub refill : ℕ → List WalFile → WalFileSet → Outcome WalFileSet
  refill wal_size [] s = add_file p wal_size s >>= λ s'.
      with_front (λ w. ok (map_mut w)) s'.files >>= λ files. ok (record s' { files = files })
  refill wal_size (w ∷ ws) s = ok s

  unfoldable pub purge_front : ℕ → ℕ → WalFileSet → Shifted
  purge_front id_until wal_size s =
      let rest = record s { files = pop_front id_until s.files } in
      refilled rest (λ s'. shifted s' (with_front (purge_file id_until) s'.files))
        (refill wal_size rest.files rest)

  unfoldable pub truncate_back : ℕ → ℕ → WalFileSet → Shifted
  truncate_back id_from wal_size s =
      let rest = record s { files = pop_back id_from s.files } in
      refilled rest (λ s'. shifted s' (with_back (truncate_file id_from) s'.files))
        (refill wal_size rest.files rest)

  unfoldable pub shift_delete_logs : ℕ → ℕ → ℕ → WalFileSet → Shifted
  shift_delete_logs id_from id_until wal_size s =
      if some_le id_from (head? s.files)
      then purge_front id_until wal_size s
      else if some_ge id_until (last? s.files)
      then truncate_back id_from wal_size s
      else (ok tt, use_last s)
