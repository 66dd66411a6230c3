-- ===== src/Wal/Ranges.antt =====
-- The ranges of hiqlite-wal/src/log_store_impl.rs over the files that a writer shares.
use hiqlite.Common.{
  ℕ, zero, suc, ◌+◌, ◌-◌, ◌^◌, ◌≤◌, ◌<◌, ◌≡◌, ◌∙◌, refl, ap, false, List, [], ◌∷◌, ◌++◌, arith,
  length, take, drop, ltb_ge,
}
use hiqlite.Wal.Platform.{Platform}
use hiqlite.Wal.Outcome.{ok}
use hiqlite.Wal.Reader.{logs_of, end}
use hiqlite.Wal.ReadTask.{LogReader, open_reader}
use hiqlite.Wal.Set.{WalFileSet}
use hiqlite.Wal.Seen.{IsSeen}
use hiqlite.Wal.Served.{open_reader-handle_logs}
use hiqlite.Wal.LogStore.{EntryCodec, included, excluded, collect, serialized, try_get_log_entries}

module _ {E : Type 0} (codec : EntryCodec E) where
  open codec use {deserialize-serialize}

  serialized-take :
      (n : ℕ) (es : List E) → take n (serialized codec es) ≡ serialized codec (take n es)
  unfolding serialized
  serialized-take zero es = refl
  serialized-take (suc n) [] = refl
  serialized-take (suc n) (e ∷ es) =
      ap (λ l. (codec.index e, codec.serialize e) ∷ l) (serialized-take n es)

  serialized-drop :
      (n : ℕ) (es : List E) → drop n (serialized codec es) ≡ serialized codec (drop n es)
  unfolding serialized
  serialized-drop zero es = refl
  serialized-drop (suc n) [] = refl
  serialized-drop (suc n) (e ∷ es) = serialized-drop n es

  length-serialized : (es : List E) → length (serialized codec es) ≡ length es
  unfolding serialized
  length-serialized [] = refl
  length-serialized (e ∷ es) = ap suc (length-serialized es)

  collect-logs_of :
      (es : List E) → collect codec (logs_of (serialized codec es) ++ (end ∷ [])) ≡ ok es
  unfolding collect serialized
  collect-logs_of [] = refl
  collect-logs_of (e ∷ es) = rw (deserialize-serialize e, collect-logs_of es) refl

  -- A half-open range of indices, which the files hold as the entries `es` from `n` on, is read in
  -- full by a reader that starts then: the entries from `from` on up to but not including `until`.
  pub try_get_log_entries-range :
      (p : Platform) (k n from until : ℕ) (locked : WalFileSet) (es : List E)
      → IsSeen p k n locked.files (serialized codec es)
      → n ≤ from
      → from < until
      → until ≤ n + length es
      → until < 2 ^ 64
      → (rd : LogReader) × (try_get_log_entries codec p
            (λ k. false)
            (included from)
            (excluded until)
            locked
            (open_reader locked)
          ≡ ok (take (until - from) (drop (from - n) es), rd))
  unfolding try_get_log_entries
  try_get_log_entries-range p k n from until locked es seen lo mid hi small =
      let (sent, rd, e, same) =
        open_reader-handle_logs p k n from (until - 1) locked (serialized codec es) seen lo
          (omega (arith, mid)) (omega (arith, hi, mid, length-serialized es))
          (omega (arith, small)) in
      let kept : take (suc (until - 1) - from) (drop (from - n) (serialized codec es))
          ≡ serialized codec (take (until - from) (drop (from - n) es)) =
        ap (λ i. take i (drop (from - n) (serialized codec es))) {x = suc (until - 1) - from}
          (omega (arith, mid))
        ∙ ap (take (until - from)) (serialized-drop (from - n) es)
        ∙ serialized-take (until - from) (drop (from - n) es) in
      let answer : collect codec sent ≡ ok (take (until - from) (drop (from - n) es)) =
        ap (collect codec) (same ∙ ap (λ l. logs_of l ++ (end ∷ [])) kept)
        ∙ collect-logs_of (take (until - from) (drop (from - n) es)) in
      (rd, rw (ltb_ge (until - 1) from (omega (arith, mid)), e, answer) refl)

  -- The range of nothing before the index 0 is not taken to be empty: the reader is asked for the
  -- index 0, and its entry is the result where the files hold it.
  pub try_get_log_entries-zero :
      (p : Platform) (k : ℕ) (locked : WalFileSet) (e : E) (es : List E)
      → IsSeen p k 0 locked.files (serialized codec (e ∷ es))
      → (rd : LogReader) × (try_get_log_entries codec p
            (λ k. false)
            (included 0)
            (excluded 0)
            locked
            (open_reader locked)
          ≡ ok (e ∷ [], rd))
  unfolding try_get_log_entries
  try_get_log_entries-zero p k locked e es seen =
      let (sent, rd, asked, same) =
        open_reader-handle_logs p k 0 0 0 locked (serialized codec (e ∷ es)) seen (omega arith)
          (omega arith) (omega (arith, length-serialized (e ∷ es))) (omega arith) in
      let kept : take 1 (serialized codec (e ∷ es)) ≡ serialized codec (e ∷ []) =
        serialized-take 1 (e ∷ es) in
      let answer : collect codec sent ≡ ok (e ∷ []) =
        ap (collect codec) (same ∙ ap (λ l. logs_of l ++ (end ∷ [])) kept)
        ∙ collect-logs_of (e ∷ []) in
      (rd, rw (asked, answer) refl)
