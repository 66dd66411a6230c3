-- ===== src/Wal/Voted.antt =====
-- What the answer to a vote of hiqlite-wal/src/writer.rs says of the metadata file.
use hiqlite.Common.{
  ℕ, ◌≡◌, ◌∙◌, refl, ap, subst, ◌⊎◌, inl, inr, not, Option, none, some, List, [], ◌∷◌, take, if_ind,
}
use hiqlite.Wal.Platform.{Platform}
use hiqlite.Wal.File.{WalFile, update_header, Written}
use hiqlite.Wal.Set.{active_of}
use hiqlite.Wal.Outcome.{Outcome, Error, io, ok, err, panic, out_of_fuel}
use hiqlite.Wal.Metadata.{Codec, read_or_create, write, write_unchecked, calls}
use hiqlite.Wal.Durable.{read_or_create-write, take-write_unchecked}
use hiqlite.Wal.Writer.{Writer, Turn, or_end, flushed, flush_active, flush_blocking}
use hiqlite.Wal.Task.{persist, persist_with, answered, handle_vote}
use hiqlite.Wal.Loop.{voted}

-- A flush, however it ends, is nothing to the metadata.
abbrev SameMeta : Writer → Outcome (Unit {0}) × Writer → Type 0
SameMeta s x = (x.1.meta ≡ s.meta) × (x.1.directory ≡ s.directory)

module _ (p : Platform) where
  flushed-SameMeta : (s : Writer) (w : Written) → SameMeta s (flushed p s w)
  flushed-SameMeta s (ok u, w) = (refl, refl)
  flushed-SameMeta s (err e, w) = (refl, refl)
  flushed-SameMeta s (panic, w) = (refl, refl)
  flushed-SameMeta s (out_of_fuel, w) = (refl, refl)

  flush_active-SameMeta : (s : Writer) (o : Outcome WalFile) → SameMeta s (flush_active p s o)
  flush_active-SameMeta s (ok w) = flushed-SameMeta s (update_header p w)
  flush_active-SameMeta s (err e) = (refl, refl)
  flush_active-SameMeta s panic = (refl, refl)
  flush_active-SameMeta s out_of_fuel = (refl, refl)

  flush_blocking-SameMeta : (s : Writer) → SameMeta s (flush_blocking p s)
  unfolding flush_blocking
  flush_blocking-SameMeta s =
      if_ind (SameMeta s) (not s.is_dirty) (λ _. (refl, refl))
        (λ _. flush_active-SameMeta s (active_of s.wal))

module _ (p : Platform) (codec : Codec) (value : List ℕ) (ack : ℕ) (s : Writer) where
  -- Behind a success the file is read as the metadata with the vote; behind an error it is that, or
  -- the file of before.
  abbrev pub Kept : Option Error → Writer → Type 0
  Kept none s' = (read_or_create codec s'.directory).0 ≡ ok (voted value s.meta)
  Kept (some e) s' =
      (s'.directory.meta ≡ s.directory.meta)
      ⊎ ((read_or_create codec s'.directory).0 ≡ ok (voted value s.meta))

  abbrev IsAnswer : Writer × Option Error → Type 0
  IsAnswer x = (x.0.meta ≡ voted value s.meta) × Kept x.1 x.0

  same-IsAnswer :
      (x : Writer × Option Error) (s' : Writer) (r : Option Error) (t : Turn)
      → t ≡ (ok x.0, (ack, x.1) ∷ [])
      → t ≡ (ok s', (ack, r) ∷ [])
      → IsAnswer x
      → IsAnswer (s', r)
  same-IsAnswer x s' r t e h a = let same : x ≡ (s', r) = cc (e, h) in subst IsAnswer same a

  persist_with-IsAnswer :
      (writes : List (Option ℕ)) (t s' : Writer) (r : Option Error)
      → t.meta ≡ voted value s.meta
      → t.directory ≡ s.directory
      → answered p codec ack (persist_with p codec writes t) ≡ (ok s', (ack, r) ∷ [])
      → IsAnswer (s', r)
  persist_with-IsAnswer [] t s' r m d h =
      same-IsAnswer (record t { directory = write codec t.meta t.directory }, none) s' r _ refl h
        (m, ap (λ x. x.0) (read_or_create-write codec t.meta t.directory) ∙ ap (λ v. ok v) m)
  persist_with-IsAnswer (none ∷ more) t s' r m d h =
      same-IsAnswer (record t { directory = write codec t.meta t.directory; writes = more }, none)
        s' r _ refl h
        (m, ap (λ x. x.0) (read_or_create-write codec t.meta t.directory) ∙ ap (λ v. ok v) m)
  persist_with-IsAnswer (some n ∷ more) t s' r m d h =
      same-IsAnswer
        (
          record t {
            directory = calls (take n (write_unchecked codec (codec.serialize t.meta))) t.directory;
            writes = more;
          },
          some io,
        )
        s' r _ refl h
        (
          m,
          elim (take-write_unchecked codec n t.meta t.directory) [
            | inl old ↦ inl (old ∙ ap (λ v. v.meta) d)
            | inr new ↦ inr (new ∙ ap (λ v. ok v) m)
          ],
        )

  -- A vote that is answered, whatever the flush does and whichever write of the metadata fails: the
  -- writer goes on with the new vote in memory. Behind the answer of success the metadata file is read
  -- as the metadata with the new vote; behind that of an error it is so read, or is the file of before.
  pub handle_vote-answer :
      (s' : Writer) (r : Option Error)
      → handle_vote p codec value ack s ≡ (ok s', (ack, r) ∷ [])
      → (s'.meta ≡ voted value s.meta) × Kept r s'
  unfolding handle_vote persist
  handle_vote-answer s' r h = of_flush (flush_blocking p s) (flush_blocking-SameMeta p s) h
    where
      of_flush :
          (x : Outcome (Unit {0}) × Writer)
          → SameMeta s x
          → or_end p
              (λ v.
                answered p codec ack
                  (persist p codec (record v { meta = record v.meta { vote = some value } })))
              x
            ≡ (ok s', (ack, r) ∷ [])
          → IsAnswer (s', r)
      of_flush (ok u, v) (m, d) h =
          persist_with-IsAnswer v.writes (record v { meta = voted value v.meta }) s' r
            (ap (voted value) m) d h
      of_flush (err e, v) (m, d) h = absurd (cc h)
      of_flush (panic, v) (m, d) h = absurd (cc h)
      of_flush (out_of_fuel, v) (m, d) h = absurd (cc h)
