-- ===== src/Wal/Frontier.antt =====
-- `Action::Remove` of hiqlite-wal/src/writer.rs for a purge at the front.
use hiqlite.Common.{
  ℕ, ◌+◌, ◌-◌, ◌≤◌, ◌<◌, ◌≡◌, ◌∙◌, refl, ap, sym, subst, true, false, some, none, List, [], ◌∷◌,
  ◌++◌, arith, length, drop, head?, le→leb,
}
use hiqlite.Wal.Platform.{Platform}
use hiqlite.Wal.Outcome.{ok}
use hiqlite.Wal.File.{WalFile, min_wal_size}
use hiqlite.Wal.Layout.{Entry}
use hiqlite.Wal.Metadata.{Metadata, Codec, write, read_or_create}
use hiqlite.Wal.Durable.{read_or_create-write}
use hiqlite.Wal.Delete.{shift_delete_logs, purge_front, some_le}
use hiqlite.Wal.Set.{WalFileSet}
use hiqlite.Wal.Copies.{Shows-Lags, refresh-retained}
use hiqlite.Wal.Serve.{Part, files_of, entries_of, AreParts}
use hiqlite.Wal.Sealed.{Kept}
use hiqlite.Wal.Batch.{set_of}
use hiqlite.Wal.Seen.{IsSeen}
use hiqlite.Wal.Purge.{purge_front-Purged}
use hiqlite.Wal.Turn.{IsWriter, Shows-IsSeen, flush_blocking-IsWriter}
use hiqlite.Wal.Writer.{Config, Writer}
use hiqlite.Wal.Task.{persist, persist_purged, handle_remove}

module _ (p : Platform) where
  front-some_le :
      (k j n from : ℕ) (qs : List Part) (w : WalFile) (rs : List Entry)
      → AreParts p k n qs
      → Kept p j (n + length (entries_of qs)) w rs
      → 0 < length (entries_of qs ++ rs)
      → from ≤ n
      → some_le from (head? (files_of qs ++ (w ∷ []))) ≡ true
  front-some_le k j n from [] w [] a kept some_entry le = absurd (omega (arith, some_entry))
  front-some_le k j n from [] w (r ∷ rs) a (s, e, part) some_entry le =
      le→leb from w.id_from (omega (arith, part.first, le))
  front-some_le k j n from (q ∷ qs) w rs (part, a) kept some_entry le =
      le→leb from q.file.id_from (omega (arith, part.first, le))

  shift_delete_logs-front :
      (from id wal_size : ℕ) (s : WalFileSet)
      → some_le from (head? s.files) ≡ true
      → shift_delete_logs p from id wal_size s ≡ purge_front p id wal_size s
  unfolding shift_delete_logs
  shift_delete_logs-front from id wal_size s front = rw front refl

-- The metadata with a new purge frontier.
abbrev pub frontier : List ℕ → Metadata → Metadata
frontier log m = record m { last_purged_log_id = some log }

module _ (p : Platform) (codec : Codec) (c : Config) (k n : ℕ)
    (large : min_wal_size ≤ c.wal_size) where
  -- A purge up to an id that the log holds, from no id behind its first, succeeds where the writes of
  -- the metadata do: the purge frontier is in the metadata file, nothing is left to flush, and the
  -- files of the writer and of the readers hold exactly the entries from that id on.
  pub handle_remove-IsWriter :
      (all : List Entry) (count : ℕ) (s : Writer) (from id : ℕ) (log : List ℕ) (ack : ℕ)
      → from ≤ n
      → n ≤ id
      → id < n + length all
      → s.writes ≡ []
      → IsWriter p c k n all count s
      → (s' : Writer) × (k' : ℕ) × (count' : ℕ) × (handle_remove p codec c from id (some log) ack s
          ≡ (ok s', (ack, none) ∷ []))
        × (s'.is_dirty ≡ false)
        × (s'.writes ≡ [])
        × (s'.meta ≡ frontier log s.meta)
        × (read_or_create codec s'.directory ≡ (ok (frontier log s.meta), s'.directory))
        × (k' + count' ≤ k + count)
        × IsWriter p c k' id (drop (id - n) all) count' s'
  unfolding handle_remove persist_purged persist
  handle_remove-IsWriter all count s from id log ack le lo hi sure h =
      let (s₁, flushed, clean, goes) = flush_blocking-IsWriter p c k n all count s large h in
      let g = goes.writer in
      let writes = goes.writes ∙ sure in
      let qs = g.parts in
      let bound : id < n + length (entries_of qs ++ g.rest) =
        subst (λ es. id < n + length es) (sym g.entries) hi in
      let u =
        purge_front-Purged p c.wal_size k n id qs g.file g.rest s₁.wal_locked.files g.log.parts
          g.log.active g.log.shared.files lo bound in
      let shifted : shift_delete_logs p from id c.wal_size (set_of qs g.file)
          ≡ (ok tt, set_of u.parts u.file) =
        shift_delete_logs-front p from id c.wal_size (set_of qs g.file) (
          front-some_le p k (k + length qs) n from qs g.file g.rest g.log.parts g.log.active.kept
            (omega (arith, lo, bound)) le)
        ∙ u.done in
      let (gs, shared, shows) =
        refresh-retained (set_of u.parts u.file) s₁.wal_locked u.copies u.kept u.begins in
      let m = frontier log s₁.meta in
      let d = write codec m s₁.directory in
      let same : m ≡ frontier log s.meta = ap (frontier log) goes.meta in
      let all' : entries_of u.parts ++ u.rest ≡ drop (id - n) all =
        u.entries ∙ ap (drop (id - n)) g.entries in
      (
        record {
          wal = set_of u.parts u.file;
          wal_locked = record { active = some (length (files_of u.parts)); files = gs };
          meta = m;
          directory = d;
          is_dirty = s₁.is_dirty;
          writes = s₁.writes;
        },
        k + u.count,
        length u.parts,
        rw (flushed, writes, g.set, shifted, shared) refl,
        clean,
        writes,
        same,
        read_or_create-write codec m s₁.directory ∙ ap (λ v. (ok v, d)) same,
        omega (arith, u.counted, g.closed_files),
        record {
          parts = u.parts;
          file = u.file;
          rest = u.rest;
          set = refl;
          log = record {
            parts = u.holds;
            active = u.active;
            shared = record {
              active = refl;
              files = Shows-Lags gs (files_of u.parts) u.file shows;
            };
          };
          entries = all';
          closed_files = omega arith;
          seen =
              subst (IsSeen p (k + u.count) id gs) all'
                (Shows-IsSeen p c (k + u.count) id u.parts u.file u.rest gs u.holds u.active shows);
        },
      )
