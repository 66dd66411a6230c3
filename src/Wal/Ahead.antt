-- ===== src/Wal/Ahead.antt =====
-- The roll-over ahead at the end of an append in hiqlite-wal/src/writer.rs.
use hiqlite.Common.{
  ℕ, suc, ◌+◌, ◌*◌, ◌^◌, ◌≤◌, ◌<◌, ◌≡◌, ◌∙◌, refl, sym, subst, Bool, true, false, none, List, [],
  ◌∷◌, ◌++◌, append-nil, arith, length, length-append, ltb, ltb→lt, ◌-◌,
}
use hiqlite.Wal.Platform.{Platform}
use hiqlite.Wal.Outcome.{ok, ◌>>=◌}
use hiqlite.Wal.File.{WalFile, space_left, offset_logs, min_wal_size}
use hiqlite.Wal.Layout.{Entry}
use hiqlite.Wal.Serve.{Part, files_of, entries_of}
use hiqlite.Wal.Seen.{IsSeen, Fronts-IsSeen, Lags-Fronts}
use hiqlite.Wal.Batch.{set_of, active_of-set_of, IsLog, roll-IsLog, entries_of-rolled}
use hiqlite.Wal.Writer.{Config, Writer, roll, roll_ahead, with_sets}
use hiqlite.Wal.Turn.{IsWriter, Goes}

module _ (p : Platform) (c : Config) (k n : ℕ) where
  space_left-none : (w : WalFile) → w.data_end ≡ none → space_left w ≡ w.len_max - offset_logs
  unfolding space_left
  space_left-none w e = rw e refl

  -- A roll-over ahead, of a file that has entries.
  rolled_ahead :
      (qs : List Part) (w : WalFile) (r : Entry) (rs : List Entry) (s : Writer) (count : ℕ)
      → c.wal_size < 2 ^ 32
      → min_wal_size ≤ c.wal_size
      → suc (k + count) < 2 ^ 64
      → length qs ≤ count
      → IsLog p c k n qs w (r ∷ rs) s.wal_locked
      → (s' : Writer) × ((roll p c.wal_size (set_of qs w) s.wal_locked >>= λ t.
            ok (with_sets p s t))
          ≡ ok s')
        × (s'.is_dirty ≡ s.is_dirty)
        × Goes p c k n (entries_of qs ++ (r ∷ rs)) (suc count) s s'
  rolled_ahead qs w r rs s count small large room le l =
      let (q, v, copy, e, same, l') =
        roll-IsLog p c k n qs w r rs s.wal_locked small large (omega (arith, room, le)) l in
      let qs' = qs ++ (q ∷ []) in
      let all = entries_of-rolled p c k n qs q (r ∷ rs) same in
      (
        record s { wal = set_of qs' v; wal_locked = copy },
        rw e refl,
        refl,
        record {
          meta = refl;
          directory = refl;
          writes = refl;
          writer = record {
            parts = qs';
            file = v;
            rest = [];
            set = refl;
            log = l';
            entries = all;
            closed_files = omega (arith, length-append qs (q ∷ []), le);
            seen = subst (IsSeen p k n copy.files) (sym (append-nil (entries_of qs')) ∙ all) (
                Fronts-IsSeen p k n qs' copy.files l'.parts
                  (Lags-Fronts copy.files (files_of qs') v l'.shared.files));
          };
        },
      )

  roll_ahead-full :
      (qs : List Part) (w : WalFile) (s : Writer)
      → ltb (space_left w) (4 * 1024) ≡ true
      → s.wal ≡ set_of qs w
      → roll_ahead p c s
        ≡ (roll p c.wal_size (set_of qs w) s.wal_locked >>= λ t. ok (with_sets p s t))
  unfolding roll_ahead
  roll_ahead-full qs w s left set = rw (set, active_of-set_of qs w, left) refl

  ahead_split :
      (b : Bool) (qs : List Part) (w : WalFile) (rs : List Entry) (s : Writer) (count : ℕ)
      → ltb (space_left w) (4 * 1024) ≡ b
      → c.wal_size < 2 ^ 32
      → min_wal_size ≤ c.wal_size
      → suc (k + count) < 2 ^ 64
      → length qs ≤ count
      → s.wal ≡ set_of qs w
      → IsLog p c k n qs w rs s.wal_locked
      → IsSeen p k n s.wal_locked.files (entries_of qs ++ rs)
      → (s' : Writer) × (roll_ahead p c s ≡ ok s')
        × (s'.is_dirty ≡ s.is_dirty)
        × Goes p c k n (entries_of qs ++ rs) (suc count) s s'
  unfolding roll_ahead
  ahead_split false qs w rs s count left small large room le set l seen = (
    s,
    rw (set, active_of-set_of qs w, left) refl,
    refl,
    record {
      meta = refl;
      directory = refl;
      writes = refl;
      writer = record {
        parts = qs;
        file = w;
        rest = rs;
        set = set;
        log = l;
        entries = refl;
        closed_files = omega (arith, le);
        seen = seen;
      };
    },
  )
  ahead_split true qs w [] s count left small large room le set l seen = absurd (
      omega (
        arith,
        ltb→lt (space_left w) (4 * 1024) left,
        space_left-none w l.active.kept.1,
        l.active.len_max,
        large,
      ))
  ahead_split true qs w (r ∷ rs) s count left small large room le set l seen =
      let (s', e, dirty, goes) = rolled_ahead qs w r rs s count small large room le l in
      (s', roll_ahead-full qs w s left set ∙ e, dirty, goes)

  pub roll_ahead-IsWriter :
      (all : List Entry) (s : Writer) (count : ℕ)
      → c.wal_size < 2 ^ 32
      → min_wal_size ≤ c.wal_size
      → suc (k + count) < 2 ^ 64
      → IsWriter p c k n all count s
      → (s' : Writer) × (roll_ahead p c s ≡ ok s')
        × (s'.is_dirty ≡ s.is_dirty)
        × Goes p c k n all (suc count) s s'
  roll_ahead-IsWriter all s count small large room h =
      let (s', e, dirty, goes) =
        ahead_split (ltb (space_left h.file) (4 * 1024)) h.parts h.file h.rest s count refl small
          large room h.closed_files h.set h.log
          (subst (IsSeen p k n s.wal_locked.files) (sym h.entries) h.seen) in
      (s', e, dirty, subst (λ es. Goes p c k n es (suc count) s s') h.entries goes)
