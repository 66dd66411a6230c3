-- ===== src/Wal/Batch.antt =====
-- A batch of entries in the loop of `Action::Append` in hiqlite-wal/src/writer.rs.
use hiqlite.Common.{
  ℕ, suc, ◌+◌, ◌^◌, ◌≤◌, ◌<◌, ◌≡◌, ◌∙◌, refl, ap, sym, subst, Bool, true, false, some, none, List,
  [], ◌∷◌, ◌++◌, append_assoc, append-nil, arith, length, length-append, ltb_ge, lt→ltb,
}
use hiqlite.Wal.Platform.{Platform}
use hiqlite.Wal.Outcome.{Outcome, ok, ◌>>=◌}
use hiqlite.Wal.File.{WalFile, offset_logs, has_space, min_wal_size}
use hiqlite.Wal.Layout.{Entry, AreEntries}
use hiqlite.Wal.Rounds.{Consecutive}
use hiqlite.Wal.Copies.{Begin, refresh-Begin, Lags, Lags-last, Lags-Begin, Shows-Lags}
use hiqlite.Wal.RollOver.{closed, next_file, get_elem?-append, set_at-append, roll_over-ok}
use hiqlite.Wal.Serve.{Part, files_of, entries_of, AreParts}
use hiqlite.Wal.Set.{WalFileSet, active_of, put_active, roll_over}
use hiqlite.Wal.Sealed.{
  IsActive, AreParts-append, files_of-append, entries_of-append, closed-IsPart, closed-IsTwin,
  next_file-IsActive,
}
use hiqlite.Wal.Active.{append_log-IsActive, has_space-none}
use hiqlite.Wal.Writer.{
  Config, Batch, data_len_limit, roll, append_active, append_entry, append_entries, with_room,
}

-- The set of the files of some parts and an active file behind them.
abbrev pub set_of : List Part → WalFile → WalFileSet
set_of qs w = record { active = some (length (files_of qs)); files = files_of qs ++ (w ∷ []) }

-- The readers' copy is of the same files and of the same active index, and shows all of the closed
-- files.
pub record IsShared (copy : WalFileSet) (qs : List Part) (w : WalFile) : Type 0 where
  pub active : copy.active ≡ some (length (files_of qs))
  pub files : Lags copy.files (files_of qs) w

pub active_of-set_of : (qs : List Part) (w : WalFile) → active_of (set_of qs w) ≡ ok w
unfolding active_of
active_of-set_of qs w = rw (get_elem?-append (files_of qs) [] w) refl

pub put_active-set_of :
    (qs : List Part) (w w' : WalFile) → put_active w' (set_of qs w) ≡ set_of qs w'
unfolding put_active
put_active-set_of qs w w' i = record {
  active = some (length (files_of qs));
  files = set_at-append (files_of qs) [] w w' i;
}

files_of-behind :
    (qs : List Part) (q : Part) (v : WalFile)
    → files_of qs ++ (q.file ∷ v ∷ []) ≡ files_of (qs ++ (q ∷ [])) ++ (v ∷ [])
files_of-behind qs q v =
    sym (append_assoc (files_of qs) (q.file ∷ []) (v ∷ []))
    ∙ ap (λ l. l ++ (v ∷ [])) (sym (files_of-append qs q))

set_of-behind :
    (qs : List Part) (q : Part) (v : WalFile) (a : ℕ)
    → a ≡ length (files_of (qs ++ (q ∷ [])))
    → ◌≡◌ {A = WalFileSet}
        (record { active = some a; files = files_of qs ++ (q.file ∷ v ∷ []) })
        (set_of (qs ++ (q ∷ [])) v)
set_of-behind qs q v a e i = record { active = some (e i); files = files_of-behind qs q v i }

length-files_of : (qs : List Part) → length (files_of qs) ≡ length qs
length-files_of [] = refl
length-files_of (q ∷ qs) = ap suc (length-files_of qs)

-- Every entry of a batch fits into a new file.
abbrev pub Fit : ℕ → List Entry → Type 0
Fit wal_size [] = Unit
Fit wal_size ((id, d) ∷ es) = (length d + 50 ≤ wal_size) × Fit wal_size es

module _ (p : Platform) (c : Config) (k n : ℕ) where
  -- The parts and the active file hold a log from the id `n` on, in files from the number `k` on.
  pub record IsLog (qs : List Part) (w : WalFile) (rs : List Entry) (copy : WalFileSet)
      : Type 0 where
    pub parts : AreParts p k n qs
    pub active : IsActive p c.wal_size (k + length qs) (n + length (entries_of qs)) w rs
    pub shared : IsShared copy qs w

  -- The batch was appended: the log holds the entries `all`, in at most `count` closed files.
  abbrev pub Appended : List Entry → ℕ → Outcome Batch → Type 0
  Appended all count o =
      (qs : List Part) × (w : WalFile) × (rs : List Entry) × (copy : WalFileSet) × (o
        ≡ ok (record { wal = set_of qs w; wal_locked = copy; failed = none }))
      × IsLog qs w rs copy
      × (entries_of qs ++ rs ≡ all)
      × (length qs ≤ count)

  append_active-IsLog :
      (qs : List Part) (w : WalFile) (rs : List Entry) (copy : WalFileSet) (id : ℕ) (d : List ℕ)
      → c.wal_size < 2 ^ 32
      → 0 < length d
      → id < 2 ^ 64
      → id ≡ n + length (entries_of qs ++ rs)
      → has_space w (length d) ≡ true
      → IsLog qs w rs copy
      → Appended
          ((entries_of qs ++ rs) ++ ((id, d) ∷ []))
          (length qs)
          (append_active p id d (set_of qs w) copy)
  unfolding append_active
  append_active-IsLog qs w rs copy id d small pos lt next space l =
      let (w', e, a, t) =
        append_log-IsActive p c.wal_size (k + length qs) (n + length (entries_of qs)) id d w small
          pos lt rs l.active space (omega (arith, next, length-append (entries_of qs) rs)) in
      (
        qs,
        w',
        rs ++ ((id, d) ∷ []),
        copy,
        rw (active_of-set_of qs w, e, put_active-set_of qs w w') refl,
        record {
          parts = l.parts;
          active = a;
          shared = record {
            active = l.shared.active;
            files = Lags-last copy.files (files_of qs) w w' t l.shared.files;
          };
        },
        sym (append_assoc (entries_of qs) rs ((id, d) ∷ [])),
        omega arith,
      )

  abbrev closed_part : WalFile → ℕ → ℕ → List Entry → Part
  closed_part w s e rs = record { file = closed p w; start = s; stop = e; entries = rs }

  -- A roll-over behind an active file that has entries.
  pub roll-IsLog :
      (qs : List Part) (w : WalFile) (r : Entry) (rs : List Entry) (copy : WalFileSet)
      → c.wal_size < 2 ^ 32
      → min_wal_size ≤ c.wal_size
      → suc (k + length qs) < 2 ^ 64
      → IsLog qs w (r ∷ rs) copy
      → (q : Part) × (v : WalFile) × (copy' : WalFileSet) × (roll p c.wal_size (set_of qs w) copy
          ≡ ok (set_of (qs ++ (q ∷ [])) v, copy'))
        × (q.entries ≡ r ∷ rs)
        × IsLog (qs ++ (q ∷ [])) v [] copy'
  unfolding roll
  roll-IsLog qs w r rs copy small large room l =
      let (s, e, part) = l.active.kept in
      let q = closed_part w s e (r ∷ rs) in
      let v = next_file p w c.wal_size in
      let qs' = qs ++ (q ∷ []) in
      let len = length-append qs (q ∷ []) in
      let size : 32 ≤ w.size = omega (arith, l.active.sized, l.active.len_max, large) in
      let rolled : roll_over p c.wal_size (set_of qs w) ≡ ok (set_of qs' v) =
        roll_over-ok p c.wal_size (files_of qs) w l.active.version l.active.mapped size large
        ∙ ap ok (
            set_of-behind qs q v (suc (length (files_of qs)))
              (omega (arith, length-files_of qs, length-files_of qs', len))) in
      let begins : Begin copy.files (set_of qs' v).files =
        subst (λ ws. Begin copy.files ws) (files_of-behind qs q v)
          (Lags-Begin copy.files (files_of qs) (v ∷ []) w (closed p w) (closed-IsTwin p w)
            l.shared.files) in
      let (gs, shared, shows) = refresh-Begin (set_of qs' v) copy begins in
      (
        q,
        v,
        _,
        rw (rolled, shared) refl,
        refl,
        record {
          parts =
              AreParts-append p k n qs q l.parts
                (closed-IsPart p (k + length qs) (n + length (entries_of qs)) s e w (r ∷ rs) part);
          active =
              subst (λ i. IsActive p c.wal_size i (n + length (entries_of qs')) v [])
                {x = suc (k + length qs)} (omega (arith, len))
                (next_file-IsActive p c.wal_size (k + length qs) (n + length (entries_of qs')) w
                  l.active.number room);
          shared = record { active = refl; files = Shows-Lags gs (files_of qs') v shows };
        },
      )

  pub entries_of-rolled :
      (qs : List Part) (q : Part) (rs : List Entry)
      → q.entries ≡ rs
      → entries_of (qs ++ (q ∷ [])) ++ [] ≡ entries_of qs ++ rs
  entries_of-rolled qs q rs e =
      append-nil (entries_of (qs ++ (q ∷ [])))
      ∙ entries_of-append qs q
      ∙ ap (λ l. entries_of qs ++ l) e

  Appended-weaken :
      (all all' : List Entry) (count count' : ℕ) (o : Outcome Batch)
      → all ≡ all'
      → count ≤ count'
      → Appended all count o
      → Appended all' count' o
  Appended-weaken all all' count count' o e le (qs, w, rs, copy, done, l, holds, bound) =
      (qs, w, rs, copy, done, l, holds ∙ e, omega (arith, bound, le))

  module _ (small : c.wal_size < 2 ^ 32) (large : min_wal_size ≤ c.wal_size) where
    -- An entry that a new file has room for, in the file that is active, or behind a roll-over.
    module _ (qs : List Part) (w : WalFile) (copy : WalFileSet) (id : ℕ) (d : List ℕ)
        (fits : length d + 50 ≤ c.wal_size) (pos : 0 < length d) (lt : id < 2 ^ 64) where
      blank-has_space :
          (k' m : ℕ) (v : WalFile) → IsActive p c.wal_size k' m v [] → has_space v (length d) ≡ true
      blank-has_space k' m v a =
          has_space-none v (length d) a.kept.1
          ∙ lt→ltb (offset_logs + 1 + 8 + 4 + 4 + length d) v.len_max
              (omega (arith, fits, a.len_max))

      entry_rolled :
          (r : Entry) (rs : List Entry)
          → id ≡ n + length (entries_of qs ++ (r ∷ rs))
          → suc (k + length qs) < 2 ^ 64
          → IsLog qs w (r ∷ rs) copy
          → Appended
              ((entries_of qs ++ (r ∷ rs)) ++ ((id, d) ∷ []))
              (suc (length qs))
              (roll p c.wal_size (set_of qs w) copy >>= λ t. append_active p id d t.0 t.1)
      entry_rolled r rs next room l =
          let (q, v, copy', e, same, l') = roll-IsLog qs w r rs copy small large room l in
          let all = entries_of-rolled qs q (r ∷ rs) same in
          let qs' = qs ++ (q ∷ []) in
          let space = blank-has_space (k + length qs') (n + length (entries_of qs')) v l'.active in
          rw e (
            Appended-weaken _ _ _ _ _ (ap (λ es. es ++ ((id, d) ∷ [])) all)
              (omega (arith, length-append qs (q ∷ [])))
              (append_active-IsLog qs' v [] copy' id d small pos lt
                (next ∙ ap (λ es. n + length es) (sym all)) space l'))

      entry_split :
          (b : Bool) (rs : List Entry)
          → has_space w (length d) ≡ b
          → id ≡ n + length (entries_of qs ++ rs)
          → suc (k + length qs) < 2 ^ 64
          → IsLog qs w rs copy
          → Appended
              ((entries_of qs ++ rs) ++ ((id, d) ∷ []))
              (suc (length qs))
              (with_room p c.wal_size id d (set_of qs w) copy w)
      entry_split true rs space next room l = rw space (
          Appended-weaken _ _ _ _ _ refl (omega arith)
            (append_active-IsLog qs w rs copy id d small pos lt next space l))
      entry_split false [] space next room l =
          ground
            (arith, blank-has_space (k + length qs) (n + length (entries_of qs)) w l.active, space)
      entry_split false (r ∷ rs) space next room l = rw space (entry_rolled r rs next room l)

      append_entry-IsLog :
          (rs : List Entry)
          → id ≡ n + length (entries_of qs ++ rs)
          → suc (k + length qs) < 2 ^ 64
          → IsLog qs w rs copy
          → Appended
              ((entries_of qs ++ rs) ++ ((id, d) ∷ []))
              (suc (length qs))
              (append_entry p c (id, d) (set_of qs w) copy)
      unfolding append_entry
      append_entry-IsLog rs next room l =
          rw
            (
              ltb_ge (data_len_limit c.wal_size) (length d) (omega (arith, fits)),
              active_of-set_of qs w,
            )
            (entry_split (has_space w (length d)) rs refl next room l)

    -- A batch of entries that carries on the ids of the log, each of which fits into a new file, is
    -- appended in full, over as many files as it takes.
    pub append_entries-IsLog :
        (es : List Entry) (qs : List Part) (w : WalFile) (rs : List Entry) (copy : WalFileSet)
        → Fit c.wal_size es
        → AreEntries es
        → Consecutive (n + length (entries_of qs ++ rs)) es
        → k + length qs + length es < 2 ^ 64
        → IsLog qs w rs copy
        → Appended
            ((entries_of qs ++ rs) ++ es)
            (length qs + length es)
            (append_entries p c es (set_of qs w) copy)
    unfolding append_entries
    append_entries-IsLog [] qs w rs copy fits es next room l =
        (qs, w, rs, copy, refl, l, sym (append-nil (entries_of qs ++ rs)), omega arith)
    append_entries-IsLog ((id, d) ∷ es) qs w rs copy (fit, fits) (pos, lt, ok_es) (e, next) room l =
        let (qs', w', rs', copy', done, l', all, bound) =
          append_entry-IsLog qs w copy id d fit pos lt rs e (omega (arith, room)) l in
        let len = length-append (entries_of qs ++ rs) ((id, d) ∷ []) in
        rw done (
          Appended-weaken _ _ _ _ _
            (ap (λ l. l ++ es) all ∙ append_assoc (entries_of qs ++ rs) ((id, d) ∷ []) es)
            (omega (arith, bound))
            (append_entries-IsLog es qs' w' rs' copy' fits ok_es
              (subst (λ m. Consecutive m es) {x = suc (n + length (entries_of qs ++ rs))}
                (omega (arith, len, ap length all)) next)
              (omega (arith, bound, room)) l'))
