-- ===== src/Wal/Popped.antt =====
-- The files that a purge at the front leaves: `shift_delete_logs` of hiqlite-wal/src/wal.rs on a log in
-- parts, and the readers' copy behind it.
use hiqlite.Common.{
  ℕ, suc, ◌+◌, ◌-◌, ◌≤◌, ◌<◌, ◌≡◌, ◌∙◌, refl, ap, sym, subst, true, false, List, [], ◌∷◌, ◌++◌,
  arith, length, drop, length-append, lt→ltb, ltb_ge,
}
use native.Mathlib.Decide.{dec_lt}
use hiqlite.Wal.Platform.{Platform}
use hiqlite.Wal.Outcome.{ok}
use hiqlite.Wal.File.{WalFile}
use hiqlite.Wal.Cut.{IsFull, purged, cut, purge_file-purged}
use hiqlite.Wal.Delete.{pop_front, purge_file}
use hiqlite.Wal.Shared.{has_number, retained}
use hiqlite.Wal.Copies.{IsTwin, Named, Lags, retained-Named}
use hiqlite.Wal.Sent.{drop-append_ge}
use hiqlite.Wal.Serve.{Part, files_of, entries_of, IsPart, AreParts}

-- The numbers of the files are at least `m`.
abbrev pub From : ℕ → List WalFile → Type 0
From m [] = Unit
From m (w ∷ ws) = (m ≤ w.wal_no) × From m ws

has_number-From : (k m : ℕ) (ws : List WalFile) → k < m → From m ws → has_number k ws ≡ false
unfolding has_number
has_number-From k m [] lt b = refl
has_number-From k m (w ∷ ws) lt (h, b) = ground (arith, has_number-From k m ws lt b, h, lt)

module _ (p : Platform) where
  -- The first of the parts reaches the id.
  abbrev pub Reaches : ℕ → List Part → Type 0
  Reaches id [] = Unit
  Reaches id (q ∷ qs) = id ≤ q.file.id_until

  -- The parts behind the files that were removed, and what remains of the readers' copy.
  pub record Popped (k n id : ℕ) (qs : List Part) (w : WalFile) (fs : List WalFile)
      (parts : List Part) : Type 0 where
    pub count : ℕ
    pub first : ℕ
    pub copies : List WalFile
    pub popped : pop_front id (files_of qs ++ (w ∷ [])) ≡ files_of parts ++ (w ∷ [])
    pub holds : AreParts p (k + count) first parts
    pub low : n ≤ first
    pub high : first ≤ id
    pub reached : Reaches id parts
    pub entries : entries_of parts ≡ drop (first - n) (entries_of qs)
    pub total : first + length (entries_of parts) ≡ n + length (entries_of qs)
    pub counted : count + length parts ≡ length qs
    pub lags : Lags copies (files_of parts) w
    pub kept :
        (other : List WalFile)
        → From (k + count) other
        → Named copies other
        → retained other fs ≡ copies

  -- Nothing is removed of files whose first reaches the id.
  Popped-none :
      (k n id : ℕ) (qs : List Part) (w : WalFile) (fs : List WalFile)
      → pop_front id (files_of qs ++ (w ∷ [])) ≡ files_of qs ++ (w ∷ [])
      → AreParts p k n qs
      → n ≤ id
      → Reaches id qs
      → Lags fs (files_of qs) w
      → Popped k n id qs w fs qs
  Popped-none k n id qs w fs same a le reached lags = record {
    count = 0;
    first = n;
    copies = fs;
    popped = same;
    holds = subst (λ i. AreParts p i n qs) {x = k} (omega arith) a;
    low = omega arith;
    high = le;
    reached = reached;
    entries = ap (λ i. drop i (entries_of qs)) {x = 0} (omega arith);
    total = refl;
    counted = omega arith;
    lags = lags;
    kept = λ other from named. retained-Named other fs named;
  }

  retained-gone :
      (f : WalFile) (fs other : List WalFile) (m : ℕ)
      → f.wal_no < m
      → From m other
      → retained other (f ∷ fs) ≡ retained other fs
  unfolding retained
  retained-gone f fs other m lt b = rw (has_number-From f.wal_no m other lt b) refl

  pub pop_front-Popped :
      (k n id : ℕ) (qs : List Part) (w : WalFile) (fs : List WalFile)
      → AreParts p k n qs
      → n ≤ id
      → (n + length (entries_of qs) ≤ id → id ≤ w.id_until)
      → Lags fs (files_of qs) w
      → (ps : List Part) × Popped k n id qs w fs ps
  unfolding pop_front
  pop_front-Popped k n id [] w fs a le covers lags = (
    [],
    Popped-none k n id [] w fs (rw (ltb_ge w.id_until id (covers (omega (arith, le)))) refl) a le tt
        lags,
  )
  pop_front-Popped k n id (q ∷ qs) w [] a le covers lags = absurd lags
  pop_front-Popped k n id (q ∷ qs) w (f ∷ fs) (part, a) le covers (shown, lags) =
      let len : n + length q.entries ≡ suc q.file.id_until = omega (arith, part.full, part.first) in
      let sum = length-append q.entries (entries_of qs) in
      elim (dec_lt q.file.id_until id) [
        | yes lt ↦
            let (ps, c) =
              pop_front-Popped (suc k) (suc q.file.id_until) id qs w fs a lt
                (λ h. covers (omega (arith, h, len, sum))) lags in
            let skip : drop (c.first - n) (entries_of (q ∷ qs))
                ≡ drop (c.first - suc q.file.id_until) (entries_of qs) =
              drop-append_ge (c.first - n) q.entries (entries_of qs) (omega (arith, len, c.low))
              ∙ ap (λ i. drop i (entries_of qs)) {x = c.first - n - length q.entries}
                  (omega (arith, len, c.low)) in
            (
              ps,
              record {
                count = suc c.count;
                first = c.first;
                copies = c.copies;
                popped = rw (lt→ltb q.file.id_until id lt) c.popped;
                holds =
                    subst (λ i. AreParts p i c.first ps) {x = suc k + c.count} (omega arith)
                      c.holds;
                low = omega (arith, c.low, len);
                high = c.high;
                reached = c.reached;
                entries = c.entries ∙ sym skip;
                total = omega (arith, c.total, len, sum);
                counted = omega (arith, c.counted);
                lags = c.lags;
                kept = λ other from named.
                    retained-gone f fs other (k + suc c.count)
                      (omega (arith, ap (λ v. v.wal_no) shown, part.number)) from
                    ∙ c.kept other
                        (subst (λ i. From i other) {x = k + suc c.count} (omega arith) from) named;
              },
            )
        | no here ↦ (
          q ∷ qs,
          Popped-none k n id (q ∷ qs) w (f ∷ fs)
              (rw (ltb_ge q.file.id_until id (omega (arith, here))) refl) (part, a) le
              (omega (arith, here)) (shown, lags),
        )
      ]

  -- A part that reaches the id is purged up to it.
  pub purge_part :
      (k n id : ℕ) (q : Part)
      → IsPart p k n q
      → n ≤ id
      → id ≤ q.file.id_until
      → (q' : Part) × (purge_file p id q.file ≡ ok q'.file)
        × IsPart p k id q'
        × IsTwin q.file q'.file
        × (q.file.mmap_mut ≡ true → q'.file.mmap_mut ≡ true)
        × (q'.file.id_until ≡ q.file.id_until)
        × (q'.entries ≡ drop (id - n) q.entries)
  unfolding purge_file
  purge_part k n id q part lo hi = elim (dec_lt n id) [
    | yes lt ↦
        let f : IsFull p q.file q.start q.stop q.entries = record {
          layout = part.layout;
          version = part.version;
          consecutive = part.consecutive;
          count = part.full;
        } in
        let above : q.file.id_from < id = omega (arith, lt, part.first) in
        let (e, f') = purge_file-purged p q.file q.start q.stop q.entries f id above hi in
        let skip : drop (id - q.file.id_from) q.entries ≡ drop (id - n) q.entries =
          ap (λ i. drop i q.entries) {x = id - q.file.id_from} (omega (arith, part.first)) in
        (
          record {
            file = purged p q.file q.start q.stop q.entries f id above hi;
            start = cut p q.file q.start q.stop q.entries f id above hi;
            stop = q.stop;
            entries = drop (id - q.file.id_from) q.entries;
          },
          e,
          record {
            number = part.number;
            first = refl;
            version = part.version;
            layout = f'.layout;
            consecutive = f'.consecutive;
            full = f'.count;
            some_entry = hi;
          },
          record { number = refl; version = refl; len_max = refl; size = refl },
          λ m. refl,
          refl,
          skip,
        )
    | no here ↦
        let same : id ≡ n = omega (arith, here, lo) in
        (
          q,
          rw (ltb_ge q.file.id_from id (omega (arith, same, part.first))) refl,
          subst (λ i. IsPart p k i q) (sym same) part,
          record { number = refl; version = refl; len_max = refl; size = refl },
          λ m. m,
          refl,
          ap (λ i. drop i q.entries) {x = 0} (omega (arith, same)),
        )
  ]
