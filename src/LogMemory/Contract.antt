-- ===== src/LogMemory/Contract.antt =====
-- What the operations of memory.rs do to the map from indices to entries.
use hiqlite.Common.{
  ℕ, suc, ◌+◌, ◌-◌, ◌^◌, ◌≤◌, ◌<◌, ◌≡◌, ◌∙◌, refl, ap, sym, none, some, List, [], ◌∷◌, leb, ltb,
  if◌then◌else◌, length, take, drop, arith, subst, drop-drop, le→leb, take-nil, length-take,
  length-drop, leb_lt, ltb_ge,
}
use hiqlite.LogMemory.{
  LogId, Entry, LogStore, included, sub64, or, map_id, truncate_logs, truncate, purge_logs,
  purge_with, purge, try_get_log_entries, get_until, entries_between,
}
use hiqlite.LogMemory.Entries.{
  Contiguous, entry_at, entry_at-take, entry_at-drop, Contiguous-take, Contiguous-drop, head-drop,
}

module _ {L P : Type 0} where
  truncate_logs-eq :
      (id : LogId L) (n : ℕ) (es : List (Entry L P))
      → Contiguous n es
      → n ≤ id.index
      → id.index < 2 ^ 64
      → truncate_logs id es ≡ take (id.index - n) es
  unfolding truncate_logs
  truncate_logs-eq id n [] c h lt = sym (take-nil (Entry L P) (id.index - n))
  truncate_logs-eq id n (e ∷ es) c h lt = ap (λ k. take k (e ∷ es)) (omega (arith, c.0))

  purge_logs-eq :
      (id : LogId L) (n : ℕ) (es : List (Entry L P))
      → Contiguous n es
      → n ≤ id.index
      → id.index < n + length es
      → id.index < 2 ^ 64
      → purge_logs id es ≡ some (drop (id.index - n + 1) es, map_id (entry_at id.index es))
  unfolding purge_logs
  purge_logs-eq id n [] c h within lt = absurd (omega arith)
  purge_logs-eq id n (e ∷ es) c h within lt =
      let k : sub64 id.index e.log_id.index ≡ id.index - n = omega (arith, c.0) in
      rw (
        k,
        le→leb (id.index - n) (suc (length es)) (omega arith),
        drop-drop 1 (id.index - n) (e ∷ es),
        head-drop id.index n (e ∷ es) c h,
      )

  get_until-eq :
      (from until n : ℕ) (es : List (Entry L P))
      → Contiguous n es
      → n ≤ from
      → from ≤ until
      → until < n + length es
      → until < 2 ^ 64
      → get_until from until es ≡ some (take (until + 1 - from) (drop (from - n) es))
  unfolding get_until entries_between
  get_until-eq from until n [] c lo mid hi lt = absurd (omega arith)
  get_until-eq from until n (e ∷ es) c lo mid hi lt =
      let a : sub64 from e.log_id.index ≡ from - n = omega (arith, c.0) in
      let b : sub64 until e.log_id.index ≡ until - n = omega (arith, c.0) in
      let d : until - n + 1 - (from - n) ≡ until + 1 - from = omega arith in
      rw (
        ltb_ge until from mid,
        a,
        b,
        le→leb (from - n) (until - n + 1) (omega arith),
        le→leb (until - n + 1) (suc (length es)) (omega arith),
        d,
      )

module _ {L P V : Type 0} where
  -- `truncate` keeps every entry with a smaller index and drops the one that it names and all behind
  -- it, and the indices stay without a gap. The named index does not lie before the log.
  pub truncate_lem :
      (id : LogId L) (n : ℕ) (s : LogStore L P V)
      → Contiguous n s.logs
      → n ≤ id.index
      → id.index < 2 ^ 64
      → Contiguous n (truncate id s).logs
        × ((i : ℕ)
            → entry_at i (truncate id s).logs
              ≡ (if ltb i id.index then entry_at i s.logs else none))
  unfolding truncate
  truncate_lem id n s c h lt = rw (truncate_logs-eq id n s.logs c h lt) (
    Contiguous-take n (id.index - n) s.logs c,
    λ i.
        entry_at-take i n (id.index - n) s.logs c
        ∙ ap (λ k. if ltb i k then entry_at i s.logs else none) (omega arith),
  )

  -- `purge` of an index that the log holds drops this entry and all before it and keeps all behind
  -- it, the indices stay without a gap, and the id of the named entry is recorded as purged.
  pub purge_lem :
      (id : LogId L) (n : ℕ) (s : LogStore L P V)
      → Contiguous n s.logs
      → n ≤ id.index
      → id.index < n + length s.logs
      → id.index < 2 ^ 64
      → (s' : LogStore L P V) × (purge id s ≡ some s')
        × (s'.last_purged ≡ or (map_id (entry_at id.index s.logs)) s.last_purged)
        × Contiguous (id.index + 1) s'.logs
        × ((i : ℕ) → entry_at i s'.logs ≡ (if leb i id.index then none else entry_at i s.logs))
  unfolding purge
  purge_lem id n s c h within lt = (
    record s {
      logs = drop (id.index - n + 1) s.logs;
      last_purged = or (map_id (entry_at id.index s.logs)) s.last_purged;
    },
    ap (purge_with s) (purge_logs-eq id n s.logs c h within lt),
    refl,
    subst (λ k. Contiguous k (drop (id.index - n + 1) s.logs)) {x = n + (id.index - n + 1)}
        (omega arith) (Contiguous-drop n (id.index - n + 1) s.logs c),
    λ i. entry_at-drop i n (id.index - n + 1) s.logs c ∙ ground arith,
  )

  -- `purge` of an index behind the end of a log that is not empty panics, unless it is the next
  -- index: so it does where a snapshot covers more than the log holds.
  pub purge-beyond :
      (id : LogId L) (n : ℕ) (s : LogStore L P V)
      → Contiguous n s.logs
      → 0 < length s.logs
      → n + length s.logs < id.index
      → id.index < 2 ^ 64
      → purge id s ≡ none
  unfolding purge
  purge-beyond id n s c pos beyond lt = ap (purge_with s) (over s.logs c pos beyond)
    where
      over :
          (es : List (Entry L P))
          → Contiguous n es
          → 0 < length es
          → n + length es < id.index
          → purge_logs id es ≡ none
      over [] c pos beyond = absurd (omega arith)
      over (e ∷ es) c pos beyond =
          unfold purge_logs in
          (let k : sub64 id.index e.log_id.index ≡ id.index - n = omega (arith, c.0) in
            rw (k, leb_lt (id.index - n) (suc (length es)) (omega arith)))

  -- A range of indices that the log holds is read in full and in order: the result starts at the
  -- first index, goes on without a gap up to and with the last one, and holds the log's entries.
  pub try_get_log_entries_lem :
      (from until n : ℕ) (s : LogStore L P V)
      → Contiguous n s.logs
      → n ≤ from
      → from ≤ until
      → until < n + length s.logs
      → until < 2 ^ 64
      → (es : List (Entry L P)) × (try_get_log_entries (included from) (included until) s ≡ some es)
        × Contiguous from es
        × (length es ≡ until + 1 - from)
        × ((i : ℕ)
            → entry_at i es ≡ (
                if ltb i (until + 1)
                then (if ltb i from then none else entry_at i s.logs)
                else none))
  unfolding try_get_log_entries
  try_get_log_entries_lem from until n s c lo mid hi lt =
      let behind = drop (from - n) s.logs in
      let c' : Contiguous from behind =
        subst (λ k. Contiguous k behind) {x = n + (from - n)} (omega arith)
          (Contiguous-drop n (from - n) s.logs c) in
      (
        take (until + 1 - from) behind,
        get_until-eq from until n s.logs c lo mid hi lt,
        Contiguous-take from (until + 1 - from) behind c',
        omega (arith, length-take (until + 1 - from) behind, length-drop (from - n) s.logs),
        λ i.
            entry_at-take i from (until + 1 - from) behind c'
            ∙ ap (λ k. if ltb i k then entry_at i behind else none) (omega arith)
            ∙ ap (λ o. if ltb i (until + 1) then o else none)
                (entry_at-drop i n (from - n) s.logs c
                  ∙ ap (λ k. if ltb i k then none else entry_at i s.logs) (omega arith)),
      )
