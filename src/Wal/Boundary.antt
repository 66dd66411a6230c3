-- ===== src/Wal/Boundary.antt =====
-- Two states of the active file in which the writer of hiqlite-wal/src/writer.rs ends at its next append.
use hiqlite.Common.{
  ℕ, ◌+◌, ◌-◌, ◌≤◌, ◌<◌, ◌≡◌, ◌∙◌, refl, ap, sym, false, Option, some, none, List, [], ◌∷◌, ◌++◌,
  arith, length, length-append, append_assoc, ltb_ge, lt→ltb, le→leb, leb_lt, last?,
}
use hiqlite.Wal.Platform.{Platform}
use hiqlite.Wal.Outcome.{Outcome, ok, panic, ◌>>=◌}
use hiqlite.Wal.File.{
  WalFile, u32, offset_logs, write_all, store_record, append_at, append_to, append_log,
}
use hiqlite.Wal.Set.{WalFileSet, active_of, use_last}
use hiqlite.Wal.RollOver.{get_elem?-append, last?-append}
use hiqlite.Wal.Active.{has_space-none}
use hiqlite.Wal.Delete.{
  pop_back, pop_last, with_back, truncate_file, truncate_back, refill, shift_delete_logs,
}
use hiqlite.Wal.Writer.{Config, data_len_limit, append_active, append_entry}

pop_last-append :
    (id : ℕ) (u : WalFile) (ws : List WalFile) (w : WalFile)
    → pop_last id u (ws ++ (w ∷ [])) ≡ u ∷ (ws ++ (w ∷ []))
pop_last-append id u [] w = refl
pop_last-append id u (v ∷ ws) w = refl

pop_back-append :
    (id : ℕ) (ws : List WalFile) (w v : WalFile)
    → w.id_from ≤ id
    → id < v.id_from
    → pop_back id (ws ++ (w ∷ v ∷ [])) ≡ ws ++ (w ∷ [])
unfolding pop_back
pop_back-append id [] w v lo hi = rw (lt→ltb id v.id_from hi, ltb_ge id w.id_from lo) refl
pop_back-append id (u ∷ ws) w v lo hi =
    ap (pop_last id u) (pop_back-append id ws w v lo hi) ∙ pop_last-append id u ws w

with_back-append :
    (f : WalFile → Outcome WalFile) (ws : List WalFile) (w w' : WalFile)
    → f w ≡ ok w'
    → with_back f (ws ++ (w ∷ [])) ≡ ok (ws ++ (w' ∷ []))
with_back-append f [] w w' e = ap (λ o. o >>= λ v. ok (v ∷ [])) e
with_back-append f (u ∷ []) w w' e =
    ap (λ o. o >>= λ vs. ok (u ∷ vs)) (with_back-append f [] w w' e)
with_back-append f (u ∷ v ∷ ws) w w' e =
    ap (λ o. o >>= λ vs. ok (u ∷ vs)) (with_back-append f (v ∷ ws) w w' e)

last?-two : (ws : List WalFile) (w v : WalFile) → last? (ws ++ (w ∷ v ∷ [])) ≡ some v
last?-two ws w v =
    ap last? (sym (append_assoc ws (w ∷ []) (v ∷ []))) ∙ last?-append (ws ++ (w ∷ [])) v

module _ (p : Platform) (c : Config) where
  -- The file after a truncation at its first id.
  abbrev emptied : ℕ → WalFile → WalFile
  emptied id w = record w { id_until = id; data_start = none; data_end = none }

  abbrev started : ℕ → WalFile → WalFile
  started id w = record w { id_from = id; data_start = some (u32 offset_logs) }

  append_log-unmapped :
      (id : ℕ) (d : List ℕ) (w : WalFile)
      → w.data_start ≡ none
      → w.mmap_mut ≡ false
      → append_log p id d w ≡ (panic, started id w)
  unfolding append_log append_to append_at store_record write_all
  append_log-unmapped id d w s m = rw (s, m) refl

  refill-append :
      (wal_size : ℕ) (ws : List WalFile) (w : WalFile) (s : WalFileSet)
      → refill p wal_size (ws ++ (w ∷ [])) s ≡ ok s
  unfolding refill
  refill-append wal_size [] w s = refl
  refill-append wal_size (v ∷ ws) w s = refl

  truncate_file-first :
      (id : ℕ) (w : WalFile) → w.id_from ≡ id → truncate_file p id w ≡ ok (emptied id w)
  unfolding truncate_file
  truncate_file-first id w here = ground (arith, here)

  truncate_back-boundary :
      (id wal_size : ℕ) (a : Option ℕ) (ws : List WalFile) (w v : WalFile)
      → w.id_from ≡ id
      → id < v.id_from
      → truncate_back p id wal_size (record { active = a; files = ws ++ (w ∷ v ∷ []) })
        ≡ (ok tt, use_last (record { active = a; files = ws ++ (emptied id w ∷ []) }))
  unfolding truncate_back
  truncate_back-boundary id wal_size a ws w v here hi =
      rw
        (
          pop_back-append id ws w v (omega (arith, here)) hi,
          refill-append wal_size ws w (record { active = a; files = ws ++ (w ∷ []) }),
          with_back-append (truncate_file p id) ws w (emptied id w) (truncate_file-first id w here),
        )
        refl

  append_active-unmapped :
      (id : ℕ) (d : List ℕ) (s copy : WalFileSet) (e : WalFile)
      → active_of s ≡ ok e
      → e.data_start ≡ none
      → e.mmap_mut ≡ false
      → append_active p id d s copy ≡ panic
  unfolding append_active
  append_active-unmapped id d s copy e found start sealed =
      rw (found, append_log-unmapped id d e start sealed) refl

  -- An append to an active file that is empty and not open for writing.
  append_entry-unmapped :
      (id : ℕ) (d : List ℕ) (s copy : WalFileSet) (e : WalFile)
      → active_of s ≡ ok e
      → e.data_start ≡ none
      → e.data_end ≡ none
      → e.mmap_mut ≡ false
      → length d + 50 ≤ c.wal_size
      → e.len_max ≡ c.wal_size
      → append_entry p c (id, d) s copy ≡ panic
  unfolding append_entry
  append_entry-unmapped id d s copy e found start stop sealed fits max =
      rw
        (
          ltb_ge (data_len_limit c.wal_size) (length d) (omega (arith, fits)),
          found,
          has_space-none e (length d) stop,
          lt→ltb (offset_logs + 1 + 8 + 4 + 4 + length d) e.len_max (omega (arith, fits, max)),
        )
        (append_active-unmapped id d s copy e found start sealed)

  active_of-last :
      (a : Option ℕ) (ws : List WalFile) (e : WalFile)
      → active_of (use_last (record { active = a; files = ws ++ (e ∷ []) })) ≡ ok e
  unfolding active_of
  active_of-last a ws e =
      let at_end : length (ws ++ (e ∷ [])) - 1 ≡ length ws =
        omega (arith, length-append ws (e ∷ [])) in
      rw (at_end, get_elem?-append ws [] e) refl

  -- A truncation that starts at the first id of the last file but one, with another file in front of
  -- it, and that takes the last file too, leaves the last file but one to be the active one, and not
  -- open for writing: the next append of an entry that fits panics.
  pub shift_delete_logs-unmapped :
      (id until id' : ℕ) (d : List ℕ) (a : Option ℕ) (u : WalFile) (ws : List WalFile)
      (w v : WalFile) (copy : WalFileSet)
      → u.id_from < id
      → w.id_from ≡ id
      → id < v.id_from
      → v.id_until ≤ until
      → w.mmap_mut ≡ false
      → length d + 50 ≤ c.wal_size
      → w.len_max ≡ c.wal_size
      → (s' : WalFileSet) × (shift_delete_logs p id until c.wal_size
            (record { active = a; files = u ∷ (ws ++ (w ∷ v ∷ [])) })
          ≡ (ok tt, s'))
        × (append_entry p c (id', d) s' copy ≡ panic)
  unfolding shift_delete_logs
  shift_delete_logs-unmapped id until id' d a u ws w v copy front here hi last sealed fits max =
      let e = emptied id w in
      let s' = use_last (record { active = a; files = u ∷ (ws ++ (e ∷ [])) }) in
      (
        s',
        rw
            (
              leb_lt id u.id_from front,
              last?-two (u ∷ ws) w v,
              le→leb v.id_until until last,
              truncate_back-boundary id c.wal_size a (u ∷ ws) w v here hi,
            )
            refl,
        append_entry-unmapped id' d s' copy e (active_of-last a (u ∷ ws) e) refl refl sealed fits
            max,
      )
