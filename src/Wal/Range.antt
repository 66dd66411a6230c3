-- ===== src/Wal/Range.antt =====
-- What `read_logs` of wal.rs returns: the entries of the range, from a memoized position or not.
use hiqlite.Common.{
  ◌≢◌, ℕ, zero, suc, ◌+◌, ◌-◌, ◌≤◌, ◌<◌, ◌≡◌, ◌∙◌, refl, ap, sym, true, ◌⊎◌, Option, none, some,
  List, [], ◌∷◌, length, take, drop, arith, drop-drop, length-drop, ltb_ge, Bool-cases, inl, inr,
  subst, take-nil,
}
use hiqlite.Wal.Memory.{Image}
use hiqlite.Wal.Platform.{Platform}
use hiqlite.Wal.Outcome.{ok}
use hiqlite.Wal.File.{WalFile}
use hiqlite.Wal.Layout.{Entry, end_of, le-end_of, AreEntries, Holds, Layout}
use hiqlite.Wal.Logs.{LogReadMemo, read_loop, read_from, read_logs, memo_fits, start_of}
use hiqlite.Wal.Rounds.{Consecutive, IsOpen, position, read_path, skip}

-- The parts of a list of entries behind the first `k`.
end_of-take :
    (off k j : ℕ) (rs : List Entry)
    → end_of (end_of off (take k rs)) (take j (drop k rs)) ≡ end_of off (take (k + j) rs)
unfolding end_of
end_of-take off zero j rs = ap (λ i. end_of off (take i rs)) {x = j} (omega arith)
end_of-take off (suc k) j [] = ap (end_of off) (take-nil Entry j ∙ sym (take-nil Entry (suc k + j)))
end_of-take off (suc k) j ((id, d) ∷ rs) =
    end_of-take (off + 17 + length d) k j rs
    ∙ ap (λ i. end_of off (take i ((id, d) ∷ rs))) {x = suc (k + j)} (omega arith)

pub end_of-drop :
    (off k : ℕ) (rs : List Entry) → end_of (end_of off (take k rs)) (drop k rs) ≡ end_of off rs
unfolding end_of
end_of-drop off zero rs = refl
end_of-drop off (suc k) [] = refl
end_of-drop off (suc k) ((id, d) ∷ rs) = end_of-drop (off + 17 + length d) k rs

pub AreEntries-drop : (k : ℕ) (rs : List Entry) → AreEntries rs → AreEntries (drop k rs)
AreEntries-drop zero rs a = a
AreEntries-drop (suc k) [] a = tt
AreEntries-drop (suc k) ((id, d) ∷ rs) a = AreEntries-drop k rs a.2

pub Consecutive-drop :
    (n k m : ℕ) (rs : List Entry) → n + k ≡ m → Consecutive n rs → Consecutive m (drop k rs)
Consecutive-drop n zero m rs e c = subst (λ i. Consecutive i rs) {x = n} (omega arith) c
Consecutive-drop n (suc k) m [] e c = tt
Consecutive-drop n (suc k) m ((id, d) ∷ rs) e c = Consecutive-drop (suc n) k m rs (omega arith) c.1

pub length-le-end_of : (off : ℕ) (rs : List Entry) → off + length rs ≤ end_of off rs
unfolding end_of
length-le-end_of off [] = omega arith
length-le-end_of off ((id, d) ∷ rs) = omega (arith, length-le-end_of (off + 17 + length d) rs)

module _ (p : Platform) where
  pub Holds-drop :
      (img : Image) (off k : ℕ) (rs : List Entry)
      → Holds p img off rs
      → Holds p img (end_of off (take k rs)) (drop k rs)
  unfolding end_of
  Holds-drop img off zero rs h = h
  Holds-drop img off (suc k) [] h = tt
  Holds-drop img off (suc k) ((id, d) ∷ rs) h = Holds-drop img (off + 17 + length d) k rs h.4

  -- A memo is none, or not of this file, or marks the end of one of the entries `rs` at `s`.
  abbrev pub IsMemo : WalFile → ℕ → List Entry → Option LogReadMemo → Type 0
  IsMemo w s rs none = Unit
  IsMemo w s rs (some m) =
      (m.last_wal_no ≢ w.wal_no)
      ⊎ (m.id_from ≢ w.id_from)
      ⊎ ((w.id_from ≤ m.last_log_id)
          × (m.last_log_id ≤ w.id_until)
          × (m.data_end + 1 ≡ end_of s (take (suc (m.last_log_id - w.id_from)) rs)))

  module _ (w : WalFile) (s e : ℕ) (rs : List Entry) (l : Layout p w s e rs) (o : IsOpen p w)
      (c : Consecutive w.id_from rs) (full : w.id_from + length rs ≡ suc w.id_until) where
    -- The reads from the position behind the first `k` entries.
    read_behind :
        (from until : ℕ) (memo : Option LogReadMemo) (k : ℕ)
        → w.id_from + k ≤ from
        → from ≤ until
        → until ≤ w.id_until
        → read_loop p (suc w.len_max) w from until memo (end_of s (take k rs)) 0 []
          ≡ ok (record {
            offset = end_of s (take (from - w.id_from) rs);
            memo = some (position w until (end_of s (take (suc (until - w.id_from)) rs)));
            logs = take (suc (until - from)) (drop (from - w.id_from) rs);
          })
    read_behind from until memo k lo mid hi =
        skip p w o from until memo (suc w.len_max) (end_of s (take k rs)) (w.id_from + k)
          (drop k rs) (Holds-drop w.bytes s k rs l.holds) (AreEntries-drop k rs l.entries)
          (Consecutive-drop w.id_from k (w.id_from + k) rs refl c)
          (omega (arith, end_of-drop s k rs, l.ends, l.fits)) lo mid
          (omega (arith, length-drop k rs))
          (omega (arith, length-drop k rs, length-le-end_of s rs, l.ends, l.fits))
        ∙ read_path w
            (end_of-take s k (from - (w.id_from + k)) rs
              ∙ ap (λ i. end_of s (take i rs)) {x = k + (from - (w.id_from + k))}
                  {y = from - w.id_from} (omega arith))
            refl
            (end_of-take s k (suc (until - (w.id_from + k))) rs
              ∙ ap (λ i. end_of s (take i rs)) {x = k + suc (until - (w.id_from + k))}
                  {y = suc (until - w.id_from)} (omega arith))
            (ap (take (suc (until - from))) (
              drop-drop (from - (w.id_from + k)) k rs
              ∙ ap (λ i. drop i rs) {x = k + (from - (w.id_from + k))} {y = from - w.id_from}
                  (omega arith)))

    -- The position at which the loop starts, by the memo.
    start_of-memo :
        (from : ℕ) (memo : Option LogReadMemo)
        → w.id_from ≤ from
        → IsMemo w s rs memo
        → (k : ℕ) × (w.id_from + k ≤ from) × (start_of p w from memo s ≡ end_of s (take k rs))
    unfolding end_of
    start_of-memo from none lo m = (0, omega arith, refl)
    start_of-memo from (some m) lo h = elim (Bool-cases (memo_fits p w from m)) [
      | inr no_fit ↦ (0, omega arith, rw no_fit)
      | inl fit ↦ fitting h (ground (arith, fit)) (ground (arith, fit)) (ground (arith, fit)) fit
    ]
      where
        fitting :
            IsMemo w s rs (some m)
            → m.last_wal_no ≡ w.wal_no
            → m.id_from ≡ w.id_from
            → m.last_log_id < from
            → memo_fits p w from m ≡ true
            → (k : ℕ) × (w.id_from + k ≤ from)
              × (start_of p w from (some m) s ≡ end_of s (take k rs))
        fitting (inl ne) a b lt fit = absurd (ne a)
        fitting (inr (inl ne)) a b lt fit = absurd (ne b)
        fitting (inr (inr (ge, le, at))) a b lt fit =
            let k = suc (m.last_log_id - w.id_from) in
            (
              k,
              omega arith,
              rw fit (
                  omega (
                    arith,
                    at,
                    end_of-drop s k rs,
                    le-end_of (end_of s (take k rs)) (drop k rs),
                    l.ends,
                    l.fits,
                    l.small,
                  )),
            )

  -- A range of ids that a file holds is read in full: `read_logs` returns the entries from the id
  -- `from` up to and with `until`, in their order, and the offset of the first one. It needs no more
  -- rounds than its fuel, and the memo may be none, one of another file, or one that an earlier read
  -- of this file left; the memo that it leaves is again such a memo.
  pub read_logs-range :
      (w : WalFile) (s e : ℕ) (rs : List Entry) (from until : ℕ) (memo : Option LogReadMemo)
      → Layout p w s e rs
      → IsOpen p w
      → Consecutive w.id_from rs
      → w.id_from + length rs ≡ suc w.id_until
      → w.id_from ≤ from
      → from ≤ until
      → until ≤ w.id_until
      → IsMemo w s rs memo
      → let memo' = some (position w until (end_of s (take (suc (until - w.id_from)) rs))) in
        (read_logs p from until memo w
          ≡ ok (record {
            offset = end_of s (take (from - w.id_from) rs);
            memo = memo';
            logs = take (suc (until - from)) (drop (from - w.id_from) rs);
          }))
        × IsMemo w s rs memo'
  unfolding read_logs
  read_logs-range w s e rs from until memo l o c full lo mid hi m =
      let (k, below, start) = start_of-memo w s e rs l o c full from memo lo m in
      let n = suc (until - w.id_from) in
      (
        rw
            (
              ltb_ge from w.id_from lo,
              ltb_ge w.id_until until hi,
              ltb_ge until from mid,
              l.start,
              l.stop,
              read_from,
              start,
            )
            (read_behind w s e rs l o c full from until memo k below mid hi),
        inr (inr (omega arith, hi, omega (arith, le-end_of s (take n rs), l.behind_header))),
      )
