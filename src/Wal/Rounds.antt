-- ===== src/Wal/Rounds.antt =====
-- The rounds of the loop of `read_logs` in wal.rs, over entries that stand one behind the other.
use hiqlite.Common.{
  ℕ, zero, suc, ◌+◌, ◌-◌, ◌^◌, ◌≤◌, ◌<◌, ◌≡◌, ◌∙◌, refl, ap, sym, true, ◌||◌, Option, some, List,
  [], ◌∷◌, ◌++◌, ap₂, ◌==◌, if◌then◌else◌, length, take, drop, arith, append_assoc, le→leb, leb_lt,
  ==_gt,
}
use native.Mathlib.Decide.{dec_lt}
use hiqlite.Wal.Platform.{Platform}
use hiqlite.Wal.Outcome.{Outcome, ok}
use hiqlite.Wal.File.{WalFile, WalRecord, u32, record_len}
use hiqlite.Wal.Layout.{Entry, end_of, le-end_of, AreEntries, Holds}
use hiqlite.Wal.Append.{read_record-Holds}
use hiqlite.Wal.Header.{bytes_eq_refl}
use hiqlite.Wal.Logs.{LogReadMemo, ReadLogs, read_loop, visit}

-- The ids of the entries go up by one, from `n`.
abbrev pub Consecutive : ℕ → List Entry → Type 0
Consecutive n [] = Unit
Consecutive n ((id, d) ∷ rs) = (id ≡ n) × Consecutive (suc n) rs

-- The memo behind the entry with the id `last`, where the next entry starts at `behind`.
abbrev pub position : WalFile → ℕ → ℕ → LogReadMemo
position w last behind = record {
  last_wal_no = w.wal_no;
  id_from = w.id_from;
  last_log_id = last;
  data_end = behind - 1;
}

pub read_path :
    (w : WalFile) {o₁ o₂ l₁ l₂ b₁ b₂ : ℕ} {xs ys : List Entry}
    → o₁ ≡ o₂
    → l₁ ≡ l₂
    → b₁ ≡ b₂
    → xs ≡ ys
    → ◌≡◌ {A = Outcome ReadLogs}
        (ok (record { offset = o₁; memo = some (position w l₁ b₁); logs = xs }))
        (ok (record { offset = o₂; memo = some (position w l₂ b₂); logs = ys }))
read_path w eo el eb es i =
    ok (record { offset = eo i; memo = some (position w (el i) (eb i)); logs = es i })

module _ (p : Platform) where
  open p use {crc}

  -- A mapped file of the current version.
  pub record IsOpen (w : WalFile) : Type 0 where
    pub mapped : (w.mmap || w.mmap_mut) ≡ true
    pub version : w.version ≡ 1
    pub sized : w.size ≡ w.len_max
    pub small : w.len_max < 2 ^ 32

  module _ (w : WalFile) (o : IsOpen w) (from until : ℕ) (memo : Option LogReadMemo) where
    abbrev entry_record : ℕ → List ℕ → WalRecord
    entry_record id d = record { log_id = id; crc = crc d; payload = d }

    -- One round of the loop at an entry.
    read_loop-entry :
        (fuel off offset : ℕ) (buf : List Entry) (id : ℕ) (d : List ℕ) (rs : List Entry)
        → Holds p w.bytes off ((id, d) ∷ rs)
        → AreEntries ((id, d) ∷ rs)
        → end_of off ((id, d) ∷ rs) ≤ w.len_max
        → read_loop p (suc fuel) w from until memo off offset buf
          ≡ visit p w from until memo off offset buf
              (read_loop p fuel w from until memo)
              (entry_record id d)
    unfolding read_loop
    read_loop-entry fuel off offset buf id d rs h a fits = rw (
        read_record-Holds p w off id d rs h o.mapped
          (unfold end_of in omega (arith, fits, le-end_of (off + 17 + length d) rs)) o.sized o.small
          a.0 a.1)

    module _ (off offset : ℕ) (buf : List Entry) (id : ℕ) (d : List ℕ)
        (next : ℕ → ℕ → List Entry → Outcome ReadLogs) (room : off + 17 + length d < 2 ^ 32) where
      next_offset : u32 (off + u32 (record_len (entry_record id d) + 1)) ≡ off + 17 + length d
      next_offset = omega arith

      visit-skip :
          id < from
          → id < until
          → visit p w from until memo off offset buf next (entry_record id d)
            ≡ next (off + 17 + length d) offset buf
      unfolding visit
      visit-skip a b = rw (==_gt id from a, leb_lt from id a, leb_lt until id b, next_offset)

      visit-more :
          from ≤ id
          → id < until
          → visit p w from until memo off offset buf next (entry_record id d)
            ≡ next
                (off + 17 + length d)
                (if id == from then off else offset)
                (buf ++ ((id, d) ∷ []))
      unfolding visit
      visit-more a b = rw (
        le→leb from id a,
        le→leb id until (omega arith),
        bytes_eq_refl (crc d),
        leb_lt until id b,
        next_offset,
      )

      visit-last :
          from ≤ id
          → id ≡ until
          → visit p w from until memo off offset buf next (entry_record id d)
            ≡ ok (record {
              offset = if id == from then off else offset;
              memo = some (position w id (off + 17 + length d));
              logs = buf ++ ((id, d) ∷ []);
            })
      unfolding visit
      visit-last a e =
          let n : u32 (u32 (off + 8 + 4 + 4) + u32 (length d)) ≡ off + 17 + length d - 1 =
            omega arith in
          rw (
            le→leb from id a,
            le→leb id until (omega arith),
            bytes_eq_refl (crc d),
            le→leb until id (omega arith),
            o.version,
            n,
          )

    -- The entries from `n` to `until`, of entries whose first id is `n`.
    abbrev first_until : ℕ → List Entry → List Entry
    first_until n rs = take (suc (until - n)) rs

    first_until-last :
        (n : ℕ) (r : Entry) (rs : List Entry) → n ≡ until → first_until n (r ∷ rs) ≡ r ∷ []
    first_until-last n r rs e = ap (λ k. r ∷ take k rs) {y = 0} (omega arith)

    first_until-more :
        (n : ℕ) (r : Entry) (rs : List Entry)
        → n < until
        → first_until n (r ∷ rs) ≡ r ∷ first_until (suc n) rs
    first_until-more n r rs lt = ap (λ k. r ∷ take k rs) {y = suc (until - suc n)} (omega arith)

    -- In the range, the loop collects up to `until` and stops there.
    collect :
        (fuel off offset : ℕ) (buf : List Entry) (n : ℕ) (rs : List Entry)
        → Holds p w.bytes off rs
        → AreEntries rs
        → Consecutive n rs
        → end_of off rs ≤ w.len_max
        → from ≤ n
        → n ≤ until
        → until < n + length rs
        → length rs ≤ fuel
        → read_loop p fuel w from until memo off offset buf
          ≡ ok (record {
            offset = if n == from then off else offset;
            memo = some (position w until (end_of off (first_until n rs)));
            logs = buf ++ first_until n rs;
          })
    collect fuel off offset buf n [] h a c fits lo hi last enough = absurd (omega arith)
    collect zero off offset buf n (r ∷ rs) h a c fits lo hi last enough = absurd (omega arith)
    collect (suc fuel) off offset buf n ((id, d) ∷ rs) h a c fits lo hi last enough =
        read_loop-entry fuel off offset buf id d rs h a fits ∙ elim (dec_lt n until) [
          | yes lt ↦
              visit-more off offset buf id d _ room (omega (arith, c.0)) (omega (arith, c.0))
              ∙ collect fuel (off + 17 + length d) _ (buf ++ ((id, d) ∷ [])) (suc n) rs h.4 a.2 c.1
                  (unfold end_of in fits) (omega arith) (omega arith) (omega arith) (omega arith)
              ∙ read_path w (ground (arith, c.0, lo)) refl
                  (unfold end_of in sym (ap (end_of off) (first_until-more n (id, d) rs lt)))
                  (append_assoc buf ((id, d) ∷ []) (first_until (suc n) rs)
                    ∙ ap (λ l. buf ++ l) (sym (first_until-more n (id, d) rs lt)))
          | no ge ↦
              visit-last off offset buf id d _ room (omega (arith, c.0)) (omega (arith, c.0, ge))
              ∙ read_path w (ground (arith, c.0)) (omega (arith, c.0, ge))
                  (unfold end_of in
                    sym (ap (end_of off) (first_until-last n (id, d) rs (omega (arith, ge)))))
                  (ap (λ l. buf ++ l) (sym (first_until-last n (id, d) rs (omega (arith, ge)))))
        ]
      where
        room : off + 17 + length d < 2 ^ 32
        room = unfold end_of in omega (arith, fits, o.small, le-end_of (off + 17 + length d) rs)

    -- Before the range, the loop skips up to `from`.
    pub skip :
        (fuel off n : ℕ) (rs : List Entry)
        → Holds p w.bytes off rs
        → AreEntries rs
        → Consecutive n rs
        → end_of off rs ≤ w.len_max
        → n ≤ from
        → from ≤ until
        → until < n + length rs
        → length rs ≤ fuel
        → read_loop p fuel w from until memo off 0 []
          ≡ ok (record {
            offset = end_of off (take (from - n) rs);
            memo = some (position w until (end_of off (take (suc (until - n)) rs)));
            logs = take (suc (until - from)) (drop (from - n) rs);
          })
    skip fuel off n [] h a c fits lo hi last enough = absurd (omega arith)
    skip zero off n (r ∷ rs) h a c fits lo hi last enough = absurd (omega arith)
    skip (suc fuel) off n ((id, d) ∷ rs) h a c fits lo hi last enough = elim (dec_lt n from) [
      | yes lt ↦
          read_loop-entry fuel off 0 [] id d rs h a fits
          ∙ visit-skip off 0 [] id d _ room (omega (arith, c.0)) (omega (arith, c.0))
          ∙ skip fuel (off + 17 + length d) (suc n) rs h.4 a.2 c.1 (unfold end_of in fits)
              (omega arith) hi (omega arith) (omega arith)
          ∙ read_path w
              (unfold end_of in
                ap (λ k. end_of off (take k ((id, d) ∷ rs))) {x = suc (from - suc n)} {y = from - n}
                  (omega arith))
              refl
              (unfold end_of in
                ap (λ k. end_of off (take k ((id, d) ∷ rs))) {x = suc (suc (until - suc n))}
                  {y = suc (until - n)} (omega arith))
              (ap (λ k. take (suc (until - from)) (drop k ((id, d) ∷ rs))) {x = suc (from - suc n)}
                {y = from - n} (omega arith))
      | no ge ↦
          collect (suc fuel) off 0 [] n ((id, d) ∷ rs) h a c fits (omega (arith, ge)) (omega arith)
            last enough
          ∙ read_path w
              (let exact : (if n == from then off else 0) ≡ off = ground (arith, ge) in
                exact
                ∙ (unfold end_of in
                    ap (λ k. end_of off (take k ((id, d) ∷ rs))) {x = 0} {y = from - n}
                      (omega (arith, ge))))
              refl refl
              (ap₂ (λ k j. take k (drop j ((id, d) ∷ rs))) {x = suc (until - n)}
                {y = suc (until - from)} {u = 0} {v = from - n} (omega (arith, ge))
                (omega (arith, ge)))
    ]
      where
        room : off + 17 + length d < 2 ^ 32
        room = unfold end_of in omega (arith, fits, o.small, le-end_of (off + 17 + length d) rs)
