-- ===== src/Wal/Purge.antt =====
-- A purge at the front of a log in parts: `shift_delete_logs` of hiqlite-wal/src/wal.rs.
use hiqlite.Common.{
  ℕ, suc, ◌+◌, ◌-◌, ◌≤◌, ◌<◌, ◌≡◌, ◌∙◌, refl, ap, sym, subst, some, List, [], ◌∷◌, ◌++◌, arith,
  length, drop, length-append, length-drop, drop-append_le, drop-drop,
}
use hiqlite.Wal.Platform.{Platform}
use hiqlite.Wal.Outcome.{ok}
use hiqlite.Wal.File.{WalFile}
use hiqlite.Wal.Layout.{Entry}
use hiqlite.Wal.Delete.{purge_front, refill}
use hiqlite.Wal.Shared.{retained}
use hiqlite.Wal.Copies.{IsTwin, IsTwin-trans, Shown-IsTwin, Begin, Begin-Named, Lags, Lags-Begin}
use hiqlite.Wal.Sent.{drop-append_ge}
use hiqlite.Wal.Serve.{Part, files_of, entries_of, IsPart, AreParts}
use hiqlite.Wal.Sealed.{IsActive, Kept}
use hiqlite.Wal.Batch.{set_of}
use hiqlite.Wal.Popped.{From, Popped, pop_front-Popped, purge_part}

Lags-first :
    (fs ws : List WalFile) (v v' w : WalFile)
    → IsTwin v v'
    → Lags fs (v ∷ ws) w
    → Begin fs (v' ∷ (ws ++ (w ∷ [])))
Lags-first [] ws v v' w t b = absurd b
Lags-first (f ∷ fs) ws v v' w t (h, b) = (
  IsTwin-trans f v v' t (Shown-IsTwin f v h),
  Lags-Begin fs ws [] w w (record { number = refl; version = refl; len_max = refl; size = refl }) b,
)

module _ (p : Platform) where
  AreParts-From :
      (m k n : ℕ) (qs : List Part) (w : WalFile)
      → AreParts p k n qs
      → m ≤ k
      → m ≤ w.wal_no
      → From m (files_of qs ++ (w ∷ []))
  AreParts-From m k n [] w a le last = (last, tt)
  AreParts-From m k n (q ∷ qs) w (part, a) le last = (
    omega (arith, part.number),
    AreParts-From m (suc k) (suc q.file.id_until) qs w a (omega arith) last,
  )

  Kept-IsPart :
      (k m s e : ℕ) (w : WalFile) (rs : List Entry)
      → IsPart p k m (record { file = w; start = s; stop = e; entries = rs })
      → Kept p k m w rs
  Kept-IsPart k m s e w [] part = absurd (omega (arith, part.full, part.some_entry))
  Kept-IsPart k m s e w (r ∷ rs) part = (s, e, part)

  -- What a purge up to `id` makes of a log: the files, and the copies that the readers keep of them.
  pub record Purged (wal_size k n id : ℕ) (qs : List Part) (w : WalFile) (rs : List Entry)
      (fs : List WalFile) : Type 0 where
    pub count : ℕ
    pub parts : List Part
    pub file : WalFile
    pub rest : List Entry
    pub copies : List WalFile
    pub done : purge_front p id wal_size (set_of qs w) ≡ (ok tt, set_of parts file)
    pub holds : AreParts p (k + count) id parts
    pub active :
        IsActive p wal_size (k + count + length parts) (id + length (entries_of parts)) file rest
    pub entries : entries_of parts ++ rest ≡ drop (id - n) (entries_of qs ++ rs)
    pub counted : count + length parts ≤ length qs
    pub kept : retained (files_of parts ++ (file ∷ [])) fs ≡ copies
    pub begins : Begin copies (files_of parts ++ (file ∷ []))

  -- The cut goes through the active file.
  purge_front-active :
      (wal_size k n id : ℕ) (qs : List Part) (w : WalFile) (rs : List Entry) (fs : List WalFile)
      → Popped p k n id qs w fs []
      → IsActive p wal_size (k + length qs) (n + length (entries_of qs)) w rs
      → id < n + length (entries_of qs ++ rs)
      → Purged wal_size k n id qs w rs fs
  unfolding purge_front refill
  purge_front-active wal_size k n id qs w [] fs c a hi =
      absurd (omega (arith, c.total, c.high, hi, length-append (entries_of qs) []))
  purge_front-active wal_size k n id qs w (r ∷ rs) fs c a hi =
      let (s, e, part) = a.kept in
      let m = n + length (entries_of qs) in
      let (q, cut, part', twin, mapped, until, rest) =
        purge_part p (k + length qs) m id
          (record { file = w; start = s; stop = e; entries = r ∷ rs }) part
          (omega (arith, c.total, c.high))
          (omega (arith, hi, length-append (entries_of qs) (r ∷ rs), part.full, part.first)) in
      let number : k + c.count ≤ q.file.wal_no = omega (arith, part'.number, c.counted) in
      let begins : Begin c.copies (q.file ∷ []) = Lags-Begin c.copies [] [] w q.file twin c.lags in
      record {
        count = c.count;
        parts = [];
        file = q.file;
        rest = q.entries;
        copies = c.copies;
        done = rw (c.popped, cut) refl;
        holds = tt;
        active = record {
          number = part'.number ∙ omega (arith, c.counted);
          version = part'.version;
          mapped = mapped a.mapped;
          sized = part'.layout.sized;
          len_max = sym twin.len_max ∙ a.len_max;
          kept =
              subst (λ i. Kept p (k + c.count + 0) i q.file q.entries) {x = id} (omega arith)
                (subst (λ i. Kept p i id q.file q.entries) {x = k + length qs}
                  (omega (arith, c.counted))
                  (Kept-IsPart (k + length qs) id q.start q.stop q.file q.entries part'));
        };
        entries =
            rest
            ∙ ap (λ i. drop i (r ∷ rs)) {x = id - m} (omega arith)
            ∙ sym (
                drop-append_ge (id - n) (entries_of qs) (r ∷ rs)
                  (omega (arith, c.total, c.high, c.low)));
        counted = omega (arith, c.counted);
        kept = c.kept (q.file ∷ []) (number, tt) (Begin-Named c.copies (q.file ∷ []) begins);
        begins = begins;
      }

  -- The cut goes through a closed file.
  purge_front-closed :
      (wal_size k n id : ℕ) (qs : List Part) (w : WalFile) (rs : List Entry) (fs : List WalFile)
      (q : Part) (ps : List Part)
      → Popped p k n id qs w fs (q ∷ ps)
      → IsActive p wal_size (k + length qs) (n + length (entries_of qs)) w rs
      → Purged wal_size k n id qs w rs fs
  unfolding purge_front refill
  purge_front-closed wal_size k n id qs w rs fs q ps c a =
      let (part, behind) = c.holds in
      let (q', cut, part', twin, mapped, until, rest) =
        purge_part p (k + c.count) c.first id q part c.high c.reached in
      let len : length (files_of ps ++ (w ∷ [])) ≡ suc (length (files_of ps)) =
        omega (arith, length-append (files_of ps) (w ∷ [])) in
      let last : suc (length (files_of ps ++ (w ∷ []))) - 1 ≡ suc (length (files_of ps)) =
        omega (arith, len) in
      let short : length q'.entries ≡ length q.entries - (id - c.first) =
        ap length rest ∙ length-drop (id - c.first) q.entries in
      let parts' : AreParts p (k + c.count) id (q' ∷ ps) =
        (part', subst (λ i. AreParts p (suc (k + c.count)) (suc i) ps) (sym until) behind) in
      let begins : Begin c.copies (q'.file ∷ (files_of ps ++ (w ∷ []))) =
        Lags-first c.copies (files_of ps) q.file q'.file w twin c.lags in
      let inner : q'.entries ++ entries_of ps ≡ drop (id - n) (entries_of qs) =
        ap (λ l. l ++ entries_of ps) rest
        ∙ sym (
            drop-append_le (id - c.first) q.entries (entries_of ps)
              (omega (arith, c.high, c.reached, part.full, part.first)))
        ∙ ap (drop (id - c.first)) c.entries
        ∙ drop-drop (id - c.first) (c.first - n) (entries_of qs)
        ∙ ap (λ i. drop i (entries_of qs)) {x = c.first - n + (id - c.first)}
            (omega (arith, c.low, c.high)) in
      record {
        count = c.count;
        parts = q' ∷ ps;
        file = w;
        rest = rs;
        copies = c.copies;
        done =
            rw (c.popped, cut)
              (λ i. (
                ok tt,
                record { active = some (last i); files = q'.file ∷ (files_of ps ++ (w ∷ [])) },
              ));
        holds = parts';
        active =
            subst (λ i. IsActive p wal_size i (id + length (entries_of (q' ∷ ps))) w rs)
              {x = k + length qs} (omega (arith, c.counted))
              (subst (λ i. IsActive p wal_size (k + length qs) i w rs)
                {x = n + length (entries_of qs)}
                (omega (
                  arith,
                  c.total,
                  c.high,
                  c.reached,
                  part.full,
                  part.first,
                  short,
                  length-append q.entries (entries_of ps),
                  length-append q'.entries (entries_of ps),
                ))
                a);
        entries =
            ap (λ l. l ++ rs) inner
            ∙ sym (
                drop-append_le (id - n) (entries_of qs) rs (
                  omega (
                    arith,
                    c.total,
                    c.low,
                    c.high,
                    c.reached,
                    part.full,
                    part.first,
                    length-append q.entries (entries_of ps),
                  )));
        counted = omega (arith, c.counted);
        kept =
            c.kept (q'.file ∷ (files_of ps ++ (w ∷ [])))
              (AreParts-From (k + c.count) (k + c.count) id (q' ∷ ps) w parts' (omega arith)
                (omega (arith, a.number, c.counted)))
              (Begin-Named c.copies (q'.file ∷ (files_of ps ++ (w ∷ []))) begins);
        begins = begins;
      }

  purge_front-Popped :
      (wal_size k n id : ℕ) (qs : List Part) (w : WalFile) (rs : List Entry) (fs : List WalFile)
      (ps : List Part)
      → Popped p k n id qs w fs ps
      → IsActive p wal_size (k + length qs) (n + length (entries_of qs)) w rs
      → id < n + length (entries_of qs ++ rs)
      → Purged wal_size k n id qs w rs fs
  purge_front-Popped wal_size k n id qs w rs fs [] c a hi =
      purge_front-active wal_size k n id qs w rs fs c a hi
  purge_front-Popped wal_size k n id qs w rs fs (q ∷ ps) c a hi =
      purge_front-closed wal_size k n id qs w rs fs q ps c a

  -- Where all closed files lie before the id, the active one reaches it.
  active-covers :
      (k n id : ℕ) (qs : List Part) (w : WalFile) (rs : List Entry)
      → Kept p k (n + length (entries_of qs)) w rs
      → id < n + length (entries_of qs ++ rs)
      → n + length (entries_of qs) ≤ id
      → id ≤ w.id_until
  active-covers k n id qs w [] kept hi all_before =
      absurd (omega (arith, hi, all_before, length-append (entries_of qs) []))
  active-covers k n id qs w (r ∷ rs) (s, e, part) hi all_before =
      omega (arith, hi, part.full, part.first, length-append (entries_of qs) (r ∷ rs))

  -- A purge up to an id that a log holds leaves a log with the entries from that id on, and copies
  -- that the readers can go on with.
  pub purge_front-Purged :
      (wal_size k n id : ℕ) (qs : List Part) (w : WalFile) (rs : List Entry) (fs : List WalFile)
      → AreParts p k n qs
      → IsActive p wal_size (k + length qs) (n + length (entries_of qs)) w rs
      → Lags fs (files_of qs) w
      → n ≤ id
      → id < n + length (entries_of qs ++ rs)
      → Purged wal_size k n id qs w rs fs
  purge_front-Purged wal_size k n id qs w rs fs parts a lags lo hi =
      let (ps, c) =
        pop_front-Popped p k n id qs w fs parts lo
          (active-covers (k + length qs) n id qs w rs a.kept hi) lags in
      purge_front-Popped wal_size k n id qs w rs fs ps c a hi
