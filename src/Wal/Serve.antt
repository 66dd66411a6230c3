-- ===== src/Wal/Serve.antt =====
-- What the reader sends for a range: the loop of `Action::Logs` in hiqlite-wal/src/reader.rs over
-- files that hold a log in parts.
use hiqlite.Common.{
  ℕ, suc, ◌+◌, ◌-◌, ◌^◌, ◌≤◌, ◌<◌, ◌≡◌, ◌∙◌, refl, ap, sym, subst, Option, some, List, [], ◌∷◌,
  ◌++◌, arith, length, take, drop, inl, length-append, lt→ltb, ltb_ge, append-nil,
}
use native.Mathlib.Decide.{dec_lt}
use hiqlite.Wal.Platform.{Platform}
use hiqlite.Wal.Outcome.{Outcome, ok, ◌>>=◌}
use hiqlite.Wal.File.{WalFile, u64, map_read}
use hiqlite.Wal.Layout.{Entry, end_of, Layout}
use hiqlite.Wal.Logs.{LogReadMemo, read_logs}
use hiqlite.Wal.Rounds.{Consecutive, IsOpen, position}
use hiqlite.Wal.Range.{IsMemo, read_logs-range}
use hiqlite.Wal.Sent.{drop-append_ge, logs_of-across, logs_of-within}
use hiqlite.Wal.Reader.{
  Message, Served, logs_of, before, serve_file, serve_files, serve_logs, finished, end, passed,
  ended,
}

-- A file, the offsets of its data, and the entries it holds.
pub record Part : Type 0 where
  pub file : WalFile
  pub start : ℕ
  pub stop : ℕ
  pub entries : List Entry

abbrev pub files_of : List Part → List WalFile
files_of [] = []
files_of (q ∷ qs) = q.file ∷ files_of qs

abbrev pub entries_of : List Part → List Entry
entries_of [] = []
entries_of (q ∷ qs) = q.entries ++ entries_of qs

module _ (p : Platform) where
  -- A file with the number `k` that holds its ids, from `n` on, without a gap.
  pub record IsPart (k n : ℕ) (q : Part) : Type 0 where
    pub number : q.file.wal_no ≡ k
    pub first : q.file.id_from ≡ n
    pub version : q.file.version ≡ 1
    pub layout : Layout p q.file q.start q.stop q.entries
    pub consecutive : Consecutive q.file.id_from q.entries
    pub full : q.file.id_from + length q.entries ≡ suc q.file.id_until
    pub some_entry : q.file.id_from ≤ q.file.id_until

  -- The parts follow one another, in the numbers of their files and in their ids.
  abbrev pub AreParts : ℕ → ℕ → List Part → Type 0
  AreParts k n [] = Unit
  AreParts k n (q ∷ qs) = IsPart k n q × AreParts (suc k) (suc q.file.id_until) qs

  -- The memo can be used for each of the files.
  abbrev pub MemoFits : Option LogReadMemo → List Part → Type 0
  MemoFits memo [] = Unit
  MemoFits memo (q ∷ qs) = IsMemo p q.file q.start q.entries memo × MemoFits memo qs

  -- A memo of a file does not belong to the files behind it.
  MemoFits-later :
      (m : LogReadMemo) (k n : ℕ) (qs : List Part)
      → AreParts k n qs
      → m.last_wal_no < k
      → MemoFits (some m) qs
  MemoFits-later m k n [] a lt = tt
  MemoFits-later m k n (q ∷ qs) (part, rest) lt = (
    inl (λ e. absurd (omega (arith, e, part.number))),
    MemoFits-later m (suc k) (suc q.file.id_until) qs rest (omega arith),
  )

  IsPart-IsOpen : (k n : ℕ) (q : Part) → IsPart k n q → IsOpen p (map_read q.file)
  IsPart-IsOpen k n q part = record {
    mapped = refl;
    version = part.version;
    sized = part.layout.sized;
    small = part.layout.small;
  }

  -- A mapping for reading changes nothing of a file's layout.
  Layout-map_read :
      (w : WalFile) (s e : ℕ) (rs : List Entry) → Layout p w s e rs → Layout p (map_read w) s e rs
  Layout-map_read w s e rs l = record {
    start = l.start;
    stop = l.stop;
    behind_header = l.behind_header;
    ends = l.ends;
    fits = l.fits;
    sized = l.sized;
    small = l.small;
    entries = l.entries;
    holds = l.holds;
  }

  -- The file of a part is read in the ids that it shares with the range.
  module _ (k n : ℕ) (q : Part) (part : IsPart k n q) (from until : ℕ)
      (memo : Option LogReadMemo) where
    abbrev file_entries : List Entry
    file_entries = take (suc (until - from)) (drop (from - n) q.entries)

    pub read_part :
        n ≤ from
        → from ≤ until
        → until ≤ q.file.id_until
        → IsMemo p q.file q.start q.entries memo
        → (offset : ℕ) × (m : LogReadMemo) × (m.last_wal_no ≡ k)
          × (read_logs p from until memo (map_read q.file)
              ≡ ok (record { offset = offset; memo = some m; logs = file_entries }))
    read_part lo mid hi fits =
        let (e, kept) =
          read_logs-range p (map_read q.file) q.start q.stop q.entries from until memo
            (Layout-map_read q.file q.start q.stop q.entries part.layout) (IsPart-IsOpen k n q part)
            part.consecutive part.full (omega (arith, part.first)) mid hi fits in
        let offset = end_of q.start (take (from - q.file.id_from) q.entries) in
        let m =
          position q.file until (end_of q.start (take (suc (until - q.file.id_from)) q.entries)) in
        (
          offset,
          m,
          part.number,
          subst
              (λ i.
                read_logs p from until memo (map_read q.file)
                ≡ ok (record {
                  offset = offset;
                  memo = some m;
                  logs = take (suc (until - from)) (drop (from - i) q.entries);
                }))
              part.first e,
        )

  abbrev Serves : List Part → ℕ → ℕ → ℕ → Outcome Served → Type 0
  Serves qs n from until o =
      (r : Served) × (o ≡ ok r)
      × (r.sent ≡ logs_of (take (suc until - from) (drop (from - n) (entries_of qs))))

  before-Serves :
      (sent : List Message) (w : WalFile) (qs ps : List Part) (n n' from from' until : ℕ)
      (o : Outcome Served)
      → Serves qs n' from' until o
      → logs_of (take (suc until - from) (drop (from - n) (entries_of ps)))
        ≡ sent ++ logs_of (take (suc until - from') (drop (from' - n') (entries_of qs)))
      → Serves ps n from until (before sent w o)
  before-Serves sent w qs ps n n' from from' until o (r, e, s) same = (
    record { sent = sent ++ r.sent; memo = r.memo; files = w ∷ r.files },
    ap (before sent w) e,
    ap (λ l. sent ++ l) s ∙ sym same,
  )

  serve_files-range :
      (k n from until : ℕ) (memo : Option LogReadMemo) (qs : List Part) (behind : List WalFile)
      → AreParts k n qs
      → n ≤ from
      → from ≤ until
      → until < n + length (entries_of qs)
      → until < 2 ^ 64
      → MemoFits memo qs
      → (r : Served) × (serve_files p from until memo (files_of qs ++ behind) ≡ ok r)
        × (r.sent ≡ logs_of (take (suc until - from) (drop (from - n) (entries_of qs))))
  unfolding serve_files serve_file passed ended
  serve_files-range k n from until memo [] behind a lo mid hi small fits = absurd (omega arith)
  serve_files-range k n from until memo (q ∷ qs) behind (part, rest) lo mid hi small (fit, fits) =
      let len : n + length q.entries ≡ suc q.file.id_until = omega (arith, part.full, part.first) in
      let total : length (entries_of (q ∷ qs)) ≡ length q.entries + length (entries_of qs) =
        length-append q.entries (entries_of qs) in
      elim (dec_lt q.file.id_until from) [
        | yes lt ↦ rw (lt→ltb q.file.id_until from lt) (
            before-Serves [] q.file qs (q ∷ qs) n (suc q.file.id_until) from from until _
              (serve_files-range (suc k) (suc q.file.id_until) from until memo qs behind rest
                (omega arith) mid (omega (arith, len, total)) small fits)
              (ap (λ l. logs_of (take (suc until - from) l))
                (drop-append_ge (from - n) q.entries (entries_of qs) (omega (arith, len))
                  ∙ ap (λ i. drop i (entries_of qs)) {x = from - n - length q.entries}
                      (omega (arith, len)))))
        | no here ↦
            rw (ltb_ge q.file.id_until from (omega (arith, here)))
              (elim (dec_lt q.file.id_until until) [
                | yes lt ↦
                    let (offset, m, num, e) =
                      read_part k n q part from q.file.id_until memo lo (omega (arith, here))
                        (omega arith) fit in
                    let next : u64 (q.file.id_until + 1) ≡ q.file.id_until + 1 =
                      omega (arith, lt, small) in
                    rw (lt→ltb q.file.id_until until lt, e, next)
                      (before-Serves _ _ qs (q ∷ qs) n (suc q.file.id_until) from
                        (q.file.id_until + 1) until _
                        (serve_files-range (suc k) (suc q.file.id_until) (q.file.id_until + 1) until
                          (some m) qs behind rest (omega arith) (omega (arith, lt))
                          (omega (arith, len, total)) small
                          (MemoFits-later m (suc k) (suc q.file.id_until) qs rest
                            (omega (arith, num))))
                        (logs_of-across q.entries (entries_of qs) (from - n) (suc until - from)
                          (suc (q.file.id_until - from)) (suc until - (q.file.id_until + 1))
                          (q.file.id_until + 1 - suc q.file.id_until) (omega (arith, len, here))
                          (omega (arith, len, here)) (omega (arith, lt, here))
                          (omega (arith, lt, here)) (omega arith)))
                | no last ↦
                    let (offset, m, num, e) =
                      read_part k n q part from until memo lo mid (omega (arith, last)) fit in
                    rw (ltb_ge q.file.id_until until (omega (arith, last)), e)
                      (
                        _,
                        refl,
                        logs_of-within q.entries (entries_of qs) (from - n) (suc until - from)
                            (suc (until - from)) (omega (arith, len, here)) (omega (arith, mid))
                            (omega (arith, len, last, mid)),
                      )
              ])
      ]

  -- The range, with further files behind the parts.
  pub serve_logs-behind :
      (k n from until : ℕ) (memo : Option LogReadMemo) (qs : List Part) (behind : List WalFile)
      → AreParts k n qs
      → n ≤ from
      → from ≤ until
      → until < n + length (entries_of qs)
      → until < 2 ^ 64
      → MemoFits memo qs
      → (r : Served) × (serve_logs p from until memo (files_of qs ++ behind) ≡ ok r)
        × (r.sent
            ≡ logs_of (take (suc until - from) (drop (from - n) (entries_of qs))) ++ (end ∷ []))
  unfolding serve_logs
  serve_logs-behind k n from until memo qs behind a lo mid hi small fits =
      let (r, e, s) = serve_files-range k n from until memo qs behind a lo mid hi small fits in
      (finished r, ap (λ o. o >>= λ r'. ok (finished r')) e, ap (λ l. l ++ (end ∷ [])) s)

  -- A range of ids that the files hold in parts is served in full: the reader sends the data of the
  -- entries from the id `from` up to and with `until`, in their order, then the end, and nothing
  -- else. The parts follow one another without a gap in their ids and in the numbers of their files,
  -- and the memo is one that can be used for each of them.
  pub serve_logs-range :
      (k n from until : ℕ) (memo : Option LogReadMemo) (qs : List Part)
      → AreParts k n qs
      → n ≤ from
      → from ≤ until
      → until < n + length (entries_of qs)
      → until < 2 ^ 64
      → MemoFits memo qs
      → (r : Served) × (serve_logs p from until memo (files_of qs) ≡ ok r)
        × (r.sent
            ≡ logs_of (take (suc until - from) (drop (from - n) (entries_of qs))) ++ (end ∷ []))
  serve_logs-range k n from until memo qs a lo mid hi small fits =
      let (r, e, s) = serve_logs-behind k n from until memo qs [] a lo mid hi small fits in
      (r, ap (λ ws. serve_logs p from until memo ws) (sym (append-nil (files_of qs))) ∙ e, s)
