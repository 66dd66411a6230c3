-- ===== src/Wal/Active.antt =====
-- An append to the active file of a log in parts.
use hiqlite.Common.{
  ℕ, ◌+◌, ◌^◌, ◌<◌, ◌≡◌, ◌∙◌, refl, sym, subst, true, none, List, [], ◌∷◌, ◌++◌, arith, length,
  length-append, ltb, ltb→lt,
}
use hiqlite.Wal.Platform.{Platform}
use hiqlite.Wal.Outcome.{ok}
use hiqlite.Wal.File.{WalFile, offset_logs, has_space, append_log}
use hiqlite.Wal.Layout.{Entry, Layout}
use hiqlite.Wal.Append.{appended, appended-Layout, append_log-appended, has_space-room}
use hiqlite.Wal.First.{first_appended, append_log-first, append_log-first_Layout}
use hiqlite.Wal.Copies.{IsTwin}
use hiqlite.Wal.Serve.{IsPart}
use hiqlite.Wal.Sealed.{IsActive, Consecutive-append}

pub has_space-none :
    (w : WalFile) (n : ℕ)
    → w.data_end ≡ none
    → has_space w n ≡ ltb (offset_logs + 1 + 8 + 4 + 4 + n) w.len_max
unfolding has_space
has_space-none w n e = rw e refl

module _ (p : Platform) (wal_size k m id : ℕ) (d : List ℕ) (w : WalFile) (small : wal_size < 2 ^ 32)
    (pos : 0 < length d) (lt : id < 2 ^ 64) where
  first_room :
      IsActive p wal_size k m w []
      → has_space w (length d) ≡ true
      → offset_logs + 17 + length d < w.len_max
  first_room a space =
      let h = sym (has_space-none w (length d) a.kept.1) ∙ space in
      omega (arith, ltb→lt (offset_logs + 1 + 8 + 4 + 4 + length d) w.len_max h)

  first_eq :
      IsActive p wal_size k m w []
      → has_space w (length d) ≡ true
      → append_log p id d w ≡ (ok tt, first_appended p id d w)
  first_eq a space =
      let room = first_room a space in
      append_log-first p id d w a.kept.0 a.version a.mapped (omega (arith, a.sized, room))
        (omega (arith, a.sized, a.len_max, small))

  first-IsPart :
      IsActive p wal_size k m w []
      → has_space w (length d) ≡ true
      → id ≡ m
      → IsPart p k m (record {
        file = first_appended p id d w;
        start = offset_logs;
        stop = offset_logs + 16 + length d;
        entries = (id, d) ∷ [];
      })
  first-IsPart a space e =
      let (r, _, _, l) =
        append_log-first_Layout p id d w a.kept.0 a.kept.1 a.version a.mapped a.sized
          (omega (arith, a.len_max, small)) space pos lt in
      record {
        number = a.number;
        first = e;
        version = a.version;
        layout =
            subst (λ o. Layout p o.1 offset_logs (offset_logs + 16 + length d) ((id, d) ∷ []))
              (first_eq a space) l;
        consecutive = (refl, tt);
        full = omega arith;
        some_entry = omega arith;
      }

  later-IsPart :
      (r : Entry) (rs : List Entry) (s e : ℕ)
      → IsPart p k m (record { file = w; start = s; stop = e; entries = r ∷ rs })
      → e + 17 + length d < w.len_max
      → id ≡ m + length (r ∷ rs)
      → IsPart p k m (record {
        file = appended p id d (e + 1) w;
        start = s;
        stop = e + 17 + length d;
        entries = (r ∷ rs) ++ ((id, d) ∷ []);
      })
  later-IsPart r rs s e part room next =
      let len = length-append rs ((id, d) ∷ []) in
      record {
        number = part.number;
        first = part.first;
        version = part.version;
        layout = appended-Layout p id d w s e (r ∷ rs) part.layout room pos lt;
        consecutive =
            Consecutive-append w.id_from (r ∷ rs) id d (omega (arith, next, part.first))
              part.consecutive;
        full = omega (arith, len, next, part.first);
        some_entry = omega (arith, next, part.first);
      }

  pub append_log-IsActive :
      (rs : List Entry)
      → IsActive p wal_size k m w rs
      → has_space w (length d) ≡ true
      → id ≡ m + length rs
      → (w' : WalFile) × (append_log p id d w ≡ (ok tt, w'))
        × IsActive p wal_size k m w' (rs ++ ((id, d) ∷ []))
        × IsTwin w w'
  append_log-IsActive [] a space e = (
    first_appended p id d w,
    first_eq a space,
    record {
      number = a.number;
      version = a.version;
      mapped = a.mapped;
      sized = a.sized;
      len_max = a.len_max;
      kept = (offset_logs, offset_logs + 16 + length d, first-IsPart a space (omega (arith, e)));
    },
    record { number = refl; version = refl; len_max = refl; size = refl },
  )
  append_log-IsActive (r ∷ rs) a space e =
      let (s, stop, part) = a.kept in
      let room = has_space-room p d w s stop (r ∷ rs) part.layout space in
      (
        appended p id d (stop + 1) w,
        append_log-appended p id d w s stop (r ∷ rs) part.layout a.mapped room,
        record {
          number = a.number;
          version = a.version;
          mapped = a.mapped;
          sized = a.sized;
          len_max = a.len_max;
          kept = (s, stop + 17 + length d, later-IsPart r rs s stop part room e);
        },
        record { number = refl; version = refl; len_max = refl; size = refl },
      )
