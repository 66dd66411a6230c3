-- ===== src/Wal/Cut.antt =====
-- What `shift_delete_logs` of hiqlite-wal/src/wal.rs does to the file that the cut goes through.
use hiqlite.Common.{
  ℕ, zero, suc, ◌+◌, ◌-◌, ◌^◌, ◌≤◌, ◌<◌, ◌≡◌, ◌∙◌, refl, ap, sym, Option, none, some, List, [], ◌∷◌,
  arith, length, take, drop, lt→ltb, le→leb, ==_gt, length-drop, length-take,
}
use hiqlite.Wal.Memory.{Image}
use hiqlite.Wal.Platform.{Platform}
use hiqlite.Wal.Outcome.{ok}
use hiqlite.Wal.File.{WalFile, u32, u64, is_some, map_mut}
use hiqlite.Wal.Layout.{Entry, end_of, le-end_of, AreEntries, Holds, Layout}
use hiqlite.Wal.Logs.{LogReadMemo, read_logs}
use hiqlite.Wal.Rounds.{Consecutive}
use hiqlite.Wal.Range.{read_logs-range, Consecutive-drop, Holds-drop, AreEntries-drop, end_of-drop}
use hiqlite.Wal.Delete.{purge_file, truncate_file}

AreEntries-take : (k : ℕ) (rs : List Entry) → AreEntries rs → AreEntries (take k rs)
AreEntries-take zero rs a = tt
AreEntries-take (suc k) [] a = tt
AreEntries-take (suc k) ((id, d) ∷ rs) (b, c, a) = (b, c, AreEntries-take k rs a)

-- A nonempty beginning ends behind its start.
lt-end_of-take :
    (off k : ℕ) (rs : List Entry) → 0 < k → 0 < length rs → off < end_of off (take k rs)
unfolding end_of
lt-end_of-take off zero rs pos some_entry = absurd (omega arith)
lt-end_of-take off (suc k) [] pos some_entry = absurd (omega arith)
lt-end_of-take off (suc k) ((id, d) ∷ rs) pos some_entry =
    omega (arith, le-end_of (off + 17 + length d) (take k rs))

Consecutive-take : (n k : ℕ) (rs : List Entry) → Consecutive n rs → Consecutive n (take k rs)
Consecutive-take n zero rs c = tt
Consecutive-take n (suc k) [] c = tt
Consecutive-take n (suc k) ((id, d) ∷ rs) (e, c) = (e, Consecutive-take (suc n) k rs c)

module _ (p : Platform) where
  Holds-take :
      (img : Image) (off k : ℕ) (rs : List Entry) → Holds p img off rs → Holds p img off (take k rs)
  Holds-take img off zero rs h = tt
  Holds-take img off (suc k) [] h = tt
  Holds-take img off (suc k) ((id, d) ∷ rs) (a, b, c, e, h) =
      (a, b, c, e, Holds-take img (off + 17 + length d) k rs h)

  -- A file of the current version that holds the ids from `id_from` to `id_until` without a gap.
  pub record IsFull (w : WalFile) (s e : ℕ) (rs : List Entry) : Type 0 where
    pub layout : Layout p w s e rs
    pub version : w.version ≡ 1
    pub consecutive : Consecutive w.id_from rs
    pub count : w.id_from + length rs ≡ suc w.id_until

  module _ (w : WalFile) (s e : ℕ) (rs : List Entry) (f : IsFull w s e rs) (id : ℕ)
      (lo : w.id_from < id) (hi : id ≤ w.id_until) where
    abbrev pub cut : ℕ
    cut = end_of s (take (id - w.id_from) rs)

    mapped_Layout : Layout p (map_mut w) s e rs
    mapped_Layout = record {
      start = f.layout.start;
      stop = f.layout.stop;
      behind_header = f.layout.behind_header;
      ends = f.layout.ends;
      fits = f.layout.fits;
      sized = f.layout.sized;
      small = f.layout.small;
      entries = f.layout.entries;
      holds = f.layout.holds;
    }

    read_cut :
        (m : Option LogReadMemo) × (es : List Entry) × (read_logs p id id none (map_mut w)
          ≡ ok (record { offset = cut; memo = m; logs = es }))
    read_cut = (
      _,
      _,
      (read_logs-range p (map_mut w) s e rs id id none mapped_Layout
          (record {
            mapped = ground arith;
            version = f.version;
            sized = f.layout.sized;
            small = f.layout.small;
          })
          f.consecutive f.count (omega (arith, lo)) (omega arith) hi tt).0,
    )

    cut-bounds : (s < cut) × (cut ≤ e + 1)
    cut-bounds = (
      lt-end_of-take s (id - w.id_from) rs (omega (arith, lo)) (omega (arith, f.count, lo, hi)),
      omega (
        arith,
        f.layout.ends,
        end_of-drop s (id - w.id_from) rs,
        le-end_of cut (drop (id - w.id_from) rs),
      ),
    )

    abbrev pub purged : WalFile
    purged = record (map_mut w) { id_from = id; data_start = some cut }

    pub purge_file-purged :
        (purge_file p id w ≡ ok purged) × IsFull purged cut e (drop (id - w.id_from) rs)
    unfolding purge_file
    purge_file-purged =
        let (m, es, r) = read_cut in
        (
          rw (lt→ltb w.id_from id lo, ap is_some f.layout.stop, r) refl,
          record {
            layout = record {
              start = refl;
              stop = f.layout.stop;
              behind_header = omega (arith, f.layout.behind_header, cut-bounds.0);
              ends = f.layout.ends ∙ sym (end_of-drop s (id - w.id_from) rs);
              fits = f.layout.fits;
              sized = f.layout.sized;
              small = f.layout.small;
              entries = AreEntries-drop (id - w.id_from) rs f.layout.entries;
              holds = Holds-drop p w.bytes s (id - w.id_from) rs f.layout.holds;
            };
            version = f.version;
            consecutive =
                Consecutive-drop w.id_from (id - w.id_from) id rs (omega (arith, lo)) f.consecutive;
            count = omega (arith, length-drop (id - w.id_from) rs, f.count, lo, hi);
          },
        )

    -- A purge up to `id`, which a file holds behind its first id, leaves it with the entries from `id`
    -- on, and everything that `IsFull` says holds of them.
    pub purge_file-IsFull :
        (w' : WalFile) × (purge_file p id w ≡ ok w')
        × (w'.id_from ≡ id)
        × (w'.id_until ≡ w.id_until)
        × IsFull w' cut e (drop (id - w.id_from) rs)
    purge_file-IsFull = (purged, purge_file-purged.0, refl, refl, purge_file-purged.1)

    -- A truncation at `id`, which a file holds behind its first id, leaves it with the entries before
    -- `id`, and everything that `IsFull` says holds of them. The id is below 2^64.
    pub truncate_file-IsFull :
        id < 2 ^ 64
        → (w' : WalFile) × (truncate_file p id w ≡ ok w')
          × (w'.id_from ≡ w.id_from)
          × (w'.id_until + 1 ≡ id)
          × IsFull w' s (cut - 1) (take (id - w.id_from) rs)
    unfolding truncate_file
    truncate_file-IsFull small =
        let (m, es, r) = read_cut in
        let last : u64 (id + (2 ^ 64 - 1)) + 1 ≡ id = omega (arith, small, lo) in
        let stop : u32 (cut + (2 ^ 32 - 1)) ≡ cut - 1 =
          omega (arith, cut-bounds.0, cut-bounds.1, f.layout.fits, f.layout.small) in
        (
          record (map_mut w) {
            id_until = u64 (id + (2 ^ 64 - 1));
            data_end = some (u32 (cut + (2 ^ 32 - 1)));
          },
          rw (==_gt w.id_from id lo, le→leb id w.id_until hi, r) refl,
          refl,
          last,
          record {
            layout = record {
              start = f.layout.start;
              stop = ap some stop;
              behind_header = f.layout.behind_header;
              ends = omega (arith, cut-bounds.0);
              fits = omega (arith, cut-bounds.1, cut-bounds.0, f.layout.fits);
              sized = f.layout.sized;
              small = f.layout.small;
              entries = AreEntries-take (id - w.id_from) rs f.layout.entries;
              holds = Holds-take w.bytes s (id - w.id_from) rs f.layout.holds;
            };
            version = f.version;
            consecutive = Consecutive-take w.id_from (id - w.id_from) rs f.consecutive;
            count = omega (arith, length-take (id - w.id_from) rs, f.count, lo, hi, last);
          },
        )
