-- ===== src/Wal/RollOver.antt =====
-- What `roll_over` of hiqlite-wal/src/wal.rs does to the set of files.
use hiqlite.Common.{
  ℕ, suc, ◌+◌, ◌-◌, ◌≤◌, ◌≡◌, ◌∙◌, refl, ap, Bool, true, false, Option, none, some, List, [], ◌∷◌,
  ◌++◌, arith, append_assoc, length, get_elem?, last?, length-append, ltb, ltb_ge, not, ◌==◌,
  if◌then◌else◌,
}
use hiqlite.Wal.Platform.{Platform}
use hiqlite.Wal.Outcome.{Outcome, ok, err, panic, out_of_fuel, ◌>>=◌, integrity, file_corrupted}
use hiqlite.Wal.Memory.{put}
use hiqlite.Wal.File.{WalFile, u64, new, min_wal_size}
use hiqlite.Wal.Header.{header, update_header-ok, build_header-ok}
use hiqlite.Wal.Set.{
  WalFileSet, set_at, data_ends, check_data, check_file, check_behind, check_rest, check_files,
  check_headers, create_file, add_file, active_of, put_active, opened_at, use_last, roll_over,
}

pub get_elem?-append :
    (ws vs : List WalFile) (w : WalFile) → get_elem? (ws ++ (w ∷ vs)) (length ws) ≡ some w
get_elem?-append [] vs w = refl
get_elem?-append (v ∷ ws) vs w = get_elem?-append ws vs w

pub set_at-append :
    (ws vs : List WalFile) (v w : WalFile) → set_at (ws ++ (v ∷ vs)) (length ws) w ≡ ws ++ (w ∷ vs)
set_at-append [] vs v w = refl
set_at-append (u ∷ ws) vs v w = ap (λ l. u ∷ l) (set_at-append ws vs v w)

pub last?-append : (ws : List WalFile) (w : WalFile) → last? (ws ++ (w ∷ [])) ≡ some w
last?-append [] w = refl
last?-append (v ∷ []) w = refl
last?-append (v ∷ u ∷ ws) w = last?-append (u ∷ ws) w

check_behind_mono :
    (o : Outcome Bool) (a b : Outcome (Unit {0}))
    → (a ≡ ok tt → b ≡ ok tt)
    → check_behind o a ≡ ok tt
    → check_behind o b ≡ ok tt
check_behind_mono (ok true) a b h e = e
check_behind_mono (ok false) a b h e = h e
check_behind_mono (err x) a b h e = e
check_behind_mono panic a b h e = e
check_behind_mono out_of_fuel a b h e = e

guarded :
    (a b : Bool) (x y : Outcome (Unit {0}))
    → (x ≡ ok tt → y ≡ ok tt)
    → (if a then err integrity else if b then err file_corrupted else x) ≡ ok tt
    → (if a then err integrity else if b then err file_corrupted else y) ≡ ok tt
guarded true b x y h e = e
guarded false true x y h e = e
guarded false false x y h e = h e

set_path :
    {a b : ℕ} {ws vs : List WalFile}
    → a ≡ b
    → ws ≡ vs
    → ◌≡◌ {A = Outcome WalFileSet}
        (ok (record { active = some a; files = ws }))
        (ok (record { active = some b; files = vs }))
set_path ea ef i = ok (record { active = some (ea i); files = ef i })

-- A file that the header check accepts behind the file `w`.
pub record IsNext (w n : WalFile) : Type 0 where
  pub number : n.wal_no ≡ u64 (w.wal_no + 1)
  pub id_from : n.id_from ≡ u64 (w.id_until + 1)
  pub id_until : n.id_until ≡ u64 (w.id_until + 1)
  pub data_start : n.data_start ≡ none
  pub data_end : n.data_end ≡ none

check_rest-next : (w n : WalFile) → IsNext w n → check_rest w.wal_no w.id_until (n ∷ []) ≡ ok tt
unfolding check_rest check_file check_data
check_rest-next w n h = ground (arith, h.number, h.id_from, h.id_until, h.data_start, h.data_end)

module _ (p : Platform) where
  -- The file that a roll-over closes, and the one that it makes behind it.
  abbrev pub closed : WalFile → WalFile
  closed w = record w { bytes = put w.bytes 0 (header p w); mmap_mut = false }

  abbrev pub blank : ℕ → ℕ → WalFile
  blank k wal_size = record {
    version = 1;
    wal_no = k;
    id_from = 0;
    id_until = 0;
    data_start = none;
    data_end = none;
    len_max = wal_size;
    mmap = false;
    mmap_mut = false;
    size = 0;
    bytes = λ i. 0;
  }

  abbrev pub created : ℕ → ℕ → WalFile
  created k wal_size = record (blank k wal_size) {
    size = wal_size;
    bytes = put (λ i. 0) 0 (header p (blank k wal_size));
  }

  check_rest-append :
      (k u : ℕ) (ws : List WalFile) (w n : WalFile)
      → IsNext w n
      → check_rest k u (ws ++ (w ∷ [])) ≡ ok tt
      → check_rest k u (ws ++ (closed w ∷ n ∷ [])) ≡ ok tt
  unfolding check_rest check_file
  check_rest-append k u [] w n h e =
      check_behind_mono (check_file k u w) _ _ (λ t. check_rest-next w n h) e
  check_rest-append k u (v ∷ ws) w n h e =
      check_behind_mono (check_file k u v) _ _ (check_rest-append v.wal_no v.id_until ws w n h) e

  check_files-append :
      (ws : List WalFile) (w n : WalFile)
      → IsNext w n
      → check_files (ws ++ (w ∷ [])) ≡ ok tt
      → check_files (ws ++ (closed w ∷ n ∷ [])) ≡ ok tt
  unfolding check_files
  check_files-append [] w n h e =
      guarded (not (data_ends w)) (ltb w.id_until w.id_from) _ _ (λ t. check_rest-next w n h) e
  check_files-append (v ∷ ws) w n h e =
      guarded (not (data_ends v)) (ltb v.id_until v.id_from) _ _
        (check_rest-append v.wal_no v.id_until ws w n h) e

  pub create_file-ok : (k wal_size : ℕ) → create_file p (blank k wal_size) ≡ ok (created k wal_size)
  unfolding create_file
  create_file-ok k wal_size =
      ap
        (λ o. o >>= λ buf.
          ok (record (blank k wal_size) { size = wal_size; bytes = put (λ i. 0) 0 buf }))
        (build_header-ok p (blank k wal_size) refl)

  add_file-ok :
      (wal_size : ℕ) (a : Option ℕ) (vs : List WalFile) (v : WalFile)
      → min_wal_size ≤ wal_size
      → add_file p wal_size (record { active = a; files = vs ++ (v ∷ []) })
        ≡ ok (record {
          active = if u64 (v.wal_no + 1) == 1 then some 0 else a;
          files = (vs ++ (v ∷ [])) ++ (created (u64 (v.wal_no + 1)) wal_size ∷ []);
        })
  unfolding add_file new
  add_file-ok wal_size a vs v h =
      rw
        (
          last?-append vs v,
          ltb_ge wal_size min_wal_size h,
          create_file-ok (u64 (v.wal_no + 1)) wal_size,
        )
        refl

  -- The end of a roll-over: the last file of the set is opened.
  open_last :
      (id : ℕ) (a : Option ℕ) (vs : List WalFile) (c : WalFile)
      → (active_of (use_last (record { active = a; files = vs ++ (c ∷ []) })) >>= λ next. ok (
          put_active
            (opened_at id next)
            (use_last (record { active = a; files = vs ++ (c ∷ []) }))))
        ≡ ok (record { active = some (length vs); files = vs ++ (opened_at id c ∷ []) })
  unfolding active_of put_active
  open_last id a vs c =
      let len : length (vs ++ (c ∷ [])) - 1 ≡ length vs =
        omega (arith, length-append vs (c ∷ [])) in
      rw (len, get_elem?-append vs [] c, set_at-append vs [] c (opened_at id c)) refl

  -- The file that a roll-over makes behind `w`.
  abbrev pub next_file : WalFile → ℕ → WalFile
  next_file w wal_size = opened_at (u64 (w.id_until + 1)) (created (u64 (w.wal_no + 1)) wal_size)

  pub roll_over-ok :
      (wal_size : ℕ) (ws : List WalFile) (w : WalFile)
      → w.version ≡ 1
      → w.mmap_mut ≡ true
      → 32 ≤ w.size
      → min_wal_size ≤ wal_size
      → roll_over p wal_size (record { active = some (length ws); files = ws ++ (w ∷ []) })
        ≡ ok (record {
          active = some (suc (length ws));
          files = ws ++ (closed w ∷ next_file w wal_size ∷ []);
        })
  unfolding roll_over active_of put_active
  roll_over-ok wal_size ws w v m sized large =
      rw
        (
          get_elem?-append ws [] w,
          update_header-ok p w v m sized,
          set_at-append ws [] w (closed w),
          add_file-ok wal_size (some (length ws)) ws (closed w) large,
        )
        (open_last (u64 (w.id_until + 1))
            (if u64 (w.wal_no + 1) == 1 then some 0 else some (length ws)) (ws ++ (closed w ∷ [])) _
          ∙ set_path (omega (arith, length-append ws (closed w ∷ [])))
              (append_assoc ws (closed w ∷ []) (next_file w wal_size ∷ [])))

  -- A roll-over of a set whose last file is the active one, of version 1 and open for writing,
  -- succeeds for a size that is large enough. It closes that file with its header written, adds an
  -- empty file behind it, of the next number and ready for the next id, which it opens and makes the
  -- active one. If the headers passed the integrity check before, they pass it afterwards.
  pub roll_over-check_headers :
      (wal_size : ℕ) (ws : List WalFile) (w : WalFile)
      → w.version ≡ 1
      → w.mmap_mut ≡ true
      → 32 ≤ w.size
      → min_wal_size ≤ wal_size
      → check_headers (record { active = some (length ws); files = ws ++ (w ∷ []) }) ≡ ok tt
      → (n : WalFile) × IsNext w n
        × (n.mmap_mut ≡ true)
        × (n.len_max ≡ wal_size)
        × (roll_over p wal_size (record { active = some (length ws); files = ws ++ (w ∷ []) })
            ≡ ok (record { active = some (suc (length ws)); files = ws ++ (closed w ∷ n ∷ []) }))
        × (check_headers
              (record { active = some (suc (length ws)); files = ws ++ (closed w ∷ n ∷ []) })
            ≡ ok tt)
  unfolding check_headers
  roll_over-check_headers wal_size ws w v m sized large ok_before =
      let n = next_file w wal_size in
      let next : IsNext w n = record {
        number = refl;
        id_from = refl;
        id_until = refl;
        data_start = refl;
        data_end = refl;
      } in
      (
        n,
        next,
        refl,
        refl,
        roll_over-ok wal_size ws w v m sized large,
        check_files-append ws w n next ok_before,
      )
