-- ===== src/Wal/Copies.antt =====
-- The readers' copy of the files after `clone_files_from_no_mmap` of hiqlite-wal/src/wal.rs.
use hiqlite.Common.{
  ◌≡◌, ◌∙◌, refl, ap, sym, subst, true, false, List, [], ◌∷◌, ◌++◌, arith, some, length, get_elem?,
}
use hiqlite.Wal.Outcome.{ok, ◌>>=◌}
use hiqlite.Wal.File.{WalFile}
use hiqlite.Wal.Set.{WalFileSet, set_at}
use hiqlite.Wal.Shared.{
  clone_no_mmap, clone_all, clone_from_no_mmap, has_number, retained, updated,
  clone_files_from_no_mmap, refresh,
}

-- What does not change of a file.
pub record IsTwin (f w : WalFile) : Type 0 where
  pub number : f.wal_no ≡ w.wal_no
  pub version : f.version ≡ w.version
  pub len_max : f.len_max ≡ w.len_max
  pub size : f.size ≡ w.size

-- The files are those that the others begin with.
abbrev pub Begin : List WalFile → List WalFile → Type 0
Begin [] ws = Unit
Begin (f ∷ fs) [] = ⊥
Begin (f ∷ fs) (w ∷ ws) = IsTwin f w × Begin fs ws

-- Every file's number is one of the others.
abbrev pub Named : List WalFile → List WalFile → Type 0
Named [] ws = Unit
Named (f ∷ fs) ws = (has_number f.wal_no ws ≡ true) × Named fs ws

Named-later : (fs ws : List WalFile) (w : WalFile) → Named fs ws → Named fs (w ∷ ws)
unfolding has_number
Named-later [] ws w n = tt
Named-later (f ∷ fs) ws w (h, n) = (ground (arith, h), Named-later fs ws w n)

pub Begin-Named : (fs ws : List WalFile) → Begin fs ws → Named fs ws
unfolding has_number
Begin-Named [] ws b = tt
Begin-Named (f ∷ fs) [] b = absurd b
Begin-Named (f ∷ fs) (w ∷ ws) (t, b) =
    (ground (arith, t.number), Named-later fs ws w (Begin-Named fs ws b))

pub retained-Named : (ws fs : List WalFile) → Named fs ws → retained ws fs ≡ fs
unfolding retained
retained-Named ws [] n = refl
retained-Named ws (f ∷ fs) (h, n) = rw (h, retained-Named ws fs n) refl

-- A copy shows the same as the file, and the copies of some files the same as these.
abbrev pub Shown : WalFile → WalFile → Type 0
Shown f w = clone_no_mmap f ≡ clone_no_mmap w

abbrev pub Shows : List WalFile → List WalFile → Type 0
Shows [] [] = Unit
Shows [] (w ∷ ws) = ⊥
Shows (f ∷ fs) [] = ⊥
Shows (f ∷ fs) (w ∷ ws) = Shown f w × Shows fs ws

pub Shows-clone_all : (ws : List WalFile) → Shows (clone_all ws) ws
unfolding clone_all
Shows-clone_all [] = tt
Shows-clone_all (w ∷ ws) = (refl, Shows-clone_all ws)

pub clone_from-IsTwin :
    (f w : WalFile) → IsTwin f w → clone_no_mmap (clone_from_no_mmap false w f) ≡ clone_no_mmap w
unfolding clone_from_no_mmap
clone_from-IsTwin f w t i = record {
  version = t.version i;
  wal_no = t.number i;
  id_from = w.id_from;
  id_until = w.id_until;
  data_start = w.data_start;
  data_end = w.data_end;
  len_max = t.len_max i;
  mmap = false;
  mmap_mut = false;
  size = t.size i;
  bytes = w.bytes;
}

updated-Begin :
    (fs ws : List WalFile)
    → Begin fs ws
    → (gs : List WalFile) × (updated (λ k. false) fs ws ≡ ok gs) × Shows gs ws
unfolding updated clone_all
updated-Begin [] ws b = (clone_all ws, refl, Shows-clone_all ws)
updated-Begin (f ∷ fs) [] b = absurd b
updated-Begin (f ∷ fs) (w ∷ ws) (t, b) =
    let (gs, e, shows) = updated-Begin fs ws b in
    (
      clone_from_no_mmap false w f ∷ gs,
      ap (λ o. o >>= λ rest. ok (clone_from_no_mmap false w f ∷ rest)) e,
      (clone_from-IsTwin f w t, shows),
    )

-- A copy whose files, without those that are gone, the files of the set begin with is refreshed: it
-- then shows the files of the set, and has its active index.
pub refresh-retained :
    (s copy : WalFileSet) (fs : List WalFile)
    → retained s.files copy.files ≡ fs
    → Begin fs s.files
    → (gs : List WalFile) × (refresh (λ k. false) s copy
        ≡ ok (record { active = s.active; files = gs }))
      × Shows gs s.files
unfolding refresh clone_files_from_no_mmap
refresh-retained s copy fs left b =
    let (gs, e, shows) = updated-Begin fs s.files b in (gs, rw (left, e) refl, shows)

pub refresh-Begin :
    (s copy : WalFileSet)
    → Begin copy.files s.files
    → (gs : List WalFile) × (refresh (λ k. false) s copy
        ≡ ok (record { active = s.active; files = gs }))
      × Shows gs s.files
refresh-Begin s copy b =
    refresh-retained s copy copy.files
      (retained-Named s.files copy.files (Begin-Named copy.files s.files b)) b

-- A copy of some files and a last one, which shows all but the last as they are.
abbrev pub Lags : List WalFile → List WalFile → WalFile → Type 0
Lags [] ws w = ⊥
Lags (f ∷ fs) [] w = IsTwin f w × (fs ≡ [])
Lags (f ∷ fs) (v ∷ ws) w = Shown f v × Lags fs ws w

pub IsTwin-trans : (f w w' : WalFile) → IsTwin w w' → IsTwin f w → IsTwin f w'
IsTwin-trans f w w' t h = record {
  number = h.number ∙ t.number;
  version = h.version ∙ t.version;
  len_max = h.len_max ∙ t.len_max;
  size = h.size ∙ t.size;
}

pub Shown-IsTwin : (f w : WalFile) → Shown f w → IsTwin f w
Shown-IsTwin f w e = record {
  number = ap (λ v. v.wal_no) e;
  version = ap (λ v. v.version) e;
  len_max = ap (λ v. v.len_max) e;
  size = ap (λ v. v.size) e;
}

pub Shows-Begin : (fs ws : List WalFile) → Shows fs ws → Begin fs ws
Shows-Begin [] ws b = tt
Shows-Begin (f ∷ fs) [] b = absurd b
Shows-Begin (f ∷ fs) (w ∷ ws) (h, b) = (Shown-IsTwin f w h, Shows-Begin fs ws b)

-- A last file that changed leaves the copy as it was, also with files behind it.
pub Lags-last : (fs ws : List WalFile) (w w' : WalFile) → IsTwin w w' → Lags fs ws w → Lags fs ws w'
Lags-last [] ws w w' t b = b
Lags-last (f ∷ fs) [] w w' t (h, e) = (IsTwin-trans f w w' t h, e)
Lags-last (f ∷ fs) (v ∷ ws) w w' t (h, b) = (h, Lags-last fs ws w w' t b)

pub Lags-Begin :
    (fs ws vs : List WalFile) (w w' : WalFile)
    → IsTwin w w'
    → Lags fs ws w
    → Begin fs (ws ++ (w' ∷ vs))
Lags-Begin [] ws vs w w' t b = absurd b
Lags-Begin (f ∷ fs) [] vs w w' t (h, e) =
    subst (λ gs. Begin (f ∷ gs) (w' ∷ vs)) (sym e) (IsTwin-trans f w w' t h, tt)
Lags-Begin (f ∷ fs) (v ∷ ws) vs w w' t (h, b) = (Shown-IsTwin f v h, Lags-Begin fs ws vs w w' t b)

pub Shows-Lags : (fs ws : List WalFile) (w : WalFile) → Shows fs (ws ++ (w ∷ [])) → Lags fs ws w
Shows-Lags [] [] w b = b
Shows-Lags [] (v ∷ ws) w b = b
Shows-Lags (f ∷ []) [] w (h, b) = (Shown-IsTwin f w h, refl)
Shows-Lags (f ∷ g ∷ fs) [] w (h, b) = absurd b
Shows-Lags (f ∷ fs) (v ∷ ws) w (h, b) = (h, Shows-Lags fs ws w b)

-- An update of the last file makes the copy show them all.
pub Lags-share :
    (fs ws : List WalFile) (w : WalFile)
    → Lags fs ws w
    → (f : WalFile) × (get_elem? fs (length ws) ≡ some f)
      × Shows (set_at fs (length ws) (clone_from_no_mmap false w f)) (ws ++ (w ∷ []))
Lags-share [] ws w b = absurd b
Lags-share (f ∷ fs) [] w (t, e) = (
  f,
  refl,
  subst (λ gs. Shows (clone_from_no_mmap false w f ∷ gs) (w ∷ [])) (sym e)
      (clone_from-IsTwin f w t, tt),
)
Lags-share (f ∷ fs) (v ∷ ws) w (h, b) =
    let (g, e, shows) = Lags-share fs ws w b in (g, e, (h, shows))
