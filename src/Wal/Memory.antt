-- ===== src/Wal/Memory.antt =====
-- The bytes of a file, as a memory mapping shows them: reading a range and writing a slice.
use hiqlite.Common.{
  ℕ, zero, suc, ◌+◌, ◌-◌, ◌≤◌, ◌<◌, ◌≡◌, refl, ap, ◌∙◌, subst, List, [], ◌∷◌, arith, ltb,
  if◌then◌else◌, length, take, drop, ap₂, take, drop, ap₂,
}

abbrev pub Image : Type 0
Image = ℕ → ℕ

unfoldable pub get_or : List ℕ → ℕ → ℕ → ℕ
get_or [] i d = d
get_or (x ∷ xs) zero d = x
get_or (x ∷ xs) (suc i) d = get_or xs i d

-- `&map[from..from + n]`
unfoldable pub read : Image → ℕ → ℕ → List ℕ
read img from zero = []
read img from (suc n) = img from ∷ read img (from + 1) n

-- The bytes `bs` written at `at`.
unfoldable pub put : Image → ℕ → List ℕ → Image
put img at bs i = if ltb i at then img i else get_or bs (i - at) (img i)

pub length-read : (img : Image) (from n : ℕ) → length (read img from n) ≡ n
unfolding read
length-read img from zero = refl
length-read img from (suc n) = ap suc (length-read img (from + 1) n)

get_or-ge : (bs : List ℕ) (i d : ℕ) → length bs ≤ i → get_or bs i d ≡ d
unfolding get_or
get_or-ge [] i d h = refl
get_or-ge (b ∷ bs) zero d h = absurd (omega arith)
get_or-ge (b ∷ bs) (suc i) d h = get_or-ge bs i d (omega arith)

get_or-lt : (bs : List ℕ) (i d e : ℕ) → i < length bs → get_or bs i d ≡ get_or bs i e
unfolding get_or
get_or-lt [] i d e h = absurd (omega arith)
get_or-lt (b ∷ bs) zero d e h = refl
get_or-lt (b ∷ bs) (suc i) d e h = get_or-lt bs i d e (omega arith)

-- What stands before a written slice is unchanged.
pub read-put_before :
    (img : Image) (at : ℕ) (bs : List ℕ) (from n : ℕ)
    → from + n ≤ at
    → read (put img at bs) from n ≡ read img from n
unfolding read put
read-put_before img at bs from zero h = refl
read-put_before img at bs from (suc n) h =
    ground (arith, read-put_before img at bs (from + 1) n (omega arith))

-- So is what stands behind it.
pub read-put_after :
    (img : Image) (at : ℕ) (bs : List ℕ) (from n : ℕ)
    → at + length bs ≤ from
    → read (put img at bs) from n ≡ read img from n
unfolding read put
read-put_after img at bs from zero h = refl
read-put_after img at bs from (suc n) h = ground (
  arith,
  get_or-ge bs (from - at) (img from) (omega arith),
  read-put_after img at bs (from + 1) n (omega arith),
)

read_eq :
    (img : Image) (from : ℕ) (bs : List ℕ)
    → ((i : ℕ) → i < length bs → img (from + i) ≡ get_or bs i 0)
    → read img from (length bs) ≡ bs
unfolding read get_or
read_eq img from [] h = refl
read_eq img from (b ∷ bs) h =
    let head : img from ≡ b = ap img (omega arith) ∙ h 0 (omega arith) in
    let rest : read img (from + 1) (length bs) ≡ bs =
      read_eq img (from + 1) bs
        (λ i lt. ap img {x = from + 1 + i} (omega arith) ∙ h (suc i) (omega arith)) in
    cc

-- What was written is read back.
pub read-put_self : (img : Image) (at : ℕ) (bs : List ℕ) → read (put img at bs) at (length bs) ≡ bs
unfolding put
read-put_self img at bs = read_eq (put img at bs) at bs (λ i lt.
    let e : at + i - at ≡ i = omega arith in
    ground (arith, e, ap (λ k. get_or bs k (img (at + i))) e, get_or-lt bs i (img (at + i)) 0 lt))

pub read-put_width :
    (img : Image) (at : ℕ) (bs : List ℕ) {n : ℕ} → length bs ≡ n → read (put img at bs) at n ≡ bs
read-put_width img at bs e = subst (λ k. read (put img at bs) at k ≡ bs) e (read-put_self img at bs)

pub take-read : (img : Image) (from n m : ℕ) → n ≤ m → take n (read img from m) ≡ read img from n
unfolding read
take-read img from zero m h = refl
take-read img from (suc n) zero h = absurd (omega arith)
take-read img from (suc n) (suc m) h =
    ap (λ l. img from ∷ l) (take-read img (from + 1) n m (omega arith))

pub drop-read :
    (img : Image) (from n m : ℕ) → drop n (read img from m) ≡ read img (from + n) (m - n)
unfolding read
drop-read img from zero m = ap₂ (read img) (omega arith) (omega arith)
drop-read img from (suc n) zero = ap (read img (from + suc n)) {x = 0} (omega arith)
drop-read img from (suc n) (suc m) =
    drop-read img (from + 1) n m ∙ ap₂ (read img) (omega arith) (omega arith)
