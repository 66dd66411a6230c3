-- ===== src/Cache/Index.antt =====
-- The index of the expiries in kv_handler.rs as a relation between times and keys.
use hiqlite.Common.{
  ℕ, suc, ◌≤◌, ◌<◌, ◌≡◌, refl, String, Bool, true, false, ◌&&◌, ◌||◌, not, List, [], ◌∷◌, ◌++◌,
  arith, leb, ◌==◌, str_eq, eq_iff,
}
use hiqlite.Cache.State.{Expiries, register_expiry, remove_expiry, without, put_bucket}

unfoldable pub among : List String → String → Bool
among [] key = false
among (k ∷ keys) key = str_eq k key || among keys key

-- Whether the key is due at the time.
unfoldable pub listed : Expiries → ℕ → String → Bool
unfolding among
listed [] e key = false
listed ((exp, keys) ∷ rest) e key = (exp == e && among keys key) || listed rest e key

-- The buckets stand in the order of their times, from `lo` on.
unfoldable pub sorted_from : ℕ → Expiries → Bool
sorted_from lo [] = true
sorted_from lo ((exp, keys) ∷ rest) = leb lo exp && sorted_from (suc exp) rest

pub sorted_from_mono :
    (lo hi : ℕ) (x : Expiries) → lo ≤ hi → sorted_from hi x ≡ true → sorted_from lo x ≡ true
unfolding sorted_from
sorted_from_mono lo hi [] h s = refl
sorted_from_mono lo hi ((exp, keys) ∷ rest) h s = ground arith

pub listed_before :
    (lo e : ℕ) (key : String) (x : Expiries)
    → sorted_from lo x ≡ true
    → e < lo
    → listed x e key ≡ false
unfolding sorted_from listed
listed_before lo e key [] s h = refl
listed_before lo e key ((exp, keys) ∷ rest) s h = ground (arith, listed_before (suc exp) e key rest)

among-append :
    (xs ys : List String) (key : String) → among (xs ++ ys) key ≡ (among xs key || among ys key)
unfolding among
among-append [] ys key = refl
among-append (x ∷ xs) ys key = ground (arith, among-append xs ys key)

among-without :
    (old key : String) (xs : List String)
    → among (without old xs) key ≡ (among xs key && not (str_eq old key))
unfolding among without
among-without old key [] = refl
among-without old key (x ∷ xs) =
    ground (arith, among-without old key xs, eq_iff x old, eq_iff x key, eq_iff old key)

pub listed-register :
    (x : Expiries) (key : String) (exp e : ℕ) (k : String)
    → listed (register_expiry x key exp) e k ≡ (listed x e k || (exp == e && str_eq key k))
unfolding listed register_expiry
listed-register [] key exp e k = ground arith
listed-register ((t, keys) ∷ rest) key exp e k =
    ground (arith, listed-register rest key exp e k, among-append keys (key ∷ []) k)

pub sorted-register :
    (lo : ℕ) (x : Expiries) (key : String) (exp : ℕ)
    → lo ≤ exp
    → sorted_from lo x ≡ true
    → sorted_from lo (register_expiry x key exp) ≡ true
unfolding sorted_from register_expiry
sorted-register lo [] key exp h s = ground arith
sorted-register lo ((t, keys) ∷ rest) key exp h s =
    ground (arith, sorted-register (suc t) rest key exp)

listed-put_bucket :
    (t : ℕ) (keys : List String) (rest : Expiries) (e : ℕ) (k : String)
    → listed (put_bucket t keys rest) e k ≡ ((t == e && among keys k) || listed rest e k)
unfolding listed
listed-put_bucket t [] rest e k = ground arith
listed-put_bucket t (x ∷ keys) rest e k = refl

pub listed-remove :
    (lo : ℕ) (x : Expiries) (key : String) (exp e : ℕ) (k : String)
    → sorted_from lo x ≡ true
    → listed (remove_expiry x exp key) e k ≡ (listed x e k && not (exp == e && str_eq key k))
unfolding listed remove_expiry sorted_from
listed-remove lo [] key exp e k s = refl
listed-remove lo ((t, keys) ∷ rest) key exp e k s = ground (
  arith,
  listed-remove (suc t) rest key exp e k,
  listed-put_bucket t (without key keys) rest e k,
  among-without key k keys,
  listed_before (suc t) e k rest,
)

sorted-put_bucket :
    (lo t : ℕ) (keys : List String) (rest : Expiries)
    → lo ≤ t
    → sorted_from (suc t) rest ≡ true
    → sorted_from lo (put_bucket t keys rest) ≡ true
unfolding sorted_from
sorted-put_bucket lo t [] rest h s = sorted_from_mono lo (suc t) rest (omega arith) s
sorted-put_bucket lo t (x ∷ keys) rest h s = ground arith

pub sorted-remove :
    (lo : ℕ) (x : Expiries) (key : String) (exp : ℕ)
    → sorted_from lo x ≡ true
    → sorted_from lo (remove_expiry x exp key) ≡ true
unfolding sorted_from remove_expiry
sorted-remove lo [] key exp s = refl
sorted-remove lo ((t, keys) ∷ rest) key exp s =
    ground
      (arith, sorted-remove (suc t) rest key exp, sorted-put_bucket lo t (without key keys) rest)
