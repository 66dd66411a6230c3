-- ===== src/Cache/State.antt =====
-- The state of kv_handler.rs and the three helpers on its index of expiries.
use hiqlite.Common.{
  ℕ, String, Option, none, some, List, [], ◌∷◌, ◌++◌, ltb, ◌==◌, if◌then◌else◌, str_eq, Dict,
  lookup,
}

-- A value and its optional expiry, an `i64` of microseconds since 1970 that is kept as its distance
-- from the smallest one; so is every reading of the clock.
pub record Entry : Type 0 where
  pub value : List ℕ
  pub expires : Option ℕ

-- `BTreeMap<i64, Vec<String>>`, in the order of its keys.
abbrev pub Expiries : Type 0
Expiries = List (ℕ × List String)

-- A counter is an `i64`, kept as its distance from the smallest one.
pub record Cache : Type 0 where
  pub values : Dict Entry
  pub counters : Dict ℕ
  pub expiries : Expiries

pub record CacheSnapshot : Type 0 where
  pub kvs : Dict Entry
  pub counts : Dict ℕ

-- `expiries.entry(exp).or_default().push(key)`
unfoldable pub register_expiry : Expiries → String → ℕ → Expiries
register_expiry [] key exp = (exp, key ∷ []) ∷ []
register_expiry ((e, keys) ∷ rest) key exp =
    let behind = register_expiry rest key exp in
    if exp == e
    then (e, keys ++ (key ∷ [])) ∷ rest
    else if ltb exp e
    then (exp, key ∷ []) ∷ (e, keys) ∷ rest
    else (e, keys) ∷ behind

-- `keys.retain(|k| k != key)`
unfoldable pub without : String → List String → List String
without key [] = []
without key (k ∷ keys) = let rest = without key keys in if str_eq k key then rest else k ∷ rest

-- A bucket goes when it is empty.
abbrev pub put_bucket : ℕ → List String → Expiries → Expiries
put_bucket e [] rest = rest
put_bucket e (k ∷ keys) rest = (e, k ∷ keys) ∷ rest

unfoldable pub remove_expiry : Expiries → ℕ → String → Expiries
unfolding without
remove_expiry [] exp key = []
remove_expiry ((e, keys) ∷ rest) exp key =
    let behind = remove_expiry rest exp key in
    if e == exp then put_bucket e (without key keys) rest else (e, keys) ∷ behind

abbrev pub expiry_of : Option Entry → Option ℕ
expiry_of none = none
expiry_of (some v) = v.expires

abbrev pub drop_at : Option ℕ → Expiries → String → Expiries
drop_at none expiries key = expiries
drop_at (some exp) expiries key = remove_expiry expiries exp key

unfoldable pub drop_expiry : Dict Entry → Expiries → String → Expiries
drop_expiry values expiries key = drop_at (expiry_of (lookup key values)) expiries key

-- `if let Some(exp) = expires { register_expiry(..) }`
abbrev pub register_at : Option ℕ → Expiries → String → Expiries
register_at none expiries key = expiries
register_at (some exp) expiries key = register_expiry expiries key exp
