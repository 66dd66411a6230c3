-- ===== src/Cache/Mirror.antt =====
-- The index of kv_handler.rs mirrors the expiries of the values.
use hiqlite.Common.{
  ℕ, ◌≡◌, refl, String, Bool, true, false, ◌&&◌, ◌||◌, not, Option, none, some, List, [], ◌∷◌,
  arith, ◌==◌, str_eq, eq_iff, Dict, lookup, unique, lookup-insert, lookup-remove,
}
use hiqlite.Cache.State.{Entry, Expiries, Cache, expiry_of, drop_at, drop_expiry, register_at}
use hiqlite.Cache.Handlers.{remove_value, put_value, register_all}
use hiqlite.Cache.Index.{
  listed, sorted_from, listed-register, sorted-register, listed-remove, sorted-remove,
}

abbrev pub is_at : Option ℕ → ℕ → Bool
is_at none e = false
is_at (some exp) e = exp == e

-- The index is in order, and lists a key at a time just if the key's entry expires then.
pub record Mirrors (x : Expiries) (values : Dict Entry) : Type 0 where
  pub in_order : sorted_from 0 x ≡ true
  pub lists : (e : ℕ) (k : String) → listed x e k ≡ is_at (expiry_of (lookup k values)) e

drop_at-listed :
    (o : Option ℕ) (x : Expiries) (key : String) (e : ℕ) (k : String)
    → sorted_from 0 x ≡ true
    → listed (drop_at o x key) e k ≡ (listed x e k && not (is_at o e && str_eq key k))
drop_at-listed none x key e k s = ground arith
drop_at-listed (some exp) x key e k s = listed-remove 0 x key exp e k s

drop_at-sorted :
    (o : Option ℕ) (x : Expiries) (key : String)
    → sorted_from 0 x ≡ true
    → sorted_from 0 (drop_at o x key) ≡ true
drop_at-sorted none x key s = s
drop_at-sorted (some exp) x key s = sorted-remove 0 x key exp s

register_at-listed :
    (o : Option ℕ) (x : Expiries) (key : String) (e : ℕ) (k : String)
    → listed (register_at o x key) e k ≡ (listed x e k || (is_at o e && str_eq key k))
register_at-listed none x key e k = ground arith
register_at-listed (some exp) x key e k = listed-register x key exp e k

register_at-sorted :
    (o : Option ℕ) (x : Expiries) (key : String)
    → sorted_from 0 x ≡ true
    → sorted_from 0 (register_at o x key) ≡ true
register_at-sorted none x key s = s
register_at-sorted (some exp) x key s = sorted-register 0 x key exp (omega arith) s

-- After `drop_expiry` the key is listed nowhere, and every other key as before.
drop_expiry-listed :
    (x : Expiries) (values : Dict Entry) (key : String) (e : ℕ) (k : String)
    → Mirrors x values
    → listed (drop_expiry values x key) e k
      ≡ (not (str_eq key k) && is_at (expiry_of (lookup k values)) e)
unfolding drop_expiry
drop_expiry-listed x values key e k m = ground (
  arith,
  drop_at-listed (expiry_of (lookup key values)) x key e k m.in_order,
  m.lists e k,
  eq_iff key k,
)

pub remove_value-Mirrors :
    (key : String) (s : Cache)
    → Mirrors s.expiries s.values
    → let s' = remove_value key s in Mirrors s'.expiries s'.values
unfolding remove_value
remove_value-Mirrors key s m = record {
  in_order = unfold drop_expiry in drop_at-sorted _ s.expiries key m.in_order;
  lists = λ e k.
      ground
        (arith, drop_expiry-listed s.expiries s.values key e k m, lookup-remove key k s.values);
}

pub put_value-Mirrors :
    (key : String) (v : List ℕ) (expires : Option ℕ) (s : Cache)
    → Mirrors s.expiries s.values
    → let s' = put_value key v expires s in Mirrors s'.expiries s'.values
unfolding put_value
put_value-Mirrors key v expires s m = record {
  in_order =
      unfold drop_expiry in
      register_at-sorted expires _ key (drop_at-sorted _ s.expiries key m.in_order);
  lists = λ e k. ground (
    arith,
    drop_expiry-listed s.expiries s.values key e k m,
    register_at-listed expires (drop_expiry s.values s.expiries key) key e k,
    lookup-insert key k (record { value = v; expires = expires }) s.values,
  );
}

register_all-sorted :
    (values : Dict Entry) (x : Expiries)
    → sorted_from 0 x ≡ true
    → sorted_from 0 (register_all values x) ≡ true
unfolding register_all
register_all-sorted [] x s = s
register_all-sorted ((key, v) ∷ rest) x s =
    register_all-sorted rest _ (register_at-sorted v.expires x key s)

register_all-listed :
    (values : Dict Entry) (x : Expiries) (e : ℕ) (k : String)
    → unique values ≡ true
    → listed (register_all values x) e k ≡ (listed x e k || is_at (expiry_of (lookup k values)) e)
unfolding register_all lookup unique
register_all-listed [] x e k u = ground arith
register_all-listed ((key, v) ∷ rest) x e k u = ground (
  arith,
  register_all-listed rest (register_at v.expires x key) e k,
  register_at-listed v.expires x key e k,
  eq_iff key k,
)

-- The index that an install makes of a snapshot.
pub register_all-Mirrors :
    (values : Dict Entry) → unique values ≡ true → Mirrors (register_all values []) values
unfolding listed sorted_from
register_all-Mirrors values u = record {
  in_order = register_all-sorted values [] refl;
  lists = λ e k. register_all-listed values [] e k u;
}
