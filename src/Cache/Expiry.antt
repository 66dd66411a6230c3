-- ===== src/Cache/Expiry.antt =====
-- The expiry at the head of the loop of kv_handler.rs: the index stays in step with the values, only
-- entries that are due go, and none that is due stays.
use hiqlite.Common.{
  ℕ, suc, ◌+◌, ◌^◌, ◌≤◌, ◌<◌, ◌≡◌, ◌∙◌, refl, sym, String, Bool, true, false, Option, none, some,
  List, [], ◌∷◌, arith, if◌then◌else◌, Dict, lookup, remove, lookup-remove, Bool-cases, inl, inr,
  All,
}
use hiqlite.Cache.State.{Entry, Expiries, Cache, expiry_of}
use hiqlite.Cache.Handlers.{served, remove_keys, is_due, expire_due}
use hiqlite.Cache.Index.{among, listed, sorted_from, listed_before, sorted_from_mono}
use hiqlite.Cache.Mirror.{is_at, Mirrors}

lookup-remove_keys :
    (keys : List String) (values : Dict Entry) (k : String)
    → lookup k (remove_keys keys values) ≡ (if among keys k then none else lookup k values)
unfolding remove_keys among
lookup-remove_keys [] values k = refl
lookup-remove_keys (key ∷ keys) values k =
    ground (arith, lookup-remove_keys keys (remove key values) k, lookup-remove key k values)

-- The first bucket of an index, and the keys in it, go together.
pop-Mirrors :
    (exp : ℕ) (keys : List String) (rest : Expiries) (values : Dict Entry)
    → Mirrors ((exp, keys) ∷ rest) values
    → Mirrors rest (remove_keys keys values)
unfolding listed sorted_from
pop-Mirrors exp keys rest values m = record {
  in_order = sorted_from_mono 0 (suc exp) rest (omega arith) (ground (arith, m.in_order));
  lists = λ e k. ground (
    arith,
    lookup-remove_keys keys values k,
    m.lists e k,
    m.lists exp k,
    m.in_order,
    listed_before (suc exp) exp k rest,
  );
}

-- What is due at a reading has its expiry at or before each later one.
is_due_le : (exp now t : ℕ) → is_due exp now ≡ true → now ≤ t → exp ≤ t
unfolding is_due
is_due_le exp now t e h = ground (arith, e, h)

later_gt : (exp now : ℕ) → is_due exp now ≡ false → now ≤ exp + 2 ^ 63 → now < exp
unfolding is_due
later_gt exp now e h = ground (arith, e, h)

-- Nothing is served of an entry whose expiry has passed, be it there or not.
served_gone :
    (exp t : ℕ) (b : Bool) (o : Option Entry)
    → (b ≡ true → is_at (expiry_of o) exp ≡ true)
    → exp ≤ t
    → served t (if b then none else o) ≡ served t o
served_gone exp t false o at h = refl
served_gone exp t true none at h = refl
served_gone exp t true (some v) at h = at_expiry v.value v.expires (at refl)
  where
    at_expiry :
        (v : List ℕ) (o : Option ℕ)
        → is_at o exp ≡ true
        → none ≡ served t (some (record { value = v; expires = o }))
    at_expiry v none e = cc
    at_expiry v (some e) same = ground arith

pop-served :
    (exp t : ℕ) (keys : List String) (rest : Expiries) (values : Dict Entry) (k : String)
    → Mirrors ((exp, keys) ∷ rest) values
    → exp ≤ t
    → served t (lookup k (remove_keys keys values)) ≡ served t (lookup k values)
unfolding listed
pop-served exp t keys rest values k m h =
    rw (lookup-remove_keys keys values k)
      (served_gone exp t (among keys k) (lookup k values) (λ a. ground (arith, m.lists exp k, a)) h)

expire_due-counters :
    (clock : ℕ → ℕ) (x : Expiries) (s : Cache) → (expire_due clock x s).counters ≡ s.counters
unfolding expire_due
expire_due-counters clock [] s = refl
expire_due-counters clock ((exp, keys) ∷ rest) s =
    ground (arith, expire_due-counters clock rest (record s { values = remove_keys keys s.values }))

pub expire_due-Mirrors :
    (clock : ℕ → ℕ) (x : Expiries) (s : Cache)
    → Mirrors x s.values
    → let s' = expire_due clock x s in Mirrors s'.expiries s'.values
unfolding expire_due
expire_due-Mirrors clock [] s m = m
expire_due-Mirrors clock ((exp, keys) ∷ rest) s m = elim (Bool-cases (is_due exp (clock exp))) [
  | inl e ↦ rw e (expire_due-Mirrors clock rest _ (pop-Mirrors exp keys rest s.values m))
  | inr e ↦ rw e m
]

-- An expiry changes nothing that may be served at a time that its clock readings do not pass.
pub expire_due-served :
    (clock : ℕ → ℕ) (x : Expiries) (s : Cache) (k : String) (t : ℕ)
    → Mirrors x s.values
    → ((e : ℕ) → clock e ≤ t)
    → served t (lookup k (expire_due clock x s).values) ≡ served t (lookup k s.values)
unfolding expire_due
expire_due-served clock [] s k t m h = refl
expire_due-served clock ((exp, keys) ∷ rest) s k t m h =
    elim (Bool-cases (is_due exp (clock exp))) [
      | inl e ↦ rw e (
          expire_due-served clock rest (record s { values = remove_keys keys s.values }) k t
            (pop-Mirrors exp keys rest s.values m) h
          ∙ pop-served exp t keys rest s.values k m (is_due_le exp (clock exp) t e (h exp)))
      | inr e ↦ rw e refl
    ]

-- No entry stays whose expiry is at or before the clock's reading, if none is so far before it that
-- their difference is no `i64`.
pub expire_due-past :
    (now : ℕ) (x : Expiries) (s : Cache) (k : String) (e : ℕ)
    → Mirrors x s.values
    → All (λ bucket. now ≤ bucket.0 + 2 ^ 63) x
    → e ≤ now
    → is_at (expiry_of (lookup k (expire_due (λ exp. now) x s).values)) e ≡ false
unfolding expire_due listed
expire_due-past now [] s k e m near h = sym (m.lists e k)
expire_due-past now ((exp, keys) ∷ rest) s k e m (here, near) h =
    elim (Bool-cases (is_due exp now)) [
      | inl due ↦ rw due (
          expire_due-past now rest (record s { values = remove_keys keys s.values }) k e
            (pop-Mirrors exp keys rest s.values m) near h)
      | inr later ↦
          let gt = later_gt exp now later here in
          rw later (
            sym (m.lists e k)
            ∙ unfold sorted_from in
              ground (arith, gt, h, m.in_order, listed_before (suc exp) e k rest))
    ]
