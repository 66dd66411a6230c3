-- ===== src/Common/Dictionary.antt =====
-- Rust's `HashMap` with text keys, as an association list with at most one entry for each key.
use Prim.Native.String.{String}
use mathlib.Core.Path.{◌≡◌, refl}
use mathlib.Core.Bool.{Bool, true, false, ◌&&◌}
use mathlib.Core.Option.{Option, none, some}
use mathlib.Core.List.{List, [], ◌∷◌}
use native.Mathlib.Omega.{arith}
use text.Mathlib.Text.{◌==◌}
use text.Mathlib.TextEquality.{eq_iff}
use text.Mathlib.TextPositions.{eq_refl}
use hiqlite.Common.Tests.{if◌then◌else◌}

abbrev pub Dict {ℓ} : Type ℓ → Type ℓ
Dict V = List (String × V)

module _ {ℓ} {V : Type ℓ} where
  unfoldable pub lookup : String → Dict V → Option V
  lookup key [] = none
  lookup key ((name, found) ∷ rest) = if name == key then some found else lookup key rest

  unfoldable pub insert : String → V → Dict V → Dict V
  insert key new [] = (key, new) ∷ []
  insert key new ((name, old) ∷ rest) =
      let behind = insert key new rest in
      if name == key then (key, new) ∷ rest else (name, old) ∷ behind

  unfoldable pub remove : String → Dict V → Dict V
  remove key [] = []
  remove key ((name, old) ∷ rest) =
      let behind = remove key rest in if name == key then behind else (name, old) ∷ behind

  pub lookup-insert :
      (key other : String) (new : V) (d : Dict V)
      → lookup other (insert key new d) ≡ (if key == other then some new else lookup other d)
  unfolding lookup insert
  lookup-insert key other new [] = refl
  lookup-insert key other new ((name, old) ∷ rest) = ground (
    arith,
    lookup-insert key other new rest,
    eq_iff name key,
    eq_iff name other,
    eq_iff key other,
  )

  pub lookup-remove :
      (key other : String) (d : Dict V)
      → lookup other (remove key d) ≡ (if key == other then none else lookup other d)
  unfolding lookup remove
  lookup-remove key other [] = ground arith
  lookup-remove key other ((name, old) ∷ rest) =
      ground
        (arith, lookup-remove key other rest, eq_iff name key, eq_iff name other, eq_iff key other)

  pub lookup-insert_self :
      (key : String) (new : V) (d : Dict V) → lookup key (insert key new d) ≡ some new
  lookup-insert_self key new d = simp (lookup-insert, eq_refl)

  pub lookup-insert_ne :
      (key other : String) (new : V) (d : Dict V)
      → (key == other) ≡ false
      → lookup other (insert key new d) ≡ lookup other d
  lookup-insert_ne key other new d ne = simp (lookup-insert, ne)

  pub lookup-remove_self : (key : String) (d : Dict V) → lookup key (remove key d) ≡ none
  lookup-remove_self key d = simp (lookup-remove, eq_refl)

  pub lookup-remove_ne :
      (key other : String) (d : Dict V)
      → (key == other) ≡ false
      → lookup other (remove key d) ≡ lookup other d
  lookup-remove_ne key other d ne = simp (lookup-remove, ne)

abbrev pub is_absent {ℓ} : {V : Type ℓ} → Option V → Bool
is_absent none = true
is_absent (some v) = false

-- Each key stands once.
unfoldable pub unique {ℓ} : {V : Type ℓ} → Dict V → Bool
unique [] = true
unique ((key, v) ∷ rest) = is_absent (lookup key rest) && unique rest

module _ {ℓ} {V : Type ℓ} where
  pub unique-insert :
      (key : String) (new : V) (d : Dict V) → unique d ≡ true → unique (insert key new d) ≡ true
  unfolding unique insert lookup
  unique-insert key new [] u = refl
  unique-insert key new ((name, old) ∷ rest) u = ground (
    arith,
    unique-insert key new rest,
    eq_iff name key,
    eq_iff key name,
    lookup-insert_ne key name new rest,
  )

  pub unique-remove : (key : String) (d : Dict V) → unique d ≡ true → unique (remove key d) ≡ true
  unfolding unique remove lookup
  unique-remove key [] u = refl
  unique-remove key ((name, old) ∷ rest) u = ground (
    arith,
    unique-remove key rest,
    lookup-remove_ne key name rest,
    eq_iff name key,
    eq_iff key name,
  )
