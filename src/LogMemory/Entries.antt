-- ===== src/LogMemory/Entries.antt =====
-- The log of memory.rs as a map from indices to entries.
use hiqlite.Common.{
  ℕ, zero, suc, ◌+◌, ◌-◌, ◌≤◌, ◌<◌, ◌≡◌, ◌∙◌, refl, ap, Option, none, some, List, [], ◌∷◌, ◌++◌,
  ltb, ◌==◌, if◌then◌else◌, length, take, drop, head?, arith, subst, take-nil, drop-nil,
}
use native.Mathlib.Decide.{dec_lt}
use hiqlite.LogMemory.{Entry}

module _ {L P : Type 0} where
  -- The indices of the entries go up by one, from `n`.
  abbrev pub Contiguous : ℕ → List (Entry L P) → Type 0
  Contiguous n [] = Unit
  Contiguous n (e ∷ es) = (e.log_id.index ≡ n) × Contiguous (suc n) es

  -- The entry with the index `i`.
  unfoldable pub entry_at : ℕ → List (Entry L P) → Option (Entry L P)
  entry_at i [] = none
  entry_at i (e ∷ es) = if e.log_id.index == i then some e else entry_at i es

  entry_at-lt : (i n : ℕ) (es : List (Entry L P)) → Contiguous n es → i < n → entry_at i es ≡ none
  unfolding entry_at
  entry_at-lt i n [] c h = refl
  entry_at-lt i n (e ∷ es) c h = ground (arith, c.0, entry_at-lt i (suc n) es c.1 (omega arith))

  pub entry_at-take :
      (i n k : ℕ) (es : List (Entry L P))
      → Contiguous n es
      → entry_at i (take k es) ≡ (if ltb i (n + k) then entry_at i es else none)
  unfolding entry_at
  entry_at-take i n k [] c = rw (take-nil (Entry L P) k) (ground arith)
  entry_at-take i n zero (e ∷ es) c = ground (arith, entry_at-lt i n (e ∷ es) c)
  entry_at-take i n (suc k) (e ∷ es) c = ground (arith, c.0, entry_at-take i (suc n) k es c.1)

  pub entry_at-drop :
      (i n k : ℕ) (es : List (Entry L P))
      → Contiguous n es
      → entry_at i (drop k es) ≡ (if ltb i (n + k) then none else entry_at i es)
  unfolding entry_at
  entry_at-drop i n k [] c = rw (drop-nil (Entry L P) k) (ground arith)
  entry_at-drop i n zero (e ∷ es) c = ground (arith, entry_at-lt i n (e ∷ es) c)
  entry_at-drop i n (suc k) (e ∷ es) c = ground (arith, c.0, entry_at-drop i (suc n) k es c.1)

  pub Contiguous-take :
      (n k : ℕ) (es : List (Entry L P)) → Contiguous n es → Contiguous n (take k es)
  Contiguous-take n zero es c = tt
  Contiguous-take n (suc k) [] c = tt
  Contiguous-take n (suc k) (e ∷ es) c = (c.0, Contiguous-take (suc n) k es c.1)

  pub Contiguous-drop :
      (n k : ℕ) (es : List (Entry L P)) → Contiguous n es → Contiguous (n + k) (drop k es)
  Contiguous-drop n zero es c = subst (λ i. Contiguous i es) {x = n} (omega arith) c
  Contiguous-drop n (suc k) [] c = tt
  Contiguous-drop n (suc k) (e ∷ es) c =
      subst (λ i. Contiguous i (drop k es)) {x = suc n + k} {y = n + suc k} (omega arith)
        (Contiguous-drop (suc n) k es c.1)

  pub Contiguous-append :
      (n : ℕ) (es fs : List (Entry L P))
      → Contiguous n es
      → Contiguous (n + length es) fs
      → Contiguous n (es ++ fs)
  Contiguous-append n [] fs c d = subst (λ i. Contiguous i fs) {x = n + 0} {y = n} (omega arith) d
  Contiguous-append n (e ∷ es) fs c d = (
    c.0,
    Contiguous-append (suc n) es fs c.1
        (subst (λ i. Contiguous i fs) {y = suc n + length es} (omega arith) d),
  )

  -- The entry with an index is found at its distance from the first one.
  pub head-drop :
      (i n : ℕ) (es : List (Entry L P))
      → Contiguous n es
      → n ≤ i
      → head? (drop (i - n) es) ≡ entry_at i es
  unfolding entry_at
  head-drop i n [] c h = rw (drop-nil (Entry L P) (i - n))
  head-drop i n (e ∷ es) c h = elim (dec_lt n i) [
    | yes lt ↦
        ap (λ k. head? (drop k (e ∷ es))) {y = suc (i - suc n)} (omega arith)
        ∙ head-drop i (suc n) es c.1 lt
        ∙ ground (arith, c.0)
    | no ge ↦
        ap (λ k. head? (drop k (e ∷ es))) {y = 0} (omega (arith, ge)) ∙ ground (arith, c.0, ge)
  ]
