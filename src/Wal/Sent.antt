-- ===== src/Wal/Sent.antt =====
-- The messages for a range of entries that two lists hold.
use hiqlite.Common.{
  ℕ, zero, suc, ◌-◌, ◌≤◌, ◌≡◌, ◌∙◌, refl, ap, sym, List, [], ◌∷◌, ◌++◌, arith, length, take, drop,
  length-drop, take-all, drop-append_le, take-append_le,
}
use hiqlite.Wal.Layout.{Entry}
use hiqlite.Wal.Reader.{logs_of}

pub logs_of-append : (xs ys : List Entry) → logs_of (xs ++ ys) ≡ logs_of xs ++ logs_of ys
logs_of-append [] ys = refl
logs_of-append ((id, d) ∷ xs) ys = rw (logs_of-append xs ys) refl

module _ {ℓ} {A : Type ℓ} where
  pub drop-append_ge :
      (n : ℕ) (xs ys : List A) → length xs ≤ n → drop n (xs ++ ys) ≡ drop (n - length xs) ys
  drop-append_ge n [] ys h = ap (λ k. drop k ys) {x = n} (omega arith)
  drop-append_ge zero (x ∷ xs) ys h = absurd (omega arith)
  drop-append_ge (suc n) (x ∷ xs) ys h =
      drop-append_ge n xs ys (omega arith) ∙ ap (λ k. drop k ys) {x = n - length xs} (omega arith)

  pub take-append_ge :
      (n : ℕ) (xs ys : List A) → length xs ≤ n → take n (xs ++ ys) ≡ xs ++ take (n - length xs) ys
  take-append_ge n [] ys h = ap (λ k. take k ys) {x = n} (omega arith)
  take-append_ge zero (x ∷ xs) ys h = absurd (omega arith)
  take-append_ge (suc n) (x ∷ xs) ys h =
      ap (λ t. x ∷ t)
        (take-append_ge n xs ys (omega arith)
          ∙ ap (λ k. xs ++ take k ys) {x = n - length xs} (omega arith))

-- A range that starts in the left list and ends in the right one.
pub logs_of-across :
    (xs ys : List Entry) (k t t' u z : ℕ)
    → k ≤ length xs
    → t' ≡ length xs - k
    → t' ≤ t
    → u ≡ t - t'
    → z ≡ 0
    → logs_of (take t (drop k (xs ++ ys)))
      ≡ logs_of (take t' (drop k xs)) ++ logs_of (take u (drop z ys))
logs_of-across xs ys k t t' u z h e lt eu ez =
    let len : length (drop k xs) ≡ t' = omega (arith, length-drop k xs, e) in
    ap (λ l. logs_of (take t l)) (drop-append_le k xs ys h)
    ∙ ap logs_of (take-append_ge t (drop k xs) ys (omega (arith, len)))
    ∙ logs_of-append (drop k xs) (take (t - length (drop k xs)) ys)
    ∙ ap (λ l. logs_of l ++ logs_of (take (t - length (drop k xs)) ys))
        (sym (take-all t' (drop k xs) (omega (arith, len))))
    ∙ ap (λ i. logs_of (take t' (drop k xs)) ++ logs_of (take i ys)) {x = t - length (drop k xs)}
        (omega (arith, len, eu))
    ∙ ap (λ j. logs_of (take t' (drop k xs)) ++ logs_of (take u (drop j ys))) (sym ez)

-- A range that ends in the left list.
pub logs_of-within :
    (xs ys : List Entry) (k t t' : ℕ)
    → k ≤ length xs
    → t' ≡ t
    → t ≤ length xs - k
    → logs_of (take t' (drop k xs)) ≡ logs_of (take t (drop k (xs ++ ys)))
logs_of-within xs ys k t t' h e le =
    ap (λ i. logs_of (take i (drop k xs))) e
    ∙ ap logs_of (sym (take-append_le t (drop k xs) ys (omega (arith, le, length-drop k xs))))
    ∙ ap (λ l. logs_of (take t l)) (sym (drop-append_le k xs ys h))
