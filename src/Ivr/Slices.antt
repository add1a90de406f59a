-- ===== src/Ivr/Slices.antt =====
-- Python's slices `s[:n]` and `s[n:]`.
use seeds.Base.{
  ℕ, zero, suc, ◌+◌, ◌-◌, ◌≤◌, min, List, [], ◌∷◌, ◌++◌, ◌≡◌, refl, ap, ◌∙◌, length, arith,
}

module _ {ℓ} {A : Type ℓ} where
  unfoldable pub take : ℕ → List A → List A
  take zero s = []
  take (suc n) [] = []
  take (suc n) (c ∷ s) = c ∷ take n s

  unfoldable pub drop : ℕ → List A → List A
  drop zero s = s
  drop (suc n) [] = []
  drop (suc n) (c ∷ s) = drop n s

  drop-nil : (n : ℕ) → drop n [] ≡ []
  unfolding drop
  drop-nil zero = refl
  drop-nil (suc n) = refl

  pub take-drop : (n k : ℕ) (s : List A) → n ≡ min k (length s) → take n s ++ drop k s ≡ s
  unfolding take drop
  take-drop zero zero s e = refl
  take-drop zero (suc k) [] e = refl
  take-drop zero (suc k) (c ∷ s) e = absurd (omega (arith, e))
  take-drop (suc n) zero s e = absurd (omega (arith, e))
  take-drop (suc n) (suc k) [] e = absurd (omega (arith, e))
  take-drop (suc n) (suc k) (c ∷ s) e = ap (λ r. c ∷ r) (take-drop n k s (omega (arith, e)))

  pub drop-drop : (m n k : ℕ) (s : List A) → k ≡ m + n → drop n (drop m s) ≡ drop k s
  unfolding drop
  drop-drop zero n k s e = ap (λ i. drop i s) (omega (arith, e))
  drop-drop (suc m) n zero s e = absurd (omega (arith, e))
  drop-drop (suc m) n (suc k) [] e = drop-nil n
  drop-drop (suc m) n (suc k) (c ∷ s) e = drop-drop m n k s (omega (arith, e))

  pub length-drop : (m : ℕ) (s : List A) → length (drop m s) ≡ length s - m
  unfolding drop
  length-drop zero s = omega arith
  length-drop (suc m) [] = omega arith
  length-drop (suc m) (c ∷ s) = length-drop m s ∙ omega arith

  pub drop-all : (m : ℕ) (s : List A) → length s ≤ m → drop m s ≡ []
  unfolding drop
  drop-all zero [] h = refl
  drop-all zero (c ∷ s) h = absurd (omega (arith, h))
  drop-all (suc m) [] h = refl
  drop-all (suc m) (c ∷ s) h = drop-all m s (omega (arith, h))
