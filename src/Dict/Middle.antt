-- ===== src/Dict/Middle.antt =====
-- A dict in two parts: a key that the first part does not have.
use seeds.Base.{String, ◌==◌, ◌≡◌, refl, false, ◌||◌, some, [], ◌∷◌, ◌++◌, All, arith}
use seeds.Dict.{Dict, get, contains, insert}

module _ {ℓ} {V : Type ℓ} where
  -- every key stands once
  abbrev pub Distinct : Dict V → Type 0
  Distinct [] = Unit
  Distinct ((k, v) ∷ d) = (contains k d ≡ false) × Distinct d

  -- no key of the second stands in the first
  abbrev pub Fresh : Dict V → Dict V → Type 0
  Fresh p d = All (λ e. contains e.0 p ≡ false) d

  pub insert-new :
      (k : String) (v : V) (d : Dict V) → contains k d ≡ false → insert k v d ≡ d ++ (k, v) ∷ []
  unfolding get insert
  insert-new k v [] h = refl
  insert-new k v ((j, w) ∷ d) h = ground (arith, insert-new k v d, h)

  pub get-middle :
      (k : String) (v : V) (p r : Dict V) → contains k p ≡ false → get k (p ++ (k, v) ∷ r) ≡ some v
  unfolding get
  get-middle k v [] r h = ground arith
  get-middle k v ((j, w) ∷ p) r h = ground (arith, get-middle k v p r, h)

  pub insert-middle :
      (k : String) (v w : V) (p r : Dict V)
      → contains k p ≡ false
      → insert k w (p ++ (k, v) ∷ r) ≡ p ++ (k, w) ∷ r
  unfolding get insert
  insert-middle k v w [] r h = ground arith
  insert-middle k v w ((j, u) ∷ p) r h = ground (arith, insert-middle k v w p r, h)

  pub contains-append :
      (j : String) (p r : Dict V) → contains j (p ++ r) ≡ (contains j p || contains j r)
  unfolding get
  contains-append j [] r = refl
  contains-append j ((i, w) ∷ p) r = ground (arith, contains-append j p r)

  pub contains-cons :
      (j k : String) (v : V) (r : Dict V) → contains j ((k, v) ∷ r) ≡ ((k == j) || contains j r)
  unfolding get
  contains-cons j k v r = ground arith

  -- the first of the second part goes over to the first
  pub Fresh-snoc :
      (k : String) (v : V) (p d : Dict V)
      → Fresh p d
      → contains k d ≡ false
      → Fresh (p ++ (k, v) ∷ []) d
  unfolding get
  Fresh-snoc k v p [] f h = tt
  Fresh-snoc k v p ((j, w) ∷ d) f h = (
    ground (arith, contains-append j p ((k, v) ∷ []), f.0, h),
    Fresh-snoc k v p d f.1 (ground (arith, h)),
  )

  pub Fresh-nil : (d : Dict V) → Fresh [] d
  unfolding get
  Fresh-nil [] = tt
  Fresh-nil ((k, v) ∷ d) = (refl, Fresh-nil d)
