-- ===== src/Act/Returns.antt =====
-- What holds of the value that a coroutine returns, if it returns one.
use seeds.Base.{Bool, true, false, Option, none, some, ◌≡◌, refl, subst, if◌then◌else◌}
use seeds.Act.{Exn, Reply, done, raised, cancelled, Act, pure, raise, maybe, ◌>>=◌, onward}
use seeds.Act.Keeps.{Keeps}

abbrev pub OnDone {ℓ κ} : {A : Type ℓ} → (A → Type κ) → Reply A → Type κ
OnDone Q (done a) = Q a
OnDone Q _ = Unit

pub record Returns {ℓ κ μ} {S : Type ℓ} {A : Type κ} (Q : A → Type μ) (m : Act S A)
    : Type (ℓ ⊔ μ) where
  pub gives : (s : S) → OnDone Q (m s).0

pub OnDone-done {ℓ κ} :
    {A : Type ℓ} (Q : A → Type κ) (r : Reply A) (a : A) → r ≡ done a → OnDone Q r → Q a
OnDone-done Q r a e h = subst (OnDone Q) e h

module _ {ℓ κ μ} {S : Type ℓ} {A : Type κ} {Q : A → Type μ} where
  pub Returns-pure : (a : A) → Q a → Returns Q (pure {S = S} a)
  unfolding pure
  Returns-pure a q = record { gives = λ s. q }

  pub Returns-raise : (e : Exn) → Returns Q (raise {S = S} e)
  unfolding raise
  Returns-raise e = record { gives = λ s. tt }

  pub Returns-if :
      (b : Bool) (m n : Act S A) → Returns Q m → Returns Q n → Returns Q (if b then m else n)
  Returns-if true m n h g = h
  Returns-if false m n h g = g

module _ {ℓ κ λ' μ} {S : Type ℓ} {A : Type κ} {B : Type λ'} {Q : B → Type μ} where
  onward-Returns :
      (k : A → Act S B)
      → ((a : A) → Returns Q (k a))
      → (r : Reply A) (s : S) → OnDone Q (onward k r s).0
  onward-Returns k h (done a) s = (h a).gives s
  onward-Returns k h (raised e) s = tt
  onward-Returns k h cancelled s = tt

  -- only what comes last returns
  pub Returns-bind :
      (m : Act S A) (k : A → Act S B) → ((a : A) → Returns Q (k a)) → Returns Q (m >>= k)
  unfolding ◌>>=◌
  Returns-bind m k h = record { gives = λ s. onward-Returns k h (m s).0 (m s).1 }

  pub Returns-maybe :
      (o : Option A) (m : Act S B) (k : A → Act S B)
      → Returns Q m
      → ((a : A) → o ≡ some a → Returns Q (k a))
      → Returns Q (maybe o m k)
  unfolding maybe
  Returns-maybe none m k h g = h
  Returns-maybe (some a) m k h g = g a refl

-- what follows knows what was returned
module _ {ℓ κ λ' μ ν} {S : Type ℓ} {A : Type κ} {B : Type λ'} {P : S → Type μ}
    {Q : A → Type ν} where
  onward-Keeps_given :
      (k : A → Act S B)
      → ((a : A) → Q a → Keeps P (k a))
      → (r : Reply A) (s : S) → OnDone Q r
      → P s
      → P (onward k r s).1
  onward-Keeps_given k g (done a) s q p = (g a q).after s p
  onward-Keeps_given k g (raised e) s q p = p
  onward-Keeps_given k g cancelled s q p = p

  pub Keeps-bind_given :
      (m : Act S A) (k : A → Act S B)
      → Keeps P m
      → Returns Q m
      → ((a : A) → Q a → Keeps P (k a))
      → Keeps P (m >>= k)
  unfolding ◌>>=◌
  Keeps-bind_given m k h r g = record {
    after = λ s p. onward-Keeps_given k g (m s).0 (m s).1 (r.gives s) (h.after s p);
  }
