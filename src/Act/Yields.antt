-- ===== src/Act/Yields.antt =====
-- What holds of the value that a coroutine returns and of the object then, if it returns.
use seeds.Base.{Bool, true, false, Option, none, some, ◌≡◌, refl, subst, if◌then◌else◌}
use seeds.Act.{
  Exn, Reply, done, raised, cancelled, Act, pure, raise, handled, catch, reading, maybe, ◌>>=◌,
  onward,
}
use seeds.Act.Keeps.{Keeps}

abbrev pub After {ℓ κ μ} : {S : Type ℓ} {A : Type κ} → (A → S → Type μ) → Reply A → S → Type μ
After Q (done a) s = Q a s
After Q _ s = Unit

pub record Yields {ℓ κ μ ν} {S : Type ℓ} {A : Type κ} (P : S → Type μ) (Q : A → S → Type ν)
    (m : Act S A) : Type (ℓ ⊔ μ ⊔ ν) where
  pub yields : (s : S) → P s → After Q (m s).0 (m s).1

module _ {ℓ κ μ ν} {S : Type ℓ} {A : Type κ} {P : S → Type μ} {Q : A → S → Type ν} where
  pub Yields-done :
      (m : Act S A) → Yields P Q m → (s : S) (a : A) → P s → (m s).0 ≡ done a → Q a (m s).1
  Yields-done m h s a p e = subst (λ r. After Q r (m s).1) e (h.yields s p)

  pub Yields-pure : (a : A) → ((s : S) → P s → Q a s) → Yields P Q (pure a)
  unfolding pure
  Yields-pure a h = record { yields = h }

  pub Yields-raise : (e : Exn) → Yields P Q (raise e)
  unfolding raise
  Yields-raise e = record { yields = λ s p. tt }

  pub Yields-reading : (f : S → Act S A) → ((s : S) → Yields P Q (f s)) → Yields P Q (reading f)
  unfolding reading
  Yields-reading f h = record { yields = λ s p. (h s).yields s p }

  -- the step is chosen by the object that it starts with
  pub Yields-reading_at :
      (f : S → Act S A) → ((s : S) → P s → Yields (λ t. t ≡ s) Q (f s)) → Yields P Q (reading f)
  unfolding reading
  Yields-reading_at f h = record { yields = λ s p. (h s p).yields s refl }

  pub Yields-if :
      (b : Bool) (m n : Act S A)
      → (b ≡ true → Yields P Q m)
      → (b ≡ false → Yields P Q n)
      → Yields P Q (if b then m else n)
  Yields-if true m n h g = h refl
  Yields-if false m n h g = g refl

  pub Yields-maybe {κ'} :
      {B : Type κ'} (o : Option B) (m : Act S A) (k : B → Act S A)
      → (o ≡ none → Yields P Q m)
      → ((b : B) → o ≡ some b → Yields P Q (k b))
      → Yields P Q (maybe o m k)
  unfolding maybe
  Yields-maybe none m k h g = h refl
  Yields-maybe (some b) m k h g = g b refl

module _ {ℓ κ λ' ν ξ} {S : Type ℓ} {A : Type κ} {B : Type λ'} {M : A → S → Type ξ}
    {Q : B → S → Type ν} where
  onward-Yields :
      (k : A → Act S B)
      → ((a : A) → Yields (M a) Q (k a))
      → (r : Reply A) (s : S) → After M r s
      → After Q (onward k r s).0 (onward k r s).1
  onward-Yields k g (done a) s p = (g a).yields s p
  onward-Yields k g (raised e) s p = tt
  onward-Yields k g cancelled s p = tt

  -- the second starts where the first returned
  pub Yields-bind {μ} :
      {P : S → Type μ} (m : Act S A) (k : A → Act S B)
      → Yields P M m
      → ((a : A) → Yields (M a) Q (k a))
      → Yields P Q (m >>= k)
  unfolding ◌>>=◌
  Yields-bind m k h g = record { yields = λ s p. onward-Yields k g (m s).0 (m s).1 (h.yields s p) }

abbrev pub Anything {ℓ κ} : {S : Type ℓ} {A : Type κ} → A → S → Type 0
Anything a s = Unit

After-any {ℓ κ} :
    {S : Type ℓ} {A : Type κ} (r : Reply A) (s : S) → After (Anything {S = S} {A = A}) r s
After-any (done a) s = tt
After-any (raised e) s = tt
After-any cancelled s = tt

pub Yields-any {ℓ κ μ} :
    {S : Type ℓ} {A : Type κ} {P : S → Type μ} (m : Act S A) → Yields P (Anything {S = S} {A = A}) m
Yields-any m = record { yields = λ s p. After-any (m s).0 (m s).1 }

-- no condition on the object
abbrev pub Anyhow {ℓ} : {S : Type ℓ} → S → Type 0
Anyhow s = Unit

-- a condition that is not about the object
pub Yields-given {ℓ κ μ ν} :
    {S : Type ℓ} {A : Type κ} {F : Type μ} {Q : A → S → Type ν} (m : Act S A)
    → (F → Yields Anyhow Q m)
    → Yields (λ s. F) Q m
Yields-given m h = record { yields = λ s f. (h f).yields s tt }

After-imply {ℓ κ μ ν} :
    {S : Type ℓ} {A : Type κ} {M : A → S → Type μ} {Q : A → S → Type ν} (r : Reply A) (s : S)
    → ((a : A) (s : S) → M a s → Q a s)
    → After M r s
    → After Q r s
After-imply (done a) s i h = i a s h
After-imply (raised e) s i h = tt
After-imply cancelled s i h = tt

pub Yields-imply {ℓ κ μ ν ξ} :
    {S : Type ℓ} {A : Type κ} {P : S → Type ξ} {M : A → S → Type μ} {Q : A → S → Type ν}
    (m : Act S A)
    → ((a : A) (s : S) → M a s → Q a s)
    → Yields P M m
    → Yields P Q m
Yields-imply m i h = record { yields = λ s p. After-imply (m s).0 (m s).1 i (h.yields s p) }

-- more is known than is asked for
pub Yields-weaken {ℓ κ μ ν} :
    {S : Type ℓ} {A : Type κ} {P : S → Type μ} {Q : A → S → Type ν} (m : Act S A)
    → Yields Anyhow Q m
    → Yields P Q m
Yields-weaken m h = record { yields = λ s p. h.yields s tt }

pub Yields-from {ℓ κ μ ν ξ} :
    {S : Type ℓ} {A : Type κ} {P : S → Type μ} {P' : S → Type ξ} {Q : A → S → Type ν} (m : Act S A)
    → ((s : S) → P s → P' s)
    → Yields P' Q m
    → Yields P Q m
Yields-from m i h = record { yields = λ s p. h.yields s (i s p) }

After-always {ℓ κ μ} :
    {S : Type ℓ} {A : Type κ} (P : S → Type μ) (r : Reply A) (s : S)
    → P s
    → After (λ (a : A). P) r s
After-always P (done a) s p = p
After-always P (raised e) s p = tt
After-always P cancelled s p = tt

pub Yields-kept {ℓ κ μ} :
    {S : Type ℓ} {A : Type κ} {P : S → Type μ} (m : Act S A) → Keeps P m → Yields P (λ a. P) m
Yields-kept {P = P} m h = record { yields = λ s p. After-always P (m s).0 (m s).1 (h.after s p) }

pub After-answer {ℓ κ μ} :
    {S : Type ℓ} {A : Type κ} (Q : A → S → Type μ) (r : Reply A) (s : S)
    → ((a : A) → r ≡ done a → Q a s)
    → After Q r s
After-answer Q (done a) s q = q a refl
After-answer Q (raised e) s q = tt
After-answer Q cancelled s q = tt

After-both {ℓ κ μ ν} :
    {S : Type ℓ} {A : Type κ} (M : A → S → Type μ) (Q : A → S → Type ν) (r : Reply A) (s : S)
    → After M r s
    → After Q r s
    → After (λ a s. M a s × Q a s) r s
After-both M Q (done a) s m q = (m, q)
After-both M Q (raised e) s m q = tt
After-both M Q cancelled s m q = tt

pub Yields-both {ℓ κ μ ν ξ} :
    {S : Type ℓ} {A : Type κ} {P : S → Type ξ} {M : A → S → Type μ} {Q : A → S → Type ν}
    (m : Act S A)
    → Yields P M m
    → Yields P Q m
    → Yields P (λ a s. M a s × Q a s) m
Yields-both m f g = record {
  yields = λ s p. After-both _ _ (m s).0 (m s).1 (f.yields s p) (g.yields s p);
}

module _ {ℓ κ ν} {S : Type ℓ} {A : Type κ} {Q : A → S → Type ν} where
  handled-Yields :
      (h : Exn → Act S A)
      → ((e : Exn) → Yields Anyhow Q (h e))
      → (r : Reply A) (s : S) → After Q r s
      → After Q (handled h r s).0 (handled h r s).1
  handled-Yields h g (done a) s q = q
  handled-Yields h g (raised e) s q = (g e).yields s tt
  handled-Yields h g cancelled s q = tt

  pub Yields-catch {μ} :
      {P : S → Type μ} (m : Act S A) (h : Exn → Act S A)
      → Yields P Q m
      → ((e : Exn) → Yields Anyhow Q (h e))
      → Yields P Q (catch m h)
  unfolding catch
  Yields-catch m h f g = record {
    yields = λ s p. handled-Yields h g (m s).0 (m s).1 (f.yields s p);
  }
