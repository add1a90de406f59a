-- ===== src/Act/Fails.antt =====
-- What holds of the exception that a coroutine raises and of the object then, if it raises one.
use seeds.Base.{Bool, true, false, Option, none, some, ◌≡◌, refl, subst, if◌then◌else◌}
use seeds.Act.{
  Exn, Reply, done, raised, cancelled, Act, pure, raise, handled, catch, maybe, ◌>>=◌, onward,
}
use seeds.Act.Yields.{After, Yields}

abbrev pub IfRaised {ℓ κ μ} : {S : Type ℓ} {A : Type κ} → (Exn → S → Type μ) → Reply A → S → Type μ
IfRaised E (raised e) s = E e s
IfRaised E _ s = Unit

pub record Fails {ℓ κ μ ν} {S : Type ℓ} {A : Type κ} (P : S → Type μ) (E : Exn → S → Type ν)
    (m : Act S A) : Type (ℓ ⊔ μ ⊔ ν) where
  pub fails : (s : S) → P s → IfRaised E (m s).0 (m s).1

module _ {ℓ κ μ ν} {S : Type ℓ} {A : Type κ} {P : S → Type μ} {E : Exn → S → Type ν} where
  pub Fails-raised :
      (m : Act S A) → Fails P E m → (s : S) (e : Exn) → P s → (m s).0 ≡ raised e → E e (m s).1
  Fails-raised m h s e p q = subst (λ r. IfRaised E r (m s).1) q (h.fails s p)

  pub Fails-pure : (a : A) → Fails P E (pure {S = S} a)
  unfolding pure
  Fails-pure a = record { fails = λ s p. tt }

  pub Fails-raise : (e : Exn) → ((s : S) → P s → E e s) → Fails P E (raise {S = S} {A = A} e)
  unfolding raise
  Fails-raise e h = record { fails = h }

  pub Fails-if :
      (b : Bool) (m n : Act S A) → Fails P E m → Fails P E n → Fails P E (if b then m else n)
  Fails-if true m n h g = h
  Fails-if false m n h g = g

  pub Fails-maybe {κ'} :
      {B : Type κ'} (o : Option B) (m : Act S A) (k : B → Act S A)
      → Fails P E m
      → ((b : B) → o ≡ some b → Fails P E (k b))
      → Fails P E (maybe o m k)
  unfolding maybe
  Fails-maybe none m k h g = h
  Fails-maybe (some b) m k h g = g b refl

module _ {ℓ κ ν} {S : Type ℓ} {A : Type κ} {E : Exn → S → Type ν} where
  handled-Fails :
      (h : Exn → Act S A)
      → ((e : Exn) → Fails (λ s. Unit {0}) E (h e))
      → (r : Reply A) (s : S) → IfRaised E (handled h r s).0 (handled h r s).1
  handled-Fails h g (done a) s = tt
  handled-Fails h g (raised e) s = (g e).fails s tt
  handled-Fails h g cancelled s = tt

  -- only the handler raises
  pub Fails-catch {μ} :
      {P : S → Type μ} (m : Act S A) (h : Exn → Act S A)
      → ((e : Exn) → Fails (λ s. Unit {0}) E (h e))
      → Fails P E (catch m h)
  unfolding catch
  Fails-catch m h g = record { fails = λ s p. handled-Fails h g (m s).0 (m s).1 }

module _ {ℓ κ λ' ν ξ} {S : Type ℓ} {A : Type κ} {B : Type λ'} {M : A → S → Type ξ}
    {E : Exn → S → Type ν} where
  onward-Fails :
      (k : A → Act S B)
      → ((a : A) → Fails (M a) E (k a))
      → (r : Reply A) (s : S) → IfRaised E r s
      → After M r s
      → IfRaised E (onward k r s).0 (onward k r s).1
  onward-Fails k g (done a) s f p = (g a).fails s p
  onward-Fails k g (raised e) s f p = f
  onward-Fails k g cancelled s f p = tt

  pub Fails-bind {μ} :
      {P : S → Type μ} (m : Act S A) (k : A → Act S B)
      → Fails P E m
      → Yields P M m
      → ((a : A) → Fails (M a) E (k a))
      → Fails P E (m >>= k)
  unfolding ◌>>=◌
  Fails-bind m k f h g = record {
    fails = λ s p. onward-Fails k g (m s).0 (m s).1 (f.fails s p) (h.yields s p);
  }
