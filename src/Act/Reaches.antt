-- ===== src/Act/Reaches.antt =====
-- What holds after a coroutine that returns.
use seeds.Base.{Bool, true, false, ◌≡◌, subst}
use seeds.Act.{Reply, done, raised, cancelled, Act, reading, when, ◌>>=◌, onward}
use seeds.Act.Keeps.{Keeps}

abbrev IfDone {ℓ κ} : {A : Type ℓ} → Reply A → Type κ → Type κ
IfDone (done a) R = R
IfDone _ R = Unit

pub record Reaches {ℓ κ μ ν} {S : Type ℓ} {A : Type κ} (P : S → Type μ) (R : S → Type ν)
    (m : Act S A) : Type (ℓ ⊔ μ ⊔ ν) where
  pub arrives : (s : S) → P s → IfDone (m s).0 (R (m s).1)

given {ℓ κ} : {A : Type ℓ} {R : Type κ} (r : Reply A) → R → IfDone r R
given (done a) h = h
given (raised e) h = tt
given cancelled h = tt

module _ {ℓ κ} {S : Type ℓ} {A : Type κ} where
  pub Reaches-done {μ ν} :
      {P : S → Type μ} {R : S → Type ν} (m : Act S A)
      → Reaches P R m
      → (s : S) (a : A) → P s
      → (m s).0 ≡ done a
      → R (m s).1
  Reaches-done {R = R} m h s a p e = subst (λ r. IfDone r (R (m s).1)) e (h.arrives s p)

  pub Reaches-of {μ ν} :
      {P : S → Type μ} {R : S → Type ν} (m : Act S A) → ((s : S) → P s → R (m s).1) → Reaches P R m
  Reaches-of {R = R} m h = record { arrives = λ s p. given (m s).0 (h s p) }

module _ {ℓ κ λ' ν} {S : Type ℓ} {A : Type κ} {B : Type λ'} {R : S → Type ν} where
  onward-Keeps :
      (k : A → Act S B)
      → ((a : A) → Keeps R (k a))
      → (r : Reply A) (s : S) → IfDone r (R s)
      → IfDone (onward k r s).0 (R (onward k r s).1)
  onward-Keeps k g (done a) s p = given (k a s).0 ((g a).after s p)
  onward-Keeps k g (raised e) s p = tt
  onward-Keeps k g cancelled s p = tt

  -- reached, and then kept
  pub Reaches-then {μ} :
      {P : S → Type μ} (m : Act S A) (k : A → Act S B)
      → Reaches P R m
      → ((a : A) → Keeps R (k a))
      → Reaches P R (m >>= k)
  unfolding ◌>>=◌
  Reaches-then m k h g = record {
    arrives = λ s p. onward-Keeps k g (m s).0 (m s).1 (h.arrives s p);
  }

  onward-Reaches {μ} :
      {P : S → Type μ} (k : A → Act S B)
      → ((a : A) → Reaches P R (k a))
      → (r : Reply A) (s : S) → P s
      → IfDone (onward k r s).0 (R (onward k r s).1)
  onward-Reaches k g (done a) s p = (g a).arrives s p
  onward-Reaches k g (raised e) s p = tt
  onward-Reaches k g cancelled s p = tt

  -- kept, and then reached
  pub Reaches-after {μ} :
      {P : S → Type μ} (m : Act S A) (k : A → Act S B)
      → Keeps P m
      → ((a : A) → Reaches P R (k a))
      → Reaches P R (m >>= k)
  unfolding ◌>>=◌
  Reaches-after m k h g = record {
    arrives = λ s p. onward-Reaches k g (m s).0 (m s).1 (h.after s p);
  }

module _ {ℓ κ μ ν} {S : Type ℓ} {A : Type κ} {P : S → Type μ} {R : S → Type ν} where
  pub Reaches-reading :
      (f : S → Act S A) → ((s : S) → P s → Reaches P R (f s)) → Reaches P R (reading f)
  unfolding reading
  Reaches-reading f h = record { arrives = λ s p. (h s p).arrives s p }

module _ {ℓ μ ν} {S : Type ℓ} {P : S → Type μ} {R : S → Type ν} where
  pub Reaches-when :
      (b : Bool) (m : Act S (Unit {0})) → b ≡ true → Reaches P R m → Reaches P R (when b m)
  unfolding when
  Reaches-when true m e h = h
  Reaches-when false m e h = cc e
