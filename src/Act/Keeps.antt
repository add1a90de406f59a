-- ===== src/Act/Keeps.antt =====
-- What holds of the object before a coroutine holds after it, however it ends.
use seeds.Base.{◌≡◌, refl, Bool, true, false, if◌then◌else◌, Option, none, some}
use seeds.Act.{
  Exn, Reply, done, raised, cancelled, Act, pure, raise, gets, reading, handled, catch, write,
  ending, onward, ◌>>=◌, when, maybe,
}

pub record Keeps {ℓ κ μ} {S : Type ℓ} {A : Type κ} (P : S → Type μ) (m : Act S A)
    : Type (ℓ ⊔ μ) where
  pub after : (s : S) → P s → P (m s).1

module _ {ℓ κ μ} {S : Type ℓ} {A : Type κ} {P : S → Type μ} where
  pub Keeps-pure : (a : A) → Keeps P (pure {S = S} a)
  unfolding pure
  Keeps-pure a = record { after = λ s h. h }

  pub Keeps-raise : (e : Exn) → Keeps P (raise {S = S} {A = A} e)
  unfolding raise
  Keeps-raise e = record { after = λ s h. h }

  pub Keeps-gets : (f : S → A) → Keeps P (gets f)
  unfolding gets
  Keeps-gets f = record { after = λ s h. h }

  pub Keeps-reading : (f : S → Act S A) → ((s : S) → Keeps P (f s)) → Keeps P (reading f)
  unfolding reading
  Keeps-reading f k = record { after = λ s h. (k s).after s h }

  -- as above, where the step depends on what holds
  pub Keeps-reading_with : (f : S → Act S A) → ((s : S) → P s → Keeps P (f s)) → Keeps P (reading f)
  unfolding reading
  Keeps-reading_with f k = record { after = λ s h. (k s h).after s h }

  pub Keeps-if_with :
      (b : Bool) (m n : Act S A)
      → (b ≡ true → Keeps P m)
      → (b ≡ false → Keeps P n)
      → Keeps P (if b then m else n)
  Keeps-if_with true m n km kn = km refl
  Keeps-if_with false m n km kn = kn refl

  pub Keeps-if : (b : Bool) (m n : Act S A) → Keeps P m → Keeps P n → Keeps P (if b then m else n)
  Keeps-if true m n km kn = km
  Keeps-if false m n km kn = kn

  Keeps-handled :
      (h : Exn → Act S A)
      → ((e : Exn) → Keeps P (h e))
      → (r : Reply A) (s : S) → P s
      → P (handled h r s).1
  Keeps-handled h kh (done a) s p = p
  Keeps-handled h kh (raised e) s p = (kh e).after s p
  Keeps-handled h kh cancelled s p = p

  pub Keeps-catch :
      (m : Act S A) (h : Exn → Act S A)
      → Keeps P m
      → ((e : Exn) → Keeps P (h e))
      → Keeps P (catch m h)
  unfolding catch
  Keeps-catch m h km kh = record {
    after = λ s p. Keeps-handled h kh (m s).0 (m s).1 (km.after s p);
  }

  pub Keeps-ending :
      (m : Act S A) (f : S → S) → Keeps P m → ((s : S) → P s → P (f s)) → Keeps P (ending m f)
  unfolding ending
  Keeps-ending m f km kf = record { after = λ s p. kf (m s).1 (km.after s p) }

module _ {ℓ μ} {S : Type ℓ} {P : S → Type μ} where
  pub Keeps-write : (f : S → S) → ((s : S) → P s → P (f s)) → Keeps P (write f)
  unfolding write
  Keeps-write f k = record { after = k }

  pub Keeps-when : (b : Bool) (m : Act S (Unit {0})) → Keeps P m → Keeps P (when b m)
  unfolding when pure
  Keeps-when true m km = km
  Keeps-when false m km = record { after = λ s p. p }

module _ {ℓ κ ν μ} {S : Type ℓ} {A : Type κ} {B : Type ν} {P : S → Type μ} where
  Keeps-onward :
      (k : A → Act S B)
      → ((a : A) → Keeps P (k a))
      → (r : Reply A) (s : S) → P s
      → P (onward k r s).1
  Keeps-onward k kk (done a) s p = (kk a).after s p
  Keeps-onward k kk (raised e) s p = p
  Keeps-onward k kk cancelled s p = p

  pub Keeps-bind :
      (m : Act S A) (k : A → Act S B) → Keeps P m → ((a : A) → Keeps P (k a)) → Keeps P (m >>= k)
  unfolding ◌>>=◌
  Keeps-bind m k km kk = record { after = λ s p. Keeps-onward k kk (m s).0 (m s).1 (km.after s p) }

  pub Keeps-maybe :
      (o : Option A) (m : Act S B) (k : A → Act S B)
      → Keeps P m
      → ((a : A) → Keeps P (k a))
      → Keeps P (maybe o m k)
  unfolding maybe
  Keeps-maybe none m k km kk = km
  Keeps-maybe (some a) m k km kk = kk a

-- as above, where what follows knows what was found
module _ {ℓ κ ν μ} {S : Type ℓ} {A : Type κ} {B : Type ν} {P : S → Type μ} where
  pub Keeps-maybe_given :
      (o : Option A) (m : Act S B) (k : A → Act S B)
      → Keeps P m
      → ((a : A) → o ≡ some a → Keeps P (k a))
      → Keeps P (maybe o m k)
  unfolding maybe
  Keeps-maybe_given none m k km kk = km
  Keeps-maybe_given (some a) m k km kk = kk a refl

pub ruleset keeps_rules = (
  Keeps-pure, Keeps-raise, Keeps-gets, Keeps-reading, Keeps-if, Keeps-catch, Keeps-ending,
  Keeps-write, Keeps-maybe, Keeps-when, Keeps-bind,
)
