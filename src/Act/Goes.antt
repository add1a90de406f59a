-- ===== src/Act/Goes.antt =====
-- What holds before a coroutine and what holds after it, however it ends.
use seeds.Base.{◌≡◌, Bool, true, false, Option, none, some, if◌then◌else◌}
use seeds.Act.{
  Exn, handled, catch, Reply, done, raised, cancelled, Act, pure, reading, when, maybe, ◌>>=◌,
  onward,
}
use seeds.Act.Keeps.{Keeps}

pub record Goes {ℓ κ μ ν} {S : Type ℓ} {A : Type κ} (P : S → Type μ) (R : S → Type ν) (m : Act S A)
    : Type (ℓ ⊔ μ ⊔ ν) where
  pub leads : (s : S) → P s → R (m s).1

module _ {ℓ κ λ' ν} {S : Type ℓ} {A : Type κ} {B : Type λ'} {R : S → Type ν} where
  onward-Keeps :
      (k : A → Act S B)
      → ((a : A) → Keeps R (k a))
      → (r : Reply A) (s : S) → R s
      → R (onward k r s).1
  onward-Keeps k g (done a) s p = (g a).after s p
  onward-Keeps k g (raised e) s p = p
  onward-Keeps k g cancelled s p = p

module _ {ℓ κ λ' μ ν} {S : Type ℓ} {A : Type κ} {B : Type λ'} {P : S → Type μ}
    {R : S → Type ν} where
  onward-Goes :
      (k : A → Act S B)
      → ((s : S) → P s → R s)
      → ((a : A) → Goes P R (k a))
      → (r : Reply A) (s : S) → P s
      → R (onward k r s).1
  onward-Goes k i g (done a) s p = (g a).leads s p
  onward-Goes k i g (raised e) s p = i s p
  onward-Goes k i g cancelled s p = i s p

  pub Goes-after :
      (m : Act S A) (k : A → Act S B)
      → ((s : S) → P s → R s)
      → Keeps P m
      → ((a : A) → Goes P R (k a))
      → Goes P R (m >>= k)
  unfolding ◌>>=◌
  Goes-after m k i h g = record { leads = λ s p. onward-Goes k i g (m s).0 (m s).1 (h.after s p) }

  pub Goes-before :
      (m : Act S A) (k : A → Act S B) → Goes P R m → ((a : A) → Keeps R (k a)) → Goes P R (m >>= k)
  unfolding ◌>>=◌
  Goes-before m k h g = record { leads = λ s p. onward-Keeps k g (m s).0 (m s).1 (h.leads s p) }

module _ {ℓ κ μ ν} {S : Type ℓ} {A : Type κ} {P : S → Type μ} {R : S → Type ν} where
  pub Goes-weaken : (m : Act S A) → ((s : S) → P s → R s) → Keeps P m → Goes P R m
  Goes-weaken m i h = record { leads = λ s p. i (m s).1 (h.after s p) }

  pub Goes-reading : (f : S → Act S A) → ((s : S) → Goes P R (f s)) → Goes P R (reading f)
  unfolding reading
  Goes-reading f g = record { leads = λ s p. (g s).leads s p }

  pub Goes-maybe {κ'} :
      {B : Type κ'} (o : Option B) (m : Act S A) (k : B → Act S A)
      → Goes P R m
      → ((b : B) → Goes P R (k b))
      → Goes P R (maybe o m k)
  unfolding maybe
  Goes-maybe none m k h g = h
  Goes-maybe (some b) m k h g = g b

  pub Goes-if : (b : Bool) (m n : Act S A) → Goes P R m → Goes P R n → Goes P R (if b then m else n)
  Goes-if true m n h g = h
  Goes-if false m n h g = g

module _ {ℓ μ ν} {S : Type ℓ} {P : S → Type μ} {R : S → Type ν} where
  pub Goes-when :
      (b : Bool) (m : Act S (Unit {0})) → ((s : S) → P s → R s) → Goes P R m → Goes P R (when b m)
  unfolding when pure
  Goes-when true m i g = g
  Goes-when false m i g = record { leads = i }

module _ {ℓ κ μ} {S : Type ℓ} {A : Type κ} (R : S → Type μ) where
  handled-raised :
      (h : Exn → Act S A) (r : Reply A) (s : S) (e : Exn)
      → ((e' : Exn) → R (h e' s).1)
      → (handled h r s).0 ≡ raised e
      → R (handled h r s).1
  handled-raised h (done a) s e k q = cc q
  handled-raised h (raised e') s e k q = k e'
  handled-raised h cancelled s e k q = cc q

  -- what a handler leaves, where the whole raises
  pub catch-raised :
      (m : Act S A) (h : Exn → Act S A) (s : S) (e : Exn)
      → ((e' : Exn) → R (h e' (m s).1).1)
      → (catch m h s).0 ≡ raised e
      → R (catch m h s).1
  unfolding catch
  catch-raised m h s e k q = handled-raised h (m s).0 (m s).1 e k q

module _ {ℓ κ ν} {S : Type ℓ} {A : Type κ} {R : S → Type ν} where
  handled-Keeps :
      (h : Exn → Act S A)
      → ((e : Exn) → Keeps R (h e))
      → (r : Reply A) (s : S) → R s
      → R (handled h r s).1
  handled-Keeps h g (done a) s p = p
  handled-Keeps h g (raised e) s p = (g e).after s p
  handled-Keeps h g cancelled s p = p

  pub Goes-caught {μ} :
      {P : S → Type μ} (m : Act S A) (h : Exn → Act S A)
      → Goes P R m
      → ((e : Exn) → Keeps R (h e))
      → Goes P R (catch m h)
  unfolding catch
  Goes-caught m h f g = record { leads = λ s p. handled-Keeps h g (m s).0 (m s).1 (f.leads s p) }

  -- one step after another
  onward-Leads {κ' μ} :
      {B : Type κ'} {M : S → Type μ} (k : B → Act S A)
      → ((s : S) → M s → R s)
      → ((b : B) → Goes M R (k b))
      → (r : Reply B) (s : S) → M s
      → R (onward k r s).1
  onward-Leads k i g (done b) s p = (g b).leads s p
  onward-Leads k i g (raised e) s p = i s p
  onward-Leads k i g cancelled s p = i s p

  pub Goes-then {κ' μ ξ} :
      {B : Type κ'} {P : S → Type ξ} {M : S → Type μ} (m : Act S B) (k : B → Act S A)
      → ((s : S) → M s → R s)
      → Goes P M m
      → ((b : B) → Goes M R (k b))
      → Goes P R (m >>= k)
  unfolding ◌>>=◌
  Goes-then m k i h g = record { leads = λ s p. onward-Leads k i g (m s).0 (m s).1 (h.leads s p) }
