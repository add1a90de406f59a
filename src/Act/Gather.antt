-- ===== src/Act/Gather.antt =====
-- `asyncio.gather`: the coroutines are run one after the other, which is one of the orders that the
-- event loop may choose; each runs to its end, also after another has raised.
use seeds.Base.{List, [], ◌∷◌}
use seeds.Act.{Reply, done, raised, cancelled, Act, pure, raise, ◌>>=◌}
use seeds.Act.Keeps.{Keeps, Keeps-pure, Keeps-raise, Keeps-bind}

module _ {ℓ μ} {S : Type ℓ} {A : Type μ} where
  -- the reply is kept as a result, but a cancelled task takes the whole `gather` with it
  abbrev result_of : Reply A → Act S (Reply A)
  result_of (done a) s = (done (done a), s)
  result_of (raised e) s = (done (raised e), s)
  result_of cancelled s = (cancelled, s)

  unfoldable pub attempt : Act S A → Act S (Reply A)
  attempt m s = let (r, s') = m s in result_of r s'

module _ {ℓ κ μ} {S : Type ℓ} {X : Type κ} {A : Type μ} where
  -- `gather(*[f(x) for x in xs], return_exceptions=True)`
  unfoldable pub gather_results : (X → Act S A) → List X → Act S (List (Reply A))
  unfolding attempt
  gather_results f [] = pure []
  gather_results f (x ∷ xs) = attempt (f x) >>= λ r. gather_results f xs >>= λ rs. pure (r ∷ rs)

-- the first exception among the results is raised
unfoldable pub first_failure {ℓ μ} : {S : Type ℓ} {A : Type μ} → List (Reply A) → Act S (Unit {0})
first_failure [] = pure tt
first_failure (done a ∷ rs) = first_failure rs
first_failure (raised e ∷ rs) = raise e
first_failure (cancelled ∷ rs) = first_failure rs

-- `gather(*[f(x) for x in xs])`
unfoldable pub gather {ℓ κ μ} :
    {S : Type ℓ} {X : Type κ} {A : Type μ} → (X → Act S A) → List X → Act S (Unit {0})
gather f xs = gather_results f xs >>= first_failure

module _ {ℓ μ ν} {S : Type ℓ} {A : Type μ} (P : S → Type ν) where
  Keeps-result_of : (r : Reply A) (s : S) → P s → P (result_of r s).1
  Keeps-result_of (done a) s p = p
  Keeps-result_of (raised e) s p = p
  Keeps-result_of cancelled s p = p

module _ {ℓ μ ν} {S : Type ℓ} {A : Type μ} {P : S → Type ν} where
  Keeps-attempt : (m : Act S A) → Keeps P m → Keeps P (attempt m)
  unfolding attempt
  Keeps-attempt m km = record { after = λ s p. Keeps-result_of P (m s).0 (m s).1 (km.after s p) }

  pub Keeps-first_failure : (rs : List (Reply A)) → Keeps P (first_failure {S = S} rs)
  unfolding first_failure
  Keeps-first_failure [] = Keeps-pure tt
  Keeps-first_failure (done a ∷ rs) = Keeps-first_failure rs
  Keeps-first_failure (raised e ∷ rs) = Keeps-raise e
  Keeps-first_failure (cancelled ∷ rs) = Keeps-first_failure rs

module _ {ℓ κ μ ν} {S : Type ℓ} {X : Type κ} {A : Type μ} {P : S → Type ν} where
  pub Keeps-gather_results :
      (f : X → Act S A) (xs : List X) → ((x : X) → Keeps P (f x)) → Keeps P (gather_results f xs)
  unfolding gather_results
  Keeps-gather_results f [] k = Keeps-pure []
  Keeps-gather_results f (x ∷ xs) k =
      Keeps-bind _ _ (Keeps-attempt (f x) (k x))
        (λ r. Keeps-bind _ _ (Keeps-gather_results f xs k) (λ rs. Keeps-pure (r ∷ rs)))

  pub Keeps-gather :
      (f : X → Act S A) (xs : List X) → ((x : X) → Keeps P (f x)) → Keeps P (gather f xs)
  unfolding gather
  Keeps-gather f xs k = Keeps-bind _ _ (Keeps-gather_results f xs k) (λ rs. Keeps-first_failure rs)
