-- ===== src/Act.antt =====
-- Coroutines that read and write an object, and await calls that may fail.
-- A call ends in one of three ways: it returns; it raises an `Exception`; or the task is cancelled
-- while it waits, which is no `Exception`, so that `except Exception` lets it pass.
-- Writes made before stay made, so the object comes back on every outcome.
pub mod Keeps
pub mod Goes
pub mod Returns
pub mod Reaches
pub mod Yields
pub mod Fails
pub mod Gather
use seeds.Base.{Bool, true, false, Option, none, some}

pub data Exn : Type 0 where
  value_error key_error index_error type_error connection_error rate_limited network_error
        timeout_error permanent_error not_found_error validation_error transient_error runtime_error
        other_error :
      Exn

pub data Reply {ℓ} (A : Type ℓ) : Type ℓ where
  done : A → Reply A
  raised : Exn → Reply A
  cancelled : Reply A

abbrev pub Act {ℓ κ} : Type ℓ → Type κ → Type (ℓ ⊔ κ)
Act S A = S → Reply A × S

module _ {ℓ κ} {S : Type ℓ} {A : Type κ} where
  unfoldable pub pure : A → Act S A
  pure a s = (done a, s)

  unfoldable pub raise : Exn → Act S A
  raise e s = (raised e, s)

  -- a value that depends on the object as it is now
  unfoldable pub gets : (S → A) → Act S A
  gets f s = (done (f s), s)

  -- a step chosen by the object as it is now
  unfoldable pub reading : (S → Act S A) → Act S A
  reading f s = f s s

  abbrev pub handled : (Exn → Act S A) → Reply A → Act S A
  handled h (done a) s = (done a, s)
  handled h (raised e) s = h e s
  handled h cancelled s = (cancelled, s)

  -- `try: m` / `except Exception as e: h(e)`
  unfoldable pub catch : Act S A → (Exn → Act S A) → Act S A
  catch m h s = let (r, s') = m s in handled h r s'

unfoldable pub write {ℓ} : {S : Type ℓ} → (S → S) → Act S (Unit {0})
write f s = (done tt, f s)

-- `try: m` / `finally: f()`, where `f` writes and awaits nothing
unfoldable pub ending {ℓ κ} : {S : Type ℓ} {A : Type κ} → Act S A → (S → S) → Act S A
ending m f s = let (r, s') = m s in (r, f s')

module _ {ℓ κ μ} {S : Type ℓ} {A : Type κ} {B : Type μ} where
  abbrev onward : (A → Act S B) → Reply A → Act S B
  onward k (done a) s = k a s
  onward k (raised e) s = (raised e, s)
  onward k cancelled s = (cancelled, s)

  infixl 10 ◌>>=◌ ◌>>◌
  -- opening this opens the actions above as well
  unfoldable pub ◌>>=◌ : Act S A → (A → Act S B) → Act S B
  unfolding pure raise gets reading catch write ending
  ◌>>=◌ m k s = let (r, s') = m s in onward k r s'

  abbrev pub ◌>>◌ : Act S A → Act S B → Act S B
  m >> k = m >>= λ _. k

-- `if test: m`
unfoldable pub when {ℓ} : {S : Type ℓ} → Bool → Act S (Unit {0}) → Act S (Unit {0})
when true m = m
when false m = pure tt

-- what follows a look-up that may have found nothing
unfoldable pub maybe {ℓ κ μ} :
    {S : Type ℓ} {A : Type κ} {B : Type μ} → Option A → Act S B → (A → Act S B) → Act S B
maybe none m k = m
maybe (some a) m k = k a
