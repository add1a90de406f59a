-- ===== src/Base/Tests.antt =====
-- Boolean tests on numbers, the conditional, and case splits that keep their equation.
use Prim.Native.Nat.{ℕ, compare, Ordering}
use mathlib.Core.Path.{◌≡◌, refl, subst}
use mathlib.Core.Logic.{◌⊎◌, inl, inr}
use mathlib.Core.Bool.{Bool, true, false}
use mathlib.Core.Option.{Option, none, some}

abbrev pub ltb : ℕ → ℕ → Bool
ltb a b = elim (compare a b) [ Ordering.lt ↦ true | _ ↦ false ]

abbrev pub leb : ℕ → ℕ → Bool
leb a b = elim (compare a b) [ Ordering.gt ↦ false | _ ↦ true ]

infix 1 if◌then◌else◌
abbrev pub if◌then◌else◌ {ℓ} : {A : Type ℓ} → Bool → A → A → A
if true then x else y = x
if false then x else y = y

-- The answer of a decision, as a Boolean.
abbrev pub holds {ℓ} : {P : Type ℓ} → Dec P → Bool
holds (yes _) = true
holds (no _) = false

-- `x is not None`
abbrev pub is_some {ℓ} : {A : Type ℓ} → Option A → Bool
is_some none = false
is_some (some _) = true

-- what follows a step that may fail
abbrev pub chain {ℓ κ} : {A : Type ℓ} {B : Type κ} → Option A → (A → Option B) → Option B
chain none k = none
chain (some a) k = k a

pub Bool-cases : (b : Bool) → (b ≡ true) ⊎ (b ≡ false)
Bool-cases true = inl refl
Bool-cases false = inr refl

pub Option-cases {ℓ} : {A : Type ℓ} (o : Option A) → (o ≡ none) ⊎ ((a : A) × (o ≡ some a))
Option-cases none = inl refl
Option-cases (some a) = inr (a, refl)

-- What holds of the value, if there is one.
abbrev pub OnSome {ℓ κ} : {A : Type ℓ} → (A → Type κ) → Option A → Type κ
OnSome P none = Unit
OnSome P (some a) = P a

pub OnSome-some {ℓ κ} :
    {A : Type ℓ} (P : A → Type κ) (o : Option A) (a : A) → o ≡ some a → OnSome P o → P a
OnSome-some P o a e h = subst (OnSome P) e h

pub OnSome-if {ℓ κ} :
    {A : Type ℓ} (P : A → Type κ) (b : Bool) (o o' : Option A)
    → (b ≡ true → OnSome P o)
    → (b ≡ false → OnSome P o')
    → OnSome P (if b then o else o')
OnSome-if P true o o' h h' = h refl
OnSome-if P false o o' h h' = h' refl

pub OnSome-match {ℓ κ μ} :
    {A : Type ℓ} {B : Type κ} (P : B → Type μ) (o : Option A) (k : A → Option B)
    → ((a : A) → o ≡ some a → OnSome P (k a))
    → OnSome P (elim o [ none ↦ none | some a ↦ k a ])
OnSome-match P none k h = tt
OnSome-match P (some a) k h = h a refl

pub OnSome-map {ℓ κ μ} :
    {A : Type ℓ} {B : Type κ} (P : B → Type μ) (f : A → B) (o : Option A)
    → OnSome (λ a. P (f a)) o
    → OnSome P (elim o [ none ↦ none | some a ↦ some (f a) ])
OnSome-map P f none h = tt
OnSome-map P f (some a) h = h

abbrev pub eqb : ℕ → ℕ → Bool
eqb a b = elim (compare a b) [ Ordering.eq ↦ true | _ ↦ false ]

pub OnSome-chain {ℓ κ μ} :
    {A : Type ℓ} {B : Type κ} (P : B → Type μ) (o : Option A) (k : A → Option B)
    → ((a : A) → o ≡ some a → OnSome P (k a))
    → OnSome P (chain o k)
OnSome-chain P none k h = tt
OnSome-chain P (some a) k h = h a refl
