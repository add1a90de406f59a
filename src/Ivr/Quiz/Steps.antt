-- ===== src/Ivr/Quiz/Steps.antt =====
-- The steps of a builder: what they add, and what they leave as it was.
use seeds.Base.{
  String, ◌≡◌, ◌≢◌, refl, true, Option, none, some, List, [], ◌∷◌, ◌++◌, All, OnSome, OnSome-some,
  OnSome-if, OnSome-match, OnSome-map, OnSome-chain, arith, ◌∙◌, ap, is_some, sym,
}
use seeds.Dict.{get, contains, insert, get-insert, get-insert_ne}
use seeds.Ivr.Machine.{
  empty_state, Action, Operation, Output, Menu, State, Transition, Fsm, add_state, add_transition,
  add_from, add_to_state,
}
use seeds.Ivr.Machine.WellFormed.{contains-insert}
use seeds.Ivr.Quiz.{Step, put, link, refuse, run_step, run_steps}

-- the names of the states that are added
abbrev pub puts : List Step → List String
puts [] = []
puts (put id actions post output menu ∷ rest) = id ∷ puts rest
puts (link key source dest ∷ rest) = puts rest
puts (refuse ∷ rest) = puts rest

-- the states that transitions are added to
abbrev pub LinksFrom : (String → Type 0) → List Step → Type 0
LinksFrom P [] = Unit
LinksFrom P (link key source dest ∷ rest) = P source × LinksFrom P rest
LinksFrom P (put id actions post output menu ∷ rest) = LinksFrom P rest
LinksFrom P (refuse ∷ rest) = LinksFrom P rest

pub LinksFrom-append :
    (P : String → Type 0) (a b : List Step) → LinksFrom P a → LinksFrom P b → LinksFrom P (a ++ b)
LinksFrom-append P [] b h g = g
LinksFrom-append P (put id actions post output menu ∷ a) b h g = LinksFrom-append P a b h g
LinksFrom-append P (link key source dest ∷ a) b h g = (h.0, LinksFrom-append P a b h.1 g)
LinksFrom-append P (refuse ∷ a) b h g = LinksFrom-append P a b h g

OnSome-every {ℓ κ} : {A : Type ℓ} (P : A → Type κ) (o : Option A) → ((a : A) → P a) → OnSome P o
OnSome-every P none h = tt
OnSome-every P (some a) h = h a

OnSome-imply {ℓ κ μ} :
    {A : Type ℓ} (P : A → Type κ) (Q : A → Type μ) (o : Option A)
    → ((a : A) → P a → Q a)
    → OnSome P o
    → OnSome Q o
OnSome-imply P Q none i h = tt
OnSome-imply P Q (some a) i h = i a h

add_state-new :
    (s : State) (m m' : Fsm) (k : String)
    → add_state s m ≡ some m'
    → contains k m.states ≡ true
    → s.id ≢ k
unfolding add_state
add_state-new s m m' k e h p = ground (arith, e, h, p)

module _ (k : String) (st : State) where
  -- the state as it was
  abbrev pub Stays : Fsm → Type 0
  Stays m = get k m.states ≡ some st

  add_state-Stays : (s : State) (m : Fsm) → Stays m → OnSome Stays (add_state s m)
  unfolding add_state
  add_state-Stays s m h =
      OnSome-if Stays (contains s.id m.states) _ _ (λ b. tt)
        (λ b. ground (arith, get-insert s.id k s m.states, b, h))

  add_transition-Stays :
      (t : Transition) (m : Fsm)
      → t.source_state_id ≢ k
      → Stays m
      → OnSome Stays (add_transition t m)
  unfolding add_transition add_from
  add_transition-Stays t m n h =
      OnSome-if Stays (contains t.dest_state_id m.states) _ _
        (λ b. OnSome-match Stays (get t.source_state_id m.states) (add_from t m) (λ s e.
          OnSome-map Stays (λ s'. record m { states = insert t.source_state_id s' m.states })
            (add_to_state t s)
            (OnSome-every _ (add_to_state t s)
              (λ s'. get-insert_ne t.source_state_id k s' m.states n ∙ h))))
        (λ b. tt)

  run_steps-Stays :
      (steps : List Step) (m : Fsm)
      → LinksFrom (λ s. s ≢ k) steps
      → Stays m
      → OnSome Stays (run_steps steps m)
  unfolding run_steps run_step
  run_steps-Stays [] m l h = h
  run_steps-Stays (put id actions post output menu ∷ steps) m l h =
      OnSome-chain Stays _ (run_steps steps)
        (λ m' e. run_steps-Stays steps m' l (OnSome-some Stays _ m' e (add_state-Stays _ m h)))
  run_steps-Stays (link key source dest ∷ steps) m l h =
      OnSome-chain Stays _ (run_steps steps) (λ m' e.
        run_steps-Stays steps m' l.1 (OnSome-some Stays _ m' e (add_transition-Stays _ m l.0 h)))
  run_steps-Stays (refuse ∷ steps) m l h = tt

module _ (k : String) where
  -- a state of this name
  abbrev Has : Fsm → Type 0
  Has m = contains k m.states ≡ true

  run_step-Has : (s : Step) (m : Fsm) → Has m → OnSome Has (run_step s m)
  unfolding run_step add_state add_transition add_from
  run_step-Has (put id actions post output menu) m h =
      OnSome-if Has (contains id m.states) _ _ (λ b. tt) (λ b. contains-insert id k _ m.states h)
  run_step-Has (link key source dest) m h =
      OnSome-if Has (contains dest m.states) _ _
        (λ b. OnSome-match Has (get source m.states) _ (λ s e.
          OnSome-map Has (λ s'. record m { states = insert source s' m.states }) (add_to_state _ s)
            (OnSome-every _ (add_to_state _ s) (λ s'. contains-insert source k s' m.states h))))
        (λ b. tt)
  run_step-Has refuse m h = tt

  put-new :
      (id : String) (actions : List Action) (post : Operation) (output : Output)
      (menu : Option Menu) (m m' : Fsm)
      → run_step (put id actions post output menu) m ≡ some m'
      → Has m
      → id ≢ k
  unfolding run_step
  put-new id actions post output menu m m' e h = add_state-new _ m m' k e h

  refused : (m m' : Fsm) → run_step refuse m ≢ some m'
  unfolding run_step
  refused m m' e = cc e

  -- whatever is added has another name
  run_steps-new :
      (steps : List Step) (m : Fsm)
      → Has m
      → OnSome (λ m'. All (λ id. id ≢ k) (puts steps)) (run_steps steps m)
  unfolding run_steps
  run_steps-new [] m h = tt
  run_steps-new (put id actions post output menu ∷ steps) m h =
      OnSome-chain _ (run_step (put id actions post output menu) m) (run_steps steps) (λ m' e.
        OnSome-imply _ _ (run_steps steps m')
          (λ a others. (put-new id actions post output menu m m' e h, others))
          (run_steps-new steps m'
            (OnSome-some Has _ m' e (run_step-Has (put id actions post output menu) m h))))
  run_steps-new (link key source dest ∷ steps) m h =
      OnSome-chain _ (run_step (link key source dest) m) (run_steps steps) (λ m' e.
        run_steps-new steps m' (OnSome-some Has _ m' e (run_step-Has (link key source dest) m h)))
  run_steps-new (refuse ∷ steps) m h =
      OnSome-chain _ (run_step refuse m) (run_steps steps) (λ m' e. absurd (refused m m' e))

pub puts-append : (a b : List Step) → puts (a ++ b) ≡ puts a ++ puts b
puts-append [] b = refl
puts-append (put id actions post output menu ∷ a) b = ap (λ l. id ∷ l) (puts-append a b)
puts-append (link key source dest ∷ a) b = puts-append a b
puts-append (refuse ∷ a) b = puts-append a b

OnSome-known {ℓ κ} :
    {A : Type ℓ} (P : A → Type κ) (o : Option A) → ((a : A) → o ≡ some a → P a) → OnSome P o
OnSome-known P none h = tt
OnSome-known P (some a) h = h a refl

-- a state as it is put into a machine
abbrev pub fresh : String → List Action → Operation → Output → Option Menu → State
fresh id actions post output menu = record {
  id = id;
  actions = actions;
  transition_map = [];
  post_operation = post;
  pre_operation = empty_state;
  process_output = output;
  menu = menu;
}

module _ (id : String) (actions : List Action) (post : Operation) (output : Output)
    (menu : Option Menu) where
  put-Stays :
      (m m1 : Fsm)
      → run_step (put id actions post output menu) m ≡ some m1
      → Stays id (fresh id actions post output menu) m1
  unfolding run_step add_state
  put-Stays m m1 e =
      ground (arith, get-insert id id (fresh id actions post output menu) m.states, e)

  link-Stays :
      (parent key : String) (m1 m2 : Fsm)
      → parent ≢ id
      → run_step (link key parent id) m1 ≡ some m2
      → Stays id (fresh id actions post output menu) m1
      → Stays id (fresh id actions post output menu) m2
  unfolding run_step
  link-Stays parent key m1 m2 ne e h =
      OnSome-some (Stays id (fresh id actions post output menu)) _ m2 e
        (add_transition-Stays id (fresh id actions post output menu) _ m1 ne h)

  -- a state that nothing else leads on from
  pub put-link-Stays :
      (parent key : String) (rest : List Step) (m : Fsm)
      → contains parent m.states ≡ true
      → (All (λ s. s ≢ id) (puts rest) → parent ≢ id → LinksFrom (λ s. s ≢ id) rest)
      → OnSome
          (Stays id (fresh id actions post output menu))
          (run_steps (put id actions post output menu ∷ link key parent id ∷ rest) m)
  unfolding run_steps
  put-link-Stays parent key rest m known links =
      OnSome-chain _ (run_step (put id actions post output menu) m) _ (λ m1 e1.
        OnSome-chain _ (run_step (link key parent id) m1) (run_steps rest) (λ m2 e2.
          OnSome-known _ (run_steps rest m2) (λ m' e.
            let has : contains id m1.states ≡ true = ap is_some (put-Stays m m1 e1) in
            let ne : parent ≢ id =
              (λ p. put-new parent id actions post output menu m m1 e1 known (sym p)) in
            let has2 : contains id m2.states ≡ true =
              OnSome-some (Has id) _ m2 e2 (run_step-Has id (link key parent id) m1 has) in
            let stays : Stays id (fresh id actions post output menu) m2 =
              link-Stays parent key m1 m2 ne e2 (put-Stays m m1 e1) in
            OnSome-some _ _ m' e (
              run_steps-Stays id (fresh id actions post output menu) rest m2
                (links (OnSome-some _ _ m' e (run_steps-new id rest m2 has2)) ne) stays))))
