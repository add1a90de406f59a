-- ===== src/Ivr/Machine/WellFormed.antt =====
-- Machines built by `add_state`, `set_init_state_id` and `add_transition` lead nowhere unknown.
use seeds.Base.{
  String, ◌≡◌, refl, true, some, List, [], ◌∷◌, All, arith, OnSome, OnSome-some, OnSome-if,
  OnSome-match, OnSome-map, subst, sym,
}
use seeds.Dict.{Dict, get, contains, insert, get-insert, All-insert, All-get}
use seeds.Ivr.Machine.{
  Transition, State, Fsm, new_fsm, add_state, set_init_state_id, add_to_state, add_from,
  add_transition,
}

-- A transition stands under its key, and leads to a known state.
abbrev pub IsLink : Dict State → String × Transition → Type 0
IsLink states (i, t) = (t.input ≡ i) × (contains t.dest_state_id states ≡ true)

-- A state stands under its name, and its transitions are links.
abbrev pub IsNode : Dict State → String × State → Type 0
IsNode states (k, s) = (s.id ≡ k) × All (IsLink states) s.transition_map

pub record IsWellFormed (m : Fsm) : Type 0 where
  pub nodes : All (IsNode m.states) m.states

pub contains-insert {ℓ} :
    {V : Type ℓ} (k j : String) (v : V) (d : Dict V)
    → contains j d ≡ true
    → contains j (insert k v d) ≡ true
contains-insert k j v d h = ground (arith, get-insert k j v d, h)

All-imply {ℓ κ μ} :
    {A : Type ℓ} (P : A → Type κ) (Q : A → Type μ) (xs : List A)
    → ((a : A) → P a → Q a)
    → All P xs
    → All Q xs
All-imply P Q [] f h = tt
All-imply P Q (a ∷ xs) f h = (f a h.0, All-imply P Q xs f h.1)

-- more states, the same links
pub links-insert :
    (k : String) (s : State) (d : Dict State) (ts : Dict Transition)
    → All (IsLink d) ts
    → All (IsLink (insert k s d)) ts
links-insert k s d ts h =
    All-imply (IsLink d) (IsLink (insert k s d)) ts
      (λ e l. (l.0, contains-insert k e.1.dest_state_id s d l.1)) h

pub nodes-insert :
    (k : String) (s : State) (d : Dict State)
    → IsNode (insert k s d) (k, s)
    → All (IsNode d) d
    → All (IsNode (insert k s d)) (insert k s d)
nodes-insert k s d n h = All-insert (IsNode (insert k s d)) k s d n (
    All-imply (IsNode d) (IsNode (insert k s d)) d
      (λ e i. (i.0, links-insert k s d e.1.transition_map i.1)) h)

pub new_fsm-IsWellFormed : (name k : String) → IsWellFormed (new_fsm name k)
unfolding new_fsm
new_fsm-IsWellFormed name k = record { nodes = tt }

-- Adding a state that has no transition yet to a well-formed machine, where that succeeds, gives a
-- well-formed machine.
pub add_state-IsWellFormed :
    (s : State) (m m' : Fsm)
    → s.transition_map ≡ []
    → add_state s m ≡ some m'
    → IsWellFormed m
    → IsWellFormed m'
unfolding add_state
add_state-IsWellFormed s m m' e h w = OnSome-some IsWellFormed (add_state s m) m' h (
    OnSome-if IsWellFormed (contains s.id m.states) _ _ (λ b. tt)
      (λ b. record {
        nodes =
            nodes-insert s.id s m.states
              (refl, subst (All (IsLink (insert s.id s m.states))) (sym e) tt) w.nodes;
      }))

pub set_init_state_id-IsWellFormed :
    (k : String) (m m' : Fsm) → set_init_state_id k m ≡ some m' → IsWellFormed m → IsWellFormed m'
unfolding set_init_state_id
set_init_state_id-IsWellFormed k m m' h w =
    OnSome-some IsWellFormed (set_init_state_id k m) m' h
      (OnSome-if IsWellFormed (contains k m.states) _ _ (λ b. record { nodes = w.nodes }) (λ b. tt))

-- the source state takes the transition
add_from-IsWellFormed :
    (t : Transition) (m : Fsm) (s : State)
    → contains t.dest_state_id m.states ≡ true
    → get t.source_state_id m.states ≡ some s
    → IsWellFormed m
    → OnSome IsWellFormed (add_from t m s)
unfolding add_from add_to_state
add_from-IsWellFormed t m s known found w =
    let n : IsNode m.states (t.source_state_id, s) =
      All-get (IsNode m.states) t.source_state_id s m.states w.nodes found in
    let s' : State = record s { transition_map = insert t.input t s.transition_map } in
    OnSome-map IsWellFormed (λ s'. record m { states = insert t.source_state_id s' m.states })
      (add_to_state t s)
      (OnSome-if _ (contains t.input s.transition_map) _ _ (λ b. tt)
        (λ b. record {
          nodes =
              nodes-insert t.source_state_id s' m.states
                (
                  n.0,
                  All-insert (IsLink (insert t.source_state_id s' m.states)) t.input t
                      s.transition_map
                      (refl, contains-insert t.source_state_id t.dest_state_id s' m.states known)
                      (links-insert t.source_state_id s' m.states s.transition_map n.1),
                )
                w.nodes;
        }))

-- Adding a transition to a well-formed machine, where that succeeds, gives a well-formed machine.
pub add_transition-IsWellFormed :
    (t : Transition) (m m' : Fsm) → add_transition t m ≡ some m' → IsWellFormed m → IsWellFormed m'
unfolding add_transition
add_transition-IsWellFormed t m m' h w = OnSome-some IsWellFormed (add_transition t m) m' h (
    OnSome-if IsWellFormed (contains t.dest_state_id m.states) _ _
      (λ known.
        OnSome-match IsWellFormed (get t.source_state_id m.states) (add_from t m)
          (λ s found. add_from-IsWellFormed t m s known found w))
      (λ b. tt))
