-- ===== src/Ivr/Stored/WellFormed.antt =====
-- A machine that is read from the store leads nowhere unknown.
use seeds.Base.{
  String, ◌≡◌, refl, Option, none, some, List, [], ◌∷◌, OnSome, OnSome-some, OnSome-chain,
}
use seeds.Ivr.Machine.{
  Action, Menu, State, Fsm, new_fsm, add_state, set_init_state_id, add_transition,
}
use seeds.Ivr.Machine.WellFormed.{
  IsWellFormed, new_fsm-IsWellFormed, add_state-IsWellFormed, set_init_state_id-IsWellFormed,
  add_transition-IsWellFormed,
}
use seeds.Ivr.Stored.{
  StateJson, TransitionJson, ObjectJson, IvrFsmDoc, plain_state, with_operations, actions_from_json,
  state_from_json, transition_from_json, operation_from_json, output_from_json, add_states,
  add_transitions, deserialize,
}

-- no transition yet
abbrev IsBare : State → Type 0
IsBare s = s.transition_map ≡ []

with_operations-IsBare :
    (o : Option (ObjectJson × ObjectJson × ObjectJson)) (s : State)
    → IsBare s
    → OnSome IsBare (with_operations o s)
unfolding with_operations
with_operations-IsBare none s h = h
with_operations-IsBare (some (post, pre, output)) s h =
    OnSome-chain IsBare (operation_from_json post) _ (λ o e.
      OnSome-chain IsBare (operation_from_json pre) _
        (λ p f. OnSome-chain IsBare (output_from_json output) _ (λ q g. h)))

state_from_json-IsBare : (j : StateJson) (s : State) → state_from_json j ≡ some s → IsBare s
unfolding state_from_json
state_from_json-IsBare j s h =
    OnSome-some IsBare (state_from_json j) s h (
      OnSome-chain IsBare (actions_from_json j.actions) _
        (λ actions e. without_menu actions j.menu))
  where
    without_menu :
        (actions : List Action) (menu : Option Menu)
        → OnSome IsBare (elim menu [
          | some m ↦ none
          | none ↦ with_operations j.operations (plain_state j.id actions)
        ])
    without_menu actions none = with_operations-IsBare j.operations (plain_state j.id actions) refl
    without_menu actions (some m) = tt

add_states-IsWellFormed :
    (states : List StateJson) (m : Fsm) → IsWellFormed m → OnSome IsWellFormed (add_states states m)
unfolding add_states
add_states-IsWellFormed [] m w = w
add_states-IsWellFormed (j ∷ states) m w = OnSome-chain IsWellFormed (state_from_json j) _ (λ s e.
    OnSome-chain IsWellFormed (add_state s m) (add_states states) (λ m' f.
      add_states-IsWellFormed states m'
        (add_state-IsWellFormed s m m' (state_from_json-IsBare j s e) f w)))

add_transitions-IsWellFormed :
    (ts : List TransitionJson) (m : Fsm)
    → IsWellFormed m
    → OnSome IsWellFormed (add_transitions ts m)
unfolding add_transitions
add_transitions-IsWellFormed [] m w = w
add_transitions-IsWellFormed (j ∷ ts) m w =
    OnSome-chain IsWellFormed (transition_from_json j) _ (λ t e.
      OnSome-chain IsWellFormed (add_transition t m) (add_transitions ts)
        (λ m' f. add_transitions-IsWellFormed ts m' (add_transition-IsWellFormed t m m' f w)))

-- A machine that is read from the store, whatever was stored, is well formed: its states stand under
-- their names, its transitions under their keys, and every transition leads to a state of it.
pub deserialize-IsWellFormed :
    (name : String) (doc : IvrFsmDoc) (m : Fsm) → deserialize name doc ≡ some m → IsWellFormed m
unfolding deserialize
deserialize-IsWellFormed name doc m h = OnSome-some IsWellFormed (deserialize name doc) m h (
    OnSome-chain IsWellFormed (add_states doc.states (new_fsm name doc.id)) _ (λ m1 e1.
      OnSome-chain IsWellFormed (set_init_state_id doc.init_state_id m1)
        (add_transitions doc.transitions)
        (λ m2 e2. add_transitions-IsWellFormed doc.transitions m2 (
          set_init_state_id-IsWellFormed doc.init_state_id m1 m2 e2 (
            OnSome-some IsWellFormed _ m1 e1 (
              add_states-IsWellFormed doc.states (new_fsm name doc.id)
                (new_fsm-IsWellFormed name doc.id)))))))
