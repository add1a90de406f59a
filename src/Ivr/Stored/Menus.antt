-- ===== src/Ivr/Stored/Menus.antt =====
-- A stored machine with a menu cannot be read.
use seeds.Base.{
  String, ◌==◌, ◌≡◌, refl, Bool, true, false, Option, none, some, [], ◌∷◌, chain, ap, ◌∙◌,
  if◌then◌else◌,
}
use seeds.Dict.{Dict, get}
use seeds.Ivr.Machine.{State, Menu, Fsm, new_fsm, add_state}
use seeds.Ivr.Stored.{
  state_to_json, state_from_json, actions_to_json, actions_from_json, serialize_states, serialize,
  add_states, deserialize,
}

chain-none {ℓ κ} :
    {A : Type ℓ} {B : Type κ} (o : Option A) (k : A → Option B)
    → ((a : A) → k a ≡ none)
    → chain o k ≡ none
chain-none none k h = refl
chain-none (some a) k h = h a

state_from_json-menu :
    (s : State) (menu : Menu) → s.menu ≡ some menu → state_from_json (state_to_json s) ≡ none
unfolding state_from_json state_to_json
state_from_json-menu s menu h =
    chain-none (actions_from_json (actions_to_json s.actions)) _ (λ actions. rw h refl)

add_states-menu :
    (k : String) (s : State) (menu : Menu) (d : Dict State) (m : Fsm)
    → s.menu ≡ some menu
    → get k d ≡ some s
    → add_states (serialize_states d) m ≡ none
unfolding add_states serialize_states get
add_states-menu k s menu [] m h e = cc e
add_states-menu k s menu ((j, t) ∷ d) m h e =
    by_name (j == k) (λ m' f. add_states-menu k s menu d m' h f) e
  where
    by_name :
        (b : Bool)
        → ((m' : Fsm) → get k d ≡ some s → add_states (serialize_states d) m' ≡ none)
        → (if b then some t else get k d) ≡ some s
        → chain
            (state_from_json (state_to_json t))
            (λ a. chain (add_state a m) (λ m'. add_states (serialize_states d) m'))
          ≡ none
    by_name true later e =
        rw (state_from_json-menu t menu (ap (λ o. chain o (λ r. r.menu)) e ∙ h)) refl
    by_name false later e =
        chain-none (state_from_json (state_to_json t)) _
          (λ a. chain-none (add_state a m) _ (λ m'. later m' e))

-- A machine one of whose states has a menu cannot be read after it was stored: reading it raises.
pub deserialize-menu :
    (name k : String) (s : State) (menu : Menu) (m : Fsm)
    → get k m.states ≡ some s
    → s.menu ≡ some menu
    → deserialize name (serialize m) ≡ none
unfolding deserialize serialize
deserialize-menu name k s menu m e h =
    rw (add_states-menu k s menu m.states (new_fsm name m.fsm_id) h e) refl
