-- ===== src/Ivr/Stored/RoundTrip.antt =====
-- A machine that is stored and read again is the same machine.
use seeds.Base.{
  String, ◌≡◌, refl, true, false, ◌||◌, Option, none, some, List, [], ◌∷◌, ◌++◌, All, append_assoc,
  append-nil, arith, ap, ap₂, sym, subst, ◌∙◌, chain,
}
use seeds.Dict.{Dict, get, contains, insert}
use seeds.Dict.Middle.{
  Distinct, Fresh, insert-new, get-middle, insert-middle, contains-append, contains-cons,
  Fresh-snoc, Fresh-nil,
}
use seeds.Ivr.Machine.{
  Action, stream, talk, input, connect, Transition, State, Fsm, Operation, empty_state, quiz_init,
  quiz_pre, quiz_post, daily_limit, Output, empty_output, quiz_final, new_fsm, add_state,
  set_init_state_id, add_to_state, add_from, add_transition,
}
use seeds.Ivr.Stored.{
  TransitionJson, action_to_json, action_from_json, operation_to_json, operation_from_json,
  output_to_json, output_from_json, actions_to_json, actions_from_json, transition_to_json,
  transition_from_json, state_to_json, state_from_json, with_operations, transitions_to_json,
  serialize_states, serialize_transitions, serialize, add_states, add_transitions, deserialize,
}

action-round_trip : (a : Action) → action_from_json (action_to_json a) ≡ some a
unfolding action_from_json action_to_json get seeds.Base.String-discrete
action-round_trip (stream url r args) = refl
action-round_trip (talk t args) = refl
action-round_trip (input t e args) = refl
action-round_trip (connect u c h) = refl

operation-round_trip : (o : Operation) → operation_from_json (operation_to_json o) ≡ some o
unfolding operation_from_json operation_to_json get seeds.Base.String-discrete
operation-round_trip empty_state = refl
operation-round_trip quiz_init = refl
operation-round_trip quiz_pre = refl
operation-round_trip (quiz_post score) = refl
operation-round_trip (daily_limit d l s) = refl

output-round_trip : (o : Output) → output_from_json (output_to_json o) ≡ some o
unfolding output_from_json output_to_json seeds.Base.String-discrete
output-round_trip empty_output = refl
output-round_trip quiz_final = refl

actions-round_trip :
    (actions : List Action) → actions_from_json (actions_to_json actions) ≡ some actions
unfolding actions_from_json actions_to_json
actions-round_trip [] = refl
actions-round_trip (a ∷ rest) = rw (action-round_trip a, actions-round_trip rest) refl

transition-round_trip : (t : Transition) → transition_from_json (transition_to_json t) ≡ some t
unfolding transition_from_json transition_to_json
transition-round_trip t = rw (actions-round_trip t.actions) refl

-- a state as it is read, before its transitions are
abbrev bare : State → State
bare s = record s { transition_map = [] }

state-round_trip : (s : State) → s.menu ≡ none → state_from_json (state_to_json s) ≡ some (bare s)
unfolding state_from_json state_to_json with_operations
state-round_trip s h =
    rw
      (
        actions-round_trip s.actions,
        h,
        operation-round_trip s.post_operation,
        operation-round_trip s.pre_operation,
        output-round_trip s.process_output,
      )
      refl

abbrev bares : Dict State → Dict State
bares [] = []
bares ((k, s) ∷ d) = (k, bare s) ∷ bares d

contains-bares : (j : String) (d : Dict State) → contains j (bares d) ≡ contains j d
unfolding get
contains-bares j [] = refl
contains-bares j ((k, s) ∷ d) = ground (arith, contains-bares j d)

-- The link of a state `k`, in a machine with these states.
abbrev pub IsOwn : String → Dict State → String × Transition → Type 0
IsOwn k states (i, t) =
    (t.input ≡ i) × (t.source_state_id ≡ k) × (contains t.dest_state_id states ≡ true)

-- A state stands under its name, has no menu, and its transitions are links of its own.
abbrev pub IsPlain : Dict State → String × State → Type 0
IsPlain states (k, s) =
    (s.id ≡ k) × (s.menu ≡ none) × Distinct s.transition_map × All (IsOwn k states) s.transition_map

add_state-new :
    (s : State) (k : String) (m : Fsm)
    → s.id ≡ k
    → contains k m.states ≡ false
    → add_state s m ≡ some (record m { states = m.states ++ (k, s) ∷ [] })
unfolding add_state
add_state-new s k m own fresh =
    let mine : contains s.id m.states ≡ false =
      subst (λ j. contains j m.states ≡ false) (sym own) fresh in
    rw (mine, insert-new s.id s m.states mine)
      (ap (λ j. some (record m { states = m.states ++ (j, s) ∷ [] })) own)

add_states-every :
    (states d : Dict State) (m : Fsm)
    → All (IsPlain states) d
    → Distinct d
    → Fresh m.states d
    → add_states (serialize_states d) m ≡ some (record m { states = m.states ++ bares d })
unfolding add_states serialize_states
add_states-every states [] m h u f =
    ap (λ p. some (record m { states = p })) (sym (append-nil m.states))
add_states-every states ((k, s) ∷ d) m h u f =
    let m' : Fsm = record m { states = m.states ++ (k, bare s) ∷ [] } in
    rw (state-round_trip s h.0.1, add_state-new (bare s) k m h.0.0 f.0)
      (add_states-every states d m' h.1 u.1 (Fresh-snoc k (bare s) m.states d f.1 u.0)
        ∙ ap (λ q. some (record m { states = q }))
            (append_assoc m.states ((k, bare s) ∷ []) (bares d)))

contains-middle :
    (j k : String) (s s' : State) (p r : Dict State)
    → contains j (p ++ (k, s) ∷ r) ≡ contains j (p ++ (k, s') ∷ r)
contains-middle j k s s' p r = ground (
  arith,
  contains-append j p ((k, s) ∷ r),
  contains-append j p ((k, s') ∷ r),
  contains-cons j k s r,
  contains-cons j k s' r,
)

add_to_state-new :
    (t : Transition) (s : State)
    → contains t.input s.transition_map ≡ false
    → add_to_state t s ≡ some (record s { transition_map = s.transition_map ++ (t.input, t) ∷ [] })
unfolding add_to_state
add_to_state-new t s h = rw (h, insert-new t.input t s.transition_map h) refl

-- the state with one transition more
abbrev with_one : Transition → State → State
with_one t s = record s { transition_map = s.transition_map ++ (t.input, t) ∷ [] }

add_from-new :
    (t : Transition) (s : State) (m : Fsm)
    → contains t.input s.transition_map ≡ false
    → add_from t m s ≡ some (record m { states = insert t.source_state_id (with_one t s) m.states })
unfolding add_from
add_from-new t s m h = rw (add_from, add_to_state-new t s h) refl

add_transition-middle :
    (t : Transition) (s : State) (p r : Dict State) (m : Fsm)
    → contains t.source_state_id p ≡ false
    → contains t.dest_state_id (p ++ (t.source_state_id, s) ∷ r) ≡ true
    → contains t.input s.transition_map ≡ false
    → add_transition t (record m { states = p ++ (t.source_state_id, s) ∷ r })
      ≡ some (record m { states = p ++ (t.source_state_id, with_one t s) ∷ r })
unfolding add_transition
add_transition-middle t s p r m n dest new =
    let k = t.source_state_id in
    rw
      (
        dest,
        get-middle k s p r n,
        add_from-new t s (record m { states = p ++ (k, s) ∷ r }) new,
        insert-middle k s (with_one t s) p r n,
      )
      refl

-- the same where the key and the state are known by other names
add_transition-own :
    (i k : String) (t : Transition) (s : State) (p r : Dict State) (m : Fsm)
    → t.input ≡ i
    → t.source_state_id ≡ k
    → contains k p ≡ false
    → contains t.dest_state_id (p ++ (k, s) ∷ r) ≡ true
    → contains i s.transition_map ≡ false
    → add_transition t (record m { states = p ++ (k, s) ∷ r })
      ≡ some (record m {
        states = p ++ (k, record s { transition_map = s.transition_map ++ (i, t) ∷ [] }) ∷ r;
      })
add_transition-own i k t s p r m ei ek n dest new =
    ap (λ j. add_transition t (record m { states = p ++ (j, s) ∷ r })) (sym ek)
    ∙ add_transition-middle t s p r m (subst (λ j. contains j p ≡ false) (sym ek) n)
        (subst (λ j. contains t.dest_state_id (p ++ (j, s) ∷ r) ≡ true) (sym ek) dest)
        (subst (λ j. contains j s.transition_map ≡ false) (sym ei) new)
    ∙ ap₂
        (λ j l. some (record m {
          states = p ++ (j, record s { transition_map = s.transition_map ++ (l, t) ∷ [] }) ∷ r;
        }))
        ek ei

-- every transition of a state is added to it, in order
add_transitions-own :
    (k : String) (s : State) (p r : Dict State) (m : Fsm) (t1 t2 : Dict Transition)
    (rest : List TransitionJson)
    → contains k p ≡ false
    → All (IsOwn k (p ++ (k, s) ∷ r)) t2
    → Distinct t2
    → Fresh t1 t2
    → add_transitions
        (transitions_to_json t2 ++ rest)
        (record m { states = p ++ (k, record s { transition_map = t1 }) ∷ r })
      ≡ add_transitions rest
          (record m { states = p ++ (k, record s { transition_map = t1 ++ t2 }) ∷ r })
unfolding add_transitions transitions_to_json
add_transitions-own k s p r m t1 [] rest n h u f =
    ap
      (λ t.
        add_transitions rest (record m { states = p ++ (k, record s { transition_map = t }) ∷ r }))
      (sym (append-nil t1))
add_transitions-own k s p r m t1 ((i, t) ∷ t2) rest n h u f =
    let s1 : State = record s { transition_map = t1 } in
    rw
      (
        transition-round_trip t,
        add_transition-own i k t s1 p r m h.0.0 h.0.1 n
            (contains-middle t.dest_state_id k s1 s p r ∙ h.0.2) f.0,
      )
      (add_transitions-own k s p r m (t1 ++ (i, t) ∷ []) t2 rest n h.1 u.1
          (Fresh-snoc i t t1 t2 f.1 u.0)
        ∙ ap
            (λ q.
              add_transitions rest
                (record m { states = p ++ (k, record s { transition_map = q }) ∷ r }))
            (append_assoc t1 ((i, t) ∷ []) t2))

-- what the states hold, and that they stand where they stood
links-same :
    (k : String) (a b : Dict State) (t : Dict Transition)
    → ((j : String) → contains j a ≡ contains j b)
    → All (IsOwn k a) t
    → All (IsOwn k b) t
links-same k a b [] e h = tt
links-same k a b ((i, t) ∷ ts) e h =
    ((h.0.0, h.0.1, sym (e t.dest_state_id) ∙ h.0.2), links-same k a b ts e h.1)

same-snoc :
    (k : String) (s : State) (p d all : Dict State)
    → ((j : String) → contains j all ≡ contains j (p ++ bares ((k, s) ∷ d)))
    → (j : String) → contains j all ≡ contains j ((p ++ (k, s) ∷ []) ++ bares d)
same-snoc k s p d all e j =
    e j
    ∙ contains-middle j k (bare s) s p (bares d)
    ∙ ap (λ q. contains j q) (sym (append_assoc p ((k, s) ∷ []) (bares d)))

add_transitions-every :
    (all p d : Dict State) (m : Fsm)
    → ((j : String) → contains j all ≡ contains j (p ++ bares d))
    → All (IsPlain all) d
    → Distinct d
    → Fresh p d
    → add_transitions (serialize_transitions d) (record m { states = p ++ bares d })
      ≡ some (record m { states = p ++ d })
unfolding add_transitions serialize_transitions
add_transitions-every all p [] m e h u f = refl
add_transitions-every all p ((k, s) ∷ d) m e h u f =
    let here : Dict State = p ++ (k, s) ∷ bares d in
    let known : (j : String) → contains j all ≡ contains j here =
      (λ j. e j ∙ contains-middle j k (bare s) s p (bares d)) in
    add_transitions-own k s p (bares d) m [] s.transition_map (serialize_transitions d) f.0
      (links-same k all here s.transition_map known h.0.3) h.0.2 (Fresh-nil s.transition_map)
    ∙ ap (λ q. add_transitions (serialize_transitions d) (record m { states = q }))
        (sym (append_assoc p ((k, s) ∷ []) (bares d)))
    ∙ add_transitions-every all (p ++ (k, s) ∷ []) d m (same-snoc k s p d all e) h.1 u.1
        (Fresh-snoc k s p d f.1 u.0)
    ∙ ap (λ q. some (record m { states = q })) (append_assoc p ((k, s) ∷ []) d)

-- A machine as the builders make it, with no menu in a state: every state stands once under its name,
-- every transition once under its key in its own state, it leads to a state of the machine, and the
-- first state is there.
pub record IsStorable (name : String) (m : Fsm) : Type 0 where
  pub nodes : All (IsPlain m.states) m.states
  pub distinct : Distinct m.states
  pub begins : contains m.init_state_id m.states ≡ true
  pub standard :
      m ≡ record (new_fsm name m.fsm_id) { states = m.states; init_state_id = m.init_state_id }

-- A machine without menus that is stored and read again, under the same account, is the same machine:
-- its states and transitions in their order, its first state, and its recordings for wrong keys.
pub deserialize-serialize :
    (name : String) (m : Fsm) → IsStorable name m → deserialize name (serialize m) ≡ some m
unfolding deserialize serialize set_init_state_id new_fsm
deserialize-serialize name m w =
    let m0 : Fsm = new_fsm name m.fsm_id in
    let m1 : Fsm = record m0 { init_state_id = m.init_state_id } in
    rw
      (
        add_states-every m.states m.states m0 w.nodes w.distinct (Fresh-nil m.states),
        contains-bares m.init_state_id m.states ∙ w.begins,
      )
      (add_transitions-every m.states [] m.states m1 (λ j. sym (contains-bares j m.states)) w.nodes
          w.distinct (Fresh-nil m.states)
        ∙ ap some (sym w.standard))
