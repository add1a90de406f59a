-- ===== src/Ivr/Stored.antt =====
-- A machine as it is stored: `serialize` and `deserialize` of platform/app/services/fsm/fsm.py, and
-- the conversions of states, transitions, actions and operations (state.py, transition.py, and
-- platform/app/providers/vonage_actions/base). A value of JSON is taken as it is; an object is its
-- class, its module and its attributes, and an object without an attribute of its class is refused.
pub mod WellFormed
pub mod RoundTrip
pub mod Menus
use seeds.Base.{
  ℕ, ℤ, String, ◌==◌, Bool, Option, none, some, List, [], ◌∷◌, ◌++◌, ◌&&◌, chain, if◌then◌else◌,
}
use seeds.Dict.{Dict, get}
use seeds.Ivr.Machine.{
  Action, Arg, stream, talk, input, connect, Transition, State, Menu, Fsm, Operation, empty_state,
  quiz_init, quiz_pre, quiz_post, daily_limit, Output, empty_output, quiz_final, new_fsm, add_state,
  set_init_state_id, add_transition,
}

pub data Value : Type 0 where
  text_value : String → Value
  number_value : ℕ → Value
  integer_value : ℤ → Value
  flag_value : Bool → Value
  texts_value : List String → Value
  args_value : Dict Arg → Value

-- `{"__class__": ..., "__module__": ..., "attributes": ...}`
pub record ObjectJson : Type 0 where
  pub class_name : String
  pub module_name : String
  pub attributes : Dict Value

pub record TransitionJson : Type 0 where
  pub input : String
  pub source_state_id : String
  pub dest_state_id : String
  pub actions : List ObjectJson

-- the operations of a state: after it, before it, and the one that makes its actions
pub record StateJson : Type 0 where
  pub id : String
  pub actions : List ObjectJson
  pub operations : Option (ObjectJson × ObjectJson × ObjectJson)
  pub menu : Option Menu

pub record IvrFsmDoc : Type 0 where
  pub id : String
  pub init_state_id : String
  pub states : List StateJson
  pub transitions : List TransitionJson

abbrev pub text_in : String → Dict Value → Option String
text_in k d = elim (get k d) [ some (text_value s) ↦ some s | _ ↦ none ]

abbrev pub number_in : String → Dict Value → Option ℕ
number_in k d = elim (get k d) [ some (number_value n) ↦ some n | _ ↦ none ]

abbrev pub integer_in : String → Dict Value → Option ℤ
integer_in k d = elim (get k d) [ some (integer_value n) ↦ some n | _ ↦ none ]

abbrev pub flag_in : String → Dict Value → Option Bool
flag_in k d = elim (get k d) [ some (flag_value b) ↦ some b | _ ↦ none ]

abbrev pub texts_in : String → Dict Value → Option (List String)
texts_in k d = elim (get k d) [ some (texts_value t) ↦ some t | _ ↦ none ]

abbrev pub args_in : String → Dict Value → Option (Dict Arg)
args_in k d = elim (get k d) [ some (args_value a) ↦ some a | _ ↦ none ]

abbrev object : String → String → Dict Value → ObjectJson
object m c attributes = record { class_name = c; module_name = m; attributes = attributes }

-- `getattr(__import__(module), class)`
abbrev is_class : String → String → ObjectJson → Bool
is_class m c j = (j.module_name == m) && (j.class_name == c)

-- `Action.to_json` and `Action.from_json`
unfoldable pub action_to_json : Action → ObjectJson
action_to_json (stream url record_playback_time args) =
    object "app.providers.vonage_actions.stream_action" "StreamAction" (
      ("url", text_value url)
      ∷ ("record_playback_time", flag_value record_playback_time)
      ∷ ("extra_args", args_value args)
      ∷ [])
action_to_json (talk t args) =
    object "app.providers.vonage_actions.talk_action" "TalkAction"
      (("text", text_value t) ∷ ("extra_args", args_value args) ∷ [])
action_to_json (input type_ event_api args) =
    object "app.providers.vonage_actions.input_action" "InputAction" (
      ("type", texts_value type_)
      ∷ ("eventApi", text_value event_api)
      ∷ ("extra_args", args_value args)
      ∷ [])
action_to_json (connect uri content_type headers) =
    object "app.providers.vonage_actions.connect_action" "VonageConnectAction" (
      ("websocket_uri", text_value uri)
      ∷ ("content_type", text_value content_type)
      ∷ ("headers", args_value headers)
      ∷ [])

unfoldable pub action_from_json : ObjectJson → Option Action
action_from_json j =
    let d = j.attributes in
    if is_class "app.providers.vonage_actions.stream_action" "StreamAction" j
    then chain (text_in "url" d) (λ url.
      chain (flag_in "record_playback_time" d)
        (λ r. chain (args_in "extra_args" d) (λ args. some (stream url r args))))
    else if is_class "app.providers.vonage_actions.talk_action" "TalkAction" j
    then chain (text_in "text" d) (λ t. chain (args_in "extra_args" d) (λ args. some (talk t args)))
    else if is_class "app.providers.vonage_actions.input_action" "InputAction" j
    then chain (texts_in "type" d) (λ t.
      chain (text_in "eventApi" d)
        (λ e. chain (args_in "extra_args" d) (λ args. some (input t e args))))
    else if is_class "app.providers.vonage_actions.connect_action" "VonageConnectAction" j
    then chain (text_in "websocket_uri" d) (λ u.
      chain (text_in "content_type" d)
        (λ c. chain (args_in "headers" d) (λ h. some (connect u c h))))
    else none

-- `FSMOperation.to_json` and `FSMOperation.from_json`
unfoldable pub operation_to_json : Operation → ObjectJson
operation_to_json empty_state =
    object "app.services.fsm.operations.empty_state_operation" "EmptyStateOperation" []
operation_to_json quiz_init =
    object "app.services.fsm.operations.quiz_init_state_operation" "QuizInitStateOperation" []
operation_to_json quiz_pre =
    object "app.services.fsm.operations.quiz_pre_state_operation" "QuizPreStateOperation" []
operation_to_json (quiz_post score) =
    object "app.services.fsm.operations.quiz_post_state_operation" "QuizPostStateOperation"
      (("score", integer_value score) ∷ [])
operation_to_json (daily_limit duration language school) =
    object "app.services.fsm.operations.daily_limit_pre_operation" "DailyLimitPreOperation" (
      ("duration_seconds", number_value duration)
      ∷ ("language", text_value language)
      ∷ ("school_id", text_value school)
      ∷ [])

unfoldable pub operation_from_json : ObjectJson → Option Operation
operation_from_json j =
    let d = j.attributes in
    if is_class "app.services.fsm.operations.empty_state_operation" "EmptyStateOperation" j
    then some empty_state
    else if is_class "app.services.fsm.operations.quiz_init_state_operation"
        "QuizInitStateOperation" j
    then some quiz_init
    else if is_class "app.services.fsm.operations.quiz_pre_state_operation" "QuizPreStateOperation"
        j
    then some quiz_pre
    else if is_class "app.services.fsm.operations.quiz_post_state_operation"
        "QuizPostStateOperation" j
    then chain (integer_in "score" d) (λ n. some (quiz_post n))
    else if is_class "app.services.fsm.operations.daily_limit_pre_operation"
        "DailyLimitPreOperation" j
    then chain (number_in "duration_seconds" d) (λ n.
      chain (text_in "language" d)
        (λ l. chain (text_in "school_id" d) (λ s. some (daily_limit n l s))))
    else none

-- `ProcessOperationOutput.to_json` and `ProcessOperationOutput.from_json`
unfoldable pub output_to_json : Output → ObjectJson
output_to_json empty_output =
    object "app.services.fsm.operations.empty_process_state_output" "EmptyProcessStateOutput" []
output_to_json quiz_final =
    object "app.services.fsm.operations.quiz_process_state_output" "QuizProcessFinalStateOutput" []

unfoldable pub output_from_json : ObjectJson → Option Output
output_from_json j =
    if is_class "app.services.fsm.operations.empty_process_state_output" "EmptyProcessStateOutput" j
    then some empty_output
    else if is_class "app.services.fsm.operations.quiz_process_state_output"
        "QuizProcessFinalStateOutput" j
    then some quiz_final
    else none

unfoldable pub actions_to_json : List Action → List ObjectJson
actions_to_json [] = []
actions_to_json (a ∷ rest) = action_to_json a ∷ actions_to_json rest

unfoldable pub actions_from_json : List ObjectJson → Option (List Action)
actions_from_json [] = some []
actions_from_json (j ∷ rest) =
    let others = actions_from_json rest in
    chain (action_from_json j) (λ a. chain others (λ actions. some (a ∷ actions)))

-- `Transition.to_json` and `Transition.from_json`
unfoldable pub transition_to_json : Transition → TransitionJson
transition_to_json t = record {
  input = t.input;
  source_state_id = t.source_state_id;
  dest_state_id = t.dest_state_id;
  actions = actions_to_json t.actions;
}

unfoldable pub transition_from_json : TransitionJson → Option Transition
transition_from_json j = chain (actions_from_json j.actions) (λ actions. some (record {
  input = j.input;
  source_state_id = j.source_state_id;
  dest_state_id = j.dest_state_id;
  actions = actions;
}))

-- `State.serialize` and `State.from_json`; `app.models.ivr_state` has no `Menu`, so that the import
-- that a state with a menu needs raises an ImportError
unfoldable pub state_to_json : State → StateJson
state_to_json s = record {
  id = s.id;
  actions = actions_to_json s.actions;
  operations = some (
    operation_to_json s.post_operation,
    operation_to_json s.pre_operation,
    output_to_json s.process_output,
  );
  menu = s.menu;
}

abbrev pub plain_state : String → List Action → State
plain_state id actions = record {
  id = id;
  actions = actions;
  transition_map = [];
  post_operation = empty_state;
  pre_operation = empty_state;
  process_output = empty_output;
  menu = none;
}

unfoldable pub with_operations :
    Option (ObjectJson × ObjectJson × ObjectJson) → State → Option State
with_operations none s = some s
with_operations (some (post, pre, output)) s = chain (operation_from_json post) (λ o.
    chain (operation_from_json pre) (λ p.
      chain (output_from_json output)
        (λ q. some (record s { post_operation = o; pre_operation = p; process_output = q }))))

unfoldable pub state_from_json : StateJson → Option State
state_from_json j = chain (actions_from_json j.actions) (λ actions. elim j.menu [
  | some menu ↦ none
  | none ↦ with_operations j.operations (plain_state j.id actions)
])

unfoldable pub transitions_to_json : Dict Transition → List TransitionJson
transitions_to_json [] = []
transitions_to_json ((i, t) ∷ rest) = transition_to_json t ∷ transitions_to_json rest

unfoldable pub serialize_states : Dict State → List StateJson
serialize_states [] = []
serialize_states ((k, s) ∷ rest) = state_to_json s ∷ serialize_states rest

unfoldable pub serialize_transitions : Dict State → List TransitionJson
serialize_transitions [] = []
serialize_transitions ((k, s) ∷ rest) =
    transitions_to_json s.transition_map ++ serialize_transitions rest

-- `FSM.serialize`
unfoldable pub serialize : Fsm → IvrFsmDoc
serialize m = record {
  id = m.fsm_id;
  init_state_id = m.init_state_id;
  states = serialize_states m.states;
  transitions = serialize_transitions m.states;
}

-- `FSM.deserialize`, with the storage account's name from the settings; none where it raises
unfoldable pub add_states : List StateJson → Fsm → Option Fsm
add_states [] m = some m
add_states (j ∷ rest) m =
    chain (state_from_json j) (λ s. chain (add_state s m) (λ m'. add_states rest m'))

unfoldable pub add_transitions : List TransitionJson → Fsm → Option Fsm
add_transitions [] m = some m
add_transitions (j ∷ rest) m =
    chain (transition_from_json j) (λ t. chain (add_transition t m) (λ m'. add_transitions rest m'))

unfoldable pub deserialize : String → IvrFsmDoc → Option Fsm
deserialize storage_account_name doc =
    chain (add_states doc.states (new_fsm storage_account_name doc.id)) (λ m.
      chain (set_init_state_id doc.init_state_id m) (λ m'. add_transitions doc.transitions m'))
