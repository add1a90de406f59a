-- ===== src/Ivr/Machine.antt =====
-- The machine of platform/app/services/fsm (fsm.py), its states (state.py), transitions
-- (transition.py) and operations (operations), and the actions of
-- platform/app/providers/vonage_actions; and how a machine is put together.
-- The seconds of a recording are counted in milliseconds; usage is kept in whole seconds.
pub mod WellFormed
use seeds.Base.{
  ℕ, ℤ, String, Bool, false, Option, none, some, List, [], ◌∷◌, truthy, format, if◌then◌else◌,
}
use seeds.Dict.{Dict, get, contains, insert}
use seeds.Act.{Reply}
pub use seeds.Ivr.Model.{Arg, text, number, flag, LimitCheck, IvrCallState}

pub data Action : Type 0 where
  stream : String → Bool → Dict Arg → Action
  talk : String → Dict Arg → Action
  input : List String → String → Dict Arg → Action
  connect : String → String → Dict Arg → Action

pub record Transition : Type 0 where
  pub input : String
  pub source_state_id : String
  pub dest_state_id : String
  pub actions : List Action

-- The operations before and after a state.
pub data Operation : Type 0 where
  empty_state quiz_init quiz_pre : Operation
  quiz_post : ℤ → Operation
  -- duration, language and school
  daily_limit : ℕ → String → String → Operation

-- How a state's actions are made when it is entered.
pub data Output : Type 0 where
  empty_output quiz_final : Output

-- The menu that a state was made for. Its language is absent for the menus of a quiz.
pub record Menu : Type 0 where
  pub description : String
  pub options : List (String × String)
  pub level : ℕ
  pub language : Option String

pub record State : Type 0 where
  pub id : String
  pub actions : List Action
  pub transition_map : Dict Transition
  pub post_operation : Operation
  pub pre_operation : Operation
  pub process_output : Output
  pub menu : Option Menu

pub record Fsm : Type 0 where
  pub fsm_id : String
  pub states : Dict State
  pub init_state_id : String
  pub invalid_input_error_actions : List Action
  pub empty_input_error_actions : List Action

pub data Effect : Type 0 where
  find_usage : String → Effect
  add_usage : String → ℕ → String → String → Effect
  stop_audio : Effect

-- What is outside: the table of the daily usage, the audio socket, `urllib`, the announcements of
-- utils.py, and `str` of a number.
pub record External : Type 0 where
  pub usage : List Effect → String → Reply (Option ℕ)
  pub outcome : List Effect → Effect → Reply (Unit {0})
  pub set_query_id : String → String → String
  pub announcement : String → String
  pub language_code : String → String
  pub show : ℤ → String
  pub ivr_daily_listening_limit_seconds : ℕ

-- A machine in use for a call. The machine itself can change: it is shared by all calls.
pub record Session : Type 0 where
  pub fsm : Fsm
  pub doc : IvrCallState
  pub calls : List Effect

-- the recordings for a missing and for a wrong key, below the address of the storage account
abbrev pub no_option_url : String → String
no_option_url base = format (
    base ∷ "chosenNoOptionDialog/kannada/Sorry,%20you%20have%20not%20chosen%20any%20option/1.0.mp3"
    ∷ [])

abbrev pub wrong_input_url : String → String
wrong_input_url base = format (
    base
    ∷ "chosenWrongOptionDialog/kannada/Sorry,%20you%20have%20chosen%20the%20wrong%20option/1.0.mp3"
    ∷ [])

abbrev pub storage_account_base_url : String → String
storage_account_base_url name =
    if truthy name
    then format ("https://" ∷ name ∷ ".blob.core.windows.net/pull-model-menus/" ∷ [])
    else ""

-- `FSM(fsm_id)`, with the storage account's name from the settings
unfoldable pub new_fsm : String → String → Fsm
new_fsm storage_account_name fsm_id =
    let base = storage_account_base_url storage_account_name in
    record {
      fsm_id = fsm_id;
      states = [];
      init_state_id = "LA0";
      invalid_input_error_actions = stream (wrong_input_url base) false [] ∷ [];
      empty_input_error_actions = stream (no_option_url base) false [] ∷ [];
    }

-- Building a machine; `none` is the `ValueError`.
unfoldable pub add_state : State → Fsm → Option Fsm
add_state s m =
    if contains s.id m.states then none else some (record m { states = insert s.id s m.states })

unfoldable pub set_init_state_id : String → Fsm → Option Fsm
set_init_state_id k m = if contains k m.states then some (record m { init_state_id = k }) else none

-- `State.add_transition`
unfoldable pub add_to_state : Transition → State → Option State
add_to_state t s =
    if contains t.input s.transition_map
    then none
    else some (record s { transition_map = insert t.input t s.transition_map })

-- the source state is known
unfoldable pub add_from : Transition → Fsm → State → Option Fsm
add_from t m s = elim (add_to_state t s) [
  | none ↦ none
  | some s' ↦ some (record m { states = insert t.source_state_id s' m.states })
]

unfoldable pub add_transition : Transition → Fsm → Option Fsm
add_transition t m =
    if contains t.dest_state_id m.states
    then elim (get t.source_state_id m.states) [ none ↦ none | some s ↦ add_from t m s ]
    else none

unfoldable pub get_start_fsm_actions : Fsm → Option (List Action)
get_start_fsm_actions m = elim (get m.init_state_id m.states) [
  | none ↦ none
  | some s ↦ some s.actions
]
