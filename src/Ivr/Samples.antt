-- ===== src/Ivr/Samples.antt =====
-- A machine of two states, a caller, and a world in which the caller has listened for 100 of 600
-- seconds.
use seeds.Base.{none, some, [], ◌∷◌}
use seeds.Act.{done}
use seeds.Ivr.Model.{text}
use seeds.Ivr.Machine.{
  talk, Transition, State, Fsm, IvrCallState, External, Session, empty_state, daily_limit,
  empty_output, new_fsm,
}

abbrev pub world : External
world = record {
  usage = λ h phone. done (some 100);
  outcome = λ h e. done tt;
  set_query_id = λ uri id. uri;
  announcement = λ language. "limit";
  language_code = λ language. "en-IN";
  show = λ n. "2";
  ivr_daily_listening_limit_seconds = 600;
}

abbrev pub menu : State
menu = record {
  id = "LA0";
  actions = talk "welcome" [] ∷ [];
  transition_map = [];
  post_operation = empty_state;
  pre_operation = empty_state;
  process_output = empty_output;
  menu = none;
}

abbrev pub story : State
story = record menu { id = "story"; pre_operation = daily_limit 90500 "en" "school" }

abbrev pub to_story : Transition
to_story = record { input = "1"; source_state_id = "LA0"; dest_state_id = "story"; actions = [] }

abbrev pub bare : Fsm
bare = record (new_fsm "store" "f") { states = ("LA0", menu) ∷ [] }

abbrev pub two_states : Fsm
two_states = record bare { states = ("LA0", menu) ∷ ("story", story) ∷ [] }

abbrev pub linked : Fsm
linked = record bare {
  states = ("LA0", record menu { transition_map = ("1", to_story) ∷ [] }) ∷ ("story", story) ∷ [];
}

abbrev pub caller : IvrCallState
caller = record {
  id = "call";
  phone_number = "s1";
  current_state_id = "LA0";
  fsm_id = "f";
  current_conversation_uuid = "";
  created_at = 0;
  updated_at = none;
  stopped_at = none;
  duration = some (text "");
  user_actions = [];
  stream_playback = [];
  quiz_score = none;
  daily_limit_check = none;
  playback_speed = none;
  is_paused = none;
  call_status_updates = [];
  tenant_id = "tenant";
  school_id = none;
  version = 0;
  pending_dtmf = none;
  last_dtmf_message_id = none;
}

abbrev pub session : Session
session = record { fsm = linked; doc = caller; calls = [] }
