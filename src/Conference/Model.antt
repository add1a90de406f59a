-- ===== src/Conference/Model.antt =====
-- The data of a conference: platform/app/models/participant.py, playback_state.py,
-- action_history.py, system_audio_messages.py, ws_service_message.py and conference_state.py.
-- Instants are natural numbers (the ISO text of an instant stands for it). Seconds of audio and
-- speeds are in hundredths: a speed of 1.25 is 125.
use seeds.Base.{
  ℕ, ℤ, negsuc, String, Bool, true, false, not, Option, none, some, List, [], truthy, select, ◌==◌,
  if◌then◌else◌,
}
use seeds.Dict.{Dict, get, values}

pub data Role : Type 0 where
  teacher student : Role

pub data CallStatus : Type 0 where
  connected disconnected connecting on_hold : CallStatus

pub Role-discrete : Discrete Role
Role-discrete = hlevel

pub CallStatus-discrete : Discrete CallStatus
CallStatus-discrete = hlevel

-- `p.role == Role.TEACHER`
abbrev pub is_teacher_role : Role → Bool
is_teacher_role teacher = true
is_teacher_role student = false

-- `p.call_status == CallStatus.CONNECTED`
abbrev pub is_connected : CallStatus → Bool
is_connected connected = true
is_connected _ = false

pub record Participant : Type 0 where
  pub name : String
  pub phone_number : String
  pub role : Role
  pub added_after_start : Bool
  pub raised_at : ℤ
  pub is_raised : Bool
  pub is_muted : Bool
  pub call_status : CallStatus

-- `Participant(name=…, phone_number=…, role=…, call_status=DISCONNECTED, is_muted=…,
-- added_after_start=…)`; the other fields have their defaults
abbrev pub new_participant : String → String → Role → Bool → Bool → Participant
new_participant name phone role muted after_start = record {
  name = name;
  phone_number = phone;
  role = role;
  added_after_start = after_start;
  raised_at = negsuc 0;
  is_raised = false;
  is_muted = muted;
  call_status = disconnected;
}

pub data ContentStatus : Type 0 where
  starting playing paused stopped : ContentStatus

pub record AudioContentState : Type 0 where
  pub current_url : Option String
  pub status : ContentStatus
  pub paused_at : Option String
  pub position_seconds : Option ℕ
  pub duration_seconds : Option ℕ
  pub speed : ℕ
  pub last_refusal : Option String

pub data ActionType : Type 0 where
  conference_created conference_start conference_end conference_sink : ActionType
  conference_callstatus_change student_raise_hand_state_change : ActionType
  teacher_add_student teacher_remove_student teacher_mute_unmute_student : ActionType
  teacher_mute_all teacher_unmute_all teacher_audio_playback_status_change : ActionType
  leader_mute_all_via_dtmf leader_unmute_all_via_dtmf leader_toggle_content_via_dtmf : ActionType
  leader_seek_content_via_dtmf leader_set_speed_via_dtmf : ActionType
  conference_start_requested conference_start_failed : ActionType
  auto_end_timer_start auto_end_timer_cancel auto_end_timer_expired : ActionType
  system_audio_analysis system_hold_detected : ActionType

-- The values that the metadata of an action hold.
pub data Value : Type 0 where
  text : String → Value
  given : Option String → Value
  texts : List String → Value
  flag : Bool → Value
  number : ℕ → Value
  integer : ℤ → Value
  instant : ℕ → Value

pub record ActionHistory : Type 0 where
  pub timestamp : ℕ
  pub action_type : ActionType
  pub metadata : Dict Value
  pub owner : String

pub record AutoEndState : Type 0 where
  pub is_active : Bool
  pub started_at : Option ℕ
  pub expires_at : Option ℕ
  pub timeout_minutes : Option ℕ

-- The document's own identifiers (`id`, `conference_id`, `tenant_id`, `ended_at`) are set by no
-- event and are left out.
pub record ConferenceCallState : Type 0 where
  pub is_running : Bool
  pub teacher_phone_number : Option String
  pub leader_phone_number : Option String
  pub participants : Dict Participant
  pub hold_detected : Bool
  pub audio_content_state : AudioContentState
  pub action_history : List ActionHistory
  pub auto_end_state : AutoEndState

-- `ConferenceCallState()`
abbrev pub initial_state : ConferenceCallState
initial_state = record {
  is_running = false;
  teacher_phone_number = none;
  leader_phone_number = none;
  participants = [];
  hold_detected = false;
  audio_content_state = record {
    current_url = none;
    status = stopped;
    paused_at = none;
    position_seconds = none;
    duration_seconds = none;
    speed = 100;
    last_refusal = none;
  };
  action_history = [];
  auto_end_state = record {
    is_active = false;
    started_at = none;
    expires_at = none;
    timeout_minutes = none;
  };
}

abbrev lookup_given : Option String → Dict Participant → Option Participant
lookup_given none d = none
lookup_given (some phone) d = if truthy phone then get phone d else none

unfoldable pub get_teacher : ConferenceCallState → Option Participant
get_teacher s = lookup_given s.teacher_phone_number s.participants

unfoldable pub get_leader : ConferenceCallState → Option Participant
get_leader s = lookup_given s.leader_phone_number s.participants

unfoldable pub get_students : ConferenceCallState → List Participant
get_students s = select (λ p. not (is_teacher_role p.role)) (values s.participants)

-- `_get_user_action_history`: what the system did is not shown
unfoldable pub get_user_action_history : List ActionHistory → List ActionHistory
get_user_action_history = select (λ a. not (a.owner == "system"))

-- `model_dump`: the document that is stored and sent to the client
unfoldable pub model_dump : ConferenceCallState → ConferenceCallState
model_dump s = record s { action_history = get_user_action_history s.action_history }

pub data SystemAudioMessages : Type 0 where
  welcome_teacher welcome_student teacher_has_joined student_has_joined : SystemAudioMessages
  student_has_raised_hand student_is_muted student_is_unmuted : SystemAudioMessages
  teacher_has_dropped student_has_dropped : SystemAudioMessages

abbrev pub file_name : SystemAudioMessages → String
file_name welcome_teacher = "teacher_welcome_message.wav"
file_name welcome_student = "student_welcome_message.wav"
file_name teacher_has_joined = "teacher_has_joined.wav"
file_name student_has_joined = "student_has_joined.wav"
file_name student_has_raised_hand = "student_has_raised_hand.wav"
file_name student_is_muted = "student_is_muted.wav"
file_name student_is_unmuted = "student_is_unmuted.wav"
file_name teacher_has_dropped = "teacher_has_dropped_from_call.wav"
file_name student_has_dropped = "student_has_dropped_from_call.wav"

pub data MessageType : Type 0 where
  heartbeat play_audio play_system_message pause_audio resume_audio stop_audio : MessageType
  playback_state_updates seek_audio set_speed disconnect reconnect audio_data : MessageType

-- The text of a message: given as such, or made by `json.dumps` or `str` from a number.
pub data MessageText : Type 0 where
  plain : String → MessageText
  position_json : ℕ → MessageText
  delta_json : ℤ → MessageText
  speed_text : ℕ → MessageText

pub record WebsocketServiceMessage : Type 0 where
  pub websocket_id : String
  pub type : MessageType
  pub message : MessageText
