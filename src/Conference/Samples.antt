-- ===== src/Conference/Samples.antt =====
-- A small lesson, with a teacher and two students, for the examples.
use seeds.Base.{true, false, none, some, [], ◌∷◌}
use seeds.Act.{done, raised, connection_error}
use seeds.Conference.Model.{
  Participant, new_participant, teacher, student, ConferenceCallState, initial_state,
}
use seeds.Conference.World.{External}
use seeds.Conference.Dialing.{VonageApi}
use seeds.Conference.Call.{ConferenceCall, absent, running}

-- A world in which every call succeeds.
abbrev pub world : External
world = record {
  settings = record {
    redis_conference_ttl_seconds = 3600;
    auto_end_timeout_minutes = 5;
    auto_end_enabled = true;
    audio_analysis_enabled = false;
    audio_capture_enabled = false;
  };
  outcome = λ h e. done tt;
  error_name = λ e. "Error";
  error_text = λ e. "failed";
  clock = λ h. 1000;
  created = λ h d. done (record { uuid = "leg"; conversation_uuid = "conv" });
  status_of = λ h leg. done (some "answered");
  redis_state = λ h k. done none;
  redis_leg = λ h k p. done none;
  redis_legs = λ h k. done [];
  redis_active = λ h. done [];
}

-- A world in which every call fails.
abbrev pub broken : External
broken = record world {
  outcome = λ h e. raised connection_error;
  created = λ h d. raised connection_error;
}

abbrev pub api : VonageApi
api = record {
  conf_id = "c1";
  vonage_number = "100";
  ws_server_url = "wss://audio";
  events_webhook_url = "https://events";
  vonage_conv_id = none;
  is_websocket_connected = false;
  teacher_phone_number = some "t";
  redis_store = true;
}

abbrev pub pupil : Participant
pupil = new_participant "Asha" "s1" student true false

abbrev pub lesson_state : ConferenceCallState
lesson_state = record initial_state {
  is_running = true;
  teacher_phone_number = some "t";
  leader_phone_number = some "s1";
  participants = ("t", new_participant "Teacher" "t" teacher false false) ∷ ("s1", pupil) ∷ [];
}

abbrev pub lesson : ConferenceCall
lesson = record {
  conf_id = "c1";
  state = lesson_state;
  communication_api = api;
  storage_manager = true;
  connection_manager = true;
  redis_store = true;
  event_queue = [];
  event_queue_processing_task = running;
  remote_audio_queue = false;
  remote_audio_task = absent;
  capture_session = false;
  capture_finalize_task = absent;
  websocket = false;
  auto_end_monitor_task = absent;
  sunk = false;
  calls = [];
}
