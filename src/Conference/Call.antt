-- ===== src/Conference/Call.antt =====
-- `ConferenceCall` of platform/app/services/conference_service.py: one running conference, its
-- attributes, and the methods that its events use.
pub mod Keeps
pub mod Setup
use seeds.Base.{
  ℕ, String, ◌==◌, Bool, true, false, not, ◌&&◌, ◌||◌, Option, none, some, List, [], ◌∷◌, ◌++◌, map,
  text_or, is_given, if◌then◌else◌, ℤ,
}
use seeds.Dict.{Dict, insert}
use seeds.Act.{
  maybe, Act, pure, raise, value_error, gets, reading, catch, write, ending, ◌>>=◌, ◌>>◌, when,
}
use seeds.Conference.Model.{
  Participant, new_participant, teacher, student, CallStatus, ContentStatus, ActionType,
  conference_start, Value, given, texts, ActionHistory, ConferenceCallState, get_teacher,
  get_students, model_dump, SystemAudioMessages, file_name, play_system_message, plain,
}
use seeds.Conference.World.{
  Effect, save_state, send_message_to_client, connect_client, disconnect_client, ws_send,
  close_socket, External, Io, perform, now,
}
use seeds.Conference.RedisStore
use seeds.Conference.Vonage
use seeds.Conference.Dialing.{VonageApi, Line}

-- The events, one constructor for each class of platform/app/services/confevents.
pub data ConferenceEvent : Type 0 where
  add_participant : String → Option String → ConferenceEvent
  remove_participant : String → ConferenceEvent
  mute_participant unmute_participant : String → Bool → ConferenceEvent
  mute_all unmute_all : Bool → Option String → ConferenceEvent
  call_status_change : String → CallStatus → ConferenceEvent
  dtmf_input : String → String → ConferenceEvent
  hold_detected : String → ConferenceEvent
  play_content : String → ConferenceEvent
  pause_content resume_content : Option String → ConferenceEvent
  seek_content : Option ℤ → Option ℕ → Option String → ConferenceEvent
  set_playback_speed : ℕ → Option String → ConferenceEvent
  playback_state_update :
      ContentStatus → Option ℕ → Option ℕ → Option ℕ → Option String → ConferenceEvent
  start_teacher_disconnect_timer cancel_teacher_disconnect_timer : ConferenceEvent
  auto_end_timer_expired : ℕ → ConferenceEvent
  auto_end_timer_failed : ConferenceEvent
  end_conference : ConferenceEvent
  sink_conference : ConferenceEvent
  vonage_call_transfer : String → String → ConferenceEvent
  reconnect_comm_api_websocket : ConferenceEvent

-- An `asyncio.Task` attribute: none, still running, or over (done or cancelled).
pub data Task : Type 0 where
  absent running over : Task

pub record ConferenceCall : Type 0 where
  pub conf_id : String
  pub state : ConferenceCallState
  pub communication_api : VonageApi
  -- whether a manager or a store is attached
  pub storage_manager : Bool
  pub connection_manager : Bool
  pub redis_store : Bool
  pub event_queue : List ConferenceEvent
  pub event_queue_processing_task : Task
  pub remote_audio_queue : Bool
  pub remote_audio_task : Task
  pub capture_session : Bool
  pub capture_finalize_task : Task
  pub websocket : Bool
  pub auto_end_monitor_task : Task
  -- whether `on_sink_callback` has run
  pub sunk : Bool
  pub calls : List Effect

unfoldable pub io {κ} : {A : Type κ} → Io A → Act ConferenceCall A
io m c = let (r, history) = m c.calls in (r, record c { calls = history })

-- a method of the communication API
unfoldable pub on_line {κ} : {A : Type κ} → Act Line A → Act ConferenceCall A
on_line m c =
    let (r, l) = m (record { api = c.communication_api; calls = c.calls }) in
    (r, record c { communication_api = l.api; calls = l.calls })

-- a write to the state
unfoldable pub write_state :
    (ConferenceCallState → ConferenceCallState) → Act ConferenceCall (Unit {0})
write_state f = write (λ c. record c { state = f c.state })

unfoldable pub append_action : ActionHistory → ConferenceCallState → ConferenceCallState
append_action a s = record s { action_history = s.action_history ++ a ∷ [] }

unfoldable pub queue_event : ConferenceEvent → Act ConferenceCall (Unit {0})
queue_event e = write (λ c. record c { event_queue = c.event_queue ++ e ∷ [] })

-- `teacher_phone_number or ""`
abbrev pub teacher_or_empty : ConferenceCallState → String
teacher_or_empty s = text_or s.teacher_phone_number ""

abbrev pub student_phones : ConferenceCallState → List String
student_phones s = map (λ p. p.phone_number) (get_students s)

-- `initiator_phone or teacher_phone_number or ""`
abbrev pub initiator_or_teacher : Option String → ConferenceCallState → String
initiator_or_teacher initiator s = text_or initiator (teacher_or_empty s)

-- `a if initiator_phone else b`
abbrev pub by_initiator : Option String → ActionType → ActionType → ActionType
by_initiator initiator a b = if is_given initiator then a else b

-- `action_history.append(ActionHistory(timestamp=now, …))`
unfoldable pub log_action :
    External
    → ActionType
    → Dict Value
    → (ConferenceCallState → String)
    → Act ConferenceCall (Unit {0})
log_action x type metadata owner = do
  t ← io (now x)
  write_state λ s.
      append_action
        (record { timestamp = t; action_type = type; metadata = metadata; owner = owner s }) s

-- the `idx`-th of `student_names`, if there is one and it is not empty, else "Student"
abbrev pub name_at : List (Option String) → String
name_at [] = "Student"
name_at (n ∷ ns) = text_or n "Student"

abbrev pub rest_of {ℓ} : {A : Type ℓ} → List A → List A
rest_of [] = []
rest_of (a ∷ as') = as'

-- the loop over `student_phones`
unfoldable pub add_students :
    List String → List (Option String) → Dict Participant → Dict Participant
add_students [] names d = d
add_students (phone ∷ phones) names d =
    add_students phones (rest_of names)
      (insert phone (new_participant (name_at names) phone student true false) d)

-- `phone in phones`
unfoldable pub is_among : String → List String → Bool
is_among phone [] = false
is_among phone (p ∷ ps) = phone == p || is_among phone ps

abbrev pub accepted_leader : Option String → List String → Option String
accepted_leader none phones = none
accepted_leader (some l) phones = if not (l == "") && not (is_among l phones) then none else some l

unfoldable pub set_participant_state :
    String
    → List String
    → Option String
    → Option String
    → List (Option String)
    → ConferenceCallState
    → ConferenceCallState
set_participant_state teacher_phone phones leader_phone teacher_name student_names s = record s {
  participants = add_students phones student_names (
      (
        teacher_phone,
        new_participant (text_or teacher_name "Teacher") teacher_phone teacher false false,
      )
      ∷ []);
  teacher_phone_number = some teacher_phone;
  leader_phone_number = accepted_leader leader_phone phones;
}

unfoldable pub end_processing_conf_events_from_queue : ConferenceCall → ConferenceCall
end_processing_conf_events_from_queue c = record c {
  event_queue_processing_task = elim c.event_queue_processing_task [ absent ↦ absent | _ ↦ over ];
}

unfoldable pub start_processing_conf_events_from_queue : ConferenceCall → ConferenceCall
start_processing_conf_events_from_queue c = record c { event_queue_processing_task = running }

unfoldable pub is_queue_processing : ConferenceCall → Bool
is_queue_processing c = elim c.event_queue_processing_task [ running ↦ true | _ ↦ false ]

unfoldable pub stop_remote_audio_relay : ConferenceCall → ConferenceCall
stop_remote_audio_relay c = record c { remote_audio_task = absent; remote_audio_queue = false }

-- the task is started; what it does with the audio is not modelled here
unfoldable pub start_remote_audio_relay : External → ConferenceCall → ConferenceCall
start_remote_audio_relay x c =
    if x.settings.audio_analysis_enabled || x.settings.audio_capture_enabled
    then record (stop_remote_audio_relay c) {
      remote_audio_queue = true;
      remote_audio_task = running;
    }
    else c

unfoldable pub schedule_capture_finalize : ConferenceCall → ConferenceCall
schedule_capture_finalize c = elim c.capture_finalize_task [
  | running ↦ c
  | _ ↦ if c.capture_session then record c { capture_finalize_task = running } else c
]

module _ (x : External) where
  unfoldable pub stream_system_message : SystemAudioMessages → Act ConferenceCall (Unit {0})
  stream_system_message message = reading λ c.
      when (c.state.is_running && c.communication_api.is_websocket_connected) (
        catch
          (io (
            perform x (
              ws_send (record {
                websocket_id = c.conf_id;
                type = play_system_message;
                message = plain (file_name message);
              }))))
          (λ e. pure tt))

  unfoldable pub close_websocket : Act ConferenceCall (Unit {0})
  close_websocket = reading λ c. when c.websocket (
      ending (catch (io (perform x close_socket)) (λ e. pure tt))
        (λ c'. record c' { websocket = false }))

  unfoldable pub update_state : Act ConferenceCall (Unit {0})
  update_state = do
    reading λ c. when c.storage_manager (io (perform x (save_state c.conf_id (model_dump c.state))))
    reading λ c. when c.redis_store (io (RedisStore.save x c.conf_id c.state))
    reading λ c.
        when c.connection_manager
          (io (perform x (send_message_to_client (get_teacher c.state) (model_dump c.state))))

  -- the monitor of the countdown is (re)started where a countdown is active
  unfoldable pub restore_auto_end_timer : ConferenceCall → ConferenceCall
  restore_auto_end_timer c =
      if c.state.auto_end_state.is_active then record c { auto_end_monitor_task = running } else c

  unfoldable pub start_conference : Act ConferenceCall (Unit {0})
  start_conference = do
    s ← gets (λ c. c.state)
    on_line (Vonage.start_conf x s.teacher_phone_number (student_phones s))
    write_state (λ s'. record s' { is_running = true; hold_detected = false })
    reading λ c.
        log_action x conference_start
          (("teacher_phone", given c.state.teacher_phone_number)
            ∷ ("student_phones", texts (student_phones c.state))
            ∷ [])
          teacher_or_empty
    update_state
    write restore_auto_end_timer

  unfoldable pub connect_smartphone : Act ConferenceCall (Unit {0})
  connect_smartphone = reading λ c.
      maybe (get_teacher c.state) (raise value_error) λ t. io (perform x (connect_client (some t)))

  unfoldable pub disconnect_smartphone : Act ConferenceCall (Unit {0})
  disconnect_smartphone = reading λ c.
      maybe (get_teacher c.state) (raise value_error)
        λ t. io (perform x (disconnect_client (some t)))
