-- ===== src/Conference/Events/Status.antt =====
-- Calls that connect, drop or are put on hold: call_status_change_event.py, hold_detected_event.py,
-- and the statuses of vonage/vonage_call_status_change_event.py.
use seeds.Base.{
  String, ◌==◌, Bool, true, false, not, ◌&&◌, none, some, List, [], ◌∷◌, format, holds,
  if◌then◌else◌,
}
use seeds.Dict.{get, modify}
use seeds.Act.{maybe, Act, pure, gets, reading, catch, ◌>>=◌, ◌>>◌, when}
use seeds.Conference.Model.{
  Participant, CallStatus, CallStatus-discrete, connected, disconnected, connecting, on_hold,
  is_connected, ConferenceCallState, get_teacher, text, system_hold_detected, teacher_has_dropped,
}
use seeds.Conference.World.{External}
use seeds.Conference.Vonage
use seeds.Conference.Call
use seeds.Conference.Call.{
  ConferenceCall, ConferenceEvent, on_line, write_state, queue_event, log_action,
  stream_system_message, update_state,
}
use seeds.Conference.Events.Participants.{set_participants, connected_but}

unfoldable pub set_status : CallStatus → Participant → Participant
set_status status p = record p { call_status = status }

-- whether the number is the teacher's
abbrev pub is_teacher_phone : String → ConferenceCallState → Bool
is_teacher_phone phone s = elim (get_teacher s) [ none ↦ false | some t ↦ t.phone_number == phone ]

-- `play_announcement_to_conference`, where there is somebody to hear it
unfoldable pub announce : External → String → List String → Act ConferenceCall (Unit {0})
announce x words [] = pure tt
announce x words (n ∷ ns) = on_line (Vonage.play_announcement_to_conference x words (n ∷ ns))

unfoldable pub mark_hold : ConferenceCallState → ConferenceCallState
mark_hold s = record s { hold_detected = true }

module _ (x : External) where
  unfoldable pub welcome_joined : Participant → Bool → Act ConferenceCall (Unit {0})
  welcome_joined participant is_teacher = do
    c ← gets (λ c. c)
    catch
        (do
          announce x
              (if is_teacher
                then "Teacher has joined"
                else format (participant.name ∷ " has joined" ∷ []))
              (connected_but participant.phone_number c.state.participants)
          when
              (not is_teacher && (elim (get_teacher c.state) [
                | none ↦ false
                | some t ↦ is_connected t.call_status
              ]))
              (on_line (
                Vonage.play_announcement_to_conference x "Teacher is in the conference"
                  (participant.phone_number ∷ []))))
        (λ e. pure tt)
    when (is_teacher && c.state.auto_end_state.is_active)
        (queue_event Call.cancel_teacher_disconnect_timer)

  unfoldable pub announce_left : Participant → Bool → Act ConferenceCall (Unit {0})
  announce_left participant is_teacher = do
    c ← gets (λ c. c)
    catch
        (announce x
          (if is_teacher then "Teacher has left" else format (participant.name ∷ " has left" ∷ []))
          (connected_but participant.phone_number c.state.participants))
        (λ e. pure tt)
    when is_teacher (do
      stream_system_message x teacher_has_dropped
      queue_event Call.start_teacher_disconnect_timer)

  -- what follows a new status
  unfoldable pub after_status : CallStatus → Participant → Bool → Act ConferenceCall (Unit {0})
  after_status connected participant is_teacher = welcome_joined participant is_teacher
  after_status disconnected participant is_teacher = announce_left participant is_teacher
  after_status connecting participant is_teacher = pure tt
  after_status on_hold participant is_teacher = pure tt

  unfoldable pub change_status : String → CallStatus → Participant → Act ConferenceCall (Unit {0})
  change_status phone status participant = do
    write_state (set_participants (modify phone (set_status status)))
    is_teacher ← gets (λ c. is_teacher_phone participant.phone_number c.state)
    after_status status participant is_teacher
    update_state x

  unfoldable pub call_status_change_event : String → CallStatus → Act ConferenceCall (Unit {0})
  call_status_change_event phone status = reading λ c.
      maybe (get phone c.state.participants) (pure tt) λ p.
        when (not (holds (CallStatus-discrete p.call_status status))) (change_status phone status p)

  unfoldable pub hold_detected_event : String → Act ConferenceCall (Unit {0})
  hold_detected_event phone = reading λ c. maybe (get phone c.state.participants) (pure tt) λ p.
      when (not (holds (CallStatus-discrete p.call_status on_hold))) (do
        write_state (set_participants (modify phone (set_status on_hold)))
        write_state mark_hold
        log_action x system_hold_detected
            (("phone_number", text phone) ∷ ("status", text "on_hold") ∷ []) (λ s. "system")
        update_state x)

-- The status of a call leg in a webhook; any text that is not one of Vonage's stands for
-- `notconnected`.
pub data VonageCallStatus : Type 0 where
  started ringing answered completed notconnected : VonageCallStatus

unfoldable pub validate_status : String → VonageCallStatus
validate_status v =
    if v == "started"
    then started
    else if v == "ringing"
    then ringing
    else if v == "answered"
    then answered
    else if v == "completed"
    then completed
    else notconnected

unfoldable pub get_conf_call_status_change_event : VonageCallStatus → String → ConferenceEvent
get_conf_call_status_change_event started phone = Call.call_status_change phone connecting
get_conf_call_status_change_event ringing phone = Call.call_status_change phone connecting
get_conf_call_status_change_event answered phone = Call.call_status_change phone connected
get_conf_call_status_change_event completed phone = Call.call_status_change phone disconnected
get_conf_call_status_change_event notconnected phone = Call.call_status_change phone disconnected
