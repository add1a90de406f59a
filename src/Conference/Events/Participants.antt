-- ===== src/Conference/Events/Participants.antt =====
-- Adding, removing, muting and unmuting participants: add_participant_event.py,
-- remove_participant_event.py, mute_participant_event.py, unmute_participant_event.py,
-- mute_all_event.py and unmute_all_event.py.
pub mod Muting
use seeds.Base.{
  ℕ, suc, ltb, negsuc, String, ◌==◌, Bool, true, false, not, ◌&&◌, Option, none, some, List, [],
  ◌∷◌, map, length, select, text_or, is_some, format, if◌then◌else◌,
}
use seeds.Dict.{Dict, get, insert, remove, modify, contains}
use seeds.Act.{maybe, Reply, done, raised, cancelled, Act, pure, reading, ◌>>=◌, ◌>>◌, when}
use seeds.Act.Gather.{gather_results}
use seeds.Conference.Model.{
  Participant, new_participant, student, connecting, is_connected, is_teacher_role,
  teacher_add_student, teacher_remove_student, teacher_mute_unmute_student, teacher_mute_all,
  teacher_unmute_all, leader_mute_all_via_dtmf, leader_unmute_all_via_dtmf, text, texts, flag,
  number, ConferenceCallState, get_teacher, get_students, student_is_muted, student_is_unmuted,
}
use seeds.Conference.World.{External}
use seeds.Conference.Vonage
use seeds.Conference.Call.{
  ConferenceCall, on_line, write_state, log_action, teacher_or_empty, initiator_or_teacher,
  by_initiator, stream_system_message, update_state,
}

unfoldable pub set_participants :
    (Dict Participant → Dict Participant) → ConferenceCallState → ConferenceCallState
set_participants f s = record s { participants = f s.participants }

-- the numbers of the connected participants but one
unfoldable pub connected_but : String → Dict Participant → List String
connected_but phone [] = []
connected_but phone ((n, p) ∷ d) =
    let rest = connected_but phone d in
    if not (n == phone) && is_connected p.call_status then n ∷ rest else rest

abbrev pub leave_text : Participant → String
leave_text p =
    if is_teacher_role p.role then "Teacher has left" else format (p.name ∷ " has left" ∷ [])

-- `self.conf_call.communication_api.…`, then a write to the participants
unfoldable pub mark_muted : Participant → Participant
mark_muted p = record p { is_muted = true }

unfoldable pub mark_unmuted : Participant → Participant
mark_unmuted p = record p { is_muted = false; is_raised = false; raised_at = negsuc 0 }

unfoldable pub mark_connecting : Option String → Participant → Participant
mark_connecting name p = record p { call_status = connecting; name = text_or name p.name }

-- `teacher and phone != teacher.phone_number`
abbrev pub is_other_than_teacher : String → ConferenceCallState → Bool
is_other_than_teacher phone s = elim (get_teacher s) [
  | none ↦ false
  | some t ↦ not (phone == t.phone_number)
]

-- `s.phone_number for s in students if s.is_muted == muted`
unfoldable pub phones_with_mute : Bool → List Participant → List String
phones_with_mute muted ps =
    map (λ p. p.phone_number) (select (λ p. if muted then p.is_muted else not p.is_muted) ps)

unfoldable pub count_done : List (Reply Bool) → ℕ
count_done [] = 0
count_done (done true ∷ rs) = suc (count_done rs)
count_done (r ∷ rs) = count_done rs

-- the numbers whose result is an exception
unfoldable pub failed_phones : List String → List (Reply Bool) → List String
failed_phones (p ∷ ps) (raised e ∷ rs) = p ∷ failed_phones ps rs
failed_phones (p ∷ ps) (done b ∷ rs) = failed_phones ps rs
failed_phones (p ∷ ps) (cancelled ∷ rs) = failed_phones ps rs
failed_phones (p ∷ ps) [] = []
failed_phones [] rs = []

module _ (x : External) where
  -- where the number is unknown, and where it is known and not connected
  unfoldable pub dial_new : String → Option String → Act ConferenceCall (Unit {0})
  dial_new phone name = do
    on_line (Vonage.add_participant x phone name)
    write_state (
        set_participants
          (insert phone (new_participant (text_or name "Student") phone student true true)))

  unfoldable pub dial_again : String → Option String → Act ConferenceCall (Unit {0})
  dial_again phone name = do
    on_line (Vonage.add_participant x phone name)
    write_state (set_participants (modify phone (mark_connecting name)))

  unfoldable pub add_participant_event : String → Option String → Act ConferenceCall (Unit {0})
  add_participant_event phone name = do
    reading λ c.
        maybe (get phone c.state.participants) (dial_new phone name)
          λ p. when (not (is_connected p.call_status)) (dial_again phone name)
    log_action x teacher_add_student (("phone_number", text phone) ∷ []) teacher_or_empty
    update_state x

  unfoldable pub remove_known : String → Participant → List String → Act ConferenceCall (Unit {0})
  remove_known phone participant [] = do
    on_line (Vonage.remove_participant x phone)
    write_state (set_participants (remove phone))
    log_action x teacher_remove_student (("phone_number", text phone) ∷ []) teacher_or_empty
    update_state x
  remove_known phone participant (n ∷ remaining) = do
    on_line (Vonage.play_announcement_to_conference x (leave_text participant) (n ∷ remaining))
    on_line (Vonage.remove_participant x phone)
    write_state (set_participants (remove phone))
    log_action x teacher_remove_student (("phone_number", text phone) ∷ []) teacher_or_empty
    update_state x

  unfoldable pub remove_participant_event : String → Act ConferenceCall (Unit {0})
  remove_participant_event phone = reading λ c.
      maybe (get phone c.state.participants) (pure tt)
        λ p. remove_known phone p (connected_but phone c.state.participants)

  unfoldable pub mute_participant_event : String → Bool → Act ConferenceCall (Unit {0})
  mute_participant_event phone stream = reading λ c. when (contains phone c.state.participants) (do
    on_line (Vonage.mute_participant x phone)
    write_state (set_participants (modify phone mark_muted))
    reading λ c'.
        when (stream && is_other_than_teacher phone c'.state)
          (stream_system_message x student_is_muted)
    log_action x teacher_mute_unmute_student
        (("phone_number", text phone) ∷ ("is_muted", flag true) ∷ []) teacher_or_empty
    update_state x)

  unfoldable pub unmute_participant_event : String → Bool → Act ConferenceCall (Unit {0})
  unmute_participant_event phone stream = reading λ c.
      when (contains phone c.state.participants) (do
        on_line (Vonage.unmute_participant x phone)
        write_state (set_participants (modify phone mark_unmuted))
        reading λ c'.
            when (stream && is_other_than_teacher phone c'.state)
              (stream_system_message x student_is_unmuted)
        log_action x teacher_mute_unmute_student
            (("phone_number", text phone) ∷ ("is_muted", flag false) ∷ []) teacher_or_empty
        update_state x)

  unfoldable pub mute_student : String → Act ConferenceCall Bool
  mute_student phone = mute_participant_event phone false >> pure true

  unfoldable pub unmute_student : String → Act ConferenceCall Bool
  unmute_student phone = unmute_participant_event phone false >> pure true

  unfoldable pub mute_all_event : Bool → Option String → Act ConferenceCall (Unit {0})
  mute_all_event stream initiator = reading λ c. when (is_some (get_teacher c.state)) (do
    let students = get_students c.state
    let phone_list = phones_with_mute false students
    results ← gather_results mute_student phone_list
    when (stream && ltb 0 (count_done results)) (stream_system_message x student_is_muted)
    log_action x (by_initiator initiator leader_mute_all_via_dtmf teacher_mute_all)
        (("muted_count", number (count_done results))
          ∷ ("total_students", number (length students))
          ∷ ("failed_phones", texts (failed_phones phone_list results))
          ∷ [])
        (initiator_or_teacher initiator)
    update_state x)

  unfoldable pub unmute_all_event : Bool → Option String → Act ConferenceCall (Unit {0})
  unmute_all_event stream initiator = reading λ c. when (is_some (get_teacher c.state)) (do
    let students = get_students c.state
    let phone_list = phones_with_mute true students
    results ← gather_results unmute_student phone_list
    when (stream && ltb 0 (count_done results)) (stream_system_message x student_is_unmuted)
    log_action x (by_initiator initiator leader_unmute_all_via_dtmf teacher_unmute_all)
        (("unmuted_count", number (count_done results))
          ∷ ("total_students", number (length students))
          ∷ ("failed_phones", texts (failed_phones phone_list results))
          ∷ [])
        (initiator_or_teacher initiator)
    update_state x)
