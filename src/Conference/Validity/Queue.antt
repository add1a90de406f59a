-- ===== src/Conference/Validity/Queue.antt =====
-- Every event keeps the state valid, and so does any number of turns of the queue.
use seeds.Base.{
  Bool-cases, inl, inr, refl, ◌++◌, All, ℕ, String, Bool, true, false, Option, List, [], ◌∷◌,
}
use seeds.Act.Keeps.{Keeps}
use seeds.Conference.Model.{
  new_participant, student, initial_state, Participant, CallStatus, connected, disconnected,
  connecting, on_hold, ContentStatus, playing, starting, paused, stopped,
}
use seeds.Conference.World.{External}
use seeds.Conference.Call
use seeds.Conference.Call.{
  is_queue_processing, ConferenceCall, ConferenceEvent, queue_event, set_participant_state,
  add_students, rest_of, name_at,
}
use seeds.Dict.{Dict, All-insert}
use seeds.Act.{write}
use seeds.Conference.Call.Keeps.{Holds}
use seeds.Conference.Events.{
  end_conf_event, sink_conf_event, execute_event, run_head, process_next, Moment, arrives, turn,
  live,
}
use seeds.Conference.Events.Playback
use seeds.Conference.Events.Status
use seeds.Conference.Events.Dtmf
use seeds.Conference.Validity.{IsEntry, IsValid, valid_rules}
use seeds.Conference.Validity.Participants
use seeds.Conference.Validity.Playback as PlaybackValidity
use seeds.Conference.Validity.Timer as TimerValidity

module _ (x : External) where
  announce-IsValid :
      (words : String) (ns : List String) → Keeps (Holds IsValid) (Status.announce x words ns)
  unfolding Status.announce
  announce-IsValid words [] = search valid_rules
  announce-IsValid words (n ∷ ns) = search valid_rules

  after_status-IsValid :
      (st : CallStatus) (p : Participant) (t : Bool)
      → Keeps (Holds IsValid) (Status.after_status x st p t)
  unfolding Status.after_status Status.welcome_joined Status.announce_left
  after_status-IsValid connected p t = search (valid_rules, announce-IsValid) depth 14
  after_status-IsValid disconnected p t = search (valid_rules, announce-IsValid) depth 14
  after_status-IsValid connecting p t = search valid_rules
  after_status-IsValid on_hold p t = search valid_rules

  call_status_change-IsValid :
      (phone : String) (st : CallStatus)
      → Keeps (Holds IsValid) (Status.call_status_change_event x phone st)
  unfolding Status.call_status_change_event Status.change_status
  call_status_change-IsValid phone st = search (valid_rules, after_status-IsValid) depth 14

  hold_detected-IsValid :
      (phone : String) → Keeps (Holds IsValid) (Status.hold_detected_event x phone)
  unfolding Status.hold_detected_event
  hold_detected-IsValid phone = search valid_rules depth 14

  toggle_content-IsValid :
      (st : ContentStatus) (phone : String) → Keeps (Holds IsValid) (Dtmf.toggle_content x st phone)
  unfolding Dtmf.toggle_content
  toggle_content-IsValid playing phone = PlaybackValidity.pause_content-IsValid x _
  toggle_content-IsValid starting phone = PlaybackValidity.pause_content-IsValid x _
  toggle_content-IsValid paused phone = PlaybackValidity.resume_content-IsValid x _
  toggle_content-IsValid stopped phone = search valid_rules

  leader_digit-IsValid :
      (digit phone : String) → Keeps (Holds IsValid) (Dtmf.leader_digit x digit phone)
  unfolding Dtmf.leader_digit
  leader_digit-IsValid digit phone =
      search
        (
          valid_rules,
          Participants.mute_all-IsValid x,
          Participants.unmute_all-IsValid x,
          toggle_content-IsValid,
          PlaybackValidity.seek_content-IsValid x,
          PlaybackValidity.build_and_set_speed-IsValid x,
        )
        depth 14

  raise_hand-IsValid :
      (phone : String) (p : Participant) → Keeps (Holds IsValid) (Dtmf.raise_hand x phone p)
  unfolding Dtmf.raise_hand
  raise_hand-IsValid phone p = search valid_rules depth 14

  dtmf_input-IsValid :
      (phone digit : String) → Keeps (Holds IsValid) (Dtmf.dtmf_input_event x phone digit)
  unfolding Dtmf.dtmf_input_event Dtmf.pressed
  dtmf_input-IsValid phone digit =
      search (valid_rules, raise_hand-IsValid, leader_digit-IsValid) depth 14

  end_conf-IsValid : Keeps (Holds IsValid) (end_conf_event x)
  unfolding end_conf_event Playback.send
  end_conf-IsValid = search valid_rules depth 14

  sink_conf-IsValid : Keeps (Holds IsValid) (sink_conf_event x)
  unfolding sink_conf_event
  sink_conf-IsValid = search valid_rules depth 14

  -- Any event, whatever the services answer and wherever it is cut off, keeps the state valid.
  pub execute_event-IsValid :
      (rounds : ℕ) (e : ConferenceEvent) → Keeps (Holds IsValid) (execute_event x rounds e)
  unfolding execute_event
  execute_event-IsValid rounds (Call.add_participant p n) =
      Participants.add_participant-IsValid x p n
  execute_event-IsValid rounds (Call.remove_participant p) =
      Participants.remove_participant-IsValid x p
  execute_event-IsValid rounds (Call.mute_participant p b) =
      Participants.mute_participant-IsValid x p b
  execute_event-IsValid rounds (Call.unmute_participant p b) =
      Participants.unmute_participant-IsValid x p b
  execute_event-IsValid rounds (Call.mute_all b i) = Participants.mute_all-IsValid x b i
  execute_event-IsValid rounds (Call.unmute_all b i) = Participants.unmute_all-IsValid x b i
  execute_event-IsValid rounds (Call.call_status_change p st) = call_status_change-IsValid p st
  execute_event-IsValid rounds (Call.dtmf_input p d) = dtmf_input-IsValid p d
  execute_event-IsValid rounds (Call.hold_detected p) = hold_detected-IsValid p
  execute_event-IsValid rounds (Call.play_content u) = PlaybackValidity.play_content-IsValid x u
  execute_event-IsValid rounds (Call.pause_content i) = PlaybackValidity.pause_content-IsValid x i
  execute_event-IsValid rounds (Call.resume_content i) = PlaybackValidity.resume_content-IsValid x i
  execute_event-IsValid rounds (Call.seek_content d p i) =
      PlaybackValidity.seek_content-IsValid x d p i
  execute_event-IsValid rounds (Call.set_playback_speed v i) =
      PlaybackValidity.set_playback_speed-IsValid x v i
  execute_event-IsValid rounds (Call.playback_state_update st p d v r) =
      PlaybackValidity.playback_state_update-IsValid x st p d v r
  execute_event-IsValid rounds Call.start_teacher_disconnect_timer =
      TimerValidity.start_timer-IsValid x
  execute_event-IsValid rounds Call.cancel_teacher_disconnect_timer =
      TimerValidity.cancel_timer-IsValid x
  execute_event-IsValid rounds (Call.auto_end_timer_expired m) =
      TimerValidity.timer_expired-IsValid x m
  execute_event-IsValid rounds Call.auto_end_timer_failed = TimerValidity.timer_failed-IsValid x
  execute_event-IsValid rounds Call.end_conference = end_conf-IsValid
  execute_event-IsValid rounds Call.sink_conference = sink_conf-IsValid
  execute_event-IsValid rounds (Call.vonage_call_transfer u v) = search valid_rules
  execute_event-IsValid rounds Call.reconnect_comm_api_websocket = search valid_rules

  run_head-IsValid :
      (rounds : ℕ) (q : List ConferenceEvent) (c : ConferenceCall)
      → IsValid c.state
      → IsValid (run_head x rounds q c).state
  unfolding run_head
  run_head-IsValid rounds [] c v = v
  run_head-IsValid rounds (e ∷ q) c v =
      ((execute_event-IsValid rounds e).after (record c { event_queue = q }) (record { at = v })).at

  process_next-IsValid :
      (rounds : ℕ) (c : ConferenceCall) → IsValid c.state → IsValid (process_next x rounds c).state
  unfolding process_next
  process_next-IsValid rounds c v = elim (Bool-cases (is_queue_processing c)) [
    | inl t ↦ rw t (run_head-IsValid rounds c.event_queue c v)
    | inr n ↦ rw n v
  ]

  -- A conference whose state is valid has a valid state after any sequence of arriving events and
  -- turns of its queue, whatever the services answer and wherever a handler is cut off: every
  -- participant stands under its own number, a hand is raised exactly when it has a time, and an
  -- active countdown has a beginning and an end.
  pub live-IsValid :
      (rounds : ℕ) (ms : List Moment) (c : ConferenceCall)
      → IsValid c.state
      → IsValid (live x rounds ms c).state
  unfolding live queue_event write
  live-IsValid rounds [] c v = v
  live-IsValid rounds (arrives e ∷ ms) c v =
      live-IsValid rounds ms (record c { event_queue = c.event_queue ++ e ∷ [] }) v
  live-IsValid rounds (turn ∷ ms) c v =
      live-IsValid rounds ms (process_next x rounds c) (process_next-IsValid rounds c v)

add_students-All :
    (phones : List String) (names : List (Option String)) (d : Dict Participant)
    → All IsEntry d
    → All IsEntry (add_students phones names d)
unfolding add_students
add_students-All [] names d h = h
add_students-All (p ∷ ps) names d h =
    add_students-All ps (rest_of names) _
      (All-insert IsEntry p (new_participant (name_at names) p student true false) d (refl, refl) h)

-- The state that a new conference is given is valid, for any numbers and names.
pub set_participant_state-IsValid :
    (t : String) (ps : List String) (l n : Option String) (ns : List (Option String))
    → IsValid (set_participant_state t ps l n ns initial_state)
unfolding set_participant_state
set_participant_state-IsValid t ps l n ns = record {
  entries = add_students-All ps ns _ ((refl, refl), tt);
  timer = tt;
}
