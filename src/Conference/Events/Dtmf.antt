-- ===== src/Conference/Events/Dtmf.antt =====
-- Keys pressed on a telephone: dtmf_input_event.py. Speeds are in hundredths, so that a step of
-- 0.25 is 25 and `round(…, 2)` changes nothing. A raised hand has its time in whole seconds.
pub mod Leaders
use seeds.Base.{
  ℕ, ◌+◌, ◌-◌, ◌/◌, min, max, pos, negsuc, String, ◌==◌, Bool, true, false, not, ◌&&◌, none, some,
  [], ◌∷◌, truthy, if◌then◌else◌,
}
use seeds.Dict.{get, modify}
use seeds.Act.{maybe, Act, pure, reading, ◌>>=◌, ◌>>◌, when}
use seeds.Conference.Model.{
  Participant, is_teacher_role, ContentStatus, playing, starting, paused, stopped, text, flag,
  integer, student_raise_hand_state_change, student_has_raised_hand, ConferenceCallState,
}
use seeds.Conference.World.{External, now}
use seeds.Conference.Call.{
  ConferenceCall, io, write_state, log_action, stream_system_message, update_state,
}
use seeds.Conference.Events.Participants.{set_participants, mute_all_event, unmute_all_event}
use seeds.Conference.Events.Playback.{
  pause_content_event, resume_content_event, seek_content_event, build_and_set_speed,
}

-- `CONTENT_ACTIVE_STATUSES`
abbrev pub is_content_active : ContentStatus → Bool
is_content_active stopped = false
is_content_active _ = true

unfoldable pub mark_raised : ℕ → Participant → Participant
mark_raised t p = record p { is_raised = true; raised_at = pos t }

-- `leader_phone and phone == leader_phone`
unfoldable pub is_leader : String → ConferenceCallState → Bool
is_leader phone s = elim s.leader_phone_number [ none ↦ false | some l ↦ truthy l && phone == l ]

module _ (x : External) where
  -- key 6: what is paused is resumed, what plays or starts is paused, and nothing else
  unfoldable pub toggle_content : ContentStatus → String → Act ConferenceCall (Unit {0})
  toggle_content playing phone = pause_content_event x (some phone)
  toggle_content starting phone = pause_content_event x (some phone)
  toggle_content paused phone = resume_content_event x (some phone)
  toggle_content stopped phone = pure tt

  unfoldable pub leader_digit : String → String → Act ConferenceCall (Unit {0})
  leader_digit digit phone = reading λ c.
      let audio = c.state.audio_content_state in
      if digit == "1"
      then mute_all_event x true (some phone)
      else if digit == "3"
      then unmute_all_event x true (some phone)
      else if digit == "6"
      then toggle_content audio.status phone
      else if digit == "7"
      then when (is_content_active audio.status)
          (seek_content_event x (some (negsuc 9)) none (some phone))
      else if digit == "9"
      then when (is_content_active audio.status)
          (seek_content_event x (some (pos 10)) none (some phone))
      else if digit == "*"
      then when (is_content_active audio.status)
          (build_and_set_speed x (max 50 (audio.speed - 25)) (some phone))
      else when (digit == "#" && is_content_active audio.status)
          (build_and_set_speed x (min 200 (audio.speed + 25)) (some phone))

  unfoldable pub raise_hand : String → Participant → Act ConferenceCall (Unit {0})
  raise_hand phone participant = do
    t ← io (now x)
    write_state (set_participants (modify phone (mark_raised (t / 1000))))
    stream_system_message x student_has_raised_hand
    log_action x student_raise_hand_state_change
        (("phone_number", text participant.phone_number)
          ∷ ("raised_hand", flag true)
          ∷ ("raised_at", integer (pos (t / 1000)))
          ∷ [])
        (λ s. participant.phone_number)
    update_state x

  -- a student raises a hand with 0; else the leader's keys control the conference
  unfoldable pub pressed : String → String → Participant → Act ConferenceCall (Unit {0})
  pressed phone digit participant =
      if not (is_teacher_role participant.role) && digit == "0" && not participant.is_raised
      then raise_hand phone participant
      else (reading λ c. when (is_leader phone c.state) (leader_digit digit phone))

  unfoldable pub dtmf_input_event : String → String → Act ConferenceCall (Unit {0})
  dtmf_input_event phone digit =
      reading λ c. maybe (get phone c.state.participants) (pure tt) λ p. pressed phone digit p
