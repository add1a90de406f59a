-- ===== src/Conference/Events/Playback.antt =====
-- Playing content: play_content_event.py, pause_content_event.py, resume_content_event.py,
-- seek_content_event.py, set_playback_speed_event.py and playback_state_update_event.py.
use seeds.Base.{ℕ, ℤ, pos, leb, String, ◌&&◌, Option, none, some, [], ◌∷◌, if◌then◌else◌}
use seeds.Dict.{Dict}
use seeds.Act.{maybe, Act, raise, value_error, reading, ◌>>◌}
use seeds.Conference.Model.{
  ContentStatus, starting, AudioContentState, ConferenceCallState, Value, text, number, integer,
  MessageType, play_audio, pause_audio, resume_audio, seek_audio, set_speed, MessageText, plain,
  position_json, delta_json, speed_text, teacher_audio_playback_status_change,
  leader_toggle_content_via_dtmf, leader_seek_content_via_dtmf, leader_set_speed_via_dtmf,
}
use seeds.Conference.World.{External, perform, ws_send}
use seeds.Conference.Call.{
  ConferenceCall, ConferenceEvent, set_playback_speed, seek_content, io, write_state, log_action,
  teacher_or_empty, initiator_or_teacher, by_initiator, update_state,
}

unfoldable pub set_audio :
    (AudioContentState → AudioContentState) → ConferenceCallState → ConferenceCallState
set_audio f s = record s { audio_content_state = f s.audio_content_state }

-- a new value, where one is given
abbrev pub or_old {ℓ} : {A : Type ℓ} → Option A → Option A → Option A
or_old none old = old
or_old (some v) old = some v

abbrev pub value_or {ℓ} : {A : Type ℓ} → Option A → A → A
value_or none old = old
value_or (some v) old = v

-- `SetPlaybackSpeedEvent(…)`: `none` where the constructor raises `ValueError`
unfoldable pub new_set_playback_speed : ℕ → Option String → Option ConferenceEvent
new_set_playback_speed speed initiator =
    if leb 50 speed && leb speed 200 then some (set_playback_speed speed initiator) else none

-- `SeekContentEvent(…)`
unfoldable pub new_seek_content : Option ℤ → Option ℕ → Option String → Option ConferenceEvent
new_seek_content none none initiator = none
new_seek_content delta position initiator = some (seek_content delta position initiator)

-- the message and the metadata of a seek
unfoldable pub seek_payload : Option ℤ → Option ℕ → MessageText
seek_payload delta (some position) = position_json position
seek_payload (some delta) none = delta_json delta
seek_payload none none = delta_json (pos 0)

unfoldable pub seek_metadata : Option ℤ → Option ℕ → Dict Value
seek_metadata delta (some position) = ("seek_position_seconds", number position) ∷ []
seek_metadata (some delta) none = ("seek_delta_seconds", integer delta) ∷ []
seek_metadata none none = []

module _ (x : External) where
  -- `WebsocketClientProvider().send_message(…)`
  unfoldable pub send : MessageType → MessageText → Act ConferenceCall (Unit {0})
  send type message = reading λ c.
      io (perform x (ws_send (record { websocket_id = c.conf_id; type = type; message = message })))

  unfoldable pub play_content_event : String → Act ConferenceCall (Unit {0})
  play_content_event url = do
    write_state (set_audio (λ a. record a { current_url = some url; status = starting }))
    send play_audio (plain url)
    log_action x teacher_audio_playback_status_change (("url", text url) ∷ []) teacher_or_empty
    update_state x

  unfoldable pub pause_content_event : Option String → Act ConferenceCall (Unit {0})
  pause_content_event initiator = do
    send pause_audio (plain "")
    log_action x
        (by_initiator initiator leader_toggle_content_via_dtmf teacher_audio_playback_status_change)
        [] (initiator_or_teacher initiator)
    update_state x

  unfoldable pub resume_content_event : Option String → Act ConferenceCall (Unit {0})
  resume_content_event initiator = do
    write_state (set_audio (λ a. record a { status = starting }))
    send resume_audio (plain "")
    log_action x
        (by_initiator initiator leader_toggle_content_via_dtmf teacher_audio_playback_status_change)
        [] (initiator_or_teacher initiator)
    update_state x

  unfoldable pub seek_content_event :
      Option ℤ → Option ℕ → Option String → Act ConferenceCall (Unit {0})
  seek_content_event delta position initiator = do
    send seek_audio (seek_payload delta position)
    log_action x
        (by_initiator initiator leader_seek_content_via_dtmf teacher_audio_playback_status_change)
        (seek_metadata delta position) (initiator_or_teacher initiator)
    update_state x

  unfoldable pub set_playback_speed_event : ℕ → Option String → Act ConferenceCall (Unit {0})
  set_playback_speed_event speed initiator = do
    send set_speed (speed_text speed)
    log_action x
        (by_initiator initiator leader_set_speed_via_dtmf teacher_audio_playback_status_change)
        (("playback_speed", number speed) ∷ []) (initiator_or_teacher initiator)
    write_state (set_audio (λ a. record a { speed = speed }))
    update_state x

  -- the event is built and run at once
  unfoldable pub build_and_set_speed : ℕ → Option String → Act ConferenceCall (Unit {0})
  build_and_set_speed speed initiator =
      maybe (new_set_playback_speed speed initiator) (raise value_error)
        λ e. set_playback_speed_event speed initiator

  unfoldable pub playback_state_update_event :
      ContentStatus → Option ℕ → Option ℕ → Option ℕ → Option String → Act ConferenceCall (Unit {0})
  playback_state_update_event content_state position duration speed refusal = do
    write_state (
        set_audio (λ a. record a {
          status = content_state;
          position_seconds = or_old position a.position_seconds;
          duration_seconds = or_old duration a.duration_seconds;
          speed = value_or speed a.speed;
          last_refusal = refusal;
        }))
    update_state x
