-- ===== src/Conference/Events.antt =====
-- The events of a conference (platform/app/services/confevents), and the task that takes them from
-- the queue.
pub mod Participants
pub mod Playback
pub mod Timer
pub mod Status
pub mod Dtmf
use seeds.Base.{if◌then◌else◌, ℕ, zero, suc, true, false, List, [], ◌∷◌}
use seeds.Dict.{values}
use seeds.Act.{Act, pure, gets, reading, catch, write, ◌>>=◌, ◌>>◌, when}
use seeds.Conference.Model.{
  ConferenceCallState, get_teacher, conference_end, conference_sink, disconnect, plain,
}
use seeds.Conference.World.{External, perform, ws_send, disconnect_client}
use seeds.Conference.Vonage
use seeds.Conference.Call
use seeds.Conference.Call.{
  is_queue_processing, ConferenceEvent, ConferenceCall, running, io, on_line, write_state,
  queue_event, log_action, teacher_or_empty, stop_remote_audio_relay, schedule_capture_finalize,
  end_processing_conf_events_from_queue, close_websocket, update_state,
}

module _ (x : External) where
  unfoldable pub end_conf_event : Act ConferenceCall (Unit {0})
  end_conf_event = do
    write_state (λ s. record s { is_running = false })
    on_line (Vonage.end_conf x)
    log_action x conference_end [] teacher_or_empty
    write stop_remote_audio_relay
    write schedule_capture_finalize
    close_websocket x
    catch (Playback.send x disconnect (plain "")) (λ e. pure tt)
    update_state x

  unfoldable pub sink_conf_event : Act ConferenceCall (Unit {0})
  sink_conf_event = do
    write_state (λ s. record s { is_running = false })
    log_action x conference_sink [] teacher_or_empty
    update_state x
    write stop_remote_audio_relay
    write schedule_capture_finalize
    write end_processing_conf_events_from_queue
    reading
        λ c. when c.connection_manager (io (perform x (disconnect_client (get_teacher c.state))))
    write (λ c. record c { sunk = true })

  -- `execute_event` of each class; `rounds` bounds the attempts of `reconnect_websocket`
  unfoldable pub execute_event : ℕ → ConferenceEvent → Act ConferenceCall (Unit {0})
  execute_event rounds (Call.add_participant p n) = Participants.add_participant_event x p n
  execute_event rounds (Call.remove_participant p) = Participants.remove_participant_event x p
  execute_event rounds (Call.mute_participant p b) = Participants.mute_participant_event x p b
  execute_event rounds (Call.unmute_participant p b) = Participants.unmute_participant_event x p b
  execute_event rounds (Call.mute_all b i) = Participants.mute_all_event x b i
  execute_event rounds (Call.unmute_all b i) = Participants.unmute_all_event x b i
  execute_event rounds (Call.call_status_change p st) = Status.call_status_change_event x p st
  execute_event rounds (Call.dtmf_input p d) = Dtmf.dtmf_input_event x p d
  execute_event rounds (Call.hold_detected p) = Status.hold_detected_event x p
  execute_event rounds (Call.play_content u) = Playback.play_content_event x u
  execute_event rounds (Call.pause_content i) = Playback.pause_content_event x i
  execute_event rounds (Call.resume_content i) = Playback.resume_content_event x i
  execute_event rounds (Call.seek_content d p i) = Playback.seek_content_event x d p i
  execute_event rounds (Call.set_playback_speed v i) = Playback.set_playback_speed_event x v i
  execute_event rounds (Call.playback_state_update st p d v r) =
      Playback.playback_state_update_event x st p d v r
  execute_event rounds Call.start_teacher_disconnect_timer = Timer.start_timer_event x
  execute_event rounds Call.cancel_teacher_disconnect_timer = Timer.cancel_timer_event x
  execute_event rounds (Call.auto_end_timer_expired m) = Timer.timer_expired_event x m
  execute_event rounds Call.auto_end_timer_failed = Timer.timer_failed_event x
  execute_event rounds Call.end_conference = end_conf_event
  execute_event rounds Call.sink_conference = sink_conf_event
  execute_event rounds (Call.vonage_call_transfer u v) = do
    phone ← on_line (Vonage.handle_call_transfer_event x u v)
    pure tt
  execute_event rounds Call.reconnect_comm_api_websocket = do
    attached ← on_line (Vonage.reconnect_websocket x rounds)
    pure tt

  -- One turn of `_process_conf_events_queue`: the event at the head is taken and run, and however it
  -- ends (`except TimeoutError`, `except Exception`) the loop goes on.
  unfoldable pub run_head : ℕ → List ConferenceEvent → ConferenceCall → ConferenceCall
  run_head rounds [] c = c
  run_head rounds (e ∷ rest) c = (execute_event rounds e (record c { event_queue = rest })).1

  -- the loop takes a turn as long as its task is not cancelled
  unfoldable pub process_next : ℕ → ConferenceCall → ConferenceCall
  process_next rounds c = if is_queue_processing c then run_head rounds c.event_queue c else c

  -- so many turns
  unfoldable pub process_turns : ℕ → ℕ → ConferenceCall → ConferenceCall
  process_turns rounds zero c = c
  process_turns rounds (suc n) c = process_turns rounds n (process_next rounds c)

-- What happens to a conference: an event arrives from outside, or the task takes its turn.
pub data Moment : Type 0 where
  arrives : ConferenceEvent → Moment
  turn : Moment

module _ (x : External) where
  unfoldable pub live : ℕ → List Moment → ConferenceCall → ConferenceCall
  live rounds [] c = c
  live rounds (arrives e ∷ ms) c = live rounds ms (queue_event e c).1
  live rounds (turn ∷ ms) c = live rounds ms (process_next x rounds c)
