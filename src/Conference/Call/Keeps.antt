-- ===== src/Conference/Call/Keeps.antt =====
-- Rules for what a conference's methods keep. `Holds Q` is a property of the state alone, so only a
-- write to the state can break it, whatever the services answer.
use seeds.Base.{◌≡◌, refl, sym, subst, String, arith}
use seeds.Dict.{Dict}
use seeds.Act.{Act, write, ending}
use seeds.Act.Keeps.{
  Keeps, Keeps-pure, Keeps-raise, Keeps-gets, Keeps-reading, Keeps-if, Keeps-catch, Keeps-ending,
  Keeps-when, Keeps-maybe, Keeps-bind,
}
use seeds.Act.Gather.{Keeps-gather_results}
use seeds.Conference.Model.{
  ConferenceCallState, ActionHistory, ActionType, Value, SystemAudioMessages,
}
use seeds.Conference.World.{External, Io}
use seeds.Conference.Dialing.{Line}
use seeds.Conference.Call.{
  ConferenceCall, ConferenceEvent, io, on_line, write_state, queue_event, append_action, log_action,
  stop_remote_audio_relay, restore_auto_end_timer, schedule_capture_finalize,
  end_processing_conf_events_from_queue, stream_system_message, close_websocket, update_state,
}

pub record Holds (Q : ConferenceCallState → Type 0) (c : ConferenceCall) : Type 0 where
  pub at : Q c.state

module _ {Q : ConferenceCallState → Type 0} where
  pub Keeps-io {κ} : {A : Type κ} (m : Io A) → Keeps (Holds Q) (io m)
  unfolding io
  Keeps-io m = record { after = λ c h. record { at = h.at } }

  pub Keeps-on_line {κ} : {A : Type κ} (m : Act Line A) → Keeps (Holds Q) (on_line m)
  unfolding on_line
  Keeps-on_line m = record { after = λ c h. record { at = h.at } }

  pub Keeps-queue_event : (e : ConferenceEvent) → Keeps (Holds Q) (queue_event e)
  unfolding queue_event write
  Keeps-queue_event e = record { after = λ c h. record { at = h.at } }

  pub Keeps-write_state :
      (f : ConferenceCallState → ConferenceCallState)
      → ((s : ConferenceCallState) → Q s → Q (f s))
      → Keeps (Holds Q) (write_state f)
  unfolding write_state write
  Keeps-write_state f k = record { after = λ c h. record { at = k c.state h.at } }

  -- a write to another attribute
  pub Keeps-write_other :
      (f : ConferenceCall → ConferenceCall)
      → ((c : ConferenceCall) → (f c).state ≡ c.state)
      → Keeps (Holds Q) (write f)
  unfolding write
  Keeps-write_other f e = record { after = λ c h. record { at = subst Q (sym (e c)) h.at } }

  pub Keeps-ending_other {κ} :
      {A : Type κ} (m : Act ConferenceCall A) (f : ConferenceCall → ConferenceCall)
      → Keeps (Holds Q) m
      → ((c : ConferenceCall) → (f c).state ≡ c.state)
      → Keeps (Holds Q) (ending m f)
  Keeps-ending_other m f km e =
      Keeps-ending m f km (λ c h. record { at = subst Q (sym (e c)) h.at })

pub state-stop_remote_audio_relay :
    (c : ConferenceCall) → (stop_remote_audio_relay c).state ≡ c.state
unfolding stop_remote_audio_relay
state-stop_remote_audio_relay c = refl

pub state-end_processing :
    (c : ConferenceCall) → (end_processing_conf_events_from_queue c).state ≡ c.state
unfolding end_processing_conf_events_from_queue
state-end_processing c = refl

pub state-schedule_capture_finalize :
    (c : ConferenceCall) → (schedule_capture_finalize c).state ≡ c.state
unfolding schedule_capture_finalize
state-schedule_capture_finalize c = ground arith

pub state-restore_auto_end_timer :
    (c : ConferenceCall) (x : External) → (restore_auto_end_timer x c).state ≡ c.state
unfolding restore_auto_end_timer
state-restore_auto_end_timer c x = ground arith

pub same_state : (c : ConferenceCall) → c.state ≡ c.state
same_state c = refl

pub ruleset call_rules = (
  Keeps-pure, Keeps-raise, Keeps-gets, Keeps-reading, Keeps-if, Keeps-catch, Keeps-when,
  Keeps-maybe, Keeps-bind, Keeps-gather_results, Keeps-io, Keeps-on_line, Keeps-queue_event,
  Keeps-write_other, Keeps-ending_other, state-stop_remote_audio_relay, state-end_processing,
  state-schedule_capture_finalize, same_state,
)

module _ {Q : ConferenceCallState → Type 0} (x : External) where
  pub Keeps-update_state : Keeps (Holds Q) (update_state x)
  unfolding update_state
  Keeps-update_state = search call_rules

  pub Keeps-stream_system_message :
      (m : SystemAudioMessages) → Keeps (Holds Q) (stream_system_message x m)
  unfolding stream_system_message
  Keeps-stream_system_message m = search call_rules

  pub Keeps-close_websocket : Keeps (Holds Q) (close_websocket x)
  unfolding close_websocket
  Keeps-close_websocket = search call_rules

-- A property that the log of actions does not affect.
abbrev pub IgnoresLog : (ConferenceCallState → Type 0) → Type 0
IgnoresLog Q = (s : ConferenceCallState) (a : ActionHistory) → Q s → Q (append_action a s)

module _ {Q : ConferenceCallState → Type 0} (ignores : IgnoresLog Q) (x : External) where
  pub Keeps-log_action :
      (t : ActionType) (d : Dict Value) (owner : ConferenceCallState → String)
      → Keeps (Holds Q) (log_action x t d owner)
  unfolding log_action
  Keeps-log_action t d owner =
      Keeps-bind _ _ (Keeps-io _) (λ t. Keeps-write_state _ (λ s q. ignores s _ q))
