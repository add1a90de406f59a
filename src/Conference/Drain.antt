-- ===== src/Conference/Drain.antt =====
-- What the events do to the queue and to the flag that tells whether the conference runs.
pub mod Participants
pub mod Playback
pub mod Timer
pub mod Keys
pub mod Queue
pub mod Turns
pub mod Countdown
use seeds.Base.{
  true, false, ℕ, ◌+◌, ◌≤◌, [], ◌∷◌, ◌++◌, String, ◌≡◌, refl, ap, ◌∙◌, Bool, List, arith,
}
use seeds.Act.{Act, write, ending}
use seeds.Act.Keeps.{
  Keeps, Keeps-pure, Keeps-raise, Keeps-gets, Keeps-reading, Keeps-if, Keeps-catch, Keeps-ending,
  Keeps-when, Keeps-maybe, Keeps-bind,
}
use seeds.Act.Gather.{Keeps-gather_results}
use seeds.Conference.Model.{
  ConferenceCallState, ActionHistory, ActionType, Value, SystemAudioMessages, Participant,
  AudioContentState, AutoEndState,
}
use seeds.Dict.{Dict}
use seeds.Conference.World.{External, Io}
use seeds.Conference.Dialing.{Line}
use seeds.Conference.Call
use seeds.Conference.Call.{
  is_queue_processing, ConferenceCall, ConferenceEvent, io, on_line, write_state, append_action,
  log_action, stop_remote_audio_relay, schedule_capture_finalize,
  end_processing_conf_events_from_queue, stream_system_message, close_websocket, update_state,
}
use seeds.Conference.Events.Participants.{set_participants}
use seeds.Conference.Events.Playback.{set_audio}
use seeds.Conference.Events.Timer.{set_timer}
use seeds.Conference.Events.Status.{mark_hold}

-- the events that end the task of the queue
abbrev pub one_sink : ConferenceEvent → ℕ
one_sink Call.sink_conference = 1
one_sink _ = 0

abbrev pub sinks : List ConferenceEvent → ℕ
sinks [] = 0
sinks (e ∷ q) = one_sink e + sinks q

pub sinks-append : (q r : List ConferenceEvent) → sinks (q ++ r) ≡ sinks q + sinks r
sinks-append [] r = omega arith
sinks-append (e ∷ q) r = omega (arith, sinks-append q r)

-- Whether the conference runs, whether the task of the queue is known to be there, and how many events
-- that end the task may wait.
pub record Facts : Type 0 where
  pub runs : Bool
  pub steady : Bool
  pub sinks_at_most : ℕ

-- The facts hold, and these events wait.
pub record Quiet (b : Facts) (q : List ConferenceEvent) (c : ConferenceCall) : Type 0 where
  pub running_is : c.state.is_running ≡ b.runs
  pub task_is : b.steady ≡ true → is_queue_processing c ≡ true
  pub queue_is : c.event_queue ≡ q
  pub few : sinks q ≤ b.sinks_at_most

-- of a conference as it is
abbrev pub facts_of : ConferenceCall → Facts
facts_of c = record {
  runs = c.state.is_running;
  steady = is_queue_processing c;
  sinks_at_most = sinks c.event_queue;
}

pub Quiet-self : (c : ConferenceCall) → Quiet (facts_of c) c.event_queue c
Quiet-self c = record { running_is = refl; task_is = λ t. t; queue_is = refl; few = omega arith }

pub same_processing :
    (c d : ConferenceCall)
    → d.event_queue_processing_task ≡ c.event_queue_processing_task
    → is_queue_processing c ≡ true
    → is_queue_processing d ≡ true
unfolding is_queue_processing
same_processing c d e h = ap (λ t. elim t [ Call.running ↦ true | _ ↦ false ]) e ∙ h

module _ {b : Facts} {q : List ConferenceEvent} where
  pub Quiet-io {κ} : {A : Type κ} (m : Io A) → Keeps (Quiet b q) (io m)
  unfolding io
  Quiet-io m = record {
    after = λ c h. record {
      running_is = h.running_is;
      task_is = λ p. same_processing c _ refl (h.task_is p);
      queue_is = h.queue_is;
      few = h.few;
    };
  }

  pub Quiet-on_line {κ} : {A : Type κ} (m : Act Line A) → Keeps (Quiet b q) (on_line m)
  unfolding on_line
  Quiet-on_line m = record {
    after = λ c h. record {
      running_is = h.running_is;
      task_is = λ p. same_processing c _ refl (h.task_is p);
      queue_is = h.queue_is;
      few = h.few;
    };
  }

  pub Quiet-write_state :
      (f : ConferenceCallState → ConferenceCallState)
      → ((s : ConferenceCallState) → (f s).is_running ≡ s.is_running)
      → Keeps (Quiet b q) (write_state f)
  unfolding write_state write
  Quiet-write_state f k = record {
    after = λ c h. record {
      running_is = k c.state ∙ h.running_is;
      task_is = λ p. same_processing c _ refl (h.task_is p);
      queue_is = h.queue_is;
      few = h.few;
    };
  }

  pub Quiet-write :
      (f : ConferenceCall → ConferenceCall)
      → ((c : ConferenceCall) → (f c).state ≡ c.state)
      → ((c : ConferenceCall) → (f c).event_queue ≡ c.event_queue)
      → ((c : ConferenceCall) → (f c).event_queue_processing_task ≡ c.event_queue_processing_task)
      → Keeps (Quiet b q) (write f)
  unfolding write
  Quiet-write f e k t = record {
    after = λ c h. record {
      running_is = ap (λ s. s.is_running) (e c) ∙ h.running_is;
      task_is = λ p. same_processing c (f c) (t c) (h.task_is p);
      queue_is = k c ∙ h.queue_is;
      few = h.few;
    };
  }

  pub Quiet-ending {κ} :
      {A : Type κ} (m : Act ConferenceCall A) (f : ConferenceCall → ConferenceCall)
      → Keeps (Quiet b q) m
      → ((c : ConferenceCall) → (f c).state ≡ c.state)
      → ((c : ConferenceCall) → (f c).event_queue ≡ c.event_queue)
      → ((c : ConferenceCall) → (f c).event_queue_processing_task ≡ c.event_queue_processing_task)
      → Keeps (Quiet b q) (ending m f)
  Quiet-ending m f km e k t = Keeps-ending m f km (λ c h. record {
    running_is = ap (λ s. s.is_running) (e c) ∙ h.running_is;
    task_is = λ p. same_processing c (f c) (t c) (h.task_is p);
    queue_is = k c ∙ h.queue_is;
    few = h.few;
  })

pub same_running : (s : ConferenceCallState) → s.is_running ≡ s.is_running
same_running s = refl

pub same_state : (c : ConferenceCall) → c.state ≡ c.state
same_state c = refl

pub same_queue : (c : ConferenceCall) → c.event_queue ≡ c.event_queue
same_queue c = refl

pub same_task : (c : ConferenceCall) → c.event_queue_processing_task ≡ c.event_queue_processing_task
same_task c = refl

pub set_participants-running :
    (f : Dict Participant → Dict Participant) (s : ConferenceCallState)
    → (set_participants f s).is_running ≡ s.is_running
unfolding set_participants
set_participants-running f s = refl

pub set_audio-running :
    (f : AudioContentState → AudioContentState) (s : ConferenceCallState)
    → (set_audio f s).is_running ≡ s.is_running
unfolding set_audio
set_audio-running f s = refl

pub set_timer-running :
    (f : AutoEndState → AutoEndState) (s : ConferenceCallState)
    → (set_timer f s).is_running ≡ s.is_running
unfolding set_timer
set_timer-running f s = refl

pub mark_hold-running : (s : ConferenceCallState) → (mark_hold s).is_running ≡ s.is_running
unfolding mark_hold
mark_hold-running s = refl

pub append_action-running :
    (a : ActionHistory) (s : ConferenceCallState) → (append_action a s).is_running ≡ s.is_running
unfolding append_action
append_action-running a s = refl

pub relay-state : (c : ConferenceCall) → (stop_remote_audio_relay c).state ≡ c.state
unfolding stop_remote_audio_relay
relay-state c = refl

pub relay-queue : (c : ConferenceCall) → (stop_remote_audio_relay c).event_queue ≡ c.event_queue
unfolding stop_remote_audio_relay
relay-queue c = refl

pub capture-state : (c : ConferenceCall) → (schedule_capture_finalize c).state ≡ c.state
unfolding schedule_capture_finalize
capture-state c = ground arith

pub capture-queue : (c : ConferenceCall) → (schedule_capture_finalize c).event_queue ≡ c.event_queue
unfolding schedule_capture_finalize
capture-queue c = ground arith

pub relay-task :
    (c : ConferenceCall)
    → (stop_remote_audio_relay c).event_queue_processing_task ≡ c.event_queue_processing_task
unfolding stop_remote_audio_relay
relay-task c = refl

pub capture-task :
    (c : ConferenceCall)
    → (schedule_capture_finalize c).event_queue_processing_task ≡ c.event_queue_processing_task
unfolding schedule_capture_finalize
capture-task c = ground arith

pub ruleset basic_rules = (
  Keeps-pure, Keeps-raise, Keeps-gets, Keeps-reading, Keeps-if, Keeps-catch, Keeps-when,
  Keeps-maybe, Keeps-bind, Keeps-gather_results, Quiet-io, Quiet-on_line, Quiet-write_state,
  Quiet-write, Quiet-ending, same_running, same_state, same_queue, set_participants-running,
  set_audio-running, set_timer-running, mark_hold-running, append_action-running, relay-state,
  relay-queue, same_task, relay-task, capture-task, capture-state, capture-queue,
)

module _ {b : Facts} {q : List ConferenceEvent} (x : External) where
  pub Quiet-update_state : Keeps (Quiet b q) (update_state x)
  unfolding update_state
  Quiet-update_state = search basic_rules

  pub Quiet-stream_system_message :
      (m : SystemAudioMessages) → Keeps (Quiet b q) (stream_system_message x m)
  unfolding stream_system_message
  Quiet-stream_system_message m = search basic_rules

  pub Quiet-close_websocket : Keeps (Quiet b q) (close_websocket x)
  unfolding close_websocket
  Quiet-close_websocket = search basic_rules

  pub Quiet-log_action :
      (t : ActionType) (d : Dict Value) (owner : ConferenceCallState → String)
      → Keeps (Quiet b q) (log_action x t d owner)
  unfolding log_action
  Quiet-log_action t d owner = search basic_rules

pub ruleset quiet_rules = (
  basic_rules, Quiet-update_state, Quiet-stream_system_message, Quiet-close_websocket,
  Quiet-log_action,
)
