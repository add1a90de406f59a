-- ===== src/Conference/Manager/Starting.antt =====
-- What a conference that could not be started leaves behind.
use seeds.Base.{◌≡◌, refl, ◌∙◌, String, arith}
use seeds.Dict.{Dict}
use seeds.Act.{Act, Exn, done, raised, write, catch, ◌>>=◌, ◌>>◌}
use seeds.Act.Keeps.{
  Keeps, Keeps-pure, Keeps-raise, Keeps-gets, Keeps-reading, Keeps-if, Keeps-catch, Keeps-when,
  Keeps-maybe, Keeps-bind,
}
use seeds.Act.Goes.{Goes, catch-raised}
use seeds.Conference.Model.{ConferenceCallState, ActionType, Value}
use seeds.Conference.World.{External, Io, now, ask}
use seeds.Conference.Dialing.{Line}
use seeds.Conference.Call.{
  Task, absent, running, over, ConferenceCall, io, on_line, write_state, log_action, update_state,
  start_conference, restore_auto_end_timer, start_processing_conf_events_from_queue,
  start_remote_audio_relay, end_processing_conf_events_from_queue, stop_remote_audio_relay,
}
use seeds.Conference.Manager.{report_failure, request_start, start_failed, start_call}

-- The state of the task of the queue and of the task of the audio.
record Tasks (queue audio : Task) (c : ConferenceCall) : Type 0 where
  pub queue_is : c.event_queue_processing_task ≡ queue
  pub audio_is : c.remote_audio_task ≡ audio

module _ {q a : Task} where
  Tasks-io {κ} : {A : Type κ} (m : Io A) → Keeps (Tasks q a) (io m)
  unfolding io
  Tasks-io m = record { after = λ c h. record { queue_is = h.queue_is; audio_is = h.audio_is } }

  Tasks-on_line {κ} : {A : Type κ} (m : Act Line A) → Keeps (Tasks q a) (on_line m)
  unfolding on_line
  Tasks-on_line m = record {
    after = λ c h. record { queue_is = h.queue_is; audio_is = h.audio_is };
  }

  Tasks-write_state :
      (f : ConferenceCallState → ConferenceCallState) → Keeps (Tasks q a) (write_state f)
  unfolding write_state write
  Tasks-write_state f = record {
    after = λ c h. record { queue_is = h.queue_is; audio_is = h.audio_is };
  }

  Tasks-write :
      (f : ConferenceCall → ConferenceCall)
      → ((c : ConferenceCall) → (f c).event_queue_processing_task ≡ c.event_queue_processing_task)
      → ((c : ConferenceCall) → (f c).remote_audio_task ≡ c.remote_audio_task)
      → Keeps (Tasks q a) (write f)
  unfolding write
  Tasks-write f e k = record {
    after = λ c h. record { queue_is = e c ∙ h.queue_is; audio_is = k c ∙ h.audio_is };
  }

timer-queue :
    (x : External) (c : ConferenceCall)
    → (restore_auto_end_timer x c).event_queue_processing_task ≡ c.event_queue_processing_task
unfolding restore_auto_end_timer
timer-queue x c = ground arith

timer-audio :
    (x : External) (c : ConferenceCall)
    → (restore_auto_end_timer x c).remote_audio_task ≡ c.remote_audio_task
unfolding restore_auto_end_timer
timer-audio x c = ground arith

ruleset task_rules = (
  Keeps-pure, Keeps-raise, Keeps-gets, Keeps-reading, Keeps-if, Keeps-catch, Keeps-when,
  Keeps-maybe, Keeps-bind, Tasks-io, Tasks-on_line, Tasks-write_state, Tasks-write, timer-queue,
  timer-audio,
)

module _ (x : External) where
  Tasks-update_state : {q a : Task} → Keeps (Tasks q a) (update_state x)
  unfolding update_state
  Tasks-update_state = search task_rules

  Tasks-log_action :
      {q a : Task} (t : ActionType) (d : Dict Value) (owner : ConferenceCallState → String)
      → Keeps (Tasks q a) (log_action x t d owner)
  unfolding log_action
  Tasks-log_action t d owner = search task_rules

  Tasks-start_conference : {q a : Task} → Keeps (Tasks q a) (start_conference x)
  unfolding start_conference
  Tasks-start_conference = search (task_rules, Tasks-update_state, Tasks-log_action) depth 14

  Tasks-report_failure : {q a : Task} (e : Exn) → Keeps (Tasks q a) (report_failure x e)
  unfolding report_failure
  Tasks-report_failure e = search (task_rules, Tasks-update_state, Tasks-log_action) depth 14

  start_failed-Goes :
      (e : Exn) {a : Task} → Goes (Tasks running a) (Tasks over absent) (start_failed x e)
  unfolding start_failed ◌>>=◌ end_processing_conf_events_from_queue stop_remote_audio_relay
  start_failed-Goes e = record {
    leads = λ c h.
        (Tasks-report_failure e).after _
          (record { queue_is = rw (h.queue_is) refl; audio_is = refl });
  }

  relay-queue :
      (c : ConferenceCall)
      → (start_remote_audio_relay x c).event_queue_processing_task ≡ c.event_queue_processing_task
  unfolding start_remote_audio_relay stop_remote_audio_relay
  relay-queue c = ground arith

  request_start-done :
      (c : ConferenceCall)
      → ((request_start x c).0 ≡ done tt)
        × ((request_start x c).1.event_queue_processing_task ≡ running)
  unfolding request_start ◌>>=◌ log_action io now ask write_state
      start_processing_conf_events_from_queue
  request_start-done c = (refl, relay-queue (start_processing_conf_events_from_queue c))

  start_call-tried :
      (c : ConferenceCall)
      → start_call x c
        ≡ catch (update_state x >> start_conference x) (start_failed x) (request_start x c).1
  unfolding start_call ◌>>=◌
  start_call-tried c = rw ((request_start-done c).0) refl

  Tasks-started : {q a : Task} → Keeps (Tasks q a) (update_state x >> start_conference x)
  Tasks-started = search (task_rules, Tasks-update_state, Tasks-start_conference)

  failed-Tasks :
      (c : ConferenceCall) (e : Exn)
      → (start_call x c).0 ≡ raised e
      → Tasks over absent (start_call x c).1
  failed-Tasks c e = rw (start_call-tried c) (
      catch-raised (Tasks over absent) _ _ (request_start x c).1 e (λ e'.
        (start_failed-Goes e').leads _ (
          Tasks-started.after (request_start x c).1
            (record { queue_is = (request_start-done c).1; audio_is = refl }))))

  -- Where starting a conference raises, neither the task of its queue nor the relay of its audio is
  -- left running.
  pub start_call-cleans_up :
      (c : ConferenceCall) (e : Exn)
      → (start_call x c).0 ≡ raised e
      → ((start_call x c).1.event_queue_processing_task ≡ over)
        × ((start_call x c).1.remote_audio_task ≡ absent)
  start_call-cleans_up c e r = let t = failed-Tasks c e r in (t.queue_is, t.audio_is)
