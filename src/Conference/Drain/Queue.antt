-- ===== src/Conference/Drain/Queue.antt =====
-- How much each event leaves in the queue.
use seeds.Base.{ℕ, suc, ◌+◌, ◌≤◌, String, ◌≡◌, refl, ap, Bool, false, List, [], ◌∷◌, ◌++◌, arith}
use seeds.Act.{Act, write, ◌>>=◌}
use seeds.Act.Goes.{
  Goes, Goes-after, Goes-before, Goes-weaken, Goes-reading, Goes-maybe, Goes-if, Goes-when,
}
use seeds.Act.Keeps.{Keeps}
use seeds.Conference.Model.{Participant, CallStatus, connected, disconnected, connecting, on_hold}
use seeds.Conference.World.{External}
use seeds.Conference.Call
use seeds.Conference.Call.{
  end_processing_conf_events_from_queue, ConferenceCall, ConferenceEvent, queue_event, write_state,
  update_state,
}
use seeds.Conference.Events.{end_conf_event, sink_conf_event, execute_event}
use seeds.Conference.Events.Status
use seeds.Conference.Events.Playback
use seeds.Conference.Events.Timer
use seeds.Conference.Drain.{Facts, Quiet, one_sink, sinks-append, same_processing, quiet_rules}
use seeds.Conference.Drain.Participants
use seeds.Conference.Drain.Playback as PlaybackDrain
use seeds.Conference.Drain.Timer as TimerDrain
use seeds.Conference.Drain.Keys.{announce-Quiet, dtmf_input-Quiet, hold_detected-Quiet}

-- The turns that an event can cost: its own, and one for an event that it adds.
abbrev pub weight : ConferenceEvent → ℕ
weight (Call.call_status_change p st) = 2
weight (Call.auto_end_timer_expired m) = 2
weight _ = 1

abbrev pub total : List ConferenceEvent → ℕ
total [] = 0
total (e ∷ q) = weight e + total q

-- The turns that may be due after an event, where `n` were due besides it.
abbrev pub left_by : ConferenceEvent → ℕ → ℕ
left_by (Call.call_status_change p st) n = suc n
left_by (Call.auto_end_timer_expired m) n = suc n
left_by _ n = n

pub weight-left_by : (e : ConferenceEvent) (n : ℕ) → weight e + n ≡ suc (left_by e n)
weight-left_by (Call.call_status_change p st) n = omega arith
weight-left_by (Call.auto_end_timer_expired m) n = omega arith
weight-left_by _ n = omega arith

-- Whether the conference runs after an event, and whether the task is known to be there.
abbrev pub runs_after : ConferenceEvent → Facts → Facts
runs_after Call.end_conference b = record b { runs = false }
runs_after Call.sink_conference b = record b { runs = false; steady = false }
runs_after _ b = b

-- The facts hold, and what waits costs at most `n` turns.
pub record Grown (b : Facts) (n : ℕ) (c : ConferenceCall) : Type 0 where
  pub waiting : List ConferenceEvent
  pub quiet : Quiet b waiting c
  pub bounded : total waiting ≤ n

total-append : (q r : List ConferenceEvent) → total (q ++ r) ≡ total q + total r
total-append [] r = omega arith
total-append (e ∷ q) r = omega (arith, total-append q r)

module _ {b : Facts} {q : List ConferenceEvent} where
  Grown-Quiet : (n : ℕ) → total q ≤ n → (c : ConferenceCall) → Quiet b q c → Grown b n c
  Grown-Quiet n le c h = record { waiting = q; quiet = h; bounded = le }

  Grown-queue_event :
      (e : ConferenceEvent)
      → weight e ≡ 1
      → one_sink e ≡ 0
      → Goes (Quiet b q) (Grown b (suc (total q))) (queue_event e)
  unfolding queue_event write
  Grown-queue_event e one no_sink = record {
    leads = λ c h. record {
      waiting = q ++ e ∷ [];
      quiet = record {
        running_is = h.running_is;
        task_is = λ p. same_processing c _ refl (h.task_is p);
        queue_is = ap (λ q'. q' ++ e ∷ []) h.queue_is;
        few = omega (arith, sinks-append q (e ∷ []), h.few, no_sink);
      };
      bounded = omega (arith, total-append q (e ∷ []), one);
    };
  }

module _ {b : Facts} {n : ℕ} where
  Keeps-Grown {κ} :
      {A : Type κ} (m : Act ConferenceCall A)
      → ((q : List ConferenceEvent) → Keeps (Quiet b q) m)
      → Keeps (Grown b n) m
  Keeps-Grown m k = record {
    after = λ c h. record {
      waiting = h.waiting;
      quiet = (k h.waiting).after c h.quiet;
      bounded = h.bounded;
    };
  }

Quiet-stop :
    {b : Facts} {q : List ConferenceEvent}
    → Goes
        (Quiet b q)
        (Quiet (record b { runs = false }) q)
        (write_state (λ s. record s { is_running = false }))
unfolding write_state write
Quiet-stop = record {
  leads = λ c h. record {
    running_is = refl;
    task_is = λ p. same_processing c _ refl (h.task_is p);
    queue_is = h.queue_is;
    few = h.few;
  };
}

-- the conference does not run, and the task is not known to be there any more
abbrev sunk_facts : ℕ → Facts
sunk_facts n = record { runs = false; steady = false; sinks_at_most = n }

Quiet-sunk :
    {b : Facts} {q : List ConferenceEvent}
    → Goes
        (Quiet b q)
        (Quiet (sunk_facts b.sinks_at_most) q)
        (write_state (λ s. record s { is_running = false }))
unfolding write_state write
Quiet-sunk = record {
  leads =
      λ c h. record { running_is = refl; task_is = λ p. cc p; queue_is = h.queue_is; few = h.few };
}

Quiet-end_task :
    {n : ℕ} {q : List ConferenceEvent}
    → Keeps (Quiet (sunk_facts n) q) (write end_processing_conf_events_from_queue)
unfolding write end_processing_conf_events_from_queue
Quiet-end_task = record {
  after = λ c h. record {
    running_is = h.running_is;
    task_is = λ p. cc p;
    queue_is = h.queue_is;
    few = h.few;
  };
}

module _ {b : Facts} {q : List ConferenceEvent} (x : External) where
  end_conf-Quiet : Goes (Quiet b q) (Quiet (record b { runs = false }) q) (end_conf_event x)
  unfolding end_conf_event Playback.send
  end_conf-Quiet = Goes-before _ _ Quiet-stop (λ u. search quiet_rules depth 14)

  sink_conf-Quiet :
      Goes (Quiet b q) (Quiet (record b { runs = false; steady = false }) q) (sink_conf_event x)
  unfolding sink_conf_event
  sink_conf-Quiet = Goes-before _ _ Quiet-sunk (λ u. search (quiet_rules, Quiet-end_task) depth 14)

module _ {b : Facts} {q : List ConferenceEvent} where
  weaken : (c : ConferenceCall) → Quiet b q c → Grown b (suc (total q)) c
  weaken c h = Grown-Quiet (suc (total q)) (omega arith) c h

  queue_end-Goes : Goes (Quiet b q) (Grown b (suc (total q))) (queue_event Call.end_conference)
  queue_end-Goes = Grown-queue_event Call.end_conference refl refl

  queue_start-Goes :
      Goes (Quiet b q) (Grown b (suc (total q))) (queue_event Call.start_teacher_disconnect_timer)
  queue_start-Goes = Grown-queue_event Call.start_teacher_disconnect_timer refl refl

  queue_cancel-Goes :
      Goes (Quiet b q) (Grown b (suc (total q))) (queue_event Call.cancel_teacher_disconnect_timer)
  queue_cancel-Goes = Grown-queue_event Call.cancel_teacher_disconnect_timer refl refl

ruleset goes_rules = (
  quiet_rules, Goes-reading, Goes-maybe, Goes-when, Goes-if, Goes-after, Goes-weaken,
  announce-Quiet, queue_end-Goes, queue_start-Goes, queue_cancel-Goes, weaken,
)

module _ {b : Facts} {q : List ConferenceEvent} (x : External) where
  timer_expired-Goes :
      (m : ℕ) → Goes (Quiet b q) (Grown b (suc (total q))) (Timer.timer_expired_event x m)
  unfolding Timer.timer_expired_event Timer.expire_connected Timer.expire_absent
  timer_expired-Goes m = search goes_rules depth 14

  announce_left-Goes :
      (p : Participant) (t : Bool)
      → Goes (Quiet b q) (Grown b (suc (total q))) (Status.announce_left x p t)
  unfolding Status.announce_left
  announce_left-Goes p t = search goes_rules depth 14

  welcome_joined-Goes :
      (p : Participant) (t : Bool)
      → Goes (Quiet b q) (Grown b (suc (total q))) (Status.welcome_joined x p t)
  unfolding Status.welcome_joined
  welcome_joined-Goes p t = search goes_rules depth 14

  after_status-Goes :
      (st : CallStatus) (p : Participant) (t : Bool)
      → Goes (Quiet b q) (Grown b (suc (total q))) (Status.after_status x st p t)
  unfolding Status.after_status
  after_status-Goes connected p t = welcome_joined-Goes p t
  after_status-Goes disconnected p t = announce_left-Goes p t
  after_status-Goes connecting p t = search goes_rules
  after_status-Goes on_hold p t = search goes_rules

  then_update_state :
      (m : Act ConferenceCall (Unit {0}))
      → Goes (Quiet b q) (Grown b (suc (total q))) m
      → Goes (Quiet b q) (Grown b (suc (total q))) (m >>= λ u. update_state x)
  then_update_state m g = Goes-before _ _ g (λ u. Keeps-Grown _ (λ q'. search quiet_rules))

  call_status_change-Goes :
      (phone : String) (st : CallStatus)
      → Goes (Quiet b q) (Grown b (suc (total q))) (Status.call_status_change_event x phone st)
  unfolding Status.call_status_change_event Status.change_status
  call_status_change-Goes phone st =
      search (goes_rules, then_update_state, after_status-Goes) depth 14

module _ {b : Facts} {q : List ConferenceEvent} {m : Act ConferenceCall (Unit {0})} where
  weak : Keeps (Quiet b q) m → Goes (Quiet b q) (Grown b (total q)) m
  weak k = Goes-weaken _ (λ c h. Grown-Quiet (total q) (omega arith) c h) k

  same_total :
      {b' : Facts} → Goes (Quiet b q) (Quiet b' q) m → Goes (Quiet b q) (Grown b' (total q)) m
  same_total g = record { leads = λ c h. Grown-Quiet (total q) (omega arith) _ (g.leads c h) }

-- An event leaves in the queue what waited, and at most one event that adds none; the conference
-- does not run after it where it ends the conference, or where it did not run before.
pub execute_event-Grown :
    {b : Facts} {q : List ConferenceEvent} (x : External) (rounds : ℕ) (e : ConferenceEvent)
    → Goes (Quiet b q) (Grown (runs_after e b) (left_by e (total q))) (execute_event x rounds e)
unfolding execute_event
execute_event-Grown x rounds (Call.add_participant p n) =
    weak (Participants.add_participant-Quiet x p n)
execute_event-Grown x rounds (Call.remove_participant p) =
    weak (Participants.remove_participant-Quiet x p)
execute_event-Grown x rounds (Call.mute_participant p b) =
    weak (Participants.mute_participant-Quiet x p b)
execute_event-Grown x rounds (Call.unmute_participant p b) =
    weak (Participants.unmute_participant-Quiet x p b)
execute_event-Grown x rounds (Call.mute_all b i) = weak (Participants.mute_all-Quiet x b i)
execute_event-Grown x rounds (Call.unmute_all b i) = weak (Participants.unmute_all-Quiet x b i)
execute_event-Grown x rounds (Call.call_status_change p st) = call_status_change-Goes x p st
execute_event-Grown x rounds (Call.dtmf_input p d) = weak (dtmf_input-Quiet x p d)
execute_event-Grown x rounds (Call.hold_detected p) = weak (hold_detected-Quiet x p)
execute_event-Grown x rounds (Call.play_content u) = weak (PlaybackDrain.play_content-Quiet x u)
execute_event-Grown x rounds (Call.pause_content i) = weak (PlaybackDrain.pause_content-Quiet x i)
execute_event-Grown x rounds (Call.resume_content i) = weak (PlaybackDrain.resume_content-Quiet x i)
execute_event-Grown x rounds (Call.seek_content d p i) =
    weak (PlaybackDrain.seek_content-Quiet x d p i)
execute_event-Grown x rounds (Call.set_playback_speed v i) =
    weak (PlaybackDrain.set_playback_speed-Quiet x v i)
execute_event-Grown x rounds (Call.playback_state_update st p d v r) =
    weak (PlaybackDrain.playback_state_update-Quiet x st p d v r)
execute_event-Grown x rounds Call.start_teacher_disconnect_timer =
    weak (TimerDrain.start_timer-Quiet x)
execute_event-Grown x rounds Call.cancel_teacher_disconnect_timer =
    weak (TimerDrain.cancel_timer-Quiet x)
execute_event-Grown x rounds (Call.auto_end_timer_expired m) = timer_expired-Goes x m
execute_event-Grown x rounds Call.auto_end_timer_failed = weak (TimerDrain.timer_failed-Quiet x)
execute_event-Grown x rounds Call.end_conference = same_total (end_conf-Quiet x)
execute_event-Grown x rounds Call.sink_conference = same_total (sink_conf-Quiet x)
execute_event-Grown x rounds (Call.vonage_call_transfer u v) = weak (search quiet_rules)
execute_event-Grown x rounds Call.reconnect_comm_api_websocket = weak (search quiet_rules)
