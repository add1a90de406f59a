-- ===== src/Conference/Drain/Countdown.antt =====
-- How the countdown after a teacher's absence ends.
use seeds.Base.{ℕ, ◌≡◌, refl, true, false, none, List, [], ◌∷◌, ◌++◌, ◌⊎◌, arith, ap}
use seeds.Act.{Act, Exn, raised, done, write, when, reading, catch, gets, pure, raise, maybe, ◌>>=◌}
use seeds.Act.Keeps.{Keeps}
use seeds.Act.Reaches.{Reaches, Reaches-done, Reaches-of, Reaches-after}
use seeds.Conference.World.{External, read_clock, perform, now, ask}
use seeds.Conference.Call
use seeds.Conference.Model.{auto_end_timer_expired, number}
use seeds.Conference.Call.Keeps.{Holds, Keeps-update_state}
use seeds.Conference.Call.{
  append_action, log_action, write_state, update_state, ConferenceCall, ConferenceEvent,
  queue_event, io,
}
use seeds.Conference.Events.Timer
use seeds.Conference.Drain.{
  Facts, facts_of, Quiet-self, one_sink, sinks-append, same_processing, Quiet, quiet_rules,
}

queue-Reaches :
    (b : Facts) (q : List ConferenceEvent) (e : ConferenceEvent)
    → one_sink e ≡ 0
    → Reaches (Quiet b q) (Quiet b (q ++ e ∷ [])) (queue_event e)
unfolding queue_event write
queue-Reaches b q e no_sink = Reaches-of _ (λ c h. record {
  running_is = h.running_is;
  task_is = λ p. same_processing c _ refl (h.task_is p);
  queue_is = ap (λ w. w ++ e ∷ []) h.queue_is;
  few = omega (arith, sinks-append q (e ∷ []), h.few, no_sink);
})

raised-then :
    {A : Type 0} (k : Act ConferenceCall A) (f : ConferenceCall → ConferenceCall)
    (c : ConferenceCall) (e : Exn)
    → ((k >>= λ a. write f) c).0 ≡ raised e
    → ((k >>= λ a. write f) c).1 ≡ (k c).1
unfolding ◌>>=◌ write
raised-then k f c e h = ground arith

module _ (x : External) (m : ℕ) where
  -- the teacher is still away
  expired_absent-Reaches :
      (b : Facts) (q : List ConferenceEvent)
      → Reaches (Quiet b q) (Quiet b (q ++ Call.end_conference ∷ [])) (Timer.expire_absent x m)
  unfolding Timer.expire_absent
  expired_absent-Reaches b q = Reaches-after _ _ (search quiet_rules) (λ u.
      Reaches-after _ _ (search quiet_rules) (λ v.
        Reaches-after _ _ (search quiet_rules) (λ w. queue-Reaches b q Call.end_conference refl)))

  expired-absent :
      (c : ConferenceCall)
      → c.state.auto_end_state.is_active ≡ true
      → Timer.teacher_connected c.state ≡ false
      → Timer.timer_expired_event x m c ≡ Timer.expire_absent x m c
  unfolding Timer.timer_expired_event reading when
  expired-absent c active absent = simp (active, absent)

  -- Where the countdown has expired while it is active and the teacher is not connected, and the
  -- handler returns, the end of the conference waits in the queue, behind what waited before.
  pub timer_expired-ends :
      (c : ConferenceCall)
      → c.state.auto_end_state.is_active ≡ true
      → Timer.teacher_connected c.state ≡ false
      → (Timer.timer_expired_event x m c).0 ≡ done tt
      → (Timer.timer_expired_event x m c).1.event_queue ≡ c.event_queue ++ Call.end_conference ∷ []
  timer_expired-ends c active absent = rw (expired-absent c active absent) (λ e.
      (Reaches-done _ (expired_absent-Reaches (facts_of c) c.event_queue) c tt (Quiet-self c)
        e).queue_is)

  -- While the countdown is active, its monitor ends, unless it is cancelled, only by putting one event
  -- into the queue: the countdown has expired, or the monitor has failed.
  pub monitor_round-ends :
      (errors : ℕ) (c : ConferenceCall)
      → c.state.auto_end_state.is_active ≡ true
      → (Timer.monitor_round x m errors c).0 ≡ done none
      → ((Timer.monitor_round x m errors c).1.event_queue
          ≡ c.event_queue ++ Call.auto_end_timer_expired m ∷ [])
        ⊎ ((Timer.monitor_round x m errors c).1.event_queue
            ≡ c.event_queue ++ Call.auto_end_timer_failed ∷ [])
  unfolding Timer.monitor_round Timer.monitor_check reading catch ◌>>=◌ io now ask perform
      queue_event write gets pure raise maybe
  monitor_round-ends errors c active h = ground arith

  -- as stored, when the countdown has expired
  abbrev expired : ℕ → ConferenceCall → ConferenceCall
  expired t c = record c {
    state = Timer.set_timer Timer.cleared (
        append_action
          (record {
            timestamp = t;
            action_type = auto_end_timer_expired;
            metadata = ("timeout_minutes", number m) ∷ [];
            owner = "system";
          })
          c.state);
    calls = read_clock ∷ c.calls;
  }

  expire_absent-store :
      (c : ConferenceCall)
      → Timer.expire_absent x m c
        ≡ (update_state x >>= λ u.
              write (λ c'. record c' { event_queue = c'.event_queue ++ Call.end_conference ∷ [] }))
            (expired (x.clock c.calls) c)
  unfolding Timer.expire_absent ◌>>=◌ log_action io now ask write_state queue_event
  expire_absent-store c = refl

  queue-update_state : (c : ConferenceCall) → (update_state x c).1.event_queue ≡ c.event_queue
  queue-update_state c =
      let k : Keeps (Quiet (facts_of c) c.event_queue) (update_state x) = search quiet_rules in
      (k.after c (Quiet-self c)).queue_is

  inactive-update_state :
      (c : ConferenceCall)
      → c.state.auto_end_state.is_active ≡ false
      → (update_state x c).1.state.auto_end_state.is_active ≡ false
  inactive-update_state c h =
      let k : Keeps (Holds (λ s. s.auto_end_state.is_active ≡ false)) (update_state x) =
        Keeps-update_state x in
      (k.after c (record { at = h })).at

  -- Where the countdown has expired while it is active and the teacher is not connected, and the
  -- handler raises, nothing is put into the queue, and the countdown is no longer active.
  pub timer_expired-lost :
      (c : ConferenceCall) (e : Exn)
      → c.state.auto_end_state.is_active ≡ true
      → Timer.teacher_connected c.state ≡ false
      → (Timer.timer_expired_event x m c).0 ≡ raised e
      → ((Timer.timer_expired_event x m c).1.event_queue ≡ c.event_queue)
        × ((Timer.timer_expired_event x m c).1.state.auto_end_state.is_active ≡ false)
  unfolding Timer.set_timer append_action
  timer_expired-lost c e active absent =
      rw (expired-absent c active absent, expire_absent-store c)
        (λ h. rw (raised-then (update_state x) _ (expired (x.clock c.calls) c) e h) (
          queue-update_state (expired (x.clock c.calls) c),
          inactive-update_state (expired (x.clock c.calls) c) refl,
        ))
