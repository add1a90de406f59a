-- ===== src/Conference/Drain/Timer.antt =====
-- The countdown adds no event and leaves the conference running or not, but for its expiry.
use seeds.Base.{List}
use seeds.Act.Keeps.{Keeps}
use seeds.Conference.World.{External}
use seeds.Conference.Call.{ConferenceEvent}
use seeds.Conference.Events.Timer
use seeds.Conference.Drain.{Facts, Quiet, quiet_rules}

module _ {b : Facts} {q : List ConferenceEvent} (x : External) where
  pub start_timer-Quiet : Keeps (Quiet b q) (Timer.start_timer_event x)
  unfolding Timer.start_timer_event Timer.begin_countdown
  start_timer-Quiet = search quiet_rules depth 14

  pub timer_failed-Quiet : Keeps (Quiet b q) (Timer.timer_failed_event x)
  unfolding Timer.timer_failed_event
  timer_failed-Quiet = search quiet_rules depth 14

  pub cancel_timer-Quiet : Keeps (Quiet b q) (Timer.cancel_timer_event x)
  unfolding Timer.cancel_timer_event
  cancel_timer-Quiet = search quiet_rules depth 14
