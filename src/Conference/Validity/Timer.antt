-- ===== src/Conference/Validity/Timer.antt =====
-- The countdown keeps the state valid.
use seeds.Base.{ℕ}
use seeds.Act.Keeps.{Keeps}
use seeds.Conference.World.{External}
use seeds.Conference.Call.Keeps.{Holds}
use seeds.Conference.Events.Timer
use seeds.Conference.Validity.{IsValid, valid_rules}

module _ (x : External) where
  pub start_timer-IsValid : Keeps (Holds IsValid) (Timer.start_timer_event x)
  unfolding Timer.start_timer_event Timer.begin_countdown
  start_timer-IsValid = search valid_rules depth 14

  pub timer_expired-IsValid : (m : ℕ) → Keeps (Holds IsValid) (Timer.timer_expired_event x m)
  unfolding Timer.timer_expired_event Timer.expire_connected Timer.expire_absent
  timer_expired-IsValid m = search valid_rules depth 14

  pub timer_failed-IsValid : Keeps (Holds IsValid) (Timer.timer_failed_event x)
  unfolding Timer.timer_failed_event
  timer_failed-IsValid = search valid_rules depth 14

  pub cancel_timer-IsValid : Keeps (Holds IsValid) (Timer.cancel_timer_event x)
  unfolding Timer.cancel_timer_event
  cancel_timer-IsValid = search valid_rules depth 14
