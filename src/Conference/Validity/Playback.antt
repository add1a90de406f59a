-- ===== src/Conference/Validity/Playback.antt =====
-- Playing content keeps the state valid.
use seeds.Base.{ℕ, ℤ, String, Option}
use seeds.Act.Keeps.{Keeps}
use seeds.Conference.Model.{ContentStatus}
use seeds.Conference.World.{External}
use seeds.Conference.Call.Keeps.{Holds}
use seeds.Conference.Events.Playback
use seeds.Conference.Validity.{IsValid, valid_rules}

module _ (x : External) where
  pub play_content-IsValid :
      (url : String) → Keeps (Holds IsValid) (Playback.play_content_event x url)
  unfolding Playback.play_content_event Playback.send
  play_content-IsValid url = search valid_rules depth 14

  pub pause_content-IsValid :
      (by : Option String) → Keeps (Holds IsValid) (Playback.pause_content_event x by)
  unfolding Playback.pause_content_event Playback.send
  pause_content-IsValid by = search valid_rules depth 14

  pub resume_content-IsValid :
      (by : Option String) → Keeps (Holds IsValid) (Playback.resume_content_event x by)
  unfolding Playback.resume_content_event Playback.send
  resume_content-IsValid by = search valid_rules depth 14

  pub seek_content-IsValid :
      (d : Option ℤ) (p : Option ℕ) (by : Option String)
      → Keeps (Holds IsValid) (Playback.seek_content_event x d p by)
  unfolding Playback.seek_content_event Playback.send
  seek_content-IsValid d p by = search valid_rules depth 14

  pub set_playback_speed-IsValid :
      (v : ℕ) (by : Option String)
      → Keeps (Holds IsValid) (Playback.set_playback_speed_event x v by)
  unfolding Playback.set_playback_speed_event Playback.send
  set_playback_speed-IsValid v by = search valid_rules depth 14

  pub build_and_set_speed-IsValid :
      (v : ℕ) (by : Option String) → Keeps (Holds IsValid) (Playback.build_and_set_speed x v by)
  unfolding Playback.build_and_set_speed
  build_and_set_speed-IsValid v by = search (valid_rules, set_playback_speed-IsValid)

  pub playback_state_update-IsValid :
      (st : ContentStatus) (p d v : Option ℕ) (r : Option String)
      → Keeps (Holds IsValid) (Playback.playback_state_update_event x st p d v r)
  unfolding Playback.playback_state_update_event
  playback_state_update-IsValid st p d v r = search valid_rules depth 14
