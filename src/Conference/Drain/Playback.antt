-- ===== src/Conference/Drain/Playback.antt =====
-- Playing content adds no event and leaves the conference running or not.
use seeds.Base.{ℕ, ℤ, String, Option, List}
use seeds.Act.Keeps.{Keeps}
use seeds.Conference.Model.{ContentStatus}
use seeds.Conference.World.{External}
use seeds.Conference.Call.{ConferenceEvent}
use seeds.Conference.Events.Playback
use seeds.Conference.Drain.{Facts, Quiet, quiet_rules}

module _ {b : Facts} {q : List ConferenceEvent} (x : External) where
  pub play_content-Quiet : (url : String) → Keeps (Quiet b q) (Playback.play_content_event x url)
  unfolding Playback.play_content_event Playback.send
  play_content-Quiet url = search quiet_rules depth 14

  pub pause_content-Quiet :
      (by : Option String) → Keeps (Quiet b q) (Playback.pause_content_event x by)
  unfolding Playback.pause_content_event Playback.send
  pause_content-Quiet by = search quiet_rules depth 14

  pub resume_content-Quiet :
      (by : Option String) → Keeps (Quiet b q) (Playback.resume_content_event x by)
  unfolding Playback.resume_content_event Playback.send
  resume_content-Quiet by = search quiet_rules depth 14

  pub seek_content-Quiet :
      (d : Option ℤ) (p : Option ℕ) (by : Option String)
      → Keeps (Quiet b q) (Playback.seek_content_event x d p by)
  unfolding Playback.seek_content_event Playback.send
  seek_content-Quiet d p by = search quiet_rules depth 14

  pub set_playback_speed-Quiet :
      (v : ℕ) (by : Option String) → Keeps (Quiet b q) (Playback.set_playback_speed_event x v by)
  unfolding Playback.set_playback_speed_event Playback.send
  set_playback_speed-Quiet v by = search quiet_rules depth 14

  pub build_and_set_speed-Quiet :
      (v : ℕ) (by : Option String) → Keeps (Quiet b q) (Playback.build_and_set_speed x v by)
  unfolding Playback.build_and_set_speed
  build_and_set_speed-Quiet v by = search (quiet_rules, set_playback_speed-Quiet)

  pub playback_state_update-Quiet :
      (st : ContentStatus) (p d v : Option ℕ) (r : Option String)
      → Keeps (Quiet b q) (Playback.playback_state_update_event x st p d v r)
  unfolding Playback.playback_state_update_event
  playback_state_update-Quiet st p d v r = search quiet_rules depth 14
