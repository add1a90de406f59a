-- ===== src/Conference/Drain/Keys.antt =====
-- Keys, detected holds and the end of a conference add no event; a conference that does not run
-- stays so.
use seeds.Base.{String, List, [], ◌∷◌}
use seeds.Act.Keeps.{Keeps}
use seeds.Conference.Model.{Participant, ContentStatus, playing, starting, paused, stopped}
use seeds.Conference.World.{External}
use seeds.Conference.Call.{ConferenceEvent}
use seeds.Conference.Events.Status
use seeds.Conference.Events.Dtmf
use seeds.Conference.Drain.{Facts, Quiet, quiet_rules}
use seeds.Conference.Drain.Participants
use seeds.Conference.Drain.Playback as PlaybackDrain

module _ {b : Facts} {q : List ConferenceEvent} (x : External) where
  pub announce-Quiet :
      (words : String) (ns : List String) → Keeps (Quiet b q) (Status.announce x words ns)
  unfolding Status.announce
  announce-Quiet words [] = search quiet_rules
  announce-Quiet words (n ∷ ns) = search quiet_rules

  pub hold_detected-Quiet :
      (phone : String) → Keeps (Quiet b q) (Status.hold_detected_event x phone)
  unfolding Status.hold_detected_event
  hold_detected-Quiet phone = search quiet_rules depth 14

  toggle_content-Quiet :
      (st : ContentStatus) (phone : String) → Keeps (Quiet b q) (Dtmf.toggle_content x st phone)
  unfolding Dtmf.toggle_content
  toggle_content-Quiet playing phone = PlaybackDrain.pause_content-Quiet x _
  toggle_content-Quiet starting phone = PlaybackDrain.pause_content-Quiet x _
  toggle_content-Quiet paused phone = PlaybackDrain.resume_content-Quiet x _
  toggle_content-Quiet stopped phone = search quiet_rules

  leader_digit-Quiet : (digit phone : String) → Keeps (Quiet b q) (Dtmf.leader_digit x digit phone)
  unfolding Dtmf.leader_digit
  leader_digit-Quiet digit phone =
      search
        (
          quiet_rules,
          Participants.mute_all-Quiet x,
          Participants.unmute_all-Quiet x,
          toggle_content-Quiet,
          PlaybackDrain.seek_content-Quiet x,
          PlaybackDrain.build_and_set_speed-Quiet x,
        )
        depth 14

  raise_hand-Quiet :
      (phone : String) (p : Participant) → Keeps (Quiet b q) (Dtmf.raise_hand x phone p)
  unfolding Dtmf.raise_hand
  raise_hand-Quiet phone p = search quiet_rules depth 14

  pub dtmf_input-Quiet :
      (phone digit : String) → Keeps (Quiet b q) (Dtmf.dtmf_input_event x phone digit)
  unfolding Dtmf.dtmf_input_event Dtmf.pressed
  dtmf_input-Quiet phone digit = search (quiet_rules, raise_hand-Quiet, leader_digit-Quiet) depth 14
