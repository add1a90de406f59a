-- ===== src/Conference/Drain/Participants.antt =====
-- Adding, removing, muting and unmuting participants adds no event and leaves the conference running or not.
use seeds.Base.{String, Bool, Option, List, [], ◌∷◌}
use seeds.Act.Keeps.{Keeps}
use seeds.Conference.Model.{Participant}
use seeds.Conference.World.{External}
use seeds.Conference.Call.{ConferenceEvent}
use seeds.Conference.Events.Participants
use seeds.Conference.Drain.{Facts, Quiet, quiet_rules}

module _ {b : Facts} {q : List ConferenceEvent} (x : External) where
  pub mute_participant-Quiet :
      (phone : String) (stream : Bool)
      → Keeps (Quiet b q) (Participants.mute_participant_event x phone stream)
  unfolding Participants.mute_participant_event
  mute_participant-Quiet phone stream = search quiet_rules depth 14

  pub unmute_participant-Quiet :
      (phone : String) (stream : Bool)
      → Keeps (Quiet b q) (Participants.unmute_participant_event x phone stream)
  unfolding Participants.unmute_participant_event
  unmute_participant-Quiet phone stream = search quiet_rules depth 14

  pub add_participant-Quiet :
      (phone : String) (name : Option String)
      → Keeps (Quiet b q) (Participants.add_participant_event x phone name)
  unfolding Participants.add_participant_event Participants.dial_new Participants.dial_again
  add_participant-Quiet phone name = search quiet_rules depth 14

  pub remove_known-Quiet :
      (phone : String) (p : Participant) (ns : List String)
      → Keeps (Quiet b q) (Participants.remove_known x phone p ns)
  unfolding Participants.remove_known
  remove_known-Quiet phone p [] = search quiet_rules depth 14
  remove_known-Quiet phone p (n ∷ ns) = search quiet_rules depth 14

  pub remove_participant-Quiet :
      (phone : String) → Keeps (Quiet b q) (Participants.remove_participant_event x phone)
  unfolding Participants.remove_participant_event
  remove_participant-Quiet phone = search (quiet_rules, remove_known-Quiet) depth 14

  pub mute_student-Quiet : (phone : String) → Keeps (Quiet b q) (Participants.mute_student x phone)
  unfolding Participants.mute_student
  mute_student-Quiet phone = search (quiet_rules, mute_participant-Quiet)

  pub unmute_student-Quiet :
      (phone : String) → Keeps (Quiet b q) (Participants.unmute_student x phone)
  unfolding Participants.unmute_student
  unmute_student-Quiet phone = search (quiet_rules, unmute_participant-Quiet)

  pub mute_all-Quiet :
      (stream : Bool) (by : Option String)
      → Keeps (Quiet b q) (Participants.mute_all_event x stream by)
  unfolding Participants.mute_all_event
  mute_all-Quiet stream by = search (quiet_rules, mute_student-Quiet) depth 14

  pub unmute_all-Quiet :
      (stream : Bool) (by : Option String)
      → Keeps (Quiet b q) (Participants.unmute_all_event x stream by)
  unfolding Participants.unmute_all_event
  unmute_all-Quiet stream by = search (quiet_rules, unmute_student-Quiet) depth 14
