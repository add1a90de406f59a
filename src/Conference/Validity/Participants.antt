-- ===== src/Conference/Validity/Participants.antt =====
-- Adding, removing, muting and unmuting participants keeps the state valid.
use seeds.Base.{String, Bool, Option, List, [], ◌∷◌}
use seeds.Act.Keeps.{Keeps}
use seeds.Conference.Model.{Participant}
use seeds.Conference.World.{External}
use seeds.Conference.Call.Keeps.{Holds}
use seeds.Conference.Events.Participants
use seeds.Conference.Validity.{IsValid, valid_rules}

module _ (x : External) where
  pub mute_participant-IsValid :
      (phone : String) (stream : Bool)
      → Keeps (Holds IsValid) (Participants.mute_participant_event x phone stream)
  unfolding Participants.mute_participant_event
  mute_participant-IsValid phone stream = search valid_rules depth 14

  pub unmute_participant-IsValid :
      (phone : String) (stream : Bool)
      → Keeps (Holds IsValid) (Participants.unmute_participant_event x phone stream)
  unfolding Participants.unmute_participant_event
  unmute_participant-IsValid phone stream = search valid_rules depth 14

  pub add_participant-IsValid :
      (phone : String) (name : Option String)
      → Keeps (Holds IsValid) (Participants.add_participant_event x phone name)
  unfolding Participants.add_participant_event Participants.dial_new Participants.dial_again
  add_participant-IsValid phone name = search valid_rules depth 14

  pub remove_known-IsValid :
      (phone : String) (p : Participant) (ns : List String)
      → Keeps (Holds IsValid) (Participants.remove_known x phone p ns)
  unfolding Participants.remove_known
  remove_known-IsValid phone p [] = search valid_rules depth 14
  remove_known-IsValid phone p (n ∷ ns) = search valid_rules depth 14

  pub remove_participant-IsValid :
      (phone : String) → Keeps (Holds IsValid) (Participants.remove_participant_event x phone)
  unfolding Participants.remove_participant_event
  remove_participant-IsValid phone = search (valid_rules, remove_known-IsValid) depth 14

  pub mute_student-IsValid :
      (phone : String) → Keeps (Holds IsValid) (Participants.mute_student x phone)
  unfolding Participants.mute_student
  mute_student-IsValid phone = search (valid_rules, mute_participant-IsValid)

  pub unmute_student-IsValid :
      (phone : String) → Keeps (Holds IsValid) (Participants.unmute_student x phone)
  unfolding Participants.unmute_student
  unmute_student-IsValid phone = search (valid_rules, unmute_participant-IsValid)

  pub mute_all-IsValid :
      (stream : Bool) (by : Option String)
      → Keeps (Holds IsValid) (Participants.mute_all_event x stream by)
  unfolding Participants.mute_all_event
  mute_all-IsValid stream by = search (valid_rules, mute_student-IsValid) depth 14

  pub unmute_all-IsValid :
      (stream : Bool) (by : Option String)
      → Keeps (Holds IsValid) (Participants.unmute_all_event x stream by)
  unfolding Participants.unmute_all_event
  unmute_all-IsValid stream by = search (valid_rules, unmute_student-IsValid) depth 14
