-- ===== src/Conference/Events/Dtmf/Leaders.antt =====
-- Whose keys do something, and which speeds the keys ask for.
use seeds.Base.{
  ℕ, ◌+◌, ◌-◌, ◌≤◌, min, max, String, ◌≡◌, refl, ◌==◌, false, not, ◌&&◌, Option, some, arith,
}
use seeds.Dict.{get}
use seeds.Act.{done, pure, reading, maybe, when}
use seeds.Conference.Model.{Participant, is_teacher_role}
use seeds.Conference.World.{External}
use seeds.Conference.Call
use seeds.Conference.Call.{ConferenceCall, ConferenceEvent}
use seeds.Conference.Events.Playback.{new_set_playback_speed}
use seeds.Conference.Events.Dtmf.{is_leader, pressed, dtmf_input_event}

pressed-ignored :
    (x : External) (phone digit : String) (p : Participant) (c : ConferenceCall)
    → is_leader phone c.state ≡ false
    → (not (is_teacher_role p.role) && digit == "0" && not p.is_raised) ≡ false
    → pressed x phone digit p c ≡ (done tt, c)
unfolding pressed reading when pure
pressed-ignored x phone digit p c l h = rw (h, l) refl

-- A key of a participant who is not the leader changes nothing and calls nothing, unless it is the 0
-- of a student whose hand is not raised.
pub dtmf_input-ignored :
    (x : External) (phone digit : String) (p : Participant) (c : ConferenceCall)
    → get phone c.state.participants ≡ some p
    → is_leader phone c.state ≡ false
    → (not (is_teacher_role p.role) && digit == "0" && not p.is_raised) ≡ false
    → dtmf_input_event x phone digit c ≡ (done tt, c)
unfolding dtmf_input_event reading maybe
dtmf_input-ignored x phone digit p c found l h = simp (found, pressed-ignored x phone digit p c l h)

-- From a speed between 0.5 and 2, both speed keys ask for a speed that the event for it takes, so
-- that no `ValueError` is raised.
pub new_set_playback_speed-keys :
    (v : ℕ) (i : Option String)
    → 50 ≤ v
    → v ≤ 200
    → (new_set_playback_speed (max 50 (v - 25)) i
        ≡ some (Call.set_playback_speed (max 50 (v - 25)) i))
      × (new_set_playback_speed (min 200 (v + 25)) i
          ≡ some (Call.set_playback_speed (min 200 (v + 25)) i))
unfolding new_set_playback_speed
new_set_playback_speed-keys v i lo hi = ground arith
