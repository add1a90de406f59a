-- ===== src/Conference/Examples.antt =====
-- The theorems on conferences at a small lesson: a teacher and two students.
use seeds.Base.{◌≡◌, refl, true, false, List, [], ◌∷◌, arith}
use seeds.Conference.Model.{connected}
use seeds.Conference.Call
use seeds.Conference.Call.{
  is_queue_processing, ConferenceCall, absent, running, set_participant_state,
}
use seeds.Conference.Events.{Moment, arrives, turn, live, process_turns, run_head}
use seeds.Conference.Samples.{world, broken, lesson_state, lesson}
use seeds.Conference.Validity.{IsValid}
use seeds.Conference.Validity.Queue.{live-IsValid}
use seeds.Conference.Drain.Turns.{process_turns-drains, live-ended}

lesson-IsValid : IsValid lesson_state
lesson-IsValid = record { entries = ((refl, refl), ((refl, refl), tt)); timer = tt }

abbrev moments : List Moment
moments = arrives (Call.dtmf_input "s1" "0") ∷ turn ∷ arrives Call.end_conference ∷ turn ∷ []

live-IsValid_example : IsValid (live world 3 moments lesson).state
live-IsValid_example = live-IsValid world 3 moments lesson lesson-IsValid

abbrev busy : ConferenceCall
busy = record lesson {
  event_queue = Call.end_conference ∷ Call.call_status_change "s1" connected ∷ [];
}

process_turns-drains_example :
    ((process_turns broken 3 3 busy).event_queue ≡ [])
    × (is_queue_processing (process_turns broken 3 3 busy) ≡ true)
unfolding is_queue_processing
process_turns-drains_example = process_turns-drains broken 3 3 busy refl refl (omega arith)

live-ended_example :
    (live broken 3 moments (run_head broken 3 busy.event_queue busy)).state.is_running ≡ false
live-ended_example =
    live-ended broken 3 (Call.call_status_change "s1" connected ∷ []) moments busy refl
