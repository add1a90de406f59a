-- ===== src/Ivr/Examples.antt =====
-- The theorems on the machine of an interactive call, at a machine of two states.
use seeds.Base.{
  text_ne, ℕ, ℤ, pos, String, ◌≡◌, refl, Bool, true, false, Option, none, some, List, [], ◌∷◌, ◌+◌,
  ◌/◌, ◌≤◌, ◌<◌, ◌*◌, ◌⊎◌, arith,
}
use seeds.Dict.{get, contains}
use seeds.Act.{done, raised}
use seeds.Ivr.Machine.{talk, State, LimitCheck, IvrCallState, Session, quiz_final}
use seeds.Ivr.Fsm.{
  final_score, used_of, execute_operation, execute_output, check_limit, get_next_actions,
}
use seeds.Ivr.Samples.{world, menu, bare, linked, caller, session}
use seeds.Ivr.Machine.WellFormed.{IsWellFormed}
use seeds.Ivr.Fsm.Step.{get_next_actions-known}
use seeds.Ivr.Fsm.Quiz.{execute_output-accumulates}

linked-IsWellFormed : IsWellFormed linked
unfolding get seeds.Base.String-discrete
linked-IsWellFormed = record { nodes = ((refl, ((refl, refl), tt)), ((refl, tt), tt)) }

get_next_actions-known_example : contains "story" session.fsm.states ≡ true
unfolding get_next_actions seeds.Act.reading seeds.Act.maybe get seeds.Base.String-discrete
    seeds.Ivr.Fsm.follow seeds.Act.◌>>=◌ seeds.Act.when execute_operation seeds.Ivr.Fsm.enter
    seeds.Ivr.Fsm.check_daily_limit check_limit seeds.Ivr.Fsm.find_usage_of
    seeds.Ivr.Fsm.apply_limit seeds.Ivr.Fsm.over_limit seeds.Ivr.Fsm.perform execute_output
    seeds.Act.catch seeds.Act.gets seeds.Act.pure seeds.Act.raise seeds.Act.write seeds.Base.◌+ℤ◌
    seeds.Dict.insert seeds.Ivr.Fsm.any_connect seeds.Ivr.Fsm.is_connect
    seeds.Ivr.Fsm.limit_announcement seeds.Ivr.Fsm.output_actions seeds.Ivr.Fsm.prepare_action
    seeds.Ivr.Fsm.prepare_actions_for_call seeds.Ivr.Fsm.put_actions seeds.Ivr.Fsm.refuse_input
    seeds.Ivr.Fsm.set_actions
get_next_actions-known_example =
    get_next_actions-known world "1" session (talk "welcome" [] ∷ [], "story") linked-IsWellFormed
      refl

abbrev short_story : LimitCheck
short_story = record { duration_ms = 90500; language = "en"; school_id = "school" }

abbrev scored : ℤ → IvrCallState
scored n = record caller { quiz_score = some n }

abbrev last : State
last = record menu { id = "last"; process_output = quiz_final }

abbrev quiz : Session
quiz = record {
  fsm = record bare { states = ("last", last) ∷ [] };
  doc = scored (pos 2);
  calls = [];
}

execute_output-accumulates_example :
    (st : State) × (get "last" (execute_output world quiz_final last quiz).1.fsm.states ≡ some st)
    × ((execute_output world quiz_final st
          (record (execute_output world quiz_final last quiz).1 { doc = scored (pos 5) })).0
        ≡ done (talk "welcome" [] ∷ talk (final_score "2") [] ∷ talk (final_score "2") [] ∷ []))
unfolding get seeds.Base.String-discrete
execute_output-accumulates_example =
    execute_output-accumulates world last (talk "welcome" []) [] (pos 2) (pos 5) quiz
      (scored (pos 5)) refl refl refl refl
