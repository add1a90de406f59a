-- ===== src/Ivr/Quiz/Cases.antt =====
-- The theorems on the builder of a quiz, at a quiz of one question below the first state of a machine.
use seeds.Base.{ℕ, String, ◌≡◌, refl, true, Option, none, some, List, [], ◌∷◌, eqb, if◌then◌else◌}
use seeds.Dict.{get, contains}
use seeds.Ivr.Machine.{Fsm, State}
use seeds.Ivr.Samples.{linked}
use seeds.Ivr.Quiz.{QuizOption, QuizQuestion, QuizData, correct_text, generate_states, initial_id}
use seeds.Ivr.Quiz.OneQuestion.{generate_states-one_question}

abbrev digit : ℕ → String
digit n = if eqb n 2 then "2" else "1"

abbrev question : QuizQuestion
question = record {
  url = "q";
  options =
      record { id = "a"; url = "u"; text = "yes" }
      ∷ record { id = "b"; url = "v"; text = "no" }
      ∷ [];
  correct_option_id = "b";
}

abbrev quiz : QuizData
quiz = record {
  id = "z";
  title = "Sums";
  positive_marks = 5;
  negative_marks = 1;
  questions = question ∷ [];
}

-- what it is built into
abbrev built : Option Fsm
built = generate_states digit quiz "LA0Op1" "LA0" 2 1 linked

abbrev result : Fsm
result = elim built [ none ↦ linked | some m ↦ m ]

built-result : built ≡ some result
unfolding generate_states seeds.Ivr.Quiz.run_steps seeds.Ivr.Quiz.quiz_steps seeds.Ivr.Quiz.run_step
    seeds.Ivr.Machine.add_state get seeds.Base.String-discrete seeds.Ivr.Machine.add_transition
    seeds.Dict.insert seeds.Ivr.Machine.add_from seeds.Ivr.Machine.add_to_state
    seeds.Ivr.Quiz.all_questions seeds.Ivr.Quiz.question_steps correct_text
    seeds.Ivr.Quiz.option_states seeds.Ivr.Quiz.option_links seeds.Ivr.Quiz.forward
    seeds.Ivr.Quiz.forward_links seeds.Ivr.Quiz.option_ids seeds.Ivr.Quiz.option_streams
built-result = refl

generate_states-one_question_example :
    (st : State) × (get (initial_id digit quiz "LA0Op1") result.states ≡ some st)
    × (st.transition_map ≡ [])
unfolding correct_text seeds.Base.String-discrete get
generate_states-one_question_example =
    generate_states-one_question digit quiz "LA0Op1" "LA0" question "no" 2 1 linked result refl refl
      built-result
