-- ===== src/Ivr/Quiz.antt =====
-- The builder of a quiz, platform/app/services/fsm/instantiation/quiz.py: the states and transitions
-- that it adds to a machine, as the list of its calls in their order. Marks are whole numbers, and
-- `str` of a number is a parameter.
pub mod Cases
pub mod OneQuestion
pub mod Steps
use seeds.Base.{
  ℕ, zero, suc, ◌+◌, ◌-◌, ℤ, pos, negsuc, String, ◌==◌, Bool, true, false, Option, none, some, List,
  [], ◌∷◌, ◌++◌, length, format, chain, eqb, if◌then◌else◌,
}
use seeds.Ivr.Machine.{
  Action, stream, talk, input, Transition, State, Menu, Fsm, Operation, empty_state, quiz_init,
  quiz_post, Output, empty_output, quiz_final, add_state, add_transition,
}

pub record QuizOption : Type 0 where
  pub id : String
  pub url : String
  pub text : String

pub record QuizQuestion : Type 0 where
  pub url : String
  pub options : List QuizOption
  pub correct_option_id : String

pub record QuizData : Type 0 where
  pub id : String
  pub title : String
  pub positive_marks : ℕ
  pub negative_marks : ℕ
  pub questions : List QuizQuestion

-- `fsm.add_state(State(...))` with the id, the actions, the operation after the state, the one that
-- makes its actions, and the menu; `fsm.add_transition(Transition(...))`; and a ValueError
pub data Step : Type 0 where
  put : String → List Action → Operation → Output → Option Menu → Step
  link : String → String → String → Step
  refuse : Step

unfoldable pub run_step : Step → Fsm → Option Fsm
run_step (put id actions post output menu) m =
    add_state
      (record {
        id = id;
        actions = actions;
        transition_map = [];
        post_operation = post;
        pre_operation = empty_state;
        process_output = output;
        menu = menu;
      })
      m
run_step (link key source dest) m =
    add_transition
      (record { input = key; source_state_id = source; dest_state_id = dest; actions = [] }) m
run_step refuse m = none

unfoldable pub run_steps : List Step → Fsm → Option Fsm
run_steps [] m = some m
run_steps (s ∷ rest) m = chain (run_step s m) (λ m'. run_steps rest m')

abbrev pub minus : ℕ → ℤ
minus n = if eqb n 0 then pos 0 else negsuc (n - 1)

abbrev pub input_action : Action
input_action = input ("dtmf" ∷ []) "/input" []

-- the text of the option that is right
unfoldable pub correct_text : String → List QuizOption → Option String
correct_text correct [] = none
correct_text correct (o ∷ rest) = if o.id == correct then some o.text else correct_text correct rest

module _ (show : ℕ → String) (quiz : QuizData) (prefix : String) where
  abbrev pub initial_id : String
  initial_id = format (prefix ∷ "_QuizStart" ∷ [])

  abbrev pub final_id : String
  final_id = format (prefix ∷ "_" ∷ quiz.id ∷ "_final_state" ∷ [])

  abbrev pub question_id : ℕ → String
  question_id index = format (prefix ∷ "_Question" ∷ show (index + 1) ∷ [])

  abbrev pub option_name : ℕ → ℕ → String
  option_name index option = format ("Q" ∷ show (index + 1) ∷ "-O" ∷ show (option + 1) ∷ [])

  -- the id of the state for an option, which tells whether the option is right
  abbrev pub option_id : Bool → ℕ → ℕ → String
  option_id true index option = format (prefix ∷ "_correct_state_" ∷ option_name index option ∷ [])
  option_id false index option =
      format (prefix ∷ "_incorrect_state_" ∷ option_name index option ∷ [])

  -- `get_correct_option_state`, `get_incorrect_option_state`
  abbrev pub option_state : Bool → String → ℕ → ℕ → Step
  option_state true correct index option =
      put (option_id true index option)
        (talk "Congratulations! You have selected the correct option." []
          ∷ talk "You have earned 5 points." []
          ∷ talk "Press 1 to continue to the next question." []
          ∷ input_action
          ∷ [])
        (quiz_post (pos quiz.positive_marks)) empty_output none
  option_state false correct index option =
      put (option_id false index option)
        (talk "Sorry, that is incorrect." []
          ∷ talk (format ("The correct option is " ∷ correct ∷ "." ∷ [])) []
          ∷ talk "Press 1 to continue to the next question." []
          ∷ input_action
          ∷ [])
        (quiz_post (minus quiz.negative_marks)) empty_output none

  -- the states of the options, the transitions to them, their recordings and their ids
  unfoldable pub option_states : QuizQuestion → String → ℕ → ℕ → List QuizOption → List Step
  option_states q correct index option [] = []
  option_states q correct index option (o ∷ rest) =
      option_state (o.id == q.correct_option_id) correct index option
      ∷ option_states q correct index (suc option) rest

  unfoldable pub option_links : QuizQuestion → ℕ → ℕ → List QuizOption → List Step
  option_links q index option [] = []
  option_links q index option (o ∷ rest) =
      link (show (option + 1)) (question_id index)
        (option_id (o.id == q.correct_option_id) index option)
      ∷ option_links q index (suc option) rest

  unfoldable pub option_ids : QuizQuestion → ℕ → ℕ → List QuizOption → List String
  option_ids q index option [] = []
  option_ids q index option (o ∷ rest) =
      option_id (o.id == q.correct_option_id) index option ∷ option_ids q index (suc option) rest

  unfoldable pub option_streams : List QuizOption → List Action
  option_streams [] =
      talk "Please select an option." []
      ∷ talk "To replay the question, press 8." []
      ∷ input_action
      ∷ []
  option_streams (o ∷ rest) = stream o.url false [] ∷ option_streams rest

  unfoldable pub question_steps : ℕ → QuizQuestion → List Step
  question_steps index q = elim (correct_text q.correct_option_id q.options) [
    | none ↦ refuse ∷ []
    | some correct ↦
        option_states q correct index 0 q.options
        ++ put (question_id index) (stream q.url false [] ∷ option_streams q.options) empty_state
            empty_output none
          ∷ link "8" (question_id index) (question_id index)
          ∷ option_links q index 0 q.options
  ]

  unfoldable pub all_questions : ℕ → List QuizQuestion → List Step
  all_questions index [] = []
  all_questions index (q ∷ rest) = question_steps index q ++ all_questions (suc index) rest

  unfoldable pub forward_links : String → List String → List Step
  forward_links dest [] = []
  forward_links dest (id ∷ rest) = link "1" id dest ∷ forward_links dest rest

  -- from the states of the options to the next question, and from those of the last to the end; the
  -- way to the first question is made only where another one follows it
  unfoldable pub forward : ℕ → List QuizQuestion → List Step
  forward index [] = []
  forward index (q ∷ []) = forward_links final_id (option_ids q index 0 q.options)
  forward index (q ∷ r ∷ rest) =
      (if eqb index 0 then link "1" initial_id (question_id index) ∷ [] else [])
      ++ forward_links (question_id (suc index)) (option_ids q index 0 q.options)
      ++ forward (suc index) (r ∷ rest)

  -- `get_initial_state`
  abbrev pub welcome : List Action
  welcome =
      talk (format ("Welcome to the " ∷ quiz.title ∷ " quiz!" ∷ [])) []
      ∷ talk "Let's get started!" []
      ∷ talk "Press 1 to start the quiz." []
      ∷ input_action
      ∷ []

  abbrev pub welcome_menu : ℕ → Menu
  welcome_menu level = record {
    description = format (quiz.title ∷ " welcome state" ∷ []);
    options = ("1", "Start Quiz") ∷ [];
    level = level;
    language = none;
  }

  -- `Quiz.generate_states`
  unfoldable pub quiz_steps : String → ℕ → ℕ → List Step
  quiz_steps parent key_chosen level =
      put initial_id welcome quiz_init empty_output (some (welcome_menu level))
      ∷ link (show key_chosen) parent initial_id
      ∷ (all_questions 0 quiz.questions
          ++ (put final_id
                (talk "Congratulations! You have completed the quiz." []
                  ∷ talk "Press 1 to exit the quiz." []
                  ∷ input_action
                  ∷ [])
                empty_state quiz_final none
              ∷ (forward 0 quiz.questions ++ link "1" final_id parent ∷ [])))

  unfoldable pub generate_states : String → ℕ → ℕ → Fsm → Option Fsm
  generate_states parent key_chosen level m = run_steps (quiz_steps parent key_chosen level) m
