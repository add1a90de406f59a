-- ===== src/Ivr/Quiz/OneQuestion.antt =====
-- A quiz of one question cannot be entered: no key leads from its beginning to the question.
use seeds.Base.{
  ℕ, suc, String, ◌≡◌, ◌≢◌, refl, true, false, none, some, List, [], ◌∷◌, ◌++◌, All, All-split,
  OnSome, OnSome-some, ◌∙◌, ap, subst, ◌==◌, Bool-cases, inl, inr,
}
use seeds.Dict.{get, contains}
use seeds.Ivr.Machine.{talk, stream, empty_output, empty_state, quiz_final, quiz_init, State, Fsm}
use seeds.Ivr.Quiz.{
  input_action, Step, put, link, run_steps, QuizOption, QuizQuestion, QuizData, correct_text,
  initial_id, final_id, question_id, option_id, option_states, option_links, option_ids,
  option_streams, question_steps, all_questions, forward_links, forward, quiz_steps,
  generate_states, welcome, welcome_menu,
}
use seeds.Ivr.Quiz.Steps.{
  puts, LinksFrom, LinksFrom-append, puts-append, Stays, fresh, put-link-Stays,
}

module _ (show : ℕ → String) (quiz : QuizData) (prefix : String) (P : String → Type 0) where
  puts-option_states :
      (q : QuizQuestion) (c : String) (i j : ℕ) (os : List QuizOption)
      → puts (option_states show quiz prefix q c i j os) ≡ option_ids show quiz prefix q i j os
  unfolding option_states option_ids
  puts-option_states q c i j [] = refl
  puts-option_states q c i j (o ∷ os) = elim (Bool-cases (o.id == q.correct_option_id)) [
    | inl e ↦
        rw e
          (ap (λ l. option_id show quiz prefix true i j ∷ l) (puts-option_states q c i (suc j) os))
    | inr e ↦
        rw e
          (ap (λ l. option_id show quiz prefix false i j ∷ l) (puts-option_states q c i (suc j) os))
  ]

  option_states-LinksFrom :
      (q : QuizQuestion) (c : String) (i j : ℕ) (os : List QuizOption)
      → LinksFrom P (option_states show quiz prefix q c i j os)
  unfolding option_states
  option_states-LinksFrom q c i j [] = tt
  option_states-LinksFrom q c i j (o ∷ os) = elim (Bool-cases (o.id == q.correct_option_id)) [
    | inl e ↦ rw e (option_states-LinksFrom q c i (suc j) os)
    | inr e ↦ rw e (option_states-LinksFrom q c i (suc j) os)
  ]

  option_links-LinksFrom :
      (q : QuizQuestion) (i j : ℕ) (os : List QuizOption)
      → P (question_id show quiz prefix i)
      → LinksFrom P (option_links show quiz prefix q i j os)
  unfolding option_links
  option_links-LinksFrom q i j [] h = tt
  option_links-LinksFrom q i j (o ∷ os) h = (h, option_links-LinksFrom q i (suc j) os h)

  forward_links-LinksFrom :
      (dest : String) (ids : List String)
      → All P ids
      → LinksFrom P (forward_links show quiz prefix dest ids)
  unfolding forward_links
  forward_links-LinksFrom dest [] h = tt
  forward_links-LinksFrom dest (id ∷ ids) h = (h.0, forward_links-LinksFrom dest ids h.1)

  -- the steps of a question whose right option is among its options
  abbrev body : QuizQuestion → String → ℕ → List Step
  body q c i =
      option_states show quiz prefix q c i 0 q.options
      ++ put (question_id show quiz prefix i)
          (stream q.url false [] ∷ option_streams show quiz prefix q.options) empty_state
          empty_output none
        ∷ link "8" (question_id show quiz prefix i) (question_id show quiz prefix i)
        ∷ option_links show quiz prefix q i 0 q.options

  question_steps-known :
      (q : QuizQuestion) (c : String) (i : ℕ)
      → correct_text q.correct_option_id q.options ≡ some c
      → question_steps show quiz prefix i q ≡ body q c i
  unfolding question_steps
  question_steps-known q c i h = rw (question_steps, h) refl

  body-puts :
      (q : QuizQuestion) (c : String) (i : ℕ)
      → puts (body q c i)
        ≡ option_ids show quiz prefix q i 0 q.options
          ++ question_id show quiz prefix i ∷ puts (option_links show quiz prefix q i 0 q.options)
  body-puts q c i =
      puts-append (option_states show quiz prefix q c i 0 q.options) _
      ∙ ap
          (λ l.
            l
            ++ question_id show quiz prefix i
              ∷ puts (option_links show quiz prefix q i 0 q.options))
          (puts-option_states q c i 0 q.options)

  body-LinksFrom :
      (q : QuizQuestion) (c : String) (i : ℕ)
      → P (question_id show quiz prefix i)
      → LinksFrom P (body q c i)
  body-LinksFrom q c i p =
      LinksFrom-append P (option_states show quiz prefix q c i 0 q.options) _
        (option_states-LinksFrom q c i 0 q.options) (p, option_links-LinksFrom q i 0 q.options p)

-- what follows the questions
abbrev ending : (ℕ → String) → QuizData → String → QuizQuestion → String → List Step
ending show quiz prefix q parent =
    put (final_id show quiz prefix)
      (talk "Congratulations! You have completed the quiz." []
        ∷ talk "Press 1 to exit the quiz." []
        ∷ input_action
        ∷ [])
      empty_state quiz_final none
    ∷ (forward_links show quiz prefix (final_id show quiz prefix)
          (option_ids show quiz prefix q 0 0 q.options)
        ++ link "1" (final_id show quiz prefix) parent ∷ [])

abbrev later : (ℕ → String) → QuizData → String → QuizQuestion → String → List Step → List Step
later show quiz prefix q parent Q = (Q ++ []) ++ ending show quiz prefix q parent

later-LinksFrom :
    (show : ℕ → String) (quiz : QuizData) (prefix : String) (q : QuizQuestion) (c parent : String)
    (P : String → Type 0)
    → All P (puts (later show quiz prefix q parent (body show quiz prefix P q c 0)))
    → P parent
    → LinksFrom P (later show quiz prefix q parent (body show quiz prefix P q c 0))
later-LinksFrom show quiz prefix q c parent P all own =
    let Q : List Step = body show quiz prefix P q c 0 in
    let ids : List String = option_ids show quiz prefix q 0 0 q.options in
    let rest : List Step = ending show quiz prefix q parent in
    let (a, b) =
      All-split P (puts (Q ++ [])) (puts rest) (subst (All P) (puts-append (Q ++ []) rest) all) in
    let (d, e) = All-split P (puts Q) [] (subst (All P) (puts-append Q []) a) in
    let (f, g) = All-split P ids _ (subst (All P) (body-puts show quiz prefix P q c 0) d) in
    LinksFrom-append P (Q ++ []) rest
      (LinksFrom-append P Q [] (body-LinksFrom show quiz prefix P q c 0 g.0) tt)
      (LinksFrom-append P (forward_links show quiz prefix (final_id show quiz prefix) ids) _
        (forward_links-LinksFrom show quiz prefix P (final_id show quiz prefix) ids f) (b.0, tt))

-- A quiz of one question whose right option is among its options, built below a known state: no key
-- leads on from the beginning of the quiz.
pub generate_states-one_question :
    (show : ℕ → String) (quiz : QuizData) (prefix parent : String) (q : QuizQuestion) (c : String)
    (key level : ℕ) (m m' : Fsm)
    → correct_text q.correct_option_id q.options ≡ some c
    → contains parent m.states ≡ true
    → generate_states show (record quiz { questions = q ∷ [] }) prefix parent key level m ≡ some m'
    → (st : State) × (get (initial_id show quiz prefix) m'.states ≡ some st)
      × (st.transition_map ≡ [])
unfolding generate_states quiz_steps run_steps all_questions forward
generate_states-one_question show quiz prefix parent q c key level m m' h known built =
    let one : QuizData = record quiz { questions = q ∷ [] } in
    let k : String = initial_id show one prefix in
    let st : State =
      fresh k (welcome show one prefix) quiz_init empty_output
        (some (welcome_menu show one prefix level)) in
    let stays : OnSome (Stays k st) (generate_states show one prefix parent key level m) =
      rw (question_steps-known show one prefix (λ s. s ≢ k) q c 0 h) (
        put-link-Stays k (welcome show one prefix) quiz_init empty_output
          (some (welcome_menu show one prefix level)) parent (show key)
          (later show one prefix q parent (body show one prefix (λ s. s ≢ k) q c 0)) m known
          (λ all ne. later-LinksFrom show one prefix q c parent (λ s. s ≢ k) all ne)) in
    (st, OnSome-some (Stays k st) _ m' built stays, refl)
