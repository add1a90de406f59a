-- ===== src/Ivr/Fsm/Quiz.antt =====
-- The score of a quiz, and what its last state plays.
use seeds.Base.{◌≡◌, refl, ℤ, some, List, [], ◌∷◌, pos, ◌+ℤ◌}
use seeds.Dict.{get, get-insert_self}
use seeds.Act.{done, maybe, write, pure, ◌>>=◌, Act}
use seeds.Ivr.Machine.{
  Action, talk, State, IvrCallState, Session, External, quiz_init, quiz_post, quiz_final,
}
use seeds.Ivr.Fsm.{
  final_score, execute_operation, execute_output, output_actions, set_actions, put_actions,
}

-- the operations of several states, one after the other
abbrev pub answers : List ℤ → Act Session (Unit {0})
answers [] = pure tt
answers (score ∷ scores) = execute_operation (quiz_post score) >>= λ u. answers scores

abbrev pub sum_from : ℤ → List ℤ → ℤ
sum_from total [] = total
sum_from total (score ∷ scores) = sum_from (total +ℤ score) scores

-- no answer raises, and each adds to the score
answers-score :
    (scores : List ℤ) (n : ℤ) (s : Session)
    → s.doc.quiz_score ≡ some n
    → ((answers scores s).0 ≡ done tt)
      × ((answers scores s).1.doc.quiz_score ≡ some (sum_from n scores))
unfolding execute_operation ◌>>=◌ maybe
answers-score [] n s h = (refl, h)
answers-score (score ∷ scores) n s h = rw h (
    answers-score scores (n +ℤ score)
      (record s { doc = record s.doc { quiz_score = some (n +ℤ score) } }) refl)

-- A quiz that is entered anew starts at 0, and after any answers the score is what they add up to, in
-- their order; no answer raises.
pub quiz-score :
    (scores : List ℤ) (s : Session)
    → ((answers scores (execute_operation quiz_init s).1).0 ≡ done tt)
      × ((answers scores (execute_operation quiz_init s).1).1.doc.quiz_score
          ≡ some (sum_from (pos 0) scores))
unfolding execute_operation write
quiz-score scores s =
    answers-score scores (pos 0) (record s { doc = record s.doc { quiz_score = some (pos 0) } })
      refl

module _ (x : External) where
  -- the state that the machine holds after the last state of a quiz has been entered
  execute_output-keeps_score :
      (st : State) (a : Action) (rest : List Action) (n : ℤ) (s : Session)
      → get st.id s.fsm.states ≡ some st
      → st.actions ≡ a ∷ rest
      → s.doc.quiz_score ≡ some n
      → (get st.id (execute_output x quiz_final st s).1.fsm.states
          ≡ some (record st { actions = a ∷ talk (final_score (x.show n)) [] ∷ rest }))
        × ((execute_output x quiz_final st s).0
            ≡ done (a ∷ talk (final_score (x.show n)) [] ∷ rest))
  unfolding execute_output output_actions set_actions put_actions ◌>>=◌ maybe
  execute_output-keeps_score st a rest n s found actions score =
      rw (score, actions, found) (get-insert_self st.id _ s.fsm.states, refl)

  -- A caller who reaches the last state of a quiz after another has reached it hears both scores, the
  -- own and the other's: the machine, which all callers share, keeps the announcement of a score in
  -- the state. Conditions: the machine holds the state, the state has an action, and both callers
  -- have a score.
  pub execute_output-accumulates :
      (st : State) (a : Action) (rest : List Action) (n m : ℤ) (s : Session) (doc : IvrCallState)
      → get st.id s.fsm.states ≡ some st
      → st.actions ≡ a ∷ rest
      → s.doc.quiz_score ≡ some n
      → doc.quiz_score ≡ some m
      → (st' : State) × (get st.id (execute_output x quiz_final st s).1.fsm.states ≡ some st')
        × ((execute_output x quiz_final st'
              (record (execute_output x quiz_final st s).1 { doc = doc })).0
            ≡ done (a ∷ talk (final_score (x.show m)) [] ∷ talk (final_score (x.show n)) [] ∷ rest))
  execute_output-accumulates st a rest n m s doc found actions score score' =
      let first = execute_output-keeps_score st a rest n s found actions score in
      let st' : State = record st { actions = a ∷ talk (final_score (x.show n)) [] ∷ rest } in
      (
        st',
        first.0,
        (execute_output-keeps_score st' a (talk (final_score (x.show n)) [] ∷ rest) m
            (record (execute_output x quiz_final st s).1 { doc = doc }) first.0 refl score').1,
      )
