-- ===== src/Ivr/Fsm/Document.antt =====
-- A step of the machine writes to the document of the call only what its operations are about: the
-- score and the check of the daily limit.
use seeds.Base.{String, ◌≡◌, refl, Option, none, some, List, [], ◌∷◌, ◌∙◌}
use seeds.Dict.{get}
use seeds.Act.{write}
use seeds.Act.Keeps.{Keeps, keeps_rules}
use seeds.Ivr.Model.{IvrCallState}
use seeds.Ivr.Machine.{
  Action, Transition, State, Session, External, Operation, empty_state, quiz_init, quiz_pre,
  quiz_post, daily_limit, Output, empty_output, quiz_final, Effect,
}
use seeds.Ivr.Fsm.{
  execute_operation, execute_output, output_actions, set_actions, put_actions, find_usage_of,
  perform, apply_limit, check_limit, check_daily_limit, enter, follow, get_next_actions,
}

abbrev unscored : IvrCallState → IvrCallState
unscored d = record d { quiz_score = none; daily_limit_check = none }

-- The document of a session is this one, but for the score and the check.
pub record IsOf (d : IvrCallState) (s : Session) : Type 0 where
  pub same : unscored s.doc ≡ unscored d

module _ (d : IvrCallState) where
  IsOf-write :
      (f : Session → Session)
      → ((s : Session) → unscored (f s).doc ≡ unscored s.doc)
      → Keeps (IsOf d) (write f)
  unfolding write
  IsOf-write f e = record { after = λ s h. record { same = e s ∙ h.same } }

  same_doc : (s : Session) → unscored s.doc ≡ unscored s.doc
  same_doc s = refl

  put_actions-doc :
      (k : String) (actions : List Action) (s : Session) (o : Option State)
      → (put_actions k actions s o).doc ≡ s.doc
  unfolding put_actions
  put_actions-doc k actions s none = refl
  put_actions-doc k actions s (some st) = refl

  IsOf-set_actions :
      (k : String) (actions : List Action) → Keeps (IsOf d) (write (set_actions k actions))
  unfolding set_actions
  IsOf-set_actions k actions =
      IsOf-write (set_actions k actions)
        (λ s i. unscored (put_actions-doc k actions s (get k s.fsm.states) i))

  module _ (x : External) where
    IsOf-find_usage_of : (p : String) → Keeps (IsOf d) (find_usage_of x p)
    unfolding find_usage_of
    IsOf-find_usage_of p = record { after = λ s h. record { same = h.same } }

    IsOf-perform : (e : Effect) → Keeps (IsOf d) (perform x e)
    unfolding perform
    IsOf-perform e = record { after = λ s h. record { same = h.same } }

    IsOf-execute_operation : (o : Operation) → Keeps (IsOf d) (execute_operation o)
    unfolding execute_operation
    IsOf-execute_operation empty_state = search keeps_rules
    IsOf-execute_operation quiz_init = search (keeps_rules, IsOf-write, same_doc)
    IsOf-execute_operation quiz_pre = search keeps_rules
    IsOf-execute_operation (quiz_post score) = search (keeps_rules, IsOf-write, same_doc)
    IsOf-execute_operation (daily_limit t l k) = search (keeps_rules, IsOf-write, same_doc)

    IsOf-output_actions :
        (st : State) (score : Action) (actions : List Action)
        → Keeps (IsOf d) (output_actions st score actions)
    unfolding output_actions
    IsOf-output_actions st score [] = search keeps_rules
    IsOf-output_actions st score (a ∷ rest) = search (keeps_rules, IsOf-set_actions)

    IsOf-execute_output : (o : Output) (st : State) → Keeps (IsOf d) (execute_output x o st)
    unfolding execute_output
    IsOf-execute_output empty_output st = search keeps_rules
    IsOf-execute_output quiz_final st = search (keeps_rules, IsOf-output_actions)

    IsOf-check_daily_limit : Keeps (IsOf d) (check_daily_limit x)
    unfolding check_daily_limit check_limit apply_limit
    IsOf-check_daily_limit =
        search (keeps_rules, IsOf-write, same_doc, IsOf-find_usage_of, IsOf-perform) depth 14

    IsOf-enter : (t : Transition) → Keeps (IsOf d) (enter x t)
    unfolding enter
    IsOf-enter t =
        search (keeps_rules, IsOf-execute_operation, IsOf-execute_output, IsOf-check_daily_limit)
          depth 14

    -- A step leaves the document of the call as it was, but for the score and the check.
    pub IsOf-get_next_actions : (i : String) → Keeps (IsOf d) (get_next_actions x i)
    unfolding get_next_actions follow
    IsOf-get_next_actions i =
        search (keeps_rules, IsOf-execute_operation, IsOf-perform, IsOf-enter) depth 14
