-- ===== src/Ivr/Fsm/Step.antt =====
-- A step of the machine leads to a state of the machine, and keeps the machine well formed.
use seeds.Base.{String, ◌≡◌, refl, true, Option, none, some, List, [], ◌∷◌, is_some, subst, sym, ap}
use seeds.Dict.{Dict, get, contains, All-get}
use seeds.Act.{done, pure, reading, maybe, write}
use seeds.Act.Keeps.{Keeps, keeps_rules}
use seeds.Act.Returns.{
  OnDone-done, Returns, Returns-pure, Returns-raise, Returns-bind, Returns-maybe,
}
use seeds.Ivr.Machine.{
  Action, Transition, State, Session, External, Operation, empty_state, quiz_init, quiz_pre,
  quiz_post, daily_limit, Output, empty_output, quiz_final, Effect,
}
use seeds.Ivr.Fsm.{
  execute_operation, execute_output, output_actions, set_actions, put_actions, find_usage_of,
  perform, apply_limit, check_limit, check_daily_limit, enter, follow, get_next_actions, key_of,
}
use seeds.Ivr.Machine.WellFormed.{IsWellFormed, IsNode, IsLink, nodes-insert, links-insert}

-- A known state's name.
abbrev Known : Dict State → List Action × String → Type 0
Known states r = contains r.1 states ≡ true

module _ (x : External) where
  enter-Known :
      (t : Transition) (states : Dict State)
      → contains t.dest_state_id states ≡ true
      → Returns (Known states) (enter x t)
  unfolding enter
  enter-Known t states known = Returns-bind _ _ (λ m.
      Returns-maybe _ _ _ (Returns-raise _) (λ dest found. Returns-bind _ _ (λ u.
        Returns-bind _ _ (λ exceeded.
          Returns-maybe _ _ _
            (Returns-bind _ _ (λ actions. Returns-bind _ _ (λ doc. Returns-pure _ known)))
            (λ limit_actions e. Returns-bind _ _ (λ doc. Returns-pure _ known))))))

  follow-Known :
      (i : String) (st : State) (t : Transition) (states : Dict State)
      → contains t.dest_state_id states ≡ true
      → Returns (Known states) (follow x i st t)
  unfolding follow
  follow-Known i st t states known =
      Returns-bind _ _ (λ u. Returns-bind _ _ (λ v. enter-Known t states known))

  -- On a well-formed machine, whatever key is pressed, the state that a step leads to is a state of
  -- the machine.
  pub get_next_actions-known :
      (i : String) (s : Session) (r : List Action × String)
      → IsWellFormed s.fsm
      → (get_next_actions x i s).0 ≡ done r
      → contains r.1 s.fsm.states ≡ true
  unfolding get_next_actions reading
  get_next_actions-known i s r w e = OnDone-done (Known s.fsm.states) _ r e (
      (Returns-maybe {Q = Known s.fsm.states} (get s.doc.current_state_id s.fsm.states) _ _
          (Returns-raise _)
          (λ st found.
            Returns-maybe (get (key_of i) st.transition_map) _ _ (Returns-pure _ (ap is_some found))
              (λ t link.
                follow-Known (key_of i) st t s.fsm.states
                  (All-get (IsLink s.fsm.states) (key_of i) t st.transition_map
                    (All-get (IsNode s.fsm.states) s.doc.current_state_id st s.fsm.states w.nodes
                      found).1
                    link).1))).gives
        s)

  -- A key that the current state does not take leaves the caller in that state, raises nothing, calls
  -- nothing outside, and changes neither the machine nor the caller's document.
  pub get_next_actions-refuses :
      (i : String) (s : Session) (st : State)
      → get s.doc.current_state_id s.fsm.states ≡ some st
      → get (key_of i) st.transition_map ≡ none
      → ((get_next_actions x i s).1 ≡ s)
        × ((actions : List Action) × ((get_next_actions x i s).0
              ≡ done (actions, s.doc.current_state_id)))
  unfolding get_next_actions reading maybe pure
  get_next_actions-refuses i s st found missing = rw (found, missing) (refl, (_, refl))

-- The machine of a session is well formed.
record Built (s : Session) : Type 0 where
  pub built : IsWellFormed s.fsm

Built-write : (f : Session → Session) → ((s : Session) → (f s).fsm ≡ s.fsm) → Keeps Built (write f)
unfolding write
Built-write f e = record {
  after = λ s h. record { built = subst IsWellFormed (sym (e s)) h.built };
}

same_fsm : (s : Session) → s.fsm ≡ s.fsm
same_fsm s = refl

put_actions-Built :
    (k : String) (actions : List Action) (s : Session) (o : Option State)
    → get k s.fsm.states ≡ o
    → Built s
    → Built (put_actions k actions s o)
unfolding put_actions
put_actions-Built k actions s none e h = h
put_actions-Built k actions s (some st) e h =
    let n : IsNode s.fsm.states (k, st) =
      All-get (IsNode s.fsm.states) k st s.fsm.states h.built.nodes e in
    record {
      built = record {
        nodes =
            nodes-insert k (record st { actions = actions }) s.fsm.states
              (
                n.0,
                links-insert k (record st { actions = actions }) s.fsm.states st.transition_map n.1,
              )
              h.built.nodes;
      };
    }

Built-set_actions :
    (k : String) (actions : List Action) → Keeps Built (write (set_actions k actions))
unfolding write set_actions
Built-set_actions k actions = record {
  after = λ s h. put_actions-Built k actions s (get k s.fsm.states) refl h;
}

ruleset built_rules = (keeps_rules, Built-write, same_fsm, Built-set_actions)

module _ (x : External) where
  Built-find_usage_of : (p : String) → Keeps Built (find_usage_of x p)
  unfolding find_usage_of
  Built-find_usage_of p = record { after = λ s h. record { built = h.built } }

  Built-perform : (e : Effect) → Keeps Built (perform x e)
  unfolding perform
  Built-perform e = record { after = λ s h. record { built = h.built } }

  Built-execute_operation : (o : Operation) → Keeps Built (execute_operation o)
  unfolding execute_operation
  Built-execute_operation empty_state = search built_rules
  Built-execute_operation quiz_init = search built_rules
  Built-execute_operation quiz_pre = search built_rules
  Built-execute_operation (quiz_post score) = search built_rules
  Built-execute_operation (daily_limit d l k) = search built_rules

  Built-output_actions :
      (st : State) (score : Action) (actions : List Action)
      → Keeps Built (output_actions st score actions)
  unfolding output_actions
  Built-output_actions st score [] = search built_rules
  Built-output_actions st score (a ∷ rest) = search built_rules

  Built-execute_output : (o : Output) (st : State) → Keeps Built (execute_output x o st)
  unfolding execute_output
  Built-execute_output empty_output st = search built_rules
  Built-execute_output quiz_final st = search (built_rules, Built-output_actions)

  Built-check_daily_limit : Keeps Built (check_daily_limit x)
  unfolding check_daily_limit check_limit apply_limit
  Built-check_daily_limit = search (built_rules, Built-find_usage_of, Built-perform) depth 14

  Built-enter : (t : Transition) → Keeps Built (enter x t)
  unfolding enter
  Built-enter t =
      search (built_rules, Built-execute_operation, Built-execute_output, Built-check_daily_limit)
        depth 14

  Built-get_next_actions : (i : String) → Keeps Built (get_next_actions x i)
  unfolding get_next_actions follow
  Built-get_next_actions i =
      search (built_rules, Built-execute_operation, Built-perform, Built-enter) depth 14

  -- A step keeps the machine well formed, whatever is answered from outside.
  pub get_next_actions-IsWellFormed :
      (i : String) (s : Session) → IsWellFormed s.fsm → IsWellFormed (get_next_actions x i s).1.fsm
  get_next_actions-IsWellFormed i s w =
      ((Built-get_next_actions i).after s (record { built = w })).built
