-- ===== src/Ivr/Service/Calls/Starting.antt =====
-- A call that is started is stored, in the first state of the machine.
use seeds.Base.{
  List, ◌∷◌, ◌≢◌, ap, subst, ◌∙◌, String, ◌≡◌, refl, Bool, true, false, Option, none, some,
  if◌then◌else◌, arith,
}
use seeds.Act.{done, pure, reading}
use seeds.Act.Yields.{
  Yields, After, Yields-pure, Yields-reading, Yields-maybe, Yields-bind, Yields-any, Yields-weaken,
  Yields-reading_at, Yields-from, Yields-both, Yields-catch, After-answer, Yields-kept, Anyhow,
  Yields-done,
}
use seeds.Act.Keeps.{Keeps, Keeps-catch, Keeps-bind, Keeps-pure}
use seeds.Ivr.Model.{Ncco, IvrCallState}
use seeds.Ivr.Machine.{Action, Fsm, get_start_fsm_actions}
use seeds.Ivr.Accumulator.{combine}
use seeds.Ivr.Collection.{Collection}
use seeds.Ivr.Service.{
  Request, create_call, write_call, Surroundings, Service, Carried, carried, failed, cut_off, db,
  delivered, disturbed, now,
}
use seeds.Ivr.Service.Calls.{
  Answers, Started, in_progress, limit_reached, no_machine, call_failed, no_response, started_call,
  initial_call, known_machine, store_call, make_call, fetch, call_with, start_with, start_new,
  tell_limit, start_call_flow,
}

module _ {C : Type 0} (col : Collection C IvrCallState) (x : Surroundings C) (a : Answers)
    (phone_number tenant_id : String) where
  open col use {find_one, find-replace_one}

  -- the last request before was to call the number, and the telephone service answered with these names
  abbrev IsNamed : List Ncco → String × String → List Request → Type 0
  IsNamed ncco ids calls =
      (before : List Request) × (calls ≡ create_call phone_number ncco ∷ before)
      × (a.created before ≡ done (some ids))

  -- what a caller is told at the beginning
  abbrev welcome : List Action → List Ncco
  welcome actions = combine x.get_url_with_sas x.settings.base_url actions

  -- the document of a new call, as it is stored: the last requests are the one that makes the call
  -- and the one that stores it, under the leg of the answer to the first, at the time between them
  pub record IsStarted (s : Service C) : Type 0 where
    pub machine : Fsm
    pub actions : List Action
    pub ids : String × String
    pub asked : List Request
    pub known : known_machine s.latest_fsm_id s.fsm_cache ≡ some machine
    pub begun : get_start_fsm_actions machine ≡ some actions
    pub named : IsNamed (welcome actions) ids asked
    pub last : s.calls ≡ write_call ∷ asked
    pub found :
        find_one ids.1 s.ongoing
        ≡ some (initial_call phone_number tenant_id (x.clock asked) machine ids)

  -- what the answer that a call is started says
  abbrev Says : Started → Service C → Type 0
  Says r s = r ≡ started_call → IsStarted s

  -- the service would start a call with this machine
  abbrev IsLatest : Fsm → Service C → Type 0
  IsLatest m s = known_machine s.latest_fsm_id s.fsm_cache ≡ some m

  delivered-IsStarted :
      (m : Fsm) (actions : List Action) (ids : String × String) (r : Carried) (s : Service C)
      → get_start_fsm_actions m ≡ some actions
      → IsLatest m s
      → IsNamed (welcome actions) ids s.calls
      → let n =
          delivered {A = Unit {0}}
            (λ c.
              (tt, col.replace_one ids.1 (initial_call phone_number tenant_id (now x s) m ids) c))
            r
            (disturbed x write_call s) in
        After (λ u. IsStarted) n.0 n.1
  unfolding delivered
  delivered-IsStarted m actions ids carried s e h named = record {
    machine = m;
    actions = actions;
    ids = ids;
    asked = s.calls;
    known = h;
    begun = e;
    named = named;
    last = refl;
    found = ground (
      arith,
      find-replace_one ids.1 ids.1 (initial_call phone_number tenant_id (now x s) m ids)
          (x.meanwhile s.calls s.ongoing),
    );
  }
  delivered-IsStarted m actions ids (failed b e) s q h named = tt
  delivered-IsStarted m actions ids (cut_off b) s q h named = tt

  Yields-store_call :
      (m : Fsm) (actions : List Action) (ids : String × String)
      → get_start_fsm_actions m ≡ some actions
      → Yields
          (λ s. IsLatest m s × IsNamed (welcome actions) ids s.calls)
          Says
          (store_call col x a phone_number tenant_id m ids)
  unfolding store_call db reading
  Yields-store_call m actions ids e =
      Yields-bind {M = λ u. IsStarted} _ _
        (record {
          yields =
              λ s (h, n). delivered-IsStarted m actions ids (x.carries s.calls write_call) s e h n;
        })
        (λ u. Yields-pure started_call (λ s h e. h))

  -- any other answer
  Yields-other : {P : Service C → Type 0} (r : Started) → r ≢ started_call → Yields P Says (pure r)
  Yields-other r n = Yields-pure r (λ s u e. absurd (n e))

  IsLatest-make_call :
      (m : Fsm) (p : String) (ncco : List Ncco) → Keeps (IsLatest m) (make_call col x a p ncco)
  unfolding make_call fetch
  IsLatest-make_call m p ncco =
      Keeps-catch _ _ (Keeps-bind _ _ (record { after = λ s h. h }) (λ r. Keeps-pure _))
        (λ e. Keeps-pure _)

  -- the names that came, if any did
  abbrev Told : List Ncco → Option (String × String) → Service C → Type 0
  Told ncco none s = Unit
  Told ncco (some ids) s = IsNamed ncco ids s.calls

  abbrev Heard : List Ncco → Option (Option (String × String)) → Service C → Type 0
  Heard ncco none s = Unit
  Heard ncco (some o) s = Told ncco o s

  told :
      (ncco : List Ncco) (o : Option (String × String)) (s : Service C)
      → a.created s.calls ≡ done o
      → Told ncco o (disturbed x (create_call phone_number ncco) s)
  told ncco none s e = tt
  told ncco (some ids) s e = (s.calls, refl, e)

  Heard-make_call :
      (ncco : List Ncco) → Yields Anyhow (Heard ncco) (make_call col x a phone_number ncco)
  unfolding make_call fetch
  Heard-make_call ncco =
      Yields-catch _ _
        (Yields-bind {M = Told ncco} _ _
          (record { yields = λ s u. After-answer _ (a.created s.calls) _ (λ o e. told ncco o s e) })
          (λ o. Yields-pure (some o) (λ s h. h)))
        (λ e. Yields-pure none (λ s u. tt))

  Yields-start_with :
      (m : Fsm) → Yields (IsLatest m) Says (start_with col x a phone_number tenant_id m)
  unfolding start_with call_with
  Yields-start_with m =
      Yields-maybe (get_start_fsm_actions m) _ _ (λ e. record { yields = λ s u. tt })
        (λ actions e.
          Yields-bind _ _
            (Yields-both _ (Yields-kept _ (IsLatest-make_call m phone_number (welcome actions)))
              (Yields-weaken _ (Heard-make_call (welcome actions))))
            (λ r.
              Yields-maybe r _ _ (λ p. Yields-other call_failed (λ q. cc q))
                (λ response p.
                  Yields-maybe response _ _ (λ q. Yields-other no_response (λ z. cc z))
                    (λ ids q.
                      Yields-from _
                        (λ s (h, n).
                          (h, subst (λ o. Heard (welcome actions) o s) (p ∙ ap some q) n))
                        (Yields-store_call m actions ids e)))))

  Yields-start_new : Yields Anyhow Says (start_new col x a phone_number tenant_id)
  unfolding start_new
  Yields-start_new = Yields-bind _ _ (Yields-any _) (λ v. Yields-reading_at _ (λ t u.
      Yields-maybe _ _ _ (λ q. Yields-other no_machine (λ z. cc z))
        (λ m q.
          Yields-from _ (λ s e. ap (λ o. known_machine o.latest_fsm_id o.fsm_cache) e ∙ q)
            (Yields-start_with m))))

  Yields-limited :
      (reached : Bool)
      → Yields Anyhow Says (
          if reached
          then tell_limit col x a phone_number
          else start_new col x a phone_number tenant_id)
  unfolding tell_limit
  Yields-limited true = Yields-bind _ _ (Yields-any _) (λ r. Yields-other limit_reached (λ q. cc q))
  Yields-limited false = Yields-start_new

  Yields-start_call_flow : Yields Anyhow Says (start_call_flow col x a phone_number tenant_id)
  unfolding start_call_flow
  Yields-start_call_flow = Yields-reading _ (λ s. Yields-bind _ _ (Yields-any _) (λ u.
      Yields-bind _ _ (Yields-any _) (λ ongoing.
        Yields-maybe ongoing _ _
          (λ p.
            Yields-bind _ _ (Yields-any _) (λ reached. Yields-weaken _ (Yields-limited reached)))
          (λ d p. Yields-other in_progress (λ q. cc q)))))

  -- Where starting a call answers that the call is started, the last two requests of the run are the
  -- one to the telephone service that makes the call, which tells the caller how the latest machine
  -- begins, and the one that stores the document. It stands among the calls that go on, under the leg
  -- that the telephone service answered, with the conversation that it answered: in the first state of
  -- the latest machine, in version 0, with no key pressed, and with this number and tenant.
  pub start_call_flow-stored :
      (s : Service C)
      → (start_call_flow col x a phone_number tenant_id s).0 ≡ done started_call
      → IsStarted (start_call_flow col x a phone_number tenant_id s).1
  start_call_flow-stored s e =
      Yields-done (start_call_flow col x a phone_number tenant_id) Yields-start_call_flow s
        started_call tt e refl
