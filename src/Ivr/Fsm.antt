-- ===== src/Ivr/Fsm.antt =====
-- The steps of a machine: `get_next_actions` of platform/app/services/fsm/fsm.py, and what the
-- operations (platform/app/services/fsm/operations) do.
pub mod Step
pub mod Limit
pub mod Document
pub mod Quiz
use seeds.Base.{
  ℕ, ◌+◌, ◌*◌, ◌/◌, ltb, leb, ℤ, pos, ◌+ℤ◌, String, ◌==◌, Bool, true, false, ◌||◌, Option, none,
  some, List, [], ◌∷◌, ◌++◌, truthy, format, if◌then◌else◌,
}
use seeds.Dict.{Dict, get, contains, insert}
use seeds.Ivr.Machine.{
  Action, Arg, Effect, External, Fsm, IvrCallState, LimitCheck, Operation, Output, Session, State,
  Transition, add_from, add_state, add_to_state, add_transition, add_usage, connect, daily_limit,
  empty_output, empty_state, find_usage, flag, get_start_fsm_actions, input, new_fsm, no_option_url,
  number, quiz_final, quiz_init, quiz_post, quiz_pre, set_init_state_id, stop_audio,
  storage_account_base_url, stream, talk, text, wrong_input_url,
}
use seeds.Act.{
  Reply, Act, pure, raise, value_error, key_error, index_error, gets, reading, catch, write, ◌>>=◌,
  ◌>>◌, when, maybe,
}

-- `FSMOperation.execute`
unfoldable pub execute_operation : Operation → Act Session (Unit {0})
execute_operation empty_state = pure tt
execute_operation quiz_init =
    write λ s. record s { doc = record s.doc { quiz_score = some (pos 0) } }
execute_operation quiz_pre = pure tt
execute_operation (quiz_post score) = reading λ s.
    maybe s.doc.quiz_score (raise key_error) λ current.
      write λ s'. record s' { doc = record s'.doc { quiz_score = some (current +ℤ score) } }
execute_operation (daily_limit duration language school) = write λ s. record s {
  doc = record s.doc {
    daily_limit_check =
        some (record { duration_ms = duration; language = language; school_id = school });
  };
}

-- a write to the actions of a state of the machine
unfoldable pub put_actions : String → List Action → Session → Option State → Session
put_actions k actions s none = s
put_actions k actions s (some st) = record s {
  fsm = record s.fsm { states = insert k (record st { actions = actions }) s.fsm.states };
}

unfoldable pub set_actions : String → List Action → Session → Session
set_actions k actions s = put_actions k actions s (get k s.fsm.states)

unfoldable pub is_connect : Action → Bool
is_connect (connect u c h) = true
is_connect _ = false

-- `any(isinstance(a, VonageConnectAction) for a in actions)`
unfoldable pub any_connect : List Action → Bool
any_connect [] = false
any_connect (a ∷ rest) = is_connect a || any_connect rest

abbrev pub final_score : String → String
final_score score = format ("Your final score is " ∷ score ∷ "." ∷ [])

-- the first action, the score, and the others: the state keeps them
unfoldable pub output_actions : State → Action → List Action → Act Session (List Action)
output_actions st score [] = raise index_error
output_actions st score (a ∷ rest) =
    write (set_actions st.id (a ∷ score ∷ rest)) >> pure (a ∷ score ∷ rest)

-- `input_` with "" read as "empty"
abbrev pub key_of : String → String
key_of input_ = if input_ == "" then "empty" else input_

-- the seconds used so far; none where there is no entry for today
abbrev pub used_of : Option ℕ → ℕ
used_of none = 0
used_of (some n) = n

module _ (x : External) where
  -- `ProcessOperationOutput.execute`; the final state of a quiz keeps the score in its actions
  unfoldable pub execute_output : Output → State → Act Session (List Action)
  execute_output empty_output st = pure st.actions
  execute_output quiz_final st = reading λ s.
      maybe s.doc.quiz_score (raise key_error)
        λ current. output_actions st (talk (final_score (x.show current)) []) st.actions

  unfoldable pub prepare_action : String → Action → Action
  prepare_action call_id (connect uri content_type headers) =
      if truthy uri
      then connect (x.set_query_id uri call_id) content_type headers
      else connect uri content_type headers
  prepare_action call_id a = a

  -- `_prepare_actions_for_call`
  unfoldable pub prepare_actions_for_call : List Action → String → List Action
  prepare_actions_for_call [] call_id = []
  prepare_actions_for_call (a ∷ rest) call_id =
      prepare_action call_id a ∷ prepare_actions_for_call rest call_id

  unfoldable pub limit_announcement : String → Action
  limit_announcement language = talk (x.announcement language) (
      ("level", number 1)
      ∷ ("bargeIn", flag false)
      ∷ ("loop", number 1)
      ∷ ("language", text (x.language_code language))
      ∷ [])

  unfoldable pub find_usage_of : String → Act Session (Option ℕ)
  find_usage_of phone s = (x.usage s.calls phone, record s { calls = find_usage phone ∷ s.calls })

  unfoldable pub perform : Effect → Act Session (Unit {0})
  perform e s = (x.outcome s.calls e, record s { calls = e ∷ s.calls })

  -- `current_usage + duration > limit or current_usage >= limit`
  unfoldable pub over_limit : ℕ → ℕ → Bool
  over_limit used duration_ms =
      ltb (x.ivr_daily_listening_limit_seconds * 1000) (used * 1000 + duration_ms)
      || leb x.ivr_daily_listening_limit_seconds used

  -- from the entry that was found
  unfoldable pub apply_limit :
      LimitCheck → IvrCallState → Option ℕ → Act Session (Option (List Action))
  apply_limit check doc found =
      if over_limit (used_of found) check.duration_ms
      then pure (some (limit_announcement check.language ∷ []))
      else perform
          (add_usage doc.phone_number (check.duration_ms / 1000) doc.tenant_id check.school_id)
        >> pure none

  unfoldable pub check_limit : LimitCheck → Act Session (Option (List Action))
  check_limit check = do
    write λ s. record s { doc = record s.doc { daily_limit_check = none } }
    doc ← gets (λ s. s.doc)
    found ← find_usage_of doc.phone_number
    apply_limit check doc found

  -- `_check_daily_limit`: the actions to play instead, where the limit is exceeded
  unfoldable pub check_daily_limit : Act Session (Option (List Action))
  check_daily_limit = reading λ s. maybe s.doc.daily_limit_check (pure none) check_limit

  -- an input that the state does not take
  unfoldable pub refuse_input : String → State → Fsm → IvrCallState → List Action
  refuse_input input_ st m doc =
      if input_ == "empty"
      then (if any_connect st.actions
          then input ("dtmf" ∷ []) "/input" (("timeOut", number 10) ∷ []) ∷ []
          else prepare_actions_for_call (m.empty_input_error_actions ++ st.actions) doc.id)
      else prepare_actions_for_call (m.invalid_input_error_actions ++ st.actions) doc.id

  unfoldable pub enter : Transition → Act Session (List Action × String)
  enter t = do
    m ← gets (λ s. s.fsm)
    maybe (get t.dest_state_id m.states) (raise key_error) λ dest. do
      execute_operation dest.pre_operation
      exceeded ← check_daily_limit
      maybe exceeded
          (do
            actions ← execute_output dest.process_output dest
            doc ← gets (λ s. s.doc)
            pure (prepare_actions_for_call (t.actions ++ actions) doc.id, t.dest_state_id))
          (λ limit_actions. do
            doc ← gets (λ s. s.doc)
            pure (prepare_actions_for_call limit_actions doc.id, t.dest_state_id))

  unfoldable pub follow : String → State → Transition → Act Session (List Action × String)
  follow input_ st t = do
    when (input_ == "9") (catch (perform stop_audio) (λ e. pure tt))
    execute_operation st.post_operation
    enter t

  -- The actions to play and the next state, for a key.
  unfoldable pub get_next_actions : String → Act Session (List Action × String)
  get_next_actions input_ = reading λ s.
      maybe (get s.doc.current_state_id s.fsm.states) (raise value_error) λ st.
        maybe (get (key_of input_) st.transition_map)
          (pure (refuse_input (key_of input_) st s.fsm s.doc, s.doc.current_state_id))
          (follow (key_of input_) st)
