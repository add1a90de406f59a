-- ===== src/Ivr/Service/Dtmf.antt =====
-- A key press in a call: `process_dtmf` and the look-ups with several attempts of
-- platform/app/services/ivr_service.py. The keys are the list of their characters.
use seeds.Base.{
  ℕ, zero, suc, String, ◌==◌, Bool, true, false, not, ◌&&◌, ◌||◌, Option, none, some, List, [], ◌∷◌,
  ◌++◌, eqb, if◌then◌else◌, format,
}
use seeds.Dict.{get, insert}
use seeds.Act.{
  Reply, done, raised, cancelled, Act, pure, raise, value_error, gets, reading, catch, ◌>>=◌, ◌>>◌,
  maybe,
}
use seeds.Ivr.Model.{
  IvrCallState, Ncco, announcement_ncco, input_ncco, text, number, flag, Arg, PendingDtmf,
}
use seeds.Ivr.Machine.{Action, talk, Fsm, Session, State}
use seeds.Ivr.Fsm.{get_next_actions, any_connect}
use seeds.Ivr.Speed.{increase_speed, decrease_speed}
use seeds.Ivr.Accumulator.{combine, any_input}
use seeds.Ivr.Collection.{Collection}
use seeds.Ivr.Repository.{
  find_ongoing_call, find_by_conversation_uuid, save_ongoing_call, set_dtmf_waiting,
  peek_dtmf_result, pop_dtmf_result, is_answer,
}
use seeds.Ivr.Service.{
  Request, read_call, write_call, set_playback_speed, pause_audio, resume_audio, sleep,
  Surroundings, Service, db, ask, now,
}

-- the keys are this one
abbrev pub is_key : String → List String → Bool
is_key k (c ∷ []) = c == k
is_key k _ = false

abbrev pub is_empty : List String → Bool
is_empty [] = true
is_empty _ = false

-- `any(isinstance(a, VonageConnectAction) for a in current_state.actions)`
abbrev pub is_streaming : Option State → Bool
is_streaming none = false
is_streaming (some st) = any_connect st.actions

abbrev pub speed_of : IvrCallState → ℕ
speed_of d = elim d.playback_speed [ none ↦ 100 | some n ↦ n ]

abbrev pub paused_of : IvrCallState → Bool
paused_of d = elim d.is_paused [ none ↦ false | some b ↦ b ]

abbrev pub language_of : String → Option State → String
language_of default none = default
language_of default (some st) = elim st.menu [
  | none ↦ default
  | some menu ↦ elim menu.language [ none ↦ default | some language ↦ language ]
]

-- What a run of the machine leaves.
pub record Pressed : Type 0 where
  pub next_actions : List Action
  pub fsm : Fsm
  pub doc : IvrCallState

abbrev pub pressed : String → ℕ → IvrCallState → List Action × String → Session → Pressed
pressed key time before r s = record {
  next_actions = r.0;
  fsm = s.fsm;
  doc = record s.doc {
    current_state_id = r.1;
    user_actions =
        s.doc.user_actions
        ++ (record {
          key_pressed = if key == "" then "empty" else key;
          timestamp = time;
          pre_state_id = before.current_state_id;
          post_state_id = r.1;
        }
            ∷ []);
  };
}

abbrev pub reply_with :
    Reply (List Action × String) → (List Action × String → Pressed) → Reply Pressed
reply_with (done r) f = done (f r)
reply_with (raised e) f = raised e
reply_with cancelled f = cancelled

abbrev pub is_readable : Option Arg → Bool
is_readable none = true
is_readable (some (text s)) = true
is_readable (some (number n)) = false
is_readable (some (flag b)) = false

-- `from_mongo(doc) if doc else None`; the `ValidationError` is a `ValueError`
unfoldable pub from_mongo {ℓ} : {S : Type ℓ} → Option IvrCallState → Act S (Option IvrCallState)
from_mongo none = pure none
from_mongo (some d) = if is_readable d.duration then pure (some d) else raise value_error

module _ {C : Type 0} (col : Collection C IvrCallState) (x : Surroundings C) where
  -- `attempts` reads, with a wait between
  unfoldable pub attempt {ℓ} :
      {A : Type ℓ} → (C → Option A × C) → Request → ℕ → ℕ → Act (Service C) (Option A)
  attempt f r delay zero = pure none
  attempt f r delay (suc n) =
      let rest = attempt f r delay n in
      db x r f >>= λ found.
      maybe found (if eqb n 0 then pure none else ask x (sleep delay) >> rest) λ a. pure (some a)

  -- the first document that is found is read, or refused
  unfoldable pub find_call : String → ℕ → ℕ → Act (Service C) (Option IvrCallState)
  find_call k delay n =
      attempt (λ c. (find_ongoing_call col k c, c)) read_call delay n >>= from_mongo

  unfoldable pub save_call : IvrCallState → Act (Service C) (Bool × IvrCallState)
  save_call d = reading λ s. db x write_call (save_ongoing_call col (now x s) d)

  -- what is answered if the document could be saved, and nothing where the write is stale
  unfoldable pub save_then :
      IvrCallState → List Ncco → Bool → Act (Service C) (Option (List Ncco) × Bool)
  save_then d ncco should_hangup =
      save_call d >>= λ r. if r.0 then pure (some ncco, should_hangup) else pure (none, false)

  abbrev pub combined : List Action → List Ncco
  combined = combine x.get_url_with_sas x.settings.base_url

  abbrev pub error_ncco : List Ncco
  error_ncco = combined (talk "Server error. Please try again later. Bye bye." [] ∷ [])

  abbrev pub keep_listening : List Ncco
  keep_listening =
      input_ncco ("dtmf" ∷ []) (format (x.settings.base_url ∷ "/input" ∷ []))
        (some (number 1, flag false, number 10))
      ∷ []

  -- `#` is faster, `*` slower; where the socket fails, the speed stays
  unfoldable pub change_speed :
      String → List String → IvrCallState → Act (Service C) (Option (List Ncco) × Bool)
  change_speed k digits d = do
    let current = speed_of d
    let wanted =
        if is_key "#" digits then (increase_speed current).0 else (decrease_speed current).0
    speed ← catch (ask x (set_playback_speed k wanted) >> pure wanted) (λ e. pure current)
    save_then (record d { playback_speed = some speed }) keep_listening false

  abbrev pub pause_request : Bool → String → Request
  pause_request true k = pause_audio k
  pause_request false k = resume_audio k

  abbrev pub pause_announcement : Bool → String → String
  pause_announcement true language = x.paused_announcement language
  pause_announcement false language = x.resuming_announcement language

  unfoldable pub toggle_pause :
      String → Option State → IvrCallState → Act (Service C) (Option (List Ncco) × Bool)
  toggle_pause k st d = do
    let new_pause = not (paused_of d)
    let language = language_of x.settings.default_welcome_language st
    reached ← catch (ask x (pause_request new_pause k) >> pure true) (λ e. pure false)
    (if reached
        then save_then (record d { is_paused = some new_pause })
            (announcement_ncco (pause_announcement new_pause language)
                (x.vonage_language_code language)
              ∷ keep_listening)
            false
        else pure (some keep_listening, false))

  -- One key for the machine, which is shared: what the machine changes in itself stays in the cache.
  unfoldable pub press : String → ℕ → Fsm → IvrCallState → Act (Service C) Pressed
  press key time m d s =
      let (r, session) =
        get_next_actions x.machine key (record { fsm = m; doc = d; calls = s.machine_calls }) in
      (
        reply_with r (λ a. pressed key time d a session),
        record s {
          machine_calls = session.calls;
          fsm_cache = insert d.fsm_id session.fsm s.fsm_cache;
        },
      )

  unfoldable pub press_all : List String → ℕ → Pressed → Act (Service C) Pressed
  press_all [] time p = pure p
  press_all (key ∷ keys) time p = press key time p.fsm p.doc >>= λ q. press_all keys time q

  unfoldable pub press_keys : List String → ℕ → Fsm → IvrCallState → Act (Service C) Pressed
  press_keys [] time m d = press "" time m d
  press_keys (key ∷ keys) time m d =
      press_all (key ∷ keys) time (record { next_actions = []; fsm = m; doc = d })

  unfoldable pub advance :
      List String → Fsm → IvrCallState → Act (Service C) (Option (List Ncco) × Bool)
  advance digits m d = do
    time ← gets (now x)
    p ← press_keys digits time m d
    save_then p.doc (combined p.next_actions) (not (any_input p.next_actions))

  -- the document and its machine are known
  unfoldable pub process_keys :
      String → List String → Bool → IvrCallState → Fsm → Act (Service C) (Option (List Ncco) × Bool)
  process_keys k digits timed_out d m =
      let st = get d.current_state_id m.states in
      if is_empty digits && timed_out && is_streaming st
      then pure (some keep_listening, false)
      else if (is_key "*" digits || is_key "#" digits) && is_streaming st
      then change_speed k digits d
      else if is_key "0" digits && is_streaming st
      then toggle_pause k st d
      else advance digits m d

  unfoldable pub process_dtmf :
      String → List String → Bool → Act (Service C) (Option (List Ncco) × Bool)
  process_dtmf call_leg_id digits timed_out = find_call call_leg_id 500 3 >>= λ found.
      maybe found (pure (some error_ncco, true)) λ d. reading λ s.
        maybe (get d.fsm_id s.fsm_cache) (pure (some error_ncco, true))
          (process_keys call_leg_id digits timed_out d)

  unfoldable pub resolve_call_leg_id : String → Act (Service C) (Option String)
  resolve_call_leg_id conversation_uuid =
      attempt (λ c. (find_by_conversation_uuid col conversation_uuid c, c)) read_call 1000 5
      >>= from_mongo
      >>= λ found. maybe found (pure none) λ d. pure (some d.id)

  -- five attempts to announce a key press
  unfoldable pub announce : ℕ → String → String → Act (Service C) Bool
  announce zero call_leg_id message_id = pure false
  announce (suc n) call_leg_id message_id =
      let rest = announce n call_leg_id message_id in
      (reading λ s. db x write_call (set_dtmf_waiting col (now x s) call_leg_id message_id))
      >>= λ set.
          if set then pure true else if eqb n 0 then pure false else ask x (sleep 1000) >> rest

  unfoldable pub take_result : String → String → Act (Service C) (Option PendingDtmf)
  take_result call_leg_id message_id =
      reading λ s. db x write_call (pop_dtmf_result col (now x s) call_leg_id message_id)

  abbrev pub has_answer : Option PendingDtmf → Bool
  has_answer none = false
  has_answer (some marker) = is_answer marker

  -- `wait_for_dtmf_result`; the number is how often the loop finds that the deadline has not passed
  unfoldable pub wait_for_dtmf_result : ℕ → String → String → Act (Service C) (Option PendingDtmf)
  wait_for_dtmf_result zero call_leg_id message_id = take_result call_leg_id message_id
  wait_for_dtmf_result (suc n) call_leg_id message_id =
      let rest = wait_for_dtmf_result n call_leg_id message_id in
      db x read_call (λ c. (peek_dtmf_result col call_leg_id message_id c, c)) >>= λ marker.
      if has_answer marker then take_result call_leg_id message_id else ask x (sleep 200) >> rest
