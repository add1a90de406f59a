-- ===== src/Ivr/Service/Calls.antt =====
-- The beginning of a call, and the machine that calls use: `start_call_flow`, `update_ivr_structure`,
-- `get_ivr_structure` and `_ensure_fsm_loaded` of platform/app/services/ivr_service.py.
-- What the telephone service, the table of usage, the store of machines and the builder answer are
-- parameters; the cache of machines and the name of the latest one are part of the state.
pub mod Starting
use seeds.Base.{
  ℕ, ◌+◌, ◌-◌, String, ◌==◌, Bool, true, false, not, ◌&&◌, ◌||◌, Option, none, some, List, [], ◌∷◌,
  ◌++◌, ltb, leb, truthy, is_given, if◌then◌else◌,
}
use seeds.Dict.{Dict, get, contains, insert}
use seeds.Act.{
  key_error, Act, Reply, done, raised, cancelled, pure, gets, reading, catch, write, ◌>>=◌, ◌>>◌,
  maybe, when,
}
use seeds.Ivr.Model.{IvrCallState, Ncco, hangup_ncco, text, number, flag}
use seeds.Ivr.Machine.{Action, talk, Fsm, get_start_fsm_actions}
use seeds.Ivr.Stored.{IvrFsmDoc, deserialize}
use seeds.Ivr.Collection.{Collection}
use seeds.Ivr.Accumulator.{combine}
use seeds.Ivr.Service.{
  Request, read_call, write_call, count_calls, delete_calls, create_call, load_machine,
  build_machine, save_machine, find_usage, Surroundings, Service, db, ask, disturbed, now,
}

-- The answers of the services that starting a call reads.
pub record Answers : Type 0 where
  -- the conversation and the leg of a created call; none is an empty answer
  pub created : List Request → Reply (Option (String × String))
  pub usage : List Request → Reply (Option ℕ)
  -- the newest stored machine
  pub stored : List Request → Reply (Option IvrFsmDoc)
  -- `instantiate_from_latest_content`
  pub built : List Request → Reply Fsm
  pub daily_limit_announcement : String
  pub language_code : String
  pub limit_seconds : ℕ
  pub storage_account_name : String

-- `{"status_code": ..., "message": ...}`: how starting a call ended
pub data Started : Type 0 where
  in_progress limit_reached no_machine call_failed no_response started_call : Started

abbrev pub status_code : Started → ℕ
status_code in_progress = 400
status_code limit_reached = 200
status_code no_machine = 500
status_code call_failed = 500
status_code no_response = 500
status_code started_call = 200

pub data Updated : Type 0 where
  busy_with : ℕ → Updated
  updated : String → Updated

abbrev pub is_older : ℕ → Option ℕ → Bool
is_older cutoff none = true
is_older cutoff (some t) = ltb t cutoff

-- documents of a number that nothing has touched for long, and those that go on
abbrev pub is_stale : ℕ → String → IvrCallState → Bool
is_stale cutoff phone_number d = (d.phone_number == phone_number) && is_older cutoff d.updated_at

abbrev pub is_ongoing : ℕ → String → IvrCallState → Bool
is_ongoing cutoff phone_number d =
    (d.phone_number == phone_number) && not (is_older cutoff d.updated_at)

abbrev pub is_active : ℕ → IvrCallState → Bool
is_active cutoff d = not (is_older cutoff d.updated_at)

abbrev pub initial_call : String → String → ℕ → Fsm → String × String → IvrCallState
initial_call phone_number tenant_id time m ids = record {
  id = ids.1;
  phone_number = phone_number;
  fsm_id = m.fsm_id;
  current_state_id = m.init_state_id;
  current_conversation_uuid = ids.0;
  created_at = time;
  updated_at = some time;
  stopped_at = none;
  duration = some (text "");
  user_actions = [];
  stream_playback = [];
  quiz_score = none;
  daily_limit_check = none;
  playback_speed = none;
  is_paused = none;
  call_status_updates = [];
  tenant_id = tenant_id;
  school_id = none;
  version = 0;
  pending_dtmf = none;
  last_dtmf_message_id = none;
}

abbrev pub known_machine : Option String → Dict Fsm → Option Fsm
known_machine none cache = none
known_machine (some k) cache = if truthy k then get k cache else none

module _ {C : Type 0} (col : Collection C IvrCallState) (x : Surroundings C) (a : Answers) where
  -- a request whose answer is read
  unfoldable pub fetch {ℓ} : {A : Type ℓ} → Request → (List Request → Reply A) → Act (Service C) A
  fetch r answer s = (answer s.calls, disturbed x r s)

  unfoldable pub stale_cutoff : Service C → ℕ
  stale_cutoff s = now x s - x.settings.stale_wait

  unfoldable pub put_machine : Fsm → Act (Service C) (Unit {0})
  put_machine m =
      write
        λ s. record s { fsm_cache = insert m.fsm_id m s.fsm_cache; latest_fsm_id = some m.fsm_id }

  unfoldable pub build : Act (Service C) (Unit {0})
  build = catch (fetch build_machine a.built >>= put_machine) (λ e. pure tt)

  -- the newest stored machine, where it can be read, and else a new one
  unfoldable pub ensure_fsm_loaded : Act (Service C) (Unit {0})
  ensure_fsm_loaded = reading λ s.
      maybe (known_machine s.latest_fsm_id s.fsm_cache)
        (fetch load_machine a.stored >>= λ doc.
          maybe doc build
            λ fsm_doc. maybe (deserialize a.storage_account_name fsm_doc) build put_machine)
        λ m. pure tt

  unfoldable pub usage_of : Option ℕ → ℕ
  usage_of none = 0
  usage_of (some n) = n

  abbrev pub limit_ncco : List Ncco
  limit_ncco =
      combine x.get_url_with_sas x.settings.base_url (
        talk a.daily_limit_announcement (
          ("level", number 1)
          ∷ ("bargeIn", flag false)
          ∷ ("loop", number 1)
          ∷ ("language", text a.language_code)
          ∷ [])
        ∷ [])
      ++ hangup_ncco ∷ []

  -- whether the caller has listened for as long as is allowed today
  unfoldable pub limit_is_reached : String → Act (Service C) Bool
  limit_is_reached phone_number =
      if ltb 0 a.limit_seconds
      then (fetch (find_usage phone_number) a.usage >>= λ used.
          pure (leb a.limit_seconds (usage_of used)))
      else pure false

  unfoldable pub store_call : String → String → Fsm → String × String → Act (Service C) Started
  store_call phone_number tenant_id m ids =
      (reading λ s.
        db {A = Unit {0}} x write_call (λ c.
          (tt, col.replace_one ids.1 (initial_call phone_number tenant_id (now x s) m ids) c)))
      >> pure started_call

  -- `except Exception`, and an empty answer
  unfoldable pub make_call :
      String → List Ncco → Act (Service C) (Option (Option (String × String)))
  make_call phone_number ncco =
      catch (fetch (create_call phone_number ncco) a.created >>= λ r. pure (some r))
        (λ e. pure none)

  unfoldable pub call_with : String → String → Fsm → List Action → Act (Service C) Started
  call_with phone_number tenant_id m actions =
      make_call phone_number (combine x.get_url_with_sas x.settings.base_url actions) >>= λ r.
      maybe r (pure call_failed)
        λ response. maybe response (pure no_response) (store_call phone_number tenant_id m)

  -- the KeyError of a machine without its first state
  unfoldable pub start_with : String → String → Fsm → Act (Service C) Started
  start_with phone_number tenant_id m =
      maybe (get_start_fsm_actions m) (λ s. (raised key_error, s))
        (call_with phone_number tenant_id m)

  unfoldable pub start_new : String → String → Act (Service C) Started
  start_new phone_number tenant_id = do
    ensure_fsm_loaded
    reading λ s.
        maybe (known_machine s.latest_fsm_id s.fsm_cache) (pure no_machine)
          (start_with phone_number tenant_id)

  -- the caller is told of the limit; a failure of this call is not caught
  unfoldable pub tell_limit : String → Act (Service C) Started
  tell_limit phone_number =
      fetch (create_call phone_number limit_ncco) a.created >>= λ r. pure limit_reached

  unfoldable pub start_call_flow : String → String → Act (Service C) Started
  start_call_flow phone_number tenant_id = reading λ s. do
    let cutoff = stale_cutoff s
    db {A = Unit {0}} x delete_calls (λ c. (tt, col.delete_many (is_stale cutoff phone_number) c))
    ongoing ← db x read_call (λ c. (col.find_where (is_ongoing cutoff phone_number) c, c))
    maybe ongoing
        (limit_is_reached phone_number >>= λ reached.
          if reached then tell_limit phone_number else start_new phone_number tenant_id)
        λ d. pure in_progress

  unfoldable pub update_ivr_structure : Act (Service C) Updated
  update_ivr_structure = reading λ s.
      let cutoff = stale_cutoff s in
      db x count_calls (λ c. (col.count (is_active cutoff) c, c)) >>= λ n.
      if ltb 0 n
      then pure (busy_with n)
      else fetch build_machine a.built >>= λ m.
          put_machine m >> (ask x (save_machine m.fsm_id) >> pure (updated m.fsm_id))

  unfoldable pub get_ivr_structure : Act (Service C) (Option Fsm)
  get_ivr_structure = reading λ s.
      if is_given s.latest_fsm_id
      then pure (known_machine s.latest_fsm_id s.fsm_cache)
      else ensure_fsm_loaded >> (gets λ t. known_machine t.latest_fsm_id t.fsm_cache)
