-- ===== src/Conference/Manager.antt =====
-- `ConferenceCallManager` of platform/app/services/conference_service.py: the registry of the
-- conferences of this process.
pub mod Registry
pub mod Starting
use seeds.Base.{
  String, Bool, true, false, Option, none, some, List, [], ◌∷◌, is_some, is_given, format,
  if◌then◌else◌,
}
use seeds.Dict.{Dict, get, insert, remove, contains, values}
use seeds.Act.{Exn, Act, pure, raise, value_error, gets, reading, catch, write, ◌>>=◌, ◌>>◌, maybe}
use seeds.Conference.Model.{
  ConferenceCallState, initial_state, conference_created, conference_start_requested,
  conference_start_failed, text, texts, given,
}
use seeds.Conference.World.{VonageParticipantInfo, Effect, External, Io}
use seeds.Conference.RedisStore
use seeds.Conference.Dialing.{VonageApi}
use seeds.Conference.Call.{
  ConferenceCall, absent, log_action, teacher_or_empty, student_phones, set_participant_state,
  start_processing_conf_events_from_queue, end_processing_conf_events_from_queue,
  start_remote_audio_relay, stop_remote_audio_relay, restore_auto_end_timer, start_conference,
  update_state,
}

-- What the factories and the storage give; `communication_api` takes the conference and the URL of
-- its audio socket.
pub record Factories : Type 0 where
  pub communication_api : String → String → VonageApi
  pub connection_manager : Bool
  pub storage_manager : Bool
  pub ws_base_url : String

pub record Manager : Type 0 where
  pub conferences : Dict ConferenceCall
  -- the conferences whose deletion from Redis has been scheduled
  pub deletions : List String
  pub calls : List Effect

unfoldable pub io {κ} : {A : Type κ} → Io A → Act Manager A
io m g = let (r, history) = m g.calls in (r, record g { calls = history })

-- `_build_conference_call`, with `_attach_redis`
unfoldable pub build_conference_call : Factories → String → ConferenceCall
build_conference_call f conf_id = record {
  conf_id = conf_id;
  state = initial_state;
  communication_api =
      record (f.communication_api conf_id (format (f.ws_base_url ∷ "?id=" ∷ conf_id ∷ []))) {
        redis_store = true;
      };
  storage_manager = f.storage_manager;
  connection_manager = f.connection_manager;
  redis_store = true;
  event_queue = [];
  event_queue_processing_task = absent;
  remote_audio_queue = false;
  remote_audio_task = absent;
  capture_session = false;
  capture_finalize_task = absent;
  websocket = false;
  auto_end_monitor_task = absent;
  sunk = false;
  calls = [];
}

unfoldable pub get_conference : String → Manager → Option ConferenceCall
get_conference conf_id g = get conf_id g.conferences

-- a method of a registered conference
unfoldable pub on_conference {κ} :
    {A : Type κ} → String → Act ConferenceCall A → ConferenceCall → Act Manager A
on_conference conf_id m c g =
    let (r, c') = m c in (r, record g { conferences = insert conf_id c' g.conferences })

-- the first conference in which the number takes part
unfoldable pub find_by_phone : String → Dict ConferenceCall → Option ConferenceCall
find_by_phone phone [] = none
find_by_phone phone ((k, c) ∷ d) =
    if contains phone c.state.participants then some c else find_by_phone phone d

unfoldable pub get_conference_from_phone_number : String → Manager → Option ConferenceCall
get_conference_from_phone_number phone g = find_by_phone phone g.conferences

-- `pop`, and a task that deletes what Redis holds
unfoldable pub delete_conference : String → Manager → Manager
delete_conference conf_id g = record g {
  conferences = remove conf_id g.conferences;
  deletions = conf_id ∷ g.deletions;
}

-- the first conversation that a leg names
unfoldable pub find_conv : List VonageParticipantInfo → Option String
find_conv [] = none
find_conv (p ∷ ps) = if is_given p.conference_conv_id then p.conference_conv_id else find_conv ps

module _ (x : External) where
  unfoldable pub created : String → List String → Act ConferenceCall (Unit {0})
  created teacher_phone phones =
      log_action x conference_created
        (("teacher_phone", text teacher_phone) ∷ ("student_phones", texts phones) ∷ [])
        (λ s. teacher_phone)

  -- `conf_id` is the new random identifier
  unfoldable pub create_conference :
      Factories
      → String
      → String
      → List String
      → Option String
      → Option String
      → List (Option String)
      → Act Manager (Unit {0})
  create_conference f conf_id teacher_phone phones leader_phone teacher_name student_names = do
    let built = build_conference_call f conf_id
    let conf = record built {
      state =
          set_participant_state teacher_phone phones leader_phone teacher_name student_names
            built.state;
    }
    on_conference conf_id (created teacher_phone phones) conf
    registered ← gets (get_conference conf_id)
    maybe registered (pure tt) λ c. on_conference conf_id (update_state x) c

  -- the failure is logged and stored, and the exception is raised again
  unfoldable pub report_failure : Exn → Act ConferenceCall (Unit {0})
  report_failure e = do
    log_action x conference_start_failed
        (("error", text (x.error_name e)) ∷ ("detail", text (x.error_text e)) ∷ []) teacher_or_empty
    catch (update_state x) (λ e'. pure tt)
    raise e

  -- the `try` block of `start_conference_call`, and what is undone where it raises
  unfoldable pub start_failed : Exn → Act ConferenceCall (Unit {0})
  start_failed e = do
    write end_processing_conf_events_from_queue
    write stop_remote_audio_relay
    report_failure e

  -- before the `try` block
  unfoldable pub request_start : Act ConferenceCall (Unit {0})
  request_start = do
    write start_processing_conf_events_from_queue
    write (start_remote_audio_relay x)
    reading λ c.
        log_action x conference_start_requested
          (("teacher_phone", given c.state.teacher_phone_number)
            ∷ ("student_phones", texts (student_phones c.state))
            ∷ [])
          teacher_or_empty

  unfoldable pub start_call : Act ConferenceCall (Unit {0})
  start_call = request_start >> catch (update_state x >> start_conference x) start_failed

  unfoldable pub start_conference_call : String → Act Manager (Unit {0})
  start_conference_call conf_id = reading λ g.
      maybe (get_conference conf_id g) (raise value_error) λ c. on_conference conf_id start_call c

  -- a conference as it was stored
  unfoldable pub restored :
      Factories → String → ConferenceCallState → Option String → ConferenceCall
  restored f conf_id state conv_id =
      let built = build_conference_call f conf_id in
      let api = built.communication_api in
      record built {
        state = state;
        communication_api = record api {
          teacher_phone_number = state.teacher_phone_number;
          vonage_conv_id = if is_some conv_id then conv_id else api.vonage_conv_id;
        };
      }

  unfoldable pub resume : ConferenceCall → ConferenceCall
  resume c =
      if c.state.is_running
      then restore_auto_end_timer x
          (start_remote_audio_relay x (start_processing_conf_events_from_queue c))
      else c

  unfoldable pub restore_one : Factories → String → ConferenceCallState → Act Manager (Unit {0})
  restore_one f conf_id state = do
    participants ← io (RedisStore.get_all_participants x conf_id)
    write λ g. record g {
      conferences =
          insert conf_id (resume (restored f conf_id state (find_conv (values participants))))
            g.conferences;
    }

  -- a conference that is registered is passed over
  unfoldable pub restore_new : Factories → String → Act Manager (Unit {0})
  restore_new f conf_id = reading λ g.
      if contains conf_id g.conferences
      then pure tt
      else do state ← io (RedisStore.load x conf_id); maybe state (pure tt) (restore_one f conf_id)

  unfoldable pub restore_all : Factories → List String → Act Manager (Unit {0})
  restore_all f [] = pure tt
  restore_all f (conf_id ∷ rest) = restore_new f conf_id >> restore_all f rest

  unfoldable pub restore_from_redis : Factories → Act Manager (Unit {0})
  restore_from_redis f = do conf_ids ← io (RedisStore.list_active x); restore_all f conf_ids
