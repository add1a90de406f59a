-- ===== src/Ivr/Service.antt =====
-- The state of `IVRService` (platform/app/services/ivr_service.py), its surroundings, and the two ways
-- in which it reaches out. While a call waits, other tasks may change the documents of the calls in
-- any way (`meanwhile`). A call that fails or is cut off may have taken effect or not.
pub mod Dtmf
pub mod Lifecycle
pub mod Calls
pub mod Stale
use seeds.Base.{ℕ, String, Bool, true, false, Option, List, [], ◌∷◌, if◌then◌else◌}
use seeds.Dict.{Dict}
use seeds.Act.{Exn, Reply, done, raised, cancelled, Act}
use seeds.Ivr.Model.{IvrCallState, Ncco}
use seeds.Ivr.Machine.{Effect, External, Fsm}
use seeds.Ivr.Collection.{Collection}

pub data Request : Type 0 where
  read_call write_call count_calls delete_calls read_clock close_websocket : Request
  load_machine build_machine : Request
  save_machine find_usage : String → Request
  archive_call : String → Request
  create_call : String → List Ncco → Request
  update_call : String → List Ncco → Request
  set_playback_speed : String → ℕ → Request
  pause_audio resume_audio : String → Request
  sleep : ℕ → Request
  send_dtmf_input : String → Request
  complete_message dead_letter_message abandon_message : String → Request

-- How a request ends. The Boolean says whether it took effect.
pub data Carried : Type 0 where
  carried : Carried
  failed : Bool → Exn → Carried
  cut_off : Bool → Carried

pub record Settings : Type 0 where
  pub base_url : String
  pub default_welcome_language : String
  pub stale_wait : ℕ

-- `C` is the type of a collection.
pub record Surroundings (C : Type 0) : Type 0 where
  pub settings : Settings
  pub meanwhile : List Request → C → C
  pub carries : List Request → Request → Carried
  pub clock : List Request → ℕ
  pub machine : External
  pub get_url_with_sas : String → String
  -- `get_vonage_language_code`, `get_paused_announcement`, `get_resuming_announcement`
  pub vonage_language_code : String → String
  pub paused_announcement : String → String
  pub resuming_announcement : String → String

pub record Service (C : Type 0) : Type 0 where
  pub ongoing : C
  pub logs : C
  pub fsm_cache : Dict Fsm
  pub latest_fsm_id : Option String
  pub machine_calls : List Effect
  pub calls : List Request

abbrev pub answer_of : Carried → Reply (Unit {0})
answer_of carried = done tt
answer_of (failed b e) = raised e
answer_of (cut_off b) = cancelled

module _ {C : Type 0} where
  unfoldable pub delivered {ℓ} : {A : Type ℓ} → (C → A × C) → Carried → Act (Service C) A
  delivered f carried s = let (a, c) = f s.ongoing in (done a, record s { ongoing = c })
  delivered f (failed b e) s = (raised e, if b then record s { ongoing = (f s.ongoing).1 } else s)
  delivered f (cut_off b) s = (cancelled, if b then record s { ongoing = (f s.ongoing).1 } else s)

  -- after what other tasks did meanwhile
  abbrev pub disturbed : Surroundings C → Request → Service C → Service C
  disturbed x r s = record s { ongoing = x.meanwhile s.calls s.ongoing; calls = r ∷ s.calls }

  -- an operation on the documents of the calls
  unfoldable pub db {ℓ} : {A : Type ℓ} → Surroundings C → Request → (C → A × C) → Act (Service C) A
  db x r f s = delivered f (x.carries s.calls r) (disturbed x r s)

  -- any other request
  unfoldable pub ask : Surroundings C → Request → Act (Service C) (Unit {0})
  ask x r s = (answer_of (x.carries s.calls r), disturbed x r s)

  abbrev pub now : Surroundings C → Service C → ℕ
  now x s = x.clock s.calls
