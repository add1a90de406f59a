-- ===== src/Conference/World.antt =====
-- What a conference calls and does not implement: the telephone service, Redis, the database, the
-- client's connection, the control socket and the clock. Each call is an `Effect`; the program's
-- calls so far, newest first, are its history. An `External` answers each call, and may answer the
-- same call differently as the history grows.
use seeds.Base.{ℕ, String, Bool, Option, List, ◌∷◌}
use seeds.Dict.{Dict}
use seeds.Act.{Exn, Reply, done, Act}
use seeds.Conference.Model.{ConferenceCallState, Participant, WebsocketServiceMessage}

-- A step of the call plan that is sent with a call (an NCCO).
pub data Ncco : Type 0 where
  talk : String → Ncco
  conversation : String → Bool → Ncco
  connect : String → Ncco

pub record CallData : Type 0 where
  pub to : String
  pub from : String
  pub event_url : String
  pub ncco : List Ncco

-- The fields of the answer to `voice.create_call` that the program reads.
pub record CreatedCall : Type 0 where
  pub uuid : String
  pub conversation_uuid : String

-- platform/app/providers/vonage_api.py: the call leg of a participant
pub record VonageParticipantInfo : Type 0 where
  pub phone_number : String
  pub call_leg_id : String
  pub initial_conv_id : String
  pub conference_conv_id : Option String

pub data LegAction : Type 0 where
  hangup mute unmute : LegAction
  transfer : List Ncco → LegAction

pub data Effect : Type 0 where
  save_state : String → ConferenceCallState → Effect
  send_message_to_client : Option Participant → ConferenceCallState → Effect
  connect_client disconnect_client : Option Participant → Effect
  ws_send : WebsocketServiceMessage → Effect
  close_socket : Effect
  create_call : CallData → Effect
  get_call : String → Effect
  update_call : String → LegAction → Effect
  create_talk : String → String → Effect
  sleep : ℕ → Effect
  read_clock : Effect
  redis_set : String → ConferenceCallState → Effect
  redis_get : String → Effect
  redis_expire : String → ℕ → Effect
  redis_hset : String → String → VonageParticipantInfo → Effect
  redis_hget redis_hdel : String → String → Effect
  redis_hgetall : String → Effect
  redis_delete : List String → Effect
  redis_keys : String → Effect

-- platform/app/platform/settings.py: the settings that conferences read
pub record Settings : Type 0 where
  pub redis_conference_ttl_seconds : ℕ
  pub auto_end_timeout_minutes : ℕ
  pub auto_end_enabled : Bool
  pub audio_analysis_enabled : Bool
  pub audio_capture_enabled : Bool

pub record External : Type 0 where
  pub settings : Settings
  -- how an awaited call ends whose result is not read
  pub outcome : List Effect → Effect → Reply (Unit {0})
  -- `type(exc).__name__` and `str(exc)`
  pub error_name : Exn → String
  pub error_text : Exn → String
  pub clock : List Effect → ℕ
  pub created : List Effect → CallData → Reply CreatedCall
  -- the `status` of a call leg
  pub status_of : List Effect → String → Reply (Option String)
  pub redis_state : List Effect → String → Reply (Option ConferenceCallState)
  pub redis_leg : List Effect → String → String → Reply (Option VonageParticipantInfo)
  pub redis_legs : List Effect → String → Reply (Dict VonageParticipantInfo)
  pub redis_active : List Effect → Reply (List String)

abbrev pub Io {κ} : Type κ → Type κ
Io A = Act (List Effect) A

-- make a call and take its answer
unfoldable pub ask {κ} : {A : Type κ} → Effect → (List Effect → Reply A) → Io A
ask e answer history = (answer history, e ∷ history)

module _ (x : External) where
  unfoldable pub perform : Effect → Io (Unit {0})
  perform e = ask e (λ history. x.outcome history e)

  -- `datetime.now()`
  unfoldable pub now : Io ℕ
  now = ask read_clock (λ history. done (x.clock history))
