-- ===== src/Conference/Dialing.antt =====
-- Dialling a participant through Vonage: `_create_call_with_retry` and
-- `_add_participant_to_conference` of platform/app/providers/vonage_api.py.
pub mod Retry
use seeds.Base.{
  ℕ, zero, suc, ◌*◌, String, ◌==◌, Bool, true, false, not, ◌&&◌, Option, none, some, List, [], ◌∷◌,
  map, format, is_given, holds, if◌then◌else◌,
}
use seeds.Dict.{Dict, get, keys, values}
use seeds.Act.{
  maybe, Exn, rate_limited, network_error, other_error, Reply, done, Act, pure, raise, gets,
  reading, catch, write, ◌>>=◌, ◌>>◌, when,
}
use seeds.Act.Gather.{gather}
use seeds.Conference.World.{
  Ncco, talk, conversation, connect, CallData, CreatedCall, VonageParticipantInfo, LegAction,
  hangup, mute, unmute, transfer, Effect, create_call, get_call, update_call, create_talk, sleep,
  External, Io, ask, perform,
}
use seeds.Conference.RedisStore.{
  save_participant, get_participant, get_participant_by_leg_id, get_all_participants,
  delete_participant,
}

-- The attributes of a `VonageAPIProvider`; `redis_store` tells whether a store is attached.
pub record VonageApi : Type 0 where
  pub conf_id : String
  pub vonage_number : String
  pub ws_server_url : String
  pub events_webhook_url : String
  pub vonage_conv_id : Option String
  pub is_websocket_connected : Bool
  pub teacher_phone_number : Option String
  pub redis_store : Bool

-- A provider and the calls made so far.
pub record Line : Type 0 where
  pub api : VonageApi
  pub calls : List Effect

unfoldable pub io {κ} : {A : Type κ} → Io A → Act Line A
io m l = let (r, history) = m l.calls in (r, record l { calls = history })

-- `is_rate_limited or is_network_error`
abbrev pub is_transient : Exn → Bool
is_transient rate_limited = true
is_transient network_error = true
is_transient _ = false

abbrev is_last : ℕ → Bool
is_last zero = true
is_last (suc _) = false

-- 2 ^ attempt seconds, in milliseconds, without the jitter of up to a second
abbrev pub backoff : ℕ → ℕ
backoff zero = 1000
backoff (suc n) = 2 * backoff n

module _ (x : External) where
  -- the attempts that are left, and the number of those made
  unfoldable pub create_call_from : ℕ → ℕ → CallData → Io CreatedCall
  create_call_from zero attempt call_data = raise other_error
  create_call_from (suc left) attempt call_data =
      catch (ask (create_call call_data) (λ history. x.created history call_data)) λ e.
        if is_transient e && not (is_last left)
        then (do perform x (sleep (backoff attempt)); create_call_from left (suc attempt) call_data)
        else raise e

  unfoldable pub create_call_with_retry : CallData → ℕ → Io CreatedCall
  create_call_with_retry call_data max_retries = create_call_from max_retries 0 call_data

-- the plan of a call: greetings, then the conference, which a student joins muted
unfoldable pub welcome_ncco : String → Bool → Option String → List Ncco
welcome_ncco conf_id true announce_text =
    talk (elim announce_text [
      | none ↦ "You have joined the conference."
      | some t ↦
          if t == ""
          then "You have joined the conference."
          else format (t ∷ " has joined the conference." ∷ [])
    ])
    ∷ conversation conf_id true
    ∷ []
welcome_ncco conf_id false announce_text =
    talk "Hi, welcome to SEEDS. Connecting you to the conference call."
    ∷ talk (elim announce_text [
      | none ↦ "Teacher has joined"
      | some t ↦ if t == "" then "Teacher has joined" else format (t ∷ " has joined" ∷ [])
    ])
    ∷ conversation conf_id false
    ∷ []

unfoldable pub call_data_for : VonageApi → String → Bool → Option String → CallData
call_data_for api phone start_muted announce_text = record {
  to = phone;
  from = api.vonage_number;
  event_url = format (api.events_webhook_url ∷ "/webhooks/event/" ∷ api.conf_id ∷ []);
  ncco = welcome_ncco api.conf_id start_muted announce_text;
}

module _ (x : External) where
  unfoldable pub add_participant_to_conference : String → Bool → Option String → Act Line (Unit {0})
  add_participant_to_conference phone start_muted announce_text = do
    api ← gets (λ l. l.api)
    resp ← io (create_call_with_retry x (call_data_for api phone start_muted announce_text) 5)
    when api.redis_store (
        io (
          save_participant x api.conf_id (record {
            phone_number = phone;
            call_leg_id = resp.uuid;
            initial_conv_id = resp.conversation_uuid;
            conference_conv_id = none;
          })))
