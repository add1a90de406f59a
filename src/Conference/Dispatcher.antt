-- ===== src/Conference/Dispatcher.antt =====
-- platform/app/services/conference_event_dispatcher.py, with the payloads of
-- vonage_call_status_change_event.py, vonage_call_leg_transfer_event.py and
-- vonage_dtmf_input_event.py. A payload is a dict of texts; errors are logged and go no further.
pub mod Delivery
use seeds.Base.{
  String, ◌==◌, Bool, true, false, ◌&&◌, ◌||◌, Option, none, some, [], ◌∷◌, if◌then◌else◌,
}
use seeds.Dict.{Dict, get, contains, insert}
use seeds.Conference.Model.{
  CallStatus, connected, disconnected, connecting, on_hold, Value, text, flag,
}
use seeds.Conference.Call.{ConferenceCall, ConferenceEvent, queue_event}
use seeds.Conference.Call
use seeds.Conference.Events.Status.{validate_status, get_conf_call_status_change_event}
use seeds.Conference.Manager.{Manager, get_conference, get_conference_from_phone_number}
use seeds.Conference.CallerState.{CallerState, update_state}

-- the field `phone_number`, under its alias or its name
unfoldable pub phone_field : Dict String → Option String
phone_field d = elim (get "to" d) [ some v ↦ some v | none ↦ get "phone_number" d ]

-- `VonageCallStatusChangeEvent(**event_data)`, then the event for the conference; `none` where a
-- field is missing
unfoldable pub status_event : Dict String → Option (String × String)
status_event d = elim (get "status" d) [
  | none ↦ none
  | some s ↦ elim (phone_field d) [ none ↦ none | some p ↦ some (s, p) ]
]

abbrev pub is_transfer_key : String → Bool
is_transfer_key k =
    k == "conversation_uuid_from"
    || k == "type"
    || k == "uuid"
    || k == "conversation_uuid_to"
    || k == "timestamp"

-- every key is a parameter of `VonageCallTransferEvent.__init__`
unfoldable pub only_transfer_keys : Dict String → Bool
only_transfer_keys [] = true
only_transfer_keys ((k, v) ∷ d) = is_transfer_key k && only_transfer_keys d

-- `VonageCallTransferEvent(conf_call=conf, **event_data)`: `none` where an argument is missing or
-- unknown (a `TypeError`)
unfoldable pub transfer_event : Dict String → Option ConferenceEvent
transfer_event d =
    if only_transfer_keys d
      && contains "conversation_uuid_from" d
      && contains "type" d
      && contains "timestamp" d
    then elim (get "uuid" d) [
      | none ↦ none
      | some u ↦ elim (get "conversation_uuid_to" d) [
        | none ↦ none
        | some v ↦ some (Call.vonage_call_transfer u v)
      ]
    ]
    else none

abbrev pub status_text : CallStatus → String
status_text connected = "connected"
status_text disconnected = "disconnected"
status_text connecting = "connecting"
status_text on_hold = "on_hold"

abbrev pub is_on_hold : CallStatus → Bool
is_on_hold on_hold = true
is_on_hold _ = false

-- what the long poll is told
abbrev pub new_state : ConferenceEvent → Dict Value
new_state (Call.call_status_change p st) =
    ("call_status", text (status_text st)) ∷ ("onHold", flag (is_on_hold st)) ∷ []
new_state _ = []

unfoldable pub enqueue : String → ConferenceEvent → ConferenceCall → Manager → Manager
enqueue conf_id e c g = record g { conferences = insert conf_id (queue_event e c).1 g.conferences }

-- the first kind of payload that fits; `ValidationError` and `TypeError` end in a log entry
unfoldable pub deliver :
    String
    → ConferenceCall
    → Manager
    → CallerState
    → Option (String × String)
    → Option ConferenceEvent
    → Manager × CallerState
deliver conf_id c g callers (some (s, p)) transfer =
    let e = get_conf_call_status_change_event (validate_status s) p in
    (enqueue conf_id e c g, update_state conf_id p (new_state e) callers)
deliver conf_id c g callers none (some e) = (enqueue conf_id e c g, callers)
deliver conf_id c g callers none none = (g, callers)

unfoldable pub dispatch_to :
    Dict String → String → ConferenceCall → Manager → CallerState → Manager × CallerState
dispatch_to d conf_id c g callers = deliver conf_id c g callers (status_event d) (transfer_event d)

unfoldable pub dispatch_conference_event :
    Dict String → String → Manager → CallerState → Manager × CallerState
dispatch_conference_event d conf_id g callers = elim (get_conference conf_id g) [
  | none ↦ (g, callers)
  | some c ↦ dispatch_to d conf_id c g callers
]

-- The fields of a conversation event that are read: its type, the number and the key. A payload
-- that lacks one of the others is no `VonageDTMFInputEvent`, and is given as `none`.
pub record DtmfPayload : Type 0 where
  pub type : String
  pub number : String
  pub digit : String

unfoldable pub dispatch_conversation_event : Option DtmfPayload → Manager → Manager
dispatch_conversation_event none g = g
dispatch_conversation_event (some d) g =
    if d.type == "audio:dtmf"
    then elim (get_conference_from_phone_number d.number g) [
      | none ↦ g
      | some c ↦ enqueue c.conf_id (Call.dtmf_input d.number d.digit) c g
    ]
    else g
