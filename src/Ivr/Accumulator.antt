-- ===== src/Ivr/Accumulator.antt =====
-- Actions for the telephone service: action_factory.py, action_accumulator.py and the `get` methods of
-- platform/app/providers/vonage_actions. The address with a signature, `get_url_with_sas`, is a
-- parameter.
use seeds.Base.{
  String, ◌==◌, Bool, true, false, ◌||◌, none, some, List, [], ◌∷◌, format, if◌then◌else◌,
}
use seeds.Dict.{Dict, get}
use seeds.Ivr.Model.{Ncco, stream_ncco, talk_ncco, input_ncco, connect_ncco}
use seeds.Ivr.Machine.{Action, Arg, stream, talk, input, connect, text, number, flag}

-- VonageStreamAction, VonageTalkAction, VonageInputAction and VonageConnectAction
pub data VonageAction : Type 0 where
  -- address, level, bargeIn, loop
  vonage_stream : String → Arg → Arg → Arg → VonageAction
  -- text, level, bargeIn, loop, language
  vonage_talk : String → Arg → Arg → Arg → Arg → VonageAction
  -- types, maxDigits, address for the event, timeOut, submitOnHash
  vonage_input : List String → Arg → String → Arg → Arg → VonageAction
  vonage_connect : String → String → Dict Arg → VonageAction

-- `extra_args.get(name, default)`
abbrev pub arg_or : String → Arg → Dict Arg → Arg
arg_or name default args = elim (get name args) [ none ↦ default | some a ↦ a ]

unfoldable pub get_action_implementation : String → Action → VonageAction
get_action_implementation base_url (stream url record_playback_time args) =
    vonage_stream url (arg_or "volume" (number 1) args) (arg_or "bargeIn" (flag true) args)
      (arg_or "loop" (number 1) args)
get_action_implementation base_url (talk t args) =
    vonage_talk t (arg_or "volume" (number 1) args) (arg_or "bargeIn" (flag true) args)
      (arg_or "loop" (number 1) args) (arg_or "language" (text "en-US") args)
get_action_implementation base_url (input type_ event_api args) =
    vonage_input type_ (arg_or "maxDigits" (number 1) args) (format (base_url ∷ event_api ∷ []))
      (arg_or "timeOut" (number 10) args) (arg_or "submitOnHash" (flag false) args)
get_action_implementation base_url (connect uri content_type headers) =
    vonage_connect uri content_type headers

unfoldable pub has_text : String → List String → Bool
has_text t [] = false
has_text t (s ∷ rest) = s == t || has_text t rest

-- `get(sas_gen)`
unfoldable pub get_ncco : (String → String) → VonageAction → Ncco
get_ncco get_url_with_sas (vonage_stream url level barge_in loop) =
    stream_ncco (get_url_with_sas url) loop barge_in level
get_ncco get_url_with_sas (vonage_talk t level barge_in loop language) =
    talk_ncco t loop barge_in level language
get_ncco get_url_with_sas (vonage_input type_ max_digits event_url time_out submit_on_hash) =
    input_ncco type_ event_url
      (if has_text "dtmf" type_ then some (max_digits, submit_on_hash, time_out) else none)
get_ncco get_url_with_sas (vonage_connect uri content_type headers) =
    connect_ncco uri content_type headers

-- `combine([get_action_implementation(a) for a in actions])`
unfoldable pub combine : (String → String) → String → List Action → List Ncco
combine get_url_with_sas base_url [] = []
combine get_url_with_sas base_url (a ∷ rest) =
    get_ncco get_url_with_sas (get_action_implementation base_url a)
    ∷ combine get_url_with_sas base_url rest

-- `isinstance(a, InputAction)`, and `any` of it
unfoldable pub is_input : Action → Bool
is_input (input t e args) = true
is_input _ = false

unfoldable pub any_input : List Action → Bool
any_input [] = false
any_input (a ∷ rest) = is_input a || any_input rest
