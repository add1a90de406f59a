-- ===== src/Ivr/Model.antt =====
-- The documents of the calls to the menus: platform/app/models/ivr_state.py, and the call control
-- objects (NCCO) that platform/app/providers/vonage_actions makes.
-- Instants are natural numbers; a playback speed is counted in hundredths.
use seeds.Base.{ℕ, ℤ, String, Bool, Option, List}
use seeds.Dict.{Dict}

-- A keyword argument of an action.
pub data Arg : Type 0 where
  text : String → Arg
  number : ℕ → Arg
  flag : Bool → Arg

-- The dict that the telephone service takes for one action.
pub data Ncco : Type 0 where
  -- the address, then loop, bargeIn and level
  stream_ncco : String → Arg → Arg → Arg → Ncco
  -- the text, then loop, bargeIn, level and language
  talk_ncco : String → Arg → Arg → Arg → Arg → Ncco
  -- the text and language of an announcement at level 1.0 that a key may stop
  announcement_ncco : String → String → Ncco
  -- the types, the address for the event, and where keys are taken: maxDigits, submitOnHash, timeOut
  input_ncco : List String → String → Option (Arg × Arg × Arg) → Ncco
  -- the address, the content type and the headers
  connect_ncco : String → String → Dict Arg → Ncco
  hangup_ncco : Ncco
  -- a text that no key may stop, with nothing else
  notice_ncco : String → Ncco

pub record UserAction : Type 0 where
  pub key_pressed : String
  pub timestamp : ℕ
  pub pre_state_id : String
  pub post_state_id : String

pub record StreamPlaybackInfo : Type 0 where
  pub play_id : String
  pub stream_url : String
  pub started_at : String
  pub stopped_at : Option String
  pub done_at : Option String

pub record PendingDtmf : Type 0 where
  pub message_id : String
  pub waiting : Bool
  pub ncco : Option (List Ncco)
  pub should_hangup : Option Bool
  pub created_at : ℕ

-- `experience_data["_daily_limit_check"]`
pub record LimitCheck : Type 0 where
  pub duration_ms : ℕ
  pub language : String
  pub school_id : String

-- What stands under a key of `call_status_updates`. The database reads the dot before a fraction of a
-- second as the way into a field of a field.
pub data StatusUpdate : Type 0 where
  plain : String → StatusUpdate
  fractions : Dict String → StatusUpdate

-- The document of a call as the database holds it, with the keys of `experience_data` that the code uses (the score, the
-- check of the daily limit, the speed and the pause).
pub record IvrCallState : Type 0 where
  pub id : String
  pub phone_number : String
  pub fsm_id : String
  pub current_state_id : String
  pub current_conversation_uuid : String
  pub created_at : ℕ
  pub updated_at : Option ℕ
  pub stopped_at : Option ℕ
  -- what an event brought; `from_mongo` takes only a text
  pub duration : Option Arg
  pub user_actions : List UserAction
  pub stream_playback : List StreamPlaybackInfo
  pub quiz_score : Option ℤ
  pub daily_limit_check : Option LimitCheck
  pub playback_speed : Option ℕ
  pub is_paused : Option Bool
  pub call_status_updates : Dict StatusUpdate
  pub tenant_id : String
  pub school_id : Option String
  pub version : ℕ
  pub pending_dtmf : Option PendingDtmf
  pub last_dtmf_message_id : Option String
