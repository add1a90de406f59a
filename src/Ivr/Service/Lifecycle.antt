-- ===== src/Ivr/Service/Lifecycle.antt =====
-- What the telephone service tells of a call: `process_call_event` and `process_rtc_event` of
-- platform/app/services/ivr_service.py, and the statuses of platform/app/models/ivr_state.py.
-- The time stamp of an event is given as the key that `isoformat` makes of it, if it can be read; its
-- offset has no fractions of a second. A duration that is no text is one of the other values.
pub mod Archive
pub mod Progress
use seeds.Base.{
  ℕ, String, ◌==◌, Bool, true, false, ◌||◌, Option, none, some, List, [], ◌∷◌, ◌++◌, is_some,
  truthy, if◌then◌else◌,
}
use seeds.Dict.{Dict, get, insert}
use seeds.Act.{
  Exn, value_error, other_error, Act, pure, raise, reading, catch, write, ◌>>=◌, ◌>>◌, maybe,
}
use seeds.Ivr.Model.{IvrCallState, StreamPlaybackInfo, Arg, StatusUpdate, plain, fractions}
use seeds.Ivr.Collection.{Collection}
use seeds.Ivr.Repository.{any_doc, push_stream_playback, set_playback_field}
use seeds.Ivr.Service.{
  Request, read_call, write_call, delete_calls, archive_call, close_websocket, Surroundings,
  Service, db, ask, now,
}
use seeds.Ivr.Service.Dtmf.{attempt, from_mongo}

pub data IvrCallStatus : Type 0 where
  started ringing answered busy cancelled unanswered disconnected rejected failed human machine
        timeout completed record_ input_ transfer :
      IvrCallStatus

-- `IVRCallStatus(status)`; none is the `ValueError`
unfoldable pub status_of : String → Option IvrCallStatus
status_of status = get status (
    ("started", started)
    ∷ ("ringing", ringing)
    ∷ ("answered", answered)
    ∷ ("busy", busy)
    ∷ ("cancelled", cancelled)
    ∷ ("unanswered", unanswered)
    ∷ ("disconnected", disconnected)
    ∷ ("rejected", rejected)
    ∷ ("failed", failed)
    ∷ ("human", human)
    ∷ ("machine", machine)
    ∷ ("timeout", timeout)
    ∷ ("completed", completed)
    ∷ ("record", record_)
    ∷ ("input", input_)
    ∷ ("transfer", transfer)
    ∷ [])

-- `status in end_statuses()`
unfoldable pub is_end : IvrCallStatus → Bool
is_end busy = true
is_end cancelled = true
is_end unanswered = true
is_end disconnected = true
is_end rejected = true
is_end failed = true
is_end completed = true
is_end timeout = true
is_end _ = false

pub record CallEvent : Type 0 where
  pub status : String
  -- `isoformat` of the time stamp, where there is one that can be read: the part before the dot, and
  -- the part after it, where there are fractions of a second
  pub timestamp : Option (String × Option String)
  pub duration : Option Arg

-- `call_status_updates.<before>.<after>` is set; a text has no fields, and the database refuses
unfoldable pub within : String → String → Option StatusUpdate → Option StatusUpdate
within after status none = some (fractions ((after, status) ∷ []))
within after status (some (plain s)) = none
within after status (some (fractions u)) = some (fractions (insert after status u))

-- `call_status_updates.<isoformat>` is set; none where the database refuses
unfoldable pub set_at :
    Option (String × Option String) → String → Dict StatusUpdate → Option (Dict StatusUpdate)
set_at none status updates = some updates
set_at (some (before, none)) status updates = some (insert before (plain status) updates)
set_at (some (before, some after)) status updates =
    elim (within after status (get before updates)) [
      | none ↦ none
      | some u ↦ some (insert before u updates)
    ]

abbrev pub with_status : CallEvent → IvrCallState → Option (Dict StatusUpdate)
with_status e d = set_at e.timestamp e.status d.call_status_updates

-- `update_ops`, and what a final status adds to them
abbrev pub touched : ℕ → String → CallEvent → IvrCallState → Dict StatusUpdate → IvrCallState
touched time conversation_uuid e d updates = record d {
  current_conversation_uuid = conversation_uuid;
  updated_at = some time;
  call_status_updates = updates;
}

abbrev pub stopped : ℕ → String → CallEvent → IvrCallState → Dict StatusUpdate → IvrCallState
stopped time conversation_uuid e d updates = record (touched time conversation_uuid e d updates) {
  stopped_at = some time;
  duration = e.duration;
}

-- the state that was read is written back
abbrev pub kept_in :
    String → ℕ → String → CallEvent → IvrCallState → Dict StatusUpdate → IvrCallState
kept_in state time conversation_uuid e d updates =
    record (touched time conversation_uuid e d updates) { current_state_id = state }

-- `except ValueError`
unfoldable pub unless_value_error {ℓ} : {S : Type ℓ} → Exn → Act S (Unit {0})
unless_value_error value_error = pure tt
unless_value_error e = raise e

-- an event of a conversation, with the fields of its body that are read
pub record RtcEvent : Type 0 where
  pub type : String
  pub conversation_id : String
  pub play_id : Option String
  pub stream_url : Option String
  pub timestamp : String

abbrev pub stop_field : String → StreamPlaybackInfo → StreamPlaybackInfo
stop_field timestamp i = record i { stopped_at = some timestamp }

abbrev pub done_field : String → StreamPlaybackInfo → StreamPlaybackInfo
done_field timestamp i = record i { done_at = some timestamp }

module _ {C : Type 0} (col : Collection C IvrCallState) (x : Surroundings C) where
  unfoldable pub put_log : String → IvrCallState → Act (Service C) (Unit {0})
  put_log k d = ask x (archive_call k) >> write λ s. record s { logs = col.replace_one k d s.logs }

  -- `update_one` with `$set`: the new document, where the database does not refuse
  unfoldable pub set_fields :
      String → CallEvent → (IvrCallState → Dict StatusUpdate → IvrCallState) → C → Bool × C
  set_fields k e f c = elim (col.find_one k c) [
    | none ↦ (true, c)
    | some d ↦ elim (with_status e d) [
      | none ↦ (false, c)
      | some updates ↦ (true, (col.update_one k any_doc (λ old. f d updates) c).1)
    ]
  ]

  -- a refusal is a `WriteError`
  unfoldable pub set_call :
      String
      → CallEvent
      → (IvrCallState → Dict StatusUpdate → IvrCallState)
      → Act (Service C) (Unit {0})
  set_call k e f =
      db x write_call (set_fields k e f) >>= λ b. if b then pure tt else raise other_error

  -- a final status: the document goes from the calls to the logs
  unfoldable pub end_call : String → String → CallEvent → Act (Service C) (Unit {0})
  end_call k conversation_uuid e = do
    reading λ s. set_call k e (stopped (now x s) conversation_uuid e)
    found ← db x read_call (λ c. (col.find_one k c, c))
    final_doc ← from_mongo found
    maybe final_doc (pure tt) λ d. put_log k d >> catch (ask x close_websocket) (λ err. pure tt)
    db x write_call (λ c. (tt, col.delete_one k c))

  unfoldable pub note_status :
      String → String → CallEvent → IvrCallState → Act (Service C) (Unit {0})
  note_status k conversation_uuid e d =
      reading λ s. set_call k e (kept_in d.current_state_id (now x s) conversation_uuid e)

  unfoldable pub on_status :
      String → String → CallEvent → IvrCallState → IvrCallStatus → Act (Service C) (Unit {0})
  on_status k conversation_uuid e d status =
      if is_end status then end_call k conversation_uuid e else note_status k conversation_uuid e d

  -- a status that is not known is a `ValueError`, and so is a document that `from_mongo` refuses
  unfoldable pub process_call_event : String → String → CallEvent → Act (Service C) (Unit {0})
  process_call_event call_leg_id conversation_uuid e =
      attempt col x (λ c. (col.find_one call_leg_id c, c)) read_call 1000 5
      >>= from_mongo
      >>= λ found. maybe found (pure tt) λ d.
        catch
          (maybe (status_of e.status) (raise value_error)
            (on_status call_leg_id conversation_uuid e d))
          unless_value_error

  unfoldable pub start_play : RtcEvent → String → String → Act (Service C) (Unit {0})
  start_play e play_id stream_url =
      db x read_call (λ c. (col.find_one e.conversation_id c, c)) >>= λ doc.
      maybe doc (pure tt) λ d.
        (reading λ s. db x write_call (
          push_stream_playback col (now x s) e.conversation_id (record {
            play_id = play_id;
            stream_url = stream_url;
            started_at = e.timestamp;
            stopped_at = none;
            done_at = none;
          })))
        >> pure tt

  unfoldable pub end_play :
      RtcEvent → (StreamPlaybackInfo → StreamPlaybackInfo) → Act (Service C) (Unit {0})
  end_play e f = maybe e.play_id (pure tt) λ play_id.
      (reading λ s. db x write_call (set_playback_field col (now x s) e.conversation_id play_id f))
      >> pure tt

  unfoldable pub process_rtc_event : RtcEvent → Act (Service C) (Unit {0})
  process_rtc_event e =
      if e.type == "audio:play"
      then (maybe e.stream_url (pure tt)
          λ stream_url. maybe e.play_id (pure tt) λ play_id. start_play e play_id stream_url)
      else if e.type == "audio:play:stop"
      then end_play e (stop_field e.timestamp)
      else if e.type == "audio:play:done"
      then end_play e (done_field e.timestamp)
      else pure tt
