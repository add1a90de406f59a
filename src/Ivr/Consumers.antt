-- ===== src/Ivr/Consumers.antt =====
-- The way of a key press and of an event through the queues: `ivr_dtmf_webhook` of
-- platform/app/controllers/ivr_webhook_controller.py, and the consumers dtmf_consumer.py,
-- call_event_consumer.py and call_webhook_consumer.py of platform/app/consumers.
-- The queue itself is outside: sending and settling a message are requests.
pub mod Delivery
use seeds.Base.{
  ℕ, String, ◌==◌, Bool, true, false, ◌&&◌, Option, none, some, List, [], ◌∷◌, format, is_given,
  text_or, eqb, if◌then◌else◌,
}
use seeds.Act.{
  Exn, permanent_error, other_error, Act, pure, raise, reading, catch, ◌>>=◌, ◌>>◌, maybe, when,
}
use seeds.Ivr.Model.{IvrCallState, Ncco, input_ncco, notice_ncco, number, flag, PendingDtmf}
use seeds.Ivr.Collection.{Collection}
use seeds.Ivr.Repository.{
  is_dtmf_duplicate, record_dtmf_processed, try_claim_dtmf_result, is_answer,
}
use seeds.Ivr.Service.{
  Request, read_call, write_call, update_call, send_dtmf_input, complete_message,
  dead_letter_message, abandon_message, Surroundings, Service, db, ask, now,
}
use seeds.Ivr.Service.Dtmf.{
  process_dtmf, resolve_call_leg_id, announce, wait_for_dtmf_result, has_answer,
}
use seeds.Ivr.Service.Lifecycle.{CallEvent, process_call_event}
use seeds.Ivr.Service.Calls.{Answers, Started, status_code, start_call_flow}

-- a message of the queue dtmf_input
pub record DtmfMessage : Type 0 where
  pub message_id : String
  pub conversation_uuid : Option String
  pub call_leg_id : Option String
  pub digits : List String
  pub timed_out : Bool

-- the webhook's body
pub record DtmfInput : Type 0 where
  pub digits : List String
  pub timed_out : Bool
  pub conversation_uuid : String
  pub uuid : Option String
  pub timestamp : String

pub record CallEventMessage : Type 0 where
  pub message_id : String
  pub uuid : Option String
  pub conversation_uuid : String
  pub event : CallEvent

pub record CallWebhookMessage : Type 0 where
  pub message_id : String
  pub phone_number : Option String
  pub tenant_id : String
  pub call_log_id : Option String

abbrev pub text_of : Option String → String
text_of none = "None"
text_of (some s) = s

abbrev pub message_id_of : DtmfInput → String
message_id_of i = format (
    "dtmf:"
    ∷ i.conversation_uuid
    ∷ ":"
    ∷ text_of i.uuid
    ∷ ":"
    ∷ format i.digits
    ∷ ":"
    ∷ i.timestamp
    ∷ [])

abbrev pub enqueue_failed_ncco : List Ncco
enqueue_failed_ncco = notice_ncco "Server error. Please try again later. Bye bye." ∷ []

abbrev pub placeholder_ncco : String → List Ncco
placeholder_ncco base_url =
    input_ncco ("dtmf" ∷ []) (format (base_url ∷ "/input" ∷ []))
      (some (number 1, flag false, number 20))
    ∷ []

-- the answer of a marker that has come, and the placeholder else
abbrev pub answer_or : List Ncco → Option PendingDtmf → List Ncco
answer_or placeholder none = placeholder
answer_or placeholder (some marker) =
    if is_answer marker
    then elim marker.ncco [ none ↦ placeholder | some ncco ↦ ncco ]
    else placeholder

module _ {C : Type 0} (col : Collection C IvrCallState) (x : Surroundings C) where
  -- `update_call_ncco`: whether the telephone service took the actions
  unfoldable pub update_call_ncco : String → List Ncco → Act (Service C) Bool
  update_call_ncco call_leg_id ncco =
      catch (ask x (update_call call_leg_id ncco) >> pure true) (λ e. pure false)

  unfoldable pub record_processed : String → String → Act (Service C) Bool
  record_processed call_leg_id message_id =
      reading λ s. db x write_call (record_dtmf_processed col (now x s) call_leg_id message_id)

  unfoldable pub claim_result : String → String → List Ncco → Bool → Act (Service C) Bool
  claim_result call_leg_id message_id ncco should_hangup = reading λ s.
      db x write_call
        (try_claim_dtmf_result col (now x s) call_leg_id message_id ncco should_hangup)

  -- the actions go to the webhook that waits for them, or else to the call
  unfoldable pub deliver_answer : String → String → List Ncco → Bool → Act (Service C) (Unit {0})
  deliver_answer k message_id ncco should_hangup =
      claim_result k message_id ncco should_hangup >>= λ claimed.
      if claimed
      then record_processed k message_id >> pure tt
      else (update_call_ncco k ncco >>= λ taken.
          if taken then record_processed k message_id >> pure tt else pure tt)

  unfoldable pub process_new : String → DtmfMessage → Act (Service C) (Unit {0})
  process_new k m = process_dtmf col x k m.digits m.timed_out >>= λ r.
      maybe r.0 (pure tt) λ ncco. deliver_answer k m.message_id ncco r.1

  unfoldable pub process_leg : DtmfMessage → String → Act (Service C) (Unit {0})
  process_leg m k =
      db x read_call (λ c. (is_dtmf_duplicate col k m.message_id c, c)) >>= λ duplicate.
      if duplicate then pure tt else process_new k m

  unfoldable pub find_leg : DtmfMessage → Act (Service C) (Option String)
  find_leg m =
      if is_given m.call_leg_id
      then pure m.call_leg_id
      else resolve_call_leg_id col x (text_or m.conversation_uuid "")

  -- `DtmfConsumer.process`
  unfoldable pub process : DtmfMessage → Act (Service C) (Unit {0})
  process m =
      if is_given m.conversation_uuid
      then (find_leg m >>= λ leg.
          if is_given leg then process_leg m (text_or leg "") else raise other_error)
      else raise permanent_error

  abbrev pub settlement : Exn → String → Request
  settlement permanent_error m = dead_letter_message m
  settlement _ m = abandon_message m

  -- `_handle_one`: how a message is settled after it was processed
  unfoldable pub handle_message : String → Act (Service C) (Unit {0}) → Act (Service C) (Unit {0})
  handle_message message_id run =
      catch (run >> ask x (complete_message message_id)) (λ e. ask x (settlement e message_id))

  unfoldable pub handle_one : DtmfMessage → Act (Service C) (Unit {0})
  handle_one m = handle_message m.message_id (process m)

  -- `CallEventConsumer.process`
  unfoldable pub process_event_message : CallEventMessage → Act (Service C) (Unit {0})
  process_event_message m =
      if is_given m.uuid
      then process_call_event col x (text_or m.uuid "") m.conversation_uuid m.event
      else pure tt

  -- `CallWebhookConsumer.process`, with the write of the call log as a parameter
  unfoldable pub process_webhook_message :
      Answers → Act (Service C) (Unit {0}) → CallWebhookMessage → Act (Service C) (Unit {0})
  process_webhook_message a mark_called m =
      if is_given m.phone_number
      then (start_call_flow col x a (text_or m.phone_number "") m.tenant_id >>= λ r.
          when (eqb (status_code r) 200 && is_given m.call_log_id)
            (catch mark_called (λ e. pure tt)))
      else pure tt

  -- the key press is announced, if it says its call
  unfoldable pub arm_bridge : DtmfInput → Act (Service C) Bool
  arm_bridge i =
      if is_given i.uuid then announce col x 5 (text_or i.uuid "") (message_id_of i) else pure false

  -- `ivr_dtmf_webhook`; the number is as for `wait_for_dtmf_result`
  unfoldable pub ivr_dtmf_webhook : ℕ → DtmfInput → Act (Service C) (List Ncco)
  ivr_dtmf_webhook rounds i = do
    bridge_armed ← arm_bridge i
    sent ← catch (ask x (send_dtmf_input (message_id_of i)) >> pure true) (λ e. pure false)
    (if sent
        then (if bridge_armed
            then (wait_for_dtmf_result col x rounds (text_or i.uuid "") (message_id_of i)
                >>= λ marker. pure (answer_or (placeholder_ncco x.settings.base_url) marker))
            else pure (placeholder_ncco x.settings.base_url))
        else pure enqueue_failed_ncco)
