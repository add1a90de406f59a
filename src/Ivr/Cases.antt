-- ===== src/Ivr/Cases.antt =====
-- The theorems on the documents of calls, the service, the consumers and stored machines, at concrete
-- inputs.
use seeds.Base.{
  ℕ, ◌+◌, ◌≤◌, ◌<◌, String, ◌≡◌, refl, ◌⊎◌, inl, inr, Bool, true, false, Option, none, some, List,
  [], ◌∷◌, length,
}
use seeds.Dict.{Dict, get, contains}
use seeds.Act.{done, network_error}
use seeds.Ivr.Model.{IvrCallState, hangup_ncco, text}
use seeds.Ivr.Machine.{Menu, Fsm, new_fsm}
use seeds.Ivr.Samples.{world, menu, linked, bare, caller}
use seeds.Ivr.Collection.Tables.{tables}
use seeds.Ivr.Repository.{
  Operation, save, await_key, claim, pop, processed, ask_duplicate, perform_all, save_ongoing_call,
  without_dtmf, next_version,
}
use seeds.Ivr.Repository.Contract.{steps}
use seeds.Ivr.Repository.Refine.{view, told_all, perform_all_refines}
use seeds.Ivr.Repository.Once.{
  sum_of, one_if, is_save, is_await, is_delivery, claim_room, answer_room, trace,
  save_ongoing_call-once, pop_dtmf_result-once,
}
use seeds.Ivr.Service.{
  Request, Surroundings, Service, carried, failed, update_call, read_call, disturbed,
}
use seeds.Ivr.Service.Dtmf.{advance}
use seeds.Ivr.Service.Stale.{advance-stored}
use seeds.Ivr.Service.Lifecycle.{CallEvent, completed, ringing, process_call_event}
use seeds.Ivr.Service.Lifecycle.Archive.{
  IsGone, IsStuck, IsSane, process_call_event-ended, process_call_event-revived,
}
use seeds.Ivr.Service.Lifecycle.Progress.{process_call_event-overwrites}
use seeds.Ivr.Service.Calls.{Answers, start_call_flow}
use seeds.Ivr.Service.Calls.Starting.{IsStarted, start_call_flow-stored}
use seeds.Ivr.Consumers.{DtmfMessage, record_processed, process}
use seeds.Ivr.Consumers.Delivery.{process-twice}
use seeds.Ivr.Stored.{serialize, deserialize}
use seeds.Ivr.Stored.RoundTrip.{IsStorable, deserialize-serialize}
use seeds.Ivr.Stored.Menus.{deserialize-menu}

abbrev Rows : Type 0
Rows = Dict IvrCallState

abbrev one_call : Rows
one_call = ("call", caller) ∷ []

-- Two tasks save what both have read, and a key press is announced, answered and taken.
abbrev mixed : List Operation
mixed =
    await_key 1 "call" "press"
    ∷ save 2 caller
    ∷ save 3 caller
    ∷ claim 4 "call" "press" (hangup_ncco ∷ []) true
    ∷ claim 5 "call" "press" [] false
    ∷ pop 6 "call" "press"
    ∷ pop 7 "call" "press"
    ∷ []

perform_all_refines_example :
    let (t, c) = perform_all tables mixed one_call in
    (told_all t, view tables c) ≡ steps mixed (view tables one_call)
perform_all_refines_example = perform_all_refines tables mixed one_call

save_ongoing_call-once_example :
    sum_of (λ e. one_if (is_save "call" 0 e)) (trace tables mixed one_call) ≤ 1
save_ongoing_call-once_example = save_ongoing_call-once tables "call" 0 mixed one_call

pop_dtmf_result-once_example :
    sum_of (λ e. one_if (is_delivery "call" "press" e)) (trace tables mixed one_call)
    ≤ answer_room "press" (view tables one_call "call")
      + claim_room "press" (view tables one_call "call")
      + sum_of (λ o. one_if (is_await "call" "press" o)) mixed
pop_dtmf_result-once_example = pop_dtmf_result-once tables "call" "press" mixed one_call

-- Surroundings in which every request is carried out and no other task is at work.
abbrev calm : Surroundings Rows
calm = record {
  settings = record { base_url = "url"; default_welcome_language = "kn"; stale_wait = 10 };
  meanwhile = λ h c. c;
  carries = λ h r. carried;
  clock = λ h. 100;
  machine = world;
  get_url_with_sas = λ url. url;
  vonage_language_code = λ language. "kn-IN";
  paused_announcement = λ language. "paused";
  resuming_announcement = λ language. "resuming";
}

-- After the first request of the service, another task stores a key press.
abbrev pressed_once : IvrCallState
pressed_once = record caller { current_state_id = "story"; version = 1 }

abbrev slow : Surroundings Rows
slow = record calm { meanwhile = λ h c. elim h [ [] ↦ c | r ∷ h ↦ ("call", pressed_once) ∷ [] ] }

abbrev service : Service Rows
service = record {
  ongoing = one_call;
  logs = [];
  fsm_cache = ("f", linked) ∷ [];
  latest_fsm_id = some "f";
  machine_calls = [];
  calls = [];
}

advance-stored_example :
    (e : IvrCallState) × (get "call"
        (advance tables calm ("7" ∷ []) linked caller service).1.ongoing
      ≡ some e)
    × (e.version ≡ 1)
    × (length e.user_actions ≡ 0 + 1)
unfolding advance seeds.Act.◌>>=◌ seeds.Ivr.Service.Dtmf.press_keys seeds.Ivr.Service.Dtmf.press_all
    seeds.Ivr.Service.Dtmf.press seeds.Ivr.Fsm.get_next_actions seeds.Act.maybe get
    seeds.Base.String-discrete seeds.Ivr.Service.Dtmf.save_then seeds.Ivr.Service.Dtmf.save_call
    seeds.Ivr.Service.db seeds.Ivr.Service.delivered save_ongoing_call
    seeds.Ivr.Repository.save_result tables seeds.Ivr.Accumulator.any_input
    seeds.Ivr.Fsm.refuse_input seeds.Act.catch seeds.Act.gets seeds.Act.pure seeds.Act.raise
    seeds.Act.reading seeds.Act.when seeds.Act.write seeds.Base.◌+ℤ◌ seeds.Dict.insert
    seeds.Dict.remove seeds.Ivr.Accumulator.combine seeds.Ivr.Accumulator.get_action_implementation
    seeds.Ivr.Accumulator.get_ncco seeds.Ivr.Accumulator.has_text seeds.Ivr.Accumulator.is_input
    seeds.Ivr.Collection.Tables.count_of seeds.Ivr.Collection.Tables.drop
    seeds.Ivr.Collection.Tables.first_of seeds.Ivr.Collection.Tables.update
    seeds.Ivr.Collection.Tables.upsert seeds.Ivr.Fsm.any_connect seeds.Ivr.Fsm.apply_limit
    seeds.Ivr.Fsm.check_daily_limit seeds.Ivr.Fsm.check_limit seeds.Ivr.Fsm.enter
    seeds.Ivr.Fsm.execute_operation seeds.Ivr.Fsm.execute_output seeds.Ivr.Fsm.find_usage_of
    seeds.Ivr.Fsm.follow seeds.Ivr.Fsm.is_connect seeds.Ivr.Fsm.limit_announcement
    seeds.Ivr.Fsm.output_actions seeds.Ivr.Fsm.over_limit seeds.Ivr.Fsm.perform
    seeds.Ivr.Fsm.prepare_action seeds.Ivr.Fsm.prepare_actions_for_call seeds.Ivr.Fsm.put_actions
    seeds.Ivr.Fsm.set_actions new_fsm
advance-stored_example =
    advance-stored tables calm ("7" ∷ []) linked caller service (some _, true) refl

abbrev the_end : CallEvent
the_end = record {
  status = "completed";
  timestamp = some ("12:00:00", some "25");
  duration = some (text "30");
}

calm-IsSane : IsSane tables calm "call"
calm-IsSane h q b e = cc e

process_call_event-ended_example :
    let c = (process_call_event tables calm "call" "conv" the_end service).1 in
    IsGone tables calm "call" c ⊎ IsStuck tables calm "call" c
unfolding process_call_event seeds.Ivr.Service.Lifecycle.status_of get seeds.Base.String-discrete
    seeds.Ivr.Service.Lifecycle.is_end seeds.Act.◌>>=◌ seeds.Ivr.Service.Dtmf.attempt
    seeds.Ivr.Service.db seeds.Ivr.Service.delivered seeds.Act.maybe tables
    seeds.Ivr.Service.Lifecycle.on_status seeds.Ivr.Service.Lifecycle.end_call
    seeds.Ivr.Collection.Tables.update seeds.Ivr.Service.Lifecycle.put_log seeds.Ivr.Service.ask
    seeds.Ivr.Service.Dtmf.from_mongo seeds.Ivr.Service.Lifecycle.set_call
    seeds.Ivr.Service.Lifecycle.set_fields seeds.Ivr.Service.Lifecycle.set_at
    seeds.Ivr.Service.Lifecycle.within
process_call_event-ended_example =
    process_call_event-ended tables calm "call" calm-IsSane "conv" the_end completed service refl
      refl refl

process_call_event-revived_example :
    let after = (process_call_event tables calm "call" "conv" the_end service).1 in
    let (r, c) = save_ongoing_call tables 200 caller after.ongoing in
    ((r.0 ≡ true) × (get "call" c ≡ some (without_dtmf (next_version 200 caller))))
    ⊎ IsStuck tables calm "call" after
unfolding process_call_event seeds.Ivr.Service.Lifecycle.status_of get seeds.Base.String-discrete
    seeds.Ivr.Service.Lifecycle.is_end seeds.Act.◌>>=◌ seeds.Ivr.Service.Dtmf.attempt
    seeds.Ivr.Service.db seeds.Ivr.Service.delivered seeds.Act.maybe tables
    seeds.Ivr.Service.Lifecycle.on_status seeds.Ivr.Service.Lifecycle.end_call
    seeds.Ivr.Collection.Tables.update seeds.Ivr.Service.Lifecycle.put_log seeds.Ivr.Service.ask
    seeds.Ivr.Service.Dtmf.from_mongo seeds.Ivr.Service.Lifecycle.set_call
    seeds.Ivr.Service.Lifecycle.set_fields seeds.Ivr.Service.Lifecycle.set_at
    seeds.Ivr.Service.Lifecycle.within
process_call_event-revived_example =
    process_call_event-revived tables calm "call" calm-IsSane "conv" the_end completed service 200
      caller refl refl refl refl

abbrev ringing_event : CallEvent
ringing_event = record the_end { status = "ringing" }

process_call_event-overwrites_example :
    (g : IvrCallState) × (get "call"
        (process_call_event tables slow "call" "conv" ringing_event service).1.ongoing
      ≡ some g)
    × (g.current_state_id ≡ "LA0")
    × (g.version ≡ 1)
    × (g.user_actions ≡ [])
unfolding get tables seeds.Base.String-discrete seeds.Ivr.Service.Lifecycle.status_of
    seeds.Ivr.Service.Lifecycle.is_end seeds.Ivr.Service.Lifecycle.set_at
    seeds.Ivr.Service.Lifecycle.within
process_call_event-overwrites_example =
    process_call_event-overwrites tables slow "call" "conv" ringing_event ringing caller
      pressed_once _ service refl refl refl refl refl refl refl refl

abbrev answers : Answers
answers = record {
  created = λ h. done (some ("conv", "leg"));
  usage = λ h. done none;
  stored = λ h. done none;
  built = λ h. done linked;
  daily_limit_announcement = "limit";
  language_code = "kn-IN";
  limit_seconds = 600;
  storage_account_name = "store";
}

start_call_flow-stored_example :
    IsStarted tables calm answers "number" "tenant"
      (start_call_flow tables calm answers "number" "tenant" service).1
unfolding start_call_flow seeds.Act.reading seeds.Act.◌>>=◌ seeds.Ivr.Service.db
    seeds.Ivr.Service.delivered seeds.Act.maybe tables seeds.Ivr.Collection.Tables.first_of
    seeds.Ivr.Collection.Tables.drop seeds.Base.String-discrete
    seeds.Ivr.Service.Calls.limit_is_reached seeds.Ivr.Service.Calls.fetch
    seeds.Ivr.Service.Calls.usage_of seeds.Ivr.Service.Calls.start_new
    seeds.Ivr.Service.Calls.ensure_fsm_loaded get seeds.Ivr.Service.Calls.start_with
    seeds.Ivr.Machine.get_start_fsm_actions seeds.Act.catch seeds.Act.pure seeds.Dict.remove
    seeds.Ivr.Service.Calls.call_with seeds.Ivr.Service.Calls.make_call
    seeds.Ivr.Service.Calls.stale_cutoff seeds.Ivr.Service.Calls.store_call new_fsm
start_call_flow-stored_example =
    start_call_flow-stored tables calm answers "number" "tenant" service refl

abbrev message : DtmfMessage
message = record {
  message_id = "press";
  conversation_uuid = some "conv";
  call_leg_id = some "call";
  digits = "1" ∷ [];
  timed_out = false;
}

process-twice_example :
    let t = (record_processed tables calm "call" "press" service).1 in
    process tables calm message t ≡ (done tt, disturbed calm read_call t)
unfolding record_processed seeds.Base.String-discrete seeds.Act.reading seeds.Ivr.Service.db
    seeds.Ivr.Service.delivered seeds.Ivr.Repository.record_dtmf_processed tables get
process-twice_example =
    process-twice tables calm message "call" service refl refl refl refl refl refl

linked-IsStorable : IsStorable "store" linked
unfolding get seeds.Base.String-discrete new_fsm
linked-IsStorable = record {
  nodes = ((refl, refl, (refl, tt), ((refl, refl, refl), tt)), ((refl, refl, tt, tt), tt));
  distinct = (refl, (refl, tt));
  begins = refl;
  standard = refl;
}

deserialize-serialize_example : deserialize "store" (serialize linked) ≡ some linked
deserialize-serialize_example = deserialize-serialize "store" linked linked-IsStorable

abbrev shown_menu : Menu
shown_menu = record { description = "welcome"; options = []; level = 0; language = some "kn" }

abbrev with_menu : Fsm
with_menu = record bare { states = ("LA0", record menu { menu = some shown_menu }) ∷ [] }

deserialize-menu_example : deserialize "store" (serialize with_menu) ≡ none
unfolding get seeds.Base.String-discrete
deserialize-menu_example =
    deserialize-menu "store" "LA0" (record menu { menu = some shown_menu }) shown_menu with_menu
      refl refl
