-- ===== src/Conference/Cases.antt =====
-- The theorems on single operations of a conference, at the small lesson.
use seeds.Base.{
  text_ne, ℕ, String, ◌≡◌, refl, ◌≢◌, ◌==◌, Bool, true, false, Option, none, some, List, [], ◌∷◌,
  ◌++◌, All, length, ◌+◌, ◌≤◌, arith, negsuc, ◌⊎◌, min, max, ◌-◌, if◌then◌else◌,
}
use seeds.Dict.{Dict, get, contains}
use seeds.Act.{done, raised, other_error, connection_error, Reply}
use seeds.Conference.Model.{
  Participant, new_participant, teacher, student, connected, initial_state, ConferenceCallState,
  text,
}
use seeds.Conference.World.{CallData, create_call}
use seeds.Conference.Dialing.{create_call_with_retry}
use seeds.Conference.Call
use seeds.Conference.Call.{
  over, absent, ConferenceCall, ConferenceEvent, set_participant_state, is_among,
}
use seeds.Conference.Call.Setup.{role_of, set_participant_state-roles}
use seeds.Conference.Manager.Starting.{start_call-cleans_up}
use seeds.Conference.Manager.{
  start_call, Manager, Factories, get_conference_from_phone_number, restore_from_redis,
}
use seeds.Conference.CallerState.{CallerState, get_current_state}
use seeds.Conference.Dispatcher.{dispatch_conference_event}
use seeds.Conference.Dispatcher.Delivery.{dispatch_conference_event-one}
use seeds.Conference.Events.Timer
use seeds.Conference.Events.Participants.{mute_participant_event, unmute_participant_event}
use seeds.Conference.Events.Participants.Muting.{mute_participant-mutes}
use seeds.Conference.Drain.Countdown.{timer_expired-ends, timer_expired-lost, monitor_round-ends}
use seeds.Conference.Samples.{world, broken, api, pupil, lesson_state, lesson}

abbrev call_data : CallData
call_data = record { to = "s1"; from = "100"; event_url = "https://events"; ncco = [] }

set_participant_state-roles_example :
    role_of
      (get "s1" (set_participant_state "t" ("s1" ∷ []) none none [] initial_state).participants)
    ≡ some student
unfolding is_among seeds.Base.String-discrete
set_participant_state-roles_example =
    set_participant_state-roles "t" ("s1" ∷ []) none none [] initial_state "s1"

abbrev manager : Manager
manager = record { conferences = ("c1", lesson) ∷ []; deletions = []; calls = [] }

abbrev factories : Factories
factories = record {
  communication_api = λ conf url. api;
  connection_manager = true;
  storage_manager = true;
  ws_base_url = "wss://audio";
}

abbrev callers : CallerState
callers = record { states = []; versions = [] }

abbrev answered : Dict String
answered = ("status", "answered") ∷ ("to", "s1") ∷ []

dispatch_conference_event-one_example :
    ((es : List ConferenceEvent) × (get "c1"
          (dispatch_conference_event answered "c1" manager callers).0.conferences
        ≡ some (record lesson { event_queue = lesson.event_queue ++ es }))
      × (length es ≤ 1))
    × (get "c2" (dispatch_conference_event answered "c1" manager callers).0.conferences
        ≡ get "c2" manager.conferences)
    × (get_current_state "c2" (dispatch_conference_event answered "c1" manager callers).1
        ≡ get_current_state "c2" callers)
unfolding get seeds.Base.String-discrete
dispatch_conference_event-one_example =
    dispatch_conference_event-one answered "c1" "c2" lesson manager callers refl
      (text_ne "c1" "c2" refl)

mute_participant-mutes_example :
    get "s1" (mute_participant_event world "s1" false lesson).1.state.participants
    ≡ some (record pupil { is_muted = true })
unfolding get seeds.Base.String-discrete mute_participant_event seeds.Act.reading seeds.Act.when
    seeds.Act.◌>>=◌ Call.on_line seeds.Conference.Vonage.mute_participant
    seeds.Conference.Vonage.on_leg seeds.Conference.Dialing.io
    seeds.Conference.RedisStore.get_participant seeds.Conference.World.ask seeds.Act.maybe
    Call.write_state Call.log_action Call.io seeds.Conference.World.now seeds.Act.catch
    seeds.Act.pure seeds.Act.write Call.append_action Call.stream_system_message Call.update_state
    seeds.Conference.Events.Participants.mark_muted
    seeds.Conference.Events.Participants.set_participants seeds.Conference.Model.get_teacher
    seeds.Conference.Model.get_user_action_history seeds.Conference.Model.model_dump
    seeds.Conference.RedisStore.key seeds.Conference.RedisStore.participants_key
    seeds.Conference.RedisStore.save seeds.Conference.World.perform seeds.Dict.modify
mute_participant-mutes_example = mute_participant-mutes world "s1" false pupil lesson refl refl

-- the countdown has run out
abbrev waiting : ConferenceCall
waiting = record lesson {
  state = record lesson_state {
    auto_end_state = record {
      is_active = true;
      started_at = some 0;
      expires_at = some 500;
      timeout_minutes = some 5;
    };
  };
}

timer_expired-ends_example :
    (Timer.timer_expired_event world 5 waiting).1.event_queue ≡ Call.end_conference ∷ []
unfolding seeds.Conference.Model.get_teacher seeds.Base.String-discrete get
    Timer.timer_expired_event seeds.Act.reading seeds.Act.when Timer.expire_absent seeds.Act.◌>>=◌
    Call.log_action Call.io seeds.Conference.World.now seeds.Conference.World.ask Call.write_state
    Call.update_state seeds.Conference.World.perform seeds.Conference.RedisStore.save
    Call.queue_event seeds.Act.pure seeds.Act.write Call.append_action Timer.expire_connected
    Timer.set_timer seeds.Conference.Model.get_user_action_history seeds.Conference.Model.model_dump
    seeds.Conference.RedisStore.key
timer_expired-ends_example = timer_expired-ends world 5 waiting refl refl refl

timer_expired-lost_example :
    ((Timer.timer_expired_event broken 5 waiting).1.event_queue ≡ [])
    × ((Timer.timer_expired_event broken 5 waiting).1.state.auto_end_state.is_active ≡ false)
unfolding seeds.Conference.Model.get_teacher seeds.Base.String-discrete get
    Timer.timer_expired_event seeds.Act.reading seeds.Act.when Timer.expire_absent seeds.Act.◌>>=◌
    Call.log_action Call.io seeds.Conference.World.now seeds.Conference.World.ask Call.write_state
    Call.update_state seeds.Conference.World.perform
timer_expired-lost_example = timer_expired-lost broken 5 waiting connection_error refl refl refl

monitor_round-ends_example :
    ((Timer.monitor_round world 5 0 waiting).1.event_queue ≡ Call.auto_end_timer_expired 5 ∷ [])
    ⊎ ((Timer.monitor_round world 5 0 waiting).1.event_queue ≡ Call.auto_end_timer_failed ∷ [])
unfolding Timer.monitor_round seeds.Act.reading seeds.Act.catch seeds.Act.◌>>=◌ Timer.monitor_check
    Call.io seeds.Conference.World.now seeds.Conference.World.ask seeds.Act.maybe Call.queue_event
monitor_round-ends_example = monitor_round-ends world 5 0 waiting refl refl

start_call-cleans_up_example :
    ((start_call broken lesson).1.event_queue_processing_task ≡ over)
    × ((start_call broken lesson).1.remote_audio_task ≡ absent)
unfolding start_call seeds.Act.◌>>=◌ seeds.Conference.Manager.request_start Call.log_action Call.io
    seeds.Conference.World.now seeds.Conference.World.ask Call.write_state Call.update_state
    seeds.Act.when Call.start_remote_audio_relay Call.start_processing_conf_events_from_queue
    seeds.Conference.World.perform seeds.Conference.Manager.start_failed
    seeds.Conference.Manager.report_failure Call.stop_remote_audio_relay
    Call.end_processing_conf_events_from_queue seeds.Act.Gather.attempt
    seeds.Act.Gather.first_failure seeds.Act.Gather.gather seeds.Act.Gather.gather_results
    seeds.Act.catch seeds.Act.gets seeds.Act.pure seeds.Act.raise seeds.Act.reading seeds.Act.write
    seeds.Base.String-discrete Call.append_action Call.on_line Call.restore_auto_end_timer
    Call.start_conference seeds.Conference.Model.get_students seeds.Conference.Model.get_teacher
    seeds.Conference.Model.get_user_action_history seeds.Conference.Model.model_dump
    seeds.Conference.RedisStore.key seeds.Conference.RedisStore.participants_key
    seeds.Conference.RedisStore.save seeds.Conference.RedisStore.save_participant
    seeds.Conference.Dialing.add_participant_to_conference seeds.Conference.Dialing.call_data_for
    seeds.Conference.Dialing.create_call_from create_call_with_retry
    seeds.Conference.Vonage.dial_batches seeds.Conference.Dialing.io
    seeds.Conference.Vonage.start_conf seeds.Conference.Dialing.welcome_ncco get
start_call-cleans_up_example = start_call-cleans_up broken lesson connection_error refl
