-- ===== src/Conference/Events/Timer.antt =====
-- The countdown that ends a conference which its teacher has left:
-- platform/app/services/confevents/teacher_disconnect_timer_event.py. Instants are in milliseconds.
use seeds.Base.{
  ℕ, suc, ◌+◌, ◌-◌, ◌*◌, min, leb, Bool, true, false, not, Option, none, some, [], ◌∷◌,
  if◌then◌else◌,
}
use seeds.Act.{maybe, Act, pure, raise, type_error, gets, reading, catch, write, ◌>>=◌, ◌>>◌, when}
use seeds.Conference.Model.{
  AutoEndState, ConferenceCallState, is_connected, get_teacher, text, number, instant,
  auto_end_timer_start, auto_end_timer_cancel, auto_end_timer_expired, teacher_has_joined,
}
use seeds.Conference.World.{External, sleep, perform, now}
use seeds.Conference.Call
use seeds.Conference.Call.{
  ConferenceCall, running, over, absent, Task, io, write_state, queue_event, log_action,
  teacher_or_empty, stream_system_message, update_state, append_action,
}

unfoldable pub set_timer : (AutoEndState → AutoEndState) → ConferenceCallState → ConferenceCallState
set_timer f s = record s { auto_end_state = f s.auto_end_state }

abbrev pub cleared : AutoEndState → AutoEndState
cleared a = record a { is_active = false; started_at = none; expires_at = none }

-- the teacher is known and connected
abbrev pub teacher_connected : ConferenceCallState → Bool
teacher_connected s = elim (get_teacher s) [ none ↦ false | some t ↦ is_connected t.call_status ]

-- the teacher is unknown or connected, so that no countdown is started
abbrev pub no_absent_teacher : ConferenceCallState → Bool
no_absent_teacher s = elim (get_teacher s) [ none ↦ true | some t ↦ is_connected t.call_status ]

-- `task.cancel()`, if there is a task that is not done
abbrev pub cancel : Task → Task
cancel running = over
cancel absent = absent
cancel over = over

abbrev pub minutes : ℕ → ℕ
minutes n = n * 60000

module _ (x : External) where
  -- the countdown starts at `t`
  unfoldable pub begin_countdown : ℕ → Act ConferenceCall (Unit {0})
  begin_countdown t = do
    let limit = x.settings.auto_end_timeout_minutes
    write_state (
        set_timer (λ a. record {
          is_active = true;
          started_at = some t;
          expires_at = some (t + minutes limit);
          timeout_minutes = some limit;
        }))
    write_state (
        append_action (record {
          timestamp = t;
          action_type = auto_end_timer_start;
          metadata =
              ("timeout_minutes", number limit) ∷ ("expires_at", instant (t + minutes limit)) ∷ [];
          owner = "system";
        }))
    update_state x
    write (λ c. record c { auto_end_monitor_task = running })

  unfoldable pub start_timer_event : Act ConferenceCall (Unit {0})
  start_timer_event = reading λ c.
      when (x.settings.auto_end_enabled)
        (when (not (no_absent_teacher c.state)) (io (now x) >>= λ t. begin_countdown t))

  -- the teacher is back
  unfoldable pub expire_connected : Act ConferenceCall (Unit {0})
  expire_connected = do write_state (set_timer cleared); update_state x

  -- the teacher is away: the end waits until the state has been stored
  unfoldable pub expire_absent : ℕ → Act ConferenceCall (Unit {0})
  expire_absent timeout_minutes = do
    log_action x auto_end_timer_expired (("timeout_minutes", number timeout_minutes) ∷ [])
        (λ s. "system")
    write_state (set_timer cleared)
    update_state x
    queue_event Call.end_conference

  unfoldable pub timer_expired_event : ℕ → Act ConferenceCall (Unit {0})
  timer_expired_event timeout_minutes = reading λ c.
      when (c.state.auto_end_state.is_active)
        (if teacher_connected c.state then expire_connected else expire_absent timeout_minutes)

  unfoldable pub timer_failed_event : Act ConferenceCall (Unit {0})
  timer_failed_event = do
    write_state (set_timer (λ a. record a { is_active = false }))
    catch (update_state x) (λ e. pure tt)

  unfoldable pub cancel_timer_event : Act ConferenceCall (Unit {0})
  cancel_timer_event = reading λ c. when (c.state.auto_end_state.is_active) (do
    write_state (set_timer cleared)
    write (λ c'. record c' { auto_end_monitor_task = cancel c'.auto_end_monitor_task })
    log_action x auto_end_timer_cancel (("reason", text "teacher_reconnected") ∷ [])
        teacher_or_empty
    update_state x
    stream_system_message x teacher_has_joined)

  -- The `try` block of `_monitor_timer`: whether the loop ends. `fromisoformat(None)` raises.
  unfoldable pub monitor_check : ℕ → Act ConferenceCall Bool
  monitor_check timeout_minutes = do
    t ← io (now x)
    expires_at ← gets (λ c. c.state.auto_end_state.expires_at)
    maybe expires_at (raise type_error) λ e.
        if leb e t
        then (queue_event (Call.auto_end_timer_expired timeout_minutes) >> pure true)
        else (io (perform x (sleep (min (e - t) 30000))) >> pure false)

  -- One round of `_monitor_timer`, from the errors in a row so far: `none` where the loop ends, and
  -- else the errors in a row after it. Where the task is cancelled, the round is,
  -- and the loop ends there (`except CancelledError: break`).
  unfoldable pub monitor_round : ℕ → ℕ → Act ConferenceCall (Option ℕ)
  monitor_round timeout_minutes errors = reading λ c.
      if not c.state.auto_end_state.is_active
      then pure none
      else catch (monitor_check timeout_minutes >>= λ ended. pure (if ended then none else some 0))
          λ e.
            if leb 10 (suc errors)
            then (queue_event Call.auto_end_timer_failed >> pure none)
            else (io (perform x (sleep 30000)) >> pure (some (suc errors)))
