-- ===== src/Conference/Validity.antt =====
-- What is true of a conference's state between two events, however its calls end.
pub mod Participants
pub mod Playback
pub mod Timer
pub mod Queue
use seeds.Base.{
  ℕ, pos, negsuc, String, ◌≡◌, refl, sym, subst, ℤ, List, ◌∷◌, Bool, true, false, Option, none,
  some, [], All, arith,
}
use seeds.Dict.{Dict, insert, remove, modify, All-insert, All-remove, All-modify}
use seeds.Act.{write, Act}
use seeds.Act.Keeps.{Keeps}
use seeds.Conference.Model.{
  Participant, new_participant, Role, student, CallStatus, AutoEndState, AudioContentState,
  ContentStatus, ConferenceCallState,
}
use seeds.Conference.World.{External}
use seeds.Conference.Call.{ConferenceCall, ConferenceEvent, append_action, write_state}
use seeds.Conference.Call.Keeps.{
  Holds, call_rules, Keeps-write_state, Keeps-update_state, Keeps-stream_system_message,
  Keeps-close_websocket, Keeps-log_action,
}
use seeds.Conference.Events.Participants.{
  set_participants, mark_muted, mark_unmuted, mark_connecting,
}
use seeds.Conference.Events.Playback.{set_audio}
use seeds.Conference.Events.Timer.{set_timer}
use seeds.Conference.Events.Status.{set_status, mark_hold}
use seeds.Conference.Events.Dtmf.{mark_raised}

-- A raised hand has the time at which it was raised, and no other has one.
abbrev pub HandAgrees : Participant → Type 0
HandAgrees p = elim p.is_raised [
  | true ↦ (t : ℕ) × (p.raised_at ≡ pos t)
  | false ↦ p.raised_at ≡ negsuc 0
]

-- A participant stands under its own number.
abbrev pub IsEntry : String × Participant → Type 0
IsEntry (k, p) = (p.phone_number ≡ k) × HandAgrees p

-- An active countdown has a beginning and an end.
abbrev pub IsTimer : AutoEndState → Type 0
IsTimer a = elim a.is_active [
  | true ↦ (s : ℕ) × (e : ℕ) × (a.started_at ≡ some s) × (a.expires_at ≡ some e)
  | false ↦ Unit {0}
]

pub record IsValid (s : ConferenceCallState) : Type 0 where
  pub entries : All IsEntry s.participants
  pub timer : IsTimer s.auto_end_state

-- A change of a participant that keeps its number and the state of its hand.
abbrev pub KeepsEntry : (Participant → Participant) → Type 0
KeepsEntry f = (k : String) (p : Participant) → IsEntry (k, p) → IsEntry (k, f p)

pub mark_muted-IsEntry : KeepsEntry mark_muted
unfolding mark_muted
mark_muted-IsEntry k p h = h

pub mark_unmuted-IsEntry : KeepsEntry mark_unmuted
unfolding mark_unmuted
mark_unmuted-IsEntry k p h = (h.0, refl)

pub mark_connecting-IsEntry : (name : Option String) → KeepsEntry (mark_connecting name)
unfolding mark_connecting
mark_connecting-IsEntry name k p h = h

pub set_status-IsEntry : (status : CallStatus) → KeepsEntry (set_status status)
unfolding set_status
set_status-IsEntry status k p h = h

pub mark_raised-IsEntry : (t : ℕ) → KeepsEntry (mark_raised t)
unfolding mark_raised
mark_raised-IsEntry t k p h = (h.0, (t, refl))

pub modify-IsValid :
    (phone : String) (f : Participant → Participant)
    → KeepsEntry f
    → (s : ConferenceCallState) → IsValid s
    → IsValid (set_participants (modify phone f) s)
unfolding set_participants
modify-IsValid phone f k s v = record {
  entries = All-modify IsEntry phone f s.participants k v.entries;
  timer = v.timer;
}

pub insert-IsValid :
    (phone name : String) (r : Role) (m a : Bool) (s : ConferenceCallState)
    → IsValid s
    → IsValid (set_participants (insert phone (new_participant name phone r m a)) s)
unfolding set_participants
insert-IsValid phone name r m a s v = record {
  entries =
      All-insert IsEntry phone (new_participant name phone r m a) s.participants (refl, refl)
        v.entries;
  timer = v.timer;
}

pub remove-IsValid :
    (phone : String) (s : ConferenceCallState)
    → IsValid s
    → IsValid (set_participants (remove phone) s)
unfolding set_participants
remove-IsValid phone s v = record {
  entries = All-remove IsEntry phone s.participants v.entries;
  timer = v.timer;
}

pub set_timer-IsValid :
    (f : AutoEndState → AutoEndState)
    → ((a : AutoEndState) → IsTimer a → IsTimer (f a))
    → (s : ConferenceCallState) → IsValid s
    → IsValid (set_timer f s)
unfolding set_timer
set_timer-IsValid f k s v = record { entries = v.entries; timer = k s.auto_end_state v.timer }

pub append_action-IsValid :
    (s : ConferenceCallState) (a : _) → IsValid s → IsValid (append_action a s)
unfolding append_action
append_action-IsValid s a v = record { entries = v.entries; timer = v.timer }

-- A write that touches neither the participants nor the countdown.
pub same-IsValid :
    (f : ConferenceCallState → ConferenceCallState)
    → ((s : ConferenceCallState) → (f s).participants ≡ s.participants)
    → ((s : ConferenceCallState) → (f s).auto_end_state ≡ s.auto_end_state)
    → (s : ConferenceCallState) → IsValid s
    → IsValid (f s)
same-IsValid f ps ts s v = record {
  entries = subst (All IsEntry) (sym (ps s)) v.entries;
  timer = subst IsTimer (sym (ts s)) v.timer;
}

pub same_participants : (s : ConferenceCallState) → s.participants ≡ s.participants
same_participants s = refl

pub same_timer : (s : ConferenceCallState) → s.auto_end_state ≡ s.auto_end_state
same_timer s = refl

pub set_audio-IsValid :
    (f : AudioContentState → AudioContentState) (s : ConferenceCallState)
    → IsValid s
    → IsValid (set_audio f s)
unfolding set_audio
set_audio-IsValid f s v = record { entries = v.entries; timer = v.timer }

pub mark_hold-IsValid : (s : ConferenceCallState) → IsValid s → IsValid (mark_hold s)
unfolding mark_hold
mark_hold-IsValid s v = record { entries = v.entries; timer = v.timer }

-- the timer's writes
pub started-IsTimer :
    (t e m : ℕ) (a : AutoEndState)
    → IsTimer a
    → IsTimer (record {
      is_active = true;
      started_at = some t;
      expires_at = some e;
      timeout_minutes = some m;
    })
started-IsTimer t e m a h = (t, e, refl, refl)

pub stopped-IsTimer : (a : AutoEndState) → IsTimer a → Unit {0}
stopped-IsTimer a h = tt

pub ruleset valid_rules = (
  call_rules, Keeps-write_state, Keeps-update_state, Keeps-stream_system_message,
  Keeps-close_websocket, Keeps-log_action, append_action-IsValid, modify-IsValid, insert-IsValid,
  remove-IsValid, mark_muted-IsEntry, mark_unmuted-IsEntry, mark_connecting-IsEntry,
  set_status-IsEntry, mark_raised-IsEntry, same-IsValid, same_participants, same_timer,
  set_audio-IsValid, mark_hold-IsValid, set_timer-IsValid, started-IsTimer, stopped-IsTimer,
)
