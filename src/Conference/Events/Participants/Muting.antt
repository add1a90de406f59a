-- ===== src/Conference/Events/Participants/Muting.antt =====
-- Whom muting and unmuting changes, and what is reported of it.
use seeds.Base.{
  arith, List, [], ◌∷◌, length, ◌+◌, true, String, ◌≡◌, refl, ◌≢◌, negsuc, ◌∙◌, Bool, true, false,
  Option, some, is_some, ap,
}
use seeds.Dict.{get, modify, get-modify_self, get-modify_ne}
use seeds.Act.{Reply, pure, ◌>>=◌, done, write}
use seeds.Act.Gather.{gather_results, attempt}
use seeds.Act.Keeps.{Keeps}
use seeds.Act.Reaches.{
  Reaches-reading, Reaches-when, Reaches, Reaches-done, Reaches-of, Reaches-then, Reaches-after,
}
use seeds.Conference.Model.{Participant, ConferenceCallState, ActionHistory}
use seeds.Conference.World.{External}
use seeds.Conference.Call.{ConferenceCall, write_state, append_action}
use seeds.Conference.Call.Keeps.{
  Holds, call_rules, Keeps-write_state, Keeps-update_state, Keeps-stream_system_message,
  Keeps-log_action,
}
use seeds.Conference.Events.Participants.{
  mute_student, count_done, failed_phones, set_participants, mark_muted, mark_unmuted,
  mute_participant_event, unmute_participant_event,
}

-- What the state has under a number.
abbrev Entry : String → Option Participant → ConferenceCallState → Type 0
Entry phone o s = get phone s.participants ≡ o

ignores_log :
    (phone : String) (o : Option Participant) (s : ConferenceCallState) (a : ActionHistory)
    → Entry phone o s
    → Entry phone o (append_action a s)
unfolding append_action
ignores_log phone o s a h = h

other-Entry :
    (phone j : String) (o : Option Participant) (f : Participant → Participant)
    → phone ≢ j
    → (s : ConferenceCallState) → Entry j o s
    → Entry j o (set_participants (modify phone f) s)
unfolding set_participants
other-Entry phone j o f ne s h = get-modify_ne phone j f s.participants ne ∙ h

ruleset entry_rules = (
  call_rules, ignores_log, Keeps-write_state, Keeps-update_state, Keeps-stream_system_message,
  Keeps-log_action, other-Entry,
)

-- the write
mark-Entry :
    (phone : String) (p : Participant) (f : Participant → Participant)
    → Reaches
        (Holds (Entry phone (some p)))
        (Holds (Entry phone (some (f p))))
        (write_state (set_participants (modify phone f)))
unfolding write_state write set_participants
mark-Entry phone p f =
    Reaches-of _ (λ c h. record { at = get-modify_self phone f p c.state.participants h.at })

module _ (x : External) (phone : String) (stream : Bool) (p : Participant) where
  mute-Reaches :
      Reaches
        (Holds (Entry phone (some p)))
        (Holds (Entry phone (some (mark_muted p))))
        (mute_participant_event x phone stream)
  unfolding mute_participant_event
  mute-Reaches = Reaches-reading _ (λ c h. Reaches-when _ _ (ap is_some h.at) (
      Reaches-after _ _ (search entry_rules)
        (λ u. Reaches-then _ _ (mark-Entry phone p mark_muted) (λ v. search entry_rules depth 14))))

  unmute-Reaches :
      Reaches
        (Holds (Entry phone (some p)))
        (Holds (Entry phone (some (mark_unmuted p))))
        (unmute_participant_event x phone stream)
  unfolding unmute_participant_event
  unmute-Reaches = Reaches-reading _ (λ c h. Reaches-when _ _ (ap is_some h.at) (
      Reaches-after _ _ (search entry_rules) (λ u.
        Reaches-then _ _ (mark-Entry phone p mark_unmuted) (λ v. search entry_rules depth 14))))

module _ (x : External) (phone j : String) (stream : Bool) (o : Option Participant)
    (ne : phone ≢ j) where
  mute-others : Keeps (Holds (Entry j o)) (mute_participant_event x phone stream)
  unfolding mute_participant_event
  mute-others = search (entry_rules, ne) depth 14

  unmute-others : Keeps (Holds (Entry j o)) (unmute_participant_event x phone stream)
  unfolding unmute_participant_event
  unmute-others = search (entry_rules, ne) depth 14

-- Where muting a participant of the conference returns, this participant is muted and is otherwise
-- what it was.
pub mute_participant-mutes :
    (x : External) (phone : String) (stream : Bool) (p : Participant) (c : ConferenceCall)
    → get phone c.state.participants ≡ some p
    → (mute_participant_event x phone stream c).0 ≡ done tt
    → get phone (mute_participant_event x phone stream c).1.state.participants
      ≡ some (record p { is_muted = true })
unfolding mark_muted
mute_participant-mutes x phone stream p c h e =
    (Reaches-done _ (mute-Reaches x phone stream p) c tt (record { at = h }) e).at

-- However muting a number ends, every other participant is what it was.
pub mute_participant-others :
    (x : External) (phone j : String) (stream : Bool) (c : ConferenceCall)
    → phone ≢ j
    → get j (mute_participant_event x phone stream c).1.state.participants
      ≡ get j c.state.participants
mute_participant-others x phone j stream c ne =
    ((mute-others x phone j stream (get j c.state.participants) ne).after c
      (record { at = refl })).at

-- Where unmuting a participant of the conference returns, this participant is not muted, its hand is
-- down and has no time, and it is otherwise what it was.
pub unmute_participant-unmutes :
    (x : External) (phone : String) (stream : Bool) (p : Participant) (c : ConferenceCall)
    → get phone c.state.participants ≡ some p
    → (unmute_participant_event x phone stream c).0 ≡ done tt
    → get phone (unmute_participant_event x phone stream c).1.state.participants
      ≡ some (record p { is_muted = false; is_raised = false; raised_at = negsuc 0 })
unfolding mark_unmuted
unmute_participant-unmutes x phone stream p c h e =
    (Reaches-done _ (unmute-Reaches x phone stream p) c tt (record { at = h }) e).at

-- However unmuting a number ends, every other participant is what it was.
pub unmute_participant-others :
    (x : External) (phone j : String) (stream : Bool) (c : ConferenceCall)
    → phone ≢ j
    → get j (unmute_participant_event x phone stream c).1.state.participants
      ≡ get j c.state.participants
unmute_participant-others x phone j stream c ne =
    ((unmute-others x phone j stream (get j c.state.participants) ne).after c
      (record { at = refl })).at

-- The results account for the numbers they belong to.
abbrev pub Accounted : List String → List (Reply Bool) → Type 0
Accounted phones rs = count_done rs + length (failed_phones phones rs) ≡ length phones

module _ (x : External) where
  mute_student-true :
      (phone : String) (c : ConferenceCall) (b : Bool)
      → (mute_student x phone c).0 ≡ done b
      → b ≡ true
  unfolding mute_student ◌>>=◌ pure
  mute_student-true phone c b h = ground arith

  -- Whatever the services answer, the students that are counted as muted and the numbers that are
  -- reported as failed are together as many as the students that were to be muted.
  pub mute_all-accounts :
      (phones : List String) (c : ConferenceCall) (rs : List (Reply Bool))
      → (gather_results (mute_student x) phones c).0 ≡ done rs
      → Accounted phones rs
  unfolding gather_results attempt ◌>>=◌ pure count_done failed_phones
  mute_all-accounts [] c rs h = ground arith
  mute_all-accounts (p ∷ ps) c rs h =
      grind (arith, mute_student-true p c, mute_all-accounts ps (mute_student x p c).1)
