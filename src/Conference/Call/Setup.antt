-- ===== src/Conference/Call/Setup.antt =====
-- Who is who in a new conference.
use seeds.Base.{
  String, ◌==◌, ◌≡◌, refl, ◌≢◌, true, false, Option, none, some, List, [], ◌∷◌, arith, text_or,
  if◌then◌else◌,
}
use seeds.Dict.{Dict, get, insert, get-insert}
use seeds.Conference.Model.{
  Participant, new_participant, Role, teacher, student, ConferenceCallState,
}
use seeds.Conference.Call.{name_at, rest_of, add_students, is_among, set_participant_state}

-- the roles that the loop over the students leaves
abbrev pub role_of : Option Participant → Option Role
role_of none = none
role_of (some p) = some p.role

role-insert :
    (k phone name : String) (d : Dict Participant)
    → role_of (get k (insert phone (new_participant name phone student true false) d))
      ≡ (if phone == k then some student else role_of (get k d))
role-insert k phone name d =
    ground (arith, get-insert phone k (new_participant name phone student true false) d)

role-add_students :
    (k : String) (phones : List String) (names : List (Option String)) (d : Dict Participant)
    → role_of (get k (add_students phones names d))
      ≡ (if is_among k phones then some student else role_of (get k d))
unfolding add_students is_among
role-add_students k [] names d = refl
role-add_students k (p ∷ ps) names d = ground (
  arith,
  role-add_students k ps (rest_of names)
      (insert p (new_participant (name_at names) p student true false) d),
  role-insert k p (name_at names) d,
)

-- In a new conference the participants are exactly the teacher's number and the students' numbers,
-- and a number among the students' has the role of a student, also where it is the teacher's.
pub set_participant_state-roles :
    (t : String) (ps : List String) (l n : Option String) (ns : List (Option String))
    (s : ConferenceCallState) (k : String)
    → role_of (get k (set_participant_state t ps l n ns s).participants)
      ≡ (if is_among k ps then some student else if t == k then some teacher else none)
unfolding set_participant_state get
set_participant_state-roles t ps l n ns s k = ground (
  arith,
  role-add_students k ps ns ((t, new_participant (text_or n "Teacher") t teacher false false) ∷ []),
)

-- The leader of a new conference is one of its students, unless the leader is the empty text.
pub set_participant_state-leader :
    (t : String) (ps : List String) (l n : Option String) (ns : List (Option String))
    (s : ConferenceCallState) (leader : String)
    → (set_participant_state t ps l n ns s).leader_phone_number ≡ some leader
    → leader ≢ ""
    → is_among leader ps ≡ true
unfolding set_participant_state
set_participant_state-leader t ps l n ns s leader h ne = ground arith
