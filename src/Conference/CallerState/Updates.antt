-- ===== src/Conference/CallerState/Updates.antt =====
-- What an update of platform/app/services/caller_state_service.py changes, and what it leaves.
use seeds.Base.{◌+◌, String, ◌≡◌, refl, ◌≢◌, none, [], ◌∷◌, arith}
use seeds.Dict.{Dict, get, insert, get-insert, get-insert_ne}
use seeds.Conference.Model.{Value}
use seeds.Conference.CallerState.{CallerState, get_or, update_with, update_state, get_current_state}

get_or-insert_self {ℓ} :
    {V : Type ℓ} (k : String) (v w : V) (d : Dict V) → get_or k (insert k v d) w ≡ v
get_or-insert_self k v w d = ground (arith, get-insert k k v d)

get_or-insert_ne {ℓ} :
    {V : Type ℓ} (k j : String) (v w : V) (d : Dict V)
    → k ≢ j
    → get_or j (insert k v d) w ≡ get_or j d w
get_or-insert_ne k j v w d ne = ground (arith, get-insert k j v d, ne)

-- A key that the new values do not name keeps its value.
pub get-update_with_missing :
    (k : String) (new old : Dict Value) → get k new ≡ none → get k (update_with new old) ≡ get k old
unfolding get update_with
get-update_with_missing k [] old h = refl
get-update_with_missing k ((j, v) ∷ new) old h =
    ground (arith, get-update_with_missing k new (insert j v old), get-insert j k v old)

-- An update raises the version of its own conference by one, and leaves what any other conference
-- shows as it is, version included.
pub get_current_state-update_state :
    (c p j : String) (new : Dict Value) (s : CallerState)
    → c ≢ j
    → ((get_current_state c (update_state c p new s)).1 ≡ (get_current_state c s).1 + 1)
      × (get_current_state j (update_state c p new s) ≡ get_current_state j s)
unfolding get_current_state update_state
get_current_state-update_state c p j new s ne = (
  get_or-insert_self c (get_or c s.versions 0 + 1) 0 s.versions,
  rw (get_or-insert_ne c j _ _ s.states ne, get_or-insert_ne c j _ _ s.versions ne),
)

-- A participant's key that an update does not name keeps its value, and the other participants of
-- the conference keep everything.
pub get-update_state :
    (c p : String) (new : Dict Value) (s : CallerState) (k q : String)
    → p ≢ q
    → get k new ≡ none
    → (get q (get_current_state c (update_state c p new s)).0 ≡ get q (get_current_state c s).0)
      × (get k (get_or p (get_current_state c (update_state c p new s)).0 [])
          ≡ get k (get_or p (get_current_state c s).0 []))
unfolding get_current_state update_state
get-update_state c p new s k q ne missing = rw (get_or-insert_self c _ _ s.states) (
  get-insert_ne p q _ _ ne,
  rw (get_or-insert_self p _ _ _) (get-update_with_missing k new _ missing),
)
