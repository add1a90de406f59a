-- ===== src/Conference/CallerState.antt =====
-- platform/app/services/caller_state_service.py: what a long poll of a conference sees. Every update
-- of a conference's participants raises its version by one.
pub mod Updates
use seeds.Base.{ℕ, ◌+◌, String, none, some, [], ◌∷◌}
use seeds.Dict.{Dict, get, insert}
use seeds.Conference.Model.{Value}

pub record CallerState : Type 0 where
  pub states : Dict (Dict (Dict Value))
  pub versions : Dict ℕ

-- `d.get(k, default)`
abbrev pub get_or {ℓ} : {V : Type ℓ} → String → Dict V → V → V
get_or k d default = elim (get k d) [ none ↦ default | some v ↦ v ]

-- `old.update(new)`
unfoldable pub update_with : Dict Value → Dict Value → Dict Value
update_with [] old = old
update_with ((k, v) ∷ new) old = update_with new (insert k v old)

unfoldable pub update_state : String → String → Dict Value → CallerState → CallerState
update_state conference_id participant_id new_state s =
    let participants = get_or conference_id s.states [] in
    record s {
      states =
          insert conference_id
            (insert participant_id (update_with new_state (get_or participant_id participants []))
              participants)
            s.states;
      versions = insert conference_id (get_or conference_id s.versions 0 + 1) s.versions;
    }

unfoldable pub get_current_state : String → CallerState → Dict (Dict Value) × ℕ
get_current_state conference_id s =
    (get_or conference_id s.states [], get_or conference_id s.versions 0)
