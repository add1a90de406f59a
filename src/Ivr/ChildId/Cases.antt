-- ===== src/Ivr/ChildId/Cases.antt =====
-- The theorems on the ids of the children of a menu, for the child `Farm` and the child `Optics` of a page,
-- and on its pages, for nine values.
use seeds.Base.{
  ℕ, ◌+◌, ◌-◌, ℤ, pos, ◌≡◌, refl, Option, none, some, List, length, [], ◌∷◌, ◌++◌, arith,
}
use seeds.Ivr.ChildId.{Text, op, rfind, find, create_child_state_id, extract_parent_info}
use seeds.Ivr.ChildId.RoundTrip.{
  extract_parent_info-create_child_state_id, extract_parent_info-refuses,
}
use seeds.Ivr.Paging.{n_states, pages_from, pages-all}

-- numbers of one digit
abbrev digit : ℕ → Text
digit n = (48 + n) ∷ []

abbrev value_of : Text → Option ℤ
value_of [] = none
value_of (c ∷ s) = some (pos (c - 48))

abbrev farm : Text
farm = 70 ∷ 97 ∷ 114 ∷ 109 ∷ []

abbrev tics : Text
tics = 116 ∷ 105 ∷ 99 ∷ 115 ∷ []

-- `LA0`
abbrev la0 : Text
la0 = 76 ∷ 65 ∷ 48 ∷ []

extract_parent_info-create_child_state_id_example :
    extract_parent_info value_of (create_child_state_id digit la0 3 farm) ≡ some (la0, pos (3 + 1))
unfolding rfind seeds.Ivr.ChildId.starts_with
extract_parent_info-create_child_state_id_example =
    extract_parent_info-create_child_state_id digit value_of la0 farm 3
      ((omega arith, omega arith), tt) refl refl

extract_parent_info-refuses_example :
    extract_parent_info value_of (create_child_state_id digit la0 3 ([] ++ (op ++ tics))) ≡ none
unfolding rfind seeds.Ivr.ChildId.starts_with find
extract_parent_info-refuses_example =
    extract_parent_info-refuses digit value_of la0 [] tics 3 refl refl

abbrev nine : List ℕ
nine = 1 ∷ 2 ∷ 3 ∷ 4 ∷ 5 ∷ 6 ∷ 7 ∷ 8 ∷ 9 ∷ []

pages-all_example : pages_from nine 0 (n_states (length nine)) ≡ nine
pages-all_example = pages-all nine
