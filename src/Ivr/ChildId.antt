-- ===== src/Ivr/ChildId.antt =====
-- The ids of the states of a menu, platform/app/services/fsm/instantiation/insti.py: the id that is made
-- for what a key leads to, and what is read from it again. Texts are lists of code points, as Python's
-- str is; `str` of a number and `int` of a text are parameters.
pub mod Cases
pub mod Parse
pub mod RoundTrip
use seeds.Base.{
  ℕ, zero, suc, ◌+◌, ℤ, pos, ◌+ℤ◌, Bool, true, false, Option, none, some, List, [], ◌∷◌, ◌++◌, eqb,
  if◌then◌else◌, chain,
}
use seeds.Ivr.Slices.{take, drop}

abbrev pub Text : Type 0
Text = List ℕ

-- `Op`, `-Op`, `(`, `)-`
abbrev pub op : Text
op = 79 ∷ 112 ∷ []

abbrev pub dash_op : Text
dash_op = 45 ∷ op

abbrev pub opening : Text
opening = 40 ∷ []

abbrev pub closing : Text
closing = 41 ∷ 45 ∷ []

unfoldable pub starts_with : Text → Text → Bool
starts_with [] s = true
starts_with (c ∷ pat) [] = false
starts_with (c ∷ pat) (d ∷ s) = if eqb c d then starts_with pat s else false

-- `s.rfind(pat)` and `s.find(pat)` for a text `pat` that is not empty
unfoldable pub rfind : Text → Text → Option ℕ
rfind pat [] = none
rfind pat (c ∷ s) = elim (rfind pat s) [
  | some i ↦ some (suc i)
  | none ↦ if starts_with pat (c ∷ s) then some 0 else none
]

unfoldable pub find : Text → Text → Option ℕ
find pat [] = none
find pat (c ∷ s) =
    if starts_with pat (c ∷ s)
    then some 0
    else elim (find pat s) [ none ↦ none | some i ↦ some (suc i) ]

-- `s[:-1]`
unfoldable pub but_last : Text → Text
but_last [] = []
but_last (c ∷ []) = []
but_last (c ∷ d ∷ s) = c ∷ but_last (d ∷ s)

-- `s[:n - 1]`, which ends before the last character where n is 0
unfoldable pub before : ℕ → Text → Text
before zero s = but_last s
before (suc n) s = take n s

-- `_create_child_state_id`
unfoldable pub create_child_state_id : (ℕ → Text) → Text → ℕ → Text → Text
create_child_state_id str page index value =
    page ++ (dash_op ++ (str index ++ (opening ++ (value ++ closing))))

-- the key, read from the text after `Op`
unfoldable pub read_key : (Text → Option ℤ) → Text → Option ℤ
read_key int option_chosen =
    chain (find opening option_chosen)
      (λ i. chain (int (take i option_chosen)) (λ n. some (n +ℤ pos 1)))

-- `_extract_parent_info`; none is a ValueError
unfoldable pub extract_parent_info : (Text → Option ℤ) → Text → Option (Text × ℤ)
extract_parent_info int id =
    chain (rfind op id)
      (λ i. chain (read_key int (but_last (drop (i + 2) id))) (λ key. some (before i id, key)))
