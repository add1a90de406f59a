-- ===== src/Ivr/Paging.antt =====
-- How the values of a category are spread over the states of a menu,
-- platform/app/services/fsm/instantiation/insti.py.
use seeds.Base.{
  ℕ, zero, suc, ◌+◌, ◌-◌, ◌*◌, ◌/◌, ◌≤◌, ◌<◌, min, List, [], ◌++◌, ◌≡◌, refl, sym, ap, ◌∙◌, length,
  arith,
}
use seeds.Ivr.Slices.{take, drop, take-drop, drop-drop, length-drop, drop-all}

abbrev pub number_of_categories_listed_in_one_state : ℕ
number_of_categories_listed_in_one_state = 7

unfoldable pub n_states : ℕ → ℕ
n_states len =
    (len + number_of_categories_listed_in_one_state - 1) / number_of_categories_listed_in_one_state

-- how many children the state of a page has
unfoldable pub indexes_possible : ℕ → ℕ → ℕ
indexes_possible len state =
    min ((state + 1) * number_of_categories_listed_in_one_state) len
    - state * number_of_categories_listed_in_one_state

module _ {ℓ} {A : Type ℓ} where
  -- the values of a page: the slice from its first to its last
  unfoldable pub page : List A → ℕ → List A
  page items state =
      take (indexes_possible (length items) state)
        (drop (state * number_of_categories_listed_in_one_state) items)

  -- the pages from one on, as many as are asked for
  unfoldable pub pages_from : List A → ℕ → ℕ → List A
  pages_from items state zero = []
  pages_from items state (suc n) = page items state ++ pages_from items (suc state) n

  page-drop :
      (items : List A) (state : ℕ)
      → page items state ++ drop (suc state * 7) items ≡ drop (state * 7) items
  unfolding page indexes_possible
  page-drop items state =
      ap (λ r. page items state ++ r)
        (sym (drop-drop (state * 7) 7 (suc state * 7) items (omega arith)))
      ∙ take-drop (indexes_possible (length items) state) 7 (drop (state * 7) items)
          (omega (arith, length-drop (state * 7) items))

  pages_from-drop :
      (items : List A) (n state : ℕ)
      → length items ≤ (state + n) * 7
      → pages_from items state n ≡ drop (state * 7) items
  unfolding pages_from
  pages_from-drop items zero state h = sym (drop-all (state * 7) items (omega (arith, h)))
  pages_from-drop items (suc n) state h =
      ap (λ r. page items state ++ r) (pages_from-drop items n (suc state) (omega (arith, h)))
      ∙ page-drop items state

  -- The pages of a menu, one after the other, are the values of the category: each value stands on
  -- exactly one page, in its order.
  pub pages-all : (items : List A) → pages_from items 0 (n_states (length items)) ≡ items
  unfolding n_states drop
  pages-all items = pages_from-drop items (n_states (length items)) 0 (omega arith) ∙ refl

-- Exactly the pages of a menu have a child, and none has more than seven, so that the keys of the children
-- are less than the keys 8 and 9.
pub indexes_possible-within :
    (len state : ℕ)
    → (indexes_possible len state ≤ 7)
      × ((state < n_states len → 1 ≤ indexes_possible len state)
          × (n_states len ≤ state → indexes_possible len state ≡ 0))
unfolding indexes_possible n_states
indexes_possible-within len state =
    (omega arith, ((λ h. omega (arith, h)), (λ h. omega (arith, h))))
