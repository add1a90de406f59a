-- ===== src/Ivr/ChildId/RoundTrip.antt =====
-- What is read from the id of a child of a menu.
use seeds.Base.{
  ℕ, ◌+◌, ℤ, pos, ◌≡◌, refl, sym, ap, ◌∙◌, Option, none, some, [], ◌∷◌, ◌++◌, append_assoc, All,
  arith, chain,
}
use seeds.Ivr.ChildId.{
  Text, op, dash_op, opening, closing, starts_with, rfind, find, but_last, create_child_state_id,
  read_key, extract_parent_info,
}
use seeds.Ivr.ChildId.Parse.{
  IsDigit, rfind-other, rfind-none_append, rfind-digits, find-none_append, but_last-append,
  read_key-digits, extract-op, extract-dash,
}

rfind-closing : (v : Text) → rfind op v ≡ none → rfind op (v ++ closing) ≡ none
unfolding rfind starts_with
rfind-closing v h = rfind-none_append v (45 ∷ []) 41 (λ p. omega (arith, p)) h refl

-- Where `str` of the index of a child is digits that `int` reads again, and the value of the child has no
-- `Op` in it, its id gives back the page that it was made from, and the index plus one, which is its key.
pub extract_parent_info-create_child_state_id :
    (str : ℕ → Text) (int : Text → Option ℤ) (page value : Text) (index : ℕ)
    → All IsDigit (str index)
    → int (str index) ≡ some (pos index)
    → rfind op value ≡ none
    → extract_parent_info int (create_child_state_id str page index value)
      ≡ some (page, pos (index + 1))
unfolding create_child_state_id
extract_parent_info-create_child_state_id str int page value index digits reads h =
    let number : Text = str index in
    let rest : Text = number ++ (opening ++ (value ++ closing)) in
    let clean : rfind op rest ≡ none =
      rfind-digits number (opening ++ (value ++ closing)) digits
        (rfind-other 40 (value ++ closing) (rfind-closing value h) (λ p. omega (arith, p))) in
    let assoc : (number ++ (opening ++ value)) ++ closing ≡ rest =
      append_assoc number (opening ++ value) closing in
    let last : but_last rest ≡ number ++ (opening ++ (value ++ 41 ∷ [])) =
      sym (ap but_last assoc)
      ∙ but_last-append (number ++ (opening ++ value)) 41 45
      ∙ append_assoc number (opening ++ value) (41 ∷ []) in
    extract-dash int page rest (number ++ (opening ++ (value ++ 41 ∷ []))) clean last
    ∙ ap (λ o. chain o (λ key. some (page, key)))
        (read_key-digits int number value index digits reads)

-- The id of a child whose value has `Op` in it, and no opening parenthesis after the last one, gives a
-- ValueError.
pub extract_parent_info-refuses :
    (str : ℕ → Text) (int : Text → Option ℤ) (page before_op after_op : Text) (index : ℕ)
    → rfind op after_op ≡ none
    → find opening after_op ≡ none
    → extract_parent_info int (create_child_state_id str page index (before_op ++ (op ++ after_op)))
      ≡ none
unfolding create_child_state_id read_key
extract_parent_info-refuses str int page before_op after_op index h g =
    let number : Text = str index in
    let tail : Text = op ++ (after_op ++ closing) in
    let middle : Text = number ++ (opening ++ before_op) in
    let front : Text = page ++ (dash_op ++ middle) in
    let value : (before_op ++ (op ++ after_op)) ++ closing ≡ before_op ++ tail =
      append_assoc before_op (op ++ after_op) closing in
    let split : page
          ++ (dash_op ++ (number ++ (opening ++ ((before_op ++ (op ++ after_op)) ++ closing))))
        ≡ front ++ tail =
      ap (λ v. page ++ (dash_op ++ (number ++ (opening ++ v)))) value
      ∙ sym (ap (λ m. page ++ (dash_op ++ m)) (append_assoc number (opening ++ before_op) tail))
      ∙ sym (append_assoc page (dash_op ++ middle) tail) in
    ap (extract_parent_info int) split
    ∙ extract-op int front (after_op ++ closing) (after_op ++ 41 ∷ []) (rfind-closing after_op h)
        (but_last-append after_op 41 45)
    ∙ rw (find-none_append after_op 41 (λ p. omega (arith, p)) g) refl
