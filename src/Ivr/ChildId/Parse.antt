-- ===== src/Ivr/ChildId/Parse.antt =====
-- Where the last `Op` of a text is, and what is read before and after it.
use seeds.Base.{
  ℕ, suc, ◌+◌, ◌≤◌, ℤ, pos, ◌+ℤ◌, ◌≡◌, ◌≢◌, refl, sym, ap, ap₂, ◌∙◌, false, Option, none, some, [],
  ◌∷◌, ◌++◌, append_assoc, length, length-append, All, arith, chain,
}
use seeds.Ivr.ChildId.{
  Text, op, dash_op, opening, starts_with, rfind, find, but_last, before, read_key,
  extract_parent_info,
}
use seeds.Ivr.Slices.{take, drop}

abbrev pub IsDigit : ℕ → Type 0
IsDigit c = (48 ≤ c) × (c ≤ 57)

rfind-append :
    (pat x y : Text) (i : ℕ) → rfind pat y ≡ some i → rfind pat (x ++ y) ≡ some (length x + i)
unfolding rfind
rfind-append pat [] y i h = h ∙ ap some (omega arith)
rfind-append pat (c ∷ x) y i h = rw (rfind-append pat x y i h) (ap some (omega arith))

-- no `Op` begins in the first text
rfind-none :
    (c : ℕ) (s : Text)
    → rfind op s ≡ none
    → starts_with op (c ∷ s) ≡ false
    → rfind op (c ∷ s) ≡ none
unfolding rfind
rfind-none c s h g = rw (h, g) refl

pub rfind-other : (c : ℕ) (s : Text) → rfind op s ≡ none → 79 ≢ c → rfind op (c ∷ s) ≡ none
unfolding starts_with
rfind-other c s h n = rfind-none c s h (ground (arith, n))

rfind-tail : (c : ℕ) (s : Text) → rfind op (c ∷ s) ≡ none → rfind op s ≡ none
unfolding rfind
rfind-tail c s h = ground (arith, h)

starts_with-append :
    (c d : ℕ) (s y : Text)
    → 112 ≢ d
    → starts_with op (c ∷ s) ≡ false
    → starts_with op (c ∷ (s ++ d ∷ y)) ≡ false
unfolding starts_with
starts_with-append c d [] y n h = ground (arith, n)
starts_with-append c d (e ∷ s) y n h = ground (arith, h)

rfind-starts : (c : ℕ) (s : Text) → rfind op (c ∷ s) ≡ none → starts_with op (c ∷ s) ≡ false
unfolding rfind
rfind-starts c s h = ground (arith, h)

pub rfind-none_append :
    (x y : Text) (d : ℕ)
    → 112 ≢ d
    → rfind op x ≡ none
    → rfind op (d ∷ y) ≡ none
    → rfind op (x ++ d ∷ y) ≡ none
rfind-none_append [] y d n h g = g
rfind-none_append (c ∷ x) y d n h g =
    rfind-none c (x ++ d ∷ y) (rfind-none_append x y d n (rfind-tail c x h) g)
      (starts_with-append c d x y n (rfind-starts c x h))

pub rfind-digits : (x y : Text) → All IsDigit x → rfind op y ≡ none → rfind op (x ++ y) ≡ none
rfind-digits [] y d h = h
rfind-digits (c ∷ x) y d h =
    rfind-other c (x ++ y) (rfind-digits x y d.1 h) (λ p. omega (arith, p, d.0))

-- what follows the last `Op`
rfind-op : (x : Text) → rfind op x ≡ none → rfind op (op ++ x) ≡ some 0
unfolding rfind starts_with
rfind-op x h = rw (rfind-other 112 x h (λ p. omega (arith, p))) refl

find-digits : (x y : Text) → All IsDigit x → find opening (x ++ (opening ++ y)) ≡ some (length x)
unfolding find starts_with
find-digits [] y d = refl
find-digits (c ∷ x) y d = ground (arith, d.0, find-digits x y d.1)

pub find-none_append :
    (x : Text) (c : ℕ) → 40 ≢ c → find opening x ≡ none → find opening (x ++ c ∷ []) ≡ none
unfolding find starts_with
find-none_append [] c n h = ground (arith, n)
find-none_append (d ∷ x) c n h = ground (arith, h, find-none_append x c n)

take-length : (x y : Text) → take (length x) (x ++ y) ≡ x
unfolding take
take-length [] y = refl
take-length (c ∷ x) y = ap (λ z. c ∷ z) (take-length x y)

drop-length : (x y : Text) (n m : ℕ) → m ≡ length x + n → drop m (x ++ y) ≡ drop n y
unfolding drop
drop-length [] y n m e = ap (λ k. drop k y) (e ∙ omega arith)
drop-length (c ∷ x) y n m e =
    let f : m ≡ suc (length x + n) = e ∙ omega arith in
    ap (λ k. drop k (c ∷ (x ++ y))) f ∙ drop-length x y n (length x + n) refl

pub but_last-append : (x : Text) (c d : ℕ) → but_last (x ++ c ∷ d ∷ []) ≡ x ++ c ∷ []
unfolding but_last
but_last-append [] c d = refl
but_last-append (b ∷ []) c d = refl
but_last-append (b ∷ e ∷ x) c d = ap (λ z. b ∷ z) (but_last-append (e ∷ x) c d)

-- the key of a child
pub read_key-digits :
    (int : Text → Option ℤ) (digits v : Text) (n : ℕ)
    → All IsDigit digits
    → int digits ≡ some (pos n)
    → read_key int (digits ++ (opening ++ (v ++ 41 ∷ []))) ≡ some (pos (n + 1))
unfolding read_key ◌+ℤ◌
read_key-digits int digits v n d h =
    rw (find-digits digits (v ++ 41 ∷ []) d, take-length digits (opening ++ (v ++ 41 ∷ [])), h) refl

-- before the dash
before-length : (page y : Text) → before (length page + 1) (page ++ y) ≡ page
unfolding before
before-length page y =
    let e : length page + 1 ≡ suc (length page) = omega arith in
    ap (λ n. before n (page ++ y)) e ∙ take-length page y

drop-op : (rest : Text) → drop 2 (op ++ rest) ≡ rest
unfolding drop
drop-op rest = refl

module _ (int : Text → Option ℤ) where
  -- at the last `Op`
  pub extract-op :
      (front rest last : Text)
      → rfind op rest ≡ none
      → but_last rest ≡ last
      → extract_parent_info int (front ++ (op ++ rest))
        ≡ chain
            (read_key int last)
            (λ key. some (before (length front) (front ++ (op ++ rest)), key))
  unfolding extract_parent_info
  extract-op front rest last h e =
      let s : Text = front ++ (op ++ rest) in
      let at : rfind op s ≡ some (length front) =
        rfind-append op front (op ++ rest) 0 (rfind-op rest h) ∙ ap some (omega arith) in
      let after : but_last (drop (length front + 2) s) ≡ last =
        ap but_last (drop-length front (op ++ rest) 2 (length front + 2) refl ∙ drop-op rest) ∙ e in
      rw at (ap (λ l. chain (read_key int l) (λ key. some (before (length front) s, key))) after)

  pub extract-dash :
      (page rest last : Text)
      → rfind op rest ≡ none
      → but_last rest ≡ last
      → extract_parent_info int (page ++ (dash_op ++ rest))
        ≡ chain (read_key int last) (λ key. some (page, key))
  extract-dash page rest last h e =
      let front : Text = page ++ 45 ∷ [] in
      let assoc : front ++ (op ++ rest) ≡ page ++ (dash_op ++ rest) =
        append_assoc page (45 ∷ []) (op ++ rest) in
      let start : before (length front) (front ++ (op ++ rest)) ≡ page =
        ap₂ before (length-append page (45 ∷ [])) assoc ∙ before-length page (dash_op ++ rest) in
      sym (ap (extract_parent_info int) assoc)
      ∙ extract-op front rest last h e
      ∙ ap (λ p. chain (read_key int last) (λ key. some (p, key))) start
