-- ===== src/Translation/Batches/Limits.antt =====
-- What a chunk holds, and that the chunks hold everything.
use seeds.Base.{
  ℕ, ◌+◌, ◌≤◌, ◌≡◌, refl, sym, ap, ◌∙◌, ◌⊎◌, inl, inr, false, List, [], ◌∷◌, ◌++◌, append-nil,
  append_assoc, length, length-append, All, All-imply, All-split, arith, Bool-cases,
}
use seeds.Translation.Batches.{is_full, chunks_from, chunk, chunk_for_request}

unfoldable pub concat : {A : Type 0} → List (List A) → List A
concat [] = []
concat (c ∷ cs) = c ++ concat cs

pub All-concat :
    {A : Type 0} (P : A → Type 0) (cs : List (List A)) → All P (concat cs) → All (All P) cs
unfolding concat
All-concat P [] h = tt
All-concat P (c ∷ cs) h =
    let (first, rest) = All-split P c (concat cs) h in (first, All-concat P cs rest)

module _ {A : Type 0} (len : A → ℕ) where
  abbrev pub total : List A → ℕ
  total [] = 0
  total (e ∷ rest) = len e + total rest

  pub total-append : (a b : List A) → total (a ++ b) ≡ total a + total b
  total-append [] b = omega arith
  total-append (e ∷ a) b = omega (arith, total-append a b)

  module _ (max_items max_chars : ℕ) where
    -- A chunk is not empty, has at most so many entries, and at most so many characters unless it is a
    -- single entry.
    pub record IsChunk (c : List A) : Type 0 where
      pub filled : 1 ≤ length c
      pub items : length c ≤ max_items
      pub chars : (length c ≡ 1) ⊎ (total c ≤ max_chars)

    chunks_from-concat :
        (cur : List A) (n : ℕ) (es : List A)
        → concat (chunks_from max_items max_chars len cur n es) ≡ cur ++ es
    unfolding concat chunks_from is_full
    chunks_from-concat [] n [] = refl
    chunks_from-concat (c ∷ cur) n [] = refl
    chunks_from-concat [] n (e ∷ es) = chunks_from-concat (e ∷ []) (n + len e) es
    chunks_from-concat (c ∷ cur) n (e ∷ es) =
        elim (Bool-cases (is_full max_items max_chars len (c ∷ cur) n e)) [
          | inl full ↦
              rw (full, concat) (ap (λ r. (c ∷ cur) ++ r) (chunks_from-concat (e ∷ []) (len e) es))
          | inr room ↦
              rw (room, concat)
                (chunks_from-concat (c ∷ (cur ++ e ∷ [])) (n + len e) es
                  ∙ append_assoc (c ∷ cur) (e ∷ []) es)
        ]

    single : 1 ≤ max_items → (e : A) → IsChunk (e ∷ [])
    single h e = record { filled = omega arith; items = h; chars = inl refl }

    -- with room for one more
    extended :
        (c e : A) (cur : List A) (n : ℕ)
        → n ≡ total (c ∷ cur)
        → is_full max_items max_chars len (c ∷ cur) n e ≡ false
        → IsChunk (c ∷ (cur ++ e ∷ []))
    unfolding is_full
    extended c e cur n q room = record {
      filled = omega arith;
      items = ground (arith, room, length-append cur (e ∷ []));
      chars = inr (ground (arith, room, q, total-append cur (e ∷ [])));
    }

    chunks_from-IsChunk :
        1 ≤ max_items
        → (c : A) (cur es : List A) (n : ℕ) → n ≡ total (c ∷ cur)
        → IsChunk (c ∷ cur)
        → All IsChunk (chunks_from max_items max_chars len (c ∷ cur) n es)
    unfolding chunks_from
    chunks_from-IsChunk m c cur [] n q h = (h, tt)
    chunks_from-IsChunk m c cur (e ∷ es) n q h =
        elim (Bool-cases (is_full max_items max_chars len (c ∷ cur) n e)) [
          | inl full ↦
              rw (full, All) (h, chunks_from-IsChunk m e [] es (len e) (omega arith) (single m e))
          | inr room ↦
              rw (room, All)
                (chunks_from-IsChunk m c (cur ++ e ∷ []) es (n + len e)
                  (omega (arith, q, total-append cur (e ∷ []))) (extended c e cur n q room))
        ]

    chunks-IsChunk :
        1 ≤ max_items → (es : List A) → All IsChunk (chunks_from max_items max_chars len [] 0 es)
    unfolding chunks_from is_full
    chunks-IsChunk m [] = tt
    chunks-IsChunk m (e ∷ es) = chunks_from-IsChunk m e [] es (0 + len e) (omega arith) (single m e)

    -- what fits in one chunk is one
    chunks_from-one :
        (c : A) (cur es : List A) (n : ℕ)
        → n ≡ total (c ∷ cur)
        → length ((c ∷ cur) ++ es) ≤ max_items
        → total ((c ∷ cur) ++ es) ≤ max_chars
        → chunks_from max_items max_chars len (c ∷ cur) n es ≡ ((c ∷ cur) ++ es) ∷ []
    unfolding chunks_from is_full
    chunks_from-one c cur [] n q l t = ap (λ r. (c ∷ r) ∷ []) (sym (append-nil cur))
    chunks_from-one c cur (e ∷ es) n q l t =
        let room : is_full max_items max_chars len (c ∷ cur) n e ≡ false =
          ground (arith, q, l, t, length-append cur (e ∷ es), total-append cur (e ∷ es)) in
        let assoc : (cur ++ e ∷ []) ++ es ≡ cur ++ e ∷ es = append_assoc cur (e ∷ []) es in
        rw (room, chunks_from)
          (chunks_from-one c (cur ++ e ∷ []) es (n + len e)
              (omega (arith, q, total-append cur (e ∷ []))) (rw assoc l) (rw assoc t)
            ∙ ap (λ r. (c ∷ r) ∷ []) assoc)

-- The chunks of texts for the provider are, one after the other, the texts; each holds between one and
-- fifty of them, and at most 45000 characters unless it is a single text.
pub chunk-within :
    {A : Type 0} (len : A → ℕ) (entries : List A)
    → (concat (chunk len entries) ≡ entries) × All (IsChunk len 50 45000) (chunk len entries)
unfolding chunk
chunk-within len entries = (
  chunks_from-concat len 50 45000 [] 0 entries,
  chunks-IsChunk len 50 45000 (omega arith) entries,
)

request_of :
    {A : Type 0} (len : A → ℕ) (c : List A)
    → IsChunk len 50 45000 c
    → chunk_for_request len c ≡ c ∷ []
unfolding chunk_for_request chunks_from is_full
request_of len [] h = absurd (omega (arith, h.filled))
request_of len (e ∷ []) h = refl
request_of len (e ∷ f ∷ es) h = elim h.chars [
  | inl one ↦ absurd (omega (arith, one))
  | inr few ↦
      chunks_from-one len 100 50000 e [] (f ∷ es) (0 + len e) (omega arith) (omega (arith, h.items))
        (omega (arith, few))
]

-- Each chunk that the service hands to the provider goes out in one request.
pub chunk-requests :
    {A : Type 0} (len : A → ℕ) (entries : List A)
    → All (λ c. chunk_for_request len c ≡ c ∷ []) (chunk len entries)
chunk-requests len entries =
    All-imply (IsChunk len 50 45000) _ (request_of len) (chunk len entries)
      (chunk-within len entries).1
