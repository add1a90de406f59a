-- ===== src/Translation/Placeholders.antt =====
-- platform/app/services/placeholder_protector.py and glossary_normalizer.py. Python's `re` is a parameter:
-- what `sub` of a pattern replaces, in the pieces that the text falls into.
use seeds.Base.{ℕ, suc, String, true, false, none, some, List, [], ◌∷◌, format, ltb}
use seeds.Dict.{Dict, get, insert}

-- the patterns of `_PATTERNS`, in their order
pub data Pattern : Type 0 where
  double_braces braces printf_specifier markdown_link html_tag : Pattern

abbrev pub patterns : List Pattern
patterns = double_braces ∷ braces ∷ printf_specifier ∷ markdown_link ∷ html_tag ∷ []

-- a part of a text that does not match, or that does
pub data Piece : Type 0 where
  plain matched : String → Piece

pub record Term : Type 0 where
  pub source_term : String
  pub translated_term : String

pub record Regex : Type 0 where
  pub pieces : Pattern → String → List Piece
  -- the pieces for `_TOKEN_RE`
  pub token_pieces : String → List Piece
  -- `sub` of a term as a whole word, in any case, by its translation
  pub replace_word : String → String → String → String
  pub len : String → ℕ
  pub show : ℕ → String

module _ (re : Regex) where
  abbrev pub token : ℕ → String
  token index = format ("__PH" ∷ re.show index ∷ "__" ∷ [])

  -- the text so far, the next index, and the mapping
  pub record Masking : Type 0 where
    pub text : String
    pub index : ℕ
    pub mapping : Dict String

  -- `_replace` on each match
  unfoldable pub replace_pieces : List Piece → Masking → Masking
  replace_pieces [] m = m
  replace_pieces (plain t ∷ rest) m =
      replace_pieces rest (record m { text = format (m.text ∷ t ∷ []) })
  replace_pieces (matched t ∷ rest) m = replace_pieces rest (record {
    text = format (m.text ∷ token m.index ∷ []);
    index = suc m.index;
    mapping = insert (token m.index) t m.mapping;
  })

  unfoldable pub mask_all : List Pattern → Masking → Masking
  mask_all [] m = m
  mask_all (p ∷ ps) m = mask_all ps (replace_pieces (re.pieces p m.text) (record m { text = "" }))

  unfoldable pub mask : String → String × Dict String
  mask text =
      let m : Masking = mask_all patterns (record { text = text; index = 0; mapping = [] }) in
      (m.text, m.mapping)

  unfoldable pub restore : Dict String → List Piece → String
  restore mapping [] = ""
  restore mapping (plain t ∷ rest) = format (t ∷ restore mapping rest ∷ [])
  restore mapping (matched t ∷ rest) =
      format
        (elim (get t mapping) [ none ↦ t | some original ↦ original ] ∷ restore mapping rest ∷ [])

  unfoldable pub unmask : String → Dict String → String
  unmask text [] = text
  unmask text (e ∷ mapping) = restore (e ∷ mapping) (re.token_pieces text)

  -- `sorted(terms, key=lambda t: len(t["source_term"]), reverse=True)`, which keeps the order of equals
  unfoldable pub place : Term → List Term → List Term
  place t [] = t ∷ []
  place t (u ∷ us) = elim (ltb (re.len t.source_term) (re.len u.source_term)) [
    | true ↦ u ∷ place t us
    | false ↦ t ∷ u ∷ us
  ]

  unfoldable pub sorted : List Term → List Term
  sorted [] = []
  sorted (t ∷ ts) = place t (sorted ts)

  unfoldable pub replace_terms : List Term → String → String
  replace_terms [] text = text
  replace_terms (t ∷ ts) text =
      replace_terms ts (re.replace_word t.source_term t.translated_term text)

  -- `GlossaryNormalizer.apply`
  unfoldable pub normalize : String → List Term → String
  normalize text terms = replace_terms (sorted terms) text
