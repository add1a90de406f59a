-- ===== src/Translation/Batches.antt =====
-- How texts are grouped: `TranslationService._chunk` of platform/app/services/translation_service.py, for a
-- call of the provider, and `_chunk_for_request` of platform/app/providers/translation_provider.py, for a
-- request. Both are the same loop, with other limits.
pub mod Limits
use seeds.Base.{
  ℕ, suc, ◌+◌, ◌≤◌, Bool, true, false, ◌&&◌, ◌||◌, List, [], ◌∷◌, ◌++◌, length, leb, ltb,
}

abbrev pub runtime_batch_items : ℕ
runtime_batch_items = 50

abbrev pub runtime_batch_chars : ℕ
runtime_batch_chars = 45000

abbrev pub max_batch_items : ℕ
max_batch_items = 100

abbrev pub max_batch_chars : ℕ
max_batch_chars = 50000

module _ {A : Type 0} (max_items max_chars : ℕ) (len : A → ℕ) where
  -- the current chunk is not empty, and the next entry does not fit
  unfoldable pub is_full : List A → ℕ → A → Bool
  is_full [] chars e = false
  is_full (c ∷ cur) chars e = leb max_items (length (c ∷ cur)) || ltb max_chars (chars + len e)

  -- the loop, with the current chunk and the number of its characters
  unfoldable pub chunks_from : List A → ℕ → List A → List (List A)
  chunks_from [] chars [] = []
  chunks_from (c ∷ cur) chars [] = (c ∷ cur) ∷ []
  chunks_from cur chars (e ∷ rest) = elim (is_full cur chars e) [
    | true ↦ cur ∷ chunks_from (e ∷ []) (len e) rest
    | false ↦ chunks_from (cur ++ e ∷ []) (chars + len e) rest
  ]

-- `_chunk`
unfoldable pub chunk : {A : Type 0} → (A → ℕ) → List A → List (List A)
chunk len entries = chunks_from runtime_batch_items runtime_batch_chars len [] 0 entries

-- `_chunk_for_request`
unfoldable pub chunk_for_request : {A : Type 0} → (A → ℕ) → List A → List (List A)
chunk_for_request len texts = chunks_from max_batch_items max_batch_chars len [] 0 texts
