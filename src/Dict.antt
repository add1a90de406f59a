-- ===== src/Dict.antt =====
-- Python's dict with text keys, in insertion order.
pub mod Middle
use seeds.Base.{
  String, ◌≡◌, refl, ◌≢◌, Bool, Option, none, some, List, [], ◌∷◌, map, arith, ◌==◌, if◌then◌else◌,
  is_some, All,
}

abbrev pub Dict {ℓ} : Type ℓ → Type ℓ
Dict V = List (String × V)

module _ {ℓ} {V : Type ℓ} where
  -- `d.get(k)`
  unfoldable pub get : String → Dict V → Option V
  get k [] = none
  get k ((j, v) ∷ d) = if j == k then some v else get k d

  -- `k in d`
  abbrev pub contains : String → Dict V → Bool
  contains k d = is_some (get k d)

  -- `d[k] = v`
  unfoldable pub insert : String → V → Dict V → Dict V
  insert k v [] = (k, v) ∷ []
  insert k v ((j, w) ∷ d) = if j == k then (j, v) ∷ d else (j, w) ∷ insert k v d

  -- `del d[k]`: a dict holds a key once
  unfoldable pub remove : String → Dict V → Dict V
  remove k [] = []
  remove k ((j, v) ∷ d) = let rest = remove k d in if j == k then rest else (j, v) ∷ rest

  -- a write to attributes of the object under `k`
  unfoldable pub modify : String → (V → V) → Dict V → Dict V
  modify k f [] = []
  modify k f ((j, v) ∷ d) = if j == k then (j, f v) ∷ d else (j, v) ∷ modify k f d

  abbrev pub keys : Dict V → List String
  keys = map (λ e. e.0)

  abbrev pub values : Dict V → List V
  values = map (λ e. e.1)

  pub get-insert :
      (k j : String) (v : V) (d : Dict V)
      → get j (insert k v d) ≡ (if k == j then some v else get j d)
  unfolding get insert
  get-insert k j v [] = refl
  get-insert k j v ((i, w) ∷ d) = ground (arith, get-insert k j v d)

  pub get-insert_self : (k : String) (v : V) (d : Dict V) → get k (insert k v d) ≡ some v
  get-insert_self k v d = ground (arith, get-insert k k v d)

  pub get-insert_ne : (k j : String) (v : V) (d : Dict V) → k ≢ j → get j (insert k v d) ≡ get j d
  get-insert_ne k j v d ne = ground (arith, get-insert k j v d, ne)

  pub get-remove :
      (k j : String) (d : Dict V) → get j (remove k d) ≡ (if k == j then none else get j d)
  unfolding get remove
  get-remove k j [] = ground arith
  get-remove k j ((i, w) ∷ d) = ground (arith, get-remove k j d)

  pub get-modify_self :
      (k : String) (f : V → V) (v : V) (d : Dict V)
      → get k d ≡ some v
      → get k (modify k f d) ≡ some (f v)
  unfolding get modify
  get-modify_self k f v [] h = cc
  get-modify_self k f v ((i, w) ∷ d) h = ground (arith, get-modify_self k f v d)

  pub get-modify_ne :
      (k j : String) (f : V → V) (d : Dict V) → k ≢ j → get j (modify k f d) ≡ get j d
  unfolding get modify
  get-modify_ne k j f [] h = refl
  get-modify_ne k j f ((i, w) ∷ d) h = ground (arith, get-modify_ne k j f d h)

  pub get-modify_missing : (k : String) (f : V → V) (d : Dict V) → get k d ≡ none → modify k f d ≡ d
  unfolding get modify
  get-modify_missing k f [] h = refl
  get-modify_missing k f ((i, w) ∷ d) h = ground (arith, get-modify_missing k f d)

-- What holds of every entry, under each write.
module _ {ℓ κ} {V : Type ℓ} (P : String × V → Type κ) where
  pub All-insert : (k : String) (v : V) (d : Dict V) → P (k, v) → All P d → All P (insert k v d)
  unfolding insert
  All-insert k v [] p h = (p, h)
  All-insert k v ((i, w) ∷ d) p h = ground (arith, All-insert k v d p h.1)

  pub All-remove : (k : String) (d : Dict V) → All P d → All P (remove k d)
  unfolding remove
  All-remove k [] h = h
  All-remove k ((i, w) ∷ d) h = ground (arith, All-remove k d h.1)

  pub All-modify :
      (k : String) (f : V → V) (d : Dict V)
      → ((i : String) (v : V) → P (i, v) → P (i, f v))
      → All P d
      → All P (modify k f d)
  unfolding modify
  All-modify k f [] p h = h
  All-modify k f ((i, w) ∷ d) p h = ground (arith, p i w h.0, All-modify k f d p h.1)

  pub All-get : (k : String) (v : V) (d : Dict V) → All P d → get k d ≡ some v → P (k, v)
  unfolding get
  All-get k v [] h e = cc
  All-get k v ((i, w) ∷ d) h e = ground (arith, All-get k v d h.1)
