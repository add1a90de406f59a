-- ===== src/Ivr/Collection/Tables.antt =====
-- A dict of documents keeps the laws of a collection.
use seeds.Base.{
  ℕ, suc, String, ◌==◌, ◌≡◌, refl, Bool, true, false, Option, none, some, [], ◌∷◌, if◌then◌else◌,
  arith,
}
use seeds.Dict.{Dict, get, insert, remove, get-insert, get-remove}
use seeds.Ivr.Collection.{Collection, matches, changed, dropped, found, upserted_as, upserted}

module _ {D : Type 0} where
  unfoldable pub update : String → (D → Bool) → (D → D) → Dict D → Dict D
  update k p f [] = []
  update k p f ((j, v) ∷ d) =
      if j == k then (j, if p v then f v else v) ∷ d else (j, v) ∷ update k p f d

  unfoldable pub first_of : (D → Bool) → Dict D → Option D
  first_of p [] = none
  first_of p ((j, v) ∷ d) = if p v then some v else first_of p d

  unfoldable pub count_of : (D → Bool) → Dict D → ℕ
  count_of p [] = 0
  count_of p ((j, v) ∷ d) = if p v then suc (count_of p d) else count_of p d

  unfoldable pub upsert : String → (D → Bool) → (D → D) → D → Dict D → Dict D
  upsert k p f new [] = (k, new) ∷ []
  upsert k p f new ((j, v) ∷ d) =
      if j == k then (j, if p v then f v else v) ∷ d else (j, v) ∷ upsert k p f new d

  unfoldable pub drop : (D → Bool) → Dict D → Dict D
  drop p [] = []
  drop p ((j, v) ∷ d) = let rest = drop p d in if p v then remove j rest else (j, v) ∷ rest

  pub get-update :
      (k j : String) (p : D → Bool) (f : D → D) (d : Dict D)
      → get j (update k p f d) ≡ (if k == j then changed p f (get j d) else get j d)
  unfolding get update
  get-update k j p f [] = ground arith
  get-update k j p f ((i, w) ∷ d) = ground (arith, get-update k j p f d)

  pub get-upsert :
      (k j : String) (p : D → Bool) (f : D → D) (new : D) (d : Dict D)
      → get j (upsert k p f new d) ≡ (if k == j then upserted p f new (get j d) else get j d)
  unfolding get upsert
  get-upsert k j p f new [] = ground arith
  get-upsert k j p f new ((i, w) ∷ d) = ground (arith, get-upsert k j p f new d)

  pub get-drop : (p : D → Bool) (j : String) (d : Dict D) → get j (drop p d) ≡ dropped p (get j d)
  unfolding get drop
  get-drop p j [] = refl
  get-drop p j ((i, w) ∷ d) = ground (arith, get-drop p j d, get-remove i j (drop p d))

  pub first_of-some : (p : D → Bool) (v : D) (d : Dict D) → first_of p d ≡ some v → p v ≡ true
  unfolding first_of
  first_of-some p v [] h = cc
  first_of-some p v ((i, w) ∷ d) h = ground (arith, first_of-some p v d)

  pub first_of-none :
      (p : D → Bool) (k : String) (v : D) (d : Dict D)
      → first_of p d ≡ none
      → get k d ≡ some v
      → p v ≡ false
  unfolding first_of get
  first_of-none p k v [] h e = cc
  first_of-none p k v ((i, w) ∷ d) h e = ground (arith, first_of-none p k v d)

  pub count_of-zero :
      (p : D → Bool) (k : String) (v : D) (d : Dict D)
      → count_of p d ≡ 0
      → get k d ≡ some v
      → p v ≡ false
  unfolding count_of get
  count_of-zero p k v [] h e = cc
  count_of-zero p k v ((i, w) ∷ d) h e = ground (arith, count_of-zero p k v d)

unfoldable pub tables : {D : Type 0} → Collection (Dict D) D
tables = record {
  find_one = get;
  find_where = first_of;
  count = count_of;
  update_one = λ k p f c. (matches p (get k c), update k p f c);
  upsert_one = λ k p f d c. (upserted_as p (get k c), upsert k p f d c);
  find_one_and_update = λ k p f c. (found p (get k c), update k p f c);
  replace_one = insert;
  delete_one = remove;
  delete_many = drop;
  find_where-some = first_of-some;
  find_where-none = first_of-none;
  count-zero = count_of-zero;
  update_one-matched = λ k p f c. refl;
  find-update_one = get-update;
  upsert_one-upserted = λ k p f d c. refl;
  find-upsert_one = get-upsert;
  find_one_and_update-found = λ k p f c. refl;
  find-find_one_and_update = get-update;
  find-replace_one = λ k j d c. get-insert k j d c;
  find-delete_one = get-remove;
  find-delete_many = get-drop;
}
