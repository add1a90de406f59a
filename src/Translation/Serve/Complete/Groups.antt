-- ===== src/Translation/Serve/Complete/Groups.antt =====
-- Lists of texts that wait, and their groups and chunks: one of the texts has a given key.
use seeds.Base.{
  ℕ, String, ◌==◌, ◌≡◌, refl, sym, subst, ◌⊎◌, inl, inr, Option, none, some, List, [], ◌∷◌, ◌++◌,
  Bool-cases,
}
use seeds.Dict.{Dict, get, insert}
use seeds.Translation.Batches.{chunk}
use seeds.Translation.Batches.Limits.{concat, chunk-within}
use seeds.Translation.Requests.{Pending}
use seeds.Translation.Serve.{group}

module _ (k : String) where
  -- one of the texts has the key
  abbrev pub Owes : List Pending → Type 0
  Owes [] = ⊥
  Owes (p ∷ ps) = (p.doc.key ≡ k) ⊎ Owes ps

  abbrev pub OwesSome : List (List Pending) → Type 0
  OwesSome [] = ⊥
  OwesSome (c ∷ cs) = Owes c ⊎ OwesSome cs

  abbrev pub OwesGroup : Dict (List Pending) → Type 0
  OwesGroup [] = ⊥
  OwesGroup ((l, ps) ∷ rest) = Owes ps ⊎ OwesGroup rest

  pub Owes-left : (a b : List Pending) → Owes a → Owes (a ++ b)
  Owes-left [] b h = absurd h
  Owes-left (p ∷ a) b (inl e) = inl e
  Owes-left (p ∷ a) b (inr h) = inr (Owes-left a b h)

  pub Owes-right : (a b : List Pending) → Owes b → Owes (a ++ b)
  Owes-right [] b h = h
  Owes-right (p ∷ a) b h = inr (Owes-right a b h)

  Owes-split : (a b : List Pending) → Owes (a ++ b) → Owes a ⊎ Owes b
  Owes-split [] b h = inr h
  Owes-split (p ∷ a) b (inl e) = inl (inl e)
  Owes-split (p ∷ a) b (inr h) = elim (Owes-split a b h) [ inl l ↦ inl (inr l) | inr r ↦ inr r ]

  concat-Owes : (cs : List (List Pending)) → Owes (concat cs) → OwesSome cs
  unfolding concat
  concat-Owes [] h = absurd h
  concat-Owes (c ∷ cs) h = elim (Owes-split c (concat cs) h) [
    | inl l ↦ inl l
    | inr r ↦ inr (concat-Owes cs r)
  ]

  pub chunk-Owes : (len : Pending → ℕ) (ps : List Pending) → Owes ps → OwesSome (chunk len ps)
  chunk-Owes len ps h = concat-Owes (chunk len ps) (subst Owes (sym (chunk-within len ps).0) h)

  insert_new-Owes :
      (l : String) (v : List Pending) (groups : Dict (List Pending))
      → Owes v
      → OwesGroup (insert l v groups)
  unfolding insert
  insert_new-Owes l v [] h = inl h
  insert_new-Owes l v ((j, w) ∷ rest) h = elim (Bool-cases (j == l)) [
    | inl t ↦ rw t (inl h)
    | inr f ↦ rw f (inr (insert_new-Owes l v rest h))
  ]

  insert_over-Owes :
      (l : String) (v : List Pending) (groups : Dict (List Pending))
      → ((ps : List Pending) → get l groups ≡ some ps → Owes ps → Owes v)
      → OwesGroup groups
      → OwesGroup (insert l v groups)
  unfolding insert get
  insert_over-Owes l v [] kept h = absurd h
  insert_over-Owes l v ((j, w) ∷ rest) kept h = elim (Bool-cases (j == l)) [
    | inl t ↦ rw t (elim h [ inl o ↦ inl (kept w (rw t refl) o) | inr o ↦ inr o ])
    | inr f ↦ rw f (elim h [
      | inl o ↦ inl o
      | inr o ↦ inr (insert_over-Owes l v rest (λ ps e. kept ps (rw f e)) o)
    ])
  ]

  entries-Owes :
      (o : Option (List Pending)) (ps b : List Pending)
      → o ≡ some ps
      → Owes ps
      → Owes ((elim o [ none ↦ [] | some es ↦ es ]) ++ b)
  entries-Owes none ps b e h = cc e
  entries-Owes (some es) ps b e h =
      Owes-left es b (subst (λ o. Owes (elim o [ none ↦ ps | some es ↦ es ])) (sym e) h)

  pub group-Owes :
      (ps : List Pending) (groups : Dict (List Pending))
      → Owes ps ⊎ OwesGroup groups
      → OwesGroup (group ps groups)
  unfolding group
  group-Owes [] groups (inl h) = absurd h
  group-Owes [] groups (inr h) = h
  group-Owes (p ∷ ps) groups (inl (inl e)) =
      group-Owes ps _ (inr (insert_new-Owes p.source_lang _ groups (Owes-right _ (p ∷ []) (inl e))))
  group-Owes (p ∷ ps) groups (inl (inr h)) = group-Owes ps _ (inl h)
  group-Owes (p ∷ ps) groups (inr h) = group-Owes ps _ (
      inr (
        insert_over-Owes p.source_lang _ groups
          (λ qs e o. entries-Owes (get p.source_lang groups) qs (p ∷ []) e o) h))
