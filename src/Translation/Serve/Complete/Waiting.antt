-- ===== src/Translation/Serve/Complete/Waiting.antt =====
-- What the requests to the provider leave under a key, where one of the texts that wait has it.
use seeds.Base.{String, ◌≡◌, refl, subst, inl, inr, Bool, true, List, [], ◌∷◌, is_some, All, arith}
use seeds.Dict.{Dict, get, insert, get-insert, get-insert_self}
use seeds.Act.{raise}
use seeds.Act.Keeps.{Keeps, Keeps-write}
use seeds.Act.Yields.{
  Yields, Yields-raise, Yields-if, Yields-maybe, Yields-bind, Yields-any, Yields-catch, Yields-kept,
  Anyhow,
}
use seeds.Translation.Requests.{Outside, Pending, answer_text}
use seeds.Translation.Serve.{
  keep_answer, keep_answers, translate_each, translate_chunk, translate_chunks, translate_groups,
  is_caught,
}
use seeds.Translation.Serve.Rules.{
  Kept, Keeps-keep_answers, Keeps-translate_each, Keeps-translate_chunks, Keeps-translate_groups,
}
use seeds.Translation.Serve.Complete.Groups.{Owes, OwesSome, OwesGroup, chunk-Owes}

pub All-any : (ps : List Pending) → All (λ p. Unit {0}) ps
All-any [] = tt
All-any (p ∷ ps) = (tt, All-any ps)

chunks_any : (cs : List (List Pending)) → All (All (λ p. Unit {0})) cs
chunks_any [] = tt
chunks_any (c ∷ cs) = (All-any c, chunks_any cs)

pub groups_any : (groups : Dict (List Pending)) → All (λ g. All (λ p. Unit {0}) g.1) groups
groups_any [] = tt
groups_any ((l, ps) ∷ rest) = (All-any ps, groups_any rest)

module _ (k : String) where
  abbrev pub HasKey : Dict String → List Pending → Type 0
  HasKey result waiting = is_some (get k result) ≡ true

  pub insert-HasKey :
      (key text : String) (r : Dict String)
      → is_some (get k r) ≡ true
      → is_some (get k (insert key text r)) ≡ true
  insert-HasKey key text r h = ground (arith, get-insert key k text r, h)

  pub Keeps-answer_text : (key text : String) → Keeps (Kept HasKey) (answer_text key text)
  unfolding answer_text
  Keeps-answer_text key text = Keeps-write _ (λ s h. insert-HasKey key text s.result h)

  inserted-HasKey :
      (key text : String) (r : Dict String) → key ≡ k → is_some (get k (insert key text r)) ≡ true
  inserted-HasKey key text r e =
      subst (λ j. is_some (get j (insert key text r)) ≡ true) e
        (rw (get-insert_self key text r) refl)

  pub Yields-answer_text :
      (key text : String) → key ≡ k → Yields Anyhow (λ a. Kept HasKey) (answer_text key text)
  unfolding answer_text seeds.Act.write
  Yields-answer_text key text e = record { yields = λ s p. inserted-HasKey key text s.result e }

  module _ (x : Outside) (site_id route lang : String) (serve_pending : Bool) where
    Yields-keep_answer :
        (p : Pending) (out : String)
        → p.doc.key ≡ k
        → Yields Anyhow (λ a. Kept HasKey) (keep_answer x site_id route lang serve_pending p out)
    unfolding keep_answer
    Yields-keep_answer p out e =
        Yields-bind _ _ (Yields-any _) (λ a. Yields-answer_text p.doc.key _ e)

    Yields-keep_answers :
        (ps : List Pending) (outs : List String)
        → Owes k ps
        → Yields Anyhow (λ a. Kept HasKey) (keep_answers x site_id route lang serve_pending ps outs)
    unfolding keep_answers
    Yields-keep_answers [] outs h = absurd h
    Yields-keep_answers (p ∷ ps) [] h = Yields-raise _
    Yields-keep_answers (p ∷ ps) (out ∷ outs) (inl e) =
        Yields-bind _ _ (Yields-keep_answer p out e) (λ a. Yields-kept _ (
          Keeps-keep_answers HasKey x site_id route lang serve_pending (λ p. Unit)
            (λ p text u. Keeps-answer_text _ _) (λ p u. Keeps-answer_text _ _) ps outs
            (All-any ps)))
    Yields-keep_answers (p ∷ ps) (out ∷ outs) (inr h) =
        Yields-bind _ _ (Yields-any _) (λ a. Yields-keep_answers ps outs h)

    Yields-translate_each :
        (source_lang : String) (ps : List Pending)
        → Owes k ps
        → Yields Anyhow
            (λ a. Kept HasKey)
            (translate_each x site_id route lang serve_pending source_lang ps)
    unfolding translate_each
    Yields-translate_each source_lang [] h = absurd h
    Yields-translate_each source_lang (p ∷ ps) (inl e) = Yields-bind _ _ (Yields-any _) (λ answer.
        Yields-bind _ _
          (Yields-maybe answer _ _ (λ n. Yields-answer_text p.doc.key _ e)
            (λ out f. Yields-keep_answer p out e))
          (λ a. Yields-kept _ (
            Keeps-translate_each HasKey x site_id route lang serve_pending (λ p. Unit)
              (λ p text u. Keeps-answer_text _ _) (λ p u. Keeps-answer_text _ _) source_lang ps
              (All-any ps))))
    Yields-translate_each source_lang (p ∷ ps) (inr h) =
        Yields-bind _ _ (Yields-any _)
          (λ answer. Yields-bind _ _ (Yields-any _) (λ a. Yields-translate_each source_lang ps h))

    Yields-translate_chunk :
        (source_lang : String) (ps : List Pending)
        → Owes k ps
        → Yields Anyhow
            (λ a. Kept HasKey)
            (translate_chunk x site_id route lang serve_pending source_lang ps)
    unfolding translate_chunk
    Yields-translate_chunk source_lang ps h =
        Yields-catch _ _ (Yields-bind _ _ (Yields-any _) (λ outs. Yields-keep_answers ps outs h))
          (λ e.
            Yields-if (is_caught e)
              (translate_each x site_id route lang serve_pending source_lang ps) (raise e)
              (λ t. Yields-translate_each source_lang ps h) (λ t. Yields-raise _))

    Yields-translate_chunks :
        (source_lang : String) (cs : List (List Pending))
        → OwesSome k cs
        → Yields Anyhow
            (λ a. Kept HasKey)
            (translate_chunks x site_id route lang serve_pending source_lang cs)
    unfolding translate_chunks
    Yields-translate_chunks source_lang [] h = absurd h
    Yields-translate_chunks source_lang (c ∷ cs) (inl h) =
        Yields-bind _ _ (Yields-translate_chunk source_lang c h) (λ a. Yields-kept _ (
          Keeps-translate_chunks HasKey x site_id route lang serve_pending (λ p. Unit)
            (λ p text u. Keeps-answer_text _ _) (λ p u. Keeps-answer_text _ _) source_lang cs
            (chunks_any cs)))
    Yields-translate_chunks source_lang (c ∷ cs) (inr h) =
        Yields-bind _ _ (Yields-any _) (λ a. Yields-translate_chunks source_lang cs h)

    pub Yields-translate_groups :
        (groups : Dict (List Pending))
        → OwesGroup k groups
        → Yields Anyhow
            (λ a. Kept HasKey)
            (translate_groups x site_id route lang serve_pending groups)
    unfolding translate_groups
    Yields-translate_groups [] h = absurd h
    Yields-translate_groups ((source_lang, entries) ∷ rest) (inl h) =
        Yields-bind _ _ (Yields-translate_chunks source_lang _ (chunk-Owes k _ entries h)) (λ a.
          Yields-kept _ (
            Keeps-translate_groups HasKey x site_id route lang serve_pending (λ p. Unit)
              (λ p text u. Keeps-answer_text _ _) (λ p u. Keeps-answer_text _ _) rest
              (groups_any rest)))
    Yields-translate_groups ((source_lang, entries) ∷ rest) (inr h) =
        Yields-bind _ _ (Yields-any _) (λ a. Yields-translate_groups rest h)
