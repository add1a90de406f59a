-- ===== src/Translation/Serve/Rules.antt =====
-- What the requests of a route keep, of the texts that are answered and of those that wait: nothing but a
-- written text changes them.
use seeds.Base.{
  ◌≡◌, refl, Option, none, some, if◌then◌else◌, ℕ, String, sym, subst, Bool, List, [], ◌∷◌, All,
  All-append,
}
use seeds.Dict.{Dict, get, All-insert, All-get}
use seeds.Act.{Reply}
use seeds.Act.Keeps.{
  Keeps, Keeps-pure, Keeps-raise, Keeps-reading, Keeps-reading_with, Keeps-if, Keeps-catch,
  Keeps-write, Keeps-bind, Keeps-maybe,
}
use seeds.Translation.Model.{Document}
use seeds.Translation.Batches.{chunk}
use seeds.Translation.Batches.Limits.{chunk-within, All-concat}
use seeds.Translation.Requests.{
  Quality, Outside, Pending, find_site, ensure_site_active, ensure_lang_enabled,
  persist_translation, provider, Call, Work, ask, answer_text, find_terms, cached_terms, find_match,
  translate_one, translate_many,
}
use seeds.Translation.Serve.{
  group, keep_answer, keep_answers, translate_each, translate_chunk, translate_chunks,
  translate_groups, runtime_batch_ai,
}

pub entries-All :
    (P : List Pending → Type 0) (o : Option (List Pending))
    → ((es : List Pending) → o ≡ some es → P es)
    → P []
    → P (elim o [ none ↦ [] | some es ↦ es ])
entries-All P none h n = n
entries-All P (some es) h n = h es refl

module _ (Q : Pending → Type 0) where
  pub group-All :
      (ps : List Pending) (by_src : Dict (List Pending))
      → All Q ps
      → All (λ g. All Q g.1) by_src
      → All (λ g. All Q g.1) (group ps by_src)
  unfolding group
  group-All [] by_src h g = g
  group-All (p ∷ ps) by_src h g = group-All ps _ h.1 (
      All-insert (λ g. All Q g.1) p.source_lang _ by_src
        (All-append _ _ _
          (entries-All (All Q) (get p.source_lang by_src)
            (λ es e. All-get (λ g. All Q g.1) p.source_lang es by_src g e) tt)
          (h.0, tt))
        g)

  pub chunk-All :
      (len : Pending → ℕ) (entries : List Pending) → All Q entries → All (All Q) (chunk len entries)
  chunk-All len entries h =
      All-concat _ (chunk len entries) (subst (All _) (sym (chunk-within len entries).0) h)

module _ (P : Dict String → List Pending → Type 0) where
  abbrev pub Kept : Work → Type 0
  Kept s = P s.result s.pending

  pub Keeps-ask {ℓ} :
      {A : Type ℓ} (c : Call) (answer : List Call → Reply A) → Keeps Kept (ask c answer)
  unfolding ask
  Keeps-ask c answer = record { after = λ s h. h }

  module _ (x : Outside) (site_id route lang : String) where
    pub Keeps-find_site : Keeps Kept (find_site x site_id route lang)
    unfolding find_site
    Keeps-find_site = Keeps-ask _ _

    pub Keeps-ensure_site_active : Keeps Kept (ensure_site_active x site_id route lang)
    unfolding ensure_site_active
    Keeps-ensure_site_active = Keeps-bind _ _ Keeps-find_site (λ w.
        Keeps-maybe w _ _ (Keeps-raise _) (λ v. Keeps-if _ _ _ (Keeps-pure _) (Keeps-raise _)))

    pub Keeps-ensure_lang_enabled : Keeps Kept (ensure_lang_enabled x site_id route lang)
    unfolding ensure_lang_enabled
    Keeps-ensure_lang_enabled =
        Keeps-if _ _ _
          (Keeps-bind _ _ Keeps-find_site (λ w.
            Keeps-maybe w _ _ (Keeps-raise _) (λ v. Keeps-if _ _ _ (Keeps-pure _) (Keeps-raise _))))
          (Keeps-pure _)

    pub Keeps-persist_translation :
        (d : Document) (text provided : String) (quality : Quality) (auto : Bool)
        → Keeps Kept (persist_translation x site_id route lang d text provided quality auto)
    unfolding persist_translation
    Keeps-persist_translation d text provided quality auto =
        Keeps-bind _ _ (Keeps-ask _ _) (λ a. Keeps-bind _ _ (Keeps-ask _ _) (λ b. Keeps-ask _ _))

    pub Keeps-provider : Keeps Kept (provider x site_id route lang)
    unfolding provider
    Keeps-provider = Keeps-reading _ (λ s.
        Keeps-if _ _ _ (Keeps-pure _)
          (Keeps-bind _ _ (Keeps-ask _ _) (λ a. Keeps-write _ (λ t h. h))))

    pub Keeps-translate_one :
        (text source_lang : String)
        → Keeps Kept (translate_one x site_id route lang text source_lang)
    unfolding translate_one
    Keeps-translate_one text source_lang = Keeps-bind _ _ Keeps-provider (λ a. Keeps-ask _ _)

    pub Keeps-translate_many :
        (texts : List String) (source_lang : String)
        → Keeps Kept (translate_many x site_id route lang texts source_lang)
    unfolding translate_many
    Keeps-translate_many texts source_lang = Keeps-bind _ _ Keeps-provider (λ a. Keeps-ask _ _)

    pub Keeps-find_terms : Keeps Kept (find_terms x site_id route lang)
    unfolding find_terms
    Keeps-find_terms = Keeps-ask _ _

    pub Keeps-cached_terms : Keeps Kept (cached_terms x site_id route lang)
    unfolding cached_terms find_terms
    Keeps-cached_terms = Keeps-reading _ (λ s.
        Keeps-maybe (get lang s.glossary_cache) _ _
          (Keeps-bind _ _ (Keeps-ask _ _)
            (λ terms. Keeps-bind _ _ (Keeps-write _ (λ t h. h)) (λ a. Keeps-pure _)))
          (λ terms. Keeps-pure _))

    pub Keeps-find_match : (d : Document) → Keeps Kept (find_match x site_id route lang d)
    unfolding find_match
    Keeps-find_match d = Keeps-ask _ _

    -- where what is written for a text that waits is kept
    module _ (serve_pending : Bool) (Q : Pending → Type 0)
        (given : (p : Pending) (text : String)
          → Q p
          → Keeps Kept (answer_text p.doc.key (if serve_pending then text else p.doc.source_text)))
        (source : (p : Pending) → Q p → Keeps Kept (answer_text p.doc.key p.doc.source_text)) where
      pub Keeps-keep_answer :
          (p : Pending) (out : String)
          → Q p
          → Keeps Kept (keep_answer x site_id route lang serve_pending p out)
      unfolding keep_answer
      Keeps-keep_answer p out k =
          Keeps-bind _ _ (Keeps-persist_translation p.doc _ _ _ _) (λ a. given p _ k)

      pub Keeps-keep_answers :
          (ps : List Pending) (outs : List String)
          → All Q ps
          → Keeps Kept (keep_answers x site_id route lang serve_pending ps outs)
      unfolding keep_answers
      Keeps-keep_answers [] [] k = Keeps-pure _
      Keeps-keep_answers [] (out ∷ outs) k = Keeps-raise _
      Keeps-keep_answers (p ∷ ps) [] k = Keeps-raise _
      Keeps-keep_answers (p ∷ ps) (out ∷ outs) k =
          Keeps-bind _ _ (Keeps-keep_answer p out k.0) (λ a. Keeps-keep_answers ps outs k.1)

      pub Keeps-translate_each :
          (source_lang : String) (ps : List Pending)
          → All Q ps
          → Keeps Kept (translate_each x site_id route lang serve_pending source_lang ps)
      unfolding translate_each
      Keeps-translate_each source_lang [] k = Keeps-pure _
      Keeps-translate_each source_lang (p ∷ ps) k =
          Keeps-bind _ _
            (Keeps-catch _ _ (Keeps-bind _ _ (Keeps-translate_one _ _) (λ out. Keeps-pure _))
              (λ e. Keeps-if _ _ _ (Keeps-pure _) (Keeps-raise _)))
            (λ o.
              Keeps-bind _ _ (Keeps-maybe o _ _ (source p k.0) (λ out. Keeps-keep_answer p out k.0))
                (λ a. Keeps-translate_each source_lang ps k.1))

      pub Keeps-translate_chunk :
          (source_lang : String) (ps : List Pending)
          → All Q ps
          → Keeps Kept (translate_chunk x site_id route lang serve_pending source_lang ps)
      unfolding translate_chunk
      Keeps-translate_chunk source_lang ps k =
          Keeps-catch _ _
            (Keeps-bind _ _ (Keeps-translate_many _ _) (λ outs. Keeps-keep_answers ps outs k))
            (λ e. Keeps-if _ _ _ (Keeps-translate_each source_lang ps k) (Keeps-raise _))

      pub Keeps-translate_chunks :
          (source_lang : String) (cs : List (List Pending))
          → All (All Q) cs
          → Keeps Kept (translate_chunks x site_id route lang serve_pending source_lang cs)
      unfolding translate_chunks
      Keeps-translate_chunks source_lang [] k = Keeps-pure _
      Keeps-translate_chunks source_lang (c ∷ cs) k =
          Keeps-bind _ _ (Keeps-translate_chunk source_lang c k.0)
            (λ a. Keeps-translate_chunks source_lang cs k.1)

      pub Keeps-translate_groups :
          (groups : Dict (List Pending))
          → All (λ g. All Q g.1) groups
          → Keeps Kept (translate_groups x site_id route lang serve_pending groups)
      unfolding translate_groups
      Keeps-translate_groups [] k = Keeps-pure _
      Keeps-translate_groups ((source_lang, entries) ∷ rest) k =
          Keeps-bind _ _ (Keeps-translate_chunks source_lang _ (chunk-All Q _ entries k.0))
            (λ a. Keeps-translate_groups rest k.1)

      pub Keeps-runtime_batch_ai :
          ((s : Work) → Kept s → All Q s.pending)
          → Keeps Kept (runtime_batch_ai x site_id route lang serve_pending)
      unfolding runtime_batch_ai
      Keeps-runtime_batch_ai waiting =
          Keeps-reading_with _
            (λ s h. Keeps-translate_groups _ (group-All Q s.pending [] (waiting s h) tt))
