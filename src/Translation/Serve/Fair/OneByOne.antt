-- ===== src/Translation/Serve/Fair/OneByOne.antt =====
-- The texts that the provider is asked for one by one.
use seeds.Base.{String, ◌≡◌, sym, subst, false, Option, none, some, List, [], ◌∷◌, All}
use seeds.Act.{done, maybe, gets}
use seeds.Act.Keeps.{Keeps, Keeps-pure, Keeps-raise, Keeps-if, Keeps-catch, Keeps-bind, Keeps-maybe}
use seeds.Act.Returns.{Keeps-bind_given}
use seeds.Act.Yields.{Yields, Yields-bind, Yields-kept}
use seeds.Translation.Model.{Document}
use seeds.Translation.Placeholders.{normalize}
use seeds.Translation.Requests.{Outside, Call, Pending, is_first_party}
use seeds.Translation.Serve.{keep_answer, answer_match}
use seeds.Translation.Serve.OneByOne.{request_of, translate_now, get_one, get_all, get_or_translate}
use seeds.Translation.Serve.Fair.Visible.{
  Fair, IsFair, IsMatch, Keeps-answer_text, source-IsFair, FairOf, source-Keeps,
}
use seeds.Translation.Serve.Rules.{
  Keeps-translate_one, Keeps-find_terms, Keeps-find_match, Keeps-keep_answer,
}
use seeds.Translation.Serve.Fair.Prepare.{
  Keeps-answer_existing, Keeps-answer_match, Returns-find_match, Yields-read_route,
}

module _ (lang : String) (Known : Document → Type 0) (Matches : Document → Document → Type 0)
    (x : Outside) (site_id route : String) (others : is_first_party x site_id route lang ≡ false)
    (matched : (h : List Call) (d : Document) (o : Option Document)
      → x.exact_match h site_id d.source_text d.source_lang lang ≡ done o
      → IsMatch lang Matches d o) where
  Keeps-translate_now :
      (p : Pending)
      → Known p.doc
      → Keeps (Fair lang Known Matches) (translate_now x site_id route lang p)
  unfolding translate_now
  Keeps-translate_now p k =
      Keeps-bind _ _
        (Keeps-catch _ _
          (Keeps-bind _ _ (Keeps-translate_one (FairOf lang Known Matches) x site_id route lang _ _)
            (λ out. Keeps-pure _))
          (λ e. Keeps-if _ _ _ (Keeps-pure _) (Keeps-raise _)))
        (λ o.
          Keeps-maybe o _ _
            (Keeps-answer_text lang Known Matches _ _ (source-IsFair lang Known Matches p.doc k))
            (λ out.
              subst
                (λ b. Keeps (Fair lang Known Matches) (keep_answer x site_id route lang b p out))
                (sym others)
                (Keeps-keep_answer (FairOf lang Known Matches) x site_id route lang false
                  (λ p. Known p.doc) (λ p text. source-Keeps lang Known Matches p)
                  (source-Keeps lang Known Matches) p out k)))

  Keeps-met :
      (o : Option Document) (p : Pending) (d : Document)
      → Known d
      → Known p.doc
      → IsMatch lang Matches d o
      → Keeps (Fair lang Known Matches) (
          maybe o
            (translate_now x site_id route lang p)
            (λ m. answer_match x site_id route lang d m))
  unfolding maybe
  Keeps-met none p d k q i = Keeps-translate_now p q
  Keeps-met (some m) p d k q i = Keeps-answer_match lang Known Matches x site_id route d m k i

  Keeps-get_one :
      (d : Document) → Known d → Keeps (Fair lang Known Matches) (get_one x site_id route lang d)
  unfolding get_one request_of
  Keeps-get_one d k =
      Keeps-if _ _ _ (Keeps-answer_existing lang Known Matches x site_id route d others k) (
        Keeps-bind _ _ (Keeps-find_terms (FairOf lang Known Matches) x site_id route lang) (λ terms.
          Keeps-bind_given {Q = IsMatch lang Matches d} _ _
            (Keeps-find_match (FairOf lang Known Matches) x site_id route lang d)
            (Returns-find_match lang Known Matches x site_id route others matched d)
            (λ o i.
              Keeps-met o
                (request_of x site_id route lang d (normalize x.regex d.source_text terms)) d k k
                i)))

  Keeps-get_all :
      (ds : List Document)
      → All Known ds
      → Keeps (Fair lang Known Matches) (get_all x site_id route lang ds)
  unfolding get_all
  Keeps-get_all [] k = Keeps-pure _
  Keeps-get_all (d ∷ ds) k = Keeps-bind _ _ (Keeps-get_one d k.0) (λ a. Keeps-get_all ds k.1)

  pub Yields-get_or_translate :
      ((h : List Call) (ds : List Document) → x.route h site_id route ≡ done ds → All Known ds)
      → Yields
          (Fair lang Known Matches)
          (λ r s. All (IsFair lang Known Matches) r)
          (get_or_translate x site_id route lang)
  unfolding get_or_translate gets
  Yields-get_or_translate known =
      Yields-bind _ _ (Yields-read_route lang Known Matches x site_id route known) (λ docs. record {
        yields = λ s h.
            (Yields-bind _ _ (Yields-kept _ (Keeps-get_all docs h.0))
                (λ b. record { yields = λ t f. f.0 })).yields
              s h.1;
      })
