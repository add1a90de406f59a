-- ===== src/Translation/Serve/Fair/Prepare.antt =====
-- The texts that are stored already, or taken over from another document.
use seeds.Base.{
  String, ◌≡◌, refl, sym, subst, inl, inr, false, Option, none, some, List, [], ◌∷◌, All,
  All-append, arith,
}
use seeds.Dict.{get}
use seeds.Act.{done, maybe}
use seeds.Act.Yields.{Yields}
use seeds.Act.Keeps.{
  Keeps, Keeps-pure, Keeps-raise, Keeps-if, Keeps-write, Keeps-bind, Keeps-maybe_given,
}
use seeds.Act.Returns.{Returns, Keeps-bind_given}
use seeds.Translation.Model.{Entry, Document}
use seeds.Translation.Served.{served_entry}
use seeds.Translation.Placeholders.{normalize}
use seeds.Translation.Requests.{
  read_route, ask, Call, Outside, is_first_party, find_match, match_text,
}
use seeds.Translation.Serve.{
  answer_existing, put_off, answer_match, prepare, prepare_missing, prepare_all,
}
use seeds.Translation.Serve.Fair.Visible.{
  After-of, Fair, Keeps-answer_text, IsFair, served-cases, IsMatch, OnDone-of, FairOf,
}
use seeds.Translation.Serve.Rules.{Keeps-persist_translation, Keeps-cached_terms, Keeps-find_match}

module _ (lang : String) (Known : Document → Type 0) (Matches : Document → Document → Type 0) where
  module _ (x : Outside) (site_id route : String) where
    pub served-IsFair :
        (d : Document)
        → Known d
        → IsFair lang Known Matches
            (d.key, served_entry false d.source_text (get lang d.translations))
    served-IsFair d k = elim (served-cases d.source_text (get lang d.translations)) [
      | inl source ↦ (d, k, refl, inl source)
      | inr (e, found, status, text) ↦ (d, k, refl, inr (d, e, inl refl, refl, found, status, text))
    ]

    pub text_of-match :
        (m : Document) (e : Entry) (text : String)
        → get lang m.translations ≡ some e
        → match_text x site_id route lang m ≡ some text
        → e.text ≡ some text
    unfolding match_text
    text_of-match m e text g h = ground (arith, g, h)

    pub Keeps-answer_match :
        (d m : Document)
        → Known d
        → IsMatch lang Matches d (some m)
        → Keeps (Fair lang Known Matches) (answer_match x site_id route lang d m)
    unfolding answer_match
    Keeps-answer_match d m k i =
        Keeps-maybe_given (match_text x site_id route lang m) _ _ (Keeps-raise _) (λ text e.
          Keeps-bind _ _
            (Keeps-persist_translation (FairOf lang Known Matches) x site_id route lang d text _ _
              _)
            (λ a. Keeps-answer_text lang Known Matches d.key text (
              d,
              k,
              refl,
              inr (m, i.2.0, inr i.0, i.1, i.2.1, i.2.2, text_of-match m i.2.0 text i.2.1 e),
            )))

    pub Keeps-put_off :
        (d : Document) (normalized : String)
        → Known d
        → Keeps (Fair lang Known Matches) (put_off x site_id route lang d normalized)
    unfolding put_off
    Keeps-put_off d normalized k =
        Keeps-write _ (λ s h. (h.0, All-append (λ p. Known p.doc) s.pending _ h.1 (k, tt)))

    pub Keeps-answer_existing :
        (d : Document)
        → is_first_party x site_id route lang ≡ false
        → Known d
        → Keeps (Fair lang Known Matches) (answer_existing x site_id route lang d)
    unfolding answer_existing
    Keeps-answer_existing d others k = Keeps-answer_text lang Known Matches d.key _ (
        subst
          (λ b.
            IsFair lang Known Matches
              (d.key, served_entry b d.source_text (get lang d.translations)))
          (sym others) (served-IsFair d k))

    pub Yields-read_route :
        ((h : List Call) (ds : List Document) → x.route h site_id route ≡ done ds → All Known ds)
        → Yields
            (Fair lang Known Matches)
            (λ ds s. All Known ds × Fair lang Known Matches s)
            (read_route x site_id route lang)
    unfolding read_route ask
    Yields-read_route known = record {
      yields =
          λ s f. After-of _ (x.route s.calls site_id route) _ (λ ds e. (known s.calls ds e, f));
    }

    module _ (others : is_first_party x site_id route lang ≡ false)
        (matched : (h : List Call) (d : Document) (o : Option Document)
          → x.exact_match h site_id d.source_text d.source_lang lang ≡ done o
          → IsMatch lang Matches d o) where
      pub Returns-find_match :
          (d : Document) → Returns (IsMatch lang Matches d) (find_match x site_id route lang d)
      unfolding find_match ask
      Returns-find_match d = record {
        gives = λ s. OnDone-of (IsMatch lang Matches d) _ (matched s.calls d);
      }

      pub Keeps-hit :
          (o : Option Document) (normalized : String) (d : Document)
          → Known d
          → IsMatch lang Matches d o
          → Keeps (Fair lang Known Matches) (
              maybe o
                (put_off x site_id route lang d normalized)
                (λ m. answer_match x site_id route lang d m))
      unfolding maybe
      Keeps-hit none normalized d k i = Keeps-put_off d normalized k
      Keeps-hit (some m) normalized d k i = Keeps-answer_match d m k i

      pub Keeps-prepare :
          (d : Document)
          → Known d
          → Keeps (Fair lang Known Matches) (prepare x site_id route lang d)
      unfolding prepare prepare_missing
      Keeps-prepare d k = Keeps-if _ _ _ (Keeps-answer_existing d others k) (
          Keeps-bind _ _ (Keeps-cached_terms (FairOf lang Known Matches) x site_id route lang)
            (λ terms.
              Keeps-bind_given {Q = IsMatch lang Matches d} _ _
                (Keeps-find_match (FairOf lang Known Matches) x site_id route lang d)
                (Returns-find_match d)
                (λ o i. Keeps-hit o (normalize x.regex d.source_text terms) d k i)))

      pub Keeps-prepare_all :
          (ds : List Document)
          → All Known ds
          → Keeps (Fair lang Known Matches) (prepare_all x site_id route lang ds)
      unfolding prepare_all
      Keeps-prepare_all [] k = Keeps-pure _
      Keeps-prepare_all (d ∷ ds) k =
          Keeps-bind _ _ (Keeps-prepare d k.0) (λ a. Keeps-prepare_all ds k.1)
