-- ===== src/Translation/Serve/Fair.antt =====
-- What a visitor of a site of others is answered.
pub mod Visible
pub mod Prepare
pub mod OneByOne
use seeds.Base.{
  ℕ, String, ◌==◌, is_given, truthy, ◌≡◌, refl, sym, ap, subst, ◌∙◌, ◌⊎◌, inl, inr, Bool, true,
  false, ◌&&◌, ◌||◌, Option, none, some, List, [], ◌∷◌, ◌++◌, map, All, All-Among, Among,
  All-append, if◌then◌else◌, arith, is_some, Bool-cases, Option-cases,
}
use seeds.Dict.{Dict, get, insert, All-insert, All-get}
use seeds.Act.{
  Exn, Reply, done, raised, cancelled, Act, pure, raise, gets, reading, catch, write, maybe, ◌>>=◌,
  ◌>>◌, value_error, key_error, not_found_error, validation_error,
}
use seeds.Act.Keeps.{
  Keeps, Keeps-pure, Keeps-raise, Keeps-gets, Keeps-reading, Keeps-reading_with, Keeps-if,
  Keeps-catch, Keeps-write, Keeps-bind, Keeps-maybe, Keeps-maybe_given,
}
use seeds.Act.Returns.{OnDone, Returns, Keeps-bind_given}
use seeds.Act.Yields.{
  After, Yields, Yields-done, Yields-bind, Yields-kept, Yields-if, Yields-raise, Yields-pure,
  Yields-maybe,
}
use seeds.Translation.Model.{Status, pending, approved, rejected, Entry, Document}
use seeds.Translation.Served.{is_approved, served_entry}
use seeds.Translation.Placeholders.{normalize}
use seeds.Translation.Batches.{chunk}
use seeds.Translation.Batches.Limits.{concat, chunk-within, All-concat}
use seeds.Translation.Requests.{
  Website, Quality, Call, Outside, Pending, Work, ask, answer_text, is_enabled, is_listed,
  find_site, ensure_site_active, ensure_lang_enabled, is_first_party, persist_translation, provider,
  translate_one, translate_many, find_terms, cached_terms, find_match, match_text, read_route,
  begin,
}
use seeds.Translation.Serve.{
  is_transient_error, is_caught, group, has_translation, keep_answer, keep_answers, translate_each,
  translate_chunk, translate_chunks, translate_groups, runtime_batch_ai, answer_existing, put_off,
  answer_match, prepare, prepare_all, generate_translations, runtime_translate,
}
use seeds.Translation.Serve.Fair.Visible.{
  Fair, Keeps-answer_text, source-IsFair, IsReviewed, IsFair, served-status, served-cases, IsMatch,
  OnDone-of, After-of, FairOf, source-Keeps,
}
use seeds.Translation.Serve.Rules.{
  Keeps-ask, Keeps-persist_translation, Keeps-ensure_site_active, Keeps-ensure_lang_enabled,
  Keeps-translate_one, Keeps-cached_terms, Keeps-find_terms, Keeps-find_match, Keeps-keep_answer,
  Keeps-runtime_batch_ai,
}
use seeds.Translation.Serve.OneByOne.{get_or_translate}
use seeds.Translation.Serve.Fair.OneByOne.{Yields-get_or_translate}
use seeds.Translation.Serve.Fair.Prepare.{
  Returns-find_match, Keeps-hit, Keeps-prepare, Keeps-prepare_all, Yields-read_route,
}

module _ (lang : String) (Known : Document → Type 0) (Matches : Document → Document → Type 0)
    (x : Outside) (site_id route : String) (others : is_first_party x site_id route lang ≡ false)
    (matched : (h : List Call) (d : Document) (o : Option Document)
      → x.exact_match h site_id d.source_text d.source_lang lang ≡ done o
      → IsMatch lang Matches d o) where
  Yields-generate_translations :
      ((h : List Call) (ds : List Document) → x.route h site_id route ≡ done ds → All Known ds)
      → Yields
          (Fair lang Known Matches)
          (λ r s. All (IsFair lang Known Matches) r)
          (generate_translations x site_id route lang false)
  unfolding generate_translations gets
  Yields-generate_translations known =
      Yields-bind _ _
        (Yields-kept _ (Keeps-ensure_lang_enabled (FairOf lang Known Matches) x site_id route lang))
        (λ a. Yields-bind _ _ (Yields-read_route lang Known Matches x site_id route known) (λ docs.
          record {
            yields = λ s h.
                (Yields-bind _ _
                    (Yields-kept _ (
                      Keeps-prepare_all lang Known Matches x site_id route others matched docs h.0))
                    (λ b.
                      Yields-bind _ _
                        (Yields-kept _ (
                          Keeps-runtime_batch_ai (FairOf lang Known Matches) x site_id route lang
                            false (λ p. Known p.doc) (λ p text. source-Keeps lang Known Matches p)
                            (source-Keeps lang Known Matches) (λ s h. h.1)))
                        (λ c. record { yields = λ t f. f.0 }))).yields
                  s h.1;
          }))

  Yields-runtime_translate :
      ((h : List Call) (ds : List Document) → x.route h site_id route ≡ done ds → All Known ds)
      → Yields
          (Fair lang Known Matches)
          (λ r s. All (IsFair lang Known Matches) r)
          (runtime_translate x site_id route lang)
  unfolding runtime_translate
  Yields-runtime_translate known =
      Yields-bind _ _
        (Yields-kept _ (Keeps-ensure_site_active (FairOf lang Known Matches) x site_id route lang))
        (λ w.
          subst
            (λ b.
              Yields (Fair lang Known Matches) (λ r s. All (IsFair lang Known Matches) r)
                (generate_translations x site_id route lang b))
            (sym others) (Yields-generate_translations known))

-- a document that was read for a route
abbrev pub IsRead : Outside → String → String → Document → Type 0
IsRead x site_id route d =
    (h : List Call) × (ds : List Document) × (x.route h site_id route ≡ done ds) × Among d ds

-- a document that the database has answered, in this run or another, to the search for an exact match
-- of this one
abbrev pub IsAnswered : Outside → String → String → Document → Document → Type 0
IsAnswered x site_id lang d m =
    (h : List Call) × (x.exact_match h site_id d.source_text d.source_lang lang ≡ done (some m))

found-IsMatch :
    (x : Outside) (site_id lang : String) (h : List Call) (d : Document)
    → ((m : Document)
        → x.exact_match h site_id d.source_text d.source_lang lang ≡ done (some m)
        → (m.source_text ≡ d.source_text)
          × ((e : Entry) × (get lang m.translations ≡ some e) × (e.status ≡ some approved)))
    → (o : Option Document) → x.exact_match h site_id d.source_text d.source_lang lang ≡ done o
    → IsMatch lang (IsAnswered x site_id lang) d o
found-IsMatch x site_id lang h d promised none e = tt
found-IsMatch x site_id lang h d promised (some m) e = let p = promised m e in ((h, e), p.0, p.1)

-- Where the database answers a search for an exact match only with a document of the same source text and
-- an approved entry in the language: each text that `runtime_translate` or `get_or_translate` answers for a
-- site of others stands under the key of a document that the database answers for the route, and is its
-- source text, or the text of an approved entry in the language, of this document or of one that the
-- database answers to the search for an exact match of it.
pub runtime_translate-IsFair :
    (x : Outside) (site_id route lang : String) (calls : List Call) (has_provider : Bool)
    (r : Dict String)
    → is_first_party x site_id route lang ≡ false
    → ((h : List Call) (source source_lang : String) (m : Document)
        → x.exact_match h site_id source source_lang lang ≡ done (some m)
        → (m.source_text ≡ source)
          × ((e : Entry) × (get lang m.translations ≡ some e) × (e.status ≡ some approved)))
    → ((runtime_translate x site_id route lang (begin calls has_provider)).0 ≡ done r)
      ⊎ ((get_or_translate x site_id route lang (begin calls has_provider)).0 ≡ done r)
    → All (IsFair lang (IsRead x site_id route) (IsAnswered x site_id lang)) r
runtime_translate-IsFair x site_id route lang calls has_provider r others matched h =
    let Known : Document → Type 0 = IsRead x site_id route in
    let Matches : Document → Document → Type 0 = IsAnswered x site_id lang in
    let exact : (h : List Call) (d : Document) (o : Option Document)
        → x.exact_match h site_id d.source_text d.source_lang lang ≡ done o
        → IsMatch lang Matches d o =
      λ h d o e. found-IsMatch x site_id lang h d (matched h d.source_text d.source_lang) o e in
    let known : (h : List Call) (ds : List Document)
        → x.route h site_id route ≡ done ds
        → All Known ds =
      λ h ds e. All-Among Known ds (λ d a. (h, ds, e, a)) in
    elim h [
      | inl e ↦
          Yields-done (runtime_translate x site_id route lang)
            (Yields-runtime_translate lang Known Matches x site_id route others exact known)
            (begin calls has_provider) r (tt, tt) e
      | inr e ↦
          Yields-done (get_or_translate x site_id route lang)
            (Yields-get_or_translate lang Known Matches x site_id route others exact known)
            (begin calls has_provider) r (tt, tt) e
    ]
