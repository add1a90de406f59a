-- ===== src/Translation/Serve/OneByOne.antt =====
-- `get_or_translate` of platform/app/services/translation_service.py, which asks the provider for each text.
use seeds.Base.{String, none, some, List, [], ◌∷◌, if◌then◌else◌}
use seeds.Dict.{Dict, get}
use seeds.Act.{Act, pure, raise, gets, catch, maybe, ◌>>=◌, ◌>>◌}
use seeds.Translation.Model.{Document}
use seeds.Translation.Placeholders.{mask, normalize}
use seeds.Translation.Requests.{
  Outside, Pending, Work, answer_text, is_first_party, find_terms, find_match, translate_one,
  read_route,
}
use seeds.Translation.Serve.{
  is_transient_error, has_translation, answer_existing, answer_match, keep_answer,
}

module _ (x : Outside) (site_id route lang : String) where
  -- what the provider is asked for a document
  unfoldable pub request_of : Document → String → Pending
  request_of d normalized = record {
    doc = d;
    masked = (mask x.regex normalized).0;
    placeholders = (mask x.regex normalized).1;
    source_lang = d.source_lang;
    normalized = normalized;
  }

  unfoldable pub translate_now : Pending → Act Work (Unit {0})
  translate_now p = do
    answer ←
        catch (translate_one x site_id route lang p.masked p.source_lang >>= λ out. pure (some out))
          (λ e. if is_transient_error e then pure none else raise e)
    maybe answer (answer_text p.doc.key p.doc.source_text)
        (λ out. keep_answer x site_id route lang (is_first_party x site_id route lang) p out)

  unfoldable pub get_one : Document → Act Work (Unit {0})
  get_one d =
      if has_translation x site_id route lang (get lang d.translations)
      then answer_existing x site_id route lang d
      else (do
        terms ← find_terms x site_id route lang
        hit ← find_match x site_id route lang d
        maybe hit (translate_now (request_of d (normalize x.regex d.source_text terms)))
            (λ m. answer_match x site_id route lang d m))

  unfoldable pub get_all : List Document → Act Work (Unit {0})
  get_all [] = pure tt
  get_all (d ∷ ds) = get_one d >> get_all ds

  unfoldable pub get_or_translate : Act Work (Dict String)
  get_or_translate = do docs ← read_route x site_id route lang; get_all docs; gets (λ s. s.result)
