-- ===== src/Translation/Serve.antt =====
-- The texts of a route in a language: `runtime_translate` and `generate_for_review` of
-- platform/app/services/translation_service.py.
pub mod OneByOne
pub mod Rules
pub mod Fair
pub mod Complete
use seeds.Base.{
  ℕ, suc, String, ◌==◌, is_given, truthy, Bool, true, false, not, ◌&&◌, ◌||◌, Option, none, some,
  List, [], ◌∷◌, ◌++◌, format, map, is_some, if◌then◌else◌,
}
use seeds.Dict.{Dict, get, insert}
use seeds.Act.{
  Exn, Reply, done, raised, cancelled, Act, pure, raise, gets, reading, catch, write, when, maybe,
  ◌>>=◌, ◌>>◌, value_error, key_error, not_found_error, validation_error, transient_error,
}
use seeds.Translation.Model.{Status, Entry, Document}
use seeds.Translation.Served.{is_approved, served_entry}
use seeds.Translation.Placeholders.{Regex, Term, mask, unmask, normalize}
use seeds.Translation.Batches.{chunk}
use seeds.Translation.Requests.{
  Website, Quality, Call, Outside, Pending, Work, begin, ask, answer_text, is_enabled, is_listed,
  find_by_site_id, find_by_route, find_by_lang, find_exact_match, save_translation,
  append_audit_entry, record_audit, make_provider, translate_batch, translate, full, scored,
  find_site, ensure_site_active, ensure_site_owned_by_tenant, ensure_lang_enabled, is_first_party,
  persist_translation, provider, translate_one, translate_many, find_terms, cached_terms,
  find_match, match_text, read_route,
}

-- the errors that `_runtime_batch_ai` catches
unfoldable pub is_transient_error : Exn → Bool
is_transient_error transient_error = true
is_transient_error _ = false

unfoldable pub is_caught : Exn → Bool
is_caught value_error = true
is_caught e = is_transient_error e

-- `by_src.setdefault(source_lang, []).append(entry)`
unfoldable pub group : List Pending → Dict (List Pending) → Dict (List Pending)
group [] by_src = by_src
group (p ∷ ps) by_src =
    let entries : List Pending = elim (get p.source_lang by_src) [ none ↦ [] | some es ↦ es ] in
    group ps (insert p.source_lang (entries ++ p ∷ []) by_src)

module _ (x : Outside) (site_id route lang : String) where
  -- `existing and existing.get("text")`
  unfoldable pub has_translation : Option Entry → Bool
  has_translation none = false
  has_translation (some e) = is_given e.text

  -- what a provider x site_id route lang has answered for a text
  unfoldable pub keep_answer : Bool → Pending → String → Act Work (Unit {0})
  keep_answer serve_pending p out = do
    let translated = unmask x.regex out p.placeholders
    persist_translation x site_id route lang p.doc translated x.provider_name
        (scored p.normalized out p.placeholders) false
    answer_text p.doc.key (if serve_pending then translated else p.doc.source_text)

  -- `zip(chunk, outs, strict=True)`
  unfoldable pub keep_answers : Bool → List Pending → List String → Act Work (Unit {0})
  keep_answers serve_pending [] [] = pure tt
  keep_answers serve_pending [] (out ∷ outs) = raise value_error
  keep_answers serve_pending (p ∷ ps) [] = raise value_error
  keep_answers serve_pending (p ∷ ps) (out ∷ outs) =
      keep_answer serve_pending p out >> keep_answers serve_pending ps outs

  -- one by one, where the batch failed
  unfoldable pub translate_each : Bool → String → List Pending → Act Work (Unit {0})
  translate_each serve_pending source_lang [] = pure tt
  translate_each serve_pending source_lang (p ∷ ps) = do
    answer ←
        catch (translate_one x site_id route lang p.masked source_lang >>= λ out. pure (some out))
          (λ e. if is_transient_error e then pure none else raise e)
    maybe answer (answer_text p.doc.key p.doc.source_text) (λ out. keep_answer serve_pending p out)
    translate_each serve_pending source_lang ps

  unfoldable pub translate_chunk : Bool → String → List Pending → Act Work (Unit {0})
  translate_chunk serve_pending source_lang ps =
      catch
        (translate_many x site_id route lang (map (λ p. p.masked) ps) source_lang >>= λ outs.
          keep_answers serve_pending ps outs)
        (λ e. if is_caught e then translate_each serve_pending source_lang ps else raise e)

  unfoldable pub translate_chunks : Bool → String → List (List Pending) → Act Work (Unit {0})
  translate_chunks serve_pending source_lang [] = pure tt
  translate_chunks serve_pending source_lang (c ∷ cs) =
      translate_chunk serve_pending source_lang c >> translate_chunks serve_pending source_lang cs

  unfoldable pub translate_groups : Bool → Dict (List Pending) → Act Work (Unit {0})
  translate_groups serve_pending [] = pure tt
  translate_groups serve_pending ((source_lang, entries) ∷ rest) =
      translate_chunks serve_pending source_lang (chunk (λ p. x.regex.len p.masked) entries)
      >> translate_groups serve_pending rest

  -- `_runtime_batch_ai`
  unfoldable pub runtime_batch_ai : Bool → Act Work (Unit {0})
  runtime_batch_ai serve_pending =
      reading (λ s. translate_groups serve_pending (group s.pending []))

  -- the text of a document that has one in the language
  unfoldable pub answer_existing : Document → Act Work (Unit {0})
  answer_existing d =
      answer_text d.key
        (served_entry (is_first_party x site_id route lang) d.source_text (get lang d.translations))

  unfoldable pub put_off : Document → String → Act Work (Unit {0})
  put_off d normalized = write (λ s. record s {
    pending =
        s.pending
        ++ record {
          doc = d;
          masked = (mask x.regex normalized).0;
          placeholders = (mask x.regex normalized).1;
          source_lang = d.source_lang;
          normalized = normalized;
        }
          ∷ [];
  })

  unfoldable pub answer_match : Document → Document → Act Work (Unit {0})
  answer_match d m = maybe (match_text x site_id route lang m) (raise key_error) (λ text. do
    persist_translation x site_id route lang d text "TranslationMemory" full true
    answer_text d.key text)

  -- the loop of `_generate_translations` on one document: where it has no text, and else
  unfoldable pub prepare_missing : Document → Act Work (Unit {0})
  prepare_missing d = do
    terms ← cached_terms x site_id route lang
    hit ← find_match x site_id route lang d
    maybe hit (put_off d (normalize x.regex d.source_text terms)) (λ m. answer_match d m)

  unfoldable pub prepare : Document → Act Work (Unit {0})
  prepare d =
      if has_translation (get lang d.translations) then answer_existing d else prepare_missing d

  unfoldable pub prepare_all : List Document → Act Work (Unit {0})
  prepare_all [] = pure tt
  prepare_all (d ∷ ds) = prepare d >> prepare_all ds

  -- `_generate_translations`
  unfoldable pub generate_translations : Bool → Act Work (Dict String)
  generate_translations serve_pending = do
    ensure_lang_enabled x site_id route lang
    docs ← read_route x site_id route lang
    prepare_all docs
    runtime_batch_ai serve_pending
    gets (λ s. s.result)

  unfoldable pub runtime_translate : Act Work (Dict String)
  runtime_translate =
      ensure_site_active x site_id route lang
      >> generate_translations (is_first_party x site_id route lang)

  unfoldable pub generate_for_review : String → Act Work (Dict String)
  generate_for_review tenant_id = do
    website ← ensure_site_owned_by_tenant x site_id route lang tenant_id
    if website.status == "Active" then generate_translations true else raise not_found_error
