-- ===== src/Translation/Cases.antt =====
-- The theorems on translations, at a small route.
use seeds.Base.{
  inl, ℕ, ◌+◌, String, ◌==◌, ◌≡◌, refl, sym, ap, subst, ◌⊎◌, Bool, true, false, Option, none, some,
  List, [], ◌∷◌, ◌++◌, map, All, if◌then◌else◌, eqb, arith,
}
use seeds.Dict.{contains, Dict, get}
use seeds.Act.{Reply, done, raised, cancelled}
use seeds.Translation.Model.{Status, pending, approved, rejected, Entry, Document, empty_entry}
use seeds.Translation.Placeholders.{Regex, plain, matched, Pattern, double_braces}
use seeds.Translation.Batches.{chunk}
use seeds.Translation.Batches.Limits.{concat, IsChunk, chunk-within}
use seeds.Translation.Served.{
  Change, save, edit, approve, reject, note, perform_all, stored_text, stored_text-perform_all,
}
use seeds.Translation.Approval.{bulk_document, plan_all, plan_document, counts}
use seeds.Translation.Approval.Sequential.{approve_each, bulk_document-approve_each}
use seeds.Translation.Approval.Totals.{counts-asked}
use seeds.Translation.Requests.{Outside, Call, Website, begin}
use seeds.Translation.Serve.{runtime_translate}
use seeds.Translation.Serve.Complete.{generate_translations-answers}
use seeds.Translation.Serve.Fair.Visible.{IsFair}
use seeds.Translation.Serve.Fair.{IsRead, IsAnswered, runtime_translate-IsFair}

abbrev greeting : Document
greeting = record {
  id = "d1";
  site_id = "site";
  route = "/";
  key = "hello";
  source_lang = "en";
  source_text = "Hello";
  translations =
      ("kn", record empty_entry { text = some "Namaskara"; status = some approved })
      ∷ ("hi", record empty_entry { text = some "Namaste"; status = some pending })
      ∷ ("ta", record empty_entry { text = some "Vanakkam" })
      ∷ [];
  status = none;
  approved_by = none;
  rejected_by = none;
  rejection_reason = none;
  version = 1;
  audit_log = [];
}

abbrev farewell : Document
farewell = record greeting { id = "d2"; key = "bye"; source_text = "Bye"; translations = [] }

abbrev thanks : Document
thanks = record greeting {
  id = "d3";
  key = "thanks";
  source_lang = "de";
  source_text = "Danke";
  translations = [];
}

-- an approved translation of the same text on another page
abbrev remembered : String → Document
remembered source = record greeting {
  id = "d9";
  source_text = source;
  translations =
      ("kn", record empty_entry { text = some "Dhanyavada"; status = some approved }) ∷ [];
}

abbrev regex : Regex
regex = record {
  pieces = λ p text. plain text ∷ [];
  token_pieces = λ text. plain text ∷ [];
  replace_word = λ source translated text. text;
  len = λ text. 3;
  show = λ n. "0";
}

-- only German texts are remembered, and a batch of the provider fails for too few answers
abbrev found : Bool → String → Reply (Option Document)
found b source = if b then done (some (remembered source)) else done none

abbrev outside : Outside
outside = record {
  website = λ h id.
      done (some (record { status = "Active"; tenant_id = "t"; languages = ("kn", true) ∷ [] }));
  route = λ h id route. done (greeting ∷ farewell ∷ thanks ∷ []);
  terms = λ h lang. done [];
  exact_match = λ h id source source_lang lang. found (source_lang == "de") source;
  batch = λ h texts source_lang lang. done [];
  single = λ h text source_lang lang. done "Hogi banni";
  writes = λ h c. done tt;
  regex = regex;
  first_party_site_ids = "own" ∷ [];
  enforce_lang_validation = true;
  provider_name = "AzureTranslationProvider";
}

abbrev document_of : Document → Reply (Option Document) → Document
document_of d (done (some m)) = m
document_of d _ = d

found_lem :
    (b : Bool) (source : String) (m : Document)
    → found b source ≡ done (some m)
    → (m.source_text ≡ source)
      × ((e : Entry) × (get "kn" m.translations ≡ some e) × (e.status ≡ some approved))
unfolding get seeds.Base.String-discrete
found_lem true source m e =
    subst
      (λ d.
        (d.source_text ≡ source)
        × ((e : Entry) × (get "kn" d.translations ≡ some e) × (e.status ≡ some approved)))
      (ap (document_of m) e)
      (refl, (record empty_entry { text = some "Dhanyavada"; status = some approved }, refl, refl))
found_lem false source m e = cc e

runtime_translate-IsFair_example :
    All
      (IsFair "kn" (IsRead outside "site" "/") (IsAnswered outside "site" "kn"))
      (("hello", "Namaskara") ∷ ("thanks", "Dhanyavada") ∷ ("bye", "Bye") ∷ [])
unfolding seeds.Translation.Requests.is_listed seeds.Base.String-discrete runtime_translate
    seeds.Act.◌>>=◌ seeds.Translation.Requests.ensure_site_active
    seeds.Translation.Requests.find_site seeds.Translation.Requests.ask seeds.Act.maybe
    seeds.Translation.Serve.generate_translations seeds.Translation.Requests.ensure_lang_enabled
    seeds.Translation.Requests.is_enabled seeds.Translation.Requests.read_route
    seeds.Translation.Serve.prepare_all seeds.Translation.Serve.prepare
    seeds.Translation.Serve.has_translation get seeds.Translation.Serve.answer_existing
    seeds.Act.catch seeds.Act.gets seeds.Act.pure seeds.Act.raise seeds.Act.reading seeds.Act.write
    seeds.Dict.insert chunk seeds.Translation.Batches.chunks_from seeds.Translation.Batches.is_full
    seeds.Translation.Placeholders.mask seeds.Translation.Placeholders.mask_all
    seeds.Translation.Placeholders.normalize seeds.Translation.Placeholders.place
    seeds.Translation.Placeholders.replace_pieces seeds.Translation.Placeholders.replace_terms
    seeds.Translation.Placeholders.restore seeds.Translation.Placeholders.sorted
    seeds.Translation.Placeholders.unmask seeds.Translation.Serve.answer_match
    seeds.Translation.Requests.answer_text seeds.Translation.Requests.cached_terms
    seeds.Translation.Requests.find_match seeds.Translation.Requests.find_terms
    seeds.Translation.Serve.group seeds.Translation.Serve.is_caught
    seeds.Translation.Serve.is_transient_error seeds.Translation.Serve.keep_answer
    seeds.Translation.Serve.keep_answers seeds.Translation.Requests.match_text
    seeds.Translation.Requests.persist_translation seeds.Translation.Requests.provider
    seeds.Translation.Serve.put_off seeds.Translation.Serve.runtime_batch_ai
    seeds.Translation.Serve.translate_chunk seeds.Translation.Serve.translate_chunks
    seeds.Translation.Serve.translate_each seeds.Translation.Serve.translate_groups
    seeds.Translation.Requests.translate_many seeds.Translation.Requests.translate_one
    seeds.Translation.Served.served_entry seeds.Translation.Serve.prepare_missing
runtime_translate-IsFair_example =
    runtime_translate-IsFair outside "site" "/" "kn" [] false _ refl
      (λ h source source_lang m e. found_lem (source_lang == "de") source m e) (inl refl)

abbrev answers_kn : Dict String
answers_kn = ("hello", "Namaskara") ∷ ("thanks", "Dhanyavada") ∷ ("bye", "Hogi banni") ∷ []

generate_translations-answers_example :
    All (λ d. contains d.key answers_kn ≡ true) (greeting ∷ farewell ∷ thanks ∷ [])
unfolding seeds.Translation.Requests.is_listed seeds.Base.String-discrete runtime_translate
    seeds.Act.◌>>=◌ seeds.Translation.Requests.ensure_site_active
    seeds.Translation.Requests.find_site seeds.Translation.Requests.ask seeds.Act.maybe
    seeds.Translation.Serve.generate_translations seeds.Translation.Requests.ensure_lang_enabled
    seeds.Translation.Requests.is_enabled seeds.Translation.Requests.read_route
    seeds.Translation.Serve.prepare_all seeds.Translation.Serve.prepare
    seeds.Translation.Serve.has_translation get seeds.Translation.Serve.answer_existing
    seeds.Act.catch seeds.Act.gets seeds.Act.pure seeds.Act.raise seeds.Act.reading seeds.Act.write
    seeds.Dict.insert chunk seeds.Translation.Batches.chunks_from seeds.Translation.Batches.is_full
    seeds.Translation.Placeholders.mask seeds.Translation.Placeholders.mask_all
    seeds.Translation.Placeholders.normalize seeds.Translation.Placeholders.place
    seeds.Translation.Placeholders.replace_pieces seeds.Translation.Placeholders.replace_terms
    seeds.Translation.Placeholders.restore seeds.Translation.Placeholders.sorted
    seeds.Translation.Placeholders.unmask seeds.Translation.Serve.answer_match
    seeds.Translation.Requests.answer_text seeds.Translation.Requests.cached_terms
    seeds.Translation.Requests.find_match seeds.Translation.Requests.find_terms
    seeds.Translation.Serve.group seeds.Translation.Serve.is_caught
    seeds.Translation.Serve.is_transient_error seeds.Translation.Serve.keep_answer
    seeds.Translation.Serve.keep_answers seeds.Translation.Requests.match_text
    seeds.Translation.Requests.persist_translation seeds.Translation.Requests.provider
    seeds.Translation.Serve.put_off seeds.Translation.Serve.runtime_batch_ai
    seeds.Translation.Serve.translate_chunk seeds.Translation.Serve.translate_chunks
    seeds.Translation.Serve.translate_each seeds.Translation.Serve.translate_groups
    seeds.Translation.Requests.translate_many seeds.Translation.Requests.translate_one
    seeds.Translation.Served.served_entry seeds.Translation.Serve.prepare_missing
generate_translations-answers_example =
    generate_translations-answers outside "site" "/" "kn" true (begin [] false)
      (greeting ∷ farewell ∷ thanks ∷ []) answers_kn (λ h. refl) refl

-- a translation is corrected and approved, and one in another language rejected
abbrev changes : List Change
changes =
    save "kn" "Halo" "TranslationMemory" 900 "system" false
    ∷ edit "kn" "Namaskara"
    ∷ approve "kn" "admin" 1
    ∷ reject "hi" "admin" "wrong"
    ∷ note "approved" "admin" ""
    ∷ []

stored_text-perform_all_example : stored_text "kn" (perform_all changes farewell) ≡ "Namaskara"
unfolding seeds.Translation.Served.permitted seeds.Translation.Served.decide_all
    seeds.Translation.Served.decide seeds.Base.String-discrete
stored_text-perform_all_example = stored_text-perform_all "kn" changes farewell

abbrev show : ℕ → String
show n = if eqb n 2 then "2" else "3"

bulk_document-approve_each_example :
    (bulk_document show "admin" none greeting
      ≡ (approve_each show "admin" ("hi" ∷ "ta" ∷ []) greeting).1)
    × (map (λ v. v.version) (plan_document show "admin" none greeting).versions ≡ 2 ∷ 3 ∷ [])
unfolding seeds.Translation.Approval.Sequential.open_langs approve_each
    seeds.Translation.Approval.approve_one seeds.Translation.Approval.is_asked
    seeds.Translation.Model.append_audit_entry seeds.Translation.Approval.is_decided
    seeds.Translation.Model.approve_translation
bulk_document-approve_each_example = bulk_document-approve_each show "admin" none greeting

counts-asked_example :
    (counts (λ i. eqb i 0) (plan_all show "admin" none (greeting ∷ farewell ∷ []))).approved
      + (counts (λ i. eqb i 0) (plan_all show "admin" none (greeting ∷ farewell ∷ []))).skipped
      + (counts (λ i. eqb i 0) (plan_all show "admin" none (greeting ∷ farewell ∷ []))).failed
    ≡ 3
unfolding seeds.Translation.Approval.Totals.asked_all
    seeds.Translation.Approval.Totals.asked_entries seeds.Translation.Approval.is_asked
counts-asked_example = counts-asked show "admin" none (greeting ∷ farewell ∷ []) (λ i. eqb i 0)

abbrev lengths : List ℕ
lengths = 40000 ∷ 6000 ∷ 50000 ∷ []

chunk-within_example :
    (concat (chunk (λ n. n) lengths) ≡ lengths)
    × All (IsChunk (λ n. n) 50 45000) (chunk (λ n. n) lengths)
chunk-within_example = chunk-within (λ n. n) lengths
