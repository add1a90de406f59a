-- ===== src/Translation/Requests.antt =====
-- The requests that the translation of a route makes, in platform/app/services/translation_service.py. What
-- is read and what the provider answers depends on the calls before it, and every call may fail. A quality
-- is kept as what it is computed from.
use seeds.Base.{
  String, ◌==◌, Bool, true, false, ◌&&◌, ◌||◌, Option, none, some, List, [], ◌∷◌, format,
  if◌then◌else◌,
}
use seeds.Dict.{Dict, get, insert}
use seeds.Act.{
  Reply, Act, pure, raise, reading, write, maybe, ◌>>=◌, ◌>>◌, not_found_error, validation_error,
}
use seeds.Translation.Model.{Document}
use seeds.Translation.Placeholders.{Regex, Term}

pub record Website : Type 0 where
  pub status : String
  pub tenant_id : String
  pub languages : List (String × Bool)

-- what `score_translation` is called with, or 1.0
pub data Quality : Type 0 where
  full : Quality
  scored : String → String → Dict String → Quality

pub data Call : Type 0 where
  find_by_site_id : String → Call
  find_by_route : String → String → Call
  find_by_lang : String → Call
  find_exact_match : String → String → String → String → Call
  save_translation : Document → String → String → String → Quality → Bool → Call
  append_audit_entry : String → String → Call
  record_audit : String → String → Call
  make_provider : Call
  translate_batch : List String → String → String → Call
  translate : String → String → String → Call

pub record Outside : Type 0 where
  pub website : List Call → String → Reply (Option Website)
  pub route : List Call → String → String → Reply (List Document)
  pub terms : List Call → String → Reply (List Term)
  pub exact_match : List Call → String → String → String → String → Reply (Option Document)
  pub batch : List Call → List String → String → String → Reply (List String)
  pub single : List Call → String → String → String → Reply String
  -- the calls that answer nothing
  pub writes : List Call → Call → Reply (Unit {0})
  pub regex : Regex
  pub first_party_site_ids : List String
  pub enforce_lang_validation : Bool
  -- `type(self._provider).__name__`
  pub provider_name : String

-- a text that waits for the provider
pub record Pending : Type 0 where
  pub doc : Document
  pub masked : String
  pub placeholders : Dict String
  pub source_lang : String
  pub normalized : String

pub record Work : Type 0 where
  pub calls : List Call
  pub result : Dict String
  pub glossary_cache : Dict (List Term)
  pub pending : List Pending
  pub has_provider : Bool

-- as a request begins: whether there is a provider already, after which calls
abbrev pub begin : List Call → Bool → Work
begin calls has_provider = record {
  calls = calls;
  result = [];
  glossary_cache = [];
  pending = [];
  has_provider = has_provider;
}

unfoldable pub ask {ℓ} : {A : Type ℓ} → Call → (List Call → Reply A) → Act Work A
ask c answer s = (answer s.calls, record s { calls = c ∷ s.calls })

-- `result[key] = text`
unfoldable pub answer_text : String → String → Act Work (Unit {0})
answer_text key text = write (λ s. record s { result = insert key text s.result })

unfoldable pub is_enabled : String → List (String × Bool) → Bool
is_enabled lang [] = false
is_enabled lang ((code, enabled) ∷ rest) = (enabled && (code == lang)) || is_enabled lang rest

unfoldable pub is_listed : String → List String → Bool
is_listed id [] = false
is_listed id (i ∷ rest) = (i == id) || is_listed id rest

module _ (x : Outside) (site_id route lang : String) where
  unfoldable pub find_site : Act Work (Option Website)
  find_site = ask (find_by_site_id site_id) (λ h. x.website h site_id)

  unfoldable pub ensure_site_active : Act Work Website
  ensure_site_active = do
    website ← find_site
    maybe website (raise not_found_error)
        (λ w. if w.status == "Active" then pure w else raise not_found_error)

  unfoldable pub ensure_site_owned_by_tenant : String → Act Work Website
  ensure_site_owned_by_tenant tenant_id = do
    website ← find_site
    maybe website (raise not_found_error)
        (λ w. if w.tenant_id == tenant_id then pure w else raise not_found_error)

  unfoldable pub ensure_lang_enabled : Act Work (Unit {0})
  ensure_lang_enabled =
      if x.enforce_lang_validation
      then (do
        website ← find_site
        maybe website (raise validation_error)
            (λ w. if is_enabled lang w.languages then pure tt else raise validation_error))
      else pure tt

  abbrev pub is_first_party : Bool
  is_first_party = is_listed site_id x.first_party_site_ids

  -- `_persist_translation`
  unfoldable pub persist_translation :
      Document → String → String → Quality → Bool → Act Work (Unit {0})
  persist_translation d text provider quality auto_approved = do
    let saved = save_translation d lang text provider quality auto_approved
    ask saved (λ h. x.writes h saved)
    let audited = append_audit_entry d.id (format ("system:" ∷ provider ∷ []))
    ask audited (λ h. x.writes h audited)
    let recorded = record_audit d.key (format ("system:" ∷ provider ∷ []))
    ask recorded (λ h. x.writes h recorded)

  -- `self._provider`
  unfoldable pub provider : Act Work (Unit {0})
  provider = reading (λ s.
      if s.has_provider
      then pure tt
      else ask make_provider (λ h. x.writes h make_provider)
        >> write (λ t. record t { has_provider = true }))

  unfoldable pub translate_one : String → String → Act Work String
  translate_one text source_lang =
      provider >> ask (translate text source_lang lang) (λ h. x.single h text source_lang lang)

  unfoldable pub translate_many : List String → String → Act Work (List String)
  translate_many texts source_lang =
      provider
      >> ask (translate_batch texts source_lang lang) (λ h. x.batch h texts source_lang lang)

  unfoldable pub find_terms : Act Work (List Term)
  find_terms = ask (find_by_lang lang) (λ h. x.terms h lang)

  -- the terms, which are read once
  unfoldable pub cached_terms : Act Work (List Term)
  cached_terms = reading (λ s.
      maybe (get lang s.glossary_cache)
        (do
          terms ← find_terms
          write (λ t. record t { glossary_cache = insert lang terms t.glossary_cache })
          pure terms)
        pure)

  unfoldable pub find_match : Document → Act Work (Option Document)
  find_match d =
      ask (find_exact_match site_id d.source_text d.source_lang lang)
        (λ h. x.exact_match h site_id d.source_text d.source_lang lang)

  -- `tm_hit["translations"][lang]["text"]`
  unfoldable pub match_text : Document → Option String
  match_text m = elim (get lang m.translations) [ none ↦ none | some e ↦ e.text ]

  unfoldable pub read_route : Act Work (List Document)
  read_route = ask (find_by_route site_id route) (λ h. x.route h site_id route)
