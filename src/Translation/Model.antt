-- ===== src/Translation/Model.antt =====
-- The documents of translations, and how platform/app/repositories/translation_repository.py changes one.
-- The times of the writes are left out, and a quality is counted in thousandths.
use seeds.Base.{ℕ, String, Bool, Option, none, some, List, [], ◌∷◌, ◌++◌, if◌then◌else◌}
use seeds.Dict.{Dict, get, insert}

pub data Status : Type 0 where
  pending approved rejected : Status

-- what is stored for a language, where any field may be missing
pub record Entry : Type 0 where
  pub text : Option String
  pub provider : Option String
  pub quality_score : Option ℕ
  pub created_by : Option String
  pub status : Option Status
  pub approved_by : Option String
  pub rejected_by : Option String
  pub rejection_reason : Option String

pub record AuditEntry : Type 0 where
  pub action : String
  pub actor : String
  pub detail : String

pub record Document : Type 0 where
  pub id : String
  pub site_id : String
  pub route : String
  pub key : String
  pub source_lang : String
  pub source_text : String
  pub translations : Dict Entry
  pub status : Option Status
  pub approved_by : Option String
  pub rejected_by : Option String
  pub rejection_reason : Option String
  pub version : ℕ
  pub audit_log : List AuditEntry

abbrev pub empty_entry : Entry
empty_entry = record {
  text = none;
  provider = none;
  quality_score = none;
  created_by = none;
  status = none;
  approved_by = none;
  rejected_by = none;
  rejection_reason = none;
}

abbrev pub entry_or_empty : Option Entry → Entry
entry_or_empty none = empty_entry
entry_or_empty (some e) = e

-- `$set` of fields of `translations.{lang}`, which is made where it is missing
unfoldable pub set_entry : String → (Entry → Entry) → Document → Document
set_entry lang f d = record d {
  translations = insert lang (f (entry_or_empty (get lang d.translations))) d.translations;
}

-- the document that `upsert_source` makes
unfoldable pub new_source : String → String → String → String → String → String → Document
new_source id site_id route key source_lang text = record {
  id = id;
  site_id = site_id;
  route = route;
  key = key;
  source_lang = source_lang;
  source_text = text;
  translations = [];
  status = none;
  approved_by = none;
  rejected_by = none;
  rejection_reason = none;
  version = 0;
  audit_log = [];
}

abbrev pub machine_entry : String → String → ℕ → String → Bool → Entry
machine_entry text provider quality_score created_by auto_approved = record empty_entry {
  text = some text;
  provider = some provider;
  quality_score = some quality_score;
  created_by = some created_by;
  status = some (if auto_approved then approved else pending);
}

-- `save_translation`
unfoldable pub save_translation : String → String → String → ℕ → String → Bool → Document → Document
save_translation lang text provider quality_score created_by auto_approved d =
    let saved : Document =
      set_entry lang (λ e. machine_entry text provider quality_score created_by auto_approved) d in
    if auto_approved
    then record saved { status = some approved; approved_by = some "system:TranslationMemory" }
    else saved

-- `update_translation_text`
unfoldable pub update_translation_text : String → String → Document → Document
update_translation_text lang text d = set_entry lang (λ e. record e { text = some text }) d

abbrev pub approved_entry : String → Entry → Entry
approved_entry by e = record e {
  status = some approved;
  approved_by = some by;
  quality_score = some 1000;
}

-- `approve_translation`
unfoldable pub approve_translation : String → String → ℕ → Document → Document
approve_translation lang by version d = record (set_entry lang (approved_entry by) d) {
  status = some approved;
  approved_by = some by;
  version = version;
}

abbrev pub rejected_entry : String → String → Entry → Entry
rejected_entry by reason e = record e {
  status = some rejected;
  rejected_by = some by;
  rejection_reason = some reason;
}

-- `reject_translation`
unfoldable pub reject_translation : String → String → String → Document → Document
reject_translation lang by reason d = record (set_entry lang (rejected_entry by reason) d) {
  status = some rejected;
  rejected_by = some by;
  rejection_reason = some reason;
}

-- `append_audit_entry`
unfoldable pub append_audit_entry : String → String → String → Document → Document
append_audit_entry action actor detail d = record d {
  audit_log = d.audit_log ++ record { action = action; actor = actor; detail = detail } ∷ [];
}
