-- ===== src/Translation/Approval.antt =====
-- The approval of translations in platform/app/services/translation_service.py: `approve_translation` of
-- one language, and `bulk_approve_pending`, which plans the writes for all documents first. The check of
-- the tenant stands before both. `str` of a number is a parameter.
pub mod Sequential
pub mod Totals
use seeds.Base.{
  ℕ, zero, suc, ◌+◌, ◌-◌, String, ◌==◌, is_given, format, Bool, true, false, not, ◌&&◌, ◌||◌,
  Option, none, some, List, [], ◌∷◌, ◌++◌, length, select, eqb, if◌then◌else◌,
}
use seeds.Dict.{Dict, get, insert}
use seeds.Translation.Model.{
  Status, pending, approved, rejected, Entry, Document, AuditEntry, set_entry, approved_entry,
  approve_translation, append_audit_entry,
}

-- a row of `translationVersions`
pub record Version : Type 0 where
  pub translation_id : String
  pub version : ℕ
  pub translations : Dict Entry
  pub approved_by : String

-- a row of the log of audits
pub record Audit : Type 0 where
  pub site_id : String
  pub route : String
  pub key : String
  pub lang : String
  pub action : String
  pub actor : String
  pub detail : String

-- `if lang and doc_lang != lang: continue`
unfoldable pub is_asked : Option String → String → Bool
is_asked none l = true
is_asked (some lang) l = if is_given (some lang) then l == lang else true

-- `entry.get("status") in ("approved", "rejected")`
unfoldable pub is_decided : Option Status → Bool
is_decided (some approved) = true
is_decided (some rejected) = true
is_decided _ = false

-- what the loop over the languages of a document has gathered; `langs` are the languages whose fields are
-- set
pub record Plan : Type 0 where
  pub version : ℕ
  pub snapshot : Dict Entry
  pub versions : List Version
  pub audits : List Audit
  pub audit_pushes : List AuditEntry
  pub langs : List String
  pub skipped : ℕ

module _ (show : ℕ → String) (by : String) where
  abbrev pub detail : ℕ → String
  detail version = format ("version=" ∷ show version ∷ [])

  -- `approve_translation`, without the two reads of the document: the row that is added, and the document
  unfoldable pub approve_one : String → Document → Version × Document
  approve_one lang d =
      let next : ℕ = d.version + 1 in
      (
        record {
          translation_id = d.id;
          version = next;
          translations = d.translations;
          approved_by = by;
        },
        append_audit_entry "approved" by (detail next) (approve_translation lang by next d),
      )

  unfoldable pub start : Document → Plan
  start d = record {
    version = d.version;
    snapshot = d.translations;
    versions = [];
    audits = [];
    audit_pushes = [];
    langs = [];
    skipped = 0;
  }

  -- the entry in the snapshot, which keeps its quality
  abbrev pub noted_entry : Entry → Entry
  noted_entry e = record e { status = some approved; approved_by = some by }

  unfoldable pub plan_one : Document → String → Entry → Plan → Plan
  plan_one d l e p = record {
    version = p.version + 1;
    snapshot = insert l (noted_entry e) p.snapshot;
    versions =
        p.versions
        ++ record {
          translation_id = d.id;
          version = p.version + 1;
          translations = p.snapshot;
          approved_by = by;
        }
          ∷ [];
    audits =
        p.audits
        ++ record {
          site_id = d.site_id;
          route = d.route;
          key = d.key;
          lang = l;
          action = "approved";
          actor = by;
          detail = detail (p.version + 1);
        }
          ∷ [];
    audit_pushes =
        p.audit_pushes
        ++ record { action = "approved"; actor = by; detail = detail (p.version + 1) } ∷ [];
    langs = p.langs ++ l ∷ [];
    skipped = p.skipped;
  }

  unfoldable pub plan_entries : Option String → Document → Dict Entry → Plan → Plan
  plan_entries lang d [] p = p
  plan_entries lang d ((l, e) ∷ rest) p = plan_entries lang d rest (
      if is_asked lang l
      then if is_decided e.status then record p { skipped = suc p.skipped } else plan_one d l e p
      else p)

  unfoldable pub plan_document : Option String → Document → Plan
  plan_document lang d = plan_entries lang d d.translations (start d)

  -- the `UpdateOne`: `$set` of the fields of the languages and of the document, and `$push`
  unfoldable pub set_langs : List String → Document → Document
  set_langs [] d = d
  set_langs (l ∷ ls) d = set_langs ls (set_entry l (approved_entry by) d)

  unfoldable pub update_one : Plan → Document → Document
  update_one p d = record (set_langs p.langs d) {
    status = some approved;
    approved_by = some by;
    version = p.version;
    audit_log = d.audit_log ++ p.audit_pushes;
  }

  -- a document whose plan has no language gets no write
  unfoldable pub bulk_document : Option String → Document → Document
  bulk_document lang d =
      let p : Plan = plan_document lang d in if eqb (length p.langs) 0 then d else update_one p d

  -- The writes of all documents. A failed one is reported once, by its index among the writes.
  unfoldable pub update_all : Option String → (ℕ → Bool) → ℕ → List Document → List Document
  update_all lang fails i [] = []
  update_all lang fails i (d ∷ ds) =
      let p : Plan = plan_document lang d in
      let none_set : Bool = eqb (length p.langs) 0 in
      (if none_set || fails i then d else update_one p d)
      ∷ update_all lang fails (if none_set then i else suc i) ds

  unfoldable pub plan_all : Option String → List Document → List Plan
  plan_all lang [] = []
  plan_all lang (d ∷ ds) = plan_document lang d ∷ plan_all lang ds

-- `op_lang_counts`: how many languages each write sets
unfoldable pub op_lang_counts : List Plan → List ℕ
op_lang_counts [] = []
op_lang_counts (p ∷ ps) =
    let rest = op_lang_counts ps in if eqb (length p.langs) 0 then rest else length p.langs ∷ rest

-- `approved` before the failures, `skipped`, and `failed`
unfoldable pub sum : List ℕ → ℕ
sum [] = 0
sum (n ∷ ns) = n + sum ns

unfoldable pub count_skipped : List Plan → ℕ
count_skipped [] = 0
count_skipped (p ∷ ps) = p.skipped + count_skipped ps

unfoldable pub count_failed : (ℕ → Bool) → ℕ → List ℕ → ℕ
count_failed fails i [] = 0
count_failed fails i (n ∷ ns) = (if fails i then n else 0) + count_failed fails (suc i) ns

pub record Counts : Type 0 where
  pub approved : ℕ
  pub skipped : ℕ
  pub failed : ℕ

unfoldable pub counts : (ℕ → Bool) → List Plan → Counts
counts fails plans =
    let each : List ℕ = op_lang_counts plans in
    let failed : ℕ = count_failed fails 0 each in
    record { approved = sum each - failed; skipped = count_skipped plans; failed = failed }
