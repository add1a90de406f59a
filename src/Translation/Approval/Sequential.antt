-- ===== src/Translation/Approval/Sequential.antt =====
-- The bulk approval of a document does what approving its languages one after the other does.
use seeds.Base.{
  ℕ, suc, ◌+◌, String, ◌≡◌, refl, sym, ap, ap₂, ◌∙◌, false, Option, some, List, [], ◌∷◌, ◌++◌,
  length, map, append-nil, append_assoc, eqb, if◌then◌else◌, arith, Bool-cases, inl, inr,
}
use mathlib.Core.List.{map-append}
use seeds.Dict.{Dict}
use seeds.Translation.Model.{
  approved, Entry, Document, AuditEntry, set_entry, approved_entry, approve_translation,
  append_audit_entry,
}
use seeds.Translation.Approval.{
  Version, Plan, is_asked, is_decided, detail, approve_one, start, plan_one, plan_entries,
  plan_document, set_langs, update_one, bulk_document,
}

-- the languages that are asked for and not decided, and how many asked for are
unfoldable pub open_langs : Option String → Dict Entry → List String
open_langs lang [] = []
open_langs lang ((l, e) ∷ rest) =
    let ls = open_langs lang rest in
    if is_asked lang l then (if is_decided e.status then ls else l ∷ ls) else ls

module _ (show : ℕ → String) (by : String) where
  -- `approve_translation` for one language after the other
  unfoldable pub approve_each : List String → Document → List Version × Document
  approve_each [] d = ([], d)
  approve_each (l ∷ ls) d =
      let (v, d') = approve_one show by l d in let (vs, d'') = approve_each ls d' in (v ∷ vs, d'')

  notes : ℕ → List String → List AuditEntry
  notes n [] = []
  notes n (l ∷ ls) =
      record { action = "approved"; actor = by; detail = detail show by (n + 1) } ∷ notes (n + 1) ls

  abbrev number : Version → ℕ
  number v = v.version

  numbers : ℕ → List String → List ℕ
  numbers n [] = []
  numbers n (l ∷ ls) = (n + 1) ∷ numbers (n + 1) ls

  -- what a plan is in the end
  record IsPlanned (p q : Plan) (ls : List String) : Type 0 where
    langs : q.langs ≡ p.langs ++ ls
    version : q.version ≡ p.version + length ls
    pushes : q.audit_pushes ≡ p.audit_pushes ++ notes p.version ls
    rows : map number q.versions ≡ map number p.versions ++ numbers p.version ls

  plan_entries-IsPlanned :
      (lang : Option String) (d : Document) (es : Dict Entry) (p : Plan)
      → IsPlanned p (plan_entries show by lang d es p) (open_langs lang es)
  unfolding plan_entries open_langs plan_one notes numbers
  plan_entries-IsPlanned lang d [] p = record {
    langs = sym (append-nil p.langs);
    version = omega arith;
    pushes = sym (append-nil p.audit_pushes);
    rows = sym (append-nil (map number p.versions));
  }
  plan_entries-IsPlanned lang d ((l, e) ∷ es) p = elim (Bool-cases (is_asked lang l)) [
    | inr other ↦ rw other (plan_entries-IsPlanned lang d es p)
    | inl asked ↦ elim (Bool-cases (is_decided e.status)) [
      | inl decided ↦
          let h : IsPlanned (record p { skipped = suc p.skipped }) _ (open_langs lang es) =
            plan_entries-IsPlanned lang d es (record p { skipped = suc p.skipped }) in
          rw (asked, decided)
            (record { langs = h.langs; version = h.version; pushes = h.pushes; rows = h.rows })
      | inr undecided ↦
          let h : IsPlanned (plan_one show by d l e p) _ (open_langs lang es) =
            plan_entries-IsPlanned lang d es (plan_one show by d l e p) in
          rw (asked, undecided)
            (record {
              langs = h.langs ∙ append_assoc p.langs (l ∷ []) (open_langs lang es);
              version = h.version ∙ omega arith;
              pushes =
                  h.pushes
                  ∙ append_assoc p.audit_pushes _ (notes (p.version + 1) (open_langs lang es));
              rows =
                  h.rows
                  ∙ ap (λ r. r ++ numbers (p.version + 1) (open_langs lang es))
                      (map-append number p.versions _)
                  ∙ append_assoc (map number p.versions) ((p.version + 1) ∷ [])
                      (numbers (p.version + 1) (open_langs lang es));
            })
    ]
  ]

  abbrev finish : ℕ → List AuditEntry → Document → Document
  finish version log d = record d {
    status = some approved;
    approved_by = some by;
    version = version;
    audit_log = log;
  }

  finish-set_langs :
      (v w : ℕ) (log first : List AuditEntry) (ls : List String) (d : Document)
      → finish v log (set_langs show by ls (finish w first d))
        ≡ finish v log (set_langs show by ls d)
  unfolding set_langs set_entry
  finish-set_langs v w log first [] d = refl
  finish-set_langs v w log first (l ∷ ls) d =
      finish-set_langs v w log first ls (set_entry l (approved_entry by) d)

  approve_each-finish :
      (l : String) (ls : List String) (d : Document)
      → (approve_each (l ∷ ls) d).1
        ≡ finish
            (d.version + length (l ∷ ls))
            (d.audit_log ++ notes d.version (l ∷ ls))
            (set_langs show by (l ∷ ls) d)
  unfolding approve_each approve_one set_langs approve_translation append_audit_entry notes
      set_entry
  approve_each-finish l [] d = refl
  approve_each-finish l (m ∷ ls) d =
      let first : AuditEntry = record {
        action = "approved";
        actor = by;
        detail = detail show by (d.version + 1);
      } in
      let log : List AuditEntry = d.audit_log ++ first ∷ [] in
      approve_each-finish m ls (approve_one show by l d).1
      ∙ finish-set_langs (d.version + 1 + length (m ∷ ls)) (d.version + 1)
          (log ++ notes (d.version + 1) (m ∷ ls)) log (m ∷ ls) (set_entry l (approved_entry by) d)
      ∙ ap₂ (λ v a. finish v a (set_langs show by (l ∷ m ∷ ls) d)) (omega arith)
          (append_assoc d.audit_log (first ∷ []) (notes (d.version + 1) (m ∷ ls)))

  some_set : (n : ℕ) → eqb (suc n) 0 ≡ false
  some_set n = ground arith

  updated :
      (d : Document) (p : Plan) (ls : List String)
      → p.langs ≡ ls
      → p.version ≡ d.version + length ls
      → p.audit_pushes ≡ notes d.version ls
      → (if eqb (length p.langs) 0 then d else update_one show by p d) ≡ (approve_each ls d).1
  unfolding update_one approve_each
  updated d p [] e v a = ap (λ ls. if eqb (length ls) 0 then d else update_one show by p d) e
  updated d p (l ∷ ls) e v a =
      ap (λ ls. if eqb (length ls) 0 then d else update_one show by p d) e
      ∙ ap (λ b. if b then d else update_one show by p d) (some_set (length ls))
      ∙ ap₂ (λ version pushes. finish version (d.audit_log ++ pushes) (set_langs show by p.langs d))
          v a
      ∙ ap
          (λ ms.
            finish (d.version + length (l ∷ ls)) (d.audit_log ++ notes d.version (l ∷ ls))
              (set_langs show by ms d))
          e
      ∙ sym (approve_each-finish l ls d)

  approve_each-numbers :
      (ls : List String) (d : Document) → map number (approve_each ls d).0 ≡ numbers d.version ls
  unfolding approve_each approve_one numbers append_audit_entry approve_translation set_entry
  approve_each-numbers [] d = refl
  approve_each-numbers (l ∷ ls) d =
      ap (λ r. (d.version + 1) ∷ r) (approve_each-numbers ls (approve_one show by l d).1)

  -- Where the bulk write of a document succeeds, bulk approval leaves the document as approving the
  -- languages that are asked for and not decided, one after the other, leaves it: entries, version, status
  -- and log. The rows that it adds to the history have the same numbers.
  pub bulk_document-approve_each :
      (lang : Option String) (d : Document)
      → (bulk_document show by lang d ≡ (approve_each (open_langs lang d.translations) d).1)
        × (map (λ v. v.version) (plan_document show by lang d).versions
            ≡ map (λ v. v.version) (approve_each (open_langs lang d.translations) d).0)
  unfolding bulk_document plan_document start
  bulk_document-approve_each lang d =
      let p : Plan = plan_entries show by lang d d.translations (start show by d) in
      let h : IsPlanned (start show by d) p (open_langs lang d.translations) =
        plan_entries-IsPlanned lang d d.translations (start show by d) in
      (
        updated d p (open_langs lang d.translations) h.langs h.version h.pushes,
        h.rows ∙ sym (approve_each-numbers (open_langs lang d.translations) d),
      )
