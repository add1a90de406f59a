-- ===== src/Translation/Served.antt =====
-- Which text is served in a language, after any sequence of changes of a document.
use seeds.Base.{
  ℕ, String, ◌==◌, truthy, ◌≡◌, refl, ap, ap₂, ◌∙◌, Bool, true, false, ◌&&◌, ◌||◌, Option, none,
  some, List, [], ◌∷◌, if◌then◌else◌, arith,
}
use seeds.Dict.{get, get-insert}
use seeds.Translation.Model.{
  Status, approved, Entry, Document, entry_or_empty, empty_entry, set_entry, machine_entry,
  save_translation, update_translation_text, approved_entry, approve_translation, rejected_entry,
  reject_translation, append_audit_entry,
}

abbrev pub is_approved : Option Status → Bool
is_approved (some approved) = true
is_approved _ = false

-- `existing["text"]` where there is one and it may be served, else the source text
unfoldable pub served_entry : Bool → String → Option Entry → String
served_entry unapproved source none = source
served_entry unapproved source (some e) = elim e.text [
  | none ↦ source
  | some t ↦ elim (truthy t && (is_approved e.status || unapproved)) [ true ↦ t | false ↦ source ]
]

-- the text of `get_stored_translations`
unfoldable pub stored_text : String → Document → String
stored_text lang d = served_entry false d.source_text (get lang d.translations)

-- the changes that the service makes
pub data Change : Type 0 where
  save : String → String → String → ℕ → String → Bool → Change
  edit : String → String → Change
  approve : String → String → ℕ → Change
  reject : String → String → String → Change
  note : String → String → String → Change

unfoldable pub perform : Change → Document → Document
perform (save lang text provider quality by auto) d =
    save_translation lang text provider quality by auto d
perform (edit lang text) d = update_translation_text lang text d
perform (approve lang by version) d = approve_translation lang by version d
perform (reject lang by reason) d = reject_translation lang by reason d
perform (note action actor detail) d = append_audit_entry action actor detail d

unfoldable pub perform_all : List Change → Document → Document
perform_all [] d = d
perform_all (c ∷ cs) d = perform_all cs (perform c d)

-- A language, as the contract sees it: the last text, and whether the last decision was to approve.
pub record Language : Type 0 where
  pub text : Option String
  pub approved : Bool

-- a change of this language, and of no other
unfoldable pub decide : String → Change → Language → Language
decide l (save lang text provider quality by auto) a =
    if lang == l then record { text = some text; approved = auto } else a
decide l (edit lang text) a = if lang == l then record a { text = some text } else a
decide l (approve lang by version) a = if lang == l then record a { approved = true } else a
decide l (reject lang by reason) a = if lang == l then record a { approved = false } else a
decide l (note action actor detail) a = a

unfoldable pub decide_all : String → List Change → Language → Language
decide_all l [] a = a
decide_all l (c ∷ cs) a = decide_all l cs (decide l c a)

-- what the contract lets be served
unfoldable pub permitted : String → Language → String
permitted source a = elim a.text [
  | none ↦ source
  | some t ↦ elim (truthy t && a.approved) [ true ↦ t | false ↦ source ]
]

unfoldable pub lang_of : Option Entry → Language
lang_of none = record { text = none; approved = false }
lang_of (some e) = record { text = e.text; approved = is_approved e.status }

unfoldable pub language : String → Document → Language
language l d = lang_of (get l d.translations)

language-set_entry :
    (l lang : String) (f : Entry → Entry) (d : Document)
    → language l (set_entry lang f d) ≡ (
        if lang == l
        then lang_of (some (f (entry_or_empty (get l d.translations))))
        else language l d)
unfolding language set_entry
language-set_entry l lang f d =
    ground (arith, get-insert lang l (f (entry_or_empty (get lang d.translations))) d.translations)

language-save :
    (l lang text provider by : String) (quality : ℕ) (auto : Bool) (d : Document)
    → language l (save_translation lang text provider quality by auto d)
      ≡ (if lang == l then record { text = some text; approved = auto } else language l d)
unfolding save_translation language lang_of
language-save l lang text provider by quality true d =
    language-set_entry l lang (λ e. machine_entry text provider quality by true) d
language-save l lang text provider by quality false d =
    language-set_entry l lang (λ e. machine_entry text provider quality by false) d

-- what a decision leaves of the text that was there
language-kept :
    (f : Entry → Entry) (text : Option String → Option String) (approves : Bool → Bool)
    → ((e : Entry)
        → lang_of (some (f e))
          ≡ record { text = text e.text; approved = approves (is_approved e.status) })
    → (o : Option Entry)
    → lang_of (some (f (entry_or_empty o)))
      ≡ record { text = text (lang_of o).text; approved = approves (lang_of o).approved }
unfolding lang_of
language-kept f text approves h none = h empty_entry
language-kept f text approves h (some e) = h e

language-decision :
    (f : Entry → Entry) (text : Option String → Option String) (approves : Bool → Bool)
    → ((e : Entry)
        → lang_of (some (f e))
          ≡ record { text = text e.text; approved = approves (is_approved e.status) })
    → (l lang : String) (d : Document)
    → language l (set_entry lang f d) ≡ (
        if lang == l
        then record { text = text (language l d).text; approved = approves (language l d).approved }
        else language l d)
unfolding language
language-decision f text approves h l lang d =
    language-set_entry l lang f d
    ∙ ap (λ x. if lang == l then x else language l d)
        (language-kept f text approves h (get l d.translations))

language-perform :
    (l : String) (c : Change) (d : Document) → language l (perform c d) ≡ decide l c (language l d)
unfolding perform decide language lang_of update_translation_text approve_translation
    reject_translation append_audit_entry
language-perform l (save lang text provider quality by auto) d =
    language-save l lang text provider by quality auto d
language-perform l (edit lang text) d =
    language-decision (λ e. record e { text = some text }) (λ o. some text) (λ b. b) (λ e. refl) l
      lang d
language-perform l (approve lang by version) d =
    language-decision (approved_entry by) (λ o. o) (λ b. true) (λ e. refl) l lang d
language-perform l (reject lang by reason) d =
    language-decision (rejected_entry by reason) (λ o. o) (λ b. false) (λ e. refl) l lang d
language-perform l (note action actor detail) d = refl

language-perform_all :
    (l : String) (cs : List Change) (d : Document)
    → language l (perform_all cs d) ≡ decide_all l cs (language l d)
unfolding perform_all decide_all
language-perform_all l [] d = refl
language-perform_all l (c ∷ cs) d =
    language-perform_all l cs (perform c d) ∙ ap (decide_all l cs) (language-perform l c d)

source_text-perform : (c : Change) (d : Document) → (perform c d).source_text ≡ d.source_text
unfolding perform save_translation set_entry update_translation_text approve_translation
    reject_translation append_audit_entry
source_text-perform (save lang text provider quality by true) d = refl
source_text-perform (save lang text provider quality by false) d = refl
source_text-perform (edit lang text) d = refl
source_text-perform (approve lang by version) d = refl
source_text-perform (reject lang by reason) d = refl
source_text-perform (note action actor detail) d = refl

source_text-perform_all :
    (cs : List Change) (d : Document) → (perform_all cs d).source_text ≡ d.source_text
unfolding perform_all
source_text-perform_all [] d = refl
source_text-perform_all (c ∷ cs) d =
    source_text-perform_all cs (perform c d) ∙ source_text-perform c d

stored_text-permitted :
    (l : String) (d : Document) → stored_text l d ≡ permitted d.source_text (language l d)
unfolding stored_text permitted language lang_of served_entry
stored_text-permitted l d = ground arith

-- Whatever sequence of machine translations, edits, approvals, rejections and notes in any languages a
-- document has seen, the text that is stored for a language is what the contract permits: the last text of
-- this language where it is not empty and the last decision in this language approves it, and the source
-- text else.
pub stored_text-perform_all :
    (l : String) (cs : List Change) (d : Document)
    → stored_text l (perform_all cs d) ≡ permitted d.source_text (decide_all l cs (language l d))
stored_text-perform_all l cs d =
    stored_text-permitted l (perform_all cs d)
    ∙ ap₂ permitted (source_text-perform_all cs d) (language-perform_all l cs d)
