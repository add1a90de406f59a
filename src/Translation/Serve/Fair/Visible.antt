-- ===== src/Translation/Serve/Fair/Visible.antt =====
-- What may be answered to a visitor, and the requests that change nothing of it.
use seeds.Base.{
  String, truthy, ◌≡◌, refl, ◌⊎◌, inl, inr, true, false, ◌&&◌, ◌||◌, Option, none, some, List, All,
  arith, Option-cases,
}
use seeds.Dict.{Dict, get, All-insert}
use seeds.Act.{Reply, done, raised, cancelled}
use seeds.Act.Keeps.{Keeps, Keeps-write}
use seeds.Act.Returns.{OnDone}
use seeds.Act.Yields.{After}
use seeds.Translation.Model.{Status, pending, approved, rejected, Entry, Document}
use seeds.Translation.Served.{is_approved, served_entry}
use seeds.Translation.Serve.Rules.{Kept}
use seeds.Translation.Requests.{Pending, Work, answer_text}

-- A translation of the document that is approved, in the document itself or in one that it matches.
abbrev pub IsReviewed : String → (Document → Document → Type 0) → Document → String → Type 0
IsReviewed lang Matches d text =
    (m : Document) × (e : Entry) × ((m ≡ d) ⊎ Matches d m)
    × (m.source_text ≡ d.source_text)
    × (get lang m.translations ≡ some e)
    × (e.status ≡ some approved)
    × (e.text ≡ some text)

-- what may stand under a key
abbrev pub IsFair :
    String → (Document → Type 0) → (Document → Document → Type 0) → String × String → Type 0
IsFair lang Known Matches (key, text) =
    (d : Document) × Known d
    × (d.key ≡ key)
    × ((text ≡ d.source_text) ⊎ IsReviewed lang Matches d text)

pub served-status :
    (source text : String) (status : Option Status)
    → ((elim (truthy text && (is_approved status || false)) [ true ↦ text | false ↦ source ])
        ≡ source)
      ⊎ ((status ≡ some approved)
          × ((elim (truthy text && (is_approved status || false)) [ true ↦ text | false ↦ source ])
              ≡ text))
served-status source text none = inl (ground arith)
served-status source text (some pending) = inl (ground arith)
served-status source text (some approved) = ground arith
served-status source text (some rejected) = inl (ground arith)

-- where unapproved texts are not served
pub served-cases :
    (source : String) (o : Option Entry)
    → (served_entry false source o ≡ source)
      ⊎ ((e : Entry) × (o ≡ some e)
          × (e.status ≡ some approved)
          × (e.text ≡ some (served_entry false source o)))
unfolding served_entry
served-cases source none = inl refl
served-cases source (some e) = elim (Option-cases e.text) [
  | inl e0 ↦ inl (rw (e0, served_entry) refl)
  | inr (t, e1) ↦ elim (served-status source t e.status) [
    | inl s ↦ inl (rw e1 s)
    | inr s ↦ inr (e, refl, s.0, rw (e1, s.1) refl)
  ]
]

-- what the database promises of an exact match
abbrev pub IsMatch : String → (Document → Document → Type 0) → Document → Option Document → Type 0
IsMatch lang Matches d none = Unit
IsMatch lang Matches d (some m) =
    Matches d m
    × (m.source_text ≡ d.source_text)
    × ((e : Entry) × (get lang m.translations ≡ some e) × (e.status ≡ some approved))

pub OnDone-of {ℓ κ} :
    {A : Type ℓ} (Q : A → Type κ) (r : Reply A) → ((a : A) → r ≡ done a → Q a) → OnDone Q r
OnDone-of Q (done a) h = h a refl
OnDone-of Q (raised e) h = tt
OnDone-of Q cancelled h = tt

pub After-of {ℓ κ} :
    {S : Type 0} {A : Type ℓ} (Q : A → S → Type κ) (r : Reply A) (s : S)
    → ((a : A) → r ≡ done a → Q a s)
    → After Q r s
After-of Q (done a) s h = h a refl
After-of Q (raised e) s h = tt
After-of Q cancelled s h = tt

module _ (lang : String) (Known : Document → Type 0) (Matches : Document → Document → Type 0) where
  -- of the texts that are answered, and of those that wait
  abbrev pub FairOf : Dict String → List Pending → Type 0
  FairOf result waiting = All (IsFair lang Known Matches) result × All (λ p. Known p.doc) waiting

  abbrev pub Fair : Work → Type 0
  Fair = Kept FairOf

  pub Keeps-answer_text :
      (key text : String)
      → IsFair lang Known Matches (key, text)
      → Keeps Fair (answer_text key text)
  unfolding answer_text
  Keeps-answer_text key text f =
      Keeps-write _ (λ s h. (All-insert (IsFair lang Known Matches) key text s.result f h.0, h.1))

  pub source-IsFair : (d : Document) → Known d → IsFair lang Known Matches (d.key, d.source_text)
  source-IsFair d k = (d, k, refl, inl refl)

  -- the source text is answered until somebody approves the translation
  pub source-Keeps :
      (p : Pending) → Known p.doc → Keeps Fair (answer_text p.doc.key p.doc.source_text)
  source-Keeps p k = Keeps-answer_text p.doc.key p.doc.source_text (source-IsFair p.doc k)
