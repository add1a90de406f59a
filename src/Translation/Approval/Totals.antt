-- ===== src/Translation/Approval/Totals.antt =====
-- The numbers that bulk approval answers.
use seeds.Base.{
  ℕ, suc, ◌+◌, String, ◌≡◌, ◌∙◌, ◌≤◌, Bool, Option, List, [], ◌∷◌, length, length-append,
  if◌then◌else◌, arith, Bool-cases, inl, inr,
}
use seeds.Dict.{Dict}
use seeds.Translation.Model.{Entry, Document}
use seeds.Translation.Approval.{
  Plan, is_asked, is_decided, start, plan_one, plan_entries, plan_document, plan_all,
  op_lang_counts, sum, count_skipped, count_failed, counts,
}

module _ (show : ℕ → String) (by : String) where
  -- how many entries of a document, and of all documents, are asked for
  unfoldable pub asked_entries : Option String → Dict Entry → ℕ
  asked_entries lang [] = 0
  asked_entries lang ((l, e) ∷ es) = (if is_asked lang l then 1 else 0) + asked_entries lang es

  unfoldable pub asked_all : Option String → List Document → ℕ
  asked_all lang [] = 0
  asked_all lang (d ∷ ds) = asked_entries lang d.translations + asked_all lang ds

  plan_entries-counted :
      (lang : Option String) (d : Document) (es : Dict Entry) (p : Plan)
      → (plan_entries show by lang d es p).skipped + length (plan_entries show by lang d es p).langs
        ≡ p.skipped + length p.langs + asked_entries lang es
  unfolding plan_entries asked_entries plan_one
  plan_entries-counted lang d [] p = omega arith
  plan_entries-counted lang d ((l, e) ∷ es) p = elim (Bool-cases (is_asked lang l)) [
    | inr other ↦ rw (other, plan_entries) (plan_entries-counted lang d es p ∙ omega arith)
    | inl asked ↦ elim (Bool-cases (is_decided e.status)) [
      | inl decided ↦
          rw (asked, decided, plan_entries)
            (plan_entries-counted lang d es (record p { skipped = suc p.skipped }) ∙ omega arith)
      | inr undecided ↦
          rw (asked, undecided, plan_entries)
            (plan_entries-counted lang d es (plan_one show by d l e p)
              ∙ omega (arith, length-append p.langs (l ∷ [])))
    ]
  ]

  plans-counted :
      (lang : Option String) (ds : List Document)
      → sum (op_lang_counts (plan_all show by lang ds)) + count_skipped (plan_all show by lang ds)
        ≡ asked_all lang ds
  unfolding sum op_lang_counts plan_all count_skipped asked_all plan_document start
  plans-counted lang [] = omega arith
  plans-counted lang (d ∷ ds) =
      ground
        (arith, plan_entries-counted lang d d.translations (start show by d), plans-counted lang ds)

  count_failed-le-sum : (fails : ℕ → Bool) (i : ℕ) (ns : List ℕ) → count_failed fails i ns ≤ sum ns
  unfolding count_failed sum
  count_failed-le-sum fails i [] = omega arith
  count_failed-le-sum fails i (n ∷ ns) = ground (arith, count_failed-le-sum fails (suc i) ns)

  -- The numbers that bulk approval answers, whichever of its writes fail, add up to the entries that were
  -- asked for.
  pub counts-asked :
      (lang : Option String) (ds : List Document) (fails : ℕ → Bool)
      → (counts fails (plan_all show by lang ds)).approved
          + (counts fails (plan_all show by lang ds)).skipped
          + (counts fails (plan_all show by lang ds)).failed
        ≡ asked_all lang ds
  unfolding counts
  counts-asked lang ds fails = omega (
    arith,
    plans-counted lang ds,
    count_failed-le-sum fails 0 (op_lang_counts (plan_all show by lang ds)),
  )
