-- ===== src/Translation/Serve/Complete.antt =====
-- Which texts of a route are answered, where translating it returns.
pub mod Groups
pub mod Waiting
use seeds.Base.{
  String, ◌≡◌, refl, sym, subst, ◌⊎◌, inl, inr, Bool, true, false, Option, none, some, List, [],
  ◌∷◌, ◌++◌, is_some, All, All-Among, Among, arith,
}
use seeds.Dict.{Dict, get, insert, contains}
use seeds.Act.{Reply, done, Act, maybe, gets}
use seeds.Act.Keeps.{Keeps, Keeps-pure, Keeps-raise, Keeps-if, Keeps-write, Keeps-bind, Keeps-maybe}
use seeds.Act.Yields.{
  After, Yields, Yields-done, Yields-raise, Yields-if, Yields-maybe, Yields-bind, Yields-any,
  Yields-given, Yields-imply, Yields-weaken, Yields-from, Yields-kept, Yields-reading_at, Anyhow,
}
use seeds.Translation.Model.{Document}
use seeds.Translation.Placeholders.{normalize}
use seeds.Translation.Requests.{
  Outside, Call, find_by_route, Pending, Work, answer_text, ask, read_route, begin, match_text,
}
use seeds.Translation.Serve.{
  answer_existing, put_off, answer_match, prepare, prepare_missing, prepare_all, runtime_batch_ai,
  generate_translations, has_translation, group, translate_groups,
}
use seeds.Translation.Serve.Rules.{
  Kept, Keeps-persist_translation, Keeps-cached_terms, Keeps-find_match, Keeps-translate_groups,
}
use seeds.Translation.Serve.Complete.Groups.{Owes, Owes-left, Owes-right, group-Owes}
use seeds.Translation.Serve.Complete.Waiting.{
  HasKey, insert-HasKey, Keeps-answer_text, Yields-answer_text, groups_any, Yields-translate_groups,
}

Yields-read_route :
    (x : Outside) (site_id route lang : String) (ds : List Document)
    → ((h : List Call) → x.route h site_id route ≡ done ds)
    → Yields Anyhow (λ docs s. docs ≡ ds) (read_route x site_id route lang)
unfolding read_route ask
Yields-read_route x site_id route lang ds known = record {
  yields = λ s p.
      subst
        (λ r.
          After (λ docs t. docs ≡ ds) r
            (record s { calls = find_by_route site_id route ∷ s.calls }))
        (sym (known s.calls)) refl;
}

module _ (k : String) where
  -- a text stands under the key, or a document with the key waits
  abbrev Waits : Dict String → List Pending → Type 0
  Waits result waiting = HasKey k result waiting ⊎ Owes k waiting

  answered_Waits : (key text : String) → Keeps (Kept Waits) (answer_text key text)
  unfolding answer_text
  answered_Waits key text = Keeps-write _ (λ s h. elim h [
    | inl has ↦ inl (insert-HasKey k key text s.result has)
    | inr owes ↦ inr owes
  ])

  module _ (x : Outside) (site_id route lang : String) where
    Yields-runtime_batch_ai :
        (serve_pending : Bool)
        → Yields
            (Kept Waits)
            (λ a. Kept (HasKey k))
            (runtime_batch_ai x site_id route lang serve_pending)
    unfolding runtime_batch_ai
    Yields-runtime_batch_ai serve_pending = Yields-reading_at _ (λ s w. elim w [
      | inl has ↦
          Yields-from _ (λ t e. subst (Kept (HasKey k)) (sym e) has)
            (Yields-kept _ (
              Keeps-translate_groups (HasKey k) x site_id route lang serve_pending (λ p. Unit)
                (λ p text u. Keeps-answer_text k _ _) (λ p u. Keeps-answer_text k _ _)
                (group s.pending []) (groups_any (group s.pending []))))
      | inr owes ↦ Yields-weaken _ (
          Yields-translate_groups k x site_id route lang serve_pending (group s.pending [])
            (group-Owes k s.pending [] (inl owes)))
    ])

    Keeps-put_off :
        (d : Document) (normalized : String)
        → Keeps (Kept Waits) (put_off x site_id route lang d normalized)
    unfolding put_off
    Keeps-put_off d normalized =
        Keeps-write _
          (λ s h. elim h [ inl has ↦ inl has | inr owes ↦ inr (Owes-left k s.pending _ owes) ])

    Keeps-answer_match :
        (d m : Document) → Keeps (Kept Waits) (answer_match x site_id route lang d m)
    unfolding answer_match
    Keeps-answer_match d m =
        Keeps-maybe (match_text x site_id route lang m) _ _ (Keeps-raise _) (λ text.
          Keeps-bind _ _ (Keeps-persist_translation Waits x site_id route lang d text _ _ _)
            (λ a. answered_Waits d.key text))

    Keeps-prepare : (d : Document) → Keeps (Kept Waits) (prepare x site_id route lang d)
    unfolding prepare prepare_missing answer_existing
    Keeps-prepare d = Keeps-if _ _ _ (answered_Waits d.key _) (
        Keeps-bind _ _ (Keeps-cached_terms Waits x site_id route lang) (λ terms.
          Keeps-bind _ _ (Keeps-find_match Waits x site_id route lang d)
            (λ hit. Keeps-maybe hit _ _ (Keeps-put_off d _) (λ m. Keeps-answer_match d m))))

    Yields-put_off :
        (d : Document) (normalized : String)
        → d.key ≡ k
        → Yields Anyhow (λ a. Kept Waits) (put_off x site_id route lang d normalized)
    unfolding put_off seeds.Act.write
    Yields-put_off d normalized e = record {
      yields = λ s p. inr (Owes-right k s.pending _ (inl e));
    }

    Yields-answered :
        (d : Document) (text : String)
        → d.key ≡ k
        → Yields Anyhow (λ a. Kept Waits) (answer_text d.key text)
    Yields-answered d text e = Yields-imply _ (λ a s h. inl h) (Yields-answer_text k d.key text e)

    Yields-answer_match :
        (d m : Document)
        → d.key ≡ k
        → Yields Anyhow (λ a. Kept Waits) (answer_match x site_id route lang d m)
    unfolding answer_match
    Yields-answer_match d m e =
        Yields-maybe (match_text x site_id route lang m) _ _ (λ n. Yields-raise _)
          (λ text g. Yields-bind _ _ (Yields-any _) (λ a. Yields-answered d text e))

    Yields-answer_existing :
        (d : Document)
        → d.key ≡ k
        → Yields Anyhow (λ a. Kept Waits) (answer_existing x site_id route lang d)
    unfolding answer_existing
    Yields-answer_existing d e = Yields-answered d _ e

    Yields-prepare_missing :
        (d : Document)
        → d.key ≡ k
        → Yields Anyhow (λ a. Kept Waits) (prepare_missing x site_id route lang d)
    unfolding prepare_missing
    Yields-prepare_missing d e = Yields-bind _ _ (Yields-any _) (λ terms.
        Yields-bind _ _ (Yields-any _) (λ hit.
          Yields-maybe hit _ _ (λ n. Yields-put_off d _ e) (λ m f. Yields-answer_match d m e)))

    Yields-prepare :
        (d : Document)
        → d.key ≡ k
        → Yields Anyhow (λ a. Kept Waits) (prepare x site_id route lang d)
    unfolding prepare
    Yields-prepare d e =
        Yields-if (has_translation x site_id route lang (get lang d.translations))
          (answer_existing x site_id route lang d) (prepare_missing x site_id route lang d)
          (λ t. Yields-answer_existing d e) (λ t. Yields-prepare_missing d e)

    Keeps-prepare_all :
        (ds : List Document) → Keeps (Kept Waits) (prepare_all x site_id route lang ds)
    unfolding prepare_all
    Keeps-prepare_all [] = Keeps-pure _
    Keeps-prepare_all (d ∷ ds) = Keeps-bind _ _ (Keeps-prepare d) (λ a. Keeps-prepare_all ds)

    Yields-prepare_all :
        (d : Document) (ds : List Document)
        → d.key ≡ k
        → Among d ds
        → Yields Anyhow (λ a. Kept Waits) (prepare_all x site_id route lang ds)
    unfolding prepare_all
    Yields-prepare_all d [] e a = absurd a
    Yields-prepare_all d (c ∷ ds) e (inl same) =
        Yields-bind _ _ (Yields-prepare c (subst (λ b. b.key ≡ k) same e))
          (λ a. Yields-kept _ (Keeps-prepare_all ds))
    Yields-prepare_all d (c ∷ ds) e (inr among) =
        Yields-bind _ _ (Yields-any _) (λ a. Yields-prepare_all d ds e among)

    Yields-generate_translations :
        (serve_pending : Bool) (d : Document) (ds : List Document)
        → d.key ≡ k
        → Among d ds
        → ((h : List Call) → x.route h site_id route ≡ done ds)
        → Yields Anyhow
            (λ r s. contains k r ≡ true)
            (generate_translations x site_id route lang serve_pending)
    unfolding generate_translations gets
    Yields-generate_translations serve_pending d ds e among known =
        Yields-bind _ _ (Yields-any _) (λ a.
          Yields-bind _ _ (Yields-weaken _ (Yields-read_route x site_id route lang ds known))
            (λ docs. Yields-given _ (λ same.
              Yields-bind _ _ (Yields-prepare_all d docs e (subst (Among d) (sym same) among)) (λ b.
                Yields-bind _ _ (Yields-runtime_batch_ai serve_pending)
                  (λ c. record { yields = λ s h. h })))))

-- Where the route always has the same documents, and translating it returns, for a visitor or for a review,
-- there is a text under the key of each of its documents.
pub generate_translations-answers :
    (x : Outside) (site_id route lang : String) (serve_pending : Bool) (s : Work)
    (ds : List Document) (r : Dict String)
    → ((h : List Call) → x.route h site_id route ≡ done ds)
    → (generate_translations x site_id route lang serve_pending s).0 ≡ done r
    → All (λ d. contains d.key r ≡ true) ds
generate_translations-answers x site_id route lang serve_pending s ds r known h =
    All-Among _ ds (λ d among.
      Yields-done (generate_translations x site_id route lang serve_pending)
        (Yields-generate_translations d.key x site_id route lang serve_pending d ds refl among
          known)
        s r tt h)
