-- ===== src/Authz/Cases.antt =====
-- The theorems on the guards, at a conference that the teacher has made.
use seeds.Base.{◌≡◌, ◌↔◌, some, [], ◌∷◌}
use seeds.Act.{done, raised, value_error}
use seeds.Authz.{
  Document, allowed, Conferences, value_or, str, find_conference, assert_conference_owner,
}
use seeds.Authz.Grants.{assert_conference_owner-allowed}

abbrev teacher : Document
teacher = ("sub", some "t") ∷ ("role", some "tenant") ∷ []

abbrev lesson : Document
lesson = ("created_by", some "t") ∷ []

abbrev conferences : Conferences
conferences = record {
  by_conference_id = λ id. done (some lesson);
  by_object_id = λ id. raised value_error;
}

assert_conference_owner-allowed_example :
    (assert_conference_owner teacher "c" conferences ≡ allowed) ↔ (
      (conference : Document) × (find_conference conferences "c" ≡ done (some conference))
      × (str (value_or conference "created_by" "") ≡ str (value_or teacher "sub" "")))
assert_conference_owner-allowed_example = assert_conference_owner-allowed teacher "c" conferences
