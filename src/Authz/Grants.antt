-- ===== src/Authz/Grants.antt =====
-- Whom the guards let pass.
use seeds.Base.{
  String, ◌≡◌, refl, ◌≢◌, ◌↔◌, ◌⊎◌, inl, inr, Bool, true, false, Option, none, some, List, [], ◌==◌,
  arith, text_ne,
}
use seeds.Dict.{get}
use seeds.Act.{Reply, done, raised, cancelled}
use seeds.Authz.{
  Document, allowed, Conferences, value_or, or_else, str, tenant_by, tenant_of, is_text,
  assert_same_tenant, find_conference, judge, assert_conference_owner,
}

judge-allowed :
    (user : Document) (r : Reply (Option Document))
    → judge user r ≡ allowed
    → (conference : Document) × (r ≡ done (some conference))
      × (str (value_or conference "created_by" "") ≡ str (value_or user "sub" ""))
unfolding judge
judge-allowed user (done none) h = absurd (ground (arith, h))
judge-allowed user (done (some c)) h = (c, refl, ground (arith, h))
judge-allowed user (raised e) h = absurd (ground (arith, h))
judge-allowed user cancelled h = absurd (ground (arith, h))

judge-own :
    (user conference : Document)
    → str (value_or conference "created_by" "") ≡ str (value_or user "sub" "")
    → judge user (done (some conference)) ≡ allowed
unfolding judge
judge-own user c h = ground (arith, h)

-- Access to a conference is allowed exactly where a conference is found and its created_by and the
-- user's sub, each empty where it is missing, are the same text.
pub assert_conference_owner-allowed :
    (user : Document) (id : String) (db : Conferences)
    → (assert_conference_owner user id db ≡ allowed) ↔ (
        (conference : Document) × (find_conference db id ≡ done (some conference))
        × (str (value_or conference "created_by" "") ≡ str (value_or user "sub" "")))
unfolding assert_conference_owner
assert_conference_owner-allowed user id db = (
  judge-allowed user (find_conference db id),
  λ (c, found, same). rw found (judge-own user c same),
)

-- A user without a sub is allowed into every conference without a creator.
pub assert_conference_owner-anonymous :
    (user conference : Document) (id : String) (db : Conferences)
    → get "sub" user ≡ none
    → get "created_by" conference ≡ none
    → db.by_conference_id id ≡ done (some conference)
    → assert_conference_owner user id db ≡ allowed
unfolding find_conference value_or
assert_conference_owner-anonymous user c id db u n f =
    (assert_conference_owner-allowed user id db).1
      (c, rw (find_conference, f) refl, rw (value_or, u, n) refl)

value_or-some :
    (d : Document) (key t : String)
    → t ≢ ""
    → value_or d key "" ≡ some t
    → get key d ≡ some (some t)
unfolding value_or
value_or-some d key t n h = ground (arith, n, h)

or_else-some :
    (a b : Option String) (t : String) → or_else a b ≡ some t → (a ≡ some t) ⊎ (b ≡ some t)
unfolding or_else
or_else-some none b t h = inr h
or_else-some (some s) b t h = ground (arith, h)

or_else-given :
    (a : Option String) (t : String) → t ≢ "" → or_else a (some "") ≡ some t → a ≡ some t
or_else-given a t n h = elim (or_else-some a (some "") t h) [
  | inl e ↦ e
  | inr e ↦ absurd (ground (arith, n, e))
]

is_text-true : (o : Option String) (t : String) → is_text o t ≡ true → o ≡ some t
unfolding is_text
is_text-true none t h = absurd (ground (arith, h))
is_text-true (some s) t h = ground (arith, h)

tenant_ne : ◌≢◌ {A = String} "tenant" ""
unfolding seeds.Base.String-discrete
tenant_ne = text_ne "tenant" "" refl

tenant_by-some :
    (role own sub : Option String) (t : String)
    → tenant_by role own sub ≡ some t
    → (own ≡ some t) ⊎ ((role ≡ some "tenant") × (sub ≡ some t))
unfolding tenant_by
tenant_by-some none own sub t h = inl h
tenant_by-some (some role) own sub t h = ground (arith, h, or_else-some own sub t)

-- A user whom the guard of tenants lets pass to a tenant with an id has this id as its tenant_id, or has
-- the role of a tenant and this id as its sub.
pub assert_same_tenant-allowed :
    (user : Document) (tenant : String)
    → tenant ≢ ""
    → assert_same_tenant user tenant ≡ allowed
    → (get "tenant_id" user ≡ some (some tenant))
      ⊎ ((get "role" user ≡ some (some "tenant")) × (get "sub" user ≡ some (some tenant)))
unfolding assert_same_tenant tenant_of
assert_same_tenant-allowed user tenant n h =
    let own : Option String = or_else (value_or user "tenant_id" "") (some "") in
    let same : tenant_of user ≡ some tenant =
      is_text-true (tenant_of user) tenant (ground (arith, h)) in
    elim (tenant_by-some (value_or user "role" "") own (value_or user "sub" "") tenant same) [
      | inl e ↦ inl (
          value_or-some user "tenant_id" tenant n
            (or_else-given (value_or user "tenant_id" "") tenant n e))
      | inr e ↦
          inr (
            value_or-some user "role" "tenant" tenant_ne e.0,
            value_or-some user "sub" tenant n e.1,
          )
    ]
