-- ===== src/Authz.antt =====
-- The guards of tenants and owners, platform/app/platform/authz. A denial is written to a log before it is
-- raised; the log changes nothing and is left out.
pub mod Cases
pub mod Grants
use seeds.Base.{
  String, ◌==◌, Bool, true, false, not, Option, none, some, List, [], ◌∷◌, if◌then◌else◌, ◌||◌,
}
use seeds.Dict.{Dict, get}
use seeds.Act.{Exn, Reply, done, raised, cancelled}

-- a dict of texts, in which a value may be None
abbrev pub Document : Type 0
Document = Dict (Option String)

-- what a guard does: it returns, raises ForbiddenError or NotFoundError, or lets another failure pass
pub data Access : Type 0 where
  allowed forbidden not_found : Access
  failed : Exn → Access
  stopped : Access

-- `d.get(key, default)`
unfoldable pub value_or : Document → String → String → Option String
value_or d key default = elim (get key d) [ none ↦ some default | some value ↦ value ]

-- `value or default`
unfoldable pub or_else : Option String → Option String → Option String
or_else none default = default
or_else (some t) default = if t == "" then default else some t

-- `str(value)`
unfoldable pub str : Option String → String
str none = "None"
str (some t) = t

-- `caller_tenant`, from the role, the tenant's id and the subject
unfoldable pub tenant_by : Option String → Option String → Option String → Option String
tenant_by none own sub = own
tenant_by (some role) own sub = if role == "tenant" then or_else own sub else own

unfoldable pub tenant_of : Document → Option String
tenant_of user =
    tenant_by (value_or user "role" "") (or_else (value_or user "tenant_id" "") (some ""))
      (value_or user "sub" "")

-- `caller_tenant != resource_tenant_id`
unfoldable pub is_text : Option String → String → Bool
is_text none t = false
is_text (some s) t = s == t

-- No role is listed in `_BYPASS_ROLES`.
unfoldable pub assert_same_tenant : Document → String → Access
assert_same_tenant user resource_tenant_id =
    if is_text (tenant_of user) resource_tenant_id then allowed else forbidden

-- The collection of conferences: what is found for a conference's id, and for an ObjectId, where a text
-- that is none raises.
pub record Conferences : Type 0 where
  pub by_conference_id : String → Reply (Option Document)
  pub by_object_id : String → Reply (Option Document)

-- the second look-up, whose failures are caught
unfoldable pub fall_back : Reply (Option Document) → Reply (Option Document)
fall_back (done found) = done found
fall_back (raised e) = done none
fall_back cancelled = cancelled

unfoldable pub find_conference : Conferences → String → Reply (Option Document)
find_conference db id = elim (db.by_conference_id id) [
  | done found ↦ elim found [ none ↦ fall_back (db.by_object_id id) | some d ↦ done (some d) ]
  | raised e ↦ raised e
  | cancelled ↦ cancelled
]

unfoldable pub judge : Document → Reply (Option Document) → Access
judge user (done none) = not_found
judge user (done (some conference)) =
    if str (value_or conference "created_by" "") == str (value_or user "sub" "")
    then allowed
    else forbidden
judge user (raised e) = failed e
judge user cancelled = stopped

unfoldable pub assert_conference_owner : Document → String → Conferences → Access
assert_conference_owner user conference_id db = judge user (find_conference db conference_id)
