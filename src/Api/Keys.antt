-- ===== src/Api/Keys.antt =====
-- internal/api/middleware/auth.go: which API key gives which role, and the scopes that a route requires.
mod Admitted
mod Tests
use stacyvm.Base.{
  ℕ, zero, suc, ◌+◌, ◌-◌, ◌*◌, ◌/◌, ◌%◌, ◌^◌, ◌≤◌, ◌<◌, String, ◌≡◌, refl, sym, ap, subst, ◌∙◌, ◌≢◌,
  ◌↔◌, ◌⊎◌, inl, inr, Bool, true, false, not, ◌&&◌, ◌||◌, Option, none, some, List, [], ◌∷◌, ◌++◌,
  map, arith, eq_iff, eq_refl, ltb, leb, ◌==◌, if◌then◌else◌, ltb→lt, lt→ltb, leb→le, ==_iff,
  Bool-cases, Option-cases, length, get_elem?, set, get_or, take, drop, replicate, length-append,
  length-set, take-append-drop, length-take, length-drop, append_assoc_list, drop-set, ℤ, pos,
  negsuc, pos_part, neg_part, sub_ℕ, ◌+ℤ◌, ◌≤ℤ◌, ◌<ℤ◌, ltb_ℤ, leb_ℤ, is_pos, +ℤ_parts, str_eq,
  is_empty, codes, is_space, trim_space, fold, equal_fold, equal_fold_refl, Dict, lookup, insert,
  delete, lookup-insert, lookup-delete, length-insert, length-delete, length-insert_found,
}

-- The fields of AuthIdentity that the keys fill in. An identity of OIDC has the header "Authorization".
pub record AuthIdentity : Type 0 where
  pub role : String
  pub header : String
  pub scopes : List String
  pub tenant_id : String

-- The headers of a request; "" where one is missing.
pub record Headers : Type 0 where
  pub admin_api_key : String
  pub api_key : String
  pub tenant_id : String

-- authCandidate.
pub record AuthCandidate : Type 0 where
  pub key : String
  pub role : String

-- What a middleware does: the next handler runs with an identity, or the request is refused with a status.
pub data Verdict : Type 0 where
  serve : AuthIdentity → Verdict
  refuse : ℕ → Verdict

-- AuthIdentityFromContext where nothing was put into the context.
abbrev pub anonymous : AuthIdentity
anonymous = record { role = "anonymous"; header = ""; scopes = []; tenant_id = "" }

abbrev pub worker_scopes : List String
worker_scopes =
    "worker:heartbeat" ∷ "worker:spawn" ∷ "worker:destroy" ∷ "worker:status" ∷ "worker:exec"
    ∷ "worker:files" ∷ "worker:logs" ∷ "worker:lease" ∷ []

unfoldable pub scopes_for_role : String → List String
scopes_for_role role =
    if str_eq role "admin"
    then "read:*" ∷ "api:*" ∷ "operator:*" ∷ "admin:*" ∷ []
    else if str_eq role "tenant_admin"
    then "read:*" ∷ "api:*" ∷ "operator:*" ∷ "tenant:admin" ∷ []
    else if str_eq role "operator"
    then "read:*" ∷ "api:*" ∷ "operator:*" ∷ []
    else if str_eq role "api"
    then "read:*" ∷ "api:*" ∷ []
    else if str_eq role "viewer"
    then "read:*" ∷ []
    else if str_eq role "worker"
    then worker_scopes
    else []

-- HasScope.
unfoldable pub has_scope : String → List String → Bool
has_scope scope [] = false
has_scope scope (s ∷ scopes) = str_eq s scope || has_scope scope scopes

-- The first candidate whose key is the one that is presented.
unfoldable pub find_candidate : String → List AuthCandidate → Option AuthCandidate
find_candidate presented [] = none
find_candidate presented (c ∷ cs) =
    let rest = find_candidate presented cs in
    if is_empty c.key then rest else if str_eq presented c.key then some c else rest

-- The identity for one header, where it presents the key of a candidate.
unfoldable pub authenticate_header :
    String → String → Headers → List AuthCandidate → Option AuthIdentity
unfolding find_candidate scopes_for_role trim_space
authenticate_header header presented h candidates =
    if is_empty presented then none else elim (find_candidate presented candidates) [
      | none ↦ none
      | some c ↦ some (record {
        role = c.role;
        header = header;
        scopes = scopes_for_role c.role;
        tenant_id = trim_space h.tenant_id;
      })
    ]

-- authenticateRequest.
unfoldable pub authenticate_request : Headers → List AuthCandidate → Option AuthIdentity
unfolding authenticate_header
authenticate_request h candidates =
    elim (authenticate_header "X-Admin-API-Key" h.admin_api_key h candidates) [
      | some identity ↦ some identity
      | none ↦ authenticate_header "X-API-Key" h.api_key h candidates
    ]

abbrev pub is_oidc : AuthIdentity → Bool
is_oidc identity = str_eq identity.header "Authorization"

-- AuthAny, with the key of the API and that of its administrator, as the server sets it up.
unfoldable pub auth_any : String → String → Headers → AuthIdentity → Verdict
unfolding authenticate_request
auth_any api_key admin_api_key h existing =
    let candidates =
      record { key = api_key; role = "api" }
      ∷ record { key = admin_api_key; role = "admin" }
      ∷ [] in
    if is_empty api_key && is_empty admin_api_key
    then serve existing
    else if is_oidc existing
    then serve existing
    else elim (authenticate_request h candidates) [
      | none ↦ refuse 401
      | some identity ↦ serve identity
    ]

-- The key that AdminAuth compares with.
unfoldable pub effective_admin_key : String → String → Bool → String
effective_admin_key admin_api_key fallback_api_key fallback_enabled =
    if is_empty admin_api_key && fallback_enabled then fallback_api_key else admin_api_key

unfoldable pub admin_auth : String → String → Bool → Headers → AuthIdentity → Verdict
unfolding effective_admin_key authenticate_request
admin_auth admin_api_key fallback_api_key fallback_enabled h existing =
    let key = effective_admin_key admin_api_key fallback_api_key fallback_enabled in
    if is_oidc existing
    then serve existing
    else if is_empty key
    then serve existing
    else elim (authenticate_request h (record { key = key; role = "admin" } ∷ [])) [
      | none ↦ refuse 403
      | some identity ↦ serve identity
    ]

unfoldable pub require_scope : String → AuthIdentity → Verdict
unfolding has_scope
require_scope scope identity =
    if has_scope scope identity.scopes then serve identity else refuse 403

-- One middleware after another.
unfoldable pub and_then : Verdict → (AuthIdentity → Verdict) → Verdict
and_then (serve identity) next = next identity
and_then (refuse code) next = refuse code

-- What internal/api/server.go puts before a route of the administrator. `oidc` tells whether OIDC is
-- configured; where nothing is, no scope is required.
unfoldable pub admin_chain : Bool → String → String → Bool → Headers → AuthIdentity → Verdict
unfolding auth_any admin_auth require_scope and_then
admin_chain oidc api_key admin_api_key fallback_enabled h existing =
    let configured = oidc || not (is_empty api_key && is_empty admin_api_key) in
    and_then (auth_any api_key admin_api_key h existing) (λ identity.
      and_then (admin_auth admin_api_key api_key fallback_enabled h identity)
        (λ admitted. if configured then require_scope "admin:*" admitted else serve admitted))
