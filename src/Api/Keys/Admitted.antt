-- ===== src/Api/Keys/Admitted.antt =====
-- Who reaches the routes of the administrator (internal/api/middleware/auth.go).
use stacyvm.Base.{
  ℕ, String, ◌≡◌, refl, sym, ap, subst, ◌∙◌, ◌⊎◌, inl, inr, Bool, true, false, not, ◌&&◌, ◌||◌,
  some, List, [], ◌∷◌, arith, eq_iff, if◌then◌else◌, str_eq, is_empty,
}
use stacyvm.Api.Keys.{
  AuthIdentity, Headers, AuthCandidate, Verdict, serve, refuse, scopes_for_role, has_scope,
  find_candidate, authenticate_header, authenticate_request, is_oidc, auth_any, effective_admin_key,
  admin_auth, require_scope, and_then, admin_chain,
}

-- A header presents a key, which is not the empty one.
abbrev pub Presents : Headers → String → Type 0
Presents h key = (is_empty key ≡ false) × ((h.admin_api_key ≡ key) ⊎ (h.api_key ≡ key))

authenticate_header-found :
    (header presented key role : String) (h : Headers) (i : AuthIdentity)
    → authenticate_header header presented h (record { key = key; role = role } ∷ []) ≡ some i
    → (is_empty key ≡ false) × (presented ≡ key) × (i.role ≡ role)
unfolding authenticate_header find_candidate
authenticate_header-found header presented key role h i e = ground (arith, eq_iff presented key)

authenticate_request-found :
    (key role : String) (h : Headers) (i : AuthIdentity)
    → authenticate_request h (record { key = key; role = role } ∷ []) ≡ some i
    → Presents h key × (i.role ≡ role)
unfolding authenticate_request
authenticate_request-found key role h i e = ground (
  arith,
  authenticate_header-found "X-Admin-API-Key" h.admin_api_key key role h i,
  authenticate_header-found "X-API-Key" h.api_key key role h i,
)

-- The second candidate's key is missing: what is found has the first one's role.
authenticate_header-api :
    (header presented key : String) (h : Headers) (i : AuthIdentity)
    → authenticate_header header presented h
        (record { key = key; role = "api" } ∷ record { key = ""; role = "admin" } ∷ [])
      ≡ some i
    → has_scope "admin:*" i.scopes ≡ false
unfolding authenticate_header find_candidate scopes_for_role has_scope
authenticate_header-api header presented key h i e = ground arith

authenticate_header-header :
    (header presented : String) (h : Headers) (cs : List AuthCandidate) (i : AuthIdentity)
    → authenticate_header header presented h cs ≡ some i
    → i.header ≡ header
unfolding authenticate_header
authenticate_header-header header presented h cs i e = ground arith

plain_header :
    (i : AuthIdentity) (header : String)
    → str_eq header "Authorization" ≡ false
    → i.header ≡ header
    → is_oidc i ≡ false
plain_header i header other e = subst (λ s. str_eq s "Authorization" ≡ false) (sym e) other

authenticate_request-header :
    (h : Headers) (cs : List AuthCandidate) (i : AuthIdentity)
    → authenticate_request h cs ≡ some i
    → is_oidc i ≡ false
unfolding authenticate_request
authenticate_request-header h cs i e = ground (
  arith,
  authenticate_header-header "X-Admin-API-Key" h.admin_api_key h cs i,
  authenticate_header-header "X-API-Key" h.api_key h cs i,
  plain_header i "X-Admin-API-Key" refl,
  plain_header i "X-API-Key" refl,
)

authenticate_request-api :
    (key : String) (h : Headers) (i : AuthIdentity)
    → authenticate_request h
        (record { key = key; role = "api" } ∷ record { key = ""; role = "admin" } ∷ [])
      ≡ some i
    → has_scope "admin:*" i.scopes ≡ false
unfolding authenticate_request
authenticate_request-api key h i e = ground (
  arith,
  authenticate_header-api "X-Admin-API-Key" h.admin_api_key key h i,
  authenticate_header-api "X-API-Key" h.api_key key h i,
)

-- A caller whom AuthAny serves, and who was no caller of OIDC and had no scope of the administrator.
auth_any-Plain :
    (api_key admin_api_key : String) (h : Headers) (existing i : AuthIdentity)
    → is_oidc existing ≡ false
    → has_scope "admin:*" existing.scopes ≡ false
    → auth_any api_key admin_api_key h existing ≡ serve i
    → (is_oidc i ≡ false) × (admin_api_key ≡ "" → has_scope "admin:*" i.scopes ≡ false)
unfolding auth_any
auth_any-Plain api_key admin_api_key h existing i plain bare e =
    let cs : List AuthCandidate =
      record { key = api_key; role = "api" }
      ∷ record { key = admin_api_key; role = "admin" }
      ∷ [] in
    let bare_api = λ (blank : admin_api_key ≡ "") (found : authenticate_request h cs ≡ some i).
      authenticate_request-api api_key h i (
        subst
          (λ k.
            authenticate_request h
              (record { key = api_key; role = "api" } ∷ record { key = k; role = "admin" } ∷ [])
            ≡ some i)
          blank found) in
    ground (arith, authenticate_request-header h cs i, bare_api)

admin_auth-Admitted :
    (api_key admin_api_key : String) (fallback : Bool) (h : Headers) (i j : AuthIdentity)
    → is_oidc i ≡ false
    → admin_auth admin_api_key api_key fallback h i ≡ serve j
    → (Presents h (effective_admin_key admin_api_key api_key fallback) × (j.role ≡ "admin"))
      ⊎ ((effective_admin_key admin_api_key api_key fallback ≡ "") × (j ≡ i))
unfolding admin_auth
admin_auth-Admitted api_key admin_api_key fallback h i j plain e = ground (
  arith,
  authenticate_request-found (effective_admin_key admin_api_key api_key fallback) "admin" h j,
  eq_iff (effective_admin_key admin_api_key api_key fallback) "",
)

Verdict-cases :
    (v : Verdict) → ((i : AuthIdentity) × (v ≡ serve i)) ⊎ ((code : ℕ) × (v ≡ refuse code))
Verdict-cases (serve i) = inl (i, refl)
Verdict-cases (refuse code) = inr (code, refl)

and_then-serve :
    (v : Verdict) (next : AuthIdentity → Verdict) (j : AuthIdentity)
    → and_then v next ≡ serve j
    → (i : AuthIdentity) × (v ≡ serve i) × (next i ≡ serve j)
unfolding and_then
and_then-serve (serve i) next j e = (i, refl, e)
and_then-serve (refuse code) next j e = cc

require_scope-serve :
    (i j : AuthIdentity)
    → require_scope "admin:*" i ≡ serve j
    → (i ≡ j) × (has_scope "admin:*" i.scopes ≡ true)
unfolding require_scope
require_scope-serve i j e = ground arith

effective_admin_key-blank :
    (admin_api_key api_key : String) (fallback : Bool)
    → effective_admin_key admin_api_key api_key fallback ≡ ""
    → admin_api_key ≡ ""
unfolding effective_admin_key
effective_admin_key-blank admin_api_key api_key fallback e = ground (arith, eq_iff admin_api_key "")

-- A caller of OIDC apart, and one who has the administrator's scope already, whoever is served on a route
-- of the administrator, where a key or OIDC is configured, presents the key that counts as the
-- administrator's in one of the two headers, and is served as an administrator. That key is the
-- administrator's, or the one of the API where there is none and the fallback is enabled; it is not empty.
pub admin_chain-Admitted :
    (oidc : Bool) (api_key admin_api_key : String) (fallback : Bool) (h : Headers)
    (existing j : AuthIdentity)
    → is_oidc existing ≡ false
    → has_scope "admin:*" existing.scopes ≡ false
    → (oidc || not (is_empty api_key && is_empty admin_api_key)) ≡ true
    → admin_chain oidc api_key admin_api_key fallback h existing ≡ serve j
    → Presents h (effective_admin_key admin_api_key api_key fallback) × (j.role ≡ "admin")
unfolding admin_chain
admin_chain-Admitted oidc api_key admin_api_key fallback h existing j plain bare configured e =
    let (i, served, e') =
      and_then-serve (auth_any api_key admin_api_key h existing)
        (λ identity. and_then (admin_auth admin_api_key api_key fallback h identity) (λ admitted.
          if oidc || not (is_empty api_key && is_empty admin_api_key)
          then require_scope "admin:*" admitted
          else serve admitted))
        j e in
    let (i_plain, i_bare) = auth_any-Plain api_key admin_api_key h existing i plain bare served in
    let (m, admitted, e'') =
      and_then-serve (admin_auth admin_api_key api_key fallback h i)
        (λ admitted.
          if oidc || not (is_empty api_key && is_empty admin_api_key)
          then require_scope "admin:*" admitted
          else serve admitted)
        j e' in
    let (same, scoped) =
      require_scope-serve m j (
        subst (λ b. (if b then require_scope "admin:*" m else serve m) ≡ serve j) configured e'') in
    elim (admin_auth-Admitted api_key admin_api_key fallback h i m i_plain admitted) [
      | inl (presents, role) ↦ (presents, ap (λ x. x.role) (sym same) ∙ role)
      | inr (blank, unchanged) ↦ ground (
        arith,
        i_bare (effective_admin_key-blank admin_api_key api_key fallback blank),
        subst (λ x. has_scope "admin:*" x.scopes ≡ true) unchanged scoped,
      )
    ]
