-- ===== src/Api/WorkerAuth.antt =====
-- internal/api/middleware/auth.go: the credentials of workers. A signed token is
-- `prefix.payload.signature`; the signature (HMAC-SHA256 in base64) and the decoding of a payload
-- (base64 and JSON) are arguments. Times of a token are seconds, the clock's are nanoseconds.
pub mod Tokens
mod Credentials
mod Tests
use stacyvm.Base.{
  ℕ, zero, suc, ◌+◌, ◌-◌, ◌*◌, ◌/◌, ◌%◌, ◌^◌, ◌≤◌, ◌<◌, String, ◌≡◌, refl, sym, ap, subst, ◌∙◌, ◌≢◌,
  ◌↔◌, ◌⊎◌, inl, inr, Bool, true, false, not, ◌&&◌, ◌||◌, Option, none, some, List, [], ◌∷◌, ◌++◌,
  map, arith, eq_iff, eq_refl, ltb, leb, ◌==◌, if◌then◌else◌, ltb→lt, lt→ltb, leb→le, ==_iff,
  Bool-cases, Option-cases, length, get_elem?, set, get_or, take, drop, replicate, length-append,
  length-set, take-append-drop, length-take, length-drop, append_assoc_list, drop-set, ℤ, pos,
  negsuc, pos_part, neg_part, sub_ℕ, ◌+ℤ◌, ◌≤ℤ◌, ◌<ℤ◌, ltb_ℤ, leb_ℤ, is_pos, +ℤ_parts, str_eq,
  is_empty, codes, is_space, trim_space, fold, equal_fold, equal_fold_refl, Dict, lookup, insert,
  delete, lookup-insert, lookup-delete, length-insert, length-delete, length-insert_found,
}
use Prim.Native.String
use Prim.Native.Char.{code}

pub record WorkerTokenClaims : Type 0 where
  pub worker_id : String
  pub token_id : String
  pub audience : String
  pub scopes : List String
  pub expires_at : ℤ
  pub issued_at : ℤ
  pub not_before : ℤ

abbrev pub worker_signed_token_prefix : String
worker_signed_token_prefix = "stacyvm-worker-v1"

abbrev pub worker_token_audience_control_plane : String
worker_token_audience_control_plane = "worker:control-plane"

abbrev pub second : ℕ
second = 1000000000

abbrev pub max_worker_token_ttl : ℕ
max_worker_token_ttl = 900 * second

abbrev pub worker_token_clock_skew : ℕ
worker_token_clock_skew = 30 * second

-- scopesForRole(AuthRoleWorker).
abbrev pub worker_scopes : List String
worker_scopes =
    "worker:heartbeat" ∷ "worker:spawn" ∷ "worker:destroy" ∷ "worker:status" ∷ "worker:exec"
    ∷ "worker:files" ∷ "worker:logs" ∷ "worker:lease" ∷ []

-- strings.Split(token, ".").
unfoldable pub split_dots : String → List String
split_dots String.[] = String.[] ∷ []
split_dots (String.◌∷◌ c s) =
    let rest = split_dots s in
    if code c == 46
    then String.[] ∷ rest
    else elim rest [ [] ↦ String.◌∷◌ c String.[] ∷ [] | p ∷ ps ↦ String.◌∷◌ c p ∷ ps ]

-- The payload and the signature of a token of three parts with the prefix.
unfoldable pub token_parts : String → Option (String × String)
token_parts token = elim (split_dots token) [
  | [] ↦ none
  | prefix ∷ [] ↦ none
  | prefix ∷ payload ∷ [] ↦ none
  | prefix ∷ payload ∷ signature ∷ [] ↦
      if str_eq prefix worker_signed_token_prefix then some (payload, signature) else none
  | prefix ∷ payload ∷ signature ∷ more ∷ parts ↦ none
]

unfoldable pub trim_claims : WorkerTokenClaims → WorkerTokenClaims
trim_claims c = record c {
  worker_id = trim_space c.worker_id;
  token_id = trim_space c.token_id;
  audience = trim_space c.audience;
}

-- A time of a token, in nanoseconds; one before the epoch is the epoch.
abbrev pub unix : ℤ → ℕ
unix t = pos_part t * second

unfoldable pub check_times : ℕ → WorkerTokenClaims → Bool
check_times now c =
    not (is_empty c.worker_id)
    && (is_pos c.expires_at
        && (ltb now (unix c.expires_at)
            && (not (is_pos c.not_before && ltb (now + worker_token_clock_skew) (unix c.not_before))
                && (not
                      (is_pos c.issued_at && ltb (now + worker_token_clock_skew) (unix c.issued_at))
                    && not (
                        is_pos c.issued_at
                        && ltb (unix c.issued_at + max_worker_token_ttl) (unix c.expires_at))))))

unfoldable pub check_audience : String → WorkerTokenClaims → Bool
check_audience audience c =
    is_empty (trim_space audience)
    || (is_empty c.audience || str_eq c.audience (trim_space audience))

-- validWorkerToken.
unfoldable pub valid_worker_token : String → String → String → Dict String → Bool
valid_worker_token worker_id token shared tokens =
    if is_empty token then false else elim (lookup worker_id tokens) [
      | some expected ↦ str_eq token expected
      | none ↦ not (is_empty (trim_space shared)) && str_eq token (trim_space shared)
    ]

unfoldable pub listed : String → List String → Bool
listed x [] = false
listed x (y ∷ ys) = str_eq y x || listed x ys

unfoldable pub is_worker_token_revoked : WorkerTokenClaims → List String → Bool
unfolding listed
is_worker_token_revoked c revoked = not (is_empty c.token_id) && listed c.token_id revoked

unfoldable pub normalize_scopes : List String → List String
unfolding listed
normalize_scopes [] = []
normalize_scopes (s ∷ ss) =
    let rest = normalize_scopes ss in
    if listed (trim_space s) worker_scopes then trim_space s ∷ rest else rest

-- The scopes of a token: all of a worker's where none is left.
unfoldable pub or_all : List String → List String
or_all [] = worker_scopes
or_all (s ∷ ss) = s ∷ ss

unfoldable pub granted_scopes : List String → List String
granted_scopes scopes = or_all (normalize_scopes scopes)

module _ (sign : String → String → String) (decode : String → Option WorkerTokenClaims) where
  unfoldable pub verify_parts : String → String → ℕ → String × String → Option WorkerTokenClaims
  verify_parts key audience now (payload, signature) =
      let signed = String.◌++◌ worker_signed_token_prefix (String.◌++◌ "." payload) in
      if not (str_eq signature (sign key signed)) then none else elim (decode payload) [
        | none ↦ none
        | some raw ↦
            if check_times now (trim_claims raw) && check_audience audience (trim_claims raw)
            then some (trim_claims raw)
            else none
      ]

  -- VerifyWorkerTokenForAudience.
  unfoldable pub verify_worker_token_for_audience :
      String → String → String → ℕ → Option WorkerTokenClaims
  unfolding verify_parts
  verify_worker_token_for_audience key token audience now =
      if is_empty (trim_space key) || is_empty (trim_space token)
      then none
      else elim (token_parts (trim_space token)) [
        | none ↦ none
        | some parts ↦ verify_parts (trim_space key) audience now parts
      ]

  unfoldable pub verify_worker_token_with_any_key :
      List String → String → String → ℕ → Option WorkerTokenClaims
  verify_worker_token_with_any_key [] token audience now = none
  verify_worker_token_with_any_key (key ∷ keys) token audience now =
      let rest = verify_worker_token_with_any_key keys token audience now in
      elim (verify_worker_token_for_audience key token audience now) [
        | some c ↦ some c
        | none ↦ rest
      ]

  -- validateWorkerCredentials: the scopes, where the credentials are good.
  unfoldable pub validate_worker_credentials :
      String → String → String → Dict String → List String → List String → ℕ → Option (List String)
  validate_worker_credentials worker_id token shared tokens keys revoked now =
      if is_empty token || is_empty worker_id
      then none
      else elim (verify_worker_token_with_any_key keys token worker_token_audience_control_plane
          now) [
            | some c ↦
                if not (str_eq c.worker_id worker_id)
                then none
                else if is_worker_token_revoked c revoked
                then none
                else some (granted_scopes c.scopes)
            | none ↦
                if valid_worker_token worker_id token shared tokens
                then some worker_scopes
                else none
          ]
