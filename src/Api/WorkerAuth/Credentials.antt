-- ===== src/Api/WorkerAuth/Credentials.antt =====
-- Whose credentials are good, and for what (middleware/auth.go, validateWorkerCredentials).
use stacyvm.Base.{
  ℕ, String, ◌≡◌, refl, sym, ◌∙◌, inl, inr, true, false, not, ◌||◌, Option, none, some, List, [],
  ◌∷◌, arith, Bool-cases, str_eq, is_empty, trim_space, Dict, lookup,
}
use stacyvm.Api.WorkerAuth.{
  WorkerTokenClaims, worker_scopes, worker_token_audience_control_plane, listed,
  is_worker_token_revoked, normalize_scopes, or_all, granted_scopes,
  verify_worker_token_with_any_key, validate_worker_credentials,
}
use stacyvm.Api.WorkerAuth.Tokens.{Accepted}

-- Every scope of the first list is in the second.
abbrev pub Within : List String → List String → Type 0
Within [] ys = Unit
Within (x ∷ xs) ys = (listed x ys ≡ true) × Within xs ys

-- No scope of the list is one of a worker's.
abbrev pub AllUnknown : List String → Type 0
AllUnknown [] = Unit
AllUnknown (s ∷ ss) = (listed (trim_space s) worker_scopes ≡ false) × AllUnknown ss

none_known : (ss : List String) → AllUnknown ss → normalize_scopes ss ≡ []
unfolding normalize_scopes
none_known [] u = refl
none_known (s ∷ ss) (unknown, u) = rw (unknown) (none_known ss u)

-- Why credentials are good: a token signed by one of the keys for the control plane, in time, that
-- names the worker and is not revoked; or the worker's own token; or the shared token, for a worker
-- that has no token of its own.
pub data Good (sign : String → String → String) (decode : String → Option WorkerTokenClaims)
    (worker_id token shared : String) (tokens : Dict String) (keys revoked : List String) (now : ℕ)
    (scopes : List String) : Type 0 where
  signed :
      (key : String) (c : WorkerTokenClaims)
      → listed key keys ≡ true
      → Accepted sign decode key worker_token_audience_control_plane token now c
      → c.worker_id ≡ worker_id
      → is_worker_token_revoked c revoked ≡ false
      → scopes ≡ granted_scopes c.scopes
      → Good sign decode worker_id token shared tokens keys revoked now scopes
  own :
      lookup worker_id tokens ≡ some token
      → scopes ≡ worker_scopes
      → Good sign decode worker_id token shared tokens keys revoked now scopes
  by_shared :
      lookup worker_id tokens ≡ none
      → token ≡ trim_space shared
      → scopes ≡ worker_scopes
      → Good sign decode worker_id token shared tokens keys revoked now scopes

no_scopes : {ss : List String} → none ≡ some ss → ⊥
no_scopes e = ground arith

some-eq : {xs ys : List String} → some xs ≡ some ys → xs ≡ ys
some-eq e = cc

module _ (sign : String → String → String) (decode : String → Option WorkerTokenClaims) where
  -- A signed token that is limited to scopes none of which is known gives all the scopes of a worker.
  pub unknown_scopes_grant_all :
      (worker_id token shared : String) (tokens : Dict String) (keys revoked : List String)
      (now : ℕ) (c : WorkerTokenClaims) (scopes : List String)
      → verify_worker_token_with_any_key sign decode keys token worker_token_audience_control_plane
          now
        ≡ some c
      → AllUnknown c.scopes
      → validate_worker_credentials sign decode worker_id token shared tokens keys revoked now
        ≡ some scopes
      → scopes ≡ worker_scopes
  unfolding granted_scopes validate_worker_credentials or_all
  unknown_scopes_grant_all worker_id token shared tokens keys revoked now c scopes v u e =
      let all : granted_scopes c.scopes ≡ worker_scopes = rw (none_known c.scopes u) refl in
      elim (Bool-cases (is_empty token || is_empty worker_id)) [
        | inl blank ↦ absurd (no_scopes (rw (blank) at e))
        | inr given ↦ elim (Bool-cases (not (str_eq c.worker_id worker_id))) [
          | inl other ↦ absurd (no_scopes (rw (given, v, other) at e))
          | inr mine ↦ elim (Bool-cases (is_worker_token_revoked c revoked)) [
            | inl dead ↦ absurd (no_scopes (rw (given, v, mine, dead) at e))
            | inr live ↦
                let same : granted_scopes c.scopes ≡ scopes =
                  some-eq (rw (given, v, mine, live) at e) in
                sym same ∙ all
          ]
        ]
      ]
