-- ===== src/Api/WorkerAuth/Tests.antt =====
-- Worker tokens with a toy signature, the key itself, and one payload for each kind of claims.
use stacyvm.Base.{
  ℕ, ◌+◌, ◌*◌, ◌<◌, String, ◌≡◌, refl, false, Option, none, some, List, [], ◌∷◌, arith,
  if◌then◌else◌, pos, str_eq, trim_space, lookup,
}
use stacyvm.Api.WorkerAuth.{
  WorkerTokenClaims, worker_scopes, worker_token_clock_skew, max_worker_token_ttl, second,
  split_dots, token_parts, trim_claims, check_times, check_audience, valid_worker_token, listed,
  is_worker_token_revoked, normalize_scopes, or_all, granted_scopes, verify_parts,
  verify_worker_token_for_audience, verify_worker_token_with_any_key, validate_worker_credentials,
}
use stacyvm.Api.WorkerAuth.Tokens.{verify-lifetime}
use stacyvm.Api.WorkerAuth.Credentials.{unknown_scopes_grant_all}

abbrev sign : String → String → String
sign key text = key

abbrev claims : List String → WorkerTokenClaims
claims scopes = record {
  worker_id = "w-1";
  token_id = "t-1";
  audience = "worker:control-plane";
  scopes = scopes;
  expires_at = pos 700;
  issued_at = pos 100;
  not_before = pos 0;
}

abbrev decode : String → Option WorkerTokenClaims
decode payload =
    if str_eq payload "spawn"
    then some (claims ("worker:spawn" ∷ []))
    else if str_eq payload "odd"
    then some (claims ("worker:nothing" ∷ []))
    else none

abbrev now : ℕ
now = 200 * second

unknown_scopes_grant_all_example : worker_scopes ≡ worker_scopes
unfolding split_dots token_parts trim_claims check_times check_audience is_worker_token_revoked
    listed normalize_scopes or_all granted_scopes verify_parts verify_worker_token_for_audience
    verify_worker_token_with_any_key validate_worker_credentials trim_space
unknown_scopes_grant_all_example =
    unknown_scopes_grant_all sign decode "w-1" "stacyvm-worker-v1.odd.k" "" [] ("k" ∷ []) [] now
      (claims ("worker:nothing" ∷ [])) worker_scopes refl (refl, tt) refl

verify-lifetime_instance : 300 * second < now + worker_token_clock_skew + max_worker_token_ttl
unfolding split_dots token_parts trim_claims check_times check_audience verify_parts
    verify_worker_token_for_audience trim_space
verify-lifetime_instance =
    verify-lifetime sign decode "k" "k" "" "" "stacyvm-worker-v1.spawn.k" now (300 * second)
      (claims ("worker:spawn" ∷ [])) (claims ("worker:spawn" ∷ [])) (omega arith) refl refl

own_token_first : valid_worker_token "w-1" "shared" "shared" (("w-1", "mine") ∷ []) ≡ false
unfolding valid_worker_token lookup
own_token_first = refl
