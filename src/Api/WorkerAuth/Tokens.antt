-- ===== src/Api/WorkerAuth/Tokens.antt =====
-- Which signed tokens are accepted, and for how long (middleware/auth.go).
use stacyvm.Base.{
  ℕ, ◌+◌, ◌<◌, String, ◌≡◌, sym, ap, subst, ◌∙◌, inl, inr, Bool, true, not, ◌&&◌, ◌||◌, Option,
  none, some, arith, eq_iff, Bool-cases, Option-cases, pos, ◌<ℤ◌, str_eq, is_empty, trim_space,
}
use Prim.Native.String
use stacyvm.Api.WorkerAuth.{
  WorkerTokenClaims, worker_signed_token_prefix, token_parts, trim_claims, check_times,
  check_audience, max_worker_token_ttl, worker_token_clock_skew, verify_parts,
  verify_worker_token_for_audience,
}

none-some : {c : WorkerTokenClaims} → none ≡ some c → ⊥
none-some e = ground arith

both : (a b : Bool) → (a && b) ≡ true → (a ≡ true) × (b ≡ true)
both a b e = (ground arith, ground arith)

abbrev first_of : Option (String × String) → String
first_of none = ""
first_of (some p) = p.0

some-eq : {c d : WorkerTokenClaims} → some c ≡ some d → c ≡ d
some-eq e = cc

times_bound :
    (now later : ℕ) (c : WorkerTokenClaims)
    → pos 0 <ℤ c.issued_at
    → check_times now c ≡ true
    → check_times later c ≡ true
    → later < now + worker_token_clock_skew + max_worker_token_ttl
unfolding check_times
times_bound now later c issued t t' = ground arith

module _ (sign : String → String → String) (decode : String → Option WorkerTokenClaims) where
  -- What an accepted token is: three parts of which the last is the signature, under the key, of the
  -- first two, with claims that pass the tests on times and audience.
  pub record Accepted (key audience token : String) (now : ℕ) (c : WorkerTokenClaims) : Type 0 where
    pub payload : String
    pub raw : WorkerTokenClaims
    pub parts :
        token_parts (trim_space token)
        ≡ some (
          payload,
          sign (trim_space key) (String.◌++◌ worker_signed_token_prefix (String.◌++◌ "." payload)),
        )
    pub decoded : decode payload ≡ some raw
    pub claims : c ≡ trim_claims raw
    pub timely : check_times now c ≡ true
    pub addressed : check_audience audience c ≡ true

  -- The same of the parts of a token.
  verify_parts-cases :
      (key audience : String) (now : ℕ) (payload signature : String) (c : WorkerTokenClaims)
      → verify_parts sign decode key audience now (payload, signature) ≡ some c
      → (signature ≡ sign key (String.◌++◌ worker_signed_token_prefix (String.◌++◌ "." payload)))
        × ((raw : WorkerTokenClaims) × (decode payload ≡ some raw)
            × (c ≡ trim_claims raw)
            × (check_times now c ≡ true)
            × (check_audience audience c ≡ true))
  unfolding verify_parts
  verify_parts-cases key audience now payload signature c e =
      let expected = sign key (String.◌++◌ worker_signed_token_prefix (String.◌++◌ "." payload)) in
      elim (Bool-cases (not (str_eq signature expected))) [
        | inl forged ↦ absurd (none-some (rw (forged) at e))
        | inr genuine ↦ elim (Option-cases (decode payload)) [
          | inl garbled ↦ absurd (none-some (rw (genuine, garbled) at e))
          | inr (raw, decoded) ↦
              let tests =
                check_times now (trim_claims raw) && check_audience audience (trim_claims raw) in
              elim (Bool-cases tests) [
                | inl pass ↦
                    let same : trim_claims raw ≡ c = some-eq (rw (genuine, decoded, pass) at e) in
                    let (timely, addressed) = both _ _ pass in
                    (
                      ground (arith, eq_iff signature expected),
                      (
                        raw,
                        decoded,
                        sym same,
                        subst (λ x. check_times now x ≡ true) same timely,
                        subst (λ x. check_audience audience x ≡ true) same addressed,
                      ),
                    )
                | inr failed ↦ absurd (none-some (rw (genuine, decoded, failed) at e))
              ]
        ]
      ]

  pub verify-Accepted :
      (key token audience : String) (now : ℕ) (c : WorkerTokenClaims)
      → verify_worker_token_for_audience sign decode key token audience now ≡ some c
      → Accepted key audience token now c
  unfolding verify_worker_token_for_audience
  verify-Accepted key token audience now c e =
      elim (Bool-cases (is_empty (trim_space key) || is_empty (trim_space token))) [
        | inl blank ↦ absurd (none-some (rw (blank) at e))
        | inr given ↦ elim (Option-cases (token_parts (trim_space token))) [
          | inl odd ↦ absurd (none-some (rw (given, odd) at e))
          | inr ((payload, signature), split) ↦
              let (signed, (raw, decoded, claims, timely, addressed)) =
                verify_parts-cases (trim_space key) audience now payload signature c
                  (rw (given, split) at e) in
              record {
                payload = payload;
                raw = raw;
                parts = rw (sym signed) split;
                decoded = decoded;
                claims = claims;
                timely = timely;
                addressed = addressed;
              }
        ]
      ]

  -- The claims of a token, whoever accepts it.
  pub same_claims :
      (key key' audience audience' token : String) (now later : ℕ) (c c' : WorkerTokenClaims)
      → Accepted key audience token now c
      → Accepted key' audience' token later c'
      → c' ≡ c
  same_claims key key' audience audience' token now later c c' a a' =
      let same_payload : a'.payload ≡ a.payload = ap first_of (sym a'.parts ∙ a.parts) in
      let same_raw = some-eq (sym a'.decoded ∙ ap decode same_payload ∙ a.decoded) in
      a'.claims ∙ ap trim_claims same_raw ∙ sym a.claims

  -- A signed token that tells when it was issued is good for a bounded time: two times at which it is
  -- accepted, under whatever keys and for whatever audiences, lie less than 15 minutes and the 30
  -- seconds of clock skew apart.
  pub verify-lifetime :
      (key key' audience audience' token : String) (now later : ℕ) (c c' : WorkerTokenClaims)
      → pos 0 <ℤ c.issued_at
      → verify_worker_token_for_audience sign decode key token audience now ≡ some c
      → verify_worker_token_for_audience sign decode key' token audience' later ≡ some c'
      → later < now + worker_token_clock_skew + max_worker_token_ttl
  unfolding check_times
  verify-lifetime key key' audience audience' token now later c c' issued e e' =
      let a = verify-Accepted key token audience now c e in
      let a' = verify-Accepted key' token audience' later c' e' in
      let same = same_claims key key' audience audience' token now later c c' a a' in
      let timely' : check_times later c ≡ true =
        subst (λ x. check_times later x ≡ true) same a'.timely in
      times_bound now later c issued a.timely timely'
