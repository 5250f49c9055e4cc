-- ===== src/Api/RateLimit/Spending.antt =====
-- What a request to internal/api/middleware/ratelimit.go spends.
use stacyvm.Base.{
  ℕ, ◌+◌, ◌-◌, ◌*◌, ◌/◌, ◌≤◌, String, ◌≡◌, refl, sym, ap, subst, ◌∙◌, inl, inr, Bool, true, false,
  none, some, arith, eq_iff, leb, if◌then◌else◌, ltb→lt, leb→le, Bool-cases, Option-cases, str_eq,
  Dict, lookup, insert, lookup-insert,
}
use native.Mathlib.Nat.{zero-mul}
use stacyvm.Api.RateLimit.{
  RateBucket, RateLimiter, capacity, refill, bucket_of, token, Decision, allowed, limited,
  take_token,
}
use stacyvm.Api.RateLimit.Buckets.{Once-insert}
use stacyvm.Api.RateLimit.Cleanup.{units, credit, Seen, SameLimits, Sound}

-- One for a request of the key that passes.
abbrev pub passes : String → String → Decision → ℕ
passes k key (allowed remaining) = if str_eq key k then 1 else 0
passes k key (limited seconds) = 0

units-now :
    (cap rpm now : ℕ) (b : RateBucket) → b.last_refill ≡ now → units cap rpm now (some b) ≤ b.tokens
units-now cap rpm now b e =
    let blank : now - b.last_refill ≡ 0 = omega (arith, e) in
    let nothing : (now - b.last_refill) * rpm ≡ 0 = ap (λ d. d * rpm) blank ∙ zero-mul rpm in
    ground (arith, nothing)

-- What a refill makes of a bucket: no more than its units, and no more than a full one.
abbrev Refilled : ℕ → RateLimiter → ℕ → RateBucket → Type 0
Refilled now rl most b = (b.last_refill ≡ now) × (b.tokens ≤ capacity rl) × (b.tokens ≤ most)

Refilled-refill :
    (now : ℕ) (rl : RateLimiter) (b : RateBucket)
    → b.last_refill ≤ now
    → b.tokens ≤ capacity rl
    → Refilled now rl (units (capacity rl) rl.requests_per_minute now (some b)) (refill now rl b)
unfolding refill
Refilled-refill now rl b before low = ground (arith, ltb→lt b.last_refill now)

Refilled-bucket_of :
    (now : ℕ) (k : String) (rl : RateLimiter)
    → Seen k now rl
    → Refilled now rl (credit k now rl) (refill now rl (bucket_of now k rl))
unfolding refill bucket_of
Refilled-bucket_of now k rl (once, seen) = elim (Option-cases (lookup k rl.buckets)) [
  | inl e ↦ rw (bucket_of, e) (ground arith)
  | inr (b, e) ↦ rw (bucket_of, e) (Refilled-refill now rl b (seen b e).1 (seen b e).2)
]

Sound-insert :
    (k key : String) (cap now : ℕ) (b : RateBucket) (m : Dict RateBucket)
    → Sound cap now (lookup k m)
    → b.last_refill ≡ now
    → b.last_seen ≡ now
    → b.tokens ≤ cap
    → Sound cap now (lookup k (insert key b m))
Sound-insert k key cap now b m seen e e' low c found =
    ground (arith, seen c, lookup-insert key k b m)

-- What a request leaves for a key: of the bucket of the request, its tokens at most.
units-insert :
    (k key : String) (cap rpm now : ℕ) (b : RateBucket) (m : Dict RateBucket)
    → b.last_refill ≡ now
    → units cap rpm now (lookup k (insert key b m))
      ≤ (if str_eq key k then b.tokens else units cap rpm now (lookup k m))
units-insert k key cap rpm now b m e =
    subst
      (λ o.
        units cap rpm now o ≤ (if str_eq key k then b.tokens else units cap rpm now (lookup k m)))
      (sym (lookup-insert key k b m))
      (elim (Bool-cases (str_eq key k)) [
        | inl y ↦ rw y (units-now cap rpm now b e)
        | inr n ↦ rw n (omega arith)
      ])

spent :
    (same : Bool) (tokens left total : ℕ)
    → token ≤ tokens
    → (same ≡ true → tokens ≤ total)
    → left ≤ (if same then tokens - token else total)
    → (if same then 1 else 0) * token + left ≤ total
spent true tokens left total h low e = omega (arith, low refl)
spent false tokens left total h low e = omega arith

unspent :
    (same : Bool) (tokens left total : ℕ)
    → (same ≡ true → tokens ≤ total)
    → left ≤ (if same then tokens else total)
    → 0 * token + left ≤ total
unspent true tokens left total low e = omega (arith, low refl)
unspent false tokens left total low e = omega arith

pub take_token-Kept :
    (k key : String) (now : ℕ) (rl : RateLimiter)
    → Seen k now rl
    → Seen key now rl
    → Seen k now (take_token now key rl).1
      × (passes k key (take_token now key rl).0 * token + credit k now (take_token now key rl).1
          ≤ credit k now rl)
      × SameLimits rl (take_token now key rl).1
unfolding take_token
take_token-Kept k key now rl s s' =
    let b = record (refill now rl (bucket_of now key rl)) { last_seen = now } in
    let less = record b { tokens = b.tokens - token } in
    let (filled, low, most) = Refilled-bucket_of now key rl s' in
    let rpm = rl.requests_per_minute in
    let own = λ (e : str_eq key k ≡ true).
      subst (λ x. b.tokens ≤ credit x now rl) ((eq_iff key k).0 e) most in
    elim (Bool-cases (leb token b.tokens)) [
      | inl enough ↦
          rw (take_token, enough)
            (
              (
                Once-insert k key less rl.buckets s.0,
                Sound-insert k key (capacity rl) now less rl.buckets s.1 filled refl
                    (omega (arith, low)),
              ),
              spent (str_eq key k) b.tokens
                  (units (capacity rl) rpm now (lookup k (insert key less rl.buckets)))
                  (credit k now rl) (leb→le token b.tokens enough) own
                  (units-insert k key (capacity rl) rpm now less rl.buckets filled),
              (refl, refl, refl),
            )
      | inr short ↦
          rw (take_token, short)
            (
              (
                Once-insert k key b rl.buckets s.0,
                Sound-insert k key (capacity rl) now b rl.buckets s.1 filled refl low,
              ),
              unspent (str_eq key k) b.tokens
                  (units (capacity rl) rpm now (lookup k (insert key b rl.buckets)))
                  (credit k now rl) own
                  (units-insert k key (capacity rl) rpm now b rl.buckets filled),
              (refl, refl, refl),
            )
    ]

refill_now :
    (now : ℕ) (rl : RateLimiter) (b : RateBucket) → b.last_refill ≡ now → refill now rl b ≡ b
unfolding refill
refill_now now rl b e = ground arith

enough_burst : (burst : ℕ) → 1 ≤ burst → leb token (burst * token) ≡ true
enough_burst burst h = ground arith

pub take_token-fresh :
    (now : ℕ) (key : String) (rl : RateLimiter)
    → lookup key rl.buckets ≡ none
    → 1 ≤ rl.burst
    → (take_token now key rl).0 ≡ allowed ((capacity rl - token) / token)
unfolding take_token bucket_of
take_token-fresh now key rl e some_burst =
    let full : RateBucket = record { tokens = capacity rl; last_refill = now; last_seen = now } in
    rw (take_token, bucket_of, e, refill_now now rl full refl, enough_burst rl.burst some_burst)
      refl
