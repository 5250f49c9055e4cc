-- ===== src/Api/RateLimit/Bounded.antt =====
-- How many requests of a key pass the limiter of internal/api/middleware/ratelimit.go.
use stacyvm.Base.{
  ℕ, ◌+◌, ◌-◌, ◌*◌, ◌/◌, ◌≤◌, ◌<◌, String, ◌≡◌, ap, subst, ◌∙◌, inl, inr, false, ◌||◌, none, some,
  List, [], ◌∷◌, arith, ◌==◌, length, lookup,
}
use native.Mathlib.Nat.{add-mul}
use stacyvm.Api.RateLimit.{
  RateBucket, RateLimiter, keep_fresh, cleaned_lately, cleanup_expired, capacity, token, allowed,
  allow, RateLimitConfig, new_rate_limiter,
}
use stacyvm.Api.RateLimit.Buckets.{Once, fresh_or_none, lookup-keep_fresh}
use stacyvm.Api.RateLimit.Cleanup.{
  credit, Seen, Patient, SameLimits, refilled_since, cleanup_expired-Kept,
}
use stacyvm.Api.RateLimit.Spending.{passes, take_token-Kept, take_token-fresh}

-- Every map of the buckets is as requests up to the time `t` leave it.
abbrev pub AllSeen : ℕ → RateLimiter → Type 0
AllSeen t rl = (k : String) → Seen k t rl

-- Requests, each with its time and key, and how many of a key pass.
unfoldable pub run : List (ℕ × String) → RateLimiter → RateLimiter
unfolding allow
run [] rl = rl
run ((now, key) ∷ reqs) rl = run reqs (allow now key rl).1

unfoldable pub passed_of : String → List (ℕ × String) → RateLimiter → ℕ
unfolding allow
passed_of k [] rl = 0
passed_of k ((now, key) ∷ reqs) rl =
    passes k key (allow now key rl).0 + passed_of k reqs (allow now key rl).1

-- The times of the requests do not go back, from `t` to `end`.
abbrev pub Ordered : ℕ → List (ℕ × String) → ℕ → Type 0
Ordered t [] end = t ≤ end
Ordered t ((now, key) ∷ reqs) end = (t ≤ now) × Ordered now reqs end

allow-Kept :
    (k key : String) (t now : ℕ) (rl : RateLimiter)
    → AllSeen t rl
    → t ≤ now
    → Patient rl
    → AllSeen now (allow now key rl).1
      × (passes k key (allow now key rl).0 * token + credit k now (allow now key rl).1
          ≤ credit k t rl + (now - t) * rl.requests_per_minute)
      × SameLimits rl (allow now key rl).1
unfolding allow
allow-Kept k key t now rl seen later patient =
    let cleaned = cleanup_expired now rl in
    let kept = λ (x : String). cleanup_expired-Kept x t now rl (seen x) later patient in
    let taken = λ (x : String). take_token-Kept x key now cleaned (kept x).0 (kept key).0 in
    (
      (λ x. (taken x).0),
      omega (arith, (kept k).1, (taken k).1),
      ((taken k).2.0 ∙ (kept k).2.0, (taken k).2.1 ∙ (kept k).2.1, (taken k).2.2 ∙ (kept k).2.2),
    )

Ordered-le : (t : ℕ) (reqs : List (ℕ × String)) (end : ℕ) → Ordered t reqs end → t ≤ end
Ordered-le t [] end h = h
Ordered-le t ((now, key) ∷ reqs) end (h, hs) = omega (arith, Ordered-le now reqs end hs)

Patient-same : (rl rl' : RateLimiter) → SameLimits rl rl' → Patient rl → Patient rl'
Patient-same rl rl' (same_burst, same_rpm, same_ttl) (inl off) = inl (same_ttl ∙ off)
Patient-same rl rl' (same_burst, same_rpm, same_ttl) (inr h) =
    inr (rw (same_burst, same_rpm, same_ttl) h)

-- (p + q) passes spend their tokens of what there was and what is refilled.
sum_up :
    (p q before after x y : ℕ)
    → p * token + after ≤ before + x
    → q * token ≤ after + y
    → (p + q) * token ≤ before + (x + y)
sum_up p q before after x y h h' = omega (arith, add-mul p q token)

passed_of-bounded :
    (k : String) (reqs : List (ℕ × String)) (t end : ℕ) (rl : RateLimiter)
    → AllSeen t rl
    → Ordered t reqs end
    → Patient rl
    → passed_of k reqs rl * token ≤ credit k t rl + (end - t) * rl.requests_per_minute
unfolding passed_of
passed_of-bounded k [] t end rl seen ordered patient = omega arith
passed_of-bounded k ((now, key) ∷ reqs) t end rl seen (later, ordered) patient =
    let (seen', spent', same) = allow-Kept k key t now rl seen later patient in
    let rest =
      passed_of-bounded k reqs now end (allow now key rl).1 seen' ordered
        (Patient-same rl (allow now key rl).1 same patient) in
    let rest' =
      subst
        (λ rpm.
          passed_of k reqs (allow now key rl).1 * token
          ≤ credit k now (allow now key rl).1 + (end - now) * rpm)
        same.1 rest in
    rw (refilled_since t now end rl.requests_per_minute later (Ordered-le now reqs end ordered)) (
      sum_up (passes k key (allow now key rl).0) (passed_of k reqs (allow now key rl).1)
        (credit k t rl) (credit k now (allow now key rl).1) ((now - t) * rl.requests_per_minute)
        ((end - now) * rl.requests_per_minute) spent' rest')

-- Of the requests that a new limiter is given from a time on to a later one, in the order of their times,
-- at most the burst and what is refilled in that time pass for a key: a request costs one token, of
-- 60 * 10^9 units, and a nanosecond refills as many units as there are requests per minute. This is for
-- settings where a bucket fills within its time to live, or where that time is none, so that no
-- bucket is removed.
pub new_rate_limiter-bounded :
    (cfg : RateLimitConfig) (k : String) (reqs : List (ℕ × String)) (t end : ℕ)
    → Ordered t reqs end
    → Patient (new_rate_limiter cfg)
    → passed_of k reqs (new_rate_limiter cfg) * token
      ≤ capacity (new_rate_limiter cfg) + (end - t) * (new_rate_limiter cfg).requests_per_minute
unfolding new_rate_limiter lookup
new_rate_limiter-bounded cfg k reqs t end ordered patient =
    passed_of-bounded k reqs t end (new_rate_limiter cfg) (λ x. (tt, λ b e. cc)) ordered patient

-- Whatever the bucket of a key had: where the cleanup is enabled and due, the map has one bucket for the key,
-- it was not seen for longer than the time to live, and the burst is at least one, then the next
-- request of the key passes and leaves the whole burst but one. A time to live that is shorter than the
-- time to fill a bucket lets a caller have its burst again before it is refilled.
pub evicted_bucket_full :
    (k : String) (now : ℕ) (rl : RateLimiter) (b : RateBucket)
    → Once k rl.buckets
    → lookup k rl.buckets ≡ some b
    → b.last_seen + rl.bucket_ttl < now
    → (rl.bucket_ttl == 0 || (rl.cleanup_interval == 0 || cleaned_lately rl now)) ≡ false
    → 1 ≤ rl.burst
    → (allow now k rl).0 ≡ allowed ((capacity rl - token) / token)
unfolding allow cleanup_expired
evicted_bucket_full k now rl b once found old due some_burst =
    let gone : fresh_or_none now rl.bucket_ttl (some b) ≡ none = ground arith in
    let none_left : lookup k (keep_fresh now rl.bucket_ttl rl.buckets) ≡ none =
      lookup-keep_fresh now rl.bucket_ttl k rl.buckets once
      ∙ (ap (fresh_or_none now rl.bucket_ttl) found ∙ gone) in
    let kept = keep_fresh now rl.bucket_ttl rl.buckets in
    rw (allow, cleanup_expired, due)
      (take_token-fresh now k
        (record rl {
          buckets = kept;
          last_cleanup = some now;
          evicted_total = rl.evicted_total + (length rl.buckets - length kept);
        })
        none_left some_burst)
