-- ===== src/Api/RateLimit/Cleanup.antt =====
-- What a cleanup of internal/api/middleware/ratelimit.go leaves of what a key may spend.
use stacyvm.Base.{
  ℕ, ◌+◌, ◌-◌, ◌*◌, ◌≤◌, ◌<◌, String, ◌≡◌, refl, sym, ap, subst, ◌∙◌, ◌⊎◌, inl, inr, ◌||◌, Option,
  none, some, arith, ltb, ◌==◌, ltb→lt, ==_iff, Bool-cases, lookup,
}
use native.Mathlib.Nat.{add-mul, mul-le-mul_right}
use stacyvm.Api.RateLimit.{
  RateBucket, RateLimiter, keep_fresh, cleaned_lately, cleanup_expired, min_of, capacity,
}
use stacyvm.Api.RateLimit.Buckets.{Once, fresh_or_none, lookup-keep_fresh, Once-keep_fresh}

-- The units that the key has at a time not before its last request: those of its bucket with what is
-- refilled since, or a full bucket.
abbrev pub units : ℕ → ℕ → ℕ → Option RateBucket → ℕ
units cap rpm t none = cap
units cap rpm t (some b) = min_of cap (b.tokens + (t - b.last_refill) * rpm)

abbrev pub credit : String → ℕ → RateLimiter → ℕ
credit k t rl = units (capacity rl) rl.requests_per_minute t (lookup k rl.buckets)

-- The bucket of the key is as requests up to the time `t` leave it.
abbrev pub Seen : String → ℕ → RateLimiter → Type 0
Seen k t rl =
    Once k rl.buckets
    × ((b : RateBucket)
        → lookup k rl.buckets ≡ some b
        → (b.last_refill ≡ b.last_seen) × (b.last_refill ≤ t) × (b.tokens ≤ capacity rl))

-- A bucket that the cleanup removes is full again by then, or there is no cleanup.
abbrev pub Patient : RateLimiter → Type 0
Patient rl = (rl.bucket_ttl ≡ 0) ⊎ (capacity rl ≤ rl.bucket_ttl * rl.requests_per_minute)

-- The settings are the same.
abbrev pub SameLimits : RateLimiter → RateLimiter → Type 0
SameLimits rl rl' =
    (rl'.burst ≡ rl.burst)
    × (rl'.requests_per_minute ≡ rl.requests_per_minute)
    × (rl'.bucket_ttl ≡ rl.bucket_ttl)

the_sum : (last t now : ℕ) → last ≤ t → t ≤ now → now - last ≡ (t - last) + (now - t)
the_sum last t now h h' = omega arith

grown : (cap tokens x y : ℕ) → min_of cap (tokens + (x + y)) ≤ min_of cap (tokens + x) + y
grown cap tokens x y = ground arith

pub refilled_since :
    (last t now rpm : ℕ)
    → last ≤ t
    → t ≤ now
    → (now - last) * rpm ≡ (t - last) * rpm + (now - t) * rpm
refilled_since last t now rpm h h' =
    ap (λ d. d * rpm) (the_sum last t now h h') ∙ add-mul (t - last) (now - t) rpm

-- The units at a later time are no more than the earlier ones and those refilled between.
credit_later :
    (cap tokens last t now rpm : ℕ)
    → last ≤ t
    → t ≤ now
    → min_of cap (tokens + (now - last) * rpm)
      ≤ min_of cap (tokens + (t - last) * rpm) + (now - t) * rpm
credit_later cap tokens last t now rpm h h' =
    rw (refilled_since last t now rpm h h') (grown cap tokens ((t - last) * rpm) ((now - t) * rpm))

-- A bucket that is removed for its age would be full.
full_when_old :
    (cap tokens last t now rpm ttl : ℕ)
    → last ≤ t
    → t ≤ now
    → last + ttl < now
    → cap ≤ ttl * rpm
    → cap ≤ min_of cap (tokens + (t - last) * rpm) + (now - t) * rpm
full_when_old cap tokens last t now rpm ttl h h' old patient =
    let aged : ttl * rpm ≤ (now - last) * rpm = mul-le-mul_right rpm (omega arith) in
    let parts = refilled_since last t now rpm h h' in ground (arith, aged, parts)

-- A bucket as requests up to the time `t` leave it.
abbrev pub Sound : ℕ → ℕ → Option RateBucket → Type 0
Sound cap t o =
    (b : RateBucket)
    → o ≡ some b
    → (b.last_refill ≡ b.last_seen) × (b.last_refill ≤ t) × (b.tokens ≤ cap)

units_later :
    (cap rpm t now : ℕ) (o : Option RateBucket)
    → Sound cap t o
    → t ≤ now
    → units cap rpm now o ≤ units cap rpm t o + (now - t) * rpm
units_later cap rpm t now none seen later = omega arith
units_later cap rpm t now (some b) seen later =
    credit_later cap b.tokens b.last_refill t now rpm (seen b refl).1 later

units-fresh_or_none :
    (cap rpm t now ttl : ℕ) (o : Option RateBucket)
    → Sound cap t o
    → t ≤ now
    → cap ≤ ttl * rpm
    → units cap rpm now (fresh_or_none now ttl o) ≤ units cap rpm t o + (now - t) * rpm
units-fresh_or_none cap rpm t now ttl none seen later patient = omega arith
units-fresh_or_none cap rpm t now ttl (some b) seen later patient =
    let (same, before, low) = seen b refl in
    elim (Bool-cases (ltb (b.last_seen + ttl) now)) [
      | inl old ↦ rw old (
          full_when_old cap b.tokens b.last_refill t now rpm ttl before later
            (subst (λ l. l + ttl < now) (sym same) (ltb→lt (b.last_seen + ttl) now old)) patient)
      | inr young ↦ rw young (credit_later cap b.tokens b.last_refill t now rpm before later)
    ]

credit-keep_fresh :
    (k : String) (t now : ℕ) (rl : RateLimiter)
    → Seen k t rl
    → t ≤ now
    → capacity rl ≤ rl.bucket_ttl * rl.requests_per_minute
    → units
        (capacity rl)
        rl.requests_per_minute
        now
        (lookup k (keep_fresh now rl.bucket_ttl rl.buckets))
      ≤ credit k t rl + (now - t) * rl.requests_per_minute
credit-keep_fresh k t now rl (once, seen) later patient =
    subst
      (λ o.
        units (capacity rl) rl.requests_per_minute now o
        ≤ credit k t rl + (now - t) * rl.requests_per_minute)
      (sym (lookup-keep_fresh now rl.bucket_ttl k rl.buckets once))
      (units-fresh_or_none (capacity rl) rl.requests_per_minute t now rl.bucket_ttl
        (lookup k rl.buckets) seen later patient)

Seen-keep_fresh :
    (k : String) (t now : ℕ) (rl : RateLimiter)
    → Seen k t rl
    → t ≤ now
    → Seen k now (record rl { buckets = keep_fresh now rl.bucket_ttl rl.buckets })
Seen-keep_fresh k t now rl (once, seen) later = (
  Once-keep_fresh now rl.bucket_ttl k rl.buckets once,
  λ b found. ground (arith, seen b, lookup-keep_fresh now rl.bucket_ttl k rl.buckets once),
)

-- The cleanup at a later time, of a patient limiter.
pub cleanup_expired-Kept :
    (k : String) (t now : ℕ) (rl : RateLimiter)
    → Seen k t rl
    → t ≤ now
    → Patient rl
    → Seen k now (cleanup_expired now rl)
      × (credit k now (cleanup_expired now rl) ≤ credit k t rl + (now - t) * rl.requests_per_minute)
      × SameLimits rl (cleanup_expired now rl)
unfolding cleanup_expired
cleanup_expired-Kept k t now rl s later patient =
    let off = rl.bucket_ttl == 0 || (rl.cleanup_interval == 0 || cleaned_lately rl now) in
    let unchanged : Seen k now rl = (s.0, λ b found. ground (arith, s.1 b)) in
    elim (Bool-cases off) [
      | inl y ↦
          rw (cleanup_expired, y)
            (
              unchanged,
              units_later (capacity rl) rl.requests_per_minute t now (lookup k rl.buckets) s.1
                  later,
              (refl, refl, refl),
            )
      | inr n ↦
          rw (cleanup_expired, n)
            (
              Seen-keep_fresh k t now rl s later,
              credit-keep_fresh k t now rl s later
                  (ground (arith, patient, ==_iff rl.bucket_ttl 0)),
              (refl, refl, refl),
            )
    ]
