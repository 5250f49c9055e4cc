-- ===== src/Api/RateLimit/Buckets.antt =====
-- The buckets of internal/api/middleware/ratelimit.go through a cleanup and a request.
use stacyvm.Base.{
  ℕ, ◌+◌, String, ◌≡◌, refl, sym, subst, inl, inr, true, Option, none, some, [], ◌∷◌, arith, eq_iff,
  ltb, if◌then◌else◌, Bool-cases, str_eq, Dict, lookup, insert, lookup-insert,
}
use stacyvm.Api.RateLimit.{RateBucket, keep_fresh}

-- A map has one entry for a key.
abbrev pub Once : String → Dict RateBucket → Type 0
Once k [] = Unit
Once k ((j, b) ∷ m) = (str_eq j k ≡ true → lookup k m ≡ none) × Once k m

abbrev pub fresh_or_none : ℕ → ℕ → Option RateBucket → Option RateBucket
fresh_or_none now ttl none = none
fresh_or_none now ttl (some b) = if ltb (b.last_seen + ttl) now then none else some b

keep_fresh-none :
    (now ttl : ℕ) (k : String) (m : Dict RateBucket)
    → lookup k m ≡ none
    → lookup k (keep_fresh now ttl m) ≡ none
unfolding keep_fresh lookup
keep_fresh-none now ttl k [] h = refl
keep_fresh-none now ttl k ((j, b) ∷ m) h = ground (arith, keep_fresh-none now ttl k m)

pub lookup-keep_fresh :
    (now ttl : ℕ) (k : String) (m : Dict RateBucket)
    → Once k m
    → lookup k (keep_fresh now ttl m) ≡ fresh_or_none now ttl (lookup k m)
unfolding keep_fresh lookup
lookup-keep_fresh now ttl k [] h = refl
lookup-keep_fresh now ttl k ((j, b) ∷ m) (h, hs) =
    ground (arith, lookup-keep_fresh now ttl k m hs, keep_fresh-none now ttl k m)

pub Once-keep_fresh :
    (now ttl : ℕ) (k : String) (m : Dict RateBucket) → Once k m → Once k (keep_fresh now ttl m)
unfolding keep_fresh
Once-keep_fresh now ttl k [] h = tt
Once-keep_fresh now ttl k ((j, b) ∷ m) (h, hs) = elim (Bool-cases (ltb (b.last_seen + ttl) now)) [
  | inl y ↦ rw y (Once-keep_fresh now ttl k m hs)
  | inr n ↦ rw n ((λ e. keep_fresh-none now ttl k m (h e)), Once-keep_fresh now ttl k m hs)
]

pub Once-insert :
    (k j : String) (b : RateBucket) (m : Dict RateBucket) → Once k m → Once k (insert j b m)
unfolding insert lookup
Once-insert k j b [] h = ((λ e. refl), tt)
Once-insert k j b ((i, c) ∷ m) (h, hs) = elim (Bool-cases (str_eq i j)) [
  | inl y ↦ rw y ((λ e. h (subst (λ x. str_eq x k ≡ true) (sym ((eq_iff i j).0 y)) e)), hs)
  | inr n ↦ rw n (
    (λ e. ground (arith, h e, lookup-insert j k b m, eq_iff i k, eq_iff i j, eq_iff j k)),
    Once-insert k j b m hs,
  )
]
