-- ===== src/Api/RateLimit/Tests.antt =====
-- Tests of internal/api/middleware/ratelimit.go.
use stacyvm.Base.{
  ◌+◌, ◌*◌, ◌≤◌, ◌≡◌, refl, inl, true, false, none, [], ◌∷◌, arith, pos, negsuc, lookup,
}
use stacyvm.Api.RateLimit.{
  RateLimitConfig, RateLimiter, Caller, token, capacity, new_rate_limiter, allow, allowed, key_of,
}
use stacyvm.Api.RateLimit.Bounded.{passed_of, new_rate_limiter-bounded, evicted_bucket_full}

-- Sixty requests per minute, two at once, and no cleanup.
abbrev settings : RateLimitConfig
settings = record {
  enabled = true;
  requests_per_minute = pos 60;
  burst = pos 2;
  key_by = "";
  bucket_ttl = negsuc 0;
  cleanup_interval = pos 0;
}

-- One request per minute, a hundred at once, and buckets that live for a minute.
abbrev hasty : RateLimiter
hasty = record {
  buckets = ("ip:a", record { tokens = 0; last_refill = 1; last_seen = 1 }) ∷ [];
  requests_per_minute = 1;
  burst = 100;
  key_by = "ip";
  disabled = false;
  allowed_total = 0;
  limited_total = 0;
  evicted_total = 0;
  bucket_ttl = 60000000000;
  cleanup_interval = 60000000000;
  last_cleanup = none;
}

abbrev visitor : Caller
visitor = record {
  api_key = "";
  user_id = "";
  forwarded_for = " 10.0.0.1, 10.0.0.2";
  real_ip = "";
  remote_addr = "";
}

key_test : key_of (λ text. text) (λ addr. none) "owner" visitor ≡ "ip:ip:10.0.0.1"
unfolding key_of
key_test = refl

new_rate_limiter-bounded_example :
    passed_of "a" ((5, "a") ∷ (6, "a") ∷ (7, "a") ∷ []) (new_rate_limiter settings) * token
    ≤ capacity (new_rate_limiter settings) + 5 * (new_rate_limiter settings).requests_per_minute
unfolding new_rate_limiter
new_rate_limiter-bounded_example =
    new_rate_limiter-bounded settings "a" ((5, "a") ∷ (6, "a") ∷ (7, "a") ∷ []) 5 10
      (omega arith, (omega arith, (omega arith, omega arith))) (inl refl)

evicted_bucket_full_example : (allow 70000000000 "ip:a" hasty).0 ≡ allowed 99
unfolding lookup
evicted_bucket_full_example =
    evicted_bucket_full "ip:a" 70000000000 hasty
      (record { tokens = 0; last_refill = 1; last_seen = 1 }) ((λ e. refl), tt) refl (omega arith)
      refl (omega arith)
