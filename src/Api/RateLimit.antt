-- ===== src/Api/RateLimit.antt =====
-- internal/api/middleware/ratelimit.go: a bucket of tokens for each caller. A token is 60 * 10^9 units, so
-- that a nanosecond at n requests per minute refills n units: what the source computes in floats is exact
-- here. Times are nanoseconds.
mod Buckets
mod Cleanup
mod Spending
mod Bounded
mod Tests
use stacyvm.Base.{
  ℕ, zero, suc, ◌+◌, ◌-◌, ◌*◌, ◌/◌, ◌%◌, ◌^◌, ◌≤◌, ◌<◌, String, ◌≡◌, refl, sym, ap, subst, ◌∙◌, ◌≢◌,
  ◌↔◌, ◌⊎◌, inl, inr, Bool, true, false, not, ◌&&◌, ◌||◌, Option, none, some, List, [], ◌∷◌, ◌++◌,
  map, arith, eq_iff, eq_refl, ltb, leb, ◌==◌, if◌then◌else◌, ltb→lt, lt→ltb, leb→le, ==_iff,
  Bool-cases, Option-cases, length, get_elem?, set, get_or, take, drop, replicate, length-append,
  length-set, take-append-drop, length-take, length-drop, append_assoc_list, drop-set, ℤ, pos,
  negsuc, pos_part, neg_part, sub_ℕ, ◌+ℤ◌, ◌≤ℤ◌, ◌<ℤ◌, ltb_ℤ, leb_ℤ, is_pos, +ℤ_parts, str_eq,
  is_empty, codes, is_space, trim_space, fold, equal_fold, equal_fold_refl, Dict, lookup, insert,
  delete, lookup-insert, lookup-delete, length-insert, length-delete, length-insert_found,
}
use Prim.Native.Char.{code}
use Prim.Native.String
use stacyvm.Base.Cases.{to_lower}

abbrev pub token : ℕ
token = 60000000000

pub record RateLimitConfig : Type 0 where
  pub enabled : Bool
  pub requests_per_minute : ℤ
  pub burst : ℤ
  pub key_by : String
  pub bucket_ttl : ℤ
  pub cleanup_interval : ℤ

pub record RateBucket : Type 0 where
  pub tokens : ℕ
  pub last_refill : ℕ
  pub last_seen : ℕ

-- A duration that is negative in the source is 0 here: both switch the cleanup off.
pub record RateLimiter : Type 0 where
  pub buckets : Dict RateBucket
  pub requests_per_minute : ℕ
  pub burst : ℕ
  pub key_by : String
  pub disabled : Bool
  pub allowed_total : ℕ
  pub limited_total : ℕ
  pub evicted_total : ℕ
  pub bucket_ttl : ℕ
  pub cleanup_interval : ℕ
  pub last_cleanup : Option ℕ

-- A duration of the configuration, or its default where it is 0.
abbrev pub or_default : ℤ → ℕ → ℕ
or_default d otherwise = if is_pos d then pos_part d else if leb_ℤ (pos 0) d then otherwise else 0

-- NewRateLimiter.
unfoldable pub new_rate_limiter : RateLimitConfig → RateLimiter
unfolding trim_space to_lower
new_rate_limiter cfg =
    let rpm = pos_part cfg.requests_per_minute in
    let key_by = trim_space (to_lower cfg.key_by) in
    record {
      buckets = [];
      requests_per_minute = rpm;
      burst = if is_pos cfg.burst then pos_part cfg.burst else rpm;
      key_by = if is_empty key_by then "owner" else key_by;
      disabled = not cfg.enabled || rpm == 0;
      allowed_total = 0;
      limited_total = 0;
      evicted_total = 0;
      bucket_ttl = or_default cfg.bucket_ttl 900000000000;
      cleanup_interval = or_default cfg.cleanup_interval 60000000000;
      last_cleanup = none;
    }

-- The buckets that were seen within `ttl`.
unfoldable pub keep_fresh : ℕ → ℕ → Dict RateBucket → Dict RateBucket
keep_fresh now ttl [] = []
keep_fresh now ttl ((key, b) ∷ m) =
    let rest = keep_fresh now ttl m in if ltb (b.last_seen + ttl) now then rest else (key, b) ∷ rest

abbrev pub cleaned_lately : RateLimiter → ℕ → Bool
cleaned_lately rl now = elim rl.last_cleanup [
  | none ↦ false
  | some last ↦ ltb now (last + rl.cleanup_interval)
]

unfoldable pub cleanup_expired : ℕ → RateLimiter → RateLimiter
unfolding keep_fresh
cleanup_expired now rl =
    let kept = keep_fresh now rl.bucket_ttl rl.buckets in
    if rl.bucket_ttl == 0 || (rl.cleanup_interval == 0 || cleaned_lately rl now)
    then rl
    else record rl {
      buckets = kept;
      last_cleanup = some now;
      evicted_total = rl.evicted_total + (length rl.buckets - length kept);
    }

abbrev pub min_of : ℕ → ℕ → ℕ
min_of m n = if leb m n then m else n

-- The units of a full bucket.
abbrev pub capacity : RateLimiter → ℕ
capacity rl = rl.burst * token

unfoldable pub refill : ℕ → RateLimiter → RateBucket → RateBucket
refill now rl b =
    if ltb b.last_refill now
    then record b {
      tokens = min_of (capacity rl) (b.tokens + (now - b.last_refill) * rl.requests_per_minute);
      last_refill = now;
    }
    else b

-- The bucket of a key, a full one where there is none.
unfoldable pub bucket_of : ℕ → String → RateLimiter → RateBucket
bucket_of now key rl = elim (lookup key rl.buckets) [
  | none ↦ record { tokens = capacity rl; last_refill = now; last_seen = now }
  | some b ↦ b
]

-- What allow answers: how many whole tokens remain, or after how many seconds to try again.
pub data Decision : Type 0 where
  allowed limited : ℕ → Decision

-- allow, after the cleanup.
unfoldable pub take_token : ℕ → String → RateLimiter → Decision × RateLimiter
unfolding refill bucket_of
take_token now key rl =
    let b = record (refill now rl (bucket_of now key rl)) { last_seen = now } in
    let per_second = rl.requests_per_minute * 1000000000 in
    if leb token b.tokens
    then (
      allowed ((b.tokens - token) / token),
      record rl {
        buckets = insert key (record b { tokens = b.tokens - token }) rl.buckets;
        allowed_total = rl.allowed_total + 1;
      },
    )
    else (
      limited ((token - b.tokens + per_second - 1) / per_second),
      record rl { buckets = insert key b rl.buckets; limited_total = rl.limited_total + 1 },
    )

unfoldable pub allow : ℕ → String → RateLimiter → Decision × RateLimiter
unfolding cleanup_expired take_token
allow now key rl = take_token now key (cleanup_expired now rl)

-- What a request tells of its caller; "" where a header is missing.
pub record Caller : Type 0 where
  pub api_key : String
  pub user_id : String
  pub forwarded_for : String
  pub real_ip : String
  pub remote_addr : String

unfoldable pub before_comma : String → String
before_comma String.[] = String.[]
before_comma (String.◌∷◌ c s) = if code c == b',' then String.[] else String.◌∷◌ c (before_comma s)

-- clientIP. `split` is the host of net.SplitHostPort.
unfoldable pub client_ip : (String → Option String) → Caller → String
unfolding before_comma trim_space
client_ip split r =
    if not (is_empty (trim_space r.forwarded_for))
    then trim_space (before_comma (trim_space r.forwarded_for))
    else if not (is_empty (trim_space r.real_ip))
    then trim_space r.real_ip
    else elim (split r.remote_addr) [ none ↦ r.remote_addr | some host ↦ host ]

-- key. `sum` is the text of the SHA-256 of a text.
unfoldable pub key_of : (String → String) → (String → Option String) → String → Caller → String
unfolding client_ip trim_space
key_of sum split key_by r =
    let bucket_key = λ (kind value : String).
      String.◌++◌ kind (String.◌++◌ ":" (sum (String.◌++◌ kind (String.◌++◌ ":" value)))) in
    let api_key = trim_space r.api_key in
    let owner = trim_space r.user_id in
    let by_ip = bucket_key "ip" (client_ip split r) in
    let by_api_key = (if is_empty api_key then by_ip else bucket_key "api_key" api_key) in
    if str_eq key_by "api_key"
    then by_api_key
    else if str_eq key_by "ip"
    then by_ip
    else if is_empty owner
    then by_api_key
    else bucket_key "owner" owner

-- What the middleware does: the request goes on, or is told to try again after some seconds, at least one.
pub data Limit : Type 0 where
  passed : Limit
  too_many : ℕ → Limit

unfoldable pub limit_request : ℕ → String → RateLimiter → Limit × RateLimiter
unfolding allow
limit_request now key rl =
    let decided = allow now key rl in
    if rl.disabled then (passed, rl) else (
      elim decided.0 [
        | allowed remaining ↦ passed
        | limited seconds ↦ too_many (if ltb seconds 1 then 1 else seconds)
      ],
      decided.1,
    )
