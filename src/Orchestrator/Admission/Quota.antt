-- ===== src/Orchestrator/Admission/Quota.antt =====
-- internal/orchestrator/manager.go: owner ids, and the limits that an owner's quota overrides.
-- Durations are integers, in nanoseconds.
pub mod Laws
mod Tests
use stacyvm.Base.{
  ℕ, suc, ◌+◌, ◌*◌, ◌/◌, ◌%◌, String, Bool, false, not, ◌&&◌, ◌||◌, Option, none, some, [], ltb,
  leb, ◌==◌, if◌then◌else◌, ℤ, pos, negsuc, pos_part, sub_ℕ, ltb_ℤ, is_pos, str_eq, is_empty,
  trim_space, Dict, lookup,
}
use stacyvm.Store.Records.{OwnerQuotaRecord}
use Prim.Native.String

-- The errors of the manager by their kind (orchestrator/errors.go, providers/errors.go).
pub data ManagerError : Type 0 where
  invalid_input : String → ManagerError
  resource_limit : String → ManagerError
  sandbox_not_found : String → ManagerError
  sandbox_destroyed : String → ManagerError
  provider_not_found : String → ManagerError
  bad_duration : ManagerError
  store_failed : ManagerError
  cancelled : ManagerError
  exec_timeout : String → ManagerError
  operation_failed : String → ManagerError

pub data Result {ℓ} (A : Type ℓ) : Type ℓ where
  ok : A → Result A
  err : ManagerError → Result A

pub record OperationalLimits : Type 0 where
  pub max_sandboxes : ℤ
  pub max_sandboxes_per_owner : ℤ
  pub default_exec_timeout : ℤ
  pub max_exec_timeout : ℤ
  pub max_ttl : ℤ
  pub spawn_overflow : String
  pub spawn_queue_timeout : ℤ
  pub max_spawn_queue : ℤ

abbrev pub second : ℕ
second = 1000000000

-- `time.Duration(n) * time.Second`.
unfoldable pub seconds : ℤ → ℤ
seconds (pos n) = pos (n * second)
seconds (negsuc n) = sub_ℕ 0 (suc n * second)

-- The owner's row; none where there is no owner, no row, or the store fails.
unfoldable pub quota_of : String → Dict OwnerQuotaRecord → Option OwnerQuotaRecord
quota_of owner quotas = if is_empty owner then none else lookup owner quotas

-- A value of the quota, where it is positive, and the manager's limit otherwise.
unfoldable pub override : ℤ → ℤ → ℤ
override limit quota = if is_pos quota then quota else limit

unfoldable pub owner_limit_overrides : OperationalLimits → Dict OwnerQuotaRecord → String → ℤ × ℤ
unfolding quota_of override
owner_limit_overrides limits quotas owner = elim (quota_of owner quotas) [
  | none ↦ (limits.max_ttl, limits.max_sandboxes_per_owner)
  | some quota ↦ (
    if is_pos quota.max_ttl_seconds then seconds quota.max_ttl_seconds else limits.max_ttl,
    override limits.max_sandboxes_per_owner quota.max_sandboxes,
  )
]

unfoldable pub owner_max_exec_timeout : OperationalLimits → Dict OwnerQuotaRecord → String → ℤ
unfolding quota_of
owner_max_exec_timeout limits quotas owner = elim (quota_of owner quotas) [
  | none ↦ limits.max_exec_timeout
  | some quota ↦
      if is_pos quota.max_exec_timeout_seconds
      then seconds quota.max_exec_timeout_seconds
      else limits.max_exec_timeout
]

-- A duration of a request: the empty text, or what time.ParseDuration answers for it.
pub data Parsed : Type 0 where
  absent : Parsed
  malformed : Parsed
  parsed : ℤ → Parsed

unfoldable pub check_exec_timeout : ℤ → ℤ → Result ℤ
check_exec_timeout max timeout =
    if ltb_ℤ timeout (pos 0)
    then err (resource_limit "exec timeout cannot be negative")
    else if is_pos max && ltb_ℤ max timeout
    then err (resource_limit "exec timeout exceeds max exec timeout")
    else ok timeout

unfoldable pub resolve_exec_timeout :
    OperationalLimits → Dict OwnerQuotaRecord → Parsed → String → Result ℤ
unfolding check_exec_timeout
resolve_exec_timeout limits quotas absent owner =
    check_exec_timeout (owner_max_exec_timeout limits quotas owner) limits.default_exec_timeout
resolve_exec_timeout limits quotas malformed owner = err bad_duration
resolve_exec_timeout limits quotas (parsed timeout) owner =
    check_exec_timeout (owner_max_exec_timeout limits quotas owner) timeout

-- Some code point of the text passes the test.
unfoldable pub any_code : (ℕ → Bool) → String → Bool
any_code p String.[] = false
any_code p (String.◌∷◌ c s) = p (Prim.Native.Char.code c) || any_code p s

unfoldable pub is_separator : ℕ → Bool
is_separator c = c == 47 || c == 92

-- The white space and control characters that an owner id must not hold.
unfoldable pub is_control : ℕ → Bool
is_control c = leb c 31 || (c == 127 || (c == 32 || (c == 9 || (c == 10 || c == 13))))

-- `len` counts the bytes of the UTF-8.
unfoldable pub normalize_owner_id : String → Result String
unfolding any_code is_separator is_control
normalize_owner_id raw =
    let owner = trim_space raw in
    if is_empty owner
    then err (invalid_input "owner_id is required")
    else if ltb 128 (String.len owner)
    then err (invalid_input "owner_id must be 128 characters or fewer")
    else if any_code is_separator owner
    then err (invalid_input "owner_id cannot contain path separators")
    else if any_code is_control owner
    then err (invalid_input "owner_id cannot contain whitespace or control characters")
    else ok owner

unfoldable pub normalize_optional_owner_id : String → Result String
unfolding normalize_owner_id
normalize_optional_owner_id raw =
    let owner = trim_space raw in if is_empty owner then ok "" else normalize_owner_id owner

-- parseOptionalDurationSeconds, on a trimmed text and what time.ParseDuration answers for it.
pub parse_optional_duration_seconds : String → Option ℤ → Result ℕ
parse_optional_duration_seconds raw duration =
    let text = trim_space raw in
    if is_empty text || (str_eq text "0" || str_eq text "0s") then ok 0 else elim duration [
      | none ↦ err bad_duration
      | some (negsuc n) ↦ err (invalid_input "duration cannot be negative")
      | some (pos d) ↦
          if ltb 0 d && ltb d second
          then err (invalid_input "duration must be at least 1s")
          else if not (d % second == 0)
          then err (invalid_input "duration must use whole seconds")
          else ok (d / second)
    ]

-- The deadline of a command (Exec): context.WithTimeout, where the timeout is positive.
pub exec_deadline : ℕ → ℤ → Option ℕ
exec_deadline now timeout = if is_pos timeout then some (now + pos_part timeout) else none
