-- ===== src/Orchestrator/Admission/Quota/Laws.antt =====
-- Owner ids, durations and exec timeouts (manager.go).
use stacyvm.Base.{
  ℕ, ◌*◌, ◌≤◌, String, ◌≡◌, refl, sym, ap, ◌∙◌, ◌⊎◌, false, ◌||◌, Option, none, some, arith, ℤ, pos,
  ◌≤ℤ◌, is_pos, str_eq, is_empty, trim_space, Dict,
}
use Prim.Native.String
use stacyvm.Store.Records.{OwnerQuotaRecord}
use stacyvm.Orchestrator.Admission.Quota.{
  OperationalLimits, ok, second, owner_max_exec_timeout, Parsed, absent, malformed, parsed,
  check_exec_timeout, resolve_exec_timeout, any_code, is_separator, is_control, normalize_owner_id,
  parse_optional_duration_seconds, exec_deadline,
}
use stacyvm.Base.Trim.{trim_space_idem}

-- The timeout that a request asks for.
abbrev pub requested : OperationalLimits → Parsed → Option ℤ
requested limits absent = some limits.default_exec_timeout
requested limits malformed = none
requested limits (parsed timeout) = some timeout

check_exec_timeout-ok :
    (max timeout t : ℤ)
    → check_exec_timeout max timeout ≡ ok t
    → (t ≡ timeout) × (pos 0 ≤ℤ t) × ((is_pos max ≡ false) ⊎ (t ≤ℤ max))
unfolding check_exec_timeout
check_exec_timeout-ok max timeout t e = ground arith

-- An exec timeout that is resolved is the one asked for (or the default), is not negative, and is
-- within the owner's maximum where that is switched on.
pub resolve_exec_timeout-ok :
    (limits : OperationalLimits) (quotas : Dict OwnerQuotaRecord) (raw : Parsed) (owner : String)
    (t : ℤ)
    → resolve_exec_timeout limits quotas raw owner ≡ ok t
    → (requested limits raw ≡ some t)
      × (pos 0 ≤ℤ t)
      × ((is_pos (owner_max_exec_timeout limits quotas owner) ≡ false)
          ⊎ (t ≤ℤ owner_max_exec_timeout limits quotas owner))
unfolding resolve_exec_timeout
resolve_exec_timeout-ok limits quotas absent owner t e = ground (
  arith,
  check_exec_timeout-ok (owner_max_exec_timeout limits quotas owner) limits.default_exec_timeout t
      e,
)
resolve_exec_timeout-ok limits quotas malformed owner t e = absurd (ground arith)
resolve_exec_timeout-ok limits quotas (parsed timeout) owner t e =
    ground (arith, check_exec_timeout-ok (owner_max_exec_timeout limits quotas owner) timeout t e)

-- A request for a timeout of 0 is let through whatever the owner's maximum is, and then runs with no
-- deadline at all: the maximum exec timeout does not bound it.
pub zero_timeout_unbounded :
    (limits : OperationalLimits) (quotas : Dict OwnerQuotaRecord) (owner : String) (now : ℕ)
    → (resolve_exec_timeout limits quotas (parsed (pos 0)) owner ≡ ok (pos 0))
      × (exec_deadline now (pos 0) ≡ none)
unfolding resolve_exec_timeout check_exec_timeout exec_deadline
zero_timeout_unbounded limits quotas owner now = (ground arith, refl)

normalize_owner_id-ok :
    (raw owner : String)
    → normalize_owner_id raw ≡ ok owner
    → (owner ≡ trim_space raw)
      × (is_empty owner ≡ false)
      × (String.len owner ≤ 128)
      × (any_code is_separator owner ≡ false)
      × (any_code is_control owner ≡ false)
unfolding normalize_owner_id
normalize_owner_id-ok raw owner e = ground arith

-- An owner id that is accepted is trimmed, not empty, at most 128 bytes long, and holds no path
-- separator, white space or control character; accepting it again changes nothing.
pub normalize_owner_id_clean :
    (raw owner : String)
    → normalize_owner_id raw ≡ ok owner
    → (is_empty owner ≡ false)
      × (String.len owner ≤ 128)
      × (any_code is_separator owner ≡ false)
      × (any_code is_control owner ≡ false)
      × (normalize_owner_id owner ≡ ok owner)
unfolding normalize_owner_id
normalize_owner_id_clean raw owner e =
    let (same, some_text, short, one_part, clean) = normalize_owner_id-ok raw owner e in
    let trimmed : trim_space owner ≡ owner = ap trim_space same ∙ trim_space_idem raw ∙ sym same in
    (some_text, short, one_part, clean, rw trimmed (ground arith))

-- A duration that is accepted in whole seconds is exactly that many seconds.
pub parse_optional_duration_seconds_exact :
    (raw : String) (d n : ℕ)
    → (is_empty (trim_space raw) || (str_eq (trim_space raw) "0" || str_eq (trim_space raw) "0s"))
      ≡ false
    → parse_optional_duration_seconds raw (some (pos d)) ≡ ok n
    → n * second ≡ d
unfolding parse_optional_duration_seconds
parse_optional_duration_seconds_exact raw d n given e = ground arith
