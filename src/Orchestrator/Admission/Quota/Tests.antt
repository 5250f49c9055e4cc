-- ===== src/Orchestrator/Admission/Quota/Tests.antt =====
-- Runs of the quota functions, and the theorems about them at concrete inputs.
use stacyvm.Base.{
  ◌*◌, ◌≤◌, ◌≡◌, refl, ◌⊎◌, false, none, some, [], pos, ◌≤ℤ◌, is_pos, is_empty, trim_space, lookup,
}
use Prim.Native.String
use stacyvm.Orchestrator.Admission.Quota.{
  OperationalLimits, ok, err, invalid_input, second, owner_max_exec_timeout, parsed,
  resolve_exec_timeout, any_code, is_separator, is_control, normalize_owner_id,
  parse_optional_duration_seconds, exec_deadline, check_exec_timeout, quota_of,
}
use stacyvm.Orchestrator.Admission.Quota.Laws.{
  requested, resolve_exec_timeout-ok, zero_timeout_unbounded, normalize_owner_id_clean,
  parse_optional_duration_seconds_exact,
}

abbrev limits : OperationalLimits
limits = record {
  max_sandboxes = pos 2;
  max_sandboxes_per_owner = pos 1;
  default_exec_timeout = pos 10;
  max_exec_timeout = pos 20;
  max_ttl = pos 100;
  spawn_overflow = "queue";
  spawn_queue_timeout = pos 30;
  max_spawn_queue = pos 2;
}

owner_id_test :
    normalize_owner_id "a/b" ≡ err (invalid_input "owner_id cannot contain path separators")
unfolding normalize_owner_id trim_space
owner_id_test = refl

resolve_exec_timeout-ok_instance :
    (requested limits (parsed (pos 15)) ≡ some (pos 15))
    × (pos 0 ≤ℤ pos 15)
    × ((is_pos (owner_max_exec_timeout limits [] "alice") ≡ false)
        ⊎ (pos 15 ≤ℤ owner_max_exec_timeout limits [] "alice"))
unfolding resolve_exec_timeout owner_max_exec_timeout check_exec_timeout quota_of lookup
resolve_exec_timeout-ok_instance =
    resolve_exec_timeout-ok limits [] (parsed (pos 15)) "alice" (pos 15) refl

zero_timeout_unbounded_instance :
    (resolve_exec_timeout limits [] (parsed (pos 0)) "alice" ≡ ok (pos 0))
    × (exec_deadline 5 (pos 0) ≡ none)
zero_timeout_unbounded_instance = zero_timeout_unbounded limits [] "alice" 5

normalize_owner_id_clean_instance :
    (is_empty "alice" ≡ false)
    × (String.len "alice" ≤ 128)
    × (any_code is_separator "alice" ≡ false)
    × (any_code is_control "alice" ≡ false)
    × (normalize_owner_id "alice" ≡ ok "alice")
unfolding normalize_owner_id trim_space
normalize_owner_id_clean_instance = normalize_owner_id_clean " alice " "alice" refl

ninety_seconds : 90 * second ≡ 90000000000
unfolding parse_optional_duration_seconds trim_space
ninety_seconds = parse_optional_duration_seconds_exact "1m30s" 90000000000 90 refl refl
