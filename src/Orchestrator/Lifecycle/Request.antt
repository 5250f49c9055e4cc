-- ===== src/Orchestrator/Lifecycle/Request.antt =====
-- internal/orchestrator/manager.go: what a spawn request asks for, with the manager's defaults filled
-- in (the first part of Spawn).
use stacyvm.Base.{String, ◌&&◌, if◌then◌else◌, ℤ, pos, leb_ℤ, is_empty, Dict}
use stacyvm.Orchestrator.Admission.Quota.{
  Parsed, absent, malformed, parsed, bad_duration, Result, ok, err, normalize_optional_owner_id,
}
use stacyvm.Orchestrator.Lifecycle.{Settings, get_provider_named}

pub record SpawnRequest : Type 0 where
  pub image : String
  pub provider : String
  pub memory_mb : ℤ
  pub vcpus : ℤ
  pub ttl : Parsed
  pub owner_id : String
  pub tenant_id : String
  pub metadata : Dict String

-- A request with the manager's defaults filled in.
pub record Resolved : Type 0 where
  pub provider : String
  pub image : String
  pub memory_mb : ℤ
  pub vcpus : ℤ
  pub ttl : ℤ
  pub owner_id : String
  pub tenant_id : String
  pub metadata : Dict String

unfoldable pub nonzero_or : ℤ → ℤ → ℤ
nonzero_or dflt n = if leb_ℤ n (pos 0) && leb_ℤ (pos 0) n then dflt else n

unfoldable pub resolve_ttl : ℤ → Parsed → Result ℤ
resolve_ttl dflt absent = ok dflt
resolve_ttl dflt malformed = err bad_duration
resolve_ttl dflt (parsed d) = ok d

unfoldable pub resolve_request : Settings → SpawnRequest → Result Resolved
unfolding nonzero_or
resolve_request s req = elim (get_provider_named s req.provider) [
  | err e ↦ err e
  | ok provider ↦ elim (resolve_ttl s.default_ttl req.ttl) [
    | err e ↦ err e
    | ok ttl ↦ elim (normalize_optional_owner_id req.owner_id) [
      | err e ↦ err e
      | ok owner ↦ ok (record {
        provider = provider;
        image = if is_empty req.image then s.default_image else req.image;
        memory_mb = nonzero_or s.default_memory req.memory_mb;
        vcpus = nonzero_or s.default_vcpus req.vcpus;
        ttl = ttl;
        owner_id = owner;
        tenant_id = req.tenant_id;
        metadata = req.metadata;
      })
    ]
  ]
]
