-- ===== src/Orchestrator/Lifecycle/Spawn.antt =====
-- internal/orchestrator/manager.go: Spawn, from where the request is admitted (its provider, image,
-- sizes, time to live and owner resolved), on this worker, on a remote one, and in a pool of virtual
-- machines. What the database, the provider and the worker answer is an argument.
mod Cleanup
pub mod Outcome
use stacyvm.Base.{
  ℕ, zero, suc, ◌+◌, ◌-◌, ◌*◌, ◌/◌, ◌%◌, ◌^◌, ◌≤◌, ◌<◌, String, ◌≡◌, refl, sym, ap, subst, ◌∙◌, ◌≢◌,
  ◌↔◌, ◌⊎◌, inl, inr, Bool, true, false, not, ◌&&◌, ◌||◌, Option, none, some, List, [], ◌∷◌, ◌++◌,
  map, arith, eq_iff, eq_refl, ltb, leb, ◌==◌, if◌then◌else◌, ltb→lt, lt→ltb, leb→le, ==_iff,
  Bool-cases, Option-cases, length, get_elem?, set, get_or, take, drop, replicate, length-append,
  length-set, take-append-drop, length-take, length-drop, append_assoc_list, drop-set, ℤ, pos,
  negsuc, pos_part, neg_part, sub_ℕ, ◌+ℤ◌, ◌≤ℤ◌, ◌<ℤ◌, ltb_ℤ, leb_ℤ, is_pos, +ℤ_parts, str_eq,
  is_empty, codes, is_space, trim_space, fold, equal_fold, equal_fold_refl, Dict, lookup, insert,
  delete, lookup-insert, lookup-delete, length-insert, length-delete, length-insert_found,
}
use Prim.Native.String
use stacyvm.Store.Records.{SandboxRecord, LeaseRecord}
use stacyvm.Orchestrator.Events.{EventType}
use stacyvm.Orchestrator.VmPool.{
  VmPool, Claim, assigned, pool_full, spawning, claim, Acquired, vm, refused, err_vm_pool_full,
  spawn_failed, finish_acquire, release,
}
use stacyvm.Orchestrator.Admission.Quota.{
  ManagerError, Parsed, absent, malformed, parsed, bad_duration, resource_limit, operation_failed,
  Result, ok, err, normalize_optional_owner_id,
}
use stacyvm.Orchestrator.Lifecycle.Request.{Resolved, nonzero_or}
use stacyvm.Orchestrator.Lifecycle.{
  Sandbox, Settings, World, spawned, destroyed, executed, remote_spawned, state_running, record_of,
  get_provider_named, add_ttl, acquire_sandbox_lease_for, release_lease_of, create_row, note_call,
  publish, audit, failure_event, cache,
}

-- What the calls of a spawn answer: the ranges over the pool, the provider's id, whether the
-- database answers (for a new pool machine, then for the sandbox), whether the workspace is made, a
-- fresh id, and the remote worker's provider and runtime.
pub record Answers : Type 0 where
  pub order : List String
  pub provider_spawn : Result String
  pub vm_lease_up : Bool
  pub vm_create_up : Bool
  pub lease_up : Bool
  pub create_up : Bool
  pub exec_ok : Bool
  pub sandbox_id : String
  pub client_ok : Bool
  pub remote_spawn : Option (String × String)
  pub remote_preview : String

-- The sandbox that a spawn makes, under its id, on a machine and a worker.
unfoldable pub new_sandbox :
    Resolved → String → String → String → String → String → ℕ → String → Sandbox
new_sandbox r id tenant vm_id worker provider now preview = record {
  id = id;
  state = state_running;
  provider = provider;
  image = r.image;
  memory_mb = r.memory_mb;
  vcpus = r.vcpus;
  owner_id = r.owner_id;
  tenant_id = tenant;
  vm_id = vm_id;
  worker_id = worker;
  created_at = now;
  expires_at = add_ttl now r.ttl;
  metadata = r.metadata;
  preview_domain = preview;
}

-- What the spawning operations do at their end: the cache, the events and the audit.
unfoldable pub announce : Sandbox → World → World
announce sb w =
    audit sb.id true (
      publish EventType.sandbox_running sb.id
        (publish EventType.sandbox_created sb.id (cache sb w)))

-- The steps that Spawn and spawnDirect share: the provider's spawn, the lease and the row, each
-- undone by what follows where the next one fails.
unfoldable pub spawn_runtime :
    Settings → Resolved → String → Result String → Bool → Bool → ℕ → World → Result Sandbox × World
spawn_runtime s r tenant (err e) lease_up create_up now w = (err e, w)
spawn_runtime s r tenant (ok id) lease_up create_up now w =
    let sb = new_sandbox r id tenant "" s.worker_id r.provider now s.preview_domain in
    let leased =
      acquire_sandbox_lease_for lease_up id s.worker_id sb.expires_at now
        (note_call (spawned id) w) in
    elim leased.0 [
      | err e ↦ (err e, note_call (destroyed id) leased.1)
      | ok lease ↦
          let created = create_row create_up (record_of tenant now sb) leased.1 in
          if created.0 then (ok sb, created.1) else (
            err (operation_failed "persisting sandbox"),
            release_lease_of id s.worker_id (note_call (destroyed id) created.1),
          )
    ]

-- The event that Spawn publishes where it fails on this worker.
unfoldable pub local_failure : Result String → ManagerError → World → World
local_failure (err e) failure w = publish (failure_event e) "" w
local_failure (ok id) failure w = publish EventType.operation_failed id w

-- Spawn on this worker.
unfoldable pub spawn_local : Settings → Resolved → Answers → ℕ → World → Result Sandbox × World
spawn_local s r a now w =
    let made = spawn_runtime s r r.tenant_id a.provider_spawn a.lease_up a.create_up now w in
    elim made.0 [
      | err e ↦ (err e, local_failure a.provider_spawn e made.1)
      | ok sb ↦ (ok sb, announce sb made.1)
    ]

-- The request for a machine of the pool (vm_pool.go, Acquire).
unfoldable pub pool_request : Settings → VmPool → Resolved
pool_request s p = record {
  provider = "";
  image = if is_empty p.config.image then s.default_image else p.config.image;
  memory_mb = nonzero_or s.default_memory (pos p.config.memory_mb);
  vcpus = nonzero_or s.default_vcpus (pos p.config.vcpus);
  ttl = s.default_ttl;
  owner_id = "";
  tenant_id = "";
  metadata = [];
}

unfoldable pub spawn_direct : Settings → Resolved → Answers → ℕ → World → Result Sandbox × World
spawn_direct s r a now w = elim (get_provider_named s r.provider) [
  | err e ↦ (err e, w)
  | ok provider ↦
      let made =
        spawn_runtime s (record r { provider = provider }) "" a.provider_spawn a.vm_lease_up
          a.vm_create_up now w in
      elim made.0 [ err e ↦ (err e, made.1) | ok sb ↦ (ok sb, cache sb made.1) ]
]

-- What the pool is told of a spawn.
unfoldable pub spawned_vm : Result Sandbox → Option (String × String)
spawned_vm (err e) = none
spawned_vm (ok sb) = some (sb.id, sb.provider)

-- vmPoolMgr.Acquire, with spawnDirect as its spawn function.
unfoldable pub acquire_vm : Settings → Answers → ℕ → VmPool → World → Acquired × World
acquire_vm s a now p w =
    let claimed = claim a.order p in
    let made = spawn_direct s (pool_request s claimed.1) a now w in
    let fresh = finish_acquire spawning (spawned_vm made.0) now claimed.1 in
    let held = finish_acquire claimed.0 none now claimed.1 in
    let spawn_first : Acquired × World = (fresh.0, record made.1 { vm_pool = some fresh.1 }) in
    let at_once : Acquired × World = (held.0, record w { vm_pool = some held.1 }) in
    elim claimed.0 [ assigned id ↦ at_once | pool_full ↦ at_once | spawning ↦ spawn_first ]

-- vmPoolMgr.Release, whose answer the failure paths of spawnPooled ignore.
unfoldable pub give_back : String → World → World
give_back vm_id w = elim w.vm_pool [
  | none ↦ w
  | some p ↦ record w { vm_pool = some (release vm_id p).1 }
]

-- The part of spawnPooled that follows Acquire.
unfoldable pub settle_pooled :
    Settings → Resolved → Answers → ℕ → String → World → Result Sandbox × World
settle_pooled s r a now vm_id w =
    let id = a.sandbox_id in
    let sb = new_sandbox r id "" vm_id s.worker_id r.provider now s.preview_domain in
    let leased = acquire_sandbox_lease_for a.lease_up id s.worker_id sb.expires_at now w in
    elim leased.0 [
      | err e ↦ (err e, publish EventType.operation_failed id (give_back vm_id leased.1))
      | ok lease ↦
          let worked =
            note_call (executed vm_id (String.◌++◌ "mkdir -p /workspace/" id)) leased.1 in
          let created = create_row a.create_up (record_of "" now sb) worked in
          if not a.exec_ok
          then (
            err (operation_failed "creating workspace"),
            publish EventType.operation_failed id
                (release_lease_of id s.worker_id (give_back vm_id worked)),
          )
          else if created.0
          then (ok sb, announce sb created.1)
          else (
            err (operation_failed "persisting sandbox"),
            publish EventType.operation_failed id
                (release_lease_of id s.worker_id (give_back vm_id created.1)),
          )
    ]

unfoldable pub spawn_pooled :
    Settings → Resolved → Answers → ℕ → VmPool → World → Result Sandbox × World
spawn_pooled s r a now p w =
    let acquired = acquire_vm s a now p w in
    elim acquired.0 [
      | refused err_vm_pool_full ↦ (err (resource_limit "vm pool full"), acquired.1)
      | refused spawn_failed ↦ (err (operation_failed "pool acquire"), acquired.1)
      | vm vm_id ↦ settle_pooled s r a now vm_id acquired.1
    ]

unfoldable pub spawn_remote :
    Settings → Resolved → Answers → String → ℕ → World → Result Sandbox × World
spawn_remote s r a worker now w =
    let id = a.sandbox_id in
    let leased = acquire_sandbox_lease_for a.lease_up id worker (add_ttl now r.ttl) now w in
    if not a.client_ok then (err (operation_failed "remote worker RPC"), w) else elim leased.0 [
      | err e ↦ (err e, leased.1)
      | ok lease ↦ elim a.remote_spawn [
        | none ↦ (err (operation_failed "remote worker spawn"), release_lease_of id worker leased.1)
        | some (provider, runtime) ↦
            let sb =
              new_sandbox r id "" runtime worker
                (if is_empty provider then r.provider else provider) now a.remote_preview in
            let created =
              create_row a.create_up (record_of "" now sb)
                (note_call (remote_spawned worker runtime) leased.1) in
            if created.0 then (ok sb, announce sb created.1) else (
              err (operation_failed "persisting remote sandbox"),
              release_lease_of id worker created.1,
            )
      ]
    ]

-- A failure of spawnPooled or of spawnRemote is published by Spawn.
unfoldable pub publish_failure : Result Sandbox × World → Result Sandbox × World
publish_failure (ok sb, w) = (ok sb, w)
publish_failure (err e, w) = (err e, publish (failure_event e) "" w)

-- Spawn under the admission lock: in the pool where there is one, else on the selected worker.
unfoldable pub spawn : Settings → Resolved → Answers → String → ℕ → World → Result Sandbox × World
spawn s r a selected now w =
    let local = spawn_local s r a now w in
    let remote = publish_failure (spawn_remote s r a selected now w) in
    elim w.vm_pool [
      | some p ↦ publish_failure (spawn_pooled s r a now p w)
      | none ↦
          if not (is_empty selected) && not (str_eq selected s.worker_id) then remote else local
    ]
