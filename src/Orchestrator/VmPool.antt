-- ===== src/Orchestrator/VmPool.antt =====
-- internal/orchestrator/vm_pool.go: virtual machines that several sandboxes share. Each method is
-- one step under the pool's mutex, but for `Acquire`, which lets go of it to spawn a machine: it is
-- `claim` before, and `register` after. Counts and limits that the source tests by `<`, `>=` or
-- `<= 0` alone are natural numbers, 0 standing for what is negative.
mod Slots
mod Users
mod Occupancy
mod Interleaving
mod Tests
use stacyvm.Base.{
  ℕ, ◌+◌, ◌-◌, String, Bool, true, false, Option, none, some, List, [], ◌∷◌, ltb, leb,
  if◌then◌else◌, length, Dict, lookup, insert, delete,
}

pub record VmSlot : Type 0 where
  pub vm_id : String
  pub provider : String
  pub image : String
  pub user_count : ℕ
  pub max_users : ℕ
  pub created_at : ℕ

-- The fields of config.PoolConfig that the pool reads.
pub record PoolConfig : Type 0 where
  pub max_vms : ℕ
  pub max_users_per_vm : ℕ
  pub image : String
  pub memory_mb : ℕ
  pub vcpus : ℕ

pub record VmPool : Type 0 where
  pub vms : Dict VmSlot
  pub config : PoolConfig

unfoldable pub new_vm_pool : PoolConfig → VmPool
new_vm_pool cfg = record { vms = []; config = cfg }

-- The first machine with a free place, in the order in which the range statement visits them.
unfoldable pub find_slot : List String → Dict VmSlot → Option (String × VmSlot)
find_slot [] vms = none
find_slot (k ∷ order) vms =
    let rest = find_slot order vms in
    elim (lookup k vms) [
      | none ↦ rest
      | some slot ↦ if ltb slot.user_count slot.max_users then some (k, slot) else rest
    ]

pub data Claim : Type 0 where
  assigned : String → Claim
  pool_full : Claim
  spawning : Claim

-- `Acquire` up to the point where it lets go of the mutex.
unfoldable pub claim : List String → VmPool → Claim × VmPool
claim order p = elim (find_slot order p.vms) [
  | some (k, slot) ↦ (
    assigned slot.vm_id,
    record p { vms = insert k (record slot { user_count = slot.user_count + 1 }) p.vms },
  )
  | none ↦ (if leb p.config.max_vms (length p.vms) then pool_full else spawning, p)
]

-- `Acquire` from where it has spawned the machine `id`.
unfoldable pub register : String → String → ℕ → VmPool → VmPool
register id provider now p = record p {
  vms =
      insert id
        (record {
          vm_id = id;
          provider = provider;
          image = p.config.image;
          user_count = 1;
          max_users = p.config.max_users_per_vm;
          created_at = now;
        })
        p.vms;
}

pub data AcquireError : Type 0 where
  err_vm_pool_full : AcquireError
  spawn_failed : AcquireError

pub data Acquired : Type 0 where
  vm : String → Acquired
  refused : AcquireError → Acquired

-- What the spawn function answers: the id and the provider of a new sandbox, or an error.
abbrev pub Spawned : Type 0
Spawned = Option (String × String)

-- `Acquire` after its first half, where no other call comes between the two.
unfoldable pub finish_acquire : Claim → Spawned → ℕ → VmPool → Acquired × VmPool
finish_acquire (assigned id) spawn now p = (vm id, p)
finish_acquire pool_full spawn now p = (refused err_vm_pool_full, p)
finish_acquire spawning none now p = (refused spawn_failed, p)
finish_acquire spawning (some (id, provider)) now p = (vm id, register id provider now p)

pub acquire : List String → Spawned → ℕ → VmPool → Acquired × VmPool
acquire order spawn now p =
    let claimed = claim order p in finish_acquire claimed.0 spawn now claimed.1

-- True where the machine has no user left, and is the caller's to destroy.
unfoldable pub release : String → VmPool → Bool × VmPool
release id p = elim (lookup id p.vms) [
  | none ↦ (false, p)
  | some slot ↦ if leb slot.user_count 1 then (true, record p { vms = delete id p.vms }) else (
    false,
    record p { vms = insert id (record slot { user_count = slot.user_count - 1 }) p.vms },
  )
]

pub record VmPoolStatus : Type 0 where
  pub vms : ℕ
  pub max_vms : ℕ
  pub total_users : ℕ
  pub max_users_per_vm : ℕ

pub total_users : Dict VmSlot → ℕ
total_users [] = 0
total_users ((k, slot) ∷ vms) = slot.user_count + total_users vms

pub status : VmPool → VmPoolStatus
status p = record {
  vms = length p.vms;
  max_vms = p.config.max_vms;
  total_users = total_users p.vms;
  max_users_per_vm = p.config.max_users_per_vm;
}
