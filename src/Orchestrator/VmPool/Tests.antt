-- ===== src/Orchestrator/VmPool/Tests.antt =====
-- The pool on concrete machines.
use stacyvm.Base.{◌≤◌, ◌<◌, ◌≡◌, refl, inl, true, none, some, [], ◌∷◌, lookup, insert}
use stacyvm.Orchestrator.VmPool.{
  VmPool, PoolConfig, claim, register, release, status, acquire, total_users, vm, refused,
  spawn_failed, new_vm_pool, find_slot, finish_acquire,
}
use stacyvm.Orchestrator.VmPool.Slots.{claim-spawning}
use stacyvm.Orchestrator.VmPool.Users.{
  World, Reach, here, next, start, claims, starts, registers, IsValid,
}
use stacyvm.Orchestrator.VmPool.Interleaving.{pool-Reach-IsValid}

abbrev config : PoolConfig
config = record { max_vms = 2; max_users_per_vm = 2; image = "alpine"; memory_mb = 512; vcpus = 1 }

abbrev empty_pool : VmPool
empty_pool = new_vm_pool config

abbrev one_user : VmPool
one_user = register "sb-1" "docker" 7 empty_pool

abbrev two_users : VmPool
two_users = (claim ("sb-1" ∷ []) one_user).1

acquire_spawns : acquire [] (some ("sb-1", "docker")) 7 empty_pool ≡ (vm "sb-1", one_user)
unfolding acquire claim register find_slot new_vm_pool finish_acquire
acquire_spawns = refl

acquire_fails : (acquire [] none 7 empty_pool).0 ≡ refused spawn_failed
unfolding acquire claim register find_slot new_vm_pool finish_acquire
acquire_fails = refl

status_of_two :
    status two_users ≡ record { vms = 1; max_vms = 2; total_users = 2; max_users_per_vm = 2 }
unfolding status claim register find_slot new_vm_pool lookup insert total_users
status_of_two = refl

claim-spawning_instance : (1 < 2) × ((claim ("sb-1" ∷ []) two_users).1 ≡ two_users) × (2 ≤ 2)
unfolding claim register find_slot new_vm_pool lookup insert
claim-spawning_instance =
    claim-spawning ("sb-1" ∷ []) two_users "sb-1"
      (record {
        vm_id = "sb-1";
        provider = "docker";
        image = "alpine";
        user_count = 2;
        max_users = 2;
        created_at = 7;
      })
      refl (inl refl) refl

abbrev one_World : World
one_World = record { pool = one_user; users = "sb-1" ∷ []; pending = 0 }

abbrev two_World : World
two_World = record { pool = two_users; users = "sb-1" ∷ "sb-1" ∷ []; pending = 0 }

one-Reach : Reach (start config) one_World
unfolding claim register find_slot new_vm_pool lookup
one-Reach = next (next here (starts [] refl refl)) (registers "sb-1" "docker" 7 refl refl)

two-Reach : Reach (start config) two_World
unfolding claim register find_slot new_vm_pool lookup insert
two-Reach = next one-Reach (claims ("sb-1" ∷ []) "sb-1" refl)

pool-Reach-IsValid_example : IsValid two_World
pool-Reach-IsValid_example = pool-Reach-IsValid config two_World two-Reach

released_twice : (release "sb-1" (release "sb-1" two_users).1).0 ≡ true
unfolding release claim register find_slot new_vm_pool lookup insert
released_twice = refl
