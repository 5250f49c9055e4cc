-- ===== src/Orchestrator/VmPool/Users.antt =====
-- The pool against the sandboxes that use it (vm_pool.go): every interleaving of the two halves of
-- `Acquire` and of `Release` keeps the counts right, so a machine is given up exactly when its last
-- user leaves. The manager calls `Acquire` under admissionMu (manager.go, Spawn), so that one
-- machine at most is being spawned.
use stacyvm.Base.{
  ℕ, suc, ◌+◌, ◌≤◌, ◌<◌, String, ◌≡◌, Option, none, some, List, [], ◌∷◌, if◌then◌else◌, length,
  str_eq, Dict, lookup,
}
use stacyvm.Orchestrator.VmPool.{
  VmSlot, VmPool, PoolConfig, assigned, pool_full, spawning, claim, register, release, new_vm_pool,
}

-- The pool, one entry for each sandbox that has a place (the machine it is on), and the number of
-- machines being spawned.
pub record World : Type 0 where
  pub pool : VmPool
  pub users : List String
  pub pending : ℕ

unfoldable pub count : String → List String → ℕ
count k [] = 0
count k (u ∷ us) = let rest = count k us in if str_eq u k then suc rest else rest

unfoldable pub leave : String → List String → List String
leave k [] = []
leave k (u ∷ us) = if str_eq u k then us else u ∷ leave k us

unfoldable pub count_in_pool : String → Dict VmSlot → ℕ
count_in_pool k vms = elim (lookup k vms) [ none ↦ 0 | some slot ↦ slot.user_count ]

-- What the machine that a claim assigns does to the list of users.
pub data Step (w : World) : World → Type 0 where
  claims :
      (order : List String) (id : String)
      → (claim order w.pool).0 ≡ assigned id
      → Step w (record w { pool = (claim order w.pool).1; users = id ∷ w.users })
  starts :
      (order : List String)
      → (claim order w.pool).0 ≡ spawning
      → w.pending ≡ 0
      → Step w (record w { pool = (claim order w.pool).1; pending = 1 })
  refuses :
      (order : List String)
      → (claim order w.pool).0 ≡ pool_full
      → Step w (record w { pool = (claim order w.pool).1 })
  registers :
      (id provider : String) (now : ℕ)
      → w.pending ≡ 1
      → lookup id w.pool.vms ≡ none
      → Step w
          (record w { pool = register id provider now w.pool; users = id ∷ w.users; pending = 0 })
  fails : w.pending ≡ 1 → Step w (record w { pending = 0 })
  releases :
      (id : String)
      → 0 < count id w.users
      → Step w (record w { pool = (release id w.pool).1; users = leave id w.users })

pub data Reach (s : World) : World → Type 0 where
  here : Reach s s
  next : {t u : World} → Reach s t → Step t u → Reach s u

abbrev pub start : PoolConfig → World
start cfg = record { pool = new_vm_pool cfg; users = []; pending = 0 }

abbrev pub SlotOk : ℕ → String → Option VmSlot → Type 0
SlotOk cap k none = Unit
SlotOk cap k (some slot) =
    (slot.vm_id ≡ k)
    × (slot.max_users ≡ cap)
    × (1 ≤ slot.user_count)
    × (slot.user_count ≤ cap + 1)
    × (1 ≤ cap → slot.user_count ≤ cap)

pub record IsValid (w : World) : Type 0 where
  pub slots : (k : String) → SlotOk w.pool.config.max_users_per_vm k (lookup k w.pool.vms)
  pub counted : (k : String) → count k w.users ≡ count_in_pool k w.pool.vms
  pub room : length w.pool.vms + w.pending ≤ w.pool.config.max_vms
  pub serial : w.pending ≤ 1
