-- ===== src/Orchestrator/VmPool/Slots.antt =====
-- The slots of the pool (vm_pool.go): which machine a claim takes.
use stacyvm.Base.{
  ◌+◌, ◌≤◌, ◌<◌, String, ◌≡◌, ◌⊎◌, inl, inr, none, some, List, [], ◌∷◌, arith, Option-cases, length,
  Dict, lookup, insert,
}
use stacyvm.Orchestrator.VmPool.{VmSlot, VmPool, assigned, pool_full, spawning, find_slot, claim}

-- A slot that is found is one of the pool's and has a free place.
pub find_slot-found :
    (order : List String) (vms : Dict VmSlot) (k : String) (slot : VmSlot)
    → find_slot order vms ≡ some (k, slot)
    → (lookup k vms ≡ some slot) × (slot.user_count < slot.max_users)
unfolding find_slot
find_slot-found [] vms k slot e = cc
find_slot-found (j ∷ order) vms k slot e = ground (arith, find_slot-found order vms k slot)

abbrev pub Listed : String → List String → Type 0
Listed k [] = ⊥
Listed k (j ∷ order) = (k ≡ j) ⊎ Listed k order

-- Where none is found, every machine that was visited is full.
pub find_slot-full :
    (order : List String) (vms : Dict VmSlot) (k : String) (slot : VmSlot)
    → find_slot order vms ≡ none
    → Listed k order
    → lookup k vms ≡ some slot
    → slot.max_users ≤ slot.user_count
unfolding find_slot
find_slot-full [] vms k slot e l s = absurd l
find_slot-full (j ∷ order) vms k slot e (inl here) s = ground arith
find_slot-full (j ∷ order) vms k slot e (inr later) s =
    ground (arith, find_slot-full order vms k slot)

-- A new machine is spawned only if there are fewer machines than the limit and each machine that
-- the search visits is full; the pool is left as it was.
pub claim-spawning :
    (order : List String) (p : VmPool) (k : String) (slot : VmSlot)
    → (claim order p).0 ≡ spawning
    → Listed k order
    → lookup k p.vms ≡ some slot
    → (length p.vms < p.config.max_vms)
      × ((claim order p).1 ≡ p)
      × (slot.max_users ≤ slot.user_count)
unfolding claim
claim-spawning order p k slot e l s = elim (Option-cases (find_slot order p.vms)) [
  | inl f ↦ (ground arith, ground arith, find_slot-full order p.vms k slot f l s)
  | inr (hit, f) ↦ absurd (ground arith)
]

-- What a claim does where it assigns a machine: one more user on a machine that had a free place.
pub claim-assigned :
    (order : List String) (p : VmPool) (id : String)
    → (claim order p).0 ≡ assigned id
    → (k : String) × (slot : VmSlot) × (lookup k p.vms ≡ some slot)
      × (slot.user_count < slot.max_users)
      × (id ≡ slot.vm_id)
      × ((claim order p).1
          ≡ record p { vms = insert k (record slot { user_count = slot.user_count + 1 }) p.vms })
unfolding claim
claim-assigned order p id e = elim (Option-cases (find_slot order p.vms)) [
  | inl f ↦ absurd (ground arith)
  | inr ((k, slot), f) ↦
      let (held, free) = find_slot-found order p.vms k slot f in
      (k, slot, held, free, ground arith, ground arith)
]

pub claim_unassigned :
    (order : List String) (p : VmPool)
    → ((claim order p).0 ≡ spawning) ⊎ ((claim order p).0 ≡ pool_full)
    → (claim order p).1 ≡ p
unfolding claim
claim_unassigned order p e = ground arith

pub claim_spawning-room :
    (order : List String) (p : VmPool)
    → (claim order p).0 ≡ spawning
    → length p.vms < p.config.max_vms
unfolding claim
claim_spawning-room order p e = ground arith
