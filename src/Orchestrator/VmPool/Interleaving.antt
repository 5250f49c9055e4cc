-- ===== src/Orchestrator/VmPool/Interleaving.antt =====
-- The pool's counts under every interleaving of `Acquire` and `Release` (vm_pool.go).
use stacyvm.Base.{
  ℕ, ◌+◌, ◌-◌, ◌≤◌, ◌<◌, String, ◌≡◌, refl, subst, ◌∙◌, inl, inr, true, false, some, arith, eq_iff,
  leb, if◌then◌else◌, Bool-cases, Option-cases, length, lookup, insert, delete, length-delete,
  length-insert_found,
}
use stacyvm.Orchestrator.VmPool.{VmSlot, VmPool, PoolConfig, release, new_vm_pool}
use stacyvm.Orchestrator.VmPool.Slots.{claim_unassigned, claim_spawning-room}
use stacyvm.Orchestrator.VmPool.Users.{
  World, count, leave, count_in_pool, Step, claims, starts, refuses, registers, fails, releases,
  Reach, here, next, start, SlotOk, IsValid,
}
use stacyvm.Orchestrator.VmPool.Occupancy.{
  count_in_pool_found, count_in_pool_missing, leave-count, SlotOk-insert, SlotOk-delete,
  count_in_pool-insert, count_in_pool-delete, claims-IsValid, registers-IsValid,
}

-- What `Release` does to a machine that the pool has.
pub release-held :
    (id : String) (p : VmPool) (slot : VmSlot)
    → lookup id p.vms ≡ some slot
    → release id p ≡ (
        if leb slot.user_count 1 then (true, record p { vms = delete id p.vms }) else (
          false,
          record p { vms = insert id (record slot { user_count = slot.user_count - 1 }) p.vms },
        ))
unfolding release
release-held id p slot e = rw (e, release)

count-held :
    (w : World) (id : String)
    → IsValid w
    → 0 < count id w.users
    → (slot : VmSlot) × (lookup id w.pool.vms ≡ some slot) × (count id w.users ≡ slot.user_count)
count-held w id v some_user = elim (Option-cases (lookup id w.pool.vms)) [
  | inl e ↦ absurd (omega (arith, v.counted id, count_in_pool_missing id w.pool.vms e))
  | inr (slot, e) ↦ (slot, e, v.counted id ∙ count_in_pool_found id slot w.pool.vms e)
]

releases-IsValid :
    (w : World) (id : String)
    → 0 < count id w.users
    → IsValid w
    → IsValid (record w { pool = (release id w.pool).1; users = leave id w.users })
releases-IsValid w id some_user v =
    let (slot, held, same) = count-held w id v some_user in
    let cap = w.pool.config.max_users_per_vm in
    let ok : SlotOk cap id (some slot) = subst (SlotOk cap id) held (v.slots id) in
    let fewer = record slot { user_count = slot.user_count - 1 } in
    elim (Bool-cases (leb slot.user_count 1)) [
      | inl last ↦
          rw (release-held id w.pool slot held, last)
            (record {
              slots = λ j. SlotOk-delete cap id j w.pool.vms (v.slots j);
              counted = λ j.
                  rw (count_in_pool-delete id j w.pool.vms, leave-count id j w.users)
                    (ground (arith, v.counted j, eq_iff id j));
              room = omega (arith, length-delete id w.pool.vms, v.room);
              serial = v.serial;
            })
      | inr more ↦
          rw (release-held id w.pool slot held, more)
            (record {
              slots = λ j. SlotOk-insert cap id j fewer w.pool.vms (ground arith) (v.slots j);
              counted = λ j.
                  rw (count_in_pool-insert id j fewer w.pool.vms, leave-count id j w.users)
                    (ground (arith, v.counted j, eq_iff id j));
              room = omega (arith, length-insert_found id fewer slot w.pool.vms held, v.room);
              serial = v.serial;
            })
    ]

unmoved-IsValid :
    (w : World) (p : VmPool) (n : ℕ)
    → p ≡ w.pool
    → n ≤ 1
    → length w.pool.vms + n ≤ w.pool.config.max_vms
    → IsValid w
    → IsValid (record w { pool = p; pending = n })
unmoved-IsValid w p n same few fits v =
    rw same (record { slots = v.slots; counted = v.counted; room = fits; serial = few })

-- Every interleaved step keeps the pool valid.
pub Step-IsValid : {w u : World} → Step w u → IsValid w → IsValid u
Step-IsValid {w} (claims order id e) v = claims-IsValid w order id e v
Step-IsValid {w} (starts order e idle) v =
    let room = claim_spawning-room order w.pool e in
    unmoved-IsValid w _ 1 (claim_unassigned order w.pool (inl e)) (omega arith) (omega arith) v
Step-IsValid {w} (refuses order e) v =
    unmoved-IsValid w _ w.pending (claim_unassigned order w.pool (inr e)) v.serial v.room v
Step-IsValid {w} (registers id provider now one fresh) v =
    registers-IsValid w id provider now one fresh v
Step-IsValid {w} (fails one) v =
    unmoved-IsValid w w.pool 0 refl (omega arith) (omega (arith, v.room)) v
Step-IsValid {w} (releases id some_user) v = releases-IsValid w id some_user v

start-IsValid : (cfg : PoolConfig) → IsValid (start cfg)
unfolding new_vm_pool count count_in_pool lookup
start-IsValid cfg = record {
  slots = λ k. tt;
  counted = λ k. refl;
  room = omega arith;
  serial = omega arith;
}

Reach-keeps : {s w : World} → IsValid s → Reach s w → IsValid w
Reach-keeps v here = v
Reach-keeps v (next r st) = Step-IsValid st (Reach-keeps v r)

-- From the empty pool, however the halves of `Acquire` and the calls of `Release` are interleaved
-- (with one machine at most being spawned, under ids that the pool does not have): each machine's
-- user count is the number of sandboxes that hold a place on it, it is at least 1 and at most the
-- configured number of users (if that is not 0), and there are no more machines than the limit.
pub pool-Reach-IsValid : (cfg : PoolConfig) (w : World) → Reach (start cfg) w → IsValid w
pool-Reach-IsValid cfg w r = Reach-keeps (start-IsValid cfg) r
