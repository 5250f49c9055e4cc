-- ===== src/Orchestrator/VmPool/Occupancy.antt =====
-- The pool's counts when a sandbox takes a place (vm_pool.go, Acquire).
use stacyvm.Base.{
  ℕ, ◌+◌, ◌-◌, String, ◌≡◌, subst, ◌∙◌, inl, inr, none, some, List, [], ◌∷◌, arith, eq_iff,
  if◌then◌else◌, Bool-cases, str_eq, Dict, lookup, insert, delete, lookup-insert, lookup-delete,
  length-insert, length-insert_found,
}
use stacyvm.Orchestrator.VmPool.{VmSlot, assigned, claim, register}
use stacyvm.Orchestrator.VmPool.Slots.{claim-assigned}
use stacyvm.Orchestrator.VmPool.Users.{World, count, leave, count_in_pool, SlotOk, IsValid}

pub count_in_pool_found :
    (k : String) (slot : VmSlot) (vms : Dict VmSlot)
    → lookup k vms ≡ some slot
    → count_in_pool k vms ≡ slot.user_count
unfolding count_in_pool
count_in_pool_found k slot vms e = ground arith

pub count_in_pool_missing :
    (k : String) (vms : Dict VmSlot) → lookup k vms ≡ none → count_in_pool k vms ≡ 0
unfolding count_in_pool
count_in_pool_missing k vms e = ground arith

pub leave-count :
    (k j : String) (us : List String)
    → count j (leave k us) ≡ (if str_eq k j then count j us - 1 else count j us)
unfolding count leave
leave-count k j [] = ground arith
leave-count k j (u ∷ us) = ground (arith, eq_iff u k, eq_iff u j, eq_iff k j, leave-count k j us)

pub SlotOk-insert :
    (cap : ℕ) (k j : String) (slot : VmSlot) (vms : Dict VmSlot)
    → SlotOk cap k (some slot)
    → SlotOk cap j (lookup j vms)
    → SlotOk cap j (lookup j (insert k slot vms))
SlotOk-insert cap k j slot vms new old = elim (Bool-cases (str_eq k j)) [
  | inl e ↦ rw (lookup-insert, e) (subst (λ i. SlotOk cap i (some slot)) ((eq_iff k j).0 e) new)
  | inr e ↦ rw (lookup-insert, e) old
]

pub SlotOk-delete :
    (cap : ℕ) (k j : String) (vms : Dict VmSlot)
    → SlotOk cap j (lookup j vms)
    → SlotOk cap j (lookup j (delete k vms))
SlotOk-delete cap k j vms old = elim (Bool-cases (str_eq k j)) [
  | inl e ↦ rw (lookup-delete, e) tt
  | inr e ↦ rw (lookup-delete, e) old
]

pub count_in_pool-insert :
    (k j : String) (slot : VmSlot) (vms : Dict VmSlot)
    → count_in_pool j (insert k slot vms)
      ≡ (if str_eq k j then slot.user_count else count_in_pool j vms)
unfolding count_in_pool
count_in_pool-insert k j slot vms = ground (arith, lookup-insert k j slot vms)

pub count_in_pool-delete :
    (k j : String) (vms : Dict VmSlot)
    → count_in_pool j (delete k vms) ≡ (if str_eq k j then 0 else count_in_pool j vms)
unfolding count_in_pool
count_in_pool-delete k j vms = ground (arith, lookup-delete k j vms)

pub claims-IsValid :
    (w : World) (order : List String) (id : String)
    → (claim order w.pool).0 ≡ assigned id
    → IsValid w
    → IsValid (record w { pool = (claim order w.pool).1; users = id ∷ w.users })
unfolding count
claims-IsValid w order id e v =
    let (k, slot, held, free, named, moved) = claim-assigned order w.pool id e in
    let cap = w.pool.config.max_users_per_vm in
    let ok : SlotOk cap k (some slot) = subst (SlotOk cap k) held (v.slots k) in
    let bumped = record slot { user_count = slot.user_count + 1 } in
    let same : id ≡ k = named ∙ ok.0 in
    rw moved (record {
      slots = λ j. SlotOk-insert cap k j bumped w.pool.vms (ground arith) (v.slots j);
      counted = λ j.
          rw (count_in_pool-insert k j bumped w.pool.vms, same)
            (ground (arith, v.counted j, eq_iff k j, count_in_pool_found k slot w.pool.vms held));
      room = omega (arith, length-insert_found k bumped slot w.pool.vms held, v.room);
      serial = v.serial;
    })

pub registers-IsValid :
    (w : World) (id provider : String) (now : ℕ)
    → w.pending ≡ 1
    → lookup id w.pool.vms ≡ none
    → IsValid w
    → IsValid
        (record w { pool = register id provider now w.pool; users = id ∷ w.users; pending = 0 })
unfolding count register
registers-IsValid w id provider now one fresh v = record {
  slots = λ j. SlotOk-insert _ id j _ w.pool.vms (ground arith) (v.slots j);
  counted = λ j.
      rw (count_in_pool-insert id j _ w.pool.vms)
        (ground (arith, v.counted j, eq_iff id j, count_in_pool_missing id w.pool.vms fresh));
  room = omega (
    arith,
    length-insert id
        (record {
          vm_id = id;
          provider = provider;
          image = w.pool.config.image;
          user_count = 1;
          max_users = w.pool.config.max_users_per_vm;
          created_at = now;
        })
        w.pool.vms,
    v.room,
  );
  serial = omega arith;
}
