-- ===== src/Orchestrator/Placement/Counts.antt =====
-- The counters of the scheduler (scheduler.go): what `activeByWorker` holds.
use stacyvm.Base.{
  ℕ, suc, ◌+◌, String, ◌≡◌, refl, inl, inr, ◌&&◌, none, some, List, [], ◌∷◌, arith, eq_iff,
  if◌then◌else◌, Bool-cases, str_eq, Dict, lookup, lookup-insert,
}
use stacyvm.Store.Records.{SandboxRecord}
use stacyvm.Orchestrator.Placement.{sandbox_worker, holds_place, bump, active_by_worker, count_at}

-- The sandboxes that hold a place and count for a worker.
unfoldable pub load : String → List SandboxRecord → String → ℕ
unfolding holds_place sandbox_worker
load own [] id = 0
load own (sb ∷ sandboxes) id =
    let rest = load own sandboxes id in
    if holds_place sb && str_eq (sandbox_worker own sb) id then suc rest else rest

count_at-bump :
    (k j : String) (m : Dict ℕ)
    → count_at j (bump k m) ≡ (if str_eq k j then suc (count_at j m) else count_at j m)
unfolding count_at bump
count_at-bump k j m =
    ground
      (arith, lookup-insert k j (elim (lookup k m) [ none ↦ 1 | some n ↦ n + 1 ]) m, eq_iff k j)

count_at-active :
    (own id : String) (counts : Dict ℕ) (sandboxes : List SandboxRecord)
    → count_at id (active_by_worker own counts sandboxes)
      ≡ count_at id counts + load own sandboxes id
unfolding active_by_worker load
count_at-active own id counts [] = omega arith
count_at-active own id counts (sb ∷ sandboxes) = elim (Bool-cases (holds_place sb)) [
  | inl e ↦
      rw (e, count_at-active own id (bump (sandbox_worker own sb) counts) sandboxes)
        (ground (arith, count_at-bump (sandbox_worker own sb) id counts))
  | inr e ↦ rw (e, count_at-active own id counts sandboxes)
]

count_at-nil : (id : String) → count_at id [] ≡ 0
unfolding count_at lookup
count_at-nil id = refl

pub count_at-load :
    (own id : String) (sandboxes : List SandboxRecord)
    → count_at id (active_by_worker own [] sandboxes) ≡ load own sandboxes id
count_at-load own id sandboxes = omega (arith, count_at-active own id [] sandboxes, count_at-nil id)
