-- ===== src/Orchestrator/Admission/Decision/Laws.antt =====
-- When a spawn request is let in, and when it may wait (manager.go, evaluateSpawnAdmission).
use stacyvm.Base.{
  ℕ, String, ◌≡◌, refl, sym, ap, ◌∙◌, ◌≢◌, ◌⊎◌, inl, inr, true, false, some, List, arith, eq_iff, ℤ,
  pos, ◌≤ℤ◌, ◌<ℤ◌, is_pos,
}
use stacyvm.Store.Records.{SandboxRecord}
use stacyvm.Orchestrator.Placement.{
  WorkerPlacement, evaluate_worker_placement, remote_worker_selected,
}
use stacyvm.Orchestrator.Admission.Quota.{ok, owner_limit_overrides}
use stacyvm.Orchestrator.Admission.Decision.{
  Env, SpawnAdmissionDecision, can_use_remote_worker, count_active, count_owned, fresh_decision,
  place, check_counts, check_placement, evaluate_spawn_admission,
}

-- A limit that is not positive is switched off; a number within it stays below it.
abbrev pub Below : ℕ → ℤ → Type 0
Below n limit = (is_pos limit ≡ false) ⊎ (pos n <ℤ limit)

abbrev pub Reached : ℕ → ℤ → Type 0
Reached n limit = (is_pos limit ≡ true) × (limit ≤ℤ pos n)

-- What has to hold for a request to be let in.
pub record Admissible (env : Env) (owner : String) (ttl : ℤ) (placement : WorkerPlacement)
    (records : List SandboxRecord) : Type 0 where
  pub ttl_within :
      (is_pos (owner_limit_overrides env.limits env.quotas owner).0 ≡ false)
      ⊎ (ttl ≤ℤ (owner_limit_overrides env.limits env.quotas owner).0)
  pub placed : placement.selected_id ≢ ""
  pub reachable :
      (placement.selected_id ≡ env.own) ⊎ (can_use_remote_worker env placement.selected_id ≡ true)
  pub room : Below (count_active records) env.limits.max_sandboxes
  pub owner_room :
      (owner ≡ "")
      ⊎ Below (count_owned owner records) (owner_limit_overrides env.limits env.quotas owner).1

check_counts-allowed :
    (owner : String) (records : List SandboxRecord) (d : SpawnAdmissionDecision)
    → d.allowed ≡ true
    → (check_counts owner records d).allowed ≡ true
    → Below (count_active records) d.max_sandboxes
      × ((owner ≡ "") ⊎ Below (count_owned owner records) d.max_owner_sandboxes)
unfolding check_counts
check_counts-allowed owner records d a e = ground (arith, eq_iff owner "")

check_counts_complete :
    (owner : String) (records : List SandboxRecord) (d : SpawnAdmissionDecision)
    → d.allowed ≡ true
    → Below (count_active records) d.max_sandboxes
    → (owner ≡ "") ⊎ Below (count_owned owner records) d.max_owner_sandboxes
    → (check_counts owner records d).allowed ≡ true
unfolding check_counts
check_counts_complete owner records d a room owner_room = ground (arith, eq_iff owner "")

check_counts-queueable :
    (owner : String) (records : List SandboxRecord) (d : SpawnAdmissionDecision)
    → d.queueable ≡ false
    → (check_counts owner records d).queueable ≡ true
    → ((check_counts owner records d).allowed ≡ false)
      × (Reached (count_active records) d.max_sandboxes
          ⊎ Reached (count_owned owner records) d.max_owner_sandboxes)
unfolding check_counts
check_counts-queueable owner records d a e = ground arith

module _ (env : Env) (owner : String) (placement : WorkerPlacement)
    (records : List SandboxRecord) where
  abbrev start : SpawnAdmissionDecision
  start = place placement (fresh_decision env owner)

  abbrev counted_own : SpawnAdmissionDecision
  counted_own = check_counts owner records start

  abbrev counted_remote : SpawnAdmissionDecision
  counted_remote =
      check_counts owner records (record start { worker_reason = remote_worker_selected })

  -- What check_placement answers: the checks of the counts, where a worker can be used.
  check_placement_cases :
      let d = check_placement env owner placement records (fresh_decision env owner) in
      ((placement.selected_id ≡ "") × (d.allowed ≡ false) × (d.queueable ≡ false))
      ⊎ ((placement.selected_id ≢ "") × (placement.selected_id ≡ env.own) × (d ≡ counted_own))
      ⊎ ((placement.selected_id ≢ "")
          × (can_use_remote_worker env placement.selected_id ≡ true)
          × (d ≡ counted_remote))
      ⊎ ((placement.selected_id ≢ env.own)
          × (can_use_remote_worker env placement.selected_id ≡ false)
          × (d.allowed ≡ false)
          × (d.queueable ≡ false))
  unfolding check_placement
  check_placement_cases =
      ground (arith, eq_iff placement.selected_id "", eq_iff placement.selected_id env.own)

module _ (env : Env) (now : ℕ) (owner : String) (ttl : ℤ) (provider : String)
    (records : List SandboxRecord) (listed : env.sandboxes ≡ some records)
    (d : SpawnAdmissionDecision) where
  abbrev placement : WorkerPlacement
  placement = evaluate_worker_placement env.own now provider env.workers records

  abbrev limit : ℤ
  limit = (owner_limit_overrides env.limits env.quotas owner).0

  decided :
      evaluate_spawn_admission env now owner ttl provider ≡ ok d
      → ((is_pos limit ≡ true) × (limit <ℤ ttl) × (d.allowed ≡ false) × (d.queueable ≡ false))
        ⊎ (((is_pos limit ≡ false) ⊎ (ttl ≤ℤ limit))
            × (d ≡ check_placement env owner placement records (fresh_decision env owner)))
  unfolding evaluate_spawn_admission fresh_decision
  decided e = ground (arith, listed)

  -- A request is let in only if it is admissible: its TTL is within the owner's limit, a worker was
  -- selected that is the own one or can be called, and both counts of sandboxes are below their limits.
  pub allowed_sound :
      evaluate_spawn_admission env now owner ttl provider ≡ ok d
      → d.allowed ≡ true
      → Admissible env owner ttl placement records
  unfolding fresh_decision place
  allowed_sound e a = elim (decided e) [
    | inl (_, _, refused, _) ↦ absurd (ground arith)
    | inr (ttl_ok, checked) ↦ elim (check_placement_cases env owner placement records) [
      | inl (_, refused, _) ↦ absurd (ground (arith, checked))
      | inr (inl (some_id, here, counted)) ↦
          let room =
            check_counts-allowed owner records (start env owner placement records) refl
              (ap (λ (x : SpawnAdmissionDecision). x.allowed) (sym (checked ∙ counted)) ∙ a) in
          record {
            ttl_within = ttl_ok;
            placed = some_id;
            reachable = inl here;
            room = room.0;
            owner_room = room.1;
          }
      | inr (inr (inl (some_id, usable, counted))) ↦
          let room =
            check_counts-allowed owner records
              (record (start env owner placement records) {
                worker_reason = remote_worker_selected;
              })
              refl (ap (λ (x : SpawnAdmissionDecision). x.allowed) (sym (checked ∙ counted)) ∙ a) in
          record {
            ttl_within = ttl_ok;
            placed = some_id;
            reachable = inr usable;
            room = room.0;
            owner_room = room.1;
          }
      | inr (inr (inr (_, _, refused, _))) ↦ absurd (ground (arith, checked))
    ]
  ]

  -- Every admissible request is let in.
  pub allowed_complete :
      Admissible env owner ttl placement records
      → evaluate_spawn_admission env now owner ttl provider ≡ ok d
      → d.allowed ≡ true
  unfolding fresh_decision place
  allowed_complete admissible e = elim (decided e) [
    | inl (on, over, _, _) ↦ absurd (ground (arith, admissible.ttl_within))
    | inr (ttl_ok, checked) ↦ elim (check_placement_cases env owner placement records) [
      | inl (nobody, _, _) ↦ absurd (admissible.placed nobody)
      | inr (inl (some_id, here, counted)) ↦
          ap (λ (x : SpawnAdmissionDecision). x.allowed) (checked ∙ counted)
          ∙ check_counts_complete owner records (start env owner placement records) refl
              admissible.room admissible.owner_room
      | inr (inr (inl (some_id, usable, counted))) ↦
          ap (λ (x : SpawnAdmissionDecision). x.allowed) (checked ∙ counted)
          ∙ check_counts_complete owner records
              (record (start env owner placement records) {
                worker_reason = remote_worker_selected;
              })
              refl admissible.room admissible.owner_room
      | inr (inr (inr (elsewhere, unusable, _, _))) ↦ absurd (ground (arith, admissible.reachable))
    ]
  ]

  -- A request may wait only if it is not let in and a limit on the number of sandboxes has been
  -- reached: one that is over its TTL or has no worker is refused at once.
  pub queueable_only_full :
      evaluate_spawn_admission env now owner ttl provider ≡ ok d
      → d.queueable ≡ true
      → (d.allowed ≡ false)
        × (Reached (count_active records) env.limits.max_sandboxes
            ⊎ Reached
                (count_owned owner records)
                (owner_limit_overrides env.limits env.quotas owner).1)
  unfolding fresh_decision place
  queueable_only_full e q = elim (decided e) [
    | inl (_, _, _, never) ↦ absurd (ground arith)
    | inr (ttl_ok, checked) ↦ elim (check_placement_cases env owner placement records) [
      | inl (_, _, never) ↦ absurd (ground (arith, checked))
      | inr (inl (some_id, here, counted)) ↦ rw (checked ∙ counted) (
          check_counts-queueable owner records (start env owner placement records) refl
            (ap (λ (x : SpawnAdmissionDecision). x.queueable) (sym (checked ∙ counted)) ∙ q))
      | inr (inr (inl (some_id, usable, counted))) ↦ rw (checked ∙ counted) (
          check_counts-queueable owner records
            (record (start env owner placement records) { worker_reason = remote_worker_selected })
            refl (ap (λ (x : SpawnAdmissionDecision). x.queueable) (sym (checked ∙ counted)) ∙ q))
      | inr (inr (inr (_, _, _, never))) ↦ absurd (ground (arith, checked))
    ]
  ]
