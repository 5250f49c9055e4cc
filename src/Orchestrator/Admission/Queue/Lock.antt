-- ===== src/Orchestrator/Admission/Queue/Lock.antt =====
-- The admission lock (manager.go, acquireSpawnAdmission).
use stacyvm.Base.{
  ◌≡◌, refl, ◌≢◌, ◌↔◌, ◌⊎◌, inl, inr, true, false, not, ◌||◌, some, List, [], ◌∷◌, arith,
  Bool-cases,
}
use stacyvm.Orchestrator.Admission.Quota.{OperationalLimits, Result, ok, err}
use stacyvm.Orchestrator.Admission.Decision.{SpawnAdmissionDecision, queues, spawn_admission_error}
use stacyvm.Orchestrator.Admission.Queue.{Locked, acquire_spawn_admission}

-- Some round of the list is let in under the lock.
abbrev pub SomeAllowed : List (Result (Unit {0}) × Result SpawnAdmissionDecision) → Type 0
SomeAllowed [] = ⊥
SomeAllowed ((err e, decision) ∷ rounds) = SomeAllowed rounds
SomeAllowed ((ok u, err e) ∷ rounds) = SomeAllowed rounds
SomeAllowed ((ok u, ok d) ∷ rounds) = (d.allowed ≡ true) ⊎ SomeAllowed rounds

-- When acquireSpawnAdmission returns, the lock is held exactly if it reports success, and it reports
-- success only where a decision made under the lock lets the request in.
pub acquire_spawn_admission-held :
    (limits : OperationalLimits) (rounds : List (Result (Unit {0}) × Result SpawnAdmissionDecision))
    (r : Locked)
    → acquire_spawn_admission limits rounds ≡ some r
    → ((r.result ≡ ok tt) × (r.held ≡ true) × SomeAllowed rounds)
      ⊎ ((r.result ≢ ok tt) × (r.held ≡ false))
unfolding acquire_spawn_admission
acquire_spawn_admission-held limits [] r e = absurd (ground arith)
acquire_spawn_admission-held limits ((err e', decision) ∷ rounds) r e =
    inr (ground arith, ground arith)
acquire_spawn_admission-held limits ((ok u, err e') ∷ rounds) r e = inr (ground arith, ground arith)
acquire_spawn_admission-held limits ((ok u, ok d) ∷ rounds) r e =
    ground (arith, acquire_spawn_admission-held limits rounds r)

-- Where some round is let in under the lock, the call returns, and holds the lock exactly where it
-- succeeds.
pub acquire_spawn_admission-returns :
    (limits : OperationalLimits) (rounds : List (Result (Unit {0}) × Result SpawnAdmissionDecision))
    → SomeAllowed rounds
    → (r : Locked) × (acquire_spawn_admission limits rounds ≡ some r)
      × ((r.result ≡ ok tt) ↔ (r.held ≡ true))
unfolding acquire_spawn_admission
acquire_spawn_admission-returns limits [] s = absurd s
acquire_spawn_admission-returns limits ((err e, decision) ∷ rounds) s = (
  record { result = err e; held = false },
  refl,
  (λ p. absurd (ground arith), λ p. absurd (ground arith)),
)
acquire_spawn_admission-returns limits ((ok u, err e) ∷ rounds) s = (
  record { result = err e; held = false },
  refl,
  (λ p. absurd (ground arith), λ p. absurd (ground arith)),
)
acquire_spawn_admission-returns limits ((ok u, ok d) ∷ rounds) (inl a) =
    (record { result = ok tt; held = true }, rw (a) refl, (λ p. refl, λ p. refl))
acquire_spawn_admission-returns limits ((ok u, ok d) ∷ rounds) (inr s) =
    let (r, e, agrees) = acquire_spawn_admission-returns limits rounds s in
    elim (Bool-cases d.allowed) [
      | inl a ↦ (record { result = ok tt; held = true }, rw (a) refl, (λ p. refl, λ p. refl))
      | inr a ↦ elim (Bool-cases (not d.queueable || not (queues limits))) [
        | inl q ↦ (
          record { result = err (spawn_admission_error d); held = false },
          rw (a, q) refl,
          (λ p. absurd (ground arith), λ p. absurd (ground arith)),
        )
        | inr q ↦ (r, rw (a, q, e) refl, agrees)
      ]
    ]
