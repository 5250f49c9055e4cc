-- ===== src/Store/Leases/Exclusion.antt =====
-- Who holds a lease (sqlite.go, AcquireLease, RenewLease and ReleaseLease): exclusion while it
-- lasts, and generations that only grow.
use stacyvm.Base.{
  ℕ, ◌<◌, String, ◌≡◌, sym, subst, ◌≢◌, ◌⊎◌, inl, inr, Option, none, some, List, [], ◌∷◌, arith,
  eq_iff, Bool-cases, ℤ, str_eq, lookup, insert, lookup-insert, lookup-delete,
}
use stacyvm.Store.Records.{LeaseRecord}
use stacyvm.Store.Leases.{Result, ok, err, Leases, acquire_lease, renew_lease, release_lease}
use stacyvm.Store.Leases.Grant.{
  Grant, denied, granted_new, granted_old, acquire_lease-Grant, renew_lease-Grant,
}

pub data Call : Type 0 where
  acquires : String → String → String → ℤ → Call
  renews : String → String → ℤ → Call
  releases : String → String → Call

-- The call at a time: the table after it.
unfoldable pub step : ℕ × Call → Leases → Leases
step (now, acquires resource kind holder ttl) leases =
    (acquire_lease resource kind holder ttl now leases).1
step (now, renews resource holder ttl) leases = (renew_lease resource holder ttl now leases).1
step (now, releases resource holder) leases = (release_lease resource holder leases).1

unfoldable pub run : List (ℕ × Call) → Leases → Leases
run [] leases = leases
run (c ∷ cs) leases = run cs (step c leases)

abbrev pub resource_of : Call → String
resource_of (acquires resource kind holder ttl) = resource
resource_of (renews resource holder ttl) = resource
resource_of (releases resource holder) = resource

abbrev pub holder_of : Call → String
holder_of (acquires resource kind holder ttl) = holder
holder_of (renews resource holder ttl) = holder
holder_of (releases resource holder) = holder

-- Calls on other resources, or by other holders before the lease has run out.
abbrev pub Others : String → LeaseRecord → List (ℕ × Call) → Type 0
Others r rec [] = Unit
Others r rec ((now, c) ∷ cs) =
    ((resource_of c ≢ r) ⊎ ((holder_of c ≢ rec.holder_id) × (now < rec.expires_at)))
    × Others r rec cs

-- What a call answers that asks for a lease: the lease, where it is granted.
abbrev pub granted : Result LeaseRecord → Option LeaseRecord
granted (ok rec) = some rec
granted (err e) = none

unfoldable pub answer : ℕ × Call → Leases → Option LeaseRecord
answer (now, acquires resource kind holder ttl) leases =
    granted (acquire_lease resource kind holder ttl now leases).0
answer (now, renews resource holder ttl) leases =
    granted (renew_lease resource holder ttl now leases).0
answer (now, releases resource holder) leases = none

pub lookup-insert_eq :
    (k j : String) (rec : LeaseRecord) (leases : Leases)
    → k ≡ j
    → lookup j (insert k rec leases) ≡ some rec
lookup-insert_eq k j rec leases e = ground (arith, lookup-insert k j rec leases, eq_iff k j)

pub lookup-insert_ne :
    (k j : String) (rec : LeaseRecord) (leases : Leases)
    → k ≢ j
    → lookup j (insert k rec leases) ≡ lookup j leases
lookup-insert_ne k j rec leases e = ground (arith, lookup-insert k j rec leases, eq_iff k j)

pub some-eq : (a b : LeaseRecord) (o : Option LeaseRecord) → o ≡ some a → o ≡ some b → a ≡ b
some-eq a b o p q = cc

Grant-excludes :
    (resource holder r : String) (now : ℕ) (leases : Leases) (rec : LeaseRecord)
    (res : Result LeaseRecord × Leases)
    → Grant resource holder now leases res
    → lookup r leases ≡ some rec
    → (resource ≢ r) ⊎ ((holder ≢ rec.holder_id) × (now < rec.expires_at))
    → lookup r res.1 ≡ some rec
Grant-excludes resource holder r now leases rec res (denied e same) held o = rw same held
Grant-excludes resource holder r now leases rec res (granted_new g same missing _ _ _) held o =
    elim (Bool-cases (str_eq resource r)) [
      | inl e ↦ absurd (cc (subst (λ k. lookup k leases ≡ none) ((eq_iff resource r).0 e) missing))
      | inr e ↦
          rw (same, lookup-insert_ne resource r g leases (ground (arith, eq_iff resource r))) held
    ]
Grant-excludes resource holder r now leases rec res (granted_old g old same found _ _ _ why) held
      (inl other) =
    rw (same, lookup-insert_ne resource r g leases other) held
Grant-excludes resource holder r now leases rec res (granted_old g old same found _ _ _ why) held
      (inr stays) =
    elim (Bool-cases (str_eq resource r)) [
      | inl e ↦
          let same_row =
            some-eq old rec (lookup r leases)
              (subst (λ k. lookup k leases ≡ some old) ((eq_iff resource r).0 e) found) held in
          absurd (ground arith)
      | inr e ↦
          rw (same, lookup-insert_ne resource r g leases (ground (arith, eq_iff resource r))) held
    ]

pub step-excludes :
    (r : String) (now : ℕ) (c : Call) (leases : Leases) (rec : LeaseRecord)
    → lookup r leases ≡ some rec
    → (resource_of c ≢ r) ⊎ ((holder_of c ≢ rec.holder_id) × (now < rec.expires_at))
    → lookup r (step (now, c) leases) ≡ some rec
unfolding step release_lease
step-excludes r now (acquires resource kind holder ttl) leases rec held o =
    Grant-excludes resource holder r now leases rec _
      (acquire_lease-Grant resource kind holder ttl now leases) held o
step-excludes r now (renews resource holder ttl) leases rec held o =
    Grant-excludes resource holder r now leases rec _
      (renew_lease-Grant resource holder ttl now leases) held o
step-excludes r now (releases resource holder) leases rec held o =
    elim (Bool-cases (str_eq resource r)) [
      | inl e ↦
          let row = subst (λ k. lookup k leases ≡ some rec) (sym ((eq_iff resource r).0 e)) held in
          ground (arith, row, eq_iff rec.holder_id holder, eq_iff resource r)
      | inr e ↦ ground (arith, lookup-delete resource r leases)
    ]

-- A lease excludes others while it lasts: the row of a resource stays as it is under any calls on
-- other resources, and any calls on it by other holders before it has run out.
pub run-excludes :
    (r : String) (cs : List (ℕ × Call)) (leases : Leases) (rec : LeaseRecord)
    → lookup r leases ≡ some rec
    → Others r rec cs
    → lookup r (run cs leases) ≡ some rec
unfolding run
run-excludes r [] leases rec held o = held
run-excludes r ((now, c) ∷ cs) leases rec held o =
    run-excludes r cs (step (now, c) leases) rec (step-excludes r now c leases rec held o.0) o.1
