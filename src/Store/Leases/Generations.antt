-- ===== src/Store/Leases/Generations.antt =====
-- Generations of a lease only grow (sqlite.go, AcquireLease and RenewLease).
use stacyvm.Base.{
  ℕ, ◌≤◌, ◌<◌, String, ◌≡◌, refl, sym, subst, ◌∙◌, ◌≢◌, inl, inr, none, some, List, [], ◌∷◌, arith,
  eq_iff, Bool-cases, str_eq, lookup,
}
use stacyvm.Store.Records.{LeaseRecord}
use stacyvm.Store.Leases.{StoreError, Result, ok, err, Leases, release_lease}
use stacyvm.Store.Leases.Grant.{
  Grant, denied, granted_new, granted_old, acquire_lease-Grant, renew_lease-Grant,
}
use stacyvm.Store.Leases.Exclusion.{
  Call, step, run, resource_of, granted, answer, lookup-insert_eq, lookup-insert_ne, some-eq,
  step-excludes, acquires, renews, releases,
}

-- No call of the list releases the resource.
abbrev pub Unreleased : String → List (ℕ × Call) → Type 0
Unreleased r [] = Unit
Unreleased r ((now, releases resource holder) ∷ cs) = (resource ≢ r) × Unreleased r cs
Unreleased r (c ∷ cs) = Unreleased r cs

abbrev Later : String → ℕ → Leases → Type 0
Later r n leases = (rec : LeaseRecord) × (lookup r leases ≡ some rec) × (n ≤ rec.generation)

Grant-Later :
    (resource holder r : String) (now n : ℕ) (leases : Leases) (res : Result LeaseRecord × Leases)
    → Grant resource holder now leases res
    → Later r n leases
    → Later r n res.1
Grant-Later resource holder r now n leases res (denied e same) l = rw same l
Grant-Later resource holder r now n leases res (granted_new g same missing _ _ _) (rec, held, le) =
    elim (Bool-cases (str_eq resource r)) [
      | inl e ↦ absurd (cc (subst (λ k. lookup k leases ≡ none) ((eq_iff resource r).0 e) missing))
      | inr e ↦
          rw same (
            rec,
            lookup-insert_ne resource r g leases (ground (arith, eq_iff resource r)) ∙ held,
            le,
          )
    ]
Grant-Later resource holder r now n leases res (granted_old g old same found _ grown _ _)
      (rec, held, le) =
    elim (Bool-cases (str_eq resource r)) [
      | inl e ↦
          let same_row =
            some-eq old rec (lookup r leases)
              (subst (λ k. lookup k leases ≡ some old) ((eq_iff resource r).0 e) found) held in
          rw same (g, lookup-insert_eq resource r g leases ((eq_iff resource r).0 e), ground arith)
      | inr e ↦
          rw same (
            rec,
            lookup-insert_ne resource r g leases (ground (arith, eq_iff resource r)) ∙ held,
            le,
          )
    ]

run-Later :
    (r : String) (cs : List (ℕ × Call)) (n : ℕ) (leases : Leases)
    → Unreleased r cs
    → Later r n leases
    → Later r n (run cs leases)
unfolding run step release_lease
run-Later r [] n leases u l = l
run-Later r ((now, acquires resource kind holder ttl) ∷ cs) n leases u l = run-Later r cs n _ u (
    Grant-Later resource holder r now n leases _
      (acquire_lease-Grant resource kind holder ttl now leases) l)
run-Later r ((now, renews resource holder ttl) ∷ cs) n leases u l = run-Later r cs n _ u (
    Grant-Later resource holder r now n leases _ (renew_lease-Grant resource holder ttl now leases)
      l)
run-Later r ((now, releases resource holder) ∷ cs) n leases u (rec, held, le) =
    run-Later r cs n _ u.1
      (rec, step-excludes r now (releases resource holder) leases rec held (inl u.0), le)

ok-granted :
    (res : Result LeaseRecord × Leases) (rec g : LeaseRecord) (leases : Leases)
    → res ≡ (ok rec, leases)
    → granted res.0 ≡ some g
    → rec ≡ g
ok-granted res rec g leases same a = ground arith

not-granted :
    (res : Result LeaseRecord × Leases) (e : StoreError) (g : LeaseRecord) (leases : Leases)
    → res ≡ (err e, leases)
    → granted res.0 ≡ some g
    → ⊥
not-granted res e g leases same a = ground arith

Grant-latest :
    (resource holder : String) (now : ℕ) (leases : Leases) (res : Result LeaseRecord × Leases)
    (g : LeaseRecord)
    → Grant resource holder now leases res
    → granted res.0 ≡ some g
    → Later resource g.generation res.1
Grant-latest resource holder now leases res g (denied e same) a =
    absurd (not-granted res e g leases same a)
Grant-latest resource holder now leases res g (granted_new rec same _ _ _ _) a =
    let answered = ok-granted res rec g _ same a in
    rw same (rec, lookup-insert_eq resource resource rec leases refl, ground arith)
Grant-latest resource holder now leases res g (granted_old rec old same _ _ _ _ _) a =
    let answered = ok-granted res rec g _ same a in
    rw same (rec, lookup-insert_eq resource resource rec leases refl, ground arith)

Grant-exceeds :
    (resource holder : String) (now n : ℕ) (leases : Leases) (res : Result LeaseRecord × Leases)
    (g : LeaseRecord)
    → Grant resource holder now leases res
    → granted res.0 ≡ some g
    → Later resource n leases
    → n < g.generation
Grant-exceeds resource holder now n leases res g (denied e same) a l =
    absurd (not-granted res e g leases same a)
Grant-exceeds resource holder now n leases res g (granted_new rec same missing _ _ _) a l =
    absurd (ground (arith, missing, l.1))
Grant-exceeds resource holder now n leases res g (granted_old rec old same found _ grown _ _) a l =
    let answered = ok-granted res rec g _ same a in
    let row = some-eq old l.0 (lookup resource leases) found l.1 in ground (arith, l.2)

answer-latest :
    (c : ℕ × Call) (leases : Leases) (g : LeaseRecord)
    → answer c leases ≡ some g
    → Later (resource_of c.1) g.generation (step c leases)
unfolding answer step
answer-latest (now, acquires resource kind holder ttl) leases g a =
    Grant-latest resource holder now leases _ g
      (acquire_lease-Grant resource kind holder ttl now leases) a
answer-latest (now, renews resource holder ttl) leases g a =
    Grant-latest resource holder now leases _ g (renew_lease-Grant resource holder ttl now leases) a
answer-latest (now, releases resource holder) leases g a = absurd (ground arith)

answer-exceeds :
    (c : ℕ × Call) (n : ℕ) (leases : Leases) (g : LeaseRecord)
    → answer c leases ≡ some g
    → Later (resource_of c.1) n leases
    → n < g.generation
unfolding answer
answer-exceeds (now, acquires resource kind holder ttl) n leases g a l =
    Grant-exceeds resource holder now n leases _ g
      (acquire_lease-Grant resource kind holder ttl now leases) a l
answer-exceeds (now, renews resource holder ttl) n leases g a l =
    Grant-exceeds resource holder now n leases _ g
      (renew_lease-Grant resource holder ttl now leases) a l
answer-exceeds (now, releases resource holder) n leases g a l = absurd (ground arith)

-- Generations fence: if a lease on a resource is granted, by an acquire or a renewal, and later
-- another one on the same resource, with no release of it in between, then the second has the
-- greater generation, whatever other calls come between and whoever makes them.
pub generations_grow :
    (c d : ℕ × Call) (between : List (ℕ × Call)) (leases : Leases) (first second : LeaseRecord)
    → answer c leases ≡ some first
    → Unreleased (resource_of c.1) between
    → resource_of d.1 ≡ resource_of c.1
    → answer d (run between (step c leases)) ≡ some second
    → first.generation < second.generation
generations_grow c d between leases first second a u same b =
    answer-exceeds d first.generation _ second b (
      subst (λ r. Later r first.generation (run between (step c leases))) (sym same)
        (run-Later (resource_of c.1) between first.generation (step c leases) u
          (answer-latest c leases first a)))
