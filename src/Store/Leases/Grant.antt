-- ===== src/Store/Leases/Grant.antt =====
-- What a successful AcquireLease or RenewLease writes, and when one is refused (sqlite.go).
use stacyvm.Base.{
  ℕ, ◌+◌, ◌≤◌, ◌<◌, String, ◌≡◌, refl, ◌⊎◌, inl, inr, ◌&&◌, ◌||◌, none, some, arith, eq_iff,
  eq_refl, ltb, leb, Bool-cases, Option-cases, ℤ, pos, ◌<ℤ◌, leb_ℤ, str_eq, is_empty, trim_space,
  lookup, insert, lookup-insert,
}
use stacyvm.Store.Records.{LeaseRecord}
use stacyvm.Store.Leases.{
  StoreError, Result, ok, err, conflict, Leases, get_lease, new_lease, upsert_lease, after,
  acquire_lease, renew_lease,
}

-- What a call that asks for a lease does: it fails and changes nothing, or writes the row that it
-- answers, for its caller, running past now, one generation after the row that was there.
pub data Grant (resource holder : String) (now : ℕ) (leases : Leases)
    (r : Result LeaseRecord × Leases) : Type 0 where
  denied : (e : StoreError) → r ≡ (err e, leases) → Grant resource holder now leases r
  granted_new :
      (rec : LeaseRecord)
      → r ≡ (ok rec, insert resource rec leases)
      → lookup resource leases ≡ none
      → rec.holder_id ≡ holder
      → rec.generation ≡ 1
      → now < rec.expires_at
      → Grant resource holder now leases r
  granted_old :
      (rec old : LeaseRecord)
      → r ≡ (ok rec, insert resource rec leases)
      → lookup resource leases ≡ some old
      → rec.holder_id ≡ holder
      → rec.generation ≡ old.generation + 1
      → now < rec.expires_at
      → (old.expires_at ≤ now) ⊎ (old.holder_id ≡ holder)
      → Grant resource holder now leases r

get_lease-insert :
    (resource : String) (rec : LeaseRecord) (leases : Leases)
    → get_lease resource (insert resource rec leases) ≡ ok rec
unfolding get_lease
get_lease-insert resource rec leases =
    ground (arith, lookup-insert resource resource rec leases, eq_refl resource)

upsert_lease-Grant :
    (resource kind holder : String) (ttl : ℤ) (now : ℕ) (leases : Leases)
    → pos 0 <ℤ ttl
    → Grant resource holder now leases
        (elim (upsert_lease resource kind holder (after now ttl) now leases) [
          | none ↦ (err (conflict "lease is held by another worker"), leases)
          | some leases' ↦ (get_lease resource leases', leases')
        ])
unfolding upsert_lease new_lease after
upsert_lease-Grant resource kind holder ttl now leases positive =
    elim (Option-cases (lookup resource leases)) [
      | inl missing ↦
          rw (missing, upsert_lease, get_lease-insert)
            (granted_new _ refl missing refl refl (omega arith))
      | inr (old, found) ↦
          elim (Bool-cases (leb old.expires_at now || str_eq old.holder_id holder)) [
            | inl open_now ↦
                rw (found, upsert_lease, open_now, get_lease-insert)
                  (granted_old _ old refl found refl refl (omega arith)
                    (ground (arith, eq_iff old.holder_id holder)))
            | inr held ↦ rw (found, upsert_lease, held) (denied _ refl)
          ]
    ]

pub acquire_lease-Grant :
    (resource kind holder : String) (ttl : ℤ) (now : ℕ) (leases : Leases)
    → Grant resource holder now leases (acquire_lease resource kind holder ttl now leases)
unfolding acquire_lease
acquire_lease-Grant resource kind holder ttl now leases =
    elim (Bool-cases (is_empty (trim_space resource))) [
      | inl no_id ↦ rw no_id (denied _ refl)
      | inr id ↦ elim (Bool-cases (is_empty (trim_space holder))) [
        | inl no_holder ↦ rw (id, no_holder) (denied _ refl)
        | inr named ↦ elim (Bool-cases (leb_ℤ ttl (pos 0))) [
          | inl short ↦ rw (id, named, short) (denied _ refl)
          | inr long ↦
              rw (id, named, long)
                (upsert_lease-Grant resource kind holder ttl now leases (ground arith))
        ]
      ]
    ]

pub renew_lease-Grant :
    (resource holder : String) (ttl : ℤ) (now : ℕ) (leases : Leases)
    → Grant resource holder now leases (renew_lease resource holder ttl now leases)
unfolding renew_lease after
renew_lease-Grant resource holder ttl now leases = elim (Bool-cases (leb_ℤ ttl (pos 0))) [
  | inl short ↦ rw short (denied _ refl)
  | inr long ↦ elim (Option-cases (lookup resource leases)) [
    | inl missing ↦ rw (long, missing, renew_lease) (denied _ refl)
    | inr (old, found) ↦ elim (Bool-cases (str_eq old.holder_id holder && ltb now old.expires_at)) [
      | inl held ↦
          rw (long, found, renew_lease, held, get_lease-insert)
            (granted_old _ old refl found (ground (arith, eq_iff old.holder_id holder)) refl
              (ground arith) (inr (ground (arith, eq_iff old.holder_id holder))))
      | inr lost ↦ rw (long, found, renew_lease, lost) (denied _ refl)
    ]
  ]
]
