-- ===== src/Store/Leases.antt =====
-- internal/store/sqlite.go: leases, which fence the owner of a sandbox. The table has one row for
-- each resource; each call is one statement on it, and a read of the row. A failure of the database
-- itself is not modelled.
mod Grant
mod Exclusion
mod Generations
mod Tests
use stacyvm.Base.{
  ℕ, zero, suc, ◌+◌, ◌-◌, ◌*◌, ◌/◌, ◌%◌, ◌^◌, ◌≤◌, ◌<◌, String, ◌≡◌, refl, sym, ap, subst, ◌∙◌, ◌≢◌,
  ◌↔◌, ◌⊎◌, inl, inr, Bool, true, false, not, ◌&&◌, ◌||◌, Option, none, some, List, [], ◌∷◌, ◌++◌,
  map, arith, eq_iff, eq_refl, ltb, leb, ◌==◌, if◌then◌else◌, ltb→lt, lt→ltb, leb→le, ==_iff,
  Bool-cases, Option-cases, length, get_elem?, set, get_or, take, drop, replicate, length-append,
  length-set, take-append-drop, length-take, length-drop, append_assoc_list, drop-set, ℤ, pos,
  negsuc, pos_part, neg_part, sub_ℕ, ◌+ℤ◌, ◌≤ℤ◌, ◌<ℤ◌, ltb_ℤ, leb_ℤ, is_pos, +ℤ_parts, str_eq,
  is_empty, codes, is_space, trim_space, fold, equal_fold, equal_fold_refl, Dict, lookup, insert,
  delete, lookup-insert, lookup-delete, length-insert, length-delete, length-insert_found,
}
use stacyvm.Store.Records.{LeaseRecord}

pub data StoreError : Type 0 where
  conflict : String → StoreError
  not_found : String → String → StoreError

pub data Result {ℓ} (A : Type ℓ) : Type ℓ where
  ok : A → Result A
  err : StoreError → Result A

abbrev pub Leases : Type 0
Leases = Dict LeaseRecord

unfoldable pub get_lease : String → Leases → Result LeaseRecord
get_lease resource leases = elim (lookup resource leases) [
  | none ↦ err (not_found "lease" resource)
  | some rec ↦ ok rec
]

-- The row that an insert of a new lease writes.
unfoldable pub new_lease : String → String → String → ℕ → ℕ → LeaseRecord
new_lease resource kind holder expires now = record {
  resource_id = resource;
  resource_type = kind;
  holder_id = holder;
  generation = 1;
  expires_at = expires;
  created_at = now;
  updated_at = now;
}

-- INSERT … ON CONFLICT DO UPDATE … WHERE expires_at <= now OR holder_id = holder: `none` where no
-- row is affected.
unfoldable pub upsert_lease : String → String → String → ℕ → ℕ → Leases → Option Leases
unfolding new_lease
upsert_lease resource kind holder expires now leases = elim (lookup resource leases) [
  | none ↦ some (insert resource (new_lease resource kind holder expires now) leases)
  | some old ↦
      if leb old.expires_at now || str_eq old.holder_id holder
      then some (
          insert resource
            (record old {
              resource_type = kind;
              holder_id = holder;
              generation = old.generation + 1;
              expires_at = expires;
              updated_at = now;
            })
            leases)
      else none
]

-- `now.Add(ttl)`, for a positive ttl.
unfoldable pub after : ℕ → ℤ → ℕ
after now ttl = now + pos_part ttl

unfoldable pub acquire_lease :
    String → String → String → ℤ → ℕ → Leases → Result LeaseRecord × Leases
unfolding after
acquire_lease resource kind holder ttl now leases =
    if is_empty (trim_space resource)
    then (err (conflict "lease resource id is required"), leases)
    else if is_empty (trim_space holder)
    then (err (conflict "lease holder id is required"), leases)
    else if leb_ℤ ttl (pos 0)
    then (err (conflict "lease ttl must be positive"), leases)
    else elim (upsert_lease resource kind holder (after now ttl) now leases) [
      | none ↦ (err (conflict "lease is held by another worker"), leases)
      | some leases' ↦ (get_lease resource leases', leases')
    ]

unfoldable pub renew_lease : String → String → ℤ → ℕ → Leases → Result LeaseRecord × Leases
unfolding after
renew_lease resource holder ttl now leases =
    if leb_ℤ ttl (pos 0)
    then (err (conflict "lease ttl must be positive"), leases)
    else elim (lookup resource leases) [
      | none ↦ (err (conflict "lease is not held by worker or has expired"), leases)
      | some old ↦
          if str_eq old.holder_id holder && ltb now old.expires_at
          then (let renewed =
                insert resource
                  (record old {
                    generation = old.generation + 1;
                    expires_at = after now ttl;
                    updated_at = now;
                  })
                  leases in
              (get_lease resource renewed, renewed))
          else (err (conflict "lease is not held by worker or has expired"), leases)
    ]

unfoldable pub release_lease : String → String → Leases → Result (Unit {0}) × Leases
release_lease resource holder leases = elim (lookup resource leases) [
  | none ↦ (err (not_found "lease" resource), leases)
  | some old ↦
      if str_eq old.holder_id holder
      then (ok tt, delete resource leases)
      else (err (not_found "lease" resource), leases)
]
