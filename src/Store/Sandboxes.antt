-- ===== src/Store/Sandboxes.antt =====
-- internal/store/sqlite.go: the table of sandboxes, whose primary key is the id. Each call is one
-- statement. A failure of the database itself is not modelled. The rows of a query without an order
-- come in the order of the table.
mod Lifecycle
mod Tests
use stacyvm.Base.{
  ℕ, String, Bool, not, ◌&&◌, none, some, List, [], ◌∷◌, ltb, leb, if◌then◌else◌, length, str_eq,
  is_empty, trim_space, Dict, lookup, insert,
}
use stacyvm.Store.Records.{SandboxRecord}
use stacyvm.Store.Leases.{StoreError, conflict, not_found, Result, ok, err}

abbrev pub Sandboxes : Type 0
Sandboxes = Dict SandboxRecord

abbrev pub destroyed : String
destroyed = "destroyed"

-- The worker that a row names: "local" where its creator gives none.
unfoldable pub worker_or_local : String → String
worker_or_local worker = if is_empty (trim_space worker) then "local" else worker

unfoldable pub create_sandbox : SandboxRecord → Sandboxes → Result (Unit {0}) × Sandboxes
unfolding worker_or_local
create_sandbox sb rows = elim (lookup sb.id rows) [
  | some old ↦ (err (conflict "UNIQUE constraint"), rows)
  | none ↦ (ok tt, insert sb.id (record sb { worker_id = worker_or_local sb.worker_id }) rows)
]

unfoldable pub get_sandbox : String → Sandboxes → Result SandboxRecord
get_sandbox id rows = elim (lookup id rows) [
  | none ↦ err (not_found "sandbox" id)
  | some sb ↦ ok sb
]

unfoldable pub is_live : SandboxRecord → Bool
is_live sb = not (str_eq sb.state destroyed)

-- The rows that a WHERE clause keeps.
unfoldable pub where_rows : (SandboxRecord → Bool) → Sandboxes → List SandboxRecord
where_rows p [] = []
where_rows p ((k, sb) ∷ rows) = let rest = where_rows p rows in if p sb then sb ∷ rest else rest

-- ORDER BY created_at DESC.
unfoldable pub insert_by_age : SandboxRecord → List SandboxRecord → List SandboxRecord
insert_by_age sb [] = sb ∷ []
insert_by_age sb (x ∷ xs) =
    if leb x.created_at sb.created_at then sb ∷ x ∷ xs else x ∷ insert_by_age sb xs

unfoldable pub newest_first : List SandboxRecord → List SandboxRecord
newest_first [] = []
newest_first (sb ∷ sbs) = insert_by_age sb (newest_first sbs)

unfoldable pub list_sandboxes : Sandboxes → List SandboxRecord
unfolding is_live
list_sandboxes rows = newest_first (where_rows is_live rows)

unfoldable pub update_sandbox_state :
    String → String → ℕ → Sandboxes → Result (Unit {0}) × Sandboxes
update_sandbox_state id state now rows = elim (lookup id rows) [
  | none ↦ (err (not_found "sandbox" id), rows)
  | some sb ↦ (ok tt, insert id (record sb { state = state; updated_at = now }) rows)
]

unfoldable pub update_sandbox_expires_at :
    String → ℕ → ℕ → Sandboxes → Result (Unit {0}) × Sandboxes
update_sandbox_expires_at id expires now rows = elim (lookup id rows) [
  | none ↦ (err (not_found "sandbox" id), rows)
  | some sb ↦
      if is_live sb
      then (ok tt, insert id (record sb { expires_at = expires; updated_at = now }) rows)
      else (err (not_found "sandbox" id), rows)
]

unfoldable pub delete_sandbox : String → ℕ → Sandboxes → Result (Unit {0}) × Sandboxes
unfolding update_sandbox_state
delete_sandbox id now rows = update_sandbox_state id destroyed now rows

unfoldable pub list_expired_sandboxes : ℕ → Sandboxes → List SandboxRecord
list_expired_sandboxes before rows = where_rows (λ sb. is_live sb && ltb sb.expires_at before) rows

unfoldable pub list_sandboxes_by_owner : String → Sandboxes → List SandboxRecord
list_sandboxes_by_owner owner rows =
    newest_first (where_rows (λ sb. is_live sb && str_eq sb.owner_id owner) rows)

unfoldable pub count_sandboxes_by_vm : String → Sandboxes → ℕ
count_sandboxes_by_vm vm rows = length (where_rows (λ sb. is_live sb && str_eq sb.vm_id vm) rows)
