-- ===== src/Store/Sandboxes/Tests.antt =====
-- The table of sandboxes on concrete rows.
use stacyvm.Base.{ℕ, ◌+◌, String, ◌≡◌, refl, ◌↔◌, true, some, [], ◌∷◌, length, pos, lookup}
use stacyvm.Store.Records.{SandboxRecord}
use stacyvm.Store.Leases.{ok, err, conflict, not_found}
use stacyvm.Store.Sandboxes.{
  Sandboxes, destroyed, create_sandbox, is_live, where_rows, insert_by_age, newest_first,
  list_sandboxes, update_sandbox_expires_at, delete_sandbox, list_expired_sandboxes,
  list_sandboxes_by_owner, get_sandbox, count_sandboxes_by_vm,
}
use stacyvm.Store.Sandboxes.Lifecycle.{Holds, list_sandboxes_exact, delete_sandbox_final}

abbrev sandbox : String → ℕ → SandboxRecord
sandbox id created = record {
  id = id;
  state = "running";
  provider = "docker";
  image = "alpine";
  memory_mb = pos 512;
  vcpus = pos 1;
  metadata = [];
  owner_id = "alice";
  tenant_id = "";
  vm_id = "vm-1";
  worker_id = "local";
  created_at = created;
  expires_at = created + 10;
  updated_at = created;
}

abbrev rows : Sandboxes
rows = ("sb-1", sandbox "sb-1" 1) ∷ ("sb-2", sandbox "sb-2" 5) ∷ []

newest_come_first : list_sandboxes rows ≡ sandbox "sb-2" 5 ∷ sandbox "sb-1" 1 ∷ []
unfolding list_sandboxes newest_first insert_by_age where_rows is_live
newest_come_first = refl

expired_listed : list_expired_sandboxes 12 rows ≡ sandbox "sb-1" 1 ∷ []
unfolding list_expired_sandboxes where_rows is_live
expired_listed = refl

owner_listed : length (list_sandboxes_by_owner "bob" rows) ≡ 0
unfolding list_sandboxes_by_owner newest_first insert_by_age where_rows is_live
owner_listed = refl

two_on_vm : count_sandboxes_by_vm "vm-1" rows ≡ 2
unfolding count_sandboxes_by_vm where_rows is_live
two_on_vm = refl

row_found : get_sandbox "sb-1" rows ≡ ok (sandbox "sb-1" 1)
unfolding get_sandbox lookup
row_found = refl

list_sandboxes_exact_instance :
    Holds (sandbox "sb-1" 1) (list_sandboxes rows) ↔ (is_live (sandbox "sb-1" 1) ≡ true)
unfolding lookup
list_sandboxes_exact_instance = list_sandboxes_exact "sb-1" (sandbox "sb-1" 1) rows refl

delete_sandbox_final_instance :
    let rows' = (delete_sandbox "sb-1" 20 rows).1 in
    let gone = record (sandbox "sb-1" 1) { state = destroyed; updated_at = 20 } in
    (lookup "sb-1" rows' ≡ some gone)
    × ¬ Holds gone (list_sandboxes rows')
    × (create_sandbox (sandbox "sb-1" 30) rows' ≡ (err (conflict "UNIQUE constraint"), rows'))
    × (update_sandbox_expires_at "sb-1" 90 21 rows' ≡ (err (not_found "sandbox" "sb-1"), rows'))
unfolding lookup
delete_sandbox_final_instance =
    delete_sandbox_final "sb-1" 20 rows (sandbox "sb-1" 1) (sandbox "sb-1" 30) 90 21 refl refl
