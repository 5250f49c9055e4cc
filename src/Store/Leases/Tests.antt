-- ===== src/Store/Leases/Tests.antt =====
-- Runs of the lease table, and the theorems about it at concrete inputs.
use stacyvm.Base.{
  ◌<◌, String, ◌≡◌, refl, ◌≢◌, inr, some, [], ◌∷◌, arith, eq_iff, pos, trim_space, lookup, insert,
}
use stacyvm.Store.Records.{LeaseRecord}
use stacyvm.Store.Leases.{
  err, conflict, Leases, acquire_lease, renew_lease, upsert_lease, after, get_lease,
}
use stacyvm.Store.Leases.Exclusion.{acquires, renews, releases, run, step, answer, run-excludes}
use stacyvm.Store.Leases.Generations.{generations_grow}

abbrev held : LeaseRecord
held = record {
  resource_id = "sb-1";
  resource_type = "sandbox";
  holder_id = "w1";
  generation = 1;
  expires_at = 100;
  created_at = 0;
  updated_at = 0;
}

abbrev one_lease : Leases
one_lease = ("sb-1", held) ∷ []

acquire_lease_test :
    (acquire_lease "sb-1" "sandbox" "w2" (pos 10) 50 one_lease).0
    ≡ err (conflict "lease is held by another worker")
unfolding acquire_lease trim_space upsert_lease lookup
acquire_lease_test = refl

run-excludes_example :
    lookup "sb-1" (
      run
        ((50, acquires "sb-1" "sandbox" "w2" (pos 10)) ∷ (60, releases "sb-1" "w2") ∷ [])
        one_lease)
    ≡ some held
run-excludes_example =
    run-excludes "sb-1"
      ((50, acquires "sb-1" "sandbox" "w2" (pos 10)) ∷ (60, releases "sb-1" "w2") ∷ []) one_lease
      held (unfold lookup in refl) (inr (other, omega arith), (inr (other, omega arith), tt))
  where
    other : ◌≢◌ {A = String} "w2" "w1"
    other = ground (arith, eq_iff "w2" "w1")

abbrev renewed : LeaseRecord
renewed = record held { generation = 2; expires_at = 110; updated_at = 10 }

abbrev reacquired : LeaseRecord
reacquired = record held { generation = 3; expires_at = 120; updated_at = 20 }

generations_grow_example : renewed.generation < reacquired.generation
unfolding answer step run acquire_lease renew_lease trim_space upsert_lease lookup insert get_lease
    after
generations_grow_example =
    generations_grow (10, renews "sb-1" "w1" (pos 100))
      (20, acquires "sb-1" "sandbox" "w1" (pos 100))
      ((15, acquires "sb-1" "sandbox" "w2" (pos 10)) ∷ []) one_lease renewed reacquired refl tt refl
      refl
