-- ===== src/Environments/Build/Finished.antt =====
-- A build that is processed comes to an end (internal/environments/manager.go).
use stacyvm.Base.{
  ℕ, String, ◌≡◌, refl, sym, subst, inl, inr, true, false, some, List, Bool-cases, lookup, insert,
}
use stacyvm.Environments.Records.{
  EnvironmentArtifactRecord, canceled_by_user, canceled_by_user, EnvironmentBuildRecord,
  EnvironmentArtifactRecord, World, Answers,
}
use stacyvm.Environments.Build.{is_final, process_build, cancel_build, run_build}
use stacyvm.Environments.Build.Finishing.{Over, Finished, Up, write_build-Stored, lookup_written}
use stacyvm.Environments.Build.Stages.{Finished-run_build, Finished-process_build}

-- Where the database takes the writes of builds, a build that is stored and not over is brought to an
-- end, whatever the commands answer: its row is ready, and then every artifact of the build is ready, or
-- it is failed, and then it has an error.
pub process_build-Finished :
    (a : Answers) (now : ℕ) (id : String) (b : EnvironmentBuildRecord) (w : World)
    → Up a
    → lookup id w.builds ≡ some b
    → b.id ≡ id
    → is_final b.status ≡ false
    → Finished id (process_build a now id w)
process_build-Finished a now id b w up found e going =
    Finished-process_build a up now id b w found e going

is_final-Over :
    (artifacts : List EnvironmentArtifactRecord) (b : EnvironmentBuildRecord)
    → Over artifacts b
    → is_final b.status ≡ true
unfolding is_final
is_final-Over artifacts b (inl (ready, all)) = rw ready refl
is_final-Over artifacts b (inr (failing, e, told)) = rw failing refl

process_build-over :
    (a : Answers) (now : ℕ) (id : String) (b : EnvironmentBuildRecord) (w : World)
    → lookup id w.builds ≡ some b
    → is_final b.status ≡ true
    → process_build a now id w ≡ (true, w)
unfolding process_build
process_build-over a now id b w found over = rw (process_build, found, over) refl

-- A build id that is queued twice is built once: where the database takes the writes of builds, what
-- processes a stored build a second time, at whatever time and with whatever answers, changes nothing.
pub process_build-once :
    (a a' : Answers) (now now' : ℕ) (id : String) (b : EnvironmentBuildRecord) (w : World)
    → Up a
    → lookup id w.builds ≡ some b
    → b.id ≡ id
    → process_build a' now' id (process_build a now id w).1 ≡ (true, (process_build a now id w).1)
process_build-once a a' now now' id b w up found e = elim (Bool-cases (is_final b.status)) [
  | inl over ↦
      rw (process_build-over a now id b w found over) (process_build-over a' now' id b w found over)
  | inr going ↦
      let (taken, b', found', e', over') = Finished-process_build a up now id b w found e going in
      process_build-over a' now' id b' (process_build a now id w).1 found'
        (is_final-Over (process_build a now id w).1.artifacts b' over')
]

-- A cancellation that comes after processBuild has read its build is lost: CancelBuild succeeds and the
-- row is canceled, but where the database takes the writes of builds, the rest of processBuild still
-- makes it ready or failed.
pub cancel_build-lost :
    (a : Answers) (now later : ℕ) (id : String) (b : EnvironmentBuildRecord) (w : World)
    → Up a
    → lookup id w.builds ≡ some b
    → b.id ≡ id
    → is_final b.status ≡ false
    → ((cancel_build a now id w).0 ≡ true)
      × ((c : EnvironmentBuildRecord) × (lookup id (cancel_build a now id w).1.builds ≡ some c)
          × (c.status ≡ "canceled"))
      × Finished id (run_build a later b (cancel_build a now id w).1)
unfolding cancel_build
cancel_build-lost a now later id b w up found e going =
    let c = record b {
      status = "canceled";
      current_step = "canceled";
      error = some canceled_by_user;
      finished_at = some now;
      updated_at = now;
    } in
    let here = subst (λ i. lookup i w.builds ≡ some b) (sym e) found in
    let canceled = record w { builds = insert b.id c w.builds } in
    let stored = lookup_written a up now c w.builds in
    rw (cancel_build, found, going, write_build-Stored a up now c w (b, here))
      (
        refl,
        (c, subst (λ i. lookup i canceled.builds ≡ some c) e stored, refl),
        subst (λ i. Finished i (run_build a later b canceled)) e
            (Finished-run_build a up later b canceled (c, stored)),
      )
