-- ===== src/Environments/Build/Finishing.antt =====
-- Each step of a build, from its first write on, comes to an end (internal/environments/manager.go).
use stacyvm.Base.{
  ℕ, String, ◌≡◌, refl, sym, subst, ◌⊎◌, inl, inr, Bool, true, false, none, some, List, eq_refl,
  Dict, lookup, insert, lookup-insert,
}
use stacyvm.Environments.Records.{
  LogLine, run_command, save_artifact_failed, build_completed, completed_with_failures,
  publish_failed, EnvironmentBuildRecord, EnvironmentArtifactRecord, World, Answers,
  update_environment_build, list_environment_artifacts,
}
use stacyvm.Environments.Publish.{done, failed, inspect_image_id}
use stacyvm.Environments.Attempts.{Looped, saved, unsaved, each_artifact}
use stacyvm.Environments.Build.{
  build_with, finished_with, write_build, fail_build, advance, finalize, publish_artifacts,
}
use stacyvm.Environments.Build.Artifacts.{AllReady, Ended, Ended-each_listed}

-- The row of a build as it is when the build is over: ready with all its artifacts, or failed with an error.
abbrev pub Over : List EnvironmentArtifactRecord → EnvironmentBuildRecord → Type 0
Over artifacts b =
    ((b.status ≡ "ready") × AllReady b.id artifacts)
    ⊎ ((b.status ≡ "failed") × (e : LogLine) × (b.error ≡ some e))

-- The database took every write, and the build `id` is over.
abbrev pub Finished : String → Bool × World → Type 0
Finished id o =
    (o.0 ≡ true)
    × (b : EnvironmentBuildRecord) × (lookup id o.1.builds ≡ some b)
    × (b.id ≡ id)
    × Over o.1.artifacts b

-- There is a row for the id.
abbrev pub Stored : String → World → Type 0
Stored id w = (b : EnvironmentBuildRecord) × (lookup id w.builds ≡ some b)

-- The database takes the writes of builds.
abbrev pub Up : Answers → Type 0
Up a = (b : EnvironmentBuildRecord) → a.build_up b ≡ true

module _ (a : Answers) (up : Up a) (now : ℕ) where
  pub write_build-Stored :
      (b : EnvironmentBuildRecord) (w : World)
      → Stored b.id w
      → write_build a b w ≡ (true, record w { builds = insert b.id b w.builds })
  unfolding write_build update_environment_build
  write_build-Stored b w (old, e) = rw (write_build, update_environment_build, e, up b)

  pub lookup_written :
      (b : EnvironmentBuildRecord) (rows : Dict EnvironmentBuildRecord)
      → lookup b.id (insert b.id b rows) ≡ some b
  lookup_written b rows = rw (lookup-insert b.id b.id b rows, eq_refl b.id)

  Finished-write_build :
      (b : EnvironmentBuildRecord) (w : World)
      → Stored b.id w
      → Over w.artifacts b
      → Finished b.id (write_build a b w)
  Finished-write_build b w st over =
      rw (write_build-Stored b w st) (refl, b, lookup_written b w.builds, refl, over)

  pub Finished-fail_build :
      (b : EnvironmentBuildRecord) (step : String) (line : LogLine) (w : World)
      → Stored b.id w
      → Finished b.id (fail_build a now b step line w)
  unfolding fail_build finished_with build_with
  Finished-fail_build b step line w st =
      Finished-write_build (finished_with now b "failed" step line (some line)) w st
        (inr (refl, line, refl))

  -- A step after which the build is finished, from any state with its row and these artifacts.
  abbrev pub Finishing :
      String
      → List EnvironmentArtifactRecord
      → (EnvironmentBuildRecord → World → Bool × World)
      → Type 0
  Finishing id artifacts next =
      (b : EnvironmentBuildRecord) (w : World)
      → b.id ≡ id
      → w.artifacts ≡ artifacts
      → Stored id w
      → Finished id (next b w)

  pub Finishing-advance :
      (id : String) (artifacts : List EnvironmentArtifactRecord) (step : String) (line : LogLine)
      (next : EnvironmentBuildRecord → World → Bool × World)
      → Finishing id artifacts next
      → Finishing id artifacts (λ b w. advance a now b step line next w)
  unfolding advance build_with
  Finishing-advance id artifacts step line next h b w e same st =
      let building = build_with now b "building" step line none in
      let stored = subst (λ i. Stored i w) (sym e) st in
      let written = record w { builds = insert building.id building w.builds } in
      rw (write_build-Stored building w stored) (
        h building written e same (
          building,
          subst (λ i. lookup i written.builds ≡ some building) e (lookup_written building w.builds),
        ))

  pub Finishing-fail_build :
      (id : String) (artifacts : List EnvironmentArtifactRecord) (step : String) (line : LogLine)
      → Finishing id artifacts (λ b w. fail_build a now b step line w)
  Finishing-fail_build id artifacts step line b w e same st =
      subst (λ i. Finished i (fail_build a now b step line w)) e
        (Finished-fail_build b step line w (subst (λ i. Stored i w) (sym e) st))

  Finished-finalize :
      (b : EnvironmentBuildRecord) (builds : Dict EnvironmentBuildRecord) (looped : Looped)
      → ((old : EnvironmentBuildRecord) × (lookup b.id builds ≡ some old))
      → Ended b.id builds looped
      → Finished b.id (finalize a now b looped)
  unfolding finalize finished_with build_with
  Finished-finalize b builds (unsaved target digest w) (old, e) kept =
      Finished-fail_build (record b { digest_local = digest }) "tag_and_push_targets"
        (save_artifact_failed target) w (old, (rw kept e))
  Finished-finalize b builds (saved true digest w) (old, e) (kept, ready) =
      Finished-write_build
        (finished_with now (record b { digest_local = digest; image_size_bytes = 0 }) "ready"
          "finalize" build_completed none)
        w (old, (rw kept e)) (inl (refl, ready refl))
  Finished-finalize b builds (saved false digest w) (old, e) (kept, ready) =
      Finished-write_build
        (finished_with now (record b { digest_local = digest; image_size_bytes = 0 }) "failed"
          "finalize" completed_with_failures (some publish_failed))
        w (old, (rw kept e)) (inr (refl, publish_failed, refl))

  -- The artifacts of the build in a table.
  abbrev pub listed : String → List EnvironmentArtifactRecord → List EnvironmentArtifactRecord
  listed id artifacts = list_environment_artifacts id artifacts

  Finished-publish_artifacts :
      (owner local_ref : String) (b : EnvironmentBuildRecord) (w : World)
      → Stored b.id w
      → Finished b.id (publish_artifacts a now owner local_ref (listed b.id w.artifacts) b w)
  unfolding publish_artifacts inspect_image_id run_command
  Finished-publish_artifacts owner local_ref b w st =
      let inspected = inspect_image_id a local_ref w in
      let digest : String = elim inspected.0 [ done id ↦ id | failed e ↦ b.digest_local ] in
      let looped =
        each_artifact a owner local_ref (listed b.id w.artifacts) true digest inspected.1 in
      Finished-finalize b w.builds looped st
        (Ended-each_listed a owner local_ref b.id digest inspected.1)

  pub Finishing-publish_artifacts :
      (owner local_ref id : String) (artifacts : List EnvironmentArtifactRecord)
      → Finishing id artifacts (publish_artifacts a now owner local_ref (listed id artifacts))
  Finishing-publish_artifacts owner local_ref id artifacts b w e same st =
      subst (λ rows. Finished id (publish_artifacts a now owner local_ref (listed id rows) b w))
        same
        (subst
          (λ i. Finished i (publish_artifacts a now owner local_ref (listed i w.artifacts) b w)) e
          (Finished-publish_artifacts owner local_ref b w (subst (λ i. Stored i w) (sym e) st)))
