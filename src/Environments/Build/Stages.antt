-- ===== src/Environments/Build/Stages.antt =====
-- The stages of a build, from its spec on, come to an end (internal/environments/manager.go).
use stacyvm.Base.{
  ℕ, String, ◌≡◌, refl, sym, subst, ◌∙◌, inl, inr, false, not, some, List, ◌==◌, Bool-cases,
  Option-cases, length, is_empty, trim_space, lookup,
}
use stacyvm.Environments.Records.{
  EnvironmentSpecRecord, LogLine, list_artifacts_failed, no_artifacts_requested,
  docker_build_started, base_image_empty, invalid_python_list, invalid_apt_list, validated_packages,
  dockerfile_generated, docker_build_completed, docker_build_failed, load_spec_failed,
  build_started, EnvironmentBuildRecord, EnvironmentArtifactRecord, World, Answers,
  list_environment_artifacts,
}
use stacyvm.Environments.Dockerfile.{validate_packages}
use stacyvm.Environments.Build.{
  is_final, process_build, advance, build_local_image, publish_artifacts, build_image,
  check_artifacts, check_spec, load_spec, run_build, local_ref_of, local_build_ref,
}
use stacyvm.Environments.Build.Artifacts.{Kept-build_local_image}
use stacyvm.Environments.Build.Finishing.{
  Finished, Stored, Up, Finishing-advance, Finishing-fail_build, Finished-fail_build,
  Finishing-publish_artifacts, Finishing, listed,
}

module _ (a : Answers) (up : Up a) (now : ℕ) where
  Finishing-build_image :
      (spec : EnvironmentSpecRecord) (id : String) (artifacts : List EnvironmentArtifactRecord)
      → Finishing a up now id artifacts (build_image a now spec (listed a up now id artifacts))
  unfolding build_image
  Finishing-build_image spec id artifacts b w e same (old, found) =
      let local_ref = local_ref_of (local_build_ref b.id) (listed a up now id artifacts) in
      let apt = a.decode_pkg_list spec.apt_packages in
      let python = a.decode_pkg_list spec.python_packages in
      let built = build_local_image a spec.base_image apt python local_ref w in
      let kept = Kept-build_local_image a spec.base_image apt python local_ref w in
      let stored : Stored id built.1 = (old, (rw kept.0 found)) in
      elim (Option-cases built.0) [
        | inl none_e ↦
            rw (build_image, none_e)
              (Finishing-advance a up now id artifacts "docker_build" docker_build_completed
                (publish_artifacts a now spec.owner_id local_ref (listed a up now id artifacts))
                (Finishing-publish_artifacts a up now spec.owner_id local_ref id artifacts) b
                built.1 e (kept.1 ∙ same) stored)
        | inr (x, some_e) ↦
            rw (build_image, some_e)
              (Finishing-fail_build a up now id artifacts "docker_build" (docker_build_failed x) b
                built.1 e (kept.1 ∙ same) stored)
      ]

  Finished-check_artifacts :
      (spec : EnvironmentSpecRecord) (b : EnvironmentBuildRecord) (w : World)
      → Stored b.id w
      → Finished b.id (check_artifacts a now spec b w)
  unfolding check_artifacts
  Finished-check_artifacts spec b w st =
      let failing =
        λ (line : LogLine). Finished-fail_build a up now b "tag_and_push_targets" line w st in
      let artifacts = list_environment_artifacts b.id w.artifacts in
      elim (Bool-cases (not a.artifacts_listed)) [
        | inl n ↦ rw (check_artifacts, n) (failing list_artifacts_failed)
        | inr y ↦ elim (Bool-cases (length artifacts == 0)) [
          | inl blank ↦ rw (check_artifacts, y, blank) (failing no_artifacts_requested)
          | inr more ↦
              rw (check_artifacts, y, more)
                (Finishing-advance a up now b.id w.artifacts "docker_build" docker_build_started
                  (build_image a now spec (listed a up now b.id w.artifacts))
                  (Finishing-build_image spec b.id w.artifacts) b w refl refl st)
        ]
      ]

  Finishing-check_artifacts :
      (spec : EnvironmentSpecRecord) (id : String) (artifacts : List EnvironmentArtifactRecord)
      → Finishing a up now id artifacts (check_artifacts a now spec)
  Finishing-check_artifacts spec id artifacts b w e same st =
      subst (λ i. Finished i (check_artifacts a now spec b w)) e
        (Finished-check_artifacts spec b w (subst (λ i. Stored i w) (sym e) st))

  Finishing-check_spec :
      (spec : EnvironmentSpecRecord) (id : String) (artifacts : List EnvironmentArtifactRecord)
      → Finishing a up now id artifacts (check_spec a now spec)
  unfolding check_spec
  Finishing-check_spec spec id artifacts b w e same st =
      let failing = λ (line : LogLine).
        Finishing-fail_build a up now id artifacts "validate_spec" line b w e same st in
      let python = a.decode_pkg_list spec.python_packages in
      let apt = a.decode_pkg_list spec.apt_packages in
      elim (Bool-cases (is_empty (trim_space spec.base_image))) [
        | inl blank ↦ rw (check_spec, blank) (failing base_image_empty)
        | inr named ↦ elim (Option-cases (validate_packages python)) [
          | inr (p, bad) ↦ rw (check_spec, named, bad) (failing (invalid_python_list p))
          | inl good ↦ elim (Option-cases (validate_packages apt)) [
            | inr (p, bad) ↦ rw (check_spec, named, good, bad) (failing (invalid_apt_list p))
            | inl fine ↦
                rw (check_spec, named, good, fine)
                  (Finishing-advance a up now id artifacts "validate_spec"
                    (validated_packages (length python) (length apt))
                    (λ b.
                      advance a now b "generate_dockerfile" dockerfile_generated
                        (check_artifacts a now spec))
                    (Finishing-advance a up now id artifacts "generate_dockerfile"
                      dockerfile_generated (check_artifacts a now spec)
                      (Finishing-check_artifacts spec id artifacts))
                    b w e same st)
          ]
        ]
      ]

  Finishing-load_spec :
      (id : String) (artifacts : List EnvironmentArtifactRecord)
      → Finishing a up now id artifacts (load_spec a now)
  unfolding load_spec
  Finishing-load_spec id artifacts b w e same st = elim (Option-cases (a.spec b.spec_id)) [
    | inl missing ↦
        rw (load_spec, missing)
          (Finishing-fail_build a up now id artifacts "validate_spec" load_spec_failed b w e same
            st)
    | inr (spec, found) ↦
        rw (load_spec, found) (Finishing-check_spec spec id artifacts b w e same st)
  ]

  pub Finished-run_build :
      (b : EnvironmentBuildRecord) (w : World) → Stored b.id w → Finished b.id (run_build a now b w)
  unfolding run_build
  Finished-run_build b w st =
      Finishing-advance a up now b.id w.artifacts "validate_spec" build_started (load_spec a now)
        (Finishing-load_spec b.id w.artifacts) b w refl refl st

  pub Finished-process_build :
      (id : String) (b : EnvironmentBuildRecord) (w : World)
      → lookup id w.builds ≡ some b
      → b.id ≡ id
      → is_final b.status ≡ false
      → Finished id (process_build a now id w)
  unfolding process_build
  Finished-process_build id b w found e going =
      rw (process_build, found, going)
        (subst (λ i. Finished i (run_build a now b w)) e
          (Finished-run_build b w (b, subst (λ i. lookup i w.builds ≡ some b) (sym e) found)))
