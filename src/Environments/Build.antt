-- ===== src/Environments/Build.antt =====
-- processBuild of internal/environments/manager.go with what it calls. An outcome that stops a build
-- with the database's error is `false`; the clock stands still while one build is processed.
mod Artifacts
pub mod Commands
pub mod Finishing
mod Stages
pub mod Finished
use stacyvm.Base.{
  ℕ, zero, suc, ◌+◌, ◌-◌, ◌*◌, ◌/◌, ◌%◌, ◌^◌, ◌≤◌, ◌<◌, String, ◌≡◌, refl, sym, ap, subst, ◌∙◌, ◌≢◌,
  ◌↔◌, ◌⊎◌, inl, inr, Bool, true, false, not, ◌&&◌, ◌||◌, Option, none, some, List, [], ◌∷◌, ◌++◌,
  map, arith, eq_iff, eq_refl, ltb, leb, ◌==◌, if◌then◌else◌, ltb→lt, lt→ltb, leb→le, ==_iff,
  Bool-cases, Option-cases, length, get_elem?, set, get_or, take, drop, replicate, length-append,
  length-set, take-append-drop, length-take, length-drop, append_assoc_list, drop-set, ℤ, pos,
  negsuc, pos_part, neg_part, sub_ℕ, ◌+ℤ◌, ◌≤ℤ◌, ◌<ℤ◌, ltb_ℤ, leb_ℤ, is_pos, +ℤ_parts, str_eq,
  is_empty, codes, is_space, trim_space, fold, equal_fold, equal_fold_refl, Dict, lookup, insert,
  delete, lookup-insert, lookup-delete, length-insert, length-delete, length-insert_found,
}
use Prim.Native.String
use stacyvm.Environments.Records.{
  EnvironmentSpecRecord, LogLine, build_started, canceled_by_user, dockerfile_generated,
  docker_build_started, docker_build_completed, build_completed, base_image_empty,
  no_artifacts_requested, completed_with_failures, publish_failed, load_spec_failed,
  list_artifacts_failed, invalid_python_list, invalid_apt_list, save_artifact_failed,
  docker_build_failed, validated_packages, EnvironmentBuildRecord, EnvironmentArtifactRecord, World,
  Answers, output, run_failed, run_command, update_environment_build, save_environment_artifact,
  list_environment_artifacts,
}
use stacyvm.Environments.Dockerfile.{validate_packages, generate_dockerfile}
use stacyvm.Environments.Attempts.{Looped, saved, unsaved, each_artifact}
use stacyvm.Environments.Publish.{Outcome, done, failed, publish_to_target, inspect_image_id}

-- The record with the status, the step, a line of the log, and an error where there is one.
unfoldable pub build_with :
    ℕ → EnvironmentBuildRecord → String → String → LogLine → Option LogLine → EnvironmentBuildRecord
build_with now build status step line error = record build {
  status = status;
  current_step = step;
  log = build.log ++ (line ∷ []);
  error = elim error [ none ↦ build.error | some e ↦ some e ];
  updated_at = now;
}

-- The record as the last write of a build has it.
unfoldable pub finished_with :
    ℕ → EnvironmentBuildRecord → String → String → LogLine → Option LogLine → EnvironmentBuildRecord
unfolding build_with
finished_with now build status step line error =
    build_with now (record build { finished_at = some now }) status step line error

-- The write of a record.
unfoldable pub write_build : Answers → EnvironmentBuildRecord → World → Bool × World
unfolding update_environment_build
write_build a build w = update_environment_build (a.build_up build) build w

-- failBuild.
unfoldable pub fail_build :
    Answers → ℕ → EnvironmentBuildRecord → String → LogLine → World → Bool × World
unfolding finished_with write_build
fail_build a now build step line w =
    write_build a (finished_with now build "failed" step line (some line)) w

-- updateBuild on the way, and what follows on the record as it is then, where the write succeeds.
unfoldable pub advance :
    Answers
    → ℕ
    → EnvironmentBuildRecord
    → String
    → LogLine
    → (EnvironmentBuildRecord → World → Bool × World)
    → World
    → Bool × World
unfolding build_with write_build
advance a now build step line next w =
    let building = build_with now build "building" step line none in
    let written = write_build a building w in if written.0 then next building written.1 else written

-- localBuildRef.
unfoldable pub first_codes : ℕ → String → String
first_codes zero s = String.[]
first_codes (suc n) String.[] = String.[]
first_codes (suc n) (String.◌∷◌ c s) = String.◌∷◌ c (first_codes n s)

unfoldable pub local_build_ref : String → String
unfolding first_codes
local_build_ref build_id = String.◌++◌ "local/stacyvm-env:" (first_codes 8 build_id)

-- The reference of the first artifact for "local", or the one made from the build's id.
unfoldable pub local_ref_of : String → List EnvironmentArtifactRecord → String
local_ref_of otherwise [] = otherwise
local_ref_of otherwise (x ∷ xs) =
    if str_eq x.target "local" then x.image_ref else local_ref_of otherwise xs

-- buildLocalImage: `none` where it succeeds.
unfoldable pub build_local_image :
    Answers → String → List String → List String → String → World → Option String × World
unfolding run_command generate_dockerfile
build_local_image a base_image apt_pkgs py_pkgs tag w =
    elim (a.dockerfile_written (generate_dockerfile base_image apt_pkgs py_pkgs)) [
      | none ↦ (some "write Dockerfile", w)
      | some dir ↦
          let built = run_command a "" ("build" ∷ "-t" ∷ tag ∷ dir ∷ []) w in
          (
            elim built.0 [
              | output text ↦ none
              | run_failed e ↦ some (String.◌++◌ "docker build failed: " e)
            ],
            built.1,
          )
    ]

-- The last write.
unfoldable pub finalize : Answers → ℕ → EnvironmentBuildRecord → Looped → Bool × World
unfolding fail_build finished_with write_build
finalize a now build (unsaved target digest w) =
    fail_build a now (record build { digest_local = digest }) "tag_and_push_targets"
      (save_artifact_failed target) w
finalize a now build (saved all_ready digest w) =
    let built = record build { digest_local = digest; image_size_bytes = 0 } in
    if all_ready
    then write_build a (finished_with now built "ready" "finalize" build_completed none) w
    else write_build a
        (finished_with now built "failed" "finalize" completed_with_failures (some publish_failed))
        w

-- After the image is built: its id, and the artifacts.
unfoldable pub publish_artifacts :
    Answers
    → ℕ
    → String
    → String
    → List EnvironmentArtifactRecord
    → EnvironmentBuildRecord
    → World
    → Bool × World
unfolding inspect_image_id each_artifact finalize
publish_artifacts a now owner_id local_ref artifacts build w =
    let inspected = inspect_image_id a local_ref w in
    let digest : String = elim inspected.0 [ done id ↦ id | failed e ↦ build.digest_local ] in
    finalize a now build (each_artifact a owner_id local_ref artifacts true digest inspected.1)

unfoldable pub build_image :
    Answers
    → ℕ
    → EnvironmentSpecRecord
    → List EnvironmentArtifactRecord
    → EnvironmentBuildRecord
    → World
    → Bool × World
unfolding build_local_image advance fail_build publish_artifacts local_ref_of local_build_ref
build_image a now spec artifacts build w =
    let local_ref = local_ref_of (local_build_ref build.id) artifacts in
    let apt = a.decode_pkg_list spec.apt_packages in
    let python = a.decode_pkg_list spec.python_packages in
    let built = build_local_image a spec.base_image apt python local_ref w in
    elim built.0 [
      | some e ↦ fail_build a now build "docker_build" (docker_build_failed e) built.1
      | none ↦
          advance a now build "docker_build" docker_build_completed
            (publish_artifacts a now spec.owner_id local_ref artifacts) built.1
    ]

unfoldable pub check_artifacts :
    Answers → ℕ → EnvironmentSpecRecord → EnvironmentBuildRecord → World → Bool × World
unfolding advance fail_build build_image
check_artifacts a now spec build w =
    let artifacts = list_environment_artifacts build.id w.artifacts in
    if not a.artifacts_listed
    then fail_build a now build "tag_and_push_targets" list_artifacts_failed w
    else if length artifacts == 0
    then fail_build a now build "tag_and_push_targets" no_artifacts_requested w
    else advance a now build "docker_build" docker_build_started (build_image a now spec artifacts)
        w

unfoldable pub check_spec :
    Answers → ℕ → EnvironmentSpecRecord → EnvironmentBuildRecord → World → Bool × World
unfolding advance fail_build check_artifacts validate_packages trim_space
check_spec a now spec build w =
    let python = a.decode_pkg_list spec.python_packages in
    let apt = a.decode_pkg_list spec.apt_packages in
    if is_empty (trim_space spec.base_image)
    then fail_build a now build "validate_spec" base_image_empty w
    else elim (validate_packages python) [
      | some p ↦ fail_build a now build "validate_spec" (invalid_python_list p) w
      | none ↦ elim (validate_packages apt) [
        | some p ↦ fail_build a now build "validate_spec" (invalid_apt_list p) w
        | none ↦
            advance a now build "validate_spec" (validated_packages (length python) (length apt))
              (λ validated.
                advance a now validated "generate_dockerfile" dockerfile_generated
                  (check_artifacts a now spec))
              w
      ]
    ]

unfoldable pub load_spec : Answers → ℕ → EnvironmentBuildRecord → World → Bool × World
unfolding check_spec fail_build
load_spec a now build w = elim (a.spec build.spec_id) [
  | none ↦ fail_build a now build "validate_spec" load_spec_failed w
  | some spec ↦ check_spec a now spec build w
]

-- processBuild from its first write on, on the record that it has read.
unfoldable pub run_build : Answers → ℕ → EnvironmentBuildRecord → World → Bool × World
unfolding advance load_spec
run_build a now build w = advance a now build "validate_spec" build_started (load_spec a now) w

unfoldable pub is_final : String → Bool
is_final status = str_eq status "canceled" || (str_eq status "ready" || str_eq status "failed")

unfoldable pub process_build : Answers → ℕ → String → World → Bool × World
unfolding run_build is_final
process_build a now build_id w = elim (lookup build_id w.builds) [
  | none ↦ (false, w)
  | some build ↦ if is_final build.status then (true, w) else run_build a now build w
]

-- CancelBuild of internal/api/routes/environments.go: false where there is no such build, where it is over,
-- or where the database fails.
unfoldable pub cancel_build : Answers → ℕ → String → World → Bool × World
unfolding is_final write_build
cancel_build a now build_id w = elim (lookup build_id w.builds) [
  | none ↦ (false, w)
  | some build ↦
      if is_final build.status
      then (false, w)
      else write_build a
          (record build {
            status = "canceled";
            current_step = "canceled";
            error = some canceled_by_user;
            finished_at = some now;
            updated_at = now;
          })
          w
]
