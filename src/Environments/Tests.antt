-- ===== src/Environments/Tests.antt =====
-- Tests of the builds of internal/environments/manager.go, on one build with a local artifact and one for
-- a registry.
use stacyvm.Base.{
  ◌≤◌, String, ◌≡◌, refl, true, false, none, some, List, [], ◌∷◌, ◌++◌, arith, if◌then◌else◌,
  length, str_eq, trim_space, lookup,
}
use stacyvm.Environments.Records.{
  EnvironmentSpecRecord, build_queued, EnvironmentBuildRecord, EnvironmentArtifactRecord,
  RegistryConnectionRecord, World, Answers, output,
}
use stacyvm.Environments.Dockerfile.{validate_packages, generate_dockerfile}
use stacyvm.Environments.Dockerfile.Lines.{
  newlines, generate_dockerfile-lines, padded_package_injects,
}
use stacyvm.Environments.Publish.{extract_tag, build_registry_image_ref}
use stacyvm.Environments.Build.{is_final, run_build, process_build, cancel_build}
use stacyvm.Environments.Build.Finishing.{Finished}
use stacyvm.Environments.Build.Finished.{
  process_build-Finished, process_build-once, cancel_build-lost,
}
use stacyvm.Environments.Jobs.{Jobs}
use stacyvm.Environments.Jobs.Fifo.{
  JobStep, put, receive, stop, accepted, received, after, jobs_fifo,
}

abbrev tools : EnvironmentSpecRecord
tools = record {
  id = "spec-1";
  owner_id = "user-1";
  base_image = "python:3.12-slim";
  python_packages = "[\"pandas\"]";
  apt_packages = "[]";
}

abbrev build_1 : EnvironmentBuildRecord
build_1 = record {
  id = "build-1";
  spec_id = "spec-1";
  status = "queued";
  current_step = "queued";
  log = build_queued ∷ [];
  image_size_bytes = 0;
  digest_local = "";
  error = none;
  finished_at = none;
  updated_at = 1;
}

abbrev artifact : String → String → EnvironmentArtifactRecord
artifact target ref = record {
  build_id = "build-1";
  target = target;
  image_ref = ref;
  digest = "";
  status = "pending";
  error = "";
}

abbrev registry : RegistryConnectionRecord
registry = record {
  owner_id = "user-1";
  provider = "ghcr";
  username = "User";
  secret_ref = "token";
  is_default = true;
}

abbrev start : World
start = record {
  builds = ("build-1", build_1) ∷ [];
  artifacts = artifact "local" "local/stacyvm-env:test" ∷ artifact "ghcr" "x:v1" ∷ [];
  connections = registry ∷ [];
  commands = [];
}

abbrev works : Answers
works = record {
  decode_pkg_list = λ text. if str_eq text "[]" then [] else "pandas" ∷ [];
  spec = λ id. some tools;
  artifacts_listed = true;
  connections_listed = true;
  run = λ commands. output "sha256:1";
  dockerfile_written = λ text. some "/tmp/stacyvm-env-build-1";
  build_up = λ build. true;
  artifact_up = λ artifact. true;
}

-- What an image is pushed as.
ref_test : build_registry_image_ref "ghcr" " User " "x/y:v1" ≡ "ghcr.io/user/stacyvm-env:v1"
unfolding build_registry_image_ref
ref_test = refl

untagged_test : extract_tag "host:5000/y" ≡ "latest"
unfolding extract_tag
untagged_test = refl

dockerfile_test :
    generate_dockerfile "alpine" [] ("a" ∷ "b" ∷ [])
    ≡ "FROM alpine\nRUN pip install --no-cache-dir a b\nRUN mkdir -p /workspace /output /data\nWORKDIR /workspace\n"
unfolding generate_dockerfile
dockerfile_test = refl

process_build-Finished_example : Finished "build-1" (process_build works 9 "build-1" start)
unfolding is_final lookup
process_build-Finished_example =
    process_build-Finished works 9 "build-1" build_1 start (λ b. refl) refl refl refl

process_build-once_instance :
    process_build works 11 "build-1" (process_build works 9 "build-1" start).1
    ≡ (true, (process_build works 9 "build-1" start).1)
unfolding lookup
process_build-once_instance =
    process_build-once works works 9 11 "build-1" build_1 start (λ b. refl) refl refl

cancel_build-lost_example :
    ((cancel_build works 9 "build-1" start).0 ≡ true)
    × ((c : EnvironmentBuildRecord) × (lookup "build-1"
            (cancel_build works 9 "build-1" start).1.builds
          ≡ some c)
        × (c.status ≡ "canceled"))
    × Finished "build-1" (run_build works 11 build_1 (cancel_build works 9 "build-1" start).1)
unfolding is_final lookup
cancel_build-lost_example =
    cancel_build-lost works 9 11 "build-1" build_1 start (λ b. refl) refl refl refl

generate_dockerfile-lines_example :
    newlines (generate_dockerfile "alpine" ("git" ∷ []) ("pandas" ∷ "numpy" ∷ [])) ≡ 5
unfolding validate_packages trim_space
generate_dockerfile-lines_example =
    generate_dockerfile-lines "alpine" ("git" ∷ []) ("pandas" ∷ "numpy" ∷ []) refl refl (refl, tt)
      (refl, (refl, tt))

padded_package_injects_example :
    (validate_packages ("pip\n" ∷ "RUN" ∷ "reboot" ∷ []) ≡ none)
    × (generate_dockerfile "alpine" [] ("pip\n" ∷ "RUN" ∷ "reboot" ∷ [])
        ≡ "FROM alpine\nRUN pip install --no-cache-dir pip\n RUN reboot\nRUN mkdir -p /workspace /output /data\nWORKDIR /workspace\n")
unfolding validate_packages trim_space
padded_package_injects_example = padded_package_injects "alpine" "reboot" refl

abbrev blank_queue : Jobs
blank_queue = record { stopped = false; jobs = [] }

abbrev some_steps : List JobStep
some_steps = put true "a" ∷ put true "b" ∷ receive ∷ stop ∷ put false "c" ∷ []

jobs_fifo_example :
    (received some_steps blank_queue ++ (after some_steps blank_queue).jobs
      ≡ accepted some_steps blank_queue)
    × (length (after some_steps blank_queue).jobs ≤ 128)
jobs_fifo_example = jobs_fifo some_steps blank_queue (omega arith)
