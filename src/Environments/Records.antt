-- ===== src/Environments/Records.antt =====
-- The rows of internal/store/store.go that a build reads and writes, their statements in
-- internal/store/sqlite.go, and the commands of internal/environments/manager.go.
use stacyvm.Base.{
  ℕ, String, Bool, true, false, ◌&&◌, ◌||◌, Option, none, some, List, [], ◌∷◌, ◌++◌, if◌then◌else◌,
  str_eq, Dict, lookup, insert,
}

pub record EnvironmentSpecRecord : Type 0 where
  pub id : String
  pub owner_id : String
  pub base_image : String
  pub python_packages : String
  pub apt_packages : String

-- A line of a build's log, for the text that the source writes.
pub data LogLine : Type 0 where
  build_queued build_started dockerfile_generated docker_build_started : LogLine
  docker_build_completed build_completed base_image_empty no_artifacts_requested : LogLine
  completed_with_failures publish_failed load_spec_failed list_artifacts_failed : LogLine
  canceled_by_user : LogLine
  invalid_python_list invalid_apt_list save_artifact_failed docker_build_failed : String → LogLine
  -- How many packages of pip and of apt.
  validated_packages : ℕ → ℕ → LogLine

-- `log` is LogBlob by its lines, the oldest first; `error` is Error, `none` for the empty text.
pub record EnvironmentBuildRecord : Type 0 where
  pub id : String
  pub spec_id : String
  pub status : String
  pub current_step : String
  pub log : List LogLine
  pub image_size_bytes : ℕ
  pub digest_local : String
  pub error : Option LogLine
  pub finished_at : Option ℕ
  pub updated_at : ℕ

pub record EnvironmentArtifactRecord : Type 0 where
  pub build_id : String
  pub target : String
  pub image_ref : String
  pub digest : String
  pub status : String
  pub error : String

pub record RegistryConnectionRecord : Type 0 where
  pub owner_id : String
  pub provider : String
  pub username : String
  pub secret_ref : String
  pub is_default : Bool

-- A call of CommandRunner.Run for docker: what it is given on its standard input, and the arguments.
pub record Command : Type 0 where
  pub stdin : String
  pub args : List String

-- The tables, with the newest connection first, and the commands that were run, the last one first.
pub record World : Type 0 where
  pub builds : Dict EnvironmentBuildRecord
  pub artifacts : List EnvironmentArtifactRecord
  pub connections : List RegistryConnectionRecord
  pub commands : List Command

-- What a command answers: its output, or the text of its error.
pub data Run : Type 0 where
  output : String → Run
  run_failed : String → Run

-- What is answered to a build: the packages that JSON makes of a text, a spec, whether the artifacts
-- and the connections can be listed, what a command answers after the ones before it, whether the
-- directory with the Dockerfile can be written and its name, and whether the database takes a write.
pub record Answers : Type 0 where
  pub decode_pkg_list : String → List String
  pub spec : String → Option EnvironmentSpecRecord
  pub artifacts_listed : Bool
  pub connections_listed : Bool
  pub run : List Command → Run
  pub dockerfile_written : String → Option String
  pub build_up : EnvironmentBuildRecord → Bool
  pub artifact_up : EnvironmentArtifactRecord → Bool

-- Run.
unfoldable pub run_command : Answers → String → List String → World → Run × World
run_command a stdin args w =
    let commands = record { stdin = stdin; args = args } ∷ w.commands in
    (a.run commands, record w { commands = commands })

-- UpdateEnvironmentBuild: false where the database fails, or has no such row.
unfoldable pub update_environment_build : Bool → EnvironmentBuildRecord → World → Bool × World
update_environment_build up build w = elim (lookup build.id w.builds) [
  | none ↦ (false, w)
  | some old ↦
      if up then (true, record w { builds = insert build.id build w.builds }) else (false, w)
]

abbrev pub same_artifact : EnvironmentArtifactRecord → EnvironmentArtifactRecord → Bool
same_artifact x y = str_eq x.build_id y.build_id && str_eq x.target y.target

unfoldable pub has_artifact : EnvironmentArtifactRecord → List EnvironmentArtifactRecord → Bool
has_artifact x [] = false
has_artifact x (y ∷ ys) = same_artifact y x || has_artifact x ys

unfoldable pub replace_artifact :
    EnvironmentArtifactRecord → List EnvironmentArtifactRecord → List EnvironmentArtifactRecord
replace_artifact x [] = []
replace_artifact x (y ∷ ys) =
    let rest = replace_artifact x ys in if same_artifact y x then x ∷ rest else y ∷ rest

-- SaveEnvironmentArtifact: the row of the build and the target is written over, or a new one put last.
unfoldable pub save_environment_artifact :
    EnvironmentArtifactRecord → List EnvironmentArtifactRecord → List EnvironmentArtifactRecord
unfolding has_artifact replace_artifact
save_environment_artifact x rows =
    if has_artifact x rows then replace_artifact x rows else rows ++ (x ∷ [])

-- ListEnvironmentArtifacts.
unfoldable pub list_environment_artifacts :
    String → List EnvironmentArtifactRecord → List EnvironmentArtifactRecord
list_environment_artifacts build_id [] = []
list_environment_artifacts build_id (x ∷ xs) =
    let rest = list_environment_artifacts build_id xs in
    if str_eq x.build_id build_id then x ∷ rest else rest

-- ListRegistryConnections.
unfoldable pub list_registry_connections :
    String → List RegistryConnectionRecord → List RegistryConnectionRecord
list_registry_connections owner_id [] = []
list_registry_connections owner_id (c ∷ cs) =
    let rest = list_registry_connections owner_id cs in
    if str_eq c.owner_id owner_id then c ∷ rest else rest
