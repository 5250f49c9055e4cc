-- ===== src/Environments/Attempts.antt =====
-- What processBuild of internal/environments/manager.go makes of each artifact: the loop over them.
use stacyvm.Base.{
  String, Bool, true, false, ◌&&◌, ◌||◌, List, [], ◌∷◌, if◌then◌else◌, str_eq, is_empty,
}
use Prim.Native.String
use stacyvm.Environments.Records.{
  EnvironmentArtifactRecord, World, Answers, save_environment_artifact,
}
use stacyvm.Environments.Publish.{Outcome, done, failed, publish_to_target, inspect_image_id}

-- An artifact that is done with a digest, or that failed.
unfoldable pub artifact_ready : EnvironmentArtifactRecord → String → EnvironmentArtifactRecord
artifact_ready x digest = record x { status = "ready"; digest = digest; error = "" }

unfoldable pub artifact_failed : EnvironmentArtifactRecord → String → EnvironmentArtifactRecord
artifact_failed x text = record x { status = "failed"; error = text }

-- What a target makes of its artifact: whether it is ready, the record, the digest of the local image,
-- and the state.
pub record Attempt : Type 0 where
  pub ready : Bool
  pub artifact : EnvironmentArtifactRecord
  pub digest_local : String
  pub world : World

-- The case "local".
unfoldable pub attempt_local :
    Answers → String → EnvironmentArtifactRecord → String → World → Attempt
unfolding inspect_image_id artifact_ready artifact_failed
attempt_local a local_ref x digest_local w =
    let inspected = inspect_image_id a local_ref w in
    elim inspected.0 [
      | failed e ↦ record {
        ready = false;
        artifact = artifact_failed x (String.◌++◌ "inspect local image: " e);
        digest_local = digest_local;
        world = inspected.1;
      }
      | done id ↦ record {
        ready = true;
        artifact = artifact_ready x id;
        digest_local = id;
        world = inspected.1;
      }
    ]

-- The case of a registry, on what publishToTarget answers.
unfoldable pub settle_published :
    Answers → EnvironmentArtifactRecord → String → Outcome × World → Attempt
unfolding inspect_image_id artifact_ready artifact_failed
settle_published a x digest_local (failed e, w) = record {
  ready = false;
  artifact = artifact_failed x e;
  digest_local = digest_local;
  world = w;
}
settle_published a x digest_local (done ref, w) =
    let inspected = inspect_image_id a x.image_ref w in
    record {
      ready = true;
      artifact = artifact_ready x (elim inspected.0 [ done id ↦ id | failed e ↦ x.digest ]);
      digest_local = digest_local;
      world = inspected.1;
    }

unfoldable pub attempt_publish :
    Answers → String → String → EnvironmentArtifactRecord → String → World → Attempt
unfolding publish_to_target settle_published
attempt_publish a owner_id local_ref x digest_local w =
    let published = publish_to_target a owner_id x.target local_ref x.image_ref w in
    let ref = if is_empty published.0 then x.image_ref else published.0 in
    settle_published a (record x { image_ref = ref }) digest_local (published.1, published.2)

unfoldable pub attempt :
    Answers → String → String → EnvironmentArtifactRecord → String → World → Attempt
unfolding attempt_local attempt_publish artifact_failed
attempt a owner_id local_ref x digest_local w =
    if str_eq x.target "local"
    then attempt_local a local_ref x digest_local w
    else if str_eq x.target "ghcr" || str_eq x.target "dockerhub"
    then attempt_publish a owner_id local_ref x digest_local w
    else record {
      ready = false;
      artifact = artifact_failed x "unsupported target";
      digest_local = digest_local;
      world = w;
    }

-- Where the loop over the artifacts ends: all were saved, and whether each one is ready; or the target
-- of the one that could not be saved.
pub data Looped : Type 0 where
  saved : Bool → String → World → Looped
  unsaved : String → String → World → Looped

unfoldable pub each_artifact :
    Answers → String → String → List EnvironmentArtifactRecord → Bool → String → World → Looped
unfolding attempt save_environment_artifact
each_artifact a owner_id local_ref [] all_ready digest_local w = saved all_ready digest_local w
each_artifact a owner_id local_ref (x ∷ xs) all_ready digest_local w =
    let t = attempt a owner_id local_ref x digest_local w in
    let kept = record t.world {
      artifacts = save_environment_artifact t.artifact t.world.artifacts;
    } in
    let rest = each_artifact a owner_id local_ref xs (all_ready && t.ready) t.digest_local kept in
    if a.artifact_up t.artifact then rest else unsaved x.target t.digest_local t.world
