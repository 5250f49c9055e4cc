-- ===== src/Environments/Build/Artifacts.antt =====
-- What the loop over the artifacts of a build leaves behind (internal/environments/manager.go).
use stacyvm.Base.{
  String, ◌≡◌, refl, sym, subst, ◌∙◌, ◌⊎◌, inl, inr, Bool, true, false, ◌&&◌, ◌||◌, List, [], ◌∷◌,
  ◌++◌, arith, eq_iff, eq_refl, if◌then◌else◌, Bool-cases, str_eq, is_empty, Dict,
}
use stacyvm.Environments.Records.{
  EnvironmentBuildRecord, list_environment_artifacts, EnvironmentArtifactRecord, World, Answers,
  run_command, same_artifact, has_artifact, replace_artifact, save_environment_artifact,
}
use stacyvm.Environments.Publish.{
  Outcome, done, failed, push_image, tag_image, log_in, publish_to_target, inspect_image_id,
}
use stacyvm.Environments.Attempts.{
  Looped, saved, unsaved, each_artifact, artifact_ready, artifact_failed, Attempt, attempt_local,
  settle_published, attempt_publish, attempt,
}
use stacyvm.Environments.Build.{build_local_image}

-- Commands change neither the builds nor the artifacts.
abbrev pub Kept : World → World → Type 0
Kept w w' = (w'.builds ≡ w.builds) × (w'.artifacts ≡ w.artifacts)

pub Kept-inspect_image_id :
    (a : Answers) (ref : String) (w : World) → Kept w (inspect_image_id a ref w).1
unfolding inspect_image_id run_command
Kept-inspect_image_id a ref w = (refl, refl)

Kept-push_image : (a : Answers) (ref : String) (w : World) → Kept w (push_image a ref w).1
unfolding push_image run_command
Kept-push_image a ref w = (refl, refl)

Kept-tag_image :
    (a : Answers) (source ref : String) (w : World) → Kept w (tag_image a source ref w).1
unfolding tag_image push_image run_command
Kept-tag_image a source ref w = ground arith

Kept-publish_to_target :
    (a : Answers) (owner target source requested : String) (w : World)
    → Kept w (publish_to_target a owner target source requested w).2
unfolding publish_to_target log_in run_command
Kept-publish_to_target a owner target source requested w = ground arith

pub Kept-build_local_image :
    (a : Answers) (base : String) (apt py : List String) (tag : String) (w : World)
    → Kept w (build_local_image a base apt py tag w).1
unfolding build_local_image run_command
Kept-build_local_image a base apt py tag w = ground arith

-- An attempt for `x`: it is about the row of `x`, and says ready where the row is.
abbrev Attempted : EnvironmentArtifactRecord → World → Attempt → Type 0
Attempted x w t =
    Kept w t.world
    × (t.artifact.build_id ≡ x.build_id)
    × (t.artifact.target ≡ x.target)
    × (t.ready ≡ true → t.artifact.status ≡ "ready")

Attempted-attempt_local :
    (a : Answers) (local_ref : String) (x : EnvironmentArtifactRecord) (digest : String) (w : World)
    → Attempted x w (attempt_local a local_ref x digest w)
unfolding attempt_local inspect_image_id run_command artifact_ready artifact_failed
Attempted-attempt_local a local_ref x digest w = ground arith

Attempted-settle_published :
    (a : Answers) (x : EnvironmentArtifactRecord) (digest : String) (o : Outcome) (w : World)
    → Attempted x w (settle_published a x digest (o, w))
unfolding settle_published artifact_ready artifact_failed
Attempted-settle_published a x digest (failed e) w = ((refl, refl), refl, refl, λ h. ground arith)
Attempted-settle_published a x digest (done ref) w =
    (Kept-inspect_image_id a x.image_ref w, refl, refl, λ h. refl)

Attempted-attempt_publish :
    (a : Answers) (owner local_ref : String) (x : EnvironmentArtifactRecord) (digest : String)
    (w : World)
    → Attempted x w (attempt_publish a owner local_ref x digest w)
unfolding attempt_publish
Attempted-attempt_publish a owner local_ref x digest w =
    let published = publish_to_target a owner x.target local_ref x.image_ref w in
    let ref = if is_empty published.0 then x.image_ref else published.0 in
    let kept = Kept-publish_to_target a owner x.target local_ref x.image_ref w in
    let settled =
      Attempted-settle_published a (record x { image_ref = ref }) digest published.1 published.2 in
    ((settled.0.0 ∙ kept.0, settled.0.1 ∙ kept.1), settled.1, settled.2, settled.3)

Attempted-attempt :
    (a : Answers) (owner local_ref : String) (x : EnvironmentArtifactRecord) (digest : String)
    (w : World)
    → Attempted x w (attempt a owner local_ref x digest w)
unfolding attempt artifact_failed
Attempted-attempt a owner local_ref x digest w = ground (
  arith,
  Attempted-attempt_local a local_ref x digest w,
  Attempted-attempt_publish a owner local_ref x digest w,
)

-- Each row of the build `b` is ready, or its target is still to come.
abbrev has : String → List String → Bool
has target [] = false
has target (t ∷ ts) = str_eq t target || has target ts

abbrev Awaited : String → List String → List EnvironmentArtifactRecord → Type 0
Awaited b todo [] = Unit
Awaited b todo (r ∷ rs) =
    (r.build_id ≡ b → (r.status ≡ "ready") ⊎ (has r.target todo ≡ true)) × Awaited b todo rs

abbrev pub AllReady : String → List EnvironmentArtifactRecord → Type 0
AllReady b [] = Unit
AllReady b (r ∷ rs) = (r.build_id ≡ b → r.status ≡ "ready") × AllReady b rs

abbrev targets : List EnvironmentArtifactRecord → List String
targets [] = []
targets (x ∷ xs) = x.target ∷ targets xs

AllReady-Awaited :
    (b : String) (rows : List EnvironmentArtifactRecord) → Awaited b [] rows → AllReady b rows
AllReady-Awaited b [] h = tt
AllReady-Awaited b (r ∷ rs) (h, hs) = ((λ e. ground (arith, h e)), AllReady-Awaited b rs hs)

replace-Awaited :
    (b : String) (todo : List String) (x : EnvironmentArtifactRecord)
    (rows : List EnvironmentArtifactRecord)
    → x.build_id ≡ b
    → x.status ≡ "ready"
    → Awaited b (x.target ∷ todo) rows
    → Awaited b todo (replace_artifact x rows)
unfolding replace_artifact
replace-Awaited b todo x [] e s h = tt
replace-Awaited b todo x (r ∷ rs) e s (h, hs) = elim (Bool-cases (same_artifact r x)) [
  | inl same ↦ rw same ((λ f. inl s), replace-Awaited b todo x rs e s hs)
  | inr other ↦ rw other (
    (λ f. ground (
      arith,
      h f,
      eq_iff r.build_id x.build_id,
      eq_iff x.target r.target,
      eq_iff r.target x.target,
    )),
    replace-Awaited b todo x rs e s hs,
  )
]

append-Awaited :
    (b : String) (todo : List String) (x : EnvironmentArtifactRecord)
    (rows : List EnvironmentArtifactRecord)
    → x.build_id ≡ b
    → x.status ≡ "ready"
    → has_artifact x rows ≡ false
    → Awaited b (x.target ∷ todo) rows
    → Awaited b todo (rows ++ (x ∷ []))
unfolding has_artifact
append-Awaited b todo x [] e s n h = ((λ f. inl s), tt)
append-Awaited b todo x (r ∷ rs) e s n (h, hs) = (
  (λ f. ground (
    arith,
    h f,
    eq_iff r.build_id x.build_id,
    eq_iff x.target r.target,
    eq_iff r.target x.target,
  )),
  append-Awaited b todo x rs e s (ground arith) hs,
)

save-Awaited :
    (b : String) (todo : List String) (x : EnvironmentArtifactRecord)
    (rows : List EnvironmentArtifactRecord)
    → x.build_id ≡ b
    → x.status ≡ "ready"
    → Awaited b (x.target ∷ todo) rows
    → Awaited b todo (save_environment_artifact x rows)
unfolding save_environment_artifact
save-Awaited b todo x rows e s h = elim (Bool-cases (has_artifact x rows)) [
  | inl y ↦ rw y (replace-Awaited b todo x rows e s h)
  | inr n ↦ rw n (append-Awaited b todo x rows e s n h)
]

abbrev pub Own : String → List EnvironmentArtifactRecord → Type 0
Own b [] = Unit
Own b (x ∷ xs) = (x.build_id ≡ b) × Own b xs

pub Own-list_environment_artifacts :
    (b : String) (rows : List EnvironmentArtifactRecord) → Own b (list_environment_artifacts b rows)
unfolding list_environment_artifacts
Own-list_environment_artifacts b [] = tt
Own-list_environment_artifacts b (r ∷ rs) =
    ground (arith, Own-list_environment_artifacts b rs, eq_iff r.build_id b)

list-Awaited :
    (b : String) (ts : List String) (rows : List EnvironmentArtifactRecord)
    → ((t : String) → has t (targets (list_environment_artifacts b rows)) ≡ true → has t ts ≡ true)
    → Awaited b ts rows
unfolding list_environment_artifacts
list-Awaited b ts [] h = tt
list-Awaited b ts (r ∷ rs) h = (
  (λ e. inr (h r.target (ground (arith, eq_iff r.build_id b, eq_refl r.target)))),
  list-Awaited b ts rs (λ t found. h t (ground arith)),
)

-- What the loop ends with: the builds are those from before, and where it says that all are ready, every
-- artifact of the build is.
abbrev pub Ended : String → Dict EnvironmentBuildRecord → Looped → Type 0
Ended b builds (unsaved target digest w) = w.builds ≡ builds
Ended b builds (saved all_ready digest w) =
    (w.builds ≡ builds) × (all_ready ≡ true → AllReady b w.artifacts)

Ended-each_artifact :
    (a : Answers) (owner local_ref b : String) (xs : List EnvironmentArtifactRecord)
    (all_ready : Bool) (digest : String) (w : World)
    → Own b xs
    → (all_ready ≡ true → Awaited b (targets xs) w.artifacts)
    → Ended b w.builds (each_artifact a owner local_ref xs all_ready digest w)
unfolding each_artifact
Ended-each_artifact a owner local_ref b [] all_ready digest w own h =
    (refl, λ e. AllReady-Awaited b w.artifacts (h e))
Ended-each_artifact a owner local_ref b (x ∷ xs) all_ready digest w (mine, own) h =
    let t = attempt a owner local_ref x digest w in
    let tried = Attempted-attempt a owner local_ref x digest w in
    let kept = record t.world {
      artifacts = save_environment_artifact t.artifact t.world.artifacts;
    } in
    let awaited = λ (e : (all_ready && t.ready) ≡ true).
      save-Awaited b (targets xs) t.artifact t.world.artifacts (tried.1 ∙ mine)
        (tried.3 (ground arith))
        (subst (λ rows. Awaited b (t.artifact.target ∷ targets xs) rows) (sym tried.0.1)
          (subst (λ target. Awaited b (target ∷ targets xs) w.artifacts) (sym tried.2)
            (h (ground arith)))) in
    let rest =
      Ended-each_artifact a owner local_ref b xs (all_ready && t.ready) t.digest_local kept own
        awaited in
    elim (Bool-cases (a.artifact_up t.artifact)) [
      | inl up ↦ rw up (
          subst
            (λ builds.
              Ended b builds
                (each_artifact a owner local_ref xs (all_ready && t.ready) t.digest_local kept))
            tried.0.0 rest)
      | inr down ↦ rw down tried.0.0
    ]

-- The loop over all artifacts of a build.
pub Ended-each_listed :
    (a : Answers) (owner local_ref b digest : String) (w : World)
    → Ended b w.builds
        (each_artifact a owner local_ref (list_environment_artifacts b w.artifacts) true digest w)
Ended-each_listed a owner local_ref b digest w =
    Ended-each_artifact a owner local_ref b (list_environment_artifacts b w.artifacts) true digest w
      (Own-list_environment_artifacts b w.artifacts)
      (λ e.
        list-Awaited b (targets (list_environment_artifacts b w.artifacts)) w.artifacts (λ t h. h))
