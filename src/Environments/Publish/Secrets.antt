-- ===== src/Environments/Publish/Secrets.antt =====
-- What the secrets of registry connections are given to (internal/environments/manager.go).
use stacyvm.Base.{
  String, ◌≡◌, refl, ap, subst, ◌∙◌, ◌⊎◌, inl, inr, Bool, true, false, ◌&&◌, ◌||◌, Option, none,
  some, List, [], ◌∷◌, arith, eq_iff, if◌then◌else◌, Bool-cases, Option-cases, str_eq, is_empty,
}
use stacyvm.Environments.Records.{
  EnvironmentArtifactRecord, save_environment_artifact, RegistryConnectionRecord,
  EnvironmentArtifactRecord, Command, World, Answers, Run, output, run_failed, run_command,
  list_registry_connections, save_environment_artifact,
}
use stacyvm.Environments.Publish.{
  Outcome, done, failed, registry_host_for_target, build_registry_image_ref,
  resolve_registry_connection, login_args, log_in, publish_to_target, choose_connection,
  resolve_registry_connection, login_args, push_image, tag_image, log_in, publish_to_target,
  inspect_image_id,
}
use stacyvm.Environments.Attempts.{
  attempt_local, settle_published, attempt_publish, attempt, Looped, saved, unsaved, each_artifact,
}

abbrev pub Member : RegistryConnectionRecord → List RegistryConnectionRecord → Type 0
Member c [] = ⊥
Member c (d ∷ ds) = (c ≡ d) ⊎ Member c ds

-- A command that is given nothing, or a login with the secret of a connection of the owner, for the
-- registry and with the name that the connection is for.
abbrev pub Sent : String → List RegistryConnectionRecord → Command → Type 0
Sent owner conns c =
    (c.stdin ≡ "")
    ⊎ ((conn : RegistryConnectionRecord) × Member conn conns
        × (conn.owner_id ≡ owner)
        × (c.stdin ≡ conn.secret_ref)
        × (c.args ≡ login_args conn.provider conn.username))

abbrev pub AllSent : String → List RegistryConnectionRecord → List Command → Type 0
AllSent owner conns [] = Unit
AllSent owner conns (c ∷ cs) = Sent owner conns c × AllSent owner conns cs

-- With these connections stored, every command so far was sent so.
abbrev pub Discreet : String → List RegistryConnectionRecord → World → Type 0
Discreet owner conns w = (w.connections ≡ conns) × AllSent owner conns w.commands

Member-choose_connection :
    (target : String) (conns : List RegistryConnectionRecord)
    (fallback : Option RegistryConnectionRecord) (c : RegistryConnectionRecord)
    → choose_connection target conns fallback ≡ some c
    → (Member c conns × (c.provider ≡ target)) ⊎ (fallback ≡ some c)
unfolding choose_connection
Member-choose_connection target [] fallback c h = inr h
Member-choose_connection target (d ∷ conns) none c h = ground (
  arith,
  Member-choose_connection target conns none c,
  Member-choose_connection target conns (some d) c,
  eq_iff d.provider target,
)
Member-choose_connection target (d ∷ conns) (some f) c h =
    ground (arith, Member-choose_connection target conns (some f) c, eq_iff d.provider target)

Member-kept :
    (c d : RegistryConnectionRecord) (test : Bool) (ds : List RegistryConnectionRecord)
    → Member c (if test then d ∷ ds else ds)
    → ((test ≡ true) × (c ≡ d)) ⊎ Member c ds
Member-kept c d true ds (inl e) = inl (refl, e)
Member-kept c d true ds (inr m) = inr m
Member-kept c d false ds m = inr m

Member-list_registry_connections :
    (owner : String) (conns : List RegistryConnectionRecord) (c : RegistryConnectionRecord)
    → Member c (list_registry_connections owner conns)
    → Member c conns × (c.owner_id ≡ owner)
unfolding list_registry_connections
Member-list_registry_connections owner [] c m = elim m [ ]
Member-list_registry_connections owner (d ∷ conns) c m =
    let rest = list_registry_connections owner conns in
    elim (Member-kept c d (str_eq d.owner_id owner) rest m) [
      | inl (y, e) ↦ (inl e, ap (λ r. r.owner_id) e ∙ (eq_iff d.owner_id owner).0 y)
      | inr m' ↦
          let (found, own) = Member-list_registry_connections owner conns c m' in (inr found, own)
    ]

Run-cases :
    (r : Run) → ((text : String) × (r ≡ output text)) ⊎ ((text : String) × (r ≡ run_failed text))
Run-cases (output text) = inl (text, refl)
Run-cases (run_failed text) = inr (text, refl)

Outcome-cases :
    (o : Outcome) → ((id : String) × (o ≡ done id)) ⊎ ((text : String) × (o ≡ failed text))
Outcome-cases (done id) = inl (id, refl)
Outcome-cases (failed text) = inr (text, refl)

module _ (a : Answers) (owner : String) (conns : List RegistryConnectionRecord) where
  Discreet-run_command :
      (stdin : String) (args : List String) (w : World)
      → Sent owner conns (record { stdin = stdin; args = args })
      → Discreet owner conns w
      → Discreet owner conns (run_command a stdin args w).1
  unfolding run_command
  Discreet-run_command stdin args w sent (same, all) = (same, (sent, all))

  pub Discreet-inspect_image_id :
      (ref : String) (w : World)
      → Discreet owner conns w
      → Discreet owner conns (inspect_image_id a ref w).1
  unfolding inspect_image_id
  Discreet-inspect_image_id ref w h =
      Discreet-run_command "" ("image" ∷ "inspect" ∷ "--format" ∷ "{{.Id}}" ∷ ref ∷ []) w (inl refl)
        h

  Discreet-push_image :
      (ref : String) (w : World)
      → Discreet owner conns w
      → Discreet owner conns (push_image a ref w).1
  unfolding push_image
  Discreet-push_image ref w h = Discreet-run_command "" ("push" ∷ ref ∷ []) w (inl refl) h

  Discreet-tag_image :
      (source ref : String) (w : World)
      → Discreet owner conns w
      → Discreet owner conns (tag_image a source ref w).1
  unfolding tag_image run_command
  Discreet-tag_image source ref w h =
      let ran = Discreet-run_command "" ("tag" ∷ source ∷ ref ∷ []) w (inl refl) h in
      let tagged = run_command a "" ("tag" ∷ source ∷ ref ∷ []) w in
      elim (Run-cases tagged.0) [
        | inl (text, e) ↦ rw (tag_image, e) (Discreet-push_image ref tagged.1 ran)
        | inr (text, e) ↦ rw (tag_image, e) ran
      ]

  Discreet-log_in :
      (conn : RegistryConnectionRecord) (source ref : String) (w : World)
      → Member conn conns
      → conn.owner_id ≡ owner
      → Discreet owner conns w
      → Discreet owner conns (log_in a conn conn.provider source ref w).1
  unfolding log_in run_command
  Discreet-log_in conn source ref w m own h =
      let args = login_args conn.provider conn.username in
      let ran = Discreet-run_command conn.secret_ref args w (inr (conn, m, own, refl, refl)) h in
      let logged = run_command a conn.secret_ref args w in
      elim (Run-cases logged.0) [
        | inl (text, e) ↦ rw (log_in, e) (Discreet-tag_image source ref logged.1 ran)
        | inr (text, e) ↦ rw (log_in, e) ran
      ]

  Member-resolve_registry_connection :
      (target : String) (conn : RegistryConnectionRecord) (w : World)
      → resolve_registry_connection a owner target w ≡ some conn
      → Member conn w.connections × (conn.owner_id ≡ owner) × (conn.provider ≡ target)
  unfolding resolve_registry_connection
  Member-resolve_registry_connection target conn w h =
      let mine = list_registry_connections owner w.connections in
      let chosen = (λ (e : choose_connection target mine none ≡ some conn).
        Member-choose_connection target mine none conn e) in
      let listed = Member-list_registry_connections owner w.connections conn in
      ground (arith, chosen, listed)

  Discreet-log_in_at :
      (target : String) (conn : RegistryConnectionRecord) (source ref : String) (w : World)
      → resolve_registry_connection a owner target w ≡ some conn
      → Discreet owner conns w
      → Discreet owner conns (log_in a conn target source ref w).1
  Discreet-log_in_at target conn source ref w e h =
      let (m, own, at) = Member-resolve_registry_connection target conn w e in
      subst (λ t. Discreet owner conns (log_in a conn t source ref w).1) at
        (Discreet-log_in conn source ref w (subst (Member conn) h.0 m) own h)

  Discreet-tests :
      (t t' : Bool) (x y z : String × Outcome × World)
      → Discreet owner conns x.2
      → Discreet owner conns y.2
      → Discreet owner conns z.2
      → Discreet owner conns (if t then x else if t' then y else z).2
  Discreet-tests true t' x y z h h' h'' = h
  Discreet-tests false true x y z h h' h'' = h'
  Discreet-tests false false x y z h h' h'' = h''

  Discreet-publish_to_target :
      (target source requested : String) (w : World)
      → Discreet owner conns w
      → Discreet owner conns (publish_to_target a owner target source requested w).2
  unfolding publish_to_target
  Discreet-publish_to_target target source requested w h =
      elim (Option-cases (resolve_registry_connection a owner target w)) [
        | inl e ↦ rw (publish_to_target, e) h
        | inr (conn, e) ↦
            let ref = build_registry_image_ref target conn.username requested in
            rw (publish_to_target, e)
              (Discreet-tests (is_empty (registry_host_for_target target)) (is_empty ref)
                ("", failed "unsupported publish target", w)
                ("", failed "could not compute target image ref", w)
                (ref, (log_in a conn target source ref w).0, (log_in a conn target source ref w).1)
                h h (Discreet-log_in_at target conn source ref w e h))
      ]

  Discreet-settle_published :
      (x : EnvironmentArtifactRecord) (digest : String) (o : Outcome) (w : World)
      → Discreet owner conns w
      → Discreet owner conns (settle_published a x digest (o, w)).world
  unfolding settle_published
  Discreet-settle_published x digest (failed e) w h = h
  Discreet-settle_published x digest (done ref) w h = Discreet-inspect_image_id x.image_ref w h

  Discreet-attempt_local :
      (local_ref : String) (x : EnvironmentArtifactRecord) (digest : String) (w : World)
      → Discreet owner conns w
      → Discreet owner conns (attempt_local a local_ref x digest w).world
  unfolding attempt_local
  Discreet-attempt_local local_ref x digest w h =
      let inspected = inspect_image_id a local_ref w in
      let kept = Discreet-inspect_image_id local_ref w h in
      elim (Outcome-cases inspected.0) [
        | inl (id, e) ↦ rw (attempt_local, e) kept
        | inr (text, e) ↦ rw (attempt_local, e) kept
      ]

  Discreet-attempt :
      (local_ref : String) (x : EnvironmentArtifactRecord) (digest : String) (w : World)
      → Discreet owner conns w
      → Discreet owner conns (attempt a owner local_ref x digest w).world
  unfolding attempt attempt_publish
  Discreet-attempt local_ref x digest w h =
      let published = publish_to_target a owner x.target local_ref x.image_ref w in
      let ref = if is_empty published.0 then x.image_ref else published.0 in
      let pushed =
        Discreet-settle_published (record x { image_ref = ref }) digest published.1 published.2
          (Discreet-publish_to_target x.target local_ref x.image_ref w h) in
      let here = Discreet-attempt_local local_ref x digest w h in
      elim (Bool-cases (str_eq x.target "local")) [
        | inl near ↦ rw (attempt, near) here
        | inr far ↦ elim (Bool-cases (str_eq x.target "ghcr" || str_eq x.target "dockerhub")) [
          | inl known ↦ rw (attempt, far, known) pushed
          | inr unknown ↦ rw (attempt, far, unknown) h
        ]
      ]

  -- The state that the loop ends in.
  abbrev pub end_of : Looped → World
  end_of (saved all_ready digest w) = w
  end_of (unsaved target digest w) = w

  pub Discreet-each_artifact :
      (local_ref : String) (xs : List EnvironmentArtifactRecord) (all_ready : Bool)
      (digest : String) (w : World)
      → Discreet owner conns w
      → Discreet owner conns (end_of (each_artifact a owner local_ref xs all_ready digest w))
  unfolding each_artifact
  Discreet-each_artifact local_ref [] all_ready digest w h = h
  Discreet-each_artifact local_ref (x ∷ xs) all_ready digest w h =
      let t = attempt a owner local_ref x digest w in
      let tried = Discreet-attempt local_ref x digest w h in
      let kept = record t.world {
        artifacts = save_environment_artifact t.artifact t.world.artifacts;
      } in
      let rest =
        Discreet-each_artifact local_ref xs (all_ready && t.ready) t.digest_local kept tried in
      elim (Bool-cases (a.artifact_up t.artifact)) [
        | inl up ↦ rw (each_artifact, up) rest
        | inr down ↦ rw (each_artifact, down) tried
      ]
