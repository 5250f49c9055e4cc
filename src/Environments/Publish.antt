-- ===== src/Environments/Publish.antt =====
-- publishToTarget of internal/environments/manager.go with what it calls, and inspectImageID.
pub mod Secrets
use stacyvm.Base.{
  ℕ, zero, suc, ◌+◌, ◌-◌, ◌*◌, ◌/◌, ◌%◌, ◌^◌, ◌≤◌, ◌<◌, String, ◌≡◌, refl, sym, ap, subst, ◌∙◌, ◌≢◌,
  ◌↔◌, ◌⊎◌, inl, inr, Bool, true, false, not, ◌&&◌, ◌||◌, Option, none, some, List, [], ◌∷◌, ◌++◌,
  map, arith, eq_iff, eq_refl, ltb, leb, ◌==◌, if◌then◌else◌, ltb→lt, lt→ltb, leb→le, ==_iff,
  Bool-cases, Option-cases, length, get_elem?, set, get_or, take, drop, replicate, length-append,
  length-set, take-append-drop, length-take, length-drop, append_assoc_list, drop-set, ℤ, pos,
  negsuc, pos_part, neg_part, sub_ℕ, ◌+ℤ◌, ◌≤ℤ◌, ◌<ℤ◌, ltb_ℤ, leb_ℤ, is_pos, +ℤ_parts, str_eq,
  is_empty, codes, is_space, trim_space, fold, equal_fold, equal_fold_refl, Dict, lookup, insert,
  delete, lookup-insert, lookup-delete, length-insert, length-delete, length-insert_found,
}
use Prim.Native.Char.{Char, code}
use Prim.Native.String
use stacyvm.Base.Cases.{to_lower}
use stacyvm.Environments.Records.{
  RegistryConnectionRecord, Command, World, Answers, Run, output, run_failed, run_command,
  list_registry_connections,
}

-- The outcome of a step that can fail with a text. A text that the source ends with quoted arguments, or
-- with the database's error, is given without them.
pub data Outcome : Type 0 where
  done : String → Outcome
  failed : String → Outcome

unfoldable pub registry_host_for_target : String → String
registry_host_for_target target =
    if str_eq target "ghcr"
    then "ghcr.io"
    else if str_eq target "dockerhub"
    then "docker.io"
    else ""

-- The default connection for the target, or the first one for it.
unfoldable pub choose_connection :
    String
    → List RegistryConnectionRecord
    → Option RegistryConnectionRecord
    → Option RegistryConnectionRecord
choose_connection target [] fallback = fallback
choose_connection target (c ∷ conns) fallback =
    let first : Option RegistryConnectionRecord = elim fallback [
      | none ↦ some c
      | some f ↦ some f
    ] in
    let matching = choose_connection target conns first in
    let others = choose_connection target conns fallback in
    if not (str_eq c.provider target) then others else if c.is_default then some c else matching

-- resolveRegistryConnection.
unfoldable pub resolve_registry_connection :
    Answers → String → String → World → Option RegistryConnectionRecord
unfolding choose_connection
resolve_registry_connection a owner_id target w =
    if a.connections_listed
    then choose_connection target (list_registry_connections owner_id w.connections) none
    else none

-- The place after the last character of a code: strings.LastIndex plus one.
unfoldable pub last_place : ℕ → String → ℕ
last_place wanted String.[] = 0
last_place wanted (String.◌∷◌ c s) =
    let rest = last_place wanted s in
    if rest == 0 then (if code c == wanted then 1 else 0) else rest + 1

unfoldable pub count : String → ℕ
count String.[] = 0
count (String.◌∷◌ c s) = count s + 1

unfoldable pub drop_text : ℕ → String → String
drop_text zero s = s
drop_text (suc n) String.[] = String.[]
drop_text (suc n) (String.◌∷◌ c s) = drop_text n s

unfoldable pub extract_tag : String → String
unfolding last_place count drop_text trim_space
extract_tag ref =
    let trimmed = trim_space ref in
    let colon = last_place b':' trimmed in
    if is_empty trimmed
    then "latest"
    else if ltb (last_place b'/' trimmed) colon && ltb colon (count trimmed)
    then trim_space (drop_text colon trimmed)
    else "latest"

unfoldable pub build_registry_image_ref : String → String → String → String
unfolding registry_host_for_target to_lower extract_tag trim_space
build_registry_image_ref target username requested_ref =
    let host = registry_host_for_target target in
    let ns = to_lower (trim_space username) in
    if is_empty host
    then ""
    else if is_empty ns
    then ""
    else String.◌++◌ host
        (String.◌++◌ "/" (String.◌++◌ ns (String.◌++◌ "/stacyvm-env:" (extract_tag requested_ref))))

abbrev pub login_args : String → String → List String
login_args target username =
    "login"
    ∷ "-u"
    ∷ username
    ∷ "--password-stdin"
    ∷ (if str_eq target "ghcr" then "ghcr.io" ∷ [] else [])

-- The commands of a publication: each one is run where the one before it succeeded.
unfoldable pub push_image : Answers → String → World → Outcome × World
unfolding run_command
push_image a target_ref w =
    let pushed = run_command a "" ("push" ∷ target_ref ∷ []) w in
    (
      elim pushed.0 [
        | output text ↦ done target_ref
        | run_failed e ↦ failed (String.◌++◌ "docker push failed: " e)
      ],
      pushed.1,
    )

unfoldable pub tag_image : Answers → String → String → World → Outcome × World
unfolding run_command push_image
tag_image a source_tag target_ref w =
    let tagged = run_command a "" ("tag" ∷ source_tag ∷ target_ref ∷ []) w in
    elim tagged.0 [
      | output text ↦ push_image a target_ref tagged.1
      | run_failed e ↦ (failed (String.◌++◌ "docker tag failed: " e), tagged.1)
    ]

unfoldable pub log_in :
    Answers → RegistryConnectionRecord → String → String → String → World → Outcome × World
unfolding run_command tag_image
log_in a conn target source_tag target_ref w =
    let logged = run_command a conn.secret_ref (login_args target conn.username) w in
    elim logged.0 [
      | output text ↦ tag_image a source_tag target_ref logged.1
      | run_failed e ↦ (
        failed (String.◌++◌ "docker login " (String.◌++◌ target (String.◌++◌ " failed: " e))),
        logged.1,
      )
    ]

-- publishToTarget: the reference that it computed, "" where there is none, the outcome and the state.
unfoldable pub publish_to_target :
    Answers → String → String → String → String → World → String × Outcome × World
unfolding resolve_registry_connection registry_host_for_target build_registry_image_ref log_in
publish_to_target a owner_id target source_tag requested_ref w =
    elim (resolve_registry_connection a owner_id target w) [
      | none ↦ ("", failed "no registry connection configured", w)
      | some conn ↦
          let target_ref = build_registry_image_ref target conn.username requested_ref in
          if is_empty (registry_host_for_target target)
          then ("", failed "unsupported publish target", w)
          else if is_empty target_ref
          then ("", failed "could not compute target image ref", w)
          else (let logged = log_in a conn target source_tag target_ref w in
              (target_ref, logged.0, logged.1))
    ]

-- inspectImageID.
unfoldable pub inspect_image_id : Answers → String → World → Outcome × World
unfolding run_command trim_space
inspect_image_id a ref w =
    let inspected = run_command a "" ("image" ∷ "inspect" ∷ "--format" ∷ "{{.Id}}" ∷ ref ∷ []) w in
    (
      elim inspected.0 [
        | run_failed e ↦ failed e
        | output text ↦
            let id = trim_space text in if is_empty id then failed "empty image id" else done id
      ],
      inspected.1,
    )
