-- ===== src/Orchestrator/Lifecycle/Paths/Scoped.antt =====
-- The paths of a pooled sandbox stay in its workspace (manager.go, scopedPathForOperation).
use stacyvm.Base.{
  String, ◌≡◌, refl, subst, ◌⊎◌, inl, inr, Bool, true, false, ◌||◌, List, [], ◌∷◌, arith, eq_iff,
  ◌==◌, Bool-cases, str_eq, is_empty, trim_space,
}
use Prim.Native.Char.{Char, code}
use stacyvm.Orchestrator.Admission.Quota.{ManagerError, ok, err}
use stacyvm.Orchestrator.Lifecycle.{Sandbox, Settings, is_remote_owned_sandbox}
use stacyvm.Orchestrator.Lifecycle.Paths.{
  cat, slash, starts_with_slash, split_slash, push, go_up, clean_step, clean_all, join_kept, render,
  clean, join, has_prefix, workspace, is_inside, cleaned_path, scoped_path_for_operation,
}

abbrev pub has_slash : String → Bool
has_slash String.[] = false
has_slash (String.◌∷◌ c s) = code c == slash || has_slash s

-- An element that names one entry of a directory.
pub record Plain (element : String) : Type 0 where
  pub not_empty : is_empty element ≡ false
  pub not_here : str_eq element "." ≡ false
  pub not_up : str_eq element ".." ≡ false
  pub no_slash : has_slash element ≡ false

abbrev pub AllPlain : List String → Type 0
AllPlain [] = Unit
AllPlain (x ∷ xs) = Plain x × AllPlain xs

abbrev NoSlashes : List String → Type 0
NoSlashes [] = Unit
NoSlashes (x ∷ xs) = (has_slash x ≡ false) × NoSlashes xs

push-NoSlashes :
    (c : Char) (ps : List String) → (code c == slash) ≡ false → NoSlashes ps → NoSlashes (push c ps)
unfolding push
push-NoSlashes c [] other flat = (rw (other) refl, tt)
push-NoSlashes c (p ∷ ps) other (flat, flats) = (rw (other) flat, flats)

split_slash-NoSlashes : (s : String) → NoSlashes (split_slash s)
unfolding split_slash
split_slash-NoSlashes String.[] = (refl, tt)
split_slash-NoSlashes (String.◌∷◌ c s) = elim (Bool-cases (code c == slash)) [
  | inl here ↦ rw (here) (refl, split_slash-NoSlashes s)
  | inr other ↦ rw (other) (push-NoSlashes c (split_slash s) other (split_slash-NoSlashes s))
]

go_up-AllPlain : (xs : List String) → AllPlain xs → AllPlain (go_up true xs)
unfolding go_up
go_up-AllPlain [] p = tt
go_up-AllPlain (x ∷ xs) (p, ps) = ps

clean_step-AllPlain :
    (kept : List String) (element : String)
    → AllPlain kept
    → has_slash element ≡ false
    → AllPlain (clean_step true kept element)
unfolding clean_step
clean_step-AllPlain kept element ps flat =
    elim (Bool-cases (is_empty element || str_eq element ".")) [
      | inl skip ↦ rw (skip) ps
      | inr named ↦ elim (Bool-cases (str_eq element "..")) [
        | inl up ↦ rw (named, up) (go_up-AllPlain kept ps)
        | inr plain ↦
            rw (named, plain)
              (
                record {
                  not_empty = ground arith;
                  not_here = ground arith;
                  not_up = plain;
                  no_slash = flat;
                },
                ps,
              )
      ]
    ]

clean_all-AllPlain :
    (elements kept : List String)
    → AllPlain kept
    → NoSlashes elements
    → AllPlain (clean_all true kept elements)
unfolding clean_all
clean_all-AllPlain [] kept ps flat = ps
clean_all-AllPlain (x ∷ xs) kept ps (flat, flats) =
    clean_all-AllPlain xs (clean_step true kept x) (clean_step-AllPlain kept x ps flat) flats

-- A clean absolute path: a slash, and elements that each name an entry of a directory, with a slash
-- between two of them.
pub record Absolute (path : String) : Type 0 where
  pub kept : List String
  pub plain : AllPlain kept
  pub shape : path ≡ cat "/" (join_kept kept)

clean-Absolute : (s : String) → starts_with_slash s ≡ true → Absolute (clean s)
unfolding clean starts_with_slash render
clean-Absolute String.[] e = absurd (ground arith)
clean-Absolute (String.◌∷◌ c s) e = rw (e) (record {
  kept = clean_all true [] (split_slash (String.◌∷◌ c s));
  plain =
      clean_all-AllPlain (split_slash (String.◌∷◌ c s)) [] tt
        (split_slash-NoSlashes (String.◌∷◌ c s));
  shape = refl;
})

starts-join : (id path : String) → starts_with_slash (join (cat "/workspace/" id) path) ≡ true
unfolding join clean cat starts_with_slash render
starts-join id path = refl

err-ok : {e : ManagerError} {p : String} → err e ≡ ok p → ⊥
err-ok e = ground arith

ok-eq : {p q : String} → ok p ≡ ok q → p ≡ q
ok-eq e = cc

below :
    (base p : String) → is_inside base p ≡ true → (p ≡ base) ⊎ (has_prefix p (cat base "/") ≡ true)
unfolding is_inside
below base p inside = ground (arith, eq_iff p base)

-- The path on which an operation of a pooled sandbox of this worker works is a clean absolute one, so
-- that no element of it goes up, and it is the sandbox's workspace or begins with the workspace and a
-- slash.
pub scoped_path_for_operation-inside :
    (s : Settings) (sb : Sandbox) (path p : String)
    → is_empty sb.vm_id ≡ false
    → is_remote_owned_sandbox s sb ≡ false
    → scoped_path_for_operation s sb path ≡ ok p
    → Absolute p × ((p ≡ workspace sb) ⊎ (has_prefix p (cat (workspace sb) "/") ≡ true))
unfolding scoped_path_for_operation workspace cat cleaned_path clean
scoped_path_for_operation-inside s sb path p pooled own e =
    elim (Bool-cases (is_empty (trim_space path))) [
      | inl blank ↦ absurd (err-ok (rw (scoped_path_for_operation, blank) at e))
      | inr given ↦ elim (Bool-cases (is_inside (workspace sb) (cleaned_path sb path))) [
        | inr outside ↦
            absurd (err-ok (rw (scoped_path_for_operation, given, pooled, own, outside) at e))
        | inl inside ↦
            let same : cleaned_path sb path ≡ p =
              ok-eq (rw (scoped_path_for_operation, given, pooled, own, inside) at e) in
            (
              subst Absolute same
                  (clean-Absolute (join (workspace sb) path) (starts-join sb.id path)),
              below (workspace sb) p (subst (λ q. is_inside (workspace sb) q ≡ true) same inside),
            )
      ]
    ]
