-- ===== src/Orchestrator/Lifecycle/Paths.antt =====
-- internal/orchestrator/manager.go: the paths of a sandbox in the pool, which shares a machine with
-- other sandboxes (scopedPath, scopedPathForOperation), and filepath.Clean and filepath.Join on which
-- they rest.
pub mod Scoped
pub mod Workspaces
mod Tests
use stacyvm.Base.{
  ℕ, zero, suc, ◌+◌, ◌-◌, ◌*◌, ◌/◌, ◌%◌, ◌^◌, ◌≤◌, ◌<◌, String, ◌≡◌, refl, sym, ap, subst, ◌∙◌, ◌≢◌,
  ◌↔◌, ◌⊎◌, inl, inr, Bool, true, false, not, ◌&&◌, ◌||◌, Option, none, some, List, [], ◌∷◌, ◌++◌,
  map, arith, eq_iff, eq_refl, ltb, leb, ◌==◌, if◌then◌else◌, ltb→lt, lt→ltb, leb→le, ==_iff,
  Bool-cases, Option-cases, length, get_elem?, set, get_or, take, drop, replicate, length-append,
  length-set, take-append-drop, length-take, length-drop, append_assoc_list, drop-set, ℤ, pos,
  negsuc, pos_part, neg_part, sub_ℕ, ◌+ℤ◌, ◌≤ℤ◌, ◌<ℤ◌, ltb_ℤ, leb_ℤ, is_pos, +ℤ_parts, str_eq,
  is_empty, codes, is_space, trim_space, fold, equal_fold, equal_fold_refl, Dict, lookup, insert,
  delete, lookup-insert, lookup-delete, length-insert, length-delete, length-insert_found,
}
use Prim.Native.String
use Prim.Native.Char.{Char, code}
use stacyvm.Orchestrator.Admission.Quota.{invalid_input, Result, ok, err}
use stacyvm.Orchestrator.Lifecycle.{Sandbox, Settings, is_remote_owned_sandbox}

-- `+` on strings.
unfoldable pub cat : String → String → String
cat String.[] t = t
cat (String.◌∷◌ c s) t = String.◌∷◌ c (cat s t)

abbrev pub slash : ℕ
slash = 47

unfoldable pub starts_with_slash : String → Bool
starts_with_slash String.[] = false
starts_with_slash (String.◌∷◌ c s) = code c == slash

-- The elements of a path, with an empty one between two slashes.
unfoldable pub push : Char → List String → List String
push c [] = String.◌∷◌ c String.[] ∷ []
push c (p ∷ ps) = String.◌∷◌ c p ∷ ps

unfoldable pub split_slash : String → List String
split_slash String.[] = String.[] ∷ []
split_slash (String.◌∷◌ c s) =
    let rest = split_slash s in if code c == slash then String.[] ∷ rest else push c rest

-- An element `..`, with the elements kept so far, the last one first.
unfoldable pub go_up : Bool → List String → List String
go_up true [] = []
go_up false [] = ".." ∷ []
go_up true (x ∷ xs) = xs
go_up false (x ∷ xs) = if str_eq x ".." then ".." ∷ x ∷ xs else xs

unfoldable pub clean_step : Bool → List String → String → List String
clean_step rooted kept element =
    if is_empty element || str_eq element "."
    then kept
    else if str_eq element ".."
    then go_up rooted kept
    else element ∷ kept

unfoldable pub clean_all : Bool → List String → List String → List String
clean_all rooted kept [] = kept
clean_all rooted kept (element ∷ elements) =
    clean_all rooted (clean_step rooted kept element) elements

unfoldable pub join_kept : List String → String
join_kept [] = ""
join_kept (x ∷ []) = x
join_kept (x ∷ y ∷ ys) = cat (join_kept (y ∷ ys)) (cat "/" x)

unfoldable pub render : Bool → List String → String
render true kept = cat "/" (join_kept kept)
render false [] = "."
render false (x ∷ xs) = join_kept (x ∷ xs)

-- filepath.Clean.
unfoldable pub clean : String → String
clean String.[] = "."
clean (String.◌∷◌ c s) =
    let rooted = code c == slash in
    render rooted (clean_all rooted [] (split_slash (String.◌∷◌ c s)))

-- filepath.Join of a directory that is not empty and a path.
unfoldable pub join : String → String → String
join dir path = clean (cat dir (cat "/" path))

unfoldable pub has_prefix : String → String → Bool
has_prefix s String.[] = true
has_prefix String.[] (String.◌∷◌ c p) = false
has_prefix (String.◌∷◌ d s) (String.◌∷◌ c p) = code d == code c && has_prefix s p

unfoldable pub workspace : Sandbox → String
workspace sb = cat "/workspace/" sb.id

unfoldable pub is_inside : String → String → Bool
is_inside base path = has_prefix path (cat base "/") || str_eq path base

unfoldable pub cleaned_path : Sandbox → String → String
cleaned_path sb path = clean (join (workspace sb) path)

unfoldable pub scoped_path : Settings → Sandbox → String → String
scoped_path s sb path =
    if is_empty sb.vm_id || is_remote_owned_sandbox s sb
    then path
    else if is_inside (workspace sb) (cleaned_path sb path)
    then cleaned_path sb path
    else workspace sb

unfoldable pub scoped_path_for_operation : Settings → Sandbox → String → Result String
scoped_path_for_operation s sb path =
    if is_empty (trim_space path)
    then err (invalid_input "path is required")
    else if is_empty sb.vm_id || is_remote_owned_sandbox s sb
    then ok path
    else if is_inside (workspace sb) (cleaned_path sb path)
    then ok (cleaned_path sb path)
    else err (invalid_input "path escapes sandbox workspace")
