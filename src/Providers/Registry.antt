-- ===== src/Providers/Registry.antt =====
-- internal/providers/registry.go: the providers by their names, and the default one.
mod Laws
mod Tests
use stacyvm.Base.{
  ℕ, zero, suc, ◌+◌, ◌-◌, ◌*◌, ◌/◌, ◌%◌, ◌^◌, ◌≤◌, ◌<◌, String, ◌≡◌, refl, sym, ap, subst, ◌∙◌, ◌≢◌,
  ◌↔◌, ◌⊎◌, inl, inr, Bool, true, false, not, ◌&&◌, ◌||◌, Option, none, some, List, [], ◌∷◌, ◌++◌,
  map, arith, eq_iff, eq_refl, ltb, leb, ◌==◌, if◌then◌else◌, ltb→lt, lt→ltb, leb→le, ==_iff,
  Bool-cases, Option-cases, length, get_elem?, set, get_or, take, drop, replicate, length-append,
  length-set, take-append-drop, length-take, length-drop, append_assoc_list, drop-set, ℤ, pos,
  negsuc, pos_part, neg_part, sub_ℕ, ◌+ℤ◌, ◌≤ℤ◌, ◌<ℤ◌, ltb_ℤ, leb_ℤ, is_pos, +ℤ_parts, str_eq,
  is_empty, codes, is_space, trim_space, fold, equal_fold, equal_fold_refl, Dict, lookup, insert,
  delete, lookup-insert, lookup-delete, length-insert, length-delete, length-insert_found,
}

-- A provider is its name. `names` is the map's keys, in the order in which a range visits them.
pub record Registry : Type 0 where
  pub names : List String
  pub dflt : String

abbrev pub new_registry : Registry
new_registry = record { names = []; dflt = "" }

unfoldable pub has_provider : String → List String → Bool
has_provider name [] = false
has_provider name (p ∷ ps) = str_eq p name || has_provider name ps

-- Register: the map has one entry for each name.
unfoldable pub register_provider : String → Registry → Registry
unfolding has_provider
register_provider name r =
    if has_provider name r.names then r else record r { names = name ∷ r.names }

-- SetDefault: false where the name is not registered.
unfoldable pub set_default : String → Registry → Bool × Registry
unfolding has_provider
set_default name r =
    if has_provider name r.names then (true, record r { dflt = name }) else (false, r)

pub data RegistryError : Type 0 where
  no_default : RegistryError
  no_provider : String → RegistryError

pub data Found : Type 0 where
  found : String → Found
  missing : RegistryError → Found

unfoldable pub registry_get : String → Registry → Found
unfolding has_provider
registry_get name r =
    let wanted = if is_empty name then r.dflt else name in
    if is_empty wanted
    then missing no_default
    else if has_provider wanted r.names
    then found wanted
    else missing (no_provider wanted)
