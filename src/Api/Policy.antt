-- ===== src/Api/Policy.antt =====
-- internal/api/middleware/policy.go: the policies that a spawn request is checked against, and the
-- query that lists them (internal/store/sqlite.go, ListPolicies). What filepath.Match answers for a
-- pattern and a value is an argument. A field of the request is "" where the body has none.
mod Decided
mod Tests
use stacyvm.Base.{
  ℕ, zero, suc, ◌+◌, ◌-◌, ◌*◌, ◌/◌, ◌%◌, ◌^◌, ◌≤◌, ◌<◌, String, ◌≡◌, refl, sym, ap, subst, ◌∙◌, ◌≢◌,
  ◌↔◌, ◌⊎◌, inl, inr, Bool, true, false, not, ◌&&◌, ◌||◌, Option, none, some, List, [], ◌∷◌, ◌++◌,
  map, arith, eq_iff, eq_refl, ltb, leb, ◌==◌, if◌then◌else◌, ltb→lt, lt→ltb, leb→le, ==_iff,
  Bool-cases, Option-cases, length, get_elem?, set, get_or, take, drop, replicate, length-append,
  length-set, take-append-drop, length-take, length-drop, append_assoc_list, drop-set, ℤ, pos,
  negsuc, pos_part, neg_part, sub_ℕ, ◌+ℤ◌, ◌≤ℤ◌, ◌<ℤ◌, ltb_ℤ, leb_ℤ, is_pos, +ℤ_parts, str_eq,
  is_empty, codes, is_space, trim_space, fold, equal_fold, equal_fold_refl, Dict, lookup, insert,
  delete, lookup-insert, lookup-delete, length-insert, length-delete, length-insert_found,
}
use stacyvm.Store.Records.{PolicyRecord}

-- A row that the query selects.
unfoldable pub selected : String → String → PolicyRecord → Bool
selected tenant kind p =
    (is_empty p.tenant_id || (not (is_empty tenant) && str_eq p.tenant_id tenant))
    && (is_empty kind || str_eq p.resource_type kind)

-- ORDER BY priority ASC, created_at ASC.
unfoldable pub comes_first : PolicyRecord → PolicyRecord → Bool
comes_first p q =
    ltb_ℤ p.priority q.priority || (leb_ℤ p.priority q.priority && leb p.created_at q.created_at)

unfoldable pub insert_ordered : PolicyRecord → List PolicyRecord → List PolicyRecord
insert_ordered p [] = p ∷ []
insert_ordered p (q ∷ qs) = if comes_first p q then p ∷ q ∷ qs else q ∷ insert_ordered p qs

unfoldable pub list_policies : String → String → List PolicyRecord → List PolicyRecord
list_policies tenant kind [] = []
list_policies tenant kind (p ∷ ps) =
    let rest = list_policies tenant kind ps in
    if selected tenant kind p then insert_ordered p rest else rest

module _ (glob : String → String → Bool) where
  unfoldable pub matches : String → PolicyRecord → Bool
  matches value p = glob p.pattern value || (str_eq p.pattern value || str_eq p.pattern "*")

  unfoldable pub policy_permits : String → List PolicyRecord → Bool
  policy_permits value [] = true
  policy_permits value (p ∷ ps) =
      let rest = policy_permits value ps in
      if matches value p
      then if str_eq p.effect "deny" then false else if str_eq p.effect "allow" then true else rest
      else rest

  -- One field of the request, on the policies listed for it: `none` where the query fails.
  unfoldable pub field_permitted : String → Option (List PolicyRecord) → Bool
  field_permitted value listed =
      if is_empty value
      then true
      else elim listed [ none ↦ true | some ps ↦ policy_permits value ps ]

  -- The kind of resource that PolicyEnforcer refuses first, for the values of the fields image,
  -- provider and network_mode and the policies listed for each.
  unfoldable pub enforce : (String → String) → (String → Option (List PolicyRecord)) → Option String
  enforce field listed =
      if not (field_permitted (field "image") (listed "image"))
      then some "image"
      else if not (field_permitted (field "provider") (listed "provider"))
      then some "provider"
      else if not (field_permitted (field "network_mode") (listed "network"))
      then some "network"
      else none
