-- ===== src/Api/Policy/Tests.antt =====
-- Policies on concrete requests, with a pattern that matches only itself.
use stacyvm.Base.{
  ℕ, String, ◌≡◌, refl, ◌↔◌, Bool, true, false, some, [], ◌∷◌, if◌then◌else◌, pos, str_eq,
}
use stacyvm.Store.Records.{PolicyRecord}
use stacyvm.Api.Policy.{
  selected, comes_first, insert_ordered, list_policies, matches, policy_permits, field_permitted,
  enforce,
}
use stacyvm.Api.Policy.Decided.{DeniedFirst, policy_permits-denied}

abbrev policy : String → String → ℕ → PolicyRecord
policy effect pattern priority = record {
  id = "p";
  tenant_id = "";
  resource_type = "image";
  effect = effect;
  pattern = pattern;
  priority = pos priority;
  created_at = 1;
}

abbrev exact : String → String → Bool
exact pattern value = str_eq pattern value

-- An allow of the same priority that was listed before a deny wins over it.
allow_wins :
    policy_permits exact "alpine"
      (list_policies "acme" "image" (policy "allow" "*" 1 ∷ policy "deny" "alpine" 1 ∷ []))
    ≡ true
unfolding list_policies insert_ordered comes_first selected policy_permits matches
allow_wins = refl

image_refused :
    enforce exact
      (λ field. if str_eq field "image" then "alpine" else "")
      (λ kind. some (policy "deny" "alpine" 1 ∷ []))
    ≡ some "image"
unfolding enforce field_permitted policy_permits matches
image_refused = refl

policy_permits-denied_example :
    (policy_permits exact "alpine" (policy "deny" "alpine" 1 ∷ []) ≡ false)
    ↔ DeniedFirst exact "alpine" (policy "deny" "alpine" 1 ∷ [])
policy_permits-denied_example = policy_permits-denied exact "alpine" (policy "deny" "alpine" 1 ∷ [])
