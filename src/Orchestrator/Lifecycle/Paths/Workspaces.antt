-- ===== src/Orchestrator/Lifecycle/Paths/Workspaces.antt =====
-- The workspaces of two sandboxes on one machine have no path in common (manager.go, scopedPath).
use stacyvm.Base.{String, ◌≡◌, refl, ◌⊎◌, inl, inr, true, false, arith, codes}
use Prim.Native.Char.{code}
use stacyvm.Orchestrator.Lifecycle.{Sandbox}
use stacyvm.Orchestrator.Lifecycle.Paths.{cat, has_prefix, workspace}
use stacyvm.Orchestrator.Lifecycle.Paths.Scoped.{has_slash}

-- The path is the sandbox's workspace, or lies below it.
abbrev pub InWorkspace : Sandbox → String → Type 0
InWorkspace sb p = (p ≡ workspace sb) ⊎ (has_prefix p (cat (workspace sb) "/") ≡ true)

has_prefix_refl : (p : String) → has_prefix p p ≡ true
unfolding has_prefix
has_prefix_refl String.[] = refl
has_prefix_refl (String.◌∷◌ c p) = ground (arith, has_prefix_refl p)

has_prefix-cat : (p q r : String) → has_prefix p q ≡ true → has_prefix (cat p r) q ≡ true
unfolding has_prefix cat
has_prefix-cat String.[] String.[] r e = refl
has_prefix-cat String.[] (String.◌∷◌ c q) r e = absurd (ground arith)
has_prefix-cat (String.◌∷◌ d p) String.[] r e = refl
has_prefix-cat (String.◌∷◌ d p) (String.◌∷◌ c q) r e = ground (arith, has_prefix-cat p q r)

first_element :
    (p a b : String)
    → has_slash a ≡ false
    → has_slash b ≡ false
    → has_prefix p (cat a "/") ≡ true
    → has_prefix p (cat b "/") ≡ true
    → codes a ≡ codes b
unfolding has_prefix cat
first_element String.[] String.[] b flat flat' e e' = absurd (ground arith)
first_element String.[] (String.◌∷◌ c a) b flat flat' e e' = absurd (ground arith)
first_element (String.◌∷◌ d p) String.[] String.[] flat flat' e e' = refl
first_element (String.◌∷◌ d p) String.[] (String.◌∷◌ c b) flat flat' e e' = absurd (ground arith)
first_element (String.◌∷◌ d p) (String.◌∷◌ c a) String.[] flat flat' e e' = absurd (ground arith)
first_element (String.◌∷◌ d p) (String.◌∷◌ c a) (String.◌∷◌ c' b) flat flat' e e' =
    let same : code c ≡ code c' = ground arith in
    let rest = first_element p a b (ground arith) (ground arith) (ground arith) (ground arith) in cc

after_base :
    (p base a b : String)
    → has_slash a ≡ false
    → has_slash b ≡ false
    → has_prefix p (cat (cat base a) "/") ≡ true
    → has_prefix p (cat (cat base b) "/") ≡ true
    → codes a ≡ codes b
unfolding has_prefix cat
after_base p String.[] a b flat flat' e e' = first_element p a b flat flat' e e'
after_base String.[] (String.◌∷◌ c base) a b flat flat' e e' = absurd (ground arith)
after_base (String.◌∷◌ d p) (String.◌∷◌ c base) a b flat flat' e e' =
    after_base p base a b flat flat' (ground arith) (ground arith)

below_slash :
    (sb : Sandbox) (p : String)
    → InWorkspace sb p
    → has_prefix (cat p "/") (cat (cat "/workspace/" sb.id) "/") ≡ true
unfolding workspace
below_slash sb p (inl here) = rw (here) (has_prefix_refl _)
below_slash sb p (inr below) = has_prefix-cat p _ "/" below

-- A path in the workspaces of two sandboxes whose ids hold no slash: the ids are the same, code point
-- by code point.
pub workspaces_disjoint :
    (sb sb' : Sandbox) (p : String)
    → has_slash sb.id ≡ false
    → has_slash sb'.id ≡ false
    → InWorkspace sb p
    → InWorkspace sb' p
    → codes sb.id ≡ codes sb'.id
workspaces_disjoint sb sb' p flat flat' inside inside' =
    after_base (cat p "/") "/workspace/" sb.id sb'.id flat flat' (below_slash sb p inside)
      (below_slash sb' p inside')
