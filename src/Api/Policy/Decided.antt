-- ===== src/Api/Policy/Decided.antt =====
-- Which policy decides (middleware/policy.go).
use stacyvm.Base.{
  String, ◌≡◌, refl, sym, ap, subst, ◌↔◌, ◌⊎◌, inl, inr, Bool, true, false, List, [], ◌∷◌, ◌++◌,
  arith, Bool-cases, str_eq,
}
use stacyvm.Store.Records.{PolicyRecord}
use stacyvm.Api.Policy.{matches, policy_permits}

true-false : true ≡ false → ⊥
true-false e = ground arith

module _ (glob : String → String → Bool) (value : String) where
  -- A policy that matches the value and neither denies nor allows it, or that does not match it.
  pub Silent : PolicyRecord → Type 0
  Silent p =
      (matches glob value p ≡ false)
      ⊎ ((str_eq p.effect "deny" ≡ false) × (str_eq p.effect "allow" ≡ false))

  pub AllSilent : List PolicyRecord → Type 0
  AllSilent [] = Unit
  AllSilent (p ∷ ps) = Silent p × AllSilent ps

  -- Some policy matches and denies, and each one before it is silent.
  pub DeniedFirst : List PolicyRecord → Type 0
  DeniedFirst ps =
      (before : List PolicyRecord) × (p : PolicyRecord) × (after : List PolicyRecord) × (ps
        ≡ before ++ p ∷ after)
      × AllSilent before
      × (matches glob value p ≡ true)
      × (str_eq p.effect "deny" ≡ true)

  later :
      (q : PolicyRecord) (ps : List PolicyRecord) → Silent q → DeniedFirst ps → DeniedFirst (q ∷ ps)
  unfolding DeniedFirst AllSilent
  later q ps silent (before, p, after, e, quiet, m, d) =
      (q ∷ before, p, after, ap (λ qs. q ∷ qs) e, (silent, quiet), m, d)

  denied-first : (ps : List PolicyRecord) → policy_permits glob value ps ≡ false → DeniedFirst ps
  unfolding policy_permits DeniedFirst AllSilent Silent
  denied-first [] e = absurd (ground arith)
  denied-first (p ∷ ps) e = elim (Bool-cases (matches glob value p)) [
    | inr off ↦ later p ps (inl off) (denied-first ps (rw (policy_permits, off) at e))
    | inl on ↦ elim (Bool-cases (str_eq p.effect "deny")) [
      | inl denies ↦ ([], p, ps, refl, tt, on, denies)
      | inr no_deny ↦ elim (Bool-cases (str_eq p.effect "allow")) [
        | inl allows ↦ absurd (true-false (rw (policy_permits, on, no_deny, allows) at e))
        | inr no_allow ↦
            later p ps (inr (no_deny, no_allow))
              (denied-first ps (rw (policy_permits, on, no_deny, no_allow) at e))
      ]
    ]
  ]

  first-denied :
      (before : List PolicyRecord) (p : PolicyRecord) (after : List PolicyRecord)
      → AllSilent before
      → matches glob value p ≡ true
      → str_eq p.effect "deny" ≡ true
      → policy_permits glob value (before ++ p ∷ after) ≡ false
  unfolding policy_permits AllSilent Silent
  first-denied [] p after quiet m d = rw (m, d) refl
  first-denied (q ∷ before) p after (inl off, quiet) m d =
      rw (off) (first-denied before p after quiet m d)
  first-denied (q ∷ before) p after (inr (no_deny, no_allow), quiet) m d =
      let rest = first-denied before p after quiet m d in
      elim (Bool-cases (matches glob value q)) [
        | inl on ↦ rw (on, no_deny, no_allow) rest
        | inr off ↦ rw (off) rest
      ]

  -- A value is refused exactly where the first policy of the list that matches it and that denies or
  -- allows is one that denies: the order of the list decides, and where none decides it is permitted.
  pub policy_permits-denied :
      (ps : List PolicyRecord) → (policy_permits glob value ps ≡ false) ↔ DeniedFirst ps
  unfolding DeniedFirst
  policy_permits-denied ps = (
    denied-first ps,
    λ (before, p, after, e, quiet, m, d).
        subst (λ qs. policy_permits glob value qs ≡ false) (sym e)
          (first-denied before p after quiet m d),
  )
