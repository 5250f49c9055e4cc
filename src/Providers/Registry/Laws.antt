-- ===== src/Providers/Registry/Laws.antt =====
-- Which providers a registry finds after any calls on it (registry.go).
use stacyvm.Base.{
  String, ◌≡◌, refl, ◌⊎◌, inl, inr, true, false, List, [], ◌∷◌, arith, Bool-cases, is_empty,
}
use stacyvm.Providers.Registry.{
  Registry, new_registry, has_provider, register_provider, set_default, no_default, found, missing,
  registry_get,
}

pub data RegistryCall : Type 0 where
  register default_to : String → RegistryCall

abbrev pub perform : RegistryCall → Registry → Registry
perform (register name) r = register_provider name r
perform (default_to name) r = (set_default name r).1

abbrev pub perform_all : List RegistryCall → Registry → Registry
perform_all [] r = r
perform_all (c ∷ cs) r = perform_all cs (perform c r)

-- The default is registered, where there is one.
abbrev pub HasDefault : Registry → Type 0
HasDefault r = is_empty r.dflt ≡ false → has_provider r.dflt r.names ≡ true

perform-HasDefault : (c : RegistryCall) (r : Registry) → HasDefault r → HasDefault (perform c r)
unfolding register_provider set_default has_provider
perform-HasDefault (register name) r h = λ given. elim (Bool-cases (has_provider name r.names)) [
  | inl old ↦ rw (old) (h (rw (old) at given))
  | inr new ↦ rw (new) (ground (arith, h (rw (new) at given)))
]
perform-HasDefault (default_to name) r h = λ given. elim (Bool-cases (has_provider name r.names)) [
  | inl known ↦ ground arith
  | inr unknown ↦ ground (arith, h (ground arith))
]

pub perform_all-HasDefault :
    (cs : List RegistryCall) (r : Registry) → HasDefault r → HasDefault (perform_all cs r)
perform_all-HasDefault [] r h = h
perform_all-HasDefault (c ∷ cs) r h =
    perform_all-HasDefault cs (perform c r) (perform-HasDefault c r h)

-- Whatever was registered and set on a new registry, Get with no name answers a registered provider,
-- or that no default is set: never that the default itself is missing.
pub registry_get-default :
    (cs : List RegistryCall)
    → let r = perform_all cs new_registry in
      (registry_get "" r ≡ missing no_default)
      ⊎ ((registry_get "" r ≡ found r.dflt) × (has_provider r.dflt r.names ≡ true))
unfolding registry_get has_provider
registry_get-default cs =
    let r = perform_all cs new_registry in
    let kept = perform_all-HasDefault cs new_registry (λ e. ground arith) in
    elim (Bool-cases (is_empty r.dflt)) [
      | inl none_set ↦ inl (rw none_set refl)
      | inr given ↦ inr (rw (given, kept given) refl, kept given)
    ]
