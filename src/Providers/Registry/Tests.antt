-- ===== src/Providers/Registry/Tests.antt =====
-- A registry with two providers.
use stacyvm.Base.{◌≡◌, refl, ◌⊎◌, true, [], ◌∷◌}
use stacyvm.Providers.Registry.{
  new_registry, has_provider, register_provider, no_default, no_provider, found, missing,
  registry_get,
}
use stacyvm.Providers.Registry.Laws.{register, default_to, perform_all, registry_get-default}

registry_get-default_instance :
    let r =
      perform_all (register "mock" ∷ default_to "mock" ∷ default_to "e2b" ∷ []) new_registry in
    (registry_get "" r ≡ missing no_default)
    ⊎ ((registry_get "" r ≡ found r.dflt) × (has_provider r.dflt r.names ≡ true))
registry_get-default_instance =
    registry_get-default (register "mock" ∷ default_to "mock" ∷ default_to "e2b" ∷ [])

get_named : registry_get "e2b" (register_provider "mock" new_registry) ≡ missing (no_provider "e2b")
unfolding registry_get register_provider
get_named = refl
