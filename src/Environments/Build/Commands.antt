-- ===== src/Environments/Build/Commands.antt =====
-- The commands that a build runs (internal/environments/manager.go).
use stacyvm.Base.{ℕ, String, Bool, List}
use stacyvm.Environments.Records.{EnvironmentBuildRecord, RegistryConnectionRecord, World, Answers}
use stacyvm.Environments.Publish.Secrets.{Discreet}

module _ (a : Answers) (now : ℕ) (owner : String) (conns : List RegistryConnectionRecord) where
  -- What a step leaves.
  abbrev Leaves : Bool × World → Type 0
  Leaves o = Discreet owner conns o.1

  -- A step that keeps to it.
  abbrev Careful : (EnvironmentBuildRecord → World → Bool × World) → Type 0
  Careful next =
      (b : EnvironmentBuildRecord) (w : World) → Discreet owner conns w → Leaves (next b w)
