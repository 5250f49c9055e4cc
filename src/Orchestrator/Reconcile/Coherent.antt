-- ===== src/Orchestrator/Reconcile/Coherent.antt =====
-- After a reconciliation the cache and the rows agree (manager.go, Reconcile).
use stacyvm.Base.{String, ◌≡◌, none, List, [], ◌∷◌, lookup}
use stacyvm.Store.Records.{SandboxRecord}
use stacyvm.Orchestrator.Lifecycle.{World}
use stacyvm.Orchestrator.Reconcile.Steps.{Agree}

-- Every cached sandbox has a row in the same state.
abbrev pub Coherent : World → Type 0
Coherent w = (id : String) → Agree id w

-- No sandbox of the list is cached.
abbrev AllUncached : World → List SandboxRecord → Type 0
AllUncached w [] = Unit
AllUncached w (x ∷ xs) = (lookup x.id w.sandboxes ≡ none) × AllUncached w xs
