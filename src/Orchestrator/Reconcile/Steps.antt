-- ===== src/Orchestrator/Reconcile/Steps.antt =====
-- What one row's turn in a reconciliation does to the rows and the cache (manager.go): it leaves the
-- other sandboxes alone, and its own row and cached sandbox agree on the state.
use stacyvm.Base.{
  ℕ, String, ◌≡◌, refl, sym, ap, ◌∙◌, inl, inr, Bool, true, false, none, some, arith, eq_iff,
  eq_refl, if◌then◌else◌, Bool-cases, Option-cases, str_eq, lookup, lookup-insert,
}
use stacyvm.Store.Records.{SandboxRecord}
use stacyvm.Store.Sandboxes.{Sandboxes, update_sandbox_state}
use stacyvm.Orchestrator.Lifecycle.{Sandbox, World}
use stacyvm.Orchestrator.Reconcile.{set_state, set_state_if_new}

-- The cached sandbox of the id, if there is one, has a row in the same state.
abbrev pub Agree : String → World → Type 0
Agree id w =
    (sb : Sandbox)
    → lookup id w.sandboxes ≡ some sb
    → (rec : SandboxRecord) × (lookup id w.records ≡ some rec) × (rec.state ≡ sb.state)

-- From `w` to `u`, the rows of other ids are as they were.
abbrev pub SameRows : String → World → World → Type 0
SameRows id w u = (j : String) → str_eq id j ≡ false → lookup j u.records ≡ lookup j w.records

pub record Touches (id : String) (w u : World) : Type 0 where
  pub rows : (j : String) → str_eq id j ≡ false → lookup j u.records ≡ lookup j w.records
  pub cached : (j : String) → str_eq id j ≡ false → lookup j u.sandboxes ≡ lookup j w.sandboxes
  pub agree : Agree id u

pub none-some : {sb : Sandbox} → none ≡ some sb → ⊥
none-some e = ground arith

some-eq : {a b : Sandbox} → some a ≡ some b → a ≡ b
some-eq e = cc

pub update-frame :
    (id state : String) (now : ℕ) (rows : Sandboxes) (j : String)
    → str_eq id j ≡ false
    → lookup j (update_sandbox_state id state now rows).1 ≡ lookup j rows
unfolding update_sandbox_state
update-frame id state now rows j other = elim (Option-cases (lookup id rows)) [
  | inl missing ↦ rw (missing, update_sandbox_state) refl
  | inr (rec, there) ↦ rw (there, update_sandbox_state, lookup-insert, other) refl
]

pub update-there :
    (id state : String) (now : ℕ) (rows : Sandboxes) (rec : SandboxRecord)
    → lookup id rows ≡ some rec
    → (new : SandboxRecord) × (lookup id (update_sandbox_state id state now rows).1 ≡ some new)
      × (new.state ≡ state)
unfolding update_sandbox_state
update-there id state now rows rec there = (
  record rec { state = state; updated_at = now },
  rw (there, update_sandbox_state, lookup-insert, eq_refl) refl,
  refl,
)

pub set_state-SameRows :
    (up : Bool) (id state : String) (now : ℕ) (w : World)
    → SameRows id w (set_state up id state now w).1
      × ((set_state up id state now w).1.sandboxes ≡ w.sandboxes)
unfolding set_state
set_state-SameRows true id state now w =
    (λ j other. update-frame id state now w.records j other, refl)
set_state-SameRows false id state now w = (λ j other. refl, refl)

-- A turn that ends with the id not cached.
pub uncached :
    (id : String) (w u : World)
    → SameRows id w u
    → u.sandboxes ≡ w.sandboxes
    → lookup id w.sandboxes ≡ none
    → Touches id w u
uncached id w u rows same gone = record {
  rows = rows;
  cached = λ j other. ap (lookup j) same;
  agree = λ sb e. absurd (none-some (sym gone ∙ sym (ap (lookup id) same) ∙ e));
}

-- A turn that ends with a sandbox cached whose row is in its state.
pub put :
    (id : String) (sb : Sandbox) (w u : World) (rec : SandboxRecord)
    → SameRows id w u
    → ((j : String)
        → lookup j u.sandboxes ≡ (if str_eq id j then some sb else lookup j w.sandboxes))
    → lookup id u.records ≡ some rec
    → rec.state ≡ sb.state
    → Touches id w u
put id sb w u rec rows same there state = record {
  rows = rows;
  cached = λ j other. rw (other) at (same j);
  agree = λ sb' e.
      let here : sb ≡ sb' = some-eq (sym (rw (eq_refl) at (same id)) ∙ e) in
      (rec, there, state ∙ ap (λ (x : Sandbox). x.state) here);
}

pub set_state_if_new-frame :
    (up : Bool) (rec : SandboxRecord) (state : String) (now : ℕ) (w : World)
    → SameRows rec.id w (set_state_if_new up rec state now w).1
      × ((set_state_if_new up rec state now w).1.sandboxes ≡ w.sandboxes)
unfolding set_state_if_new
set_state_if_new-frame up rec state now w = elim (Bool-cases (str_eq state rec.state)) [
  | inl old ↦ rw (old) (λ j other. refl, refl)
  | inr new ↦ rw (new) (set_state-SameRows up rec.id state now w)
]

pub set_state_if_new-there :
    (up : Bool) (rec : SandboxRecord) (state : String) (now : ℕ) (w : World)
    → lookup rec.id w.records ≡ some rec
    → (set_state_if_new up rec state now w).0 ≡ true
    → (new : SandboxRecord) × (lookup rec.id (set_state_if_new up rec state now w).1.records
        ≡ some new)
      × (new.state ≡ state)
unfolding set_state_if_new set_state
set_state_if_new-there up rec state now w there done = elim (Bool-cases (str_eq state rec.state)) [
  | inl old ↦ rw (old) (rec, there, sym ((eq_iff state rec.state).0 old))
  | inr new ↦ elim (Bool-cases up) [
    | inl answers ↦ rw (new, answers) (update-there rec.id state now w.records rec there)
    | inr silent ↦ absurd (ground arith)
  ]
]
