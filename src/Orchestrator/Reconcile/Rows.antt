-- ===== src/Orchestrator/Reconcile/Rows.antt =====
-- The rows that a reconciliation goes through: each is in the table, under an id of its own
-- (sqlite.go, ListSandboxes).
use stacyvm.Base.{
  String, ◌≡◌, refl, sym, ap, ◌∙◌, inl, inr, Bool, false, none, some, List, [], ◌∷◌, arith, eq_iff,
  eq_refl, leb, Bool-cases, str_eq, lookup,
}
use stacyvm.Store.Records.{SandboxRecord}
use stacyvm.Store.Sandboxes.{
  Sandboxes, is_live, where_rows, insert_by_age, newest_first, list_sandboxes,
}

-- The table has one row for each key, which is the row's id.
abbrev pub WellKeyed : Sandboxes → Type 0
WellKeyed [] = Unit
WellKeyed ((k, sb) ∷ rows) = (sb.id ≡ k) × (lookup k rows ≡ none) × WellKeyed rows

-- Every row of the list is in the table.
abbrev pub Listed : Sandboxes → List SandboxRecord → Type 0
Listed rows [] = Unit
Listed rows (x ∷ xs) = (lookup x.id rows ≡ some x) × Listed rows xs

-- No row of the list has the id.
abbrev pub Apart : SandboxRecord → List SandboxRecord → Type 0
Apart x [] = Unit
Apart x (y ∷ ys) = (str_eq x.id y.id ≡ false) × (str_eq y.id x.id ≡ false) × Apart x ys

abbrev pub Distinct : List SandboxRecord → Type 0
Distinct [] = Unit
Distinct (x ∷ xs) = Apart x xs × Distinct xs

none-some : {x : SandboxRecord} → none ≡ some x → ⊥
none-some e = ground arith

-- A row under a key that is not in the table has no part in what is listed from it.
weaken :
    (k : String) (sb : SandboxRecord) (rows : Sandboxes) (xs : List SandboxRecord)
    → sb.id ≡ k
    → lookup k rows ≡ none
    → Listed rows xs
    → Listed ((k, sb) ∷ rows) xs × Apart sb xs
unfolding lookup
weaken k sb rows [] own fresh listed = (tt, tt)
weaken k sb rows (x ∷ xs) own fresh (here, rest) =
    let (later, apart) = weaken k sb rows xs own fresh rest in
    elim (Bool-cases (str_eq k x.id)) [
      | inl same ↦
          absurd (none-some (sym fresh ∙ ap (λ i. lookup i rows) ((eq_iff k x.id).0 same) ∙ here))
      | inr other ↦ (
        (rw (other) here, later),
        (rw (own) other, ground (arith, eq_iff k x.id, eq_iff x.id k, own), apart),
      )
    ]

where_rows-Listed :
    (p : SandboxRecord → Bool) (rows : Sandboxes)
    → WellKeyed rows
    → Listed rows (where_rows p rows) × Distinct (where_rows p rows)
unfolding where_rows lookup
where_rows-Listed p [] h = (tt, tt)
where_rows-Listed p ((k, sb) ∷ rows) (own, fresh, h) =
    let (listed, distinct) = where_rows-Listed p rows h in
    let (later, apart) = weaken k sb rows (where_rows p rows) own fresh listed in
    elim (Bool-cases (p sb)) [
      | inl kept ↦ rw (kept) ((rw (own, eq_refl) refl, later), (apart, distinct))
      | inr dropped ↦ rw (dropped) (later, distinct)
    ]

insert_by_age-Listed :
    (rows : Sandboxes) (x : SandboxRecord) (xs : List SandboxRecord)
    → lookup x.id rows ≡ some x
    → Listed rows xs
    → Listed rows (insert_by_age x xs)
unfolding insert_by_age
insert_by_age-Listed rows x [] here listed = (here, tt)
insert_by_age-Listed rows x (y ∷ ys) here (first, rest) =
    elim (Bool-cases (leb y.created_at x.created_at)) [
      | inl newer ↦ rw (newer) (here, (first, rest))
      | inr older ↦ rw (older) (first, insert_by_age-Listed rows x ys here rest)
    ]

insert_by_age-Apart :
    (z x : SandboxRecord) (xs : List SandboxRecord)
    → Apart z (x ∷ xs)
    → Apart z (insert_by_age x xs)
unfolding insert_by_age
insert_by_age-Apart z x [] apart = apart
insert_by_age-Apart z x (y ∷ ys) (a, b, (c, d, rest)) =
    elim (Bool-cases (leb y.created_at x.created_at)) [
      | inl newer ↦ rw (newer) (a, b, (c, d, rest))
      | inr older ↦ rw (older) (c, d, insert_by_age-Apart z x ys (a, b, rest))
    ]

insert_by_age-Distinct :
    (x : SandboxRecord) (xs : List SandboxRecord)
    → Apart x xs
    → Distinct xs
    → Distinct (insert_by_age x xs)
unfolding insert_by_age
insert_by_age-Distinct x [] apart distinct = (tt, tt)
insert_by_age-Distinct x (y ∷ ys) (a, b, apart) (first, rest) =
    elim (Bool-cases (leb y.created_at x.created_at)) [
      | inl newer ↦ rw (newer) ((a, b, apart), (first, rest))
      | inr older ↦
          rw (older)
            (insert_by_age-Apart y x ys (b, a, first), insert_by_age-Distinct x ys apart rest)
    ]

newest_first-Apart :
    (z : SandboxRecord) (xs : List SandboxRecord) → Apart z xs → Apart z (newest_first xs)
unfolding newest_first
newest_first-Apart z [] apart = apart
newest_first-Apart z (x ∷ xs) (a, b, rest) =
    insert_by_age-Apart z x (newest_first xs) (a, b, newest_first-Apart z xs rest)

newest_first-Listed :
    (rows : Sandboxes) (xs : List SandboxRecord)
    → Listed rows xs
    → Distinct xs
    → Listed rows (newest_first xs) × Distinct (newest_first xs)
unfolding newest_first
newest_first-Listed rows [] listed distinct = (tt, tt)
newest_first-Listed rows (x ∷ xs) (here, listed) (apart, distinct) =
    let (l, d) = newest_first-Listed rows xs listed distinct in
    (
      insert_by_age-Listed rows x (newest_first xs) here l,
      insert_by_age-Distinct x (newest_first xs) (newest_first-Apart x xs apart) d,
    )

-- ListSandboxes answers rows of the table, each once.
pub list_sandboxes-Listed :
    (rows : Sandboxes)
    → WellKeyed rows
    → Listed rows (list_sandboxes rows) × Distinct (list_sandboxes rows)
unfolding list_sandboxes
list_sandboxes-Listed rows h =
    let (listed, distinct) = where_rows-Listed is_live rows h in
    newest_first-Listed rows (where_rows is_live rows) listed distinct
