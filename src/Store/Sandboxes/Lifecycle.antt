-- ===== src/Store/Sandboxes/Lifecycle.antt =====
-- The life of a row of the table of sandboxes, and what the queries see of it (sqlite.go).
use stacyvm.Base.{
  ℕ, String, ◌≡◌, refl, sym, ap, ◌∙◌, ◌↔◌, ◌⊎◌, inl, inr, Bool, true, false, some, List, [], ◌∷◌,
  arith, eq_refl, leb, Bool-cases, str_eq, lookup, insert, lookup-insert,
}
use stacyvm.Store.Records.{SandboxRecord}
use stacyvm.Store.Leases.{ok, err, conflict, not_found}
use stacyvm.Store.Sandboxes.{
  Sandboxes, destroyed, create_sandbox, is_live, where_rows, insert_by_age, newest_first,
  list_sandboxes, update_sandbox_state, update_sandbox_expires_at, delete_sandbox,
}

abbrev pub Holds : SandboxRecord → List SandboxRecord → Type 0
Holds sb [] = ⊥
Holds sb (x ∷ xs) = (x ≡ sb) ⊎ Holds sb xs

-- Each row stands under its own id.
abbrev pub Keyed : Sandboxes → Type 0
Keyed rows = (k : String) (sb : SandboxRecord) → lookup k rows ≡ some sb → sb.id ≡ k

Holds-where_rows :
    (p : SandboxRecord → Bool) (k : String) (sb : SandboxRecord) (rows : Sandboxes)
    → lookup k rows ≡ some sb
    → p sb ≡ true
    → Holds sb (where_rows p rows)
unfolding where_rows lookup
Holds-where_rows p k sb [] e t = absurd (ground arith)
Holds-where_rows p k sb ((j, x) ∷ rows) e t = elim (Bool-cases (str_eq j k)) [
  | inl here ↦ let same : x ≡ sb = ground arith in rw (ap p same, t) (inl same)
  | inr later ↦
      let rest = Holds-where_rows p k sb rows (ground arith) t in
      elim (Bool-cases (p x)) [ inl a ↦ rw (a) (inr rest) | inr a ↦ rw (a) rest ]
]

where_rows-Holds :
    (p : SandboxRecord → Bool) (sb : SandboxRecord) (rows : Sandboxes)
    → Holds sb (where_rows p rows)
    → p sb ≡ true
unfolding where_rows
where_rows-Holds p sb [] h = absurd h
where_rows-Holds p sb ((j, x) ∷ rows) h = elim (Bool-cases (p x)) [
  | inl a ↦
      let kept : (x ≡ sb) ⊎ Holds sb (where_rows p rows) = rw (a) at h in
      elim kept [ inl same ↦ sym (ap p same) ∙ a | inr rest ↦ where_rows-Holds p sb rows rest ]
  | inr a ↦ let kept : Holds sb (where_rows p rows) = rw (a) at h in where_rows-Holds p sb rows kept
]

Holds-insert_by_age :
    (sb x : SandboxRecord) (xs : List SandboxRecord)
    → Holds sb (insert_by_age x xs) ↔ ((x ≡ sb) ⊎ Holds sb xs)
unfolding insert_by_age
Holds-insert_by_age sb x [] = (λ h. h, λ h. h)
Holds-insert_by_age sb x (y ∷ ys) =
    let (forth, back) = Holds-insert_by_age sb x ys in
    elim (Bool-cases (leb y.created_at x.created_at)) [
      | inl a ↦ rw (a) (λ h. h, λ h. h)
      | inr a ↦ rw (a) (
        elim [
          | inl here ↦ inr (inl here)
          | inr rest ↦ elim (forth rest) [ inl e ↦ inl e | inr r ↦ inr (inr r) ]
        ],
        elim [
          | inl new ↦ inr (back (inl new))
          | inr (inl here) ↦ inl here
          | inr (inr rest) ↦ inr (back (inr rest))
        ],
      )
    ]

Holds-newest_first :
    (sb : SandboxRecord) (xs : List SandboxRecord) → Holds sb (newest_first xs) ↔ Holds sb xs
unfolding newest_first
Holds-newest_first sb [] = (λ h. h, λ h. h)
Holds-newest_first sb (x ∷ xs) =
    let (forth, back) = Holds-newest_first sb xs in
    let (out, into) = Holds-insert_by_age sb x (newest_first xs) in
    (
      λ h. elim (out h) [ inl e ↦ inl e | inr r ↦ inr (forth r) ],
      elim [ inl e ↦ into (inl e) | inr r ↦ into (inr (back r)) ],
    )

false-true : false ≡ true → ⊥
false-true e = ground arith

-- ListSandboxes answers every row that is not destroyed, and no other.
pub list_sandboxes_exact :
    (k : String) (sb : SandboxRecord) (rows : Sandboxes)
    → lookup k rows ≡ some sb
    → Holds sb (list_sandboxes rows) ↔ (is_live sb ≡ true)
unfolding list_sandboxes
list_sandboxes_exact k sb rows e = (
  λ h. where_rows-Holds is_live sb rows ((Holds-newest_first sb _).0 h),
  λ t. (Holds-newest_first sb _).1 (Holds-where_rows is_live k sb rows e t),
)

pub there :
    (id : String) (sb : SandboxRecord) (rows : Sandboxes) → lookup id (insert id sb rows) ≡ some sb
there id sb rows = rw (lookup-insert, eq_refl) refl

pub delete_sandbox-found :
    (id : String) (now : ℕ) (rows : Sandboxes) (old : SandboxRecord)
    → lookup id rows ≡ some old
    → delete_sandbox id now rows
      ≡ (ok tt, insert id (record old { state = destroyed; updated_at = now }) rows)
unfolding delete_sandbox
delete_sandbox-found id now rows old e = rw (update_sandbox_state, e) refl

-- A row that DeleteSandbox has deleted is still there, as destroyed: no query for live rows answers
-- it, its id cannot be used again, and its expiry cannot be extended.
pub delete_sandbox_final :
    (id : String) (now : ℕ) (rows : Sandboxes) (old fresh : SandboxRecord) (expires later : ℕ)
    → lookup id rows ≡ some old
    → fresh.id ≡ id
    → let rows' = (delete_sandbox id now rows).1 in
      let gone = record old { state = destroyed; updated_at = now } in
      (lookup id rows' ≡ some gone)
      × ¬ Holds gone (list_sandboxes rows')
      × (create_sandbox fresh rows' ≡ (err (conflict "UNIQUE constraint"), rows'))
      × (update_sandbox_expires_at id expires later rows' ≡ (err (not_found "sandbox" id), rows'))
unfolding newest_first list_sandboxes create_sandbox insert update_sandbox_expires_at
delete_sandbox_final id now rows old fresh expires later e same =
    let gone = record old { state = destroyed; updated_at = now } in
    rw (delete_sandbox-found id now rows old e) (
      there id gone rows,
      λ h. false-true (where_rows-Holds is_live gone _ ((Holds-newest_first gone _).0 h)),
      rw (create_sandbox, same, there) refl,
      rw (update_sandbox_expires_at, there) refl,
    )
