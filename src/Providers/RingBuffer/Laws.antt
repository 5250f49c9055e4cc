-- ===== src/Providers/RingBuffer/Laws.antt =====
-- Splitting into lines, and the shift of a full buffer (ringbuf.go, Write and addLine).
use stacyvm.Base.{
  ℕ, suc, ◌-◌, ◌≤◌, ◌<◌, ◌≡◌, refl, ap, inl, inr, false, List, [], ◌∷◌, ◌++◌, arith, ◌==◌,
  Bool-cases, length, set, length-append, length-set,
}
use stacyvm.Providers.RingBuffer.{
  Bytes, newline, glue, split_lines, last_part, init_parts, copy_left, add_line, add_lines,
}

split_lines-cons : (s : Bytes) → (p : Bytes) × (ps : List Bytes) × (split_lines s ≡ p ∷ ps)
unfolding split_lines
split_lines-cons [] = ([], [], refl)
split_lines-cons (c ∷ s) = elim (Bool-cases (c == newline)) [
  | inl e ↦ ([], split_lines s, rw e)
  | inr e ↦ let (p, ps, same) = split_lines-cons s in (c ∷ p, ps, rw (e, same))
]

init_parts-glue :
    (c : ℕ) (t p : Bytes) (ps whole : List Bytes)
    → (c == newline) ≡ false
    → whole ≡ init_parts (p ∷ ps) ++ split_lines (last_part (p ∷ ps) ++ t)
    → glue c whole ≡ init_parts ((c ∷ p) ∷ ps) ++ split_lines (last_part ((c ∷ p) ∷ ps) ++ t)
unfolding split_lines init_parts last_part
init_parts-glue c t p [] whole other e = rw (e, other)
init_parts-glue c t p (q ∷ qs) whole other e = rw e

-- Splitting a text in two pieces: the second piece goes on from the incomplete line.
pub split_lines-append :
    (s t : Bytes)
    → split_lines (s ++ t)
      ≡ init_parts (split_lines s) ++ split_lines (last_part (split_lines s) ++ t)
unfolding split_lines init_parts last_part
split_lines-append [] t = refl
split_lines-append (c ∷ s) t =
    let (p, ps, e) = split_lines-cons s in
    let ih = split_lines-append s t in
    elim (Bool-cases (c == newline)) [
      | inl brk ↦ rw (brk, e) (ap (λ (r : List Bytes). [] ∷ r) (rw e at ih))
      | inr other ↦ rw (other, e) (init_parts-glue c t p ps _ other (rw e at ih))
    ]

init_parts-append_cons :
    (xs : List Bytes) (p : Bytes) (ps : List Bytes)
    → init_parts (xs ++ p ∷ ps) ≡ xs ++ init_parts (p ∷ ps)
unfolding init_parts
init_parts-append_cons [] p ps = refl
init_parts-append_cons (x ∷ []) p ps = refl
init_parts-append_cons (x ∷ y ∷ r) p ps =
    ap (λ (rest : List Bytes). x ∷ rest) (init_parts-append_cons (y ∷ r) p ps)

last_part-append_cons :
    (xs : List Bytes) (p : Bytes) (ps : List Bytes) → last_part (xs ++ p ∷ ps) ≡ last_part (p ∷ ps)
unfolding last_part
last_part-append_cons [] p ps = refl
last_part-append_cons (x ∷ []) p ps = refl
last_part-append_cons (x ∷ y ∷ r) p ps = last_part-append_cons (y ∷ r) p ps

pub init_parts-append :
    (xs : List Bytes) (s : Bytes)
    → init_parts (xs ++ split_lines s) ≡ xs ++ init_parts (split_lines s)
init_parts-append xs s =
    let (p, ps, e) = split_lines-cons s in rw e (init_parts-append_cons xs p ps)

pub last_part-append :
    (xs : List Bytes) (s : Bytes) → last_part (xs ++ split_lines s) ≡ last_part (split_lines s)
last_part-append xs s = let (p, ps, e) = split_lines-cons s in rw e (last_part-append_cons xs p ps)

pub add_lines-append :
    (m : ℕ) (lines xs ys : List Bytes)
    → add_lines m lines (xs ++ ys) ≡ add_lines m (add_lines m lines xs) ys
unfolding add_lines
add_lines-append m lines [] ys = refl
add_lines-append m lines (x ∷ xs) ys = add_lines-append m (add_line m lines x) xs ys

copy_left-length : (xs : List Bytes) → length (copy_left xs) ≡ length xs
unfolding copy_left
copy_left-length [] = refl
copy_left-length (x ∷ []) = refl
copy_left-length (x ∷ y ∷ r) = ap suc (copy_left-length (y ∷ r))

pub set-copy_left :
    (x : Bytes) (xs : List Bytes) (line : Bytes)
    → set (copy_left (x ∷ xs)) (length xs) line ≡ xs ++ line ∷ []
unfolding copy_left
set-copy_left x [] line = refl
set-copy_left x (y ∷ r) line = ap (λ (r : List Bytes). y ∷ r) (set-copy_left y r line)

pub length-add_line :
    (m : ℕ) (lines : List Bytes) (line : Bytes)
    → 0 < m
    → length lines ≤ m
    → length (add_line m lines line) ≤ m
unfolding add_line
length-add_line m lines line pos_m within = ground (
  arith,
  length-append lines (line ∷ []),
  copy_left-length lines,
  length-set (copy_left lines) (length lines - 1) line,
)
