-- ===== src/Providers/RingBuffer/Stream.antt =====
-- The ring buffer as a window on the stream of what was written (ringbuf.go, Write and Lines).
use stacyvm.Base.{
  ℕ, zero, suc, ◌+◌, ◌-◌, ◌≤◌, ◌<◌, ◌≡◌, refl, sym, ap, ◌∙◌, inl, inr, List, [], ◌∷◌, ◌++◌, arith,
  ltb, leb, ◌==◌, if◌then◌else◌, lt→ltb, Bool-cases, length, drop, length-append, length-drop,
  append_assoc_list,
}
use mathlib.Core.List.{append-nil}
use stacyvm.Providers.RingBuffer.{
  Bytes, RingBuffer, new_ring_buffer, split_lines, last_part, init_parts, add_line, add_lines,
  write, from_index, lines_of, has_partial, skipped,
}
use stacyvm.Providers.RingBuffer.Laws.{
  split_lines-append, init_parts-append, last_part-append, add_lines-append, set-copy_left,
}

-- Two writes are one write of the two pieces in a row: lines do not depend on how the output of a
-- sandbox is cut into chunks.
pub write-append : (p q : Bytes) (rb : RingBuffer) → write q (write p rb) ≡ write (p ++ q) rb
unfolding write
write-append p q rb =
    let cut : split_lines (rb.partial ++ (p ++ q))
        ≡ init_parts (split_lines (rb.partial ++ p))
          ++ split_lines (last_part (split_lines (rb.partial ++ p)) ++ q) =
      ap split_lines (sym (append_assoc_list rb.partial p q))
      ∙ split_lines-append (rb.partial ++ p) q in
    rw (cut, init_parts-append, last_part-append, add_lines-append)

write_empty : (max_lines : ℕ) → write [] (new_ring_buffer max_lines) ≡ new_ring_buffer max_lines
unfolding write new_ring_buffer split_lines last_part init_parts add_lines
write_empty max_lines = refl

pub write_many : List Bytes → RingBuffer → RingBuffer
write_many [] rb = rb
write_many (chunk ∷ chunks) rb = write_many chunks (write chunk rb)

abbrev pub concat : List Bytes → Bytes
concat [] = []
concat (chunk ∷ chunks) = chunk ++ concat chunks

write_many-concat :
    (chunks : List Bytes) (p : Bytes) (rb : RingBuffer)
    → write_many chunks (write p rb) ≡ write (p ++ concat chunks) rb
unfolding write_many
write_many-concat [] p rb = rw (append-nil p)
write_many-concat (chunk ∷ chunks) p rb = rw (
  write-append p chunk rb,
  write_many-concat chunks (p ++ chunk) rb,
  append_assoc_list p chunk (concat chunks),
)

-- The last `m` entries.
abbrev pub keep_last : ℕ → List Bytes → List Bytes
keep_last m xs = drop (length xs - m) xs

drop-one-cons :
    (y : Bytes) (ys : List Bytes) (z : Bytes) (zs : List Bytes)
    → ◌≡◌ {A = List Bytes} (y ∷ ys) (z ∷ zs)
    → ys ≡ zs
drop-one-cons y ys z zs e = cc

drop-suc_append :
    (k : ℕ) (ys w : List Bytes) (z : Bytes) (zs : List Bytes)
    → drop k ys ≡ z ∷ zs
    → drop (suc k) (ys ++ w) ≡ zs ++ w
drop-suc_append zero [] w z zs e = cc
drop-suc_append zero (y ∷ ys) w z zs e = ap (λ (l : List Bytes). l ++ w) (drop-one-cons y ys z zs e)
drop-suc_append (suc k) [] w z zs e = cc
drop-suc_append (suc k) (y ∷ ys) w z zs e = drop-suc_append k ys w z zs e

drop-cons :
    (k : ℕ) (ys : List Bytes)
    → k < length ys
    → (z : Bytes) × (zs : List Bytes) × (drop k ys ≡ z ∷ zs)
drop-cons k [] h = absurd (omega arith)
drop-cons zero (y ∷ ys) h = (y, ys, refl)
drop-cons (suc k) (y ∷ ys) h = drop-cons k ys (omega arith)

add_line-keep_last :
    (m : ℕ) (ys : List Bytes) (x : Bytes)
    → 0 < m
    → add_line m (keep_last m ys) x ≡ keep_last m (ys ++ x ∷ [])
unfolding add_line
add_line-keep_last m ys x pos_m = elim (Bool-cases (leb m (length ys))) [
  | inl full ↦
      let (z, zs, e) = drop-cons (length ys - m) ys (ground arith) in
      let next : length (ys ++ x ∷ []) - m ≡ suc (length ys - m) =
        ground (arith, length-append ys (x ∷ [])) in
      let held : suc (length zs) ≡ m =
        ground (arith, ap length e, length-drop (length ys - m) ys) in
      rw (e, next, drop-suc_append _ ys (x ∷ []) z zs e) (ground (arith, set-copy_left z zs x))
  | inr room ↦
      let none_dropped : length ys - m ≡ 0 = ground arith in
      let still_none : length (ys ++ x ∷ []) - m ≡ 0 = ground (arith, length-append ys (x ∷ [])) in
      rw (none_dropped, still_none) (ground arith)
]

keep_last-nil : (m : ℕ) → keep_last m [] ≡ []
keep_last-nil m = elim (0 - m) as (λ n. drop {A = Bytes} n [] ≡ []) [ zero ↦ refl | suc n ↦ refl ]

add_lines-keep_last :
    (m : ℕ) (ys xs : List Bytes) → 0 < m → add_lines m (keep_last m ys) xs ≡ keep_last m (ys ++ xs)
unfolding add_lines
add_lines-keep_last m ys [] pos_m = rw (append-nil ys)
add_lines-keep_last m ys (x ∷ xs) pos_m = rw (
  add_line-keep_last m ys x pos_m,
  add_lines-keep_last m (ys ++ x ∷ []) xs pos_m,
  append_assoc_list ys (x ∷ []) xs,
)

-- After any writes the buffer holds the last `max` complete lines of all that was written, and as
-- its partial line what follows the last line feed (`max` is 1000 where 0 was asked for).
pub write_many-window :
    (max_lines : ℕ) (chunks : List Bytes)
    → let rb = write_many chunks (new_ring_buffer max_lines) in
      let parts = split_lines (concat chunks) in
      (rb.lines ≡ keep_last (new_ring_buffer max_lines).max_lines (init_parts parts))
      × (rb.partial ≡ last_part parts)
unfolding new_ring_buffer write
write_many-window max_lines chunks =
    let empty = new_ring_buffer max_lines in
    let whole : write_many chunks empty ≡ write (concat chunks) empty =
      ap (write_many chunks) (sym (write_empty max_lines)) ∙ write_many-concat chunks [] empty in
    rw whole (
      rw (sym (keep_last-nil empty.max_lines))
          (add_lines-keep_last empty.max_lines [] _ (ground arith)),
      refl,
    )

from_index-drop : (skip i : ℕ) (xs : List Bytes) → from_index skip i xs ≡ drop (skip - i) xs
unfolding from_index
from_index-drop skip i [] = elim (skip - i) as (λ n. [] ≡ drop {A = Bytes} n []) [
  | zero ↦ refl
  | suc n ↦ refl
]
from_index-drop skip i (x ∷ xs) = elim (Bool-cases (leb skip i)) [
  | inl e ↦
      let here : skip - i ≡ 0 = ground arith in
      let next : skip - (i + 1) ≡ 0 = ground arith in
      rw (e, here, from_index-drop skip (i + 1) xs, next)
  | inr e ↦
      let here : skip - i ≡ suc (skip - (i + 1)) = ground arith in
      rw (e, here, from_index-drop skip (i + 1) xs)
]

from_zero-drop : (skip : ℕ) (xs : List Bytes) → from_index skip 0 xs ≡ drop skip xs
from_zero-drop skip xs = let same : skip - 0 ≡ skip = omega arith in rw (from_index-drop, same)

drop-append_le : (k : ℕ) (xs ys : List Bytes) → k ≤ length xs → drop k (xs ++ ys) ≡ drop k xs ++ ys
drop-append_le zero xs ys h = refl
drop-append_le (suc k) [] ys h = absurd (omega arith)
drop-append_le (suc k) (x ∷ xs) ys h = drop-append_le k xs ys (omega arith)

skipped-lt : (n total : ℕ) → 0 < total → skipped n total < total
unfolding skipped
skipped-lt n total h = ground arith

drop-skipped :
    (n : ℕ) (xs : List Bytes)
    → drop (skipped n (length xs)) xs ≡ (if n == 0 then xs else keep_last n xs)
unfolding skipped
drop-skipped n xs = elim (Bool-cases (n == 0)) [
  | inl e ↦ let none_left : length xs - length xs ≡ 0 = omega arith in rw (e, none_left)
  | inr e ↦ elim (Bool-cases (ltb (length xs) n)) [
    | inl f ↦
        let a : length xs - length xs ≡ 0 = omega arith in
        let b : length xs - n ≡ 0 = ground arith in rw (e, f, a, b)
    | inr f ↦ rw (e, f)
  ]
]

-- The lines that a reader can see: the complete ones and the partial one, where it is not empty.
abbrev pub visible : RingBuffer → List Bytes
visible rb = if leb (length rb.partial) 0 then rb.lines else rb.lines ++ rb.partial ∷ []

-- `Lines(n)` answers the last `n` visible lines, and all of them for n = 0 and for n too large.
pub lines_of-visible :
    (n : ℕ) (rb : RingBuffer)
    → lines_of n rb ≡ (if n == 0 then visible rb else keep_last n (visible rb))
unfolding lines_of has_partial
lines_of-visible n rb = elim (Bool-cases (leb (length rb.partial) 0)) [
  | inl e ↦ rw (e, from_zero-drop) (drop-skipped n rb.lines)
  | inr e ↦
      let all = rb.lines ++ rb.partial ∷ [] in
      let total : length all ≡ length rb.lines + 1 =
        omega (arith, length-append rb.lines (rb.partial ∷ [])) in
      let less = skipped-lt n (length rb.lines + 1) (omega arith) in
      let shown =
        drop-append_le (skipped n (length rb.lines + 1)) rb.lines (rb.partial ∷ []) (omega arith) in
      let spec : drop (skipped n (length rb.lines + 1)) all
          ≡ (if n == 0 then all else keep_last n all) =
        rw (← total) (drop-skipped n all) in
      rw (e, lt→ltb _ _ less, from_zero-drop) (sym shown ∙ spec)
]
