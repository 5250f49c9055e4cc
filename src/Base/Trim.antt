-- ===== src/Base/Trim.antt =====
-- Trimming white space twice is trimming it once.
use Prim.Native.Char.{Char, code}
use Prim.Native.String.{String}
use mathlib.Core.Path.{◌≡◌, refl}
use mathlib.Core.Logic.{◌⊎◌, inl, inr}
use mathlib.Core.Bool.{false, ◌&&◌}
use stacyvm.Base.Tests.{Bool-cases}
use stacyvm.Base.Texts.{is_empty, is_space, trim_left, trim_right, trim_space}

trim_left-cases :
    (s : String)
    → (trim_left s ≡ String.[])
      ⊎ ((c : Char) × (r : String) × (is_space (code c) ≡ false) × (trim_left s ≡ String.◌∷◌ c r))
unfolding trim_left
trim_left-cases String.[] = inl refl
trim_left-cases (String.◌∷◌ c s) = elim (Bool-cases (is_space (code c))) [
  | inl e ↦ rw e (trim_left-cases s)
  | inr e ↦ rw e (inr (c, s, e, refl))
]

trim_left-cons :
    (c : Char) (r : String)
    → is_space (code c) ≡ false
    → trim_left (String.◌∷◌ c r) ≡ String.◌∷◌ c r
unfolding trim_left
trim_left-cons c r e = rw e

trim_right-cons :
    (c : Char) (r : String)
    → is_space (code c) ≡ false
    → trim_right (String.◌∷◌ c r) ≡ String.◌∷◌ c (trim_right r)
unfolding trim_right
trim_right-cons c r e = rw e

trim_right_idem : (s : String) → trim_right (trim_right s) ≡ trim_right s
unfolding trim_right
trim_right_idem String.[] = refl
trim_right_idem (String.◌∷◌ c s) =
    elim (Bool-cases (is_space (code c) && is_empty (trim_right s))) [
      | inl e ↦ rw e
      | inr e ↦ rw e (rw (trim_right_idem s) (rw e))
    ]

pub trim_space_idem : (s : String) → trim_space (trim_space s) ≡ trim_space s
unfolding trim_space
trim_space_idem s = elim (trim_left-cases s) [
  | inl e ↦ rw e
  | inr (c, r, solid, e) ↦ rw (
    e,
    trim_right-cons c r solid,
    trim_left-cons c (trim_right r) solid,
    trim_right-cons c (trim_right r) solid,
    trim_right_idem r,
  )
]
