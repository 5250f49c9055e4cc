-- ===== src/Base/Cases.antt =====
-- What the source uses of upper and lower case.
use Prim.Native.Nat.{ℕ, zero, suc, ◌-◌}
use Prim.Native.Char.{Char, code}
use Prim.Native.String.{String}
use mathlib.Core.Bool.{◌&&◌}
use stacyvm.Base.Tests.{leb, if◌then◌else◌}

unfoldable pub letter_at : ℕ → String → Char → Char
letter_at n String.[] other = other
letter_at zero (String.◌∷◌ c s) other = c
letter_at (suc n) (String.◌∷◌ c s) other = letter_at n s other

-- strings.ToLower on ASCII; other letters stand for themselves.
unfoldable pub to_lower : String → String
unfolding letter_at
to_lower String.[] = String.[]
to_lower (String.◌∷◌ c s) =
    let n = code c in
    String.◌∷◌
      (if leb 65 n && leb n 90 then letter_at (n - 65) "abcdefghijklmnopqrstuvwxyz" c else c)
      (to_lower s)
