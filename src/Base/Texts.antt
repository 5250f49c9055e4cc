-- ===== src/Base/Texts.antt =====
-- What the source uses of Go's package strings, over texts (valid UTF-8).
use Prim.Native.Nat.{ℕ, ◌+◌}
use mathlib.Core.List.{List, [], ◌∷◌}
use mathlib.Core.Bool.{Bool, true, false, ◌&&◌, ◌||◌}
use Prim.Native.Char.{code}
use mathlib.Core.Path.{◌≡◌, refl}
use text.Mathlib.Text.{◌==◌}
use Prim.Native.String.{String}
use native.Mathlib.Omega.{arith}
use stacyvm.Base.Tests.{leb, if◌then◌else◌, ◌==◌ as nat_eq}

abbrev pub str_eq : String → String → Bool
str_eq s t = s == t

-- `s == ""`.
abbrev pub is_empty : String → Bool
is_empty s = s == ""

-- The white space below U+0100: tab to carriage return, space, next line, no-break space.
unfoldable pub is_narrow_space : ℕ → Bool
is_narrow_space n = (leb 9 n && leb n 13) || (nat_eq n 32 || (nat_eq n 133 || nat_eq n 160))

-- The white space from U+0100 on: U+1680, U+2000 to U+200A, U+2028, U+2029, U+202F, U+205F, U+3000.
unfoldable pub is_wide_space : ℕ → Bool
is_wide_space n =
    (leb 8192 n && leb n 8202)
    || ((leb 8232 n && leb n 8233)
        || (nat_eq n 5760 || (nat_eq n 8239 || (nat_eq n 8287 || nat_eq n 12288))))

-- unicode.IsSpace.
unfoldable pub is_space : ℕ → Bool
unfolding is_narrow_space is_wide_space
is_space n = is_narrow_space n || is_wide_space n

unfoldable pub trim_left : String → String
trim_left String.[] = String.[]
trim_left (String.◌∷◌ c s) =
    let rest = trim_left s in if is_space (code c) then rest else String.◌∷◌ c s

-- The text without the white space at its end.
unfoldable pub trim_right : String → String
trim_right String.[] = String.[]
trim_right (String.◌∷◌ c s) =
    let rest = trim_right s in
    if is_space (code c) && is_empty rest then String.[] else String.◌∷◌ c rest

-- strings.TrimSpace.
unfoldable pub trim_space : String → String
unfolding trim_left trim_right is_space
trim_space s = trim_right (trim_left s)

-- Simple case folding of one code point: exact for ASCII letters and for the two other code
-- points that fold to one (U+017F and U+212A); other letters stand for themselves.
unfoldable pub fold : ℕ → ℕ
fold c =
    if leb 65 c && leb c 90
    then c + 32
    else if nat_eq c 0x17f
    then 115
    else if nat_eq c 0x212a
    then 107
    else c

-- strings.EqualFold, exact where one side is ASCII.
unfoldable pub equal_fold : String → String → Bool
unfolding fold
equal_fold String.[] String.[] = true
equal_fold String.[] (String.◌∷◌ d t) = false
equal_fold (String.◌∷◌ c s) String.[] = false
equal_fold (String.◌∷◌ c s) (String.◌∷◌ d t) =
    nat_eq (fold (code c)) (fold (code d)) && equal_fold s t

pub equal_fold_refl : (s : String) → equal_fold s s ≡ true
unfolding equal_fold
equal_fold_refl String.[] = refl
equal_fold_refl (String.◌∷◌ c s) = ground (arith, equal_fold_refl s)

trim_space_test : trim_space " ab c " ≡ "ab c"
unfolding trim_space
trim_space_test = refl

equal_fold_test : equal_fold "OnLine" "online" ≡ true
unfolding equal_fold
equal_fold_test = refl

-- The code points of a text: its bytes, where it is ASCII.
abbrev pub codes : String → List ℕ
codes String.[] = []
codes (String.◌∷◌ c s) = code c ∷ codes s
