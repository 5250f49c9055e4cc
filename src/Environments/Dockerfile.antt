-- ===== src/Environments/Dockerfile.antt =====
-- validatePackages and generateDockerfile of internal/environments/manager.go.
pub mod Lines
use stacyvm.Base.{
  ℕ, zero, suc, ◌+◌, ◌-◌, ◌*◌, ◌/◌, ◌%◌, ◌^◌, ◌≤◌, ◌<◌, String, ◌≡◌, refl, sym, ap, subst, ◌∙◌, ◌≢◌,
  ◌↔◌, ◌⊎◌, inl, inr, Bool, true, false, not, ◌&&◌, ◌||◌, Option, none, some, List, [], ◌∷◌, ◌++◌,
  map, arith, eq_iff, eq_refl, ltb, leb, ◌==◌, if◌then◌else◌, ltb→lt, lt→ltb, leb→le, ==_iff,
  Bool-cases, Option-cases, length, get_elem?, set, get_or, take, drop, replicate, length-append,
  length-set, take-append-drop, length-take, length-drop, append_assoc_list, drop-set, ℤ, pos,
  negsuc, pos_part, neg_part, sub_ℕ, ◌+ℤ◌, ◌≤ℤ◌, ◌<ℤ◌, ltb_ℤ, leb_ℤ, is_pos, +ℤ_parts, str_eq,
  is_empty, codes, is_space, trim_space, fold, equal_fold, equal_fold_refl, Dict, lookup, insert,
  delete, lookup-insert, lookup-delete, length-insert, length-delete, length-insert_found,
}
use Prim.Native.String
use Prim.Native.Char.{code}

-- The class of safePkgPattern: letters, digits, and . _ + - < > = ! ~ [ ] , : @ /
unfoldable pub is_safe_code : ℕ → Bool
is_safe_code c =
    (leb 48 c && leb c 57)
    || ((leb 65 c && leb c 90)
        || ((leb 97 c && leb c 122)
            || (c == b'.'
                || (c == b'_'
                    || (c == b'+'
                        || (c == b'-'
                            || (c == b'<'
                                || (c == b'>'
                                    || (c == b'='
                                        || (c == b'!'
                                            || (c == b'~'
                                                || (c == b'['
                                                    || (c == b']'
                                                        || (c == b','
                                                            || (c == b':'
                                                            || (c == b'@'
                                                            || c == b'/'))))))))))))))))

unfoldable pub all_safe : String → Bool
unfolding is_safe_code
all_safe String.[] = true
all_safe (String.◌∷◌ c s) = is_safe_code (code c) && all_safe s

-- safePkgPattern.MatchString: one character of the class, or more.
unfoldable pub matches_safe : String → Bool
unfolding all_safe
matches_safe s = not (is_empty s) && all_safe s

-- validatePackages: the first package that is refused.
unfoldable pub validate_packages : List String → Option String
unfolding matches_safe
validate_packages [] = none
validate_packages (p ∷ pkgs) =
    let trimmed = trim_space p in
    let rest = validate_packages pkgs in
    if is_empty trimmed then rest else if matches_safe trimmed then rest else some trimmed

-- strings.Join with a space.
unfoldable pub join_spaced : List String → String
join_spaced [] = String.[]
join_spaced (p ∷ []) = p
join_spaced (p ∷ q ∷ pkgs) = String.◌++◌ p (String.◌++◌ " " (join_spaced (q ∷ pkgs)))

-- The line of apt, where there are packages for it.
unfoldable pub apt_lines : List String → String
unfolding join_spaced
apt_lines [] = String.[]
apt_lines (p ∷ pkgs) =
    String.◌++◌ "RUN apt-get update && apt-get install -y --no-install-recommends "
      (String.◌++◌ (join_spaced (p ∷ pkgs)) " && rm -rf /var/lib/apt/lists/*\n")

unfoldable pub pip_lines : List String → String
unfolding join_spaced
pip_lines [] = String.[]
pip_lines (p ∷ pkgs) =
    String.◌++◌ "RUN pip install --no-cache-dir " (String.◌++◌ (join_spaced (p ∷ pkgs)) "\n")

unfoldable pub generate_dockerfile : String → List String → List String → String
unfolding apt_lines pip_lines
generate_dockerfile base_image apt_pkgs py_pkgs = String.◌++◌ "FROM " (
    String.◌++◌ base_image (
      String.◌++◌ "\n" (
        String.◌++◌ (apt_lines apt_pkgs) (
          String.◌++◌ (pip_lines py_pkgs)
            "RUN mkdir -p /workspace /output /data\nWORKDIR /workspace\n"))))
