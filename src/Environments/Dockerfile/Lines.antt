-- ===== src/Environments/Dockerfile/Lines.antt =====
-- The lines of the Dockerfile that internal/environments/manager.go generates.
use stacyvm.Base.{
  ℕ, ◌+◌, String, ◌≡◌, refl, ap, subst, true, Option, none, some, List, [], ◌∷◌, arith, eq_iff,
  ◌==◌, if◌then◌else◌, ==_iff, is_empty, trim_space,
}
use Prim.Native.Char.{code}
use Prim.Native.String
use text.Mathlib.TextLemmas.{nil-append, cons-append, append_assoc}
use stacyvm.Environments.Dockerfile.{
  is_safe_code, all_safe, matches_safe, validate_packages, join_spaced, apt_lines, pip_lines,
  generate_dockerfile,
}

-- How many line breaks a text has.
abbrev pub newlines : String → ℕ
newlines String.[] = 0
newlines (String.◌∷◌ c s) = if code c == 10 then newlines s + 1 else newlines s

newlines-append : (s t : String) → newlines (String.◌++◌ s t) ≡ newlines s + newlines t
newlines-append String.[] t = rw (nil-append t) (omega arith)
newlines-append (String.◌∷◌ c s) t = rw (cons-append c s t) (ground (arith, newlines-append s t))

-- No white space around any of them.
abbrev pub Trimmed : List String → Type 0
Trimmed [] = Unit
Trimmed (p ∷ pkgs) = (trim_space p ≡ p) × Trimmed pkgs

-- One line for packages, where there are any.
abbrev pub one_if_any : List String → ℕ
one_if_any [] = 0
one_if_any (p ∷ pkgs) = 1

newlines_safe : (s : String) → all_safe s ≡ true → newlines s ≡ 0
unfolding all_safe is_safe_code
newlines_safe String.[] h = refl
newlines_safe (String.◌∷◌ c s) h = ground (arith, newlines_safe s, ==_iff (code c) 10)

newlines_blank : (s : String) → is_empty s ≡ true → newlines s ≡ 0
newlines_blank s h = ap newlines ((eq_iff s "").0 h)

-- What validate_packages makes of a trimmed package and of the rest.
abbrev checked : String → Option String → Option String
checked t rest = if is_empty t then rest else if matches_safe t then rest else some t

newlines_valid :
    (p : String) (pkgs : List String)
    → validate_packages (p ∷ pkgs) ≡ none
    → trim_space p ≡ p
    → (newlines p ≡ 0) × (validate_packages pkgs ≡ none)
unfolding validate_packages matches_safe
newlines_valid p pkgs h e =
    let h2 = subst (λ t. checked t (validate_packages pkgs) ≡ none) e h in
    ground (arith, newlines_safe p, newlines_blank p, h2)

newlines-join_spaced :
    (pkgs : List String)
    → validate_packages pkgs ≡ none
    → Trimmed pkgs
    → newlines (join_spaced pkgs) ≡ 0
unfolding join_spaced
newlines-join_spaced [] h t = refl
newlines-join_spaced (p ∷ []) h (e, t) = (newlines_valid p [] h e).0
newlines-join_spaced (p ∷ q ∷ pkgs) h (e, t) =
    let (here, rest) = newlines_valid p (q ∷ pkgs) h e in
    rw (
      newlines-append p (String.◌++◌ " " (join_spaced (q ∷ pkgs))),
      newlines-append " " (join_spaced (q ∷ pkgs)),
      here,
      newlines-join_spaced (q ∷ pkgs) rest t,
    )

newlines-apt_lines :
    (pkgs : List String)
    → validate_packages pkgs ≡ none
    → Trimmed pkgs
    → newlines (apt_lines pkgs) ≡ one_if_any pkgs
unfolding apt_lines
newlines-apt_lines [] h t = refl
newlines-apt_lines (p ∷ pkgs) h t = rw (
  newlines-append "RUN apt-get update && apt-get install -y --no-install-recommends "
      (String.◌++◌ (join_spaced (p ∷ pkgs)) " && rm -rf /var/lib/apt/lists/*\n"),
  newlines-append (join_spaced (p ∷ pkgs)) " && rm -rf /var/lib/apt/lists/*\n",
  newlines-join_spaced (p ∷ pkgs) h t,
)

newlines-pip_lines :
    (pkgs : List String)
    → validate_packages pkgs ≡ none
    → Trimmed pkgs
    → newlines (pip_lines pkgs) ≡ one_if_any pkgs
unfolding pip_lines
newlines-pip_lines [] h t = refl
newlines-pip_lines (p ∷ pkgs) h t = rw (
  newlines-append "RUN pip install --no-cache-dir " (String.◌++◌ (join_spaced (p ∷ pkgs)) "\n"),
  newlines-append (join_spaced (p ∷ pkgs)) "\n",
  newlines-join_spaced (p ∷ pkgs) h t,
)

-- Where validatePackages refuses no package, and no package has white space around it, the Dockerfile
-- has, besides the lines of the base image, three lines, and one more for the packages of apt and one
-- for those of pip, where there are any: the packages add no instruction of their own.
pub generate_dockerfile-lines :
    (base_image : String) (apt_pkgs py_pkgs : List String)
    → validate_packages apt_pkgs ≡ none
    → validate_packages py_pkgs ≡ none
    → Trimmed apt_pkgs
    → Trimmed py_pkgs
    → newlines (generate_dockerfile base_image apt_pkgs py_pkgs)
      ≡ newlines base_image + 3 + one_if_any apt_pkgs + one_if_any py_pkgs
unfolding generate_dockerfile
generate_dockerfile-lines base_image apt_pkgs py_pkgs h h' t t' =
    let end : String = "RUN mkdir -p /workspace /output /data\nWORKDIR /workspace\n" in
    let pip = String.◌++◌ (pip_lines py_pkgs) end in
    let apt = String.◌++◌ (apt_lines apt_pkgs) pip in
    rw
      (
        newlines-append "FROM " (String.◌++◌ base_image (String.◌++◌ "\n" apt)),
        newlines-append base_image (String.◌++◌ "\n" apt),
        newlines-append "\n" apt,
        newlines-append (apt_lines apt_pkgs) pip,
        newlines-append (pip_lines py_pkgs) end,
        newlines-apt_lines apt_pkgs h t,
        newlines-pip_lines py_pkgs h' t',
      )
      (omega arith)

apt_lines-nil : apt_lines [] ≡ ""
unfolding apt_lines
apt_lines-nil = refl

injected_line :
    "\nRUN pip install --no-cache-dir pip\n RUN "
    ≡ String.◌++◌ "\n" (
        String.◌++◌ "RUN pip install --no-cache-dir "
          (String.◌++◌ "pip\n" (String.◌++◌ " " (String.◌++◌ "RUN" " "))))
injected_line = refl

-- A package with a line break after it passes validatePackages, which looks at the trimmed text, and
-- the Dockerfile has the text itself: whatever package `x` passes, `pip` with a line break, then `RUN`,
-- then `x` pass too, and run the command `x` as an instruction of its own.
pub padded_package_injects :
    (base_image x : String)
    → validate_packages (x ∷ []) ≡ none
    → (validate_packages ("pip\n" ∷ "RUN" ∷ x ∷ []) ≡ none)
      × (generate_dockerfile base_image [] ("pip\n" ∷ "RUN" ∷ x ∷ [])
          ≡ String.◌++◌ "FROM " (
              String.◌++◌ base_image (
                String.◌++◌ "\nRUN pip install --no-cache-dir pip\n RUN "
                  (String.◌++◌ x "\nRUN mkdir -p /workspace /output /data\nWORKDIR /workspace\n"))))
unfolding validate_packages matches_safe all_safe is_safe_code trim_space generate_dockerfile
    pip_lines apt_lines join_spaced
padded_package_injects base_image x h =
    (h, simp (apt_lines-nil, nil-append, injected_line, append_assoc))
