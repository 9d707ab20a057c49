-- ===== src/Commands/Version.antt =====
-- cmd/descheduler/app/version.go: the version of a build. A Go string is its bytes.
pub mod Match
pub mod Split
pub mod Release
use Prim.Native.Char.{code}
use super_scheduling.Prelude.{
  ℕ, suc, zero, Bool, true, false, ◌&&◌, ◌||◌, Option, none, some, List, [], ◌∷◌, ◌++◌, String, leb,
  nat_beq, if◌then◌else◌, get_elem?, Run, returns, panics, ◌>>=◌,
}

abbrev pub Text : Type 0
Text = List ℕ

-- The bytes of an ASCII text.
abbrev pub codes : String → Text
codes String.[] = []
codes (String.◌∷◌ c s) = code c ∷ codes s

abbrev pub dash : ℕ
dash = 45

abbrev pub dot : ℕ
dot = 46

abbrev pub v : ℕ
v = 118

abbrev pub plus : ℕ
plus = 43

-- `\d` and `\w`.
abbrev pub is_digit : ℕ → Bool
is_digit c = leb 48 c && leb c 57

abbrev pub is_word : ℕ → Bool
is_word c = is_digit c || leb 65 c && leb c 90 || leb 97 c && leb c 122 || nat_beq c 95

-- What the two regular expressions are made of: one byte of a class, or one or more (`+`). They
-- stand between `^` and `$`.
pub data Item : Type 0 where
  one : (ℕ → Bool) → Item
  many : (ℕ → Bool) → Item

unfoldable pub is_match : List Item → Text → Bool
is_match [] [] = true
is_match [] (c ∷ text) = false
is_match (_ ∷ items) [] = false
is_match (one p ∷ items) (c ∷ text) = p c && is_match items text
is_match (many p ∷ items) (c ∷ text) =
    p c && (is_match items text || is_match (many p ∷ items) text)

abbrev pub lit : ℕ → Item
lit b = one (nat_beq b)

abbrev pub times_one : ℕ → (ℕ → Bool) → List Item → List Item
times_one zero p items = items
times_one (suc n) p items = one p ∷ times_one n p items

-- `^v\d{8}-v\d+\.\d+\.\d+`, and then the items.
abbrev pub release_and : List Item → List Item
release_and items =
    lit v
    ∷ times_one 8 is_digit (
        lit dash
        ∷ lit v
        ∷ many is_digit
        ∷ lit dot
        ∷ many is_digit
        ∷ lit dot
        ∷ many is_digit
        ∷ items)

abbrev pub release_pattern : List Item
release_pattern = release_and []

abbrev pub build_pattern : List Item
build_pattern = release_and (lit dash ∷ many is_word ∷ lit dash ∷ many is_word ∷ [])

-- strings.Split with a separator of one byte.
abbrev pub prepend : ℕ → List Text → List Text
prepend c [] = (c ∷ []) ∷ []
prepend c (part ∷ parts) = (c ∷ part) ∷ parts

unfoldable pub split : ℕ → Text → List Text
split sep [] = [] ∷ []
split sep (c ∷ text) =
    let parts = split sep text in if nat_beq c sep then [] ∷ parts else prepend c parts

-- strings.Trim with a cutset of one byte.
unfoldable pub trim_left : ℕ → Text → Text
trim_left b [] = []
trim_left b (c ∷ text) = let rest = trim_left b text in if nat_beq c b then rest else c ∷ text

abbrev pub keep : ℕ → ℕ → Text → Text
keep b c [] = if nat_beq c b then [] else c ∷ []
keep b c (d ∷ rest) = c ∷ d ∷ rest

unfoldable pub trim_right : ℕ → Text → Text
trim_right b [] = []
trim_right b (c ∷ text) = keep b c (trim_right b text)

abbrev pub trim : ℕ → Text → Text
trim b text = trim_right b (trim_left b text)

-- `parts[i]`, which panics out of range.
abbrev pub index : List Text → ℕ → Run Text
index parts i = elim (get_elem? parts i) [ none ↦ panics | some part ↦ returns part ]

-- The major and the minor version of a version that matches.
unfoldable pub version_parts : Text → Run (Text × Text)
unfolding split trim_left trim_right
version_parts version = index (split dash version) 1 >>= λ sem_ver.
    index (split dot sem_ver) 0 >>= λ major.
    index (split dot sem_ver) 1 >>= λ minor. returns (trim v major, minor ++ plus ∷ [])

unfoldable pub split_version : Text → Run (Text × Text)
unfolding is_match version_parts
split_version [] = returns ([], [])
split_version (c ∷ text) =
    let version = c ∷ text in
    if is_match release_pattern version || is_match build_pattern version
    then version_parts version
    else returns ([], [])

-- `Info`.
pub record Info : Type 0 where
  pub major : Text
  pub minor : Text
  pub git_version : Text
  pub build_date : Text
  pub go_version : Text
  pub compiler : Text
  pub platform : Text

-- The Go runtime's version, compiler, operating system and architecture.
pub record Runtime : Type 0 where
  pub version : Text
  pub compiler : Text
  pub goos : Text
  pub goarch : Text

-- `version` and `build_date` are the variables that a build sets.
unfoldable pub get_info : Runtime → Text → Text → Run Info
unfolding split_version
get_info runtime version build_date = split_version version >>= λ (major, minor). returns (record {
  major = major;
  minor = minor;
  git_version = version;
  build_date = build_date;
  go_version = runtime.version;
  compiler = runtime.compiler;
  platform = runtime.goos ++ 47 ∷ runtime.goarch;
})
