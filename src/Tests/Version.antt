-- ===== src/Tests/Version.antt =====
-- Versions that are and are not taken apart.
use super_scheduling.Prelude.{◌≡◌, ◌⊎◌, refl, false, ◌||◌, [], ◌∷◌, ◌++◌, returns}
use super_scheduling.Commands.Version.{
  Text, codes, is_match, release_pattern, build_pattern, plus, split_version,
}
use super_scheduling.Commands.Version.Release.{IsRelease, split_version_cases}

abbrev tagged : Text
tagged = codes "v20200521-v0.18.0"

split_tagged : split_version tagged ≡ returns (codes "0", codes "18+")
unfolding split_version
split_tagged = refl

split_build :
    split_version (codes "v20201009-v1.2.30-46-g939c1c0") ≡ returns (codes "1", codes "2+")
unfolding split_version
split_build = refl

-- A date of seven digits is none.
split_short : split_version (codes "v2020100-v0.18.0") ≡ returns ([], [])
unfolding split_version
split_short = refl

split_version_cases_example :
    ((is_match release_pattern tagged || is_match build_pattern tagged ≡ false)
      × (split_version tagged ≡ returns ([], [])))
    ⊎ ((stamp major minor : Text) × IsRelease tagged stamp major minor
        × (split_version tagged ≡ returns (major, minor ++ plus ∷ [])))
split_version_cases_example = split_version_cases tagged
