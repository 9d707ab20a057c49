-- ===== src/Commands/Version/Release.antt =====
-- The versions that are taken apart, and what of them is returned.
use mathlib.Core.List.{append_assoc, append-nil}
use super_scheduling.Prelude.{
  ℕ, ◌≡◌, refl, sym, ◌∙◌, ap, true, false, ◌||◌, List, [], ◌∷◌, ◌++◌, All-imp, All-append, length,
  nat_beq, nat_beq_iff, returns, Bool-cases, inl, inr, ◌⊎◌, arith,
}
use super_scheduling.Commands.Version.{
  Text, Item, lit, is_match, is_digit, dash, dot, v, plus, release_and, release_pattern,
  build_pattern, split, version_parts, split_version,
}
use super_scheduling.Commands.Version.Match.{In, match_one, match_many, match_times, match_end}
use super_scheduling.Commands.Version.Split.{Lacks, split-before, split-last, trim-Lacks}

-- `v<stamp>-v<major>.<minor>.<patch>` with a rest that is empty or follows a dash.
pub record IsRelease (version stamp major minor : Text) : Type 0 where
  pub patch : Text
  pub rest : Text
  pub shape : version ≡ v ∷ (stamp ++ dash ∷ v ∷ (major ++ dot ∷ (minor ++ dot ∷ (patch ++ rest))))
  pub days : (length stamp ≡ 8) × In is_digit stamp
  pub numbers : In is_digit major × In is_digit minor × In is_digit patch
  pub filled : ¬ (major ≡ []) × ¬ (minor ≡ []) × ¬ (patch ≡ [])
  pub ends : (rest ≡ []) ⊎ ((build : Text) × (rest ≡ dash ∷ build))

digits-Lacks : (b : ℕ) → is_digit b ≡ false → (text : Text) → In is_digit text → Lacks b text
digits-Lacks b other text digits =
    All-imp _ _ text (λ c digit. ground (arith, digit, other, nat_beq_iff c b)) digits

match_lit :
    (b : ℕ) (items : List Item) (text : Text)
    → is_match (lit b ∷ items) text ≡ true
    → (rest : Text) × (text ≡ b ∷ rest) × (is_match items rest ≡ true)
match_lit b items text h =
    let (c, rest, at, same, ends) = match_one (nat_beq b) items text h in
    (rest, at ∙ ap (λ x. x ∷ rest) (sym ((nat_beq_iff b c).0 same)), ends)

-- What matches the common part of the two expressions.
release_of :
    (items : List Item) (version : Text)
    → is_match (release_and items) version ≡ true
    → (stamp major minor patch rest : Text) × (version
        ≡ v ∷ (stamp ++ dash ∷ v ∷ (major ++ dot ∷ (minor ++ dot ∷ (patch ++ rest)))))
      × ((length stamp ≡ 8) × In is_digit stamp)
      × (In is_digit major × In is_digit minor × In is_digit patch)
      × (¬ (major ≡ []) × ¬ (minor ≡ []) × ¬ (patch ≡ []))
      × (is_match items rest ≡ true)
release_of items version h =
    let (t1, e1, h1) = match_lit v _ version h in
    let (stamp, t2, e2, long, dated, h2) = match_times 8 is_digit _ t1 h1 in
    let (t3, e3, h3) = match_lit dash _ t2 h2 in
    let (t4, e4, h4) = match_lit v _ t3 h3 in
    let (a, major, t5, e5, majors, h5) = match_many is_digit _ t4 h4 in
    let (t6, e6, h6) = match_lit dot _ t5 h5 in
    let (b, minor, t7, e7, minors, h7) = match_many is_digit _ t6 h6 in
    let (t8, e8, h8) = match_lit dot _ t7 h7 in
    let (c, patch, rest, e9, patches, h9) = match_many is_digit items t8 h8 in
    (
      stamp,
      a ∷ major,
      b ∷ minor,
      c ∷ patch,
      rest,
      e1
          ∙ ap (◌∷◌ v) (
              e2
              ∙ ap (λ x. stamp ++ x)
                  (e3
                    ∙ ap (◌∷◌ dash) (
                        e4
                        ∙ ap (◌∷◌ v) (
                            e5
                            ∙ ap (λ x. a ∷ (major ++ x))
                                (e6
                                  ∙ ap (◌∷◌ dot)
                                      (e7 ∙ ap (λ x. b ∷ (minor ++ x)) (e8 ∙ ap (◌∷◌ dot) e9))))))),
      (long, dated),
      (majors, minors, patches),
      (λ q. absurd (cc (q)), λ q. absurd (cc (q)), λ q. absurd (cc (q))),
      h9,
    )

-- `v<major>.<minor>.<patch>`.
abbrev sem_ver : Text → Text → Text → Text
sem_ver major minor patch = v ∷ (major ++ dot ∷ (minor ++ dot ∷ patch))

sem_ver-append :
    (major minor patch rest : Text)
    → v ∷ (major ++ dot ∷ (minor ++ dot ∷ (patch ++ rest))) ≡ sem_ver major minor patch ++ rest
sem_ver-append major minor patch rest =
    ap (λ x. v ∷ (major ++ dot ∷ x)) (sym (append_assoc minor (dot ∷ patch) rest))
    ∙ ap (λ x. v ∷ x) (sym (append_assoc major (dot ∷ (minor ++ dot ∷ patch)) rest))

split-sem_ver :
    (major minor patch : Text)
    → In is_digit major
    → In is_digit minor
    → split dot (sem_ver major minor patch) ≡ (v ∷ major) ∷ minor ∷ split dot patch
split-sem_ver major minor patch majors minors =
    split-before dot (v ∷ major) (minor ++ dot ∷ patch) (refl, digits-Lacks dot refl major majors)
    ∙ ap (λ x. (v ∷ major) ∷ x) (split-before dot minor patch (digits-Lacks dot refl minor minors))

sem_ver-Lacks :
    (major minor patch : Text)
    → In is_digit major
    → In is_digit minor
    → In is_digit patch
    → Lacks dash (sem_ver major minor patch)
sem_ver-Lacks major minor patch majors minors patches = (
  refl,
  All-append _ major (dot ∷ (minor ++ dot ∷ patch)) (digits-Lacks dash refl major majors) (
    refl,
    All-append _ minor (dot ∷ patch) (digits-Lacks dash refl minor minors)
        (refl, digits-Lacks dash refl patch patches),
  ),
)

-- What follows the part, if anything, is behind the byte.
split-first :
    (sep : ℕ) (part rest : Text)
    → Lacks sep part
    → (rest ≡ []) ⊎ ((build : Text) × (rest ≡ sep ∷ build))
    → (parts : List Text) × (split sep (part ++ rest) ≡ part ∷ parts)
split-first sep part rest lacks (inl none_left) =
    ([], rw none_left (rw append-nil (split-last sep part lacks)))
split-first sep part rest lacks (inr (build, follows)) =
    (split sep build, rw follows (split-before sep part build lacks))

parts_of_release :
    (version stamp major minor : Text)
    → IsRelease version stamp major minor
    → version_parts version ≡ returns (major, minor ++ plus ∷ [])
unfolding version_parts
parts_of_release version stamp major minor r =
    let (majors, minors, patches) = r.numbers in
    let (parts, first) =
      split-first dash (sem_ver major minor r.patch) r.rest
        (sem_ver-Lacks major minor r.patch majors minors patches) r.ends in
    let cut : split dash version ≡ (v ∷ stamp) ∷ sem_ver major minor r.patch ∷ parts =
      ap (split dash) r.shape
      ∙ split-before dash (v ∷ stamp) _ (refl, digits-Lacks dash refl stamp r.days.1)
      ∙ ap (λ x. (v ∷ stamp) ∷ split dash x) (sem_ver-append major minor r.patch r.rest)
      ∙ ap (λ x. (v ∷ stamp) ∷ x) first in
    let trimmed = trim-Lacks v major (digits-Lacks v refl major majors) in
    rw (cut, split-sem_ver major minor r.patch majors minors, trimmed) refl

IsRelease-of_match :
    (version : Text)
    → is_match release_pattern version || is_match build_pattern version ≡ true
    → (stamp major minor : Text) × IsRelease version stamp major minor
IsRelease-of_match version h = elim (Bool-cases (is_match release_pattern version)) [
  | inl release ↦
      let (stamp, major, minor, patch, rest, shape, days, numbers, filled, ends) =
        release_of [] version release in
      (
        stamp,
        major,
        minor,
        record {
          patch = patch;
          rest = rest;
          shape = shape;
          days = days;
          numbers = numbers;
          filled = filled;
          ends = inl (match_end rest ends);
        },
      )
  | inr unmatched ↦
      let build : is_match build_pattern version ≡ true =
        sym (ap (λ b. b || is_match build_pattern version) unmatched) ∙ h in
      let (stamp, major, minor, patch, rest, shape, days, numbers, filled, ends) =
        release_of _ version build in
      let (after, at_dash, _) = match_lit dash _ rest ends in
      (
        stamp,
        major,
        minor,
        record {
          patch = patch;
          rest = rest;
          shape = shape;
          days = days;
          numbers = numbers;
          filled = filled;
          ends = inr (after, at_dash);
        },
      )
]

-- Every version returns: one that no expression matches returns two empty texts, and one that an
-- expression matches is a release, of which the major and the minor version with a plus return.
pub split_version_cases :
    (version : Text)
    → ((is_match release_pattern version || is_match build_pattern version ≡ false)
        × (split_version version ≡ returns ([], [])))
      ⊎ ((stamp major minor : Text) × IsRelease version stamp major minor
          × (split_version version ≡ returns (major, minor ++ plus ∷ [])))
unfolding split_version
split_version_cases [] = inl (unfold is_match in refl, refl)
split_version_cases (c ∷ text) =
    let version = c ∷ text in
    elim (Bool-cases (is_match release_pattern version || is_match build_pattern version)) [
      | inl matches ↦
          let (stamp, major, minor, r) = IsRelease-of_match version matches in
          inr (stamp, major, minor, r, rw matches (parts_of_release version stamp major minor r))
      | inr differs ↦ inl (differs, rw differs refl)
    ]
