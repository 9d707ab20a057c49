-- ===== src/Commands/Version/Split.antt =====
-- The parts of a text that is cut at a byte, and a text without its outer bytes.
use super_scheduling.Prelude.{
  ℕ, ◌≡◌, refl, ◌∙◌, ap, true, false, [], ◌∷◌, ◌++◌, All, nat_beq, arith,
}
use super_scheduling.Commands.Version.{Text, split, trim_left, trim_right, trim}

-- A text in which a byte does not stand.
abbrev pub Lacks : ℕ → Text → Type 0
Lacks b text = All (λ c. nat_beq c b ≡ false) text

pub split-before :
    (sep : ℕ) (part rest : Text)
    → Lacks sep part
    → split sep (part ++ sep ∷ rest) ≡ part ∷ split sep rest
unfolding split
split-before sep [] rest lacks = let e : nat_beq sep sep ≡ true = ground arith in rw e refl
split-before sep (c ∷ part) rest lacks = rw (lacks.0, split-before sep part rest lacks.1) refl

pub split-last : (sep : ℕ) (part : Text) → Lacks sep part → split sep part ≡ part ∷ []
unfolding split
split-last sep [] lacks = refl
split-last sep (c ∷ part) lacks = rw (lacks.0, split-last sep part lacks.1) refl

trim_left-Lacks : (b : ℕ) (text : Text) → Lacks b text → trim_left b text ≡ text
unfolding trim_left
trim_left-Lacks b [] lacks = refl
trim_left-Lacks b (c ∷ text) lacks = rw lacks.0 refl

trim_right-Lacks : (b : ℕ) (text : Text) → Lacks b text → trim_right b text ≡ text
unfolding trim_right
trim_right-Lacks b [] lacks = refl
trim_right-Lacks b (c ∷ []) lacks = rw lacks.0 refl
trim_right-Lacks b (c ∷ d ∷ text) lacks = rw (trim_right-Lacks b (d ∷ text) lacks.1) refl

-- Only the byte before the text goes.
pub trim-Lacks : (b : ℕ) (text : Text) → Lacks b text → trim b (b ∷ text) ≡ text
unfolding trim_left
trim-Lacks b text lacks =
    let same : nat_beq b b ≡ true = ground arith in
    let left : trim_left b (b ∷ text) ≡ text = rw same (trim_left-Lacks b text lacks) in
    ap (trim_right b) left ∙ trim_right-Lacks b text lacks
