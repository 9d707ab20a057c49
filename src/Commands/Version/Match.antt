-- ===== src/Commands/Version/Match.antt =====
-- What a text that matches is made of.
use super_scheduling.Prelude.{
  ℕ, suc, zero, ◌≡◌, refl, ◌∙◌, ap, Bool, true, false, ◌&&◌, ◌||◌, List, [], ◌∷◌, ◌++◌, All, length,
  inl, inr, ◌⊎◌,
}
use super_scheduling.Commands.Version.{Text, Item, one, many, is_match, times_one}

and_true : (a b : Bool) → a && b ≡ true → (a ≡ true) × (b ≡ true)
and_true true b h = (refl, h)
and_true false b h = absurd (cc)

or_true : (a b : Bool) → a || b ≡ true → (a ≡ true) ⊎ (b ≡ true)
or_true true b h = inl refl
or_true false b h = inr h

-- The bytes of a class.
abbrev pub In : (ℕ → Bool) → Text → Type 0
In p text = All (λ c. p c ≡ true) text

pub match_one :
    (p : ℕ → Bool) (items : List Item) (text : Text)
    → is_match (one p ∷ items) text ≡ true
    → (c : ℕ) × (rest : Text) × (text ≡ c ∷ rest) × (p c ≡ true) × (is_match items rest ≡ true)
unfolding is_match
match_one p items [] h = absurd (cc)
match_one p items (c ∷ rest) h =
    let (here, later) = and_true (p c) (is_match items rest) h in (c, rest, refl, here, later)

-- The bytes that a repeated item takes.
pub match_many :
    (p : ℕ → Bool) (items : List Item) (text : Text)
    → is_match (many p ∷ items) text ≡ true
    → (c : ℕ) × (run : Text) × (rest : Text) × (text ≡ c ∷ (run ++ rest))
      × In p (c ∷ run)
      × (is_match items rest ≡ true)
unfolding is_match
match_many p items [] h = absurd (cc)
match_many p items (c ∷ text) h =
    let (here, later) = and_true (p c) _ h in
    elim (or_true (is_match items text) (is_match (many p ∷ items) text) later) [
      | inl stops ↦ (c, [], text, refl, (here, tt), stops)
      | inr goes_on ↦
          let (d, run, rest, split, held, ends) = match_many p items text goes_on in
          (c, d ∷ run, rest, ap (◌∷◌ c) split, (here, held), ends)
    ]

pub match_times :
    (n : ℕ) (p : ℕ → Bool) (items : List Item) (text : Text)
    → is_match (times_one n p items) text ≡ true
    → (run : Text) × (rest : Text) × (text ≡ run ++ rest)
      × (length run ≡ n)
      × In p run
      × (is_match items rest ≡ true)
match_times zero p items text h = ([], text, refl, refl, tt, h)
match_times (suc n) p items text h =
    let (c, later, split, here, goes_on) = match_one p (times_one n p items) text h in
    let (run, rest, split', long, held, ends) = match_times n p items later goes_on in
    (c ∷ run, rest, split ∙ ap (◌∷◌ c) split', ap suc long, (here, held), ends)

-- Nothing is left over.
pub match_end : (text : Text) → is_match [] text ≡ true → text ≡ []
unfolding is_match
match_end [] h = refl
match_end (c ∷ text) h = absurd (cc)
