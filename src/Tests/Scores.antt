-- ===== src/Tests/Scores.antt =====
-- The theorems about the scores, over numbers with one binary digit after the point. A number is
-- kept as the integer of its halves; quotients and products are rounded down.
use super_scheduling.Prelude.{
  ℕ, zero, suc, ◌+◌, ◌*◌, ◌/◌, ◌≤◌, ◌<◌, ◌≡◌, refl, ℤ, pos, negsuc, pos_part, ◌≤ℤ◌, ◌-ℤ◌, -ℤ_parts,
  arith,
}
use native.Mathlib.Nat.{
  mul-le-mul_right, div-mul-le_self, le-div_iff_mul-le, le_of_mul-le-mul_right,
}
use super_scheduling.Api.Scheduling.{schedule_strategy_fill, schedule_strategy_balance}
use super_scheduling.Topology.Score.{Float64, score}
use super_scheduling.Topology.Score.Bounds.{
  fill_bounds, fill_mono, balance_antitone, balance_negative,
}

abbrev halves : ℤ → ℤ
halves (pos n) = pos (2 * n)
halves (negsuc n) = negsuc (2 * n + 1)

abbrev quotient : ℤ → ℤ → ℤ
quotient a b = pos (2 * pos_part a / pos_part b)

abbrev product : ℤ → ℤ → ℤ
product a b = pos (pos_part a * pos_part b / 2)

abbrev whole : ℤ → ℤ
whole (pos n) = pos (n / 2)
whole (negsuc zero) = pos 0
whole (negsuc (suc n)) = negsuc (n / 2)

-- Quotients are rounded monotonically.
div_mono :
    (a b c d : ℕ) → 0 < b → 0 < d → a * d ≤ c * b → 2 * (2 * a) / (2 * b) ≤ 2 * (2 * c) / (2 * d)
div_mono a b c d p q h =
    let r = 2 * (2 * a) / (2 * b) in
    let low : r * (2 * b) * d ≤ 2 * (2 * a) * d =
      mul-le-mul_right d (div-mul-le_self (2 * (2 * a)) (2 * b)) in
    let scaled : r * (2 * d) * b ≤ 2 * (2 * c) * b = omega (arith, low) in
    (le-div_iff_mul-le (omega arith)).1 (le_of_mul-le-mul_right scaled p)

product_mono : (x y : ℤ) → x ≤ℤ y → product x (pos 200) ≤ℤ product y (pos 200)
product_mono (pos x) (pos y) h = omega arith
product_mono (pos x) (negsuc y) h = absurd (omega arith)
product_mono (negsuc x) (pos y) h = omega arith
product_mono (negsuc x) (negsuc y) h = omega arith

whole_mono : (x y : ℤ) → x ≤ℤ y → whole x ≤ℤ whole y
whole_mono (pos x) (pos y) h = omega arith
whole_mono (pos x) (negsuc y) h = absurd (omega arith)
whole_mono (negsuc zero) (pos y) h = omega arith
whole_mono (negsuc (suc x)) (pos y) h = omega arith
whole_mono (negsuc zero) (negsuc zero) h = omega arith
whole_mono (negsuc zero) (negsuc (suc y)) h = absurd (omega arith)
whole_mono (negsuc (suc x)) (negsuc zero) h = omega arith
whole_mono (negsuc (suc x)) (negsuc (suc y)) h = omega arith

one_sub : (n : ℕ) → n ≤ 100 → halves (pos 1) -ℤ halves (pos n) ≡ halves (pos 1 -ℤ pos n)
unfolding ◌-ℤ◌
one_sub n h = ground arith

whole_of_halves : (z : ℤ) → whole (halves z) ≡ z
whole_of_halves (pos n) = ground arith
whole_of_halves (negsuc n) = ground arith

whole-halves :
    (n : ℕ)
    → n ≤ 100
    → (whole (halves (pos n)) ≡ pos n) × (whole (halves (pos 1 -ℤ pos n)) ≡ pos 1 -ℤ pos n)
unfolding ◌-ℤ◌
whole-halves n h = (whole_of_halves (pos n), whole_of_halves (pos 1 -ℤ pos n))

abbrev one_digit : Float64
one_digit = record {
  Float = ℤ;
  Le = ◌≤ℤ◌;
  of_int = halves;
  sub = ◌-ℤ◌;
  mul = product;
  div = quotient;
  to_int64 = whole;
  Le-trans = λ p q. omega arith;
  Le-of_int = λ a b h. omega arith;
  Le-div = λ a b c d p q h. omega (arith, div_mono a b c d p q h);
  Le-mul = product_mono;
  Le-sub = λ x y h. omega (arith, -ℤ_parts);
  Le-to_int64 = whole_mono;
  zero_percent = refl;
  half_percent = refl;
  full_percent = refl;
  one_sub = one_sub;
  to_int64_of_int = whole-halves;
}

fill_bounds_example :
    (pos 0 ≤ℤ score one_digit (pos 1) (pos 2) schedule_strategy_fill)
    × (score one_digit (pos 1) (pos 2) schedule_strategy_fill ≤ℤ pos 100)
fill_bounds_example = fill_bounds one_digit 1 2 (omega arith)

fill_mono_example :
    score one_digit (pos 1) (pos 3) schedule_strategy_fill
    ≤ℤ score one_digit (pos 1) (pos 2) schedule_strategy_fill
fill_mono_example = fill_mono one_digit 1 3 1 2 (omega arith) (omega arith) (omega arith)

balance_antitone_example :
    score one_digit (pos 1) (pos 2) schedule_strategy_balance
    ≤ℤ score one_digit (pos 1) (pos 3) schedule_strategy_balance
balance_antitone_example =
    balance_antitone one_digit 1 3 1 2 (omega arith) (omega arith) (omega arith)

balance_negative_example : score one_digit (pos 1) (pos 2) schedule_strategy_balance ≤ℤ negsuc 48
balance_negative_example = balance_negative one_digit 1 2 (omega arith) (omega arith)
