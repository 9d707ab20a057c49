-- ===== src/Topology/Score.antt =====
-- `score` of pkg/topologyscheduling/topology_scheduling.go, over the operations of float64.
pub mod Bounds
use super_scheduling.Prelude.{
  ℕ, ◌*◌, ◌+◌, ◌≤◌, ◌<◌, ◌≡◌, String, ℤ, pos, ◌≤ℤ◌, ◌-ℤ◌, ◌==◌, string_eq, if◌then◌else◌, ◌^◌,
  arith,
}
use super_scheduling.Api.Scheduling.{schedule_strategy_fill, schedule_strategy_balance}

-- The float64 operations that the code uses, as IEEE 754 arithmetic with rounding to nearest
-- documents them: rounding is monotone, and a result that is representable is exact.
pub record Float64 : Type 1 where
  pub Float : Type 0
  pub Le : Float → Float → Type 0
  pub of_int : ℤ → Float
  pub sub : Float → Float → Float
  pub mul : Float → Float → Float
  pub div : Float → Float → Float
  -- int64(x): the fraction is dropped
  pub to_int64 : Float → ℤ
  pub Le-trans : {x y z : Float} → Le x y → Le y z → Le x z
  pub Le-of_int : (a b : ℕ) → a ≤ b → Le (of_int (pos a)) (of_int (pos b))
  pub Le-div :
      (a b c d : ℕ)
      → 0 < b
      → 0 < d
      → a * d ≤ c * b
      → Le (div (of_int (pos a)) (of_int (pos b))) (div (of_int (pos c)) (of_int (pos d)))
  pub Le-mul : (x y : Float) → Le x y → Le (mul x (of_int (pos 100))) (mul y (of_int (pos 100)))
  pub Le-sub : (x y : Float) → Le x y → Le (sub (of_int (pos 1)) y) (sub (of_int (pos 1)) x)
  pub Le-to_int64 : (x y : Float) → Le x y → to_int64 x ≤ℤ to_int64 y
  pub zero_percent : mul (div (of_int (pos 0)) (of_int (pos 1))) (of_int (pos 100)) ≡ of_int (pos 0)
  pub half_percent :
      mul (div (of_int (pos 1)) (of_int (pos 2))) (of_int (pos 100)) ≡ of_int (pos 50)
  pub full_percent :
      mul (div (of_int (pos 1)) (of_int (pos 1))) (of_int (pos 100)) ≡ of_int (pos 100)
  pub one_sub : (n : ℕ) → n ≤ 100 → sub (of_int (pos 1)) (of_int (pos n)) ≡ of_int (pos 1 -ℤ pos n)
  pub to_int64_of_int :
      (n : ℕ)
      → n ≤ 100
      → (to_int64 (of_int (pos n)) ≡ pos n) × (to_int64 (of_int (pos 1 -ℤ pos n)) ≡ pos 1 -ℤ pos n)

-- `*` and `/` bind tighter than `-`.
unfoldable pub score : (f : Float64) → ℤ → ℤ → String → ℤ
score f count desired policy =
    let ratio = f.div (f.of_int count) (f.of_int desired) in
    let hundred = f.of_int (pos 100) in
    if policy == schedule_strategy_balance
    then f.to_int64 (f.sub (f.of_int (pos 1)) (f.mul ratio hundred))
    else if policy == schedule_strategy_fill
    then f.to_int64 (f.mul ratio hundred)
    else pos 0
