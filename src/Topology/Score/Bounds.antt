-- ===== src/Topology/Score/Bounds.antt =====
-- The range of the scores: the framework takes scores from 0 to 100.
use super_scheduling.Prelude.{
  ℕ, ◌*◌, ◌≤◌, ◌<◌, ◌≡◌, refl, ◌∙◌, ap, subst, ℤ, pos, negsuc, pos_part, neg_part, ◌≤ℤ◌, ◌-ℤ◌,
  string_eq, arith,
}
use super_scheduling.Api.Scheduling.{schedule_strategy_fill, schedule_strategy_balance}
use super_scheduling.Topology.Score.{Float64, score}

module _ (f : Float64) where
  open f use {Float, Le, of_int, sub, mul, div, to_int64}

  abbrev percent : ℕ → ℕ → Float
  percent c d = mul (div (of_int (pos c)) (of_int (pos d))) (of_int (pos 100))

  percent_mono : (a b c d : ℕ) → 0 < b → 0 < d → a * d ≤ c * b → Le (percent a b) (percent c d)
  percent_mono a b c d p q h = f.Le-mul _ _ (f.Le-div a b c d p q h)

  fill_lem :
      (c d : ℤ)
      → score f c d schedule_strategy_fill
        ≡ to_int64 (mul (div (of_int c) (of_int d)) (of_int (pos 100)))
  unfolding score
  fill_lem c d = refl

  balance_lem :
      (c d : ℤ)
      → score f c d schedule_strategy_balance
        ≡ to_int64 (sub (of_int (pos 1)) (mul (div (of_int c) (of_int d)) (of_int (pos 100))))
  unfolding score
  balance_lem c d = refl

  -- Under Fill the score of a count below its replicas lies from 0 to 100.
  pub fill_bounds :
      (c d : ℕ)
      → c < d
      → (pos 0 ≤ℤ score f (pos c) (pos d) schedule_strategy_fill)
        × (score f (pos c) (pos d) schedule_strategy_fill ≤ℤ pos 100)
  fill_bounds c d h =
      let low = f.Le-to_int64 _ _ (
        subst (λ x. Le x (percent c d)) f.zero_percent
          (percent_mono 0 1 c d (omega arith) (omega arith) (omega arith))) in
      let high = f.Le-to_int64 _ _ (
        subst (λ x. Le (percent c d) x) f.full_percent
          (percent_mono c d 1 1 (omega arith) (omega arith) (omega arith))) in
      (
        rw fill_lem (
            omega (
              arith,
              low,
              ap pos_part (f.to_int64_of_int 0 (omega arith)).0,
              ap neg_part (f.to_int64_of_int 0 (omega arith)).0,
            )),
        rw fill_lem (
            omega (
              arith,
              high,
              ap pos_part (f.to_int64_of_int 100 (omega arith)).0,
              ap neg_part (f.to_int64_of_int 100 (omega arith)).0,
            )),
      )

  -- Under Fill the fuller of two values, by the part of its replicas that it has, scores no less.
  pub fill_mono :
      (a b c d : ℕ)
      → 0 < b
      → 0 < d
      → a * d ≤ c * b
      → score f (pos a) (pos b) schedule_strategy_fill
        ≤ℤ score f (pos c) (pos d) schedule_strategy_fill
  unfolding score
  fill_mono a b c d p q h = (f.Le-to_int64 _ _ (percent_mono a b c d p q h))

  -- Under Balance the emptier of two values scores no less.
  pub balance_antitone :
      (a b c d : ℕ)
      → 0 < b
      → 0 < d
      → a * d ≤ c * b
      → score f (pos c) (pos d) schedule_strategy_balance
        ≤ℤ score f (pos a) (pos b) schedule_strategy_balance
  unfolding score
  balance_antitone a b c d p q h = (f.Le-to_int64 _ _ (f.Le-sub _ _ (percent_mono a b c d p q h)))

  -- Under Balance a value that has at least half of its replicas, and fewer than all, scores -49 or
  -- less, which is outside the range from 0 to 100.
  pub balance_negative :
      (c d : ℕ) → d ≤ 2 * c → c < d → score f (pos c) (pos d) schedule_strategy_balance ≤ℤ negsuc 48
  unfolding ◌-ℤ◌
  balance_negative c d h k =
      let t = f.Le-to_int64 _ _ (
        f.Le-sub _ _ (
          subst (λ x. Le x (percent c d)) f.half_percent
            (percent_mono 1 2 c d (omega arith) (omega arith) (omega arith)))) in
      let e = ap to_int64 (f.one_sub 50 (omega arith)) ∙ (f.to_int64_of_int 50 (omega arith)).1 in
      rw balance_lem (omega (arith, t, ap pos_part e, ap neg_part e))
