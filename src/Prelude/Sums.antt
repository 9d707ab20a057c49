-- ===== src/Prelude/Sums.antt =====
-- Sums and tests over a list, which do not depend on its order.
use Prim.Native.Nat.{ℕ, ◌+◌}
use mathlib.Core.Bool.{Bool, true, false, ◌&&◌, ◌||◌, Bool-set}
use mathlib.Core.List.{List, [], ◌∷◌, Perm, Permᴰ}
use mathlib.Core.Logic.{∥∥₁_elim}
use mathlib.Core.Path.{◌≡◌, refl, ◌∙◌, ap, ap₂}
use native.Mathlib.Nat.{ℕ_set}
use native.Mathlib.Omega.{arith}

module _ {ℓ} {A : Type ℓ} where
  unfoldable pub sum_of : (A → ℕ) → List A → ℕ
  sum_of f [] = 0
  sum_of f (x ∷ xs) = f x + sum_of f xs

  unfoldable pub all_of : (A → Bool) → List A → Bool
  all_of p [] = true
  all_of p (x ∷ xs) = p x && all_of p xs

  unfoldable pub any_of : (A → Bool) → List A → Bool
  any_of p [] = false
  any_of p (x ∷ xs) = p x || any_of p xs

  sum_of-permᴰ : (f : A → ℕ) {xs ys : List A} → Permᴰ xs ys → sum_of f xs ≡ sum_of f ys
  unfolding sum_of
  sum_of-permᴰ f Permᴰ.nil = refl
  sum_of-permᴰ f (Permᴰ.cons e d) = omega (arith, ap f e, sum_of-permᴰ f d)
  sum_of-permᴰ f (Permᴰ.swap e e') = omega (arith, ap f e, ap f e')
  sum_of-permᴰ f (Permᴰ.trans d d') = sum_of-permᴰ f d ∙ sum_of-permᴰ f d'

  pub sum_of-perm : (f : A → ℕ) {xs ys : List A} → Perm xs ys → sum_of f xs ≡ sum_of f ys
  sum_of-perm f d = ∥∥₁_elim d (ℕ_set _ _) (λ c. sum_of-permᴰ f c)

  all_of-permᴰ : (p : A → Bool) {xs ys : List A} → Permᴰ xs ys → all_of p xs ≡ all_of p ys
  unfolding all_of
  all_of-permᴰ p Permᴰ.nil = refl
  all_of-permᴰ p (Permᴰ.cons e d) = ap₂ ◌&&◌ (ap p e) (all_of-permᴰ p d)
  all_of-permᴰ p (Permᴰ.swap e e') = ground (arith, ap p e, ap p e')
  all_of-permᴰ p (Permᴰ.trans d d') = all_of-permᴰ p d ∙ all_of-permᴰ p d'

  pub all_of-perm : (p : A → Bool) {xs ys : List A} → Perm xs ys → all_of p xs ≡ all_of p ys
  all_of-perm p d = ∥∥₁_elim d (Bool-set _ _) (λ c. all_of-permᴰ p c)
