-- ===== src/Prelude/Int.antt =====
-- Signed integers over the native numbers, under the library's names, and Go's `int32` with its
-- wrap-around. An `int32` is kept as the integer that it stands for.
use super_scheduling.Prelude.Tests.{ltb, leb, if◌then◌else◌}
use Prim.Native.Nat.{ℕ, suc, ◌+◌, ◌-◌, ◌%◌, ◌^◌, ◌≤◌, ◌<◌}
use mathlib.Core.Path.{◌≡◌, refl, ◌∙◌, ap}
use mathlib.Core.Bool.{Bool, false}
use mathlib.Core.Logic.{◌↔◌}
use native.Mathlib.Omega.{arith}

-- `negsuc n` is -(n + 1).
pub data ℤ : Type 0 where
  pos : ℕ → ℤ
  negsuc : ℕ → ℤ

abbrev pub pos_part : ℤ → ℕ
pos_part (pos n) = n
pos_part (negsuc n) = 0

abbrev pub neg_part : ℤ → ℕ
neg_part (pos n) = 0
neg_part (negsuc n) = suc n

-- a - b, as an integer.
abbrev pub sub_ℕ : ℕ → ℕ → ℤ
sub_ℕ a b = if leb b a then pos (a - b) else negsuc (b - a - 1)

infixl 65 ◌+ℤ◌ ◌-ℤ◌
infix 50 ◌≤ℤ◌ ◌<ℤ◌
unfoldable pub ◌+ℤ◌ : ℤ → ℤ → ℤ
a +ℤ b = sub_ℕ (pos_part a + pos_part b) (neg_part a + neg_part b)

unfoldable pub ◌-ℤ◌ : ℤ → ℤ → ℤ
a -ℤ b = sub_ℕ (pos_part a + neg_part b) (neg_part a + pos_part b)

abbrev pub ◌≤ℤ◌ : ℤ → ℤ → Type 0
a ≤ℤ b = pos_part a + neg_part b ≤ pos_part b + neg_part a

abbrev pub ◌<ℤ◌ : ℤ → ℤ → Type 0
a <ℤ b = pos_part a + neg_part b < pos_part b + neg_part a

abbrev pub ltb_ℤ : ℤ → ℤ → Bool
ltb_ℤ a b = ltb (pos_part a + neg_part b) (pos_part b + neg_part a)

pub +ℤ_parts :
    (a b : ℤ)
    → pos_part (a +ℤ b) + neg_part a + neg_part b ≡ neg_part (a +ℤ b) + pos_part a + pos_part b
unfolding ◌+ℤ◌
+ℤ_parts a b = ground arith

pub -ℤ_parts :
    (a b : ℤ)
    → pos_part (a -ℤ b) + neg_part a + pos_part b ≡ neg_part (a -ℤ b) + pos_part a + neg_part b
unfolding ◌-ℤ◌
-ℤ_parts a b = ground arith

pub eq_of_parts : (a b : ℤ) → pos_part a + neg_part b ≡ pos_part b + neg_part a → a ≡ b
eq_of_parts a b h = ground arith

pub ruleset int_laws = (arith, +ℤ_parts, -ℤ_parts, eq_of_parts)

-- The bit pattern of an integer in 32 bits, and the `int32` that a bit pattern stands for.
unfoldable pub to_word : ℤ → ℕ
to_word (pos n) = n % 2 ^ 32
to_word (negsuc n) = 2 ^ 32 - 1 - n % 2 ^ 32

unfoldable pub of_word : ℕ → ℤ
of_word w = if ltb w (2 ^ 31) then pos w else negsuc (2 ^ 32 - 1 - w)

-- `int32(z)`: only the low 32 bits are kept.
unfoldable pub int32 : ℤ → ℤ
unfolding to_word of_word
int32 z = of_word (to_word z)

-- `a + b` and `a - b` on `int32`.
unfoldable pub add32 : ℤ → ℤ → ℤ
unfolding int32 ◌+ℤ◌
add32 a b = int32 (a +ℤ b)

unfoldable pub sub32 : ℤ → ℤ → ℤ
unfolding int32 ◌-ℤ◌
sub32 a b = int32 (a -ℤ b)

-- The values of `int32`.
abbrev pub IsInt32 : ℤ → Type 0
IsInt32 z = (pos_part z < 2 ^ 31) × (neg_part z ≤ 2 ^ 31)

pub int32_of_IsInt32 : (z : ℤ) → IsInt32 z → int32 z ≡ z
unfolding int32
int32_of_IsInt32 (pos n) h = ground arith
int32_of_IsInt32 (negsuc n) h = ground arith

pub int32-IsInt32 : (z : ℤ) → IsInt32 (int32 z)
unfolding int32
int32-IsInt32 (pos n) = ground arith
int32-IsInt32 (negsuc n) = ground arith

-- Bit patterns add modulo 2 ^ 32.
pub to_word-+ℤ : (a b : ℤ) → to_word (a +ℤ b) ≡ (to_word a + to_word b) % 2 ^ 32
unfolding to_word ◌+ℤ◌
to_word-+ℤ (pos a) (pos b) = ground arith
to_word-+ℤ (pos a) (negsuc b) = ground arith
to_word-+ℤ (negsuc a) (pos b) = ground arith
to_word-+ℤ (negsuc a) (negsuc b) = ground arith

pub to_word-int32 : (z : ℤ) → to_word (int32 z) ≡ to_word z
unfolding int32
to_word-int32 (pos n) = ground arith
to_word-int32 (negsuc n) = ground arith

pub to_word-lt : (z : ℤ) → to_word z < 2 ^ 32
unfolding to_word
to_word-lt (pos n) = ground arith
to_word-lt (negsuc n) = ground arith

to_word_pos : (n : ℕ) → to_word (pos n) ≡ n % 2 ^ 32
unfolding to_word
to_word_pos n = refl

pub int32-eq_of_to_word : (a b : ℤ) → to_word a ≡ to_word b → int32 a ≡ int32 b
unfolding int32
int32-eq_of_to_word a b h = ap of_word h

-- Additions to one `int32` may be made in any order.
pub add32_right_comm : (a b c : ℤ) → add32 (add32 a b) c ≡ add32 (add32 a c) b
unfolding add32
add32_right_comm a b c =
    int32-eq_of_to_word (int32 (a +ℤ b) +ℤ c) (int32 (a +ℤ c) +ℤ b)
      (omega (arith, to_word-+ℤ, to_word-int32))

pub add32_of_IsInt32 : (a b : ℤ) → IsInt32 (a +ℤ b) → add32 a b ≡ a +ℤ b
unfolding add32
add32_of_IsInt32 a b h = int32_of_IsInt32 (a +ℤ b) h

pub add32_undo : (a : ℤ) → IsInt32 a → add32 (add32 a (pos 1)) (negsuc 0) ≡ a
unfolding add32
add32_undo a fits =
    int32-eq_of_to_word (int32 (a +ℤ pos 1) +ℤ negsuc 0) a
      (unfold to_word in omega (arith, to_word-+ℤ, to_word-int32, to_word-lt))
    ∙ int32_of_IsInt32 a fits

-- Two counts added one after the other, each cut to 32 bits, are their sum added at once.
pub add32-add32 :
    (c : ℤ) (a b : ℕ)
    → add32 (add32 c (int32 (pos a))) (int32 (pos b)) ≡ add32 c (int32 (pos (a + b)))
unfolding add32
add32-add32 c a b =
    int32-eq_of_to_word (int32 (c +ℤ int32 (pos a)) +ℤ int32 (pos b)) (c +ℤ int32 (pos (a + b)))
      (omega (arith, to_word-+ℤ, to_word-int32, to_word_pos))

pub add32_zero : (c : ℤ) → IsInt32 c → add32 c (int32 (pos 0)) ≡ c
unfolding add32
add32_zero c fits =
    int32-eq_of_to_word (c +ℤ int32 (pos 0)) c
      (omega (arith, to_word-+ℤ, to_word-int32, to_word_pos, to_word-lt))
    ∙ int32_of_IsInt32 c fits

pub zero_add32 : (c : ℤ) → add32 (pos 0) (int32 c) ≡ int32 c
unfolding add32
zero_add32 c =
    int32-eq_of_to_word (pos 0 +ℤ int32 c) c
      (omega (arith, to_word-+ℤ, to_word-int32, to_word_pos, to_word-lt))

pub lt_of_not_le : (a b : ℤ) → ¬ (b ≤ℤ a) → a <ℤ b
lt_of_not_le a b h = omega arith

-- An `int32` below another one can be increased by one.
pub IsInt32-add_one : (a b : ℤ) → a <ℤ b → IsInt32 a → IsInt32 b → IsInt32 (a +ℤ pos 1)
unfolding ◌+ℤ◌
IsInt32-add_one (pos a) b h fits fits' = ground arith
IsInt32-add_one (negsuc a) b h fits fits' = ground arith

pub add_one-le : (a b : ℤ) → a <ℤ b → (a +ℤ pos 1) ≤ℤ b
add_one-le a b h = omega int_laws

pub add32_one : (k : ℕ) → add32 (int32 (pos k)) (pos 1) ≡ int32 (pos (k + 1))
unfolding add32
add32_one k =
    int32-eq_of_to_word (int32 (pos k) +ℤ pos 1) (pos (k + 1))
      (omega (arith, to_word-+ℤ, to_word-int32, to_word_pos))

pub sub32_of_IsInt32 : (a b : ℤ) → IsInt32 (a -ℤ b) → sub32 a b ≡ a -ℤ b
unfolding sub32
sub32_of_IsInt32 a b h = int32_of_IsInt32 (a -ℤ b) h

-- The difference of two counts is an `int32`.
pub IsInt32-sub : (a b : ℕ) → a < 2 ^ 31 → b < 2 ^ 31 → IsInt32 (pos a -ℤ pos b)
unfolding ◌-ℤ◌
IsInt32-sub a b h k = ground arith

pub ltb_sub_iff : (a b : ℤ) → (ltb_ℤ (pos 0) (a -ℤ b) ≡ false) ↔ (a ≤ℤ b)
ltb_sub_iff a b = (λ e. ground (arith, -ℤ_parts a b), λ e. ground (arith, -ℤ_parts a b))

-- `a - b` and `-(a - b)` on `int32`, for counts.
pub sub32_le : (a b : ℕ) → a < 2 ^ 31 → b < 2 ^ 31 → b ≤ a → sub32 (pos a) (pos b) ≡ pos (a - b)
unfolding sub32 ◌-ℤ◌
sub32_le a b p q h = ground arith

pub sub32_lt :
    (a b : ℕ) → a < 2 ^ 31 → b < 2 ^ 31 → a < b → sub32 (pos a) (pos b) ≡ negsuc (b - a - 1)
unfolding sub32 ◌-ℤ◌
sub32_lt a b p q h = ground arith

pub sub32_neg : (n : ℕ) → n + 1 < 2 ^ 31 → sub32 (pos 0) (negsuc n) ≡ pos (n + 1)
unfolding sub32 ◌-ℤ◌
sub32_neg n h = ground arith

pub sub32_negsuc : (m b : ℕ) → m + b + 1 < 2 ^ 31 → sub32 (negsuc m) (pos b) ≡ negsuc (m + b)
unfolding sub32 ◌-ℤ◌
sub32_negsuc m b h = ground arith
