-- ===== src/Client/Timeout.antt =====
-- The timeout of a request: `time.Duration(seconds) * time.Second` on int64.
use super_scheduling.Prelude.{
  ◌+◌, ◌-◌, ◌*◌, ◌%◌, ◌^◌, ◌≤◌, ◌≡◌, ◌↔◌, Option, none, some, ℤ, pos, negsuc, pos_part, neg_part,
  ltb, if◌then◌else◌, arith,
}

-- The integer of 64 bits with the low bits of `z`.
unfoldable pub int64 : ℤ → ℤ
int64 (pos n) = let w = n % 2 ^ 64 in if ltb w (2 ^ 63) then pos w else negsuc (2 ^ 64 - 1 - w)
int64 (negsuc n) =
    let w = 2 ^ 64 - 1 - n % 2 ^ 64 in if ltb w (2 ^ 63) then pos w else negsuc (2 ^ 64 - 1 - w)

-- `seconds * time.Second` before the wrap: a second has 10 ^ 9 nanoseconds.
abbrev pub nanoseconds : ℤ → ℤ
nanoseconds (pos n) = pos (n * 1000000000)
nanoseconds (negsuc n) = negsuc (n * 1000000000 + 999999999)

unfoldable pub timeout_of : Option ℤ → ℤ
unfolding int64
timeout_of none = pos 0
timeout_of (some seconds) = int64 (nanoseconds seconds)

-- The timeout is that many seconds exactly if they are at most 9223372036, either way from 0.
pub timeout_of_iff :
    (seconds : ℤ)
    → (timeout_of (some seconds) ≡ nanoseconds seconds)
      ↔ ((pos_part seconds ≤ 9223372036) × (neg_part seconds ≤ 9223372036))
unfolding timeout_of int64
timeout_of_iff (pos n) = (λ e. ground (arith, e), λ h. ground (arith, h))
timeout_of_iff (negsuc n) = (λ e. ground (arith, e), λ h. ground (arith, h))
