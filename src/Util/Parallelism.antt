-- ===== src/Util/Parallelism.antt =====
-- pkg/util/parallelism.go: the size of the chunks of parallel work.
use Prim.Native.Nat.{◌/◌}
use super_scheduling.Prelude.{ℕ, ◌+◌, ◌≤◌, ltb, if◌then◌else◌, arith}

abbrev pub parallelism : ℕ
parallelism = 16

-- `sqrt` is int(math.Sqrt(float64(n))).
unfoldable pub chunk_size_for : (ℕ → ℕ) → ℕ → ℕ
chunk_size_for sqrt n =
    let s = sqrt n in let r = n / parallelism + 1 in if ltb r s then r else if ltb s 1 then 1 else s

-- A chunk has at least one piece, and the chunks are no larger than one more than the part of each
-- worker.
pub chunk_size_for-bounds :
    (sqrt : ℕ → ℕ) (n : ℕ)
    → (1 ≤ chunk_size_for sqrt n) × (chunk_size_for sqrt n ≤ n / parallelism + 1)
unfolding chunk_size_for
chunk_size_for-bounds sqrt n = ground arith
