-- ===== src/Tests/Parallelism.antt =====
-- The theorem about chunk sizes, for 1000 pieces of work.
use Prim.Native.Nat.{◌/◌}
use super_scheduling.Prelude.{◌+◌, ◌≤◌}
use super_scheduling.Util.Parallelism.{parallelism, chunk_size_for, chunk_size_for-bounds}

chunk_size_for-bounds_example :
    (1 ≤ chunk_size_for (λ _. 31) 1000) × (chunk_size_for (λ _. 31) 1000 ≤ 1000 / parallelism + 1)
chunk_size_for-bounds_example = chunk_size_for-bounds (λ _. 31) 1000
