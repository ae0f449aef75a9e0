-- ===== src/Pool/Pinning.antt =====
-- The cores that `start` of src/shardPool.cpp pins the threads of the workers to.
use tinycache.Prelude.{
  ℕ, ◌%◌, ◌<◌, ◌≡◌, arith, Bool, Option, none, some, if◌then◌else◌, Bool-cases, inl, inr,
}
use tinycache.Pool.{at_least_one}

-- `cores` is what `hardware_concurrency` returns, which may be 0.
unfoldable pub core_for : Bool → ℕ → ℕ → Option ℕ
core_for affinity cores worker_i = if affinity then some (worker_i % at_least_one cores) else none

-- A thread is pinned to a core that there is, if `hardware_concurrency` counts them.
pub core_for-lt :
    (affinity : Bool) (cores worker_i core : ℕ)
    → 0 < cores
    → core_for affinity cores worker_i ≡ some core
    → core < cores
unfolding core_for
core_for-lt affinity cores worker_i core some_core h = elim (Bool-cases affinity) [
  | inl on ↦ grind (arith, on, h)
  | inr off ↦ absurd (ground (arith, off, h))
]
