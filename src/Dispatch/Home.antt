-- ===== src/Dispatch/Home.antt =====
-- The home shard of a session in a pool (src/commandExecutor.cpp, src/shardPool.cpp).
use tinycache.Prelude.{
  ℕ, ◌<◌, ◌≡◌, refl, arith, ltb, Bool, true, if◌then◌else◌, List, Option, none, some, ok,
}
use tinycache.Prelude.Bytes.{Bytes}
use tinycache.Command.{CommandType}
use tinycache.Pool.{is_on_shard_thread}
use tinycache.Dispatch.{local_home, switch_multi, execute_multi_shard}

-- A home shard is a shard of the pool.
abbrev pub IsHome : ℕ → Option ℕ → Type 0
IsHome n none = Unit
IsHome n (some home) = home < n

-- `home`, if the caller runs on its thread
abbrev pub local_at : (ℕ → Bool) → Option ℕ → Option ℕ
local_at on_thread none = none
local_at on_thread (some home) = if on_thread home then some home else none

module _ (on_thread : ℕ → Bool) (n : ℕ) where
  pub local_home-local_at :
      (home : Option ℕ) → IsHome n home → local_home on_thread n home ≡ ok (local_at on_thread home)
  unfolding local_home is_on_shard_thread
  local_home-local_at none h = refl
  local_home-local_at (some home) h =
      let inside : ltb home n ≡ true = ground arith in rw inside refl

  pub execute_multi_shard-switch_multi :
      (hash : Bytes → ℕ) (t : CommandType) (args : List Bytes) (home : Option ℕ)
      → IsHome n home
      → execute_multi_shard on_thread hash n t args home
        ≡ switch_multi hash n t args (local_at on_thread home)
  unfolding execute_multi_shard
  execute_multi_shard-switch_multi hash t args home h = rw (local_home-local_at home h) refl
