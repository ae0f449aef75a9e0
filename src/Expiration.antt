-- ===== src/Expiration.antt =====
-- `cleaning_loop` of include/expirationController.hpp and src/expirationController.cpp. A round plans a
-- wait, at which the coroutine is suspended and others may use the shard, and then sweeps it.
pub mod Sweeps
use tinycache.Prelude.{ℕ, ltb, if◌then◌else◌, Option, none, some, Outcome, ok, ◌>>=◌}
use tinycache.FlatMap.{FlatMap}
use tinycache.Shard
use tinycache.Shard.{LruShard}
use tinycache.Shard.Time.{TimePoint}

-- What the timer is set to.
pub data Wait : Type 0 where
  no_wait : Wait
  expires_at : TimePoint → Wait
  expires_after : ℕ → Wait

module _ {M : Type 0} (F : FlatMap M) where
  -- The wait of a round that begins at `now`; the seconds are those of `expires_after`.
  unfoldable pub plan : TimePoint → LruShard M → Wait
  plan now s = elim (Shard.get_next_expire_time F s) [
    | none ↦ expires_after 3
    | some t ↦ if ltb now t then expires_at t else no_wait
  ]

  -- The end of a round, with its reading of the clock.
  unfoldable pub sweep : TimePoint → LruShard M → Outcome (LruShard M × Unit {0})
  sweep now s = do s' ← Shard.remove_expired_keys F now s; ok (s', tt)
