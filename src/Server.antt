-- ===== src/Server.antt =====
-- include/server.hpp and src/server.cpp: the pool that a server makes, and the home shards that its
-- listener gives to connections.
pub mod Bounds
pub mod Run
pub mod Shutdown
use tinycache.Prelude.{ℕ, ◌+◌, ◌%◌, Bool, true, false, List, [], ◌∷◌, length}
use tinycache.Prelude.Bytes.{add64}
use tinycache.FlatMap.{FlatMap}
use tinycache.Config.{Config}
use tinycache.Pool.{ShardPool, new_pool}

-- The members of a server that outlive its constructor.
pub record Server (M : Type 0) : Type 0 where
  pub shard_pool : ShardPool M
  pub max_message_size : ℕ
  pub next_shard : ℕ

abbrev pub new_server : {M : Type 0} → FlatMap M → Config → Server M
new_server F config = record {
  shard_pool =
      new_pool F config.shard_count config.max_memory_bytes_per_shard
        config.thread_affinity_enabled;
  max_message_size = config.max_message_size;
  next_shard = 0;
}

-- One turn of the listener: the shard index, and the server with the counter after it.
unfoldable pub take_shard : {M : Type 0} → Server M → ℕ × Server M
take_shard v =
    (v.next_shard % length v.shard_pool.workers, record v { next_shard = add64 v.next_shard 1 })

-- The listener on the outcomes of `async_accept`, true if there is a connection: the home shards of
-- the sessions that it starts.
unfoldable pub listener : {M : Type 0} → List Bool → Server M → List ℕ
unfolding take_shard
listener [] v = []
listener (accepted ∷ outcomes) v =
    let (shard_index, v') = take_shard v in
    let rest = listener outcomes v' in elim accepted [ true ↦ shard_index ∷ rest | false ↦ rest ]
