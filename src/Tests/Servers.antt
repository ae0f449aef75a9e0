-- ===== src/Tests/Servers.antt =====
-- Settings, the life of a pool, CONFIG GET, and a round of the expiration loop, on concrete input
-- (src/config.cpp, src/server.cpp, src/shardPool.cpp, src/commandExecutor.cpp,
-- src/expirationController.cpp).
use tinycache.Pool.{ShardPool}
use tinycache.Prelude.{ok}
use tinycache.FlatMap.Assoc.{Entries}
use tinycache.Prelude.{
  ◌<◌, ◌≡◌, refl, arith, Bool, true, false, List, [], ◌∷◌, ◌++◌, map, length, pos, negsuc, none,
  some, ok,
}
use tinycache.Prelude.Bytes.{Bytes, codes, word}
use tinycache.FlatMap.Assoc.{assoc_map, Entries}
use tinycache.Resp.{RespArray}
use tinycache.Command.{to_uppercase}
use tinycache.Executor.Catalog.{to_lowercase, array_of, config_values, process_config}
use tinycache.Executor.Values.{Selects, process_config-Selects}
use tinycache.Shard
use tinycache.Shard.{LruShard}
use tinycache.Shard.Time.{TimePoint}
use tinycache.Shard.Spec.{Entry, entry_for}
use tinycache.Shard.Valid.{IsValid, view}
use tinycache.Pool.{new_pool}
use tinycache.Pool.Lifecycle.{
  Call, start_call, stop_call, make_calls, destroy, shards, AllDown, new_pool-destroy,
}
use tinycache.Config.{Settings, get_config}
use tinycache.Server.{new_server, listener}
use tinycache.Server.Run.{accepted, signalled, Serving, returned, main}
use tinycache.Server.Shutdown.{main-listener}
use tinycache.Server.Bounds.{AllBelow, new_server-bounds}
use tinycache.Expiration.{plan, sweep}
use tinycache.Expiration.Sweeps.{Wakes, unexpired, round-sweeps}
use tinycache.Tests.Shards.{now, due, one_key, one_key-IsValid}

abbrev settings : Settings
settings = record {
  host = codes "0.0.0.0";
  port = pos 8080;
  thread_affinity_enabled = true;
  max_message_size = negsuc 4;
  max_memory_bytes_per_shard = pos 4096;
  preallocated_map_capacity_per_shard = pos 0;
  shard_count = pos 3;
}

abbrev accepts : List Bool
accepts = true ∷ false ∷ true ∷ []

new_server-bounds_example :
    (0 < (get_config settings).max_message_size)
    × ((get_config settings).max_message_size < word)
    × (0 < (get_config settings).max_memory_bytes_per_shard)
    × ((get_config settings).max_memory_bytes_per_shard < word)
    × (0 < length (new_server assoc_map (get_config settings)).shard_pool.workers)
    × (length (new_server assoc_map (get_config settings)).shard_pool.workers < 65536)
    × AllBelow
        (length (new_server assoc_map (get_config settings)).shard_pool.workers)
        (listener accepts (new_server assoc_map (get_config settings)))
new_server-bounds_example = new_server-bounds assoc_map settings accepts (omega arith) (omega arith)

abbrev calls : List Call
calls = start_call ∷ start_call ∷ stop_call ∷ []

new_pool-destroy_example :
    (p : ShardPool Entries) × (make_calls calls (new_pool assoc_map 2 6 false) ≡ ok p)
    × AllDown (destroy p).workers
    × (shards (destroy p).workers ≡ shards (new_pool assoc_map 2 6 false).workers)
new_pool-destroy_example = new_pool-destroy assoc_map 2 6 false calls (refl, (refl, tt))

is_get : to_uppercase (codes "get") ≡ codes "GET"
unfolding to_uppercase
is_get = refl

process_config-Selects_example :
    (vs : RespArray) × (process_config (codes "get" ∷ codes "s*" ∷ []) ≡ ok (array_of vs))
    × Selects (to_lowercase (codes "s*")) config_values vs
process_config-Selects_example = process_config-Selects (codes "get") (codes "s*") is_get

wakes : Wakes (plan assoc_map now one_key) now due
unfolding plan Shard.get_next_expire_time
wakes = omega arith

round-sweeps_example :
    (s' : LruShard Entries) × (sweep assoc_map due one_key ≡ ok (s', tt))
    × IsValid assoc_map s'
    × ((k : Bytes)
        → entry_for k (view s').entries ≡ unexpired due (entry_for k (view one_key).entries))
    × ((k : Bytes) (e : Entry) (u : TimePoint)
        → Shard.get_next_expire_time assoc_map one_key ≡ some u
        → entry_for k (view one_key).entries ≡ some e
        → e.expire_at ≡ some u
        → entry_for k (view s').entries ≡ none)
round-sweeps_example = round-sweeps assoc_map one_key one_key now due one_key-IsValid wakes

main-listener_example :
    (s : Serving Entries) × (main assoc_map settings
        (map accepted accepts ++ signalled ∷ accepted true ∷ [])
      ≡ ok (returned s))
    × (s.sessions ≡ listener accepts (new_server assoc_map (get_config settings)))
    × AllBelow (length s.server.shard_pool.workers) s.sessions
    × AllDown s.server.shard_pool.workers
    × (shards s.server.shard_pool.workers
        ≡ shards (new_server assoc_map (get_config settings)).shard_pool.workers)
    × (destroy s.server.shard_pool ≡ s.server.shard_pool)
main-listener_example = main-listener assoc_map settings accepts (accepted true ∷ [])
