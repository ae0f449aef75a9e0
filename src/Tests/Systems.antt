-- ===== src/Tests/Systems.antt =====
-- Sessions and shards together (src/commandExecutor.cpp, src/shardPool.cpp): a pool of two shards, and a
-- client whose home is shard 0.
use tinycache.Dispatch.{switch_multi, local_home}
use tinycache.Pool.{is_on_shard_thread}
use tinycache.Prelude
use tinycache.Prelude.{
  ◌*◌, ℕ, suc, ◌-◌, ◌<◌, ◌≤◌, ◌≡◌, refl, arith, Bool, false, true, List, [], ◌∷◌, ◌++◌, length,
  none, some, Outcome, ok, get_elem?,
}
use tinycache.Prelude.Bytes.{Bytes, codes, add64}
use tinycache.FlatMap.Assoc
use tinycache.FlatMap.Assoc.{assoc_map, Entries}
use tinycache.Resp.{RespValue}
use tinycache.Shard
use tinycache.Executor.Info.{no_stats, add_stats, knows_section}
use tinycache.Dispatch.Written.{execute-get-set}
use tinycache.Shard.{LruShard, Stats}
use tinycache.Shard.Time.{deadline}
use tinycache.Shard.Spec.{Entry, entry_for}
use tinycache.Shard.Valid.{IsValid, view}
use tinycache.Command.{CommandType, Command, spec_for}
use tinycache.Command.Shape.{HasArity}
use tinycache.Executor.{bulk_or_null, ok_answer, process_set, write}
use tinycache.Pool.{
  Worker, Place, run_on_shard, new_pool, new_worker, replicate, on_worker, at_place,
}
use tinycache.Router.{get_shard_index}
use tinycache.Dispatch.{
  summing, start_info, KeyCommand, Task, finished, on_key, deleting, index_of, process_key, step,
  to_shard, execute_multi_shard, execute,
}
use tinycache.Dispatch.Sound.{IsPool, AllCalls, steps_left}
use tinycache.Dispatch.Groups.{keys_at, keys_of}
use tinycache.Dispatch.Deletion.{execute_multi_shard-del}
use tinycache.System.{
  Client, System, Step, submitted, advanced, Run, here, then_step, steps_of, on_thread_of,
  new_system,
}
use tinycache.System.Safety.{IsSystem, Run-IsSystem}
use tinycache.System.Answers.{Run-home, Run-advances, Run-answers, Run-sums, new_system-IsSystem}
use tinycache.Tests.Shards.{now}

abbrev pub hash : Bytes → ℕ
hash = length

abbrev on_home : ℕ → Bool
on_home = on_thread_of 0

execute_multi_shard-del_example :
    (calls : List (Place × List Bytes)) × (execute_multi_shard on_home hash 2 CommandType.del
        (codes "a" ∷ codes "bb" ∷ [])
        (some 0)
      ≡ ok (deleting calls 0))
    × AllCalls (index_of hash 2) on_home 2 calls
    × ((j : ℕ) → keys_at j calls ≡ keys_of (index_of hash 2) j (codes "a" ∷ codes "bb" ∷ []))
execute_multi_shard-del_example =
    execute_multi_shard-del hash on_home 2 (omega arith) (codes "a" ∷ codes "bb" ∷ []) (some 0)
      (omega arith)

abbrev pub start_state : System Entries
start_state = new_system assoc_map 2 6 false

abbrev set_a : Command
set_a = record { type = CommandType.set; args = codes "a" ∷ codes "12" ∷ [] }

abbrev get_a : Command
get_a = record { type = CommandType.get; args = codes "a" ∷ [] }

abbrev pub client : Task → Client
client t = record { home = 0; task = t }

abbrev set_task : Task
set_task = on_key (run_on_shard 1) KeyCommand.set (codes "a" ∷ codes "12" ∷ [])

set_a-HasArity : HasArity CommandType.set 2
unfolding spec_for
set_a-HasArity = (record { min_args = 2; max_args = 4 }, refl, omega arith, omega arith)

set_a-runs : execute on_home hash 2 set_a (some 0) ≡ ok set_task
unfolding execute execute_multi_shard switch_multi local_home is_on_shard_thread to_shard
    get_shard_index get_elem?
set_a-runs = refl

abbrev asked : System Entries
asked = record start_state { clients = client set_task ∷ [] }

pub asks : Run assoc_map hash 6 2 start_state asked
asks = then_step here (submitted 0 set_a (omega arith) set_a-HasArity (omega arith) set_a-runs)

asked-IsSystem : IsSystem assoc_map hash 6 2 asked
asked-IsSystem =
    Run-IsSystem assoc_map hash 6 2 (new_system-IsSystem assoc_map hash 6 2 false (omega arith))
      asks

there : get_elem? asked.clients 0 ≡ some (client set_task)
unfolding get_elem?
there = refl

Run-advances_example :
    (ws : List (Worker Entries)) × (t : Task) × (step on_home assoc_map set_task now now
        asked.workers
      ≡ ok (ws, t))
    × (steps_left 2 t ≡ steps_left 2 set_task - 1)
Run-advances_example =
    Run-advances assoc_map hash 6 2 asked-IsSystem here 0 (client set_task) now now there
      (omega arith)

abbrev stored : LruShard Entries
stored = record {
  map = (codes "a", 0) ∷ [];
  lru_list =
      record { it = 0; key = codes "a"; value = codes "12"; expire_at = none; expire_it = none }
      ∷ [];
  expire_map = [];
  max_memory_bytes = 6;
  used_payload_bytes = 3;
  evictions = 0;
  expired = 0;
  next = 1;
}

abbrev idle : Worker Entries
idle = new_worker assoc_map 6

abbrev written : List (Worker Entries)
written = idle ∷ record idle { shard = stored } ∷ []

set_a-steps :
    step on_home assoc_map set_task now now asked.workers ≡ ok (written, finished ok_answer)
unfolding step at_place on_worker process_key process_set write get_elem? Prelude.set new_pool
    new_worker replicate Shard.set deadline Shard.init Shard.set_new Shard.enforce_max_memory
    Shard.enforce_loop Shard.link_expiry Shard.payload_bytes Shard.over_memory add64 Assoc.find
    Assoc.emplace
set_a-steps = refl

abbrev pub answered : System Entries
answered = record { workers = written; clients = client (finished ok_answer) ∷ [] }

pub sets : Step assoc_map hash 6 2 asked answered
unfolding Prelude.set
sets = advanced 0 (client set_task) now now there (omega arith) set_a-steps

abbrev set_run : Run assoc_map hash 6 2 asked answered
set_run = then_step here sets

enough : 1 ≤ steps_of assoc_map hash 6 2 0 set_run
unfolding steps_of sets
enough = omega arith

Run-answers_example :
    (home : ℕ) × (v : RespValue) × (get_elem? answered.clients 0
      ≡ some (record { home = home; task = finished v }))
Run-answers_example =
    Run-answers assoc_map hash 6 2 asked-IsSystem set_run 0 (client set_task) there enough

home_shard : get_elem? answered.workers 1 ≡ some (record idle { shard = stored })
unfolding get_elem?
home_shard = refl

Run-home_example :
    IsValid assoc_map stored
    × ((k : Bytes) (e : Entry)
        → entry_for k (view stored).entries ≡ some e
        → get_shard_index hash k 2 ≡ 1)
Run-home_example =
    Run-home assoc_map hash 6 2 false (omega arith) (then_step asks sets) 1
      (record idle { shard = stored }) home_shard

execute-get-set_example :
    (t : Task) × (ws : List (Worker Entries)) × (t' : Task) × (ws' : List (Worker Entries))
    × (execute on_home hash 2 set_a (some 0) ≡ ok t)
    × (step on_home assoc_map t now now start_state.workers ≡ ok (ws, finished ok_answer))
    × (execute (on_thread_of 1) hash 2 get_a (some 1) ≡ ok t')
    × (step (on_thread_of 1) assoc_map t' now now ws
        ≡ ok (ws', finished (bulk_or_null (some (codes "12")))))
execute-get-set_example =
    execute-get-set assoc_map hash 6 2 start_state.workers (codes "a") (codes "12") on_home
      (on_thread_of 1) (some 0) (some 1) now now now now (omega arith) (omega arith) (omega arith)
      (new_system-IsSystem assoc_map hash 6 2 false (omega arith)).pool (omega arith) (omega arith)

abbrev info_request : Command
info_request = record { type = CommandType.info; args = [] }

info-HasArity : HasArity CommandType.info 0
unfolding spec_for
info-HasArity = (record { min_args = 0; max_args = 1 }, refl, omega arith, omega arith)

info_runs : execute on_home hash 2 info_request (some 0) ≡ ok (summing 0 no_stats)
unfolding execute execute_multi_shard switch_multi local_home is_on_shard_thread start_info
    knows_section
info_runs = refl

abbrev sums_asked : System Entries
sums_asked = record start_state { clients = client (summing 0 no_stats) ∷ [] }

asks_sums : Run assoc_map hash 6 2 start_state sums_asked
asks_sums = then_step here (submitted 0 info_request (omega arith) info-HasArity tt info_runs)

abbrev first_sums : Stats
first_sums = record no_stats { max_memory_bytes = 6 }

-- The first shard is read, and leaves the sums for one shard.
info-steps :
    step on_home assoc_map (summing 0 no_stats) now now start_state.workers
    ≡ ok (start_state.workers, summing 1 first_sums)
unfolding step at_place on_worker get_elem? Prelude.set new_pool new_worker replicate Shard.init
    Shard.get_stats add_stats add64 Assoc.size
info-steps = refl

abbrev summed : System Entries
summed = record start_state { clients = client (summing 1 first_sums) ∷ [] }

sums_there : get_elem? sums_asked.clients 0 ≡ some (client (summing 0 no_stats))
unfolding get_elem?
sums_there = refl

sums : Step assoc_map hash 6 2 sums_asked summed
unfolding Prelude.set
sums = advanced 0 (client (summing 0 no_stats)) now now sums_there tt info-steps

summed_there : get_elem? summed.clients 0 ≡ some (client (summing 1 first_sums))
unfolding get_elem?
summed_there = refl

Run-sums_example :
    (1 ≤ 2)
    × (first_sums.max_memory_bytes ≡ 1 * 6)
    × (first_sums.used_payload_bytes ≤ first_sums.max_memory_bytes)
Run-sums_example =
    Run-sums assoc_map hash 6 2 false (omega arith) (omega arith) (then_step asks_sums sums) 0
      (client (summing 1 first_sums)) 1 first_sums summed_there refl

pub start-IsPool : IsPool assoc_map 6 2 (index_of hash 2) start_state.workers
start-IsPool = (new_system-IsSystem assoc_map hash 6 2 false (omega arith)).pool
