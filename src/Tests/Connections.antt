-- ===== src/Tests/Connections.antt =====
-- One connection and one command on a pool of two empty shards (src/session.cpp,
-- src/commandExecutor.cpp).
use mathlib.Core.Path.{subst}
use tinycache.Dispatch.{switch_multi, local_home}
use tinycache.Pool.{is_on_shard_thread}
use tinycache.Prelude
use tinycache.Prelude.{
  get_elem?, ℕ, ◌<◌, ◌≡◌, refl, sym, ap, ◌∙◌, arith, List, [], ◌∷◌, ◌++◌, map, length, some, ok,
}
use tinycache.Prelude.Bytes.{codes}
use tinycache.FlatMap.Assoc.{assoc_map, Entries}
use tinycache.Resp.{RespValue}
use tinycache.Resp.Emit.{IsWellTyped}
use tinycache.Command.{CommandType, Command, spec_for}
use tinycache.Command.Shape.{HasArity}
use tinycache.Pool.{Worker, local_shard, run_on_shard, replicate}
use tinycache.Router.{get_shard_index}
use tinycache.Dispatch.{
  Task, deleting, index_of, push_key, group_keys, remote_groups, all_groups, execute_multi_shard,
  execute,
}
use tinycache.Dispatch.Sound.{IsPool, IsTimely}
use tinycache.Dispatch.Alone.{serve, serve-ok}
use tinycache.System.{on_thread_of}
use tinycache.Connection.{request}
use tinycache.Tests.Shards.{now, due}
use tinycache.Tests.Systems.{hash, start_state, start-IsPool}

abbrev pub request_of_set : RespValue
request_of_set = request (codes "SET" ∷ codes "a" ∷ codes "12" ∷ [])

abbrev pub del_both : Command
del_both = record { type = CommandType.del; args = codes "a" ∷ codes "bb" ∷ [] }

abbrev del_task : Task
del_task = deleting ((local_shard 0, codes "bb" ∷ []) ∷ (run_on_shard 1, codes "a" ∷ []) ∷ []) 0

pub del_both-HasArity : HasArity CommandType.del 2
unfolding spec_for
del_both-HasArity = (record { min_args = 1; max_args = 10 }, refl, omega arith, omega arith)

del_both-runs : execute (on_thread_of 0) hash 2 del_both (some 0) ≡ ok del_task
unfolding execute execute_multi_shard switch_multi local_home is_on_shard_thread group_keys push_key
    all_groups remote_groups get_shard_index replicate Prelude.set get_elem?
del_both-runs = refl

timely :
    (t : Task) → execute (on_thread_of 0) hash 2 del_both (some 0) ≡ ok t → IsTimely 6 t now due
timely t runs =
    let same : del_task ≡ t = ground (arith, sym del_both-runs ∙ runs) in
    subst (λ u. IsTimely 6 u now due) same tt

serve-ok_example :
    (ws : List (Worker Entries)) × (v : RespValue) × (serve assoc_map
        (on_thread_of 0)
        now
        due
        hash
        2
        (some 0)
        del_both
        start_state.workers
      ≡ ok (ws, v))
    × IsPool assoc_map 6 2 (index_of hash 2) ws
    × IsWellTyped v
serve-ok_example =
    serve-ok assoc_map (on_thread_of 0) now due 6 2 hash (some 0) del_both start_state.workers
      (omega arith) del_both-HasArity (omega arith) (omega arith) start-IsPool timely
