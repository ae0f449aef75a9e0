-- ===== src/Tests/Safety.antt =====
-- What never fails: the answers of a pool of two shards, and a connection (src/session.cpp) to it.
use mathlib.Core.Path.{subst}
use tinycache.Prelude.{
  false, ◌+◌, ◌<◌, ◌≤◌, ◌≡◌, refl, sym, ◌∙◌, arith, Fares, [], ◌∷◌, length, some, get_elem?, ◌++◌,
}
use tinycache.Prelude.Bytes.{codes}
use tinycache.FlatMap.Assoc.{assoc_map, Entries}
use tinycache.Resp.{RespType, RespValue, resp, text}
use tinycache.Resp.Decimal.{format, digits}
use tinycache.Resp.Serializer.{done, serialize}
use tinycache.Resp.Emit.{emit, IsWellTyped}
use tinycache.Resp.RoundTrip.{parse_impl-emit}
use tinycache.Resp.Reading.{IsSendable}
use tinycache.Resp.Returns.{parse_impl-IsWellTyped}
use tinycache.Executor.{ok_answer}
use tinycache.Dispatch.{execute_single_shard, execute_multi_shard, index_of, finished}
use tinycache.Dispatch.Sound.{IsPool}
use tinycache.Dispatch.Equivalence.{execute_single_shard-execute_multi_shard}
use tinycache.Command.{CommandType, Command}
use tinycache.System.{on_thread_of, then_step}
use tinycache.System.Typed.{Run-serialize}
use tinycache.Session.{received, no_effects, run, drain_all}
use tinycache.Session.Chunks.{drain-nil}
use tinycache.Session.Fine.{IsStanding, Delivers}
use tinycache.Connection.{executor, timed}
use tinycache.Prelude.{ℕ, ◌%◌, List, Outcome}
use tinycache.Shard.Time.{TimePoint}
use tinycache.Pool.{Worker}
use tinycache.Connection.Safety.{run_safe}
use tinycache.Tests.Shards.{now}
use tinycache.Tests.Systems.{hash, start_state, start-IsPool, asks, sets, answered, client}
use tinycache.Tests.Connections.{del_both, del_both-HasArity, request_of_set}

client_there : get_elem? answered.clients 0 ≡ some (client (finished ok_answer))
unfolding get_elem?
client_there = refl

Run-serialize_example : IsWellTyped ok_answer × (serialize ok_answer ≡ done (emit ok_answer))
Run-serialize_example =
    Run-serialize assoc_map hash 6 2 false (omega arith) (then_step asks sets) 0
      (client (finished ok_answer)) ok_answer client_there refl

abbrev word_a : RespValue
word_a = resp RespType.bulk_string (text (codes "a"))

word_a-IsSendable : IsSendable 0 word_a
unfolding IsSendable
word_a-IsSendable = omega arith

word_a-short : length (emit word_a ++ []) < 100
unfolding emit format digits
word_a-short = omega arith

parse_impl-IsWellTyped_example : IsWellTyped word_a
parse_impl-IsWellTyped_example =
    parse_impl-IsWellTyped (emit word_a ++ []) (omega (arith, word_a-short))
      (parse_impl-emit word_a [] word_a-IsSendable)

execute_single_shard-execute_multi_shard_example :
    execute_single_shard (on_thread_of 0) CommandType.del del_both.args (some 0)
    ≡ execute_multi_shard (on_thread_of 0) hash 1 CommandType.del del_both.args (some 0)
execute_single_shard-execute_multi_shard_example =
    execute_single_shard-execute_multi_shard (on_thread_of 0) hash CommandType.del del_both.args
      (some 0) del_both-HasArity (omega arith)

set_fits : length (emit request_of_set) ≤ 1024
unfolding emit format digits
set_fits = omega arith

-- A clock that goes on, and starts again after a while.
abbrev ticks : ℕ → TimePoint × TimePoint
ticks i = (now + i % 1000, now + i % 1000 + 1)

abbrev runs_set :
    Command → ℕ × List (Worker Entries) → Outcome ((ℕ × List (Worker Entries)) × RespValue)
runs_set = timed (executor assoc_map hash 6 2 0) ticks

set_delivered :
    Delivers 1024 runs_set
      (received (emit request_of_set) ∷ [])
      []
      (no_effects (0, start_state.workers))
unfolding drain_all
set_delivered rest e' waits room =
    let is = sym (drain-nil runs_set 0 (no_effects (0, start_state.workers))) ∙ waits in
    let nothing : [] ≡ rest = ground (arith, is) in
    (
      subst (λ r. length r + length (emit request_of_set) ≤ 1024) nothing (omega (arith, set_fits)),
      tt,
    )

run_safe_example :
    Fares
      (IsStanding
        (λ (s : ℕ × List (Worker Entries)). IsPool assoc_map 6 2 (index_of hash 2) s.1)
        1024)
      (run runs_set 1024
        (received (emit request_of_set) ∷ [])
        []
        (no_effects (0, start_state.workers)))
run_safe_example =
    run_safe assoc_map hash 6 2 0 1024 ticks (λ i. (omega arith, omega arith)) (omega arith)
      (omega arith) (received (emit request_of_set) ∷ []) start_state.workers start-IsPool
      set_delivered
