-- ===== src/Server/Run.antt =====
-- `main` and `Server::run` of src/server.cpp with the handler of its signals, `size` and `executor_for` of
-- src/shardPool.cpp: what happens on the event loop of the server, one after the other.
use tinycache.Prelude.{
  ℕ, if◌then◌else◌, Bool, true, false, List, [], ◌∷◌, ◌++◌, get_elem?, none, some, Outcome, ok,
  fault, dangling, ◌>>=◌,
}
use tinycache.Pool.{Worker, ShardPool, start, stop}
use tinycache.FlatMap.{FlatMap}
use tinycache.Config.{Settings, get_config}
use tinycache.Server.{Server, new_server, take_shard}

-- An outcome of `async_accept`, or a signal.
pub data Happening : Type 0 where
  accepted : Bool → Happening
  signalled : Happening

-- `waiting`: the signals are waited for, which happens once. `io_stopped`: the event loop was told to
-- stop. `shard_index`: the shard of the socket that the listener waits to accept on. `sessions`: the
-- home shards of the sessions that it has started.
pub record Serving (M : Type 0) : Type 0 where
  pub server : Server M
  pub shard_index : ℕ
  pub waiting : Bool
  pub io_stopped : Bool
  pub sessions : List ℕ

-- `run` has returned, or its event loop goes on.
pub data Life (M : Type 0) : Type 0 where
  returned goes_on : Serving M → Life M

module _ {M : Type 0} where
  -- A shard index outside of the pool is an assertion in the code.
  unfoldable pub executor_for : ℕ → ShardPool M → Outcome (Worker M)
  executor_for i p = elim (get_elem? p.workers i) [ none ↦ fault dangling | some w ↦ ok w ]

  -- A turn of the listener up to `async_accept`.
  unfoldable pub next_turn : Serving M → Outcome (Serving M)
  unfolding take_shard executor_for
  next_turn s =
      let (shard_index, v) = take_shard s.server in
      executor_for shard_index v.shard_pool >>= λ executor.
      ok (record s { server = v; shard_index = shard_index })

  unfoldable pub stop_pool : Serving M → Serving M
  unfolding stop
  stop_pool s = record s { server = record s.server { shard_pool = stop s.server.shard_pool } }

  unfoldable pub handle : Happening → Serving M → Outcome (Serving M)
  unfolding next_turn stop_pool
  handle (accepted true) s = next_turn (record s { sessions = s.sessions ++ s.shard_index ∷ [] })
  handle (accepted false) s = next_turn s
  handle signalled s =
      if s.waiting then ok (record (stop_pool s) { waiting = false; io_stopped = true }) else ok s

  -- `io_context_.run()`: once it was told to stop, it runs nothing more.
  unfoldable pub io_run : List Happening → Serving M → Outcome (Serving M)
  unfolding handle
  io_run [] s = ok s
  io_run (h ∷ hs) s = let rest = handle h s >>= io_run hs in if s.io_stopped then ok s else rest

  abbrev pub new_serving : Server M → Serving M
  new_serving v = record {
    server = v;
    shard_index = 0;
    waiting = true;
    io_stopped = false;
    sessions = [];
  }

  unfoldable pub run : List Happening → Server M → Outcome (Life M)
  unfolding start next_turn io_run stop_pool
  run happenings v = do
    shard_pool ← start v.shard_pool
    s ← next_turn (new_serving (record v { shard_pool = shard_pool }))
    s' ← io_run happenings s
    ok (if s'.io_stopped then returned (stop_pool s') else goes_on s')

-- `main`
abbrev pub main : {M : Type 0} → FlatMap M → Settings → List Happening → Outcome (Life M)
main F t happenings = run happenings (new_server F (get_config t))
