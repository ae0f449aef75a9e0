-- ===== src/Server/Shutdown.antt =====
-- A server (src/server.cpp) from its start to its end.
use mathlib.Core.Path.{subst}
use tinycache.Prelude.Bytes.{add64}
use tinycache.Prelude.{
  ℕ, ◌%◌, ◌<◌, ◌≡◌, if◌then◌else◌, refl, sym, ap, ◌∙◌, arith, Bool, true, false, List, [], ◌∷◌,
  ◌++◌, map, length, length-map, append_assoc, append-nil, ok, ◌>>=◌, get_elem?-some, Bool-cases,
  inl, inr,
}
use tinycache.FlatMap.{FlatMap}
use tinycache.Config.{Settings, Config, get_config}
use tinycache.Pool.{
  ShardPool, new_pool, new_worker, stop, stop_worker, join_worker, at_least_one, length-replicate,
}
use tinycache.Pool.Lifecycle.{
  start_call, stop_call, make_calls, destroy, shards, AllDown, new_pool-destroy, Starts,
  start-Starts, new_pool-IsReady,
}
use tinycache.Server.{Server, new_server, take_shard, listener}
use tinycache.Server.Bounds.{AllBelow, listener-AllBelow}
use tinycache.Server.Run.{
  Happening, accepted, signalled, Serving, returned, goes_on, executor_for, next_turn, stop_pool,
  handle, io_run, new_serving, run, main,
}

at_least_one-positive : (n : ℕ) → 0 < at_least_one n
at_least_one-positive n = ground arith

new_pool-positive :
    {M : Type 0} (F : FlatMap M) (c : Config) → 0 < length (new_server F c).shard_pool.workers
unfolding new_pool
new_pool-positive F c = omega (
  arith,
  length-replicate (at_least_one c.shard_count) (new_worker F c.max_memory_bytes_per_shard),
  at_least_one-positive c.shard_count,
)

module _ {M : Type 0} where
  -- The listener of server `v` waits to accept, and has started `sessions`.
  abbrev Listens : Server M → List ℕ → Serving M
  Listens v sessions = record {
    server = (take_shard v).1;
    shard_index = (take_shard v).0;
    waiting = true;
    io_stopped = false;
    sessions = sessions;
  }

  next_turn-Listens :
      (v : Server M) (s : Serving M)
      → 0 < length v.shard_pool.workers
      → s.server ≡ v
      → s.waiting ≡ true
      → s.io_stopped ≡ false
      → next_turn s ≡ ok (Listens v s.sessions)
  unfolding next_turn executor_for take_shard
  next_turn-Listens v s some_shard is waits runs =
      let (w, there) =
        get_elem?-some v.shard_pool.workers (take_shard v).0 (omega (arith, some_shard)) in
      ground (arith, is, waits, runs, there)

  -- The listener on its own, and in the event loop.
  io_run-listener :
      (outcomes : List Bool) (rest : List Happening) (v : Server M) (sessions : List ℕ)
      → 0 < length v.shard_pool.workers
      → (v' : Server M) × (io_run (map accepted outcomes ++ rest) (Listens v sessions)
          ≡ io_run rest (Listens v' (sessions ++ listener outcomes v)))
        × (v'.shard_pool ≡ v.shard_pool)
  unfolding io_run handle listener
  io_run-listener [] rest v sessions some_shard =
      (v, ap (λ l. io_run rest (Listens v l)) (sym (append-nil sessions)), refl)
  io_run-listener (true ∷ outcomes) rest v sessions some_shard =
      let v1 = (take_shard v).1 in
      let i = (take_shard v).0 in
      let (v', runs, same) = io_run-listener outcomes rest v1 (sessions ++ i ∷ []) some_shard in
      (
        v',
        rw (next_turn-Listens v1 (Listens v (sessions ++ i ∷ [])) some_shard refl refl refl) (
            runs
            ∙ ap (λ l. io_run rest (Listens v' l))
                (append_assoc sessions (i ∷ []) (listener outcomes v1))),
        same,
      )
  io_run-listener (false ∷ outcomes) rest v sessions some_shard =
      let v1 = (take_shard v).1 in
      let (v', runs, same) = io_run-listener outcomes rest v1 sessions some_shard in
      (v', rw (next_turn-Listens v1 (Listens v sessions) some_shard refl refl refl) runs, same)

  -- What runs on the event loop until the signal, and behind it.
  io_run-signalled :
      (v : Server M) (sessions : List ℕ) (more : List Happening)
      → io_run (signalled ∷ more) (Listens v sessions)
        ≡ ok (record (stop_pool (Listens v sessions)) { waiting = false; io_stopped = true })
  unfolding io_run handle stop_pool
  io_run-signalled v sessions [] = refl
  io_run-signalled v sessions (h ∷ more) = refl

  -- Only the counter and the number of workers count for the listener.
  listener-size :
      (outcomes : List Bool) (v v' : Server M)
      → v.next_shard ≡ v'.next_shard
      → length v.shard_pool.workers ≡ length v'.shard_pool.workers
      → listener outcomes v ≡ listener outcomes v'
  unfolding listener take_shard
  listener-size [] v v' same size = refl
  listener-size (true ∷ outcomes) v v' same size =
      let first : v.next_shard % length v.shard_pool.workers
          ≡ v'.next_shard % length v'.shard_pool.workers =
        cc in
      ap (λ i. i ∷ listener outcomes (take_shard v).1) first
      ∙ ap (λ l. v'.next_shard % length v'.shard_pool.workers ∷ l)
          (listener-size outcomes (take_shard v).1 (take_shard v').1 (ap (λ n. add64 n 1) same)
            size)
  listener-size (false ∷ outcomes) v v' same size =
      listener-size outcomes (take_shard v).1 (take_shard v').1 (ap (λ n. add64 n 1) same) size

  started-size : (p p' : ShardPool M) → Starts p p' → length p'.workers ≡ length p.workers
  started-size p p' (_, _, _, same) =
      sym (length-map (λ w. w.shard) p'.workers)
      ∙ ap length same
      ∙ length-map (λ w. w.shard) p.workers

  stopped-size : (p : ShardPool M) → length (stop p).workers ≡ length p.workers
  unfolding stop
  stopped-size p = elim (Bool-cases p.stopped) [
    | inl on ↦ rw on refl
    | inr off ↦
        rw off
          (length-map join_worker (map stop_worker p.workers) ∙ length-map stop_worker p.workers)
  ]

  -- The server as `run` starts it.
  abbrev started : Server M → ShardPool M → Server M
  started v p = record v { shard_pool = p }

  run-listens :
      (v : Server M) (p : ShardPool M) (outcomes : List Bool) (rest : List Happening)
      → Starts v.shard_pool p
      → 0 < length v.shard_pool.workers
      → (v' : Server M) × (run (map accepted outcomes ++ rest) v ≡ (
          io_run rest (Listens v' (listener outcomes v)) >>= λ s.
          ok (if s.io_stopped then returned (stop_pool s) else goes_on s)))
        × (v'.shard_pool ≡ p)
  unfolding run
  run-listens v p outcomes rest starts some_shard =
      let size = started-size v.shard_pool p starts in
      let some_worker : 0 < length (started v p).shard_pool.workers =
        omega (arith, size, some_shard) in
      let (v', runs, same) = io_run-listener outcomes rest (started v p) [] some_worker in
      let as_before = listener-size outcomes (started v p) v refl size in
      (
        v',
        rw
            (
              starts.0,
              next_turn-Listens (started v p) (new_serving (started v p)) some_worker refl refl
                  refl,
              runs,
              as_before,
            )
            refl,
        same,
      )

  -- What the destructor leaves of a pool that was stopped.
  stop_again : (p : ShardPool M) → p.stopped ≡ true → stop p ≡ p
  unfolding stop
  stop_again p on = ground (arith, on)

  stop-stopped : (p : ShardPool M) → (stop p).stopped ≡ true
  unfolding stop
  stop-stopped p = elim (Bool-cases p.stopped) [
    | inl on ↦ ground (arith, on)
    | inr off ↦ ground (arith, off)
  ]

-- Until the first signal, `main` serves the connections that are accepted, each from the home shard that
-- the listener gives it, which is one of the pool; no shard index is outside of the pool. Then, whatever
-- would have come behind the signal, `run` returns. By then every thread of the pool is joined, every
-- work guard is released and every event loop was told to stop, the calls of `start` and `stop` have
-- changed no shard, and the destructor of the pool has nothing left to do.
pub main-listener :
    {M : Type 0} (F : FlatMap M) (t : Settings) (outcomes : List Bool) (more : List Happening)
    → (s : Serving M) × (main F t (map accepted outcomes ++ signalled ∷ more) ≡ ok (returned s))
      × (s.sessions ≡ listener outcomes (new_server F (get_config t)))
      × AllBelow (length s.server.shard_pool.workers) s.sessions
      × AllDown s.server.shard_pool.workers
      × (shards s.server.shard_pool.workers
          ≡ shards (new_server F (get_config t)).shard_pool.workers)
      × (destroy s.server.shard_pool ≡ s.server.shard_pool)
unfolding stop_pool make_calls take_shard
main-listener F t outcomes more =
    let c = get_config t in
    let v = new_server F c in
    let some_shard = new_pool-positive F c in
    let (p, starts) =
      start-Starts v.shard_pool
        (new_pool-IsReady F c.shard_count c.max_memory_bytes_per_shard c.thread_affinity_enabled) in
    let (v', runs, same) = run-listens v p outcomes (signalled ∷ more) starts some_shard in
    let sessions = listener outcomes v in
    let s = record (stop_pool (Listens v' sessions)) { waiting = false; io_stopped = true } in
    let size : length (stop (stop v'.shard_pool)).workers ≡ length v.shard_pool.workers =
      stopped-size (stop v'.shard_pool)
      ∙ stopped-size v'.shard_pool
      ∙ ap (λ (q : ShardPool _). length q.workers) same
      ∙ started-size v.shard_pool p starts in
    let (q, ends, down, kept) =
      new_pool-destroy F c.shard_count c.max_memory_bytes_per_shard c.thread_affinity_enabled
        (start_call ∷ stop_call ∷ []) (refl, tt) in
    let makes : make_calls (start_call ∷ stop_call ∷ []) v.shard_pool ≡ ok (stop p) =
      rw starts.0 refl in
    let pool : q ≡ stop v'.shard_pool = ground (arith, ends, makes, ap stop same) in
    (
      stop_pool s,
      runs ∙ rw (io_run-signalled v' sessions more) refl,
      refl,
      listener-AllBelow _ outcomes v (sym size) (omega (arith, size, some_shard)),
      subst (λ (r : ShardPool _). AllDown (stop r).workers) pool down,
      ap (λ (r : ShardPool _). shards (stop r).workers) (sym pool) ∙ kept,
      stop_again (stop (stop v'.shard_pool)) (stop-stopped (stop v'.shard_pool)),
    )
