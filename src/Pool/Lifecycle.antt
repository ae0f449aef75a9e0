-- ===== src/Pool/Lifecycle.antt =====
-- `start`, `stop` and the destructor of src/shardPool.cpp, called in any order.
use tinycache.Prelude.{zero, suc, Outcome, ok, ◌>>=◌}
use tinycache.Pool.{start_all, replicate, new_worker, at_least_one}
use tinycache.Prelude.{
  ℕ, ◌≡◌, refl, ap, ◌∙◌, Bool, true, false, List, [], ◌∷◌, map, arith, Bool-cases, inl, inr,
}
use tinycache.FlatMap.{FlatMap}
use tinycache.Shard.{LruShard}
use tinycache.Pool.{
  Worker, ShardPool, new_pool, start_worker, stop_worker, join_worker, start, stop,
}

-- The calls that the owner of a pool makes.
pub data Call : Type 0 where
  start_call stop_call : Call

module _ {M : Type 0} where
  unfoldable pub make_calls : List Call → ShardPool M → Outcome (ShardPool M)
  unfolding start stop
  make_calls [] p = ok p
  make_calls (start_call ∷ calls) p = start p >>= make_calls calls
  make_calls (stop_call ∷ calls) p = make_calls calls (stop p)

  -- `~ShardPool`
  abbrev pub destroy : ShardPool M → ShardPool M
  destroy p = stop p

  abbrev pub shards : List (Worker M) → List (LruShard M)
  shards ws = map (λ w. w.shard) ws

  -- The threads are joined, the work guards are released, and the event loops were told to stop.
  abbrev pub AllDown : List (Worker M) → Type 0
  AllDown [] = Unit
  AllDown (w ∷ ws) = (w.joinable ≡ false) × (w.guarded ≡ false) × (w.io_stopped ≡ true) × AllDown ws

  stopped-AllDown : (ws : List (Worker M)) → AllDown (map join_worker (map stop_worker ws))
  stopped-AllDown [] = tt
  stopped-AllDown (w ∷ ws) = (refl, refl, refl, stopped-AllDown ws)

  -- No thread runs.
  abbrev pub AllIdle : List (Worker M) → Type 0
  AllIdle [] = Unit
  AllIdle (w ∷ ws) = (w.joinable ≡ false) × AllIdle ws

  start_all-shards :
      (ws : List (Worker M))
      → AllIdle ws
      → (ws' : List (Worker M)) × (start_all ws ≡ ok ws') × (shards ws' ≡ shards ws)
  unfolding start_all start_worker
  start_all-shards [] h = ([], refl, refl)
  start_all-shards (w ∷ ws) (idle, h) =
      let (ws', starts, same) = start_all-shards ws h in
      (
        record w { cleaning = true; joinable = true } ∷ ws',
        rw (idle, starts) refl,
        ap (λ r. w.shard ∷ r) same,
      )

  stopped-AllIdle : (ws : List (Worker M)) → AllIdle (map join_worker (map stop_worker ws))
  stopped-AllIdle [] = tt
  stopped-AllIdle (w ∷ ws) = (refl, stopped-AllIdle ws)

  shards-stop : (ws : List (Worker M)) → shards (map join_worker (map stop_worker ws)) ≡ shards ws
  shards-stop [] = refl
  shards-stop (w ∷ ws) = ap (λ r. w.shard ∷ r) (shards-stop ws)

  -- Before the first `start` no thread runs.
  abbrev pub IsReady : ShardPool M → Type 0
  IsReady p = p.started ≡ false → AllIdle p.workers

  -- `start` of a pool that is ready ends, and changes no shard.
  abbrev pub Starts : ShardPool M → ShardPool M → Type 0
  Starts p p' =
      (start p ≡ ok p')
      × (p'.started ≡ true)
      × (p'.stopped ≡ p.stopped)
      × (shards p'.workers ≡ shards p.workers)

  pub start-Starts : (p : ShardPool M) → IsReady p → (p' : ShardPool M) × Starts p p'
  unfolding start
  start-Starts p ready = elim (Bool-cases p.started) [
    | inl on ↦ (p, (rw on refl, on, refl, refl))
    | inr off ↦
        let (ws, starts, same) = start_all-shards p.workers (ready off) in
        (record p { started = true; workers = ws }, (rw (off, starts) refl, refl, refl, same))
  ]

  stop-IsReady : (p : ShardPool M) → IsReady p → IsReady (stop p)
  unfolding stop
  stop-IsReady p ready = elim (Bool-cases p.stopped) [
    | inl on ↦ rw on ready
    | inr off ↦ rw off (λ _. stopped-AllIdle p.workers)
  ]

  replicate-AllIdle : (F : FlatMap M) (n m : ℕ) → AllIdle (replicate n (new_worker F m))
  unfolding replicate new_worker
  replicate-AllIdle F zero m = tt
  replicate-AllIdle F (suc n) m = (refl, replicate-AllIdle F n m)

  pub new_pool-IsReady :
      (F : FlatMap M) (shard_count max_memory_bytes : ℕ) (affinity : Bool)
      → IsReady (new_pool F shard_count max_memory_bytes affinity)
  unfolding new_pool
  new_pool-IsReady F shard_count max_memory_bytes affinity _ =
      replicate-AllIdle F (at_least_one shard_count) max_memory_bytes

  stop-shards : (p : ShardPool M) → shards (stop p).workers ≡ shards p.workers
  unfolding stop
  stop-shards p = elim (Bool-cases p.stopped) [
    | inl on ↦ rw on refl
    | inr off ↦ rw off (shards-stop p.workers)
  ]

  -- A pool that was stopped is down.
  IsOrderly : ShardPool M → Type 0
  IsOrderly p = p.stopped ≡ true → AllDown p.workers

  stop-IsOrderly :
      (p : ShardPool M) → IsOrderly p → ((stop p).stopped ≡ true) × AllDown (stop p).workers
  unfolding stop IsOrderly
  stop-IsOrderly p h = elim (Bool-cases p.stopped) [
    | inl on ↦ rw on (refl, h on)
    | inr off ↦ rw off (refl, stopped-AllDown p.workers)
  ]

-- No `start` comes behind a `stop`.
abbrev pub NoLateStart : Bool → List Call → Type 0
NoLateStart stopped [] = Unit
NoLateStart stopped (start_call ∷ calls) = (stopped ≡ false) × NoLateStart stopped calls
NoLateStart stopped (stop_call ∷ calls) = NoLateStart true calls

module _ {M : Type 0} where
  make_calls-destroy :
      (calls : List Call) (p : ShardPool M) (stopped : Bool)
      → p.stopped ≡ stopped
      → IsOrderly p
      → IsReady p
      → NoLateStart stopped calls
      → (p' : ShardPool M) × (make_calls calls p ≡ ok p')
        × AllDown (destroy p').workers
        × (shards (destroy p').workers ≡ shards p.workers)
  unfolding make_calls IsOrderly
  make_calls-destroy [] p stopped is h ready late = (p, refl, (stop-IsOrderly p h).1, stop-shards p)
  make_calls-destroy (start_call ∷ calls) p stopped is h ready late =
      let (p1, (starts, on, kept, same)) = start-Starts p ready in
      let (p2, runs, down, same') =
        make_calls-destroy calls p1 stopped (kept ∙ is)
          (λ at_stop. absurd (ground (arith, at_stop, kept, is, late.0)))
          (λ off. absurd (ground (arith, on, off))) late.1 in
      (p2, rw starts runs, down, same' ∙ same)
  make_calls-destroy (stop_call ∷ calls) p stopped is h ready late =
      let (on, all_down) = stop-IsOrderly p h in
      let (p', runs, down, same) =
        make_calls-destroy calls (stop p) true on (λ _. all_down) (stop-IsReady p ready) late in
      (p', runs, down, same ∙ stop-shards p)

  -- A new pool on which `start` and `stop` are called any number of times, no `start` behind a `stop`,
  -- and that is then destroyed: no call starts a thread over one that still runs, every thread is
  -- joined in the end, every work guard is released, every event loop was told to stop, and the calls
  -- changed no shard.
  pub new_pool-destroy :
      (F : FlatMap M) (shard_count max_memory_bytes : ℕ) (affinity : Bool) (calls : List Call)
      → NoLateStart false calls
      → (p : ShardPool M) × (make_calls calls (new_pool F shard_count max_memory_bytes affinity)
          ≡ ok p)
        × AllDown (destroy p).workers
        × (shards (destroy p).workers
            ≡ shards (new_pool F shard_count max_memory_bytes affinity).workers)
  unfolding new_pool IsOrderly
  new_pool-destroy F shard_count max_memory_bytes affinity calls late =
      make_calls-destroy calls (new_pool F shard_count max_memory_bytes affinity) false refl
        (λ on. absurd (ground (arith, on)))
        (new_pool-IsReady F shard_count max_memory_bytes affinity) late
