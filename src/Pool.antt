-- ===== src/Pool.antt =====
-- include/shardPool.hpp and src/shardPool.cpp: the workers, each with the shard that only its thread
-- touches. `run_on_shard` runs a function on the worker's thread to its end, so it is one step.
pub mod Lifecycle
pub mod Pinning
use tinycache.Prelude.{
  ℕ, zero, suc, ◌≡◌, refl, ap, Bool, true, false, leb, ltb, if◌then◌else◌, List, [], ◌∷◌, map,
  length, get_elem?, set, Option, none, some, Outcome, ok, fault, dangling, wrong_thread,
  terminated, ◌>>=◌,
}
use tinycache.FlatMap.{FlatMap}
use tinycache.Shard
use tinycache.Shard.{LruShard}

-- `guarded`: the work guard is held. `io_stopped`: the event loop was told to stop. `cleaning`: the
-- expiration loop was spawned. `joinable`: a thread was started and not joined.
pub record Worker (M : Type 0) : Type 0 where
  pub shard : LruShard M
  pub guarded : Bool
  pub io_stopped : Bool
  pub cleaning : Bool
  pub joinable : Bool

pub record ShardPool (M : Type 0) : Type 0 where
  pub workers : List (Worker M)
  pub thread_affinity_enabled : Bool
  pub started : Bool
  pub stopped : Bool

-- What a coroutine holds to reach a shard: the reference that `local_shard` gives on the shard's own
-- thread, or the call that `run_on_shard` posts to it.
pub data Place : Type 0 where
  local_shard run_on_shard : ℕ → Place

unfoldable pub replicate {ℓ} : {A : Type ℓ} → ℕ → A → List A
replicate zero a = []
replicate (suc n) a = a ∷ replicate n a

pub length-replicate {ℓ} : {A : Type ℓ} (n : ℕ) (a : A) → length (replicate n a) ≡ n
unfolding replicate
length-replicate zero a = refl
length-replicate (suc n) a = ap suc (length-replicate n a)

-- `std::max<std::size_t>(1, shard_count)`
abbrev pub at_least_one : ℕ → ℕ
at_least_one n = if leb n 1 then 1 else n

-- `on_thread i` tells whether the caller runs on the thread of worker `i`. An index outside the pool is
-- an assertion in the code.
unfoldable pub is_on_shard_thread : (ℕ → Bool) → ℕ → ℕ → Outcome Bool
is_on_shard_thread on_thread size i = if ltb i size then ok (on_thread i) else fault dangling

module _ {M : Type 0} where
  unfoldable pub new_worker : FlatMap M → ℕ → Worker M
  new_worker F max_memory_bytes = record {
    shard = Shard.init F max_memory_bytes;
    guarded = true;
    io_stopped = false;
    cleaning = false;
    joinable = false;
  }

  unfoldable pub new_pool : FlatMap M → ℕ → ℕ → Bool → ShardPool M
  unfolding new_worker replicate
  new_pool F shard_count max_memory_bytes affinity = record {
    workers = replicate (at_least_one shard_count) (new_worker F max_memory_bytes);
    thread_affinity_enabled = affinity;
    started = false;
    stopped = false;
  }

  -- To assign a thread over one that is joinable terminates the program.
  unfoldable pub start_worker : Worker M → Outcome (Worker M)
  start_worker w =
      if w.joinable then fault terminated else ok (record w { cleaning = true; joinable = true })

  unfoldable pub start_all : List (Worker M) → Outcome (List (Worker M))
  unfolding start_worker
  start_all [] = ok []
  start_all (w ∷ ws) = do w' ← start_worker w; ws' ← start_all ws; ok (w' ∷ ws')

  abbrev pub stop_worker : Worker M → Worker M
  stop_worker w = record w { guarded = false; io_stopped = true }

  abbrev pub join_worker : Worker M → Worker M
  join_worker w = record w { joinable = false }

  unfoldable pub start : ShardPool M → Outcome (ShardPool M)
  unfolding start_all
  start p =
      if p.started
      then ok p
      else (do ws ← start_all p.workers; ok (record p { started = true; workers = ws }))

  unfoldable pub stop : ShardPool M → ShardPool M
  stop p =
      if p.stopped
      then p
      else record p { stopped = true; workers = map join_worker (map stop_worker p.workers) }

  -- `f` on the shard of worker `i`; an index outside the pool is an assertion in the code.
  unfoldable pub on_worker :
      {R : Type 0}
      → ℕ
      → (LruShard M → Outcome (LruShard M × R))
      → List (Worker M)
      → Outcome (List (Worker M) × R)
  on_worker i f ws = elim (get_elem? ws i) [
    | none ↦ fault dangling
    | some w ↦ do (s, r) ← f w.shard; ok (set ws i (record w { shard = s }), r)
  ]

  -- `on_thread i` tells whether the caller runs on the thread of worker `i`.
  unfoldable pub at_place :
      {R : Type 0}
      → (ℕ → Bool)
      → Place
      → (LruShard M → Outcome (LruShard M × R))
      → List (Worker M)
      → Outcome (List (Worker M) × R)
  unfolding on_worker
  at_place on_thread (local_shard i) f ws =
      if on_thread i then on_worker i f ws else fault wrong_thread
  at_place on_thread (run_on_shard i) f ws = on_worker i f ws
