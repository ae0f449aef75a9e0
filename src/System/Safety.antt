-- ===== src/System/Safety.antt =====
-- The system of shards and sessions (src/commandExecutor.cpp, src/shardPool.cpp) in any order of steps.
use mathlib.Core.Path.{subst}
use tinycache.Prelude
use tinycache.Prelude.{
  ℕ, zero, suc, ◌+◌, ◌-◌, ◌==◌, ◌<◌, ◌≤◌, ◌≡◌, ◌≢◌, refl, sym, ap, ◌∙◌, arith, Bool, Bool-cases,
  true, false, List, [], ◌∷◌, ◌++◌, length, Option, none, some, ok, inl, inr, Outcome, get_elem?,
  get_elem?-append, get_elem?-append_one, get_elem?-set-cases, get_elem?-set_self, get_elem?-set_ne,
  get_elem?-lt, leb, if◌then◌else◌, ◌>>=◌,
}
use tinycache.Prelude.Bytes.{Bytes, word}
use tinycache.Prelude.Keyed.{keyed}
use tinycache.FlatMap.{FlatMap}
use tinycache.Shard
use tinycache.Shard.{LruShard}
use tinycache.Shard.Time.{TimePoint}
use tinycache.Shard.Reachable.{init-IsValid}
use tinycache.Shard.Home.{remove_expired-Holds}
use tinycache.Shard.Refines.Expiration.{remove_expired_keys-Fits}
use tinycache.Pool.{Worker, new_pool, new_worker, replicate, length-replicate, at_least_one}
use tinycache.Expiration.{sweep}
use tinycache.Dispatch.{index_of}
use tinycache.Dispatch.Keys.{IsSound, EndsSound}
use tinycache.Dispatch.Sound.{mine, IsTask, IsPool, on_worker-EndsPool}
use tinycache.Dispatch.Progress.{step-Advances}
use tinycache.Dispatch.Accepts.{execute-EndsTask}
use tinycache.System.{
  Client, System, Step, submitted, advanced, swept, Run, here, then_step, on_thread_of,
}

module _ {M : Type 0} (F : FlatMap M) (m : ℕ) where
  init-IsSound : (own : Bytes → Bool) → m < word → IsSound F m own (Shard.init F m)
  unfolding Shard.init keyed
  init-IsSound own small =
      (init-IsValid F m small, record { limit = refl; home = λ j other. refl; timed = tt })

  sweep-EndsSound :
      (own : Bytes → Bool) (now : TimePoint) (s : LruShard M)
      → IsSound F m own s
      → EndsSound F m own (λ _. Unit {0}) (sweep F now s)
  unfolding sweep
  sweep-EndsSound own now s (valid, holds) =
      let (s', runs, valid', seen) = remove_expired_keys-Fits F now valid in
      (s', tt, rw runs refl, (valid', rw seen (remove_expired-Holds now holds)), tt)

  get_elem?-replicate :
      (n i : ℕ) (w : Worker M) {w' : Worker M} → get_elem? (replicate n w) i ≡ some w' → w' ≡ w
  unfolding replicate get_elem?
  get_elem?-replicate zero i w h = cc
  get_elem?-replicate (suc n) zero w h = cc
  get_elem?-replicate (suc n) (suc i) w h = get_elem?-replicate n i w h

  pub new_pool-IsPool :
      (index : Bytes → ℕ) (shard_count : ℕ) (affinity : Bool)
      → m < word
      → IsPool F m (at_least_one shard_count) index (new_pool F shard_count m affinity).workers
  unfolding new_pool new_worker
  new_pool-IsPool index shard_count affinity small = record {
    size = length-replicate (at_least_one shard_count) (new_worker F m);
    sound = λ i w there.
        subst (λ u. IsSound F m (mine index i) u.shard)
          (sym (get_elem?-replicate (at_least_one shard_count) i (new_worker F m) there))
          (init-IsSound (mine index i) small);
  }

module _ {M : Type 0} (F : FlatMap M) (hash : Bytes → ℕ) (m n : ℕ) where
  -- Every shard is valid and only holds keys of its own, and every task is sound.
  pub record IsSystem (sys : System M) : Type 0 where
    pub pool : IsPool F m n (index_of hash n) sys.workers
    pub tasks :
        (j : ℕ) (c : Client)
        → get_elem? sys.clients j ≡ some c
        → IsTask m n (index_of hash n) (on_thread_of c.home) c.task

  submitted-tasks :
      {sys : System M}
      → IsSystem sys
      → (c : Client) → IsTask m n (index_of hash n) (on_thread_of c.home) c.task
      → (j : ℕ) (d : Client) → get_elem? (sys.clients ++ c ∷ []) j ≡ some d
      → IsTask m n (index_of hash n) (on_thread_of d.home) d.task
  submitted-tasks {sys} sound c task j d there = elim (get_elem?-append_one sys.clients c j there) [
    | inl old ↦ sound.tasks j d old
    | inr is ↦ rw is task
  ]

  advanced-tasks :
      {sys : System M}
      → IsSystem sys
      → (i : ℕ) (c : Client) → IsTask m n (index_of hash n) (on_thread_of c.home) c.task
      → (j : ℕ) (d : Client) → get_elem? (Prelude.set sys.clients i c) j ≡ some d
      → IsTask m n (index_of hash n) (on_thread_of d.home) d.task
  advanced-tasks {sys} sound i c task j d there =
      elim (get_elem?-set-cases sys.clients i j c there) [
        | inl (same, is) ↦ rw is task
        | inr (other, old) ↦ sound.tasks j d old
      ]

  pub Step-IsSystem :
      {sys sys' : System M} → IsSystem sys → Step F hash m n sys sys' → IsSystem sys'
  Step-IsSystem {sys} sound (submitted {t = t} home cmd low arity sized runs) =
      let (t', runs', task) =
        execute-EndsTask m hash (on_thread_of home) n (omega arith) cmd (some home) arity sized
          low in
      let is : t' ≡ t = ground (arith, runs, runs') in
      record {
        pool = sound.pool;
        tasks = submitted-tasks sound (record { home = home; task = t }) (rw (sym is) task);
      }
  Step-IsSystem {sys} sound (advanced {ws = ws} {t = t} j c now later there timely runs) =
      let (ws', t', runs', pool, task, _, _) =
        step-Advances F m n (index_of hash n) (on_thread_of c.home) c.task now later sound.pool
          (sound.tasks j c there) timely in
      let is_pool : ws' ≡ ws = ground (arith, runs, runs') in
      let is_task : t' ≡ t = ground (arith, runs, runs') in
      record {
        pool = rw (sym is_pool) pool;
        tasks = advanced-tasks sound j (record c { task = t }) (rw (sym is_task) task);
      }
  Step-IsSystem {sys} sound (swept {ws = ws} i now low runs) =
      let (ws', _, runs', pool, _) =
        on_worker-EndsPool F m n (index_of hash n) sound.pool (λ _. Unit {0}) i (sweep F now) low
          (sweep-EndsSound F m (mine (index_of hash n) i) now) in
      let is_pool : ws' ≡ ws = ground (arith, runs, runs') in
      record { pool = rw (sym is_pool) pool; tasks = sound.tasks }

  pub Run-IsSystem : {sys sys' : System M} → IsSystem sys → Run F hash m n sys sys' → IsSystem sys'
  Run-IsSystem sound here = sound
  Run-IsSystem sound (then_step run s) = Step-IsSystem (Run-IsSystem sound run) s
