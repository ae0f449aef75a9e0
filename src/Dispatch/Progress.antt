-- ===== src/Dispatch/Progress.antt =====
-- The steps of a task of src/commandExecutor.cpp on a sound pool.
use tinycache.Prelude.{
  ◌≤◌, ◌<◌, ℕ, suc, ◌+◌, ◌-◌, ◌≡◌, refl, arith, ltb, Bool, Bool-cases, List, [], ◌∷◌, length, inl,
  inr, Outcome, ok,
}
use tinycache.Prelude.Bytes.{Bytes, add64}
use tinycache.FlatMap.{FlatMap}
use tinycache.Shard.{Stats}
use tinycache.Shard.Time.{TimePoint}
use tinycache.Pool.{Worker, at_place}
use tinycache.Executor.{process_del_keys}
use tinycache.Executor.Typed.{add_stats-IsStats, info_answer-IsWellTyped}
use tinycache.Resp.Emit.{IsWellTyped}
use tinycache.Executor.Info.{add_stats, info_answer}
use tinycache.Dispatch.{
  Task, finished, on_key, deleting, summing, integer_answer, process_key, step,
}
use tinycache.Dispatch.Keys.{process_del_keys-EndsSound}
use tinycache.Dispatch.Commands.{process_key-EndsSound}
use tinycache.Dispatch.Sound.{
  IsTask, IsTimely, IsPool, at_place-EndsPool, read_stats-EndsPool, IsSum, steps_left,
}

add_stats-IsSum :
    (m n i : ℕ) (sums x : Stats)
    → i < n
    → IsSum m n i sums
    → x.used_payload_bytes ≤ m
    → x.max_memory_bytes ≡ m
    → IsSum m n (suc i) (add_stats sums x)
unfolding add_stats add64
add_stats-IsSum m n i sums x h (low, used, limit, _) used' limit' =
    (omega arith, omega arith, omega arith, add_stats-IsStats sums x)

module _ {M : Type 0} (F : FlatMap M) (m n : ℕ) (index : Bytes → ℕ) (on_thread : ℕ → Bool) where
  -- The step ends without a fault, the pool and the task stay sound, one step less is left, and what
  -- is left depends on no clock.
  abbrev pub Advances : Task → Outcome (List (Worker M) × Task) → Type 0
  Advances t r =
      (ws' : List (Worker M)) × (t' : Task) × (r ≡ ok (ws', t'))
      × IsPool F m n index ws'
      × IsTask m n index on_thread t'
      × (steps_left n t' ≡ steps_left n t - 1)
      × ((now' later' : TimePoint) → IsTimely m t' now' later')

  pub step-Advances :
      (t : Task) (now later : TimePoint) {ws : List (Worker M)}
      → IsPool F m n index ws
      → IsTask m n index on_thread t
      → IsTimely m t now later
      → Advances t (step on_thread F t now later ws)
  unfolding step at_place IsWellTyped
  step-Advances (finished v) now later {ws} pool task h =
      (ws, finished v, refl, pool, task, refl, λ _ _. tt)
  step-Advances (on_key place c args) now later pool (there, shaped, own) h =
      let (ws', v, runs, pool', typed) =
        at_place-EndsPool F m n index pool IsWellTyped on_thread place
          (process_key F c args now later) there
          (λ s sound. process_key-EndsSound F m _ sound c args now later shaped own h) in
      (ws', finished v, rw runs refl, pool', typed, refl, λ _ _. tt)
  step-Advances (deleting [] count) now later {ws} pool task h =
      (ws, finished (integer_answer count), refl, pool, omega (arith, task.1), refl, λ _ _. tt)
  step-Advances (deleting ((place, keys) ∷ calls) count) now later pool ((there, own, rest), small)
        h =
      let (ws', x, runs, pool', few) =
        at_place-EndsPool F m n index pool (λ x. x ≤ length keys) on_thread place
          (process_del_keys F keys) there
          (λ s sound. process_del_keys-EndsSound F m _ sound keys own) in
      (
        ws',
        deleting calls (count + x),
        rw runs refl,
        pool',
        (rest, omega (arith, small, few)),
        omega arith,
        λ _ _. tt,
      )
  step-Advances (summing i sums) now later {ws} pool task h = elim (Bool-cases (ltb i n)) [
    | inl more ↦
        let (ws', x, runs, pool', used, limit) =
          read_stats-EndsPool F m n index pool i (ground (arith, more)) in
        (
          ws',
          summing (suc i) (add_stats sums x),
          ground (arith, pool.size, more, runs),
          pool',
          add_stats-IsSum m n i sums x (ground (arith, more)) task used limit,
          ground (arith, more),
          λ _ _. tt,
        )
    | inr done ↦ (
      ws,
      finished (info_answer sums),
      rw (pool.size, done) refl,
      pool,
      info_answer-IsWellTyped sums task.3,
      ground (arith, done),
      λ _ _. tt,
    )
  ]
