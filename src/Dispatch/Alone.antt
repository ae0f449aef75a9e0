-- ===== src/Dispatch/Alone.antt =====
-- A command of src/commandExecutor.cpp from its start to its answer, while no one else uses the shards.
use mathlib.Core.Path.{subst}
use tinycache.Prelude.{
  ℕ, zero, suc, ◌<◌, ◌≡◌, refl, ◌∙◌, arith, Bool, List, length, Option, Outcome, ok, fault,
  out_of_fuel, ◌>>=◌,
}
use tinycache.Prelude.Bytes.{Bytes}
use tinycache.FlatMap.{FlatMap}
use tinycache.Resp.{RespValue}
use tinycache.Shard.Time.{TimePoint}
use tinycache.Command.{Command}
use tinycache.Command.Shape.{HasArity}
use tinycache.Pool.{Worker}
use tinycache.Dispatch.{Task, finished, on_key, deleting, summing, index_of, execute, step}
use tinycache.Dispatch.Sound.{IsTask, IsTimely, IsPool, no_steps_left, steps_left, EndsPool}
use tinycache.Resp.Emit.{IsWellTyped}
use tinycache.Executor.Typed.{AllSized}
use tinycache.Dispatch.Home.{IsHome}
use tinycache.Dispatch.Accepts.{execute-EndsTask}
use tinycache.Dispatch.Progress.{step-Advances}

module _ {M : Type 0} (F : FlatMap M) (on_thread : ℕ → Bool) (now later : TimePoint) where
  -- The steps that are left of a task, with its two readings of the clock: the one step of a command on
  -- one key may read it twice, and the steps of DEL and INFO do not read it.
  unfoldable pub finish : ℕ → Task → List (Worker M) → Outcome (List (Worker M) × RespValue)
  unfolding step
  finish f (finished v) ws = ok (ws, v)
  finish zero t ws = fault out_of_fuel
  finish (suc f) t ws = do (ws', t') ← step on_thread F t now later ws; finish f t' ws'

  -- A command on a pool of `n` shards, with as many steps as its task has.
  unfoldable pub serve :
      (Bytes → ℕ) → ℕ → Option ℕ → Command → List (Worker M) → Outcome (List (Worker M) × RespValue)
  unfolding execute
  serve hash n home cmd ws = do t ← execute on_thread hash n cmd home; finish (steps_left n t) t ws

  finish-suc :
      (f n : ℕ) (t : Task) (ws : List (Worker M))
      → steps_left n t ≡ suc f
      → finish (suc f) t ws ≡ (step on_thread F t now later ws >>= λ r. finish f r.1 r.0)
  unfolding finish
  finish-suc f n (finished v) ws h = absurd (omega arith)
  finish-suc f n (on_key place c args) ws h = refl
  finish-suc f n (deleting calls count) ws h = refl
  finish-suc f n (summing i sums) ws h = refl

  module _ (m n : ℕ) (index : Bytes → ℕ) where
    -- The steps that a task has left are fuel enough.
    pub finish-ok :
        (f : ℕ) (t : Task) (ws : List (Worker M))
        → IsPool F m n index ws
        → IsTask m n index on_thread t
        → IsTimely m t now later
        → steps_left n t ≡ f
        → EndsPool F m n index IsWellTyped (finish f t ws)
    unfolding finish
    finish-ok zero t ws pool task timely h =
        let (v, done) = no_steps_left n t h in
        (ws, v, rw done refl, pool, subst (IsTask m n index on_thread) done task)
    finish-ok (suc f) t ws pool task timely h =
        let (ws', t', runs, pool', task', less, timely') =
          step-Advances F m n index on_thread t now later pool task timely in
        let (ws'', v, rest, pool'', typed) =
          finish-ok f t' ws' pool' task' (timely' now later) (omega (arith, less, h)) in
        (ws'', v, finish-suc f n t ws h ∙ rw (runs, rest) refl, pool'', typed)

  finish-step :
      (n : ℕ) (t : Task) (ws ws' : List (Worker M)) (v : RespValue)
      → step on_thread F t now later ws ≡ ok (ws', finished v)
      → finish (steps_left n t) t ws ≡ ok (ws', v)
  unfolding finish step
  finish-step n (finished u) ws ws' v h = ground (arith, h)
  finish-step n (on_key place c args) ws ws' v h = rw h refl
  finish-step n (deleting calls count) ws ws' v h = rw h refl
  finish-step n (summing i sums) ws ws' v h = rw h refl

  pub serve-step :
      (hash : Bytes → ℕ) (n : ℕ) (home : Option ℕ) (cmd : Command) (t : Task)
      (ws ws' : List (Worker M)) (v : RespValue)
      → execute on_thread hash n cmd home ≡ ok t
      → step on_thread F t now later ws ≡ ok (ws', finished v)
      → serve hash n home cmd ws ≡ ok (ws', v)
  unfolding serve
  serve-step hash n home cmd t ws ws' v starts h = rw starts (finish-step n t ws ws' v h)

  -- With any accepted command whose sizes and deadline are in range, whatever its two readings of the
  -- clock, and a home shard of the pool, if there is one, a sound pool comes to an answer, without a fault, and stays sound. The answer is well-typed.
  pub serve-ok :
      (m n : ℕ) (hash : Bytes → ℕ) (home : Option ℕ) (cmd : Command) (ws : List (Worker M))
      → 0 < n
      → HasArity cmd.type (length cmd.args)
      → AllSized cmd.args
      → IsHome n home
      → IsPool F m n (index_of hash n) ws
      → ((t : Task) → execute on_thread hash n cmd home ≡ ok t → IsTimely m t now later)
      → (ws' : List (Worker M)) × (v : RespValue) × (serve hash n home cmd ws ≡ ok (ws', v))
        × IsPool F m n (index_of hash n) ws'
        × IsWellTyped v
  unfolding serve
  serve-ok m n hash home cmd ws positive arity sized at_home pool timely =
      let (t, runs, task) =
        execute-EndsTask m hash on_thread n positive cmd home arity sized at_home in
      let (ws', v, ends, pool', typed) =
        finish-ok m n (index_of hash n) (steps_left n t) t ws pool task (timely t runs) refl in
      (ws', v, rw runs ends, pool', typed)
