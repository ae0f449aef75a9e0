-- ===== src/System.antt =====
-- The pool of shards with the sessions that use it (src/commandExecutor.cpp, src/shardPool.cpp,
-- src/expirationController.cpp) as a system of steps in any order.
pub mod Safety
pub mod Answers
pub mod Typed
use tinycache.Prelude
use tinycache.Prelude.{
  ℕ, suc, if◌then◌else◌, ◌==◌, ◌<◌, ◌≡◌, Bool, List, [], ◌∷◌, ◌++◌, length, some, ok, get_elem?,
}
use tinycache.Prelude.Bytes.{Bytes}
use tinycache.FlatMap.{FlatMap}
use tinycache.Shard.Time.{TimePoint}
use tinycache.Command.{Command}
use tinycache.Command.Shape.{HasArity}
use tinycache.Executor.Typed.{AllSized}
use tinycache.Pool.{Worker, ShardPool, new_pool, at_least_one, on_worker}
use tinycache.Expiration.{sweep}
use tinycache.Dispatch.{Task, execute, step}
use tinycache.Dispatch.Sound.{IsTimely}

-- A request of a session, whose coroutine runs on the thread of its home shard.
pub record Client : Type 0 where
  pub home : ℕ
  pub task : Task

pub record System (M : Type 0) : Type 0 where
  pub workers : List (Worker M)
  pub clients : List Client

-- The threads that a session runs on, whose coroutine is spawned at the executor of its home shard.
abbrev pub on_thread_of : ℕ → ℕ → Bool
on_thread_of home i = i == home

module _ {M : Type 0} (F : FlatMap M) (hash : Bytes → ℕ) (m n : ℕ) where
  -- A session starts a command that `toCommand` accepted, whose arguments have lengths of 64 bits, a
  -- command takes its next step, or a shard is swept.
  pub data Step : System M → System M → Type 0 where
    submitted :
        {sys : System M} {t : Task} (home : ℕ) (cmd : Command)
        → home < n
        → HasArity cmd.type (length cmd.args)
        → AllSized cmd.args
        → execute (on_thread_of home) hash n cmd (some home) ≡ ok t
        → Step sys (record sys { clients = sys.clients ++ record { home = home; task = t } ∷ [] })
    advanced :
        {sys : System M} {ws : List (Worker M)} {t : Task} (j : ℕ) (c : Client)
        (now later : TimePoint)
        → get_elem? sys.clients j ≡ some c
        → IsTimely m c.task now later
        → step (on_thread_of c.home) F c.task now later sys.workers ≡ ok (ws, t)
        → Step sys
            (record { workers = ws; clients = Prelude.set sys.clients j (record c { task = t }) })
    swept :
        {sys : System M} {ws : List (Worker M)} (i : ℕ) (now : TimePoint)
        → i < n
        → on_worker i (sweep F now) sys.workers ≡ ok (ws, tt)
        → Step sys (record sys { workers = ws })

  -- A run of the system.
  pub data Run (start : System M) : System M → Type 0 where
    here : Run start start
    then_step : {sys sys' : System M} → Run start sys → Step sys sys' → Run start sys'

  -- The steps of client `j` in a run.
  unfoldable pub steps_of : ℕ → {sys sys' : System M} → Run sys sys' → ℕ
  steps_of j here = 0
  steps_of j (then_step run (submitted home cmd low arity sized runs)) = steps_of j run
  steps_of j (then_step run (advanced i c now later there timely runs)) =
      if i == j then suc (steps_of j run) else steps_of j run
  steps_of j (then_step run (swept i now low runs)) = steps_of j run

abbrev pub new_system : {M : Type 0} → FlatMap M → ℕ → ℕ → Bool → System M
new_system F shard_count m affinity = record {
  workers = (new_pool F shard_count m affinity).workers;
  clients = [];
}
