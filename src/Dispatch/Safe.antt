-- ===== src/Dispatch/Safe.antt =====
-- A command of src/commandExecutor.cpp while no one else uses the shards, with no assumption on its
-- deadline.
use mathlib.Core.Path.{subst}
use tinycache.Prelude.{
  ℕ, suc, ◌+◌, ◌-◌, ◌<◌, ◌≡◌, ◌⊎◌, refl, arith, Bool, Bool-cases, List, [], ◌∷◌, length, Option,
  inl, inr, Outcome, ok, fault, overflow, ◌>>=◌, ◌==◌, get_elem?, get_elem?-some,
}
use tinycache.Prelude.Bytes.{Bytes, word}
use tinycache.FlatMap.{FlatMap}
use tinycache.Resp.{RespValue}
use tinycache.Resp.Emit.{IsWellTyped}
use tinycache.Shard.Time.{TimePoint}
use tinycache.Command.{CommandType, Command}
use tinycache.Command.Shape.{HasArity}
use tinycache.Executor.Info.{knows_section}
use tinycache.Executor.Catalog.{process_config}
use tinycache.Executor.Typed.{AllShort, AllShort-AllSized}
use tinycache.Pool.{Worker, on_worker}
use tinycache.Dispatch.{
  KeyCommand, Task, finished, on_key, deleting, summing, index_of, start_info, to_shard,
  process_key, execute_single_shard, execute_multi_shard, execute, step, group_keys, all_groups,
  local_home, switch_multi,
}
use tinycache.Dispatch.Sound.{
  IsTask, IsPool, EndsPool, steps_left, target, at_worker-EndsPool, at_place-target,
}
use tinycache.Dispatch.Home.{IsHome}
use tinycache.Dispatch.Accepts.{execute-EndsTask}
use tinycache.Dispatch.Overflows.{IsRoomy, process_key-Overflows}
use tinycache.Dispatch.Alone.{finish, finish-ok, serve}

-- A task on one key whose arguments are at most `b` bytes long.
abbrev IsShortTask : ℕ → Task → Type 0
IsShortTask b (on_key place c args) = AllShort b args
IsShortTask b _ = Unit

-- The outcome, if there is one, is such a task.
abbrev MakesShort : ℕ → Outcome Task → Type 0
MakesShort b (fault problem) = Unit
MakesShort b (ok t) = IsShortTask b t

start_info-short : (b : ℕ) (args : List Bytes) → IsShortTask b (start_info args)
unfolding start_info
start_info-short b args = elim (Bool-cases (knows_section args)) [
  | inl known ↦ rw (known, start_info) tt
  | inr other ↦ rw (other, start_info) tt
]

then-short :
    {R : Type 0} (b : ℕ) (run : Outcome R) (next : R → Outcome Task)
    → ((r : R) → MakesShort b (next r))
    → MakesShort b (run >>= next)
then-short b (fault problem) next h = tt
then-short b (ok r) next h = h r

module _ (on_thread : ℕ → Bool) (b : ℕ) where
  execute_single_shard-short :
      (t : CommandType) (args : List Bytes) (home : Option ℕ)
      → AllShort b args
      → MakesShort b (execute_single_shard on_thread t args home)
  unfolding execute_single_shard
  execute_single_shard-short CommandType.get args home h = h
  execute_single_shard-short CommandType.set args home h = h
  execute_single_shard-short CommandType.expire args home h = h
  execute_single_shard-short CommandType.ttl args home h = h
  execute_single_shard-short CommandType.del args home h = tt
  execute_single_shard-short CommandType.info args home h = start_info-short b args
  execute_single_shard-short CommandType.ping args home h = tt
  execute_single_shard-short CommandType.command args home h = tt
  execute_single_shard-short CommandType.config args home h =
      then-short b (process_config args) _ (λ v. tt)
  execute_single_shard-short CommandType.unknown args home h = tt

  module _ (hash : Bytes → ℕ) (n : ℕ) where
    to_shard-short :
        (c : KeyCommand) (args : List Bytes) (home : Option ℕ)
        → AllShort b args
        → MakesShort b (to_shard hash n c args home)
    unfolding to_shard get_elem?
    to_shard-short c [] home h = tt
    to_shard-short c (key ∷ args) home h = h

    switch_multi-short :
        (t : CommandType) (args : List Bytes) (home : Option ℕ)
        → AllShort b args
        → MakesShort b (switch_multi hash n t args home)
    unfolding switch_multi
    switch_multi-short CommandType.get args home h = to_shard-short KeyCommand.get args home h
    switch_multi-short CommandType.set args home h = to_shard-short KeyCommand.set args home h
    switch_multi-short CommandType.expire args home h = to_shard-short KeyCommand.expire args home h
    switch_multi-short CommandType.ttl args home h = to_shard-short KeyCommand.ttl args home h
    switch_multi-short CommandType.del args home h =
        then-short b (group_keys (index_of hash n) args _) _
          (λ groups. then-short b (all_groups home groups) _ (λ calls. tt))
    switch_multi-short CommandType.info args home h = start_info-short b args
    switch_multi-short CommandType.ping args home h = tt
    switch_multi-short CommandType.command args home h = tt
    switch_multi-short CommandType.config args home h =
        then-short b (process_config args) _ (λ v. tt)
    switch_multi-short CommandType.unknown args home h = tt

    execute_multi_shard-short :
        (t : CommandType) (args : List Bytes) (home : Option ℕ)
        → AllShort b args
        → MakesShort b (execute_multi_shard on_thread hash n t args home)
    unfolding execute_multi_shard
    execute_multi_shard-short t args home h =
        then-short b (local_home on_thread n home) _ (λ home'. switch_multi-short t args home' h)

    execute-short :
        (cmd : Command) (home : Option ℕ)
        → AllShort b cmd.args
        → MakesShort b (execute on_thread hash n cmd home)
    unfolding execute
    execute-short cmd home h = elim (Bool-cases (n == 1)) [
      | inl one ↦ rw one (execute_single_shard-short cmd.type cmd.args home h)
      | inr several ↦ rw several (execute_multi_shard-short cmd.type cmd.args home h)
    ]

AllShort-IsRoomy :
    (m b : ℕ) (c : KeyCommand) (args : List Bytes)
    → m + b + b < word
    → AllShort b args
    → IsRoomy m c args
AllShort-IsRoomy m b KeyCommand.set (k ∷ v ∷ more) room h = omega (arith, room, h.0, h.1.0)
AllShort-IsRoomy m b KeyCommand.set (k ∷ []) room h = tt
AllShort-IsRoomy m b KeyCommand.set [] room h = tt
AllShort-IsRoomy m b c args room h = tt

module _ {M : Type 0} (F : FlatMap M) (on_thread : ℕ → Bool) (now later : TimePoint)
    (low : now < word) (low' : later < word) (m b n : ℕ) (room : m + b + b < word) where
  module _ (index : Bytes → ℕ) where
    -- The run ends in a sound pool with a well-typed answer, or a deadline overflows.
    abbrev pub EndsOrOverflows : Outcome (List (Worker M) × RespValue) → Type 0
    EndsOrOverflows r = EndsPool F m n index IsWellTyped r ⊎ (r ≡ fault overflow)

    finish-EndsOrOverflows :
        (t : Task) (ws : List (Worker M))
        → IsPool F m n index ws
        → IsTask m n index on_thread t
        → IsShortTask b t
        → EndsOrOverflows (finish F on_thread now later (steps_left n t) t ws)
    unfolding finish step on_worker
    finish-EndsOrOverflows (finished v) ws pool task short = inl (ws, v, refl, pool, task)
    finish-EndsOrOverflows (deleting calls count) ws pool task short = inl (
        finish-ok F on_thread now later m n index (suc (length calls)) (deleting calls count) ws
          pool task tt refl)
    finish-EndsOrOverflows (summing i sums) ws pool task short = inl (
        finish-ok F on_thread now later m n index (suc (n - i)) (summing i sums) ws pool task tt
          refl)
    finish-EndsOrOverflows (on_key place c args) ws pool ((inside, here), shaped, own) short =
        let i = target place in
        let f = process_key F c args now later in
        let (w, there) = get_elem?-some ws i (rw pool.size inside) in
        let sound = pool.sound i w there in
        let at = at_place-target on_thread place f ws here in
        elim (process_key-Overflows F m _ sound c args now later shaped own
          (AllShort-IsRoomy m b c args room short) low low') [
            | inl ends ↦
                let (ws', v, runs, pool', typed) =
                  at_worker-EndsPool F m n index pool IsWellTyped i w f inside there ends in
                inl (ws', v, rw at (rw runs refl), pool', typed)
            | inr overflows ↦ inr (rw at (ground (arith, there, overflows)))
          ]

  -- In a sound pool of shards whose limit, with twice the greatest length of an argument, stays below
  -- 2 ^ 64, every accepted command comes to a well-typed answer and leaves the pool sound, unless its
  -- deadline overflows: there is no other fault.
  pub serve-EndsOrOverflows :
      (hash : Bytes → ℕ) (home : Option ℕ) (cmd : Command) (ws : List (Worker M))
      → 0 < n
      → HasArity cmd.type (length cmd.args)
      → AllShort b cmd.args
      → IsHome n home
      → IsPool F m n (index_of hash n) ws
      → EndsOrOverflows (index_of hash n) (serve F on_thread now later hash n home cmd ws)
  unfolding serve
  serve-EndsOrOverflows hash home cmd ws positive arity short at_home pool =
      let (t, starts, task) =
        execute-EndsTask m hash on_thread n positive cmd home arity
          (AllShort-AllSized b cmd.args (omega (arith, room)) short) at_home in
      let t_short = subst (MakesShort b) starts (execute-short on_thread b hash n cmd home short) in
      rw starts (finish-EndsOrOverflows (index_of hash n) t ws pool task t_short)
