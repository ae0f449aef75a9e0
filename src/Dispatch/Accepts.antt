-- ===== src/Dispatch/Accepts.antt =====
-- The tasks that `execute` of src/commandExecutor.cpp makes of commands.
use tinycache.Dispatch.{switch_multi}
use tinycache.Dispatch.Home.{local_at, execute_multi_shard-switch_multi}
use mathlib.Core.Path.{subst}
use tinycache.Prelude.{sym, ◌∙◌}
use tinycache.Prelude.{
  ℕ, ◌<◌, ◌≤◌, ◌≡◌, refl, arith, ◌==◌, Bool, Bool-cases, List, [], ◌∷◌, length, Option, inl, inr,
  Outcome, ok, ◌>>=◌, get_elem?,
}
use tinycache.Prelude.Bytes.{Bytes}
use tinycache.Command.{CommandType, Command, spec_for, args_limit}
use tinycache.Command.Shape.{HasArity}
use tinycache.Executor.Catalog.{process_config, process_command}
use tinycache.Executor.Info.{knows_section}
use tinycache.Executor.{process_ping}
use tinycache.Executor.Typed.{
  AllSized, process_ping-IsWellTyped, process_command-IsWellTyped, process_config-IsWellTyped,
}
use tinycache.Resp.Emit.{IsWellTyped}
use tinycache.Dispatch.Counts.{execute_multi_shard-key_count}
use tinycache.Router.{get_shard_index-lt}
use tinycache.Dispatch.{
  KeyCommand, Task, finished, on_key, deleting, unknown_command, start_info, place_of, index_of,
  to_shard, execute_single_shard, execute_multi_shard, execute,
}
use tinycache.Dispatch.Keys.{IsShaped}
use tinycache.Dispatch.Sound.{IsTask}
use tinycache.Dispatch.Places.{
  type_of, key_shape, place_of-IsPlace, index-first, first-AllOwn, first_place, first_place-IsPlace,
}
use tinycache.Dispatch.Deletion.{execute_multi_shard-del}
use tinycache.Dispatch.Home.{IsHome}

module _ (m : ℕ) (hash : Bytes → ℕ) (on_thread : ℕ → Bool) (n : ℕ) (some_shard : 0 < n) where
  -- The run ends in a sound task.
  abbrev pub EndsTask : Outcome Task → Type 0
  EndsTask r = (t : Task) × (r ≡ ok t) × IsTask m n (index_of hash n) on_thread t

  start_info-IsTask : (args : List Bytes) → IsTask m n (index_of hash n) on_thread (start_info args)
  unfolding start_info
  start_info-IsTask args = elim (Bool-cases (knows_section args)) [
    | inl known ↦ rw known (
      omega arith,
      omega arith,
      omega arith,
      (omega arith, omega arith, omega arith, omega arith, omega arith),
    )
    | inr other ↦ rw other (unfold IsWellTyped in tt)
  ]

  config-EndsTask :
      (args : List Bytes)
      → HasArity CommandType.config (length args)
      → EndsTask (process_config args >>= λ v. ok (finished v))
  unfolding spec_for
  config-EndsTask [] (spec, e, low, high) = absurd (ground (arith, e))
  config-EndsTask (a ∷ []) (spec, e, low, high) = absurd (ground (arith, e))
  config-EndsTask (a ∷ b ∷ []) h =
      let (v, runs, typed) = process_config-IsWellTyped a b in (finished v, rw runs refl, typed)
  config-EndsTask (a ∷ b ∷ c ∷ args) (spec, e, low, high) = absurd (ground (arith, e))

  HasArity-le : (t : CommandType) (argc : ℕ) → HasArity t argc → argc ≤ args_limit
  unfolding spec_for
  HasArity-le CommandType.unknown argc (spec, e, low, high) = absurd (ground (arith, e))
  HasArity-le t argc (spec, e, low, high) = ground (arith, e)

  -- The commands that need no shard.
  ping-EndsTask : (args : List Bytes) → AllSized args → EndsTask (ok (finished (process_ping args)))
  ping-EndsTask args sized =
      (finished (process_ping args), refl, process_ping-IsWellTyped args sized)

  command-EndsTask :
      (args : List Bytes)
      → HasArity CommandType.command (length args)
      → EndsTask (ok (finished (process_command args)))
  command-EndsTask args h = (
    finished (process_command args),
    refl,
    process_command-IsWellTyped args
        (omega (arith, HasArity-le CommandType.command (length args) h)),
  )

  unknown-EndsTask : EndsTask (ok (finished unknown_command))
  unfolding IsWellTyped
  unknown-EndsTask = (finished unknown_command, refl, tt)

  to_shard-EndsTask :
      (c : KeyCommand) (key : Bytes) (args : List Bytes) (home : Option ℕ)
      → IsShaped c (key ∷ args)
      → EndsTask (to_shard hash n c (key ∷ args) (local_at on_thread home))
  unfolding to_shard get_elem?
  to_shard-EndsTask c key args home shaped =
      let i = index_of hash n key in
      let (there, aimed) =
        place_of-IsPlace hash on_thread n some_shard home i
          (get_shard_index-lt hash key n some_shard) in
      (
        on_key (place_of (local_at on_thread home) i) c (key ∷ args),
        refl,
        (there, shaped, ground (arith, aimed)),
      )

  switch_multi-EndsTask :
      (t : CommandType) (args : List Bytes) (home : Option ℕ)
      → HasArity t (length args)
      → AllSized args
      → IsHome n home
      → EndsTask (switch_multi hash n t args (local_at on_thread home))
  unfolding switch_multi
  switch_multi-EndsTask CommandType.get args home h sized at_home =
      let (key, more, shape, shaped) = key_shape KeyCommand.get args h in
      rw shape (to_shard-EndsTask KeyCommand.get key more home shaped)
  switch_multi-EndsTask CommandType.set args home h sized at_home =
      let (key, more, shape, shaped) = key_shape KeyCommand.set args h in
      rw shape (to_shard-EndsTask KeyCommand.set key more home shaped)
  switch_multi-EndsTask CommandType.expire args home h sized at_home =
      let (key, more, shape, shaped) = key_shape KeyCommand.expire args h in
      rw shape (to_shard-EndsTask KeyCommand.expire key more home shaped)
  switch_multi-EndsTask CommandType.ttl args home h sized at_home =
      let (key, more, shape, shaped) = key_shape KeyCommand.ttl args h in
      rw shape (to_shard-EndsTask KeyCommand.ttl key more home shaped)
  switch_multi-EndsTask CommandType.del args home h sized at_home =
      let (calls, runs, sound, takes) =
        execute_multi_shard-del hash on_thread n some_shard args home at_home in
      (
        deleting calls 0,
        sym (execute_multi_shard-switch_multi on_thread n hash CommandType.del args home at_home)
            ∙ runs,
        (
          sound,
          omega (
            arith,
            execute_multi_shard-key_count hash on_thread n args home {calls = calls} runs,
            HasArity-le CommandType.del (length args) h,
          ),
        ),
      )
  switch_multi-EndsTask CommandType.info args home h sized at_home =
      (start_info args, refl, start_info-IsTask args)
  switch_multi-EndsTask CommandType.ping args home h sized at_home = ping-EndsTask args sized
  switch_multi-EndsTask CommandType.command args home h sized at_home = command-EndsTask args h
  switch_multi-EndsTask CommandType.config args home h sized at_home = config-EndsTask args h
  switch_multi-EndsTask CommandType.unknown args home h sized at_home = unknown-EndsTask

  execute_multi_shard-EndsTask :
      (t : CommandType) (args : List Bytes) (home : Option ℕ)
      → HasArity t (length args)
      → AllSized args
      → IsHome n home
      → EndsTask (execute_multi_shard on_thread hash n t args home)
  execute_multi_shard-EndsTask t args home h sized at_home =
      subst EndsTask (sym (execute_multi_shard-switch_multi on_thread n hash t args home at_home))
        (switch_multi-EndsTask t args home h sized at_home)

  module _ (one : n ≡ 1) where
    to_first-EndsTask :
        (c : KeyCommand) (args : List Bytes) (home : Option ℕ)
        → HasArity (type_of c) (length args)
        → EndsTask (ok (on_key (first_place hash on_thread n some_shard one home) c args))
    to_first-EndsTask c args home h =
        let (key, more, shape, shaped) = key_shape c args h in
        let (there, aimed) = first_place-IsPlace hash on_thread n some_shard one home in
        (
          on_key (first_place hash on_thread n some_shard one home) c args,
          refl,
          (
            there,
            rw shape shaped,
            rw (shape, aimed, index-first hash on_thread n some_shard one key) refl,
          ),
        )

    execute_single_shard-EndsTask :
        (t : CommandType) (args : List Bytes) (home : Option ℕ)
        → HasArity t (length args)
        → AllSized args
        → EndsTask (execute_single_shard on_thread t args home)
    unfolding execute_single_shard
    execute_single_shard-EndsTask CommandType.get args home h sized =
        to_first-EndsTask KeyCommand.get args home h
    execute_single_shard-EndsTask CommandType.set args home h sized =
        to_first-EndsTask KeyCommand.set args home h
    execute_single_shard-EndsTask CommandType.expire args home h sized =
        to_first-EndsTask KeyCommand.expire args home h
    execute_single_shard-EndsTask CommandType.ttl args home h sized =
        to_first-EndsTask KeyCommand.ttl args home h
    execute_single_shard-EndsTask CommandType.del args home h sized =
        let (there, aimed) = first_place-IsPlace hash on_thread n some_shard one home in
        (
          deleting ((first_place hash on_thread n some_shard one home, args) ∷ []) 0,
          refl,
          (
            (there, rw aimed (first-AllOwn hash on_thread n some_shard one args), tt),
            omega (arith, HasArity-le CommandType.del (length args) h),
          ),
        )
    execute_single_shard-EndsTask CommandType.info args home h sized =
        (start_info args, refl, start_info-IsTask args)
    execute_single_shard-EndsTask CommandType.ping args home h sized = ping-EndsTask args sized
    execute_single_shard-EndsTask CommandType.command args home h sized = command-EndsTask args h
    execute_single_shard-EndsTask CommandType.config args home h sized = config-EndsTask args h
    execute_single_shard-EndsTask CommandType.unknown args home h sized = unknown-EndsTask

  -- A command with as many arguments as `kSpecs` allows, whose lengths are sizes, becomes a sound task.
  pub execute-EndsTask :
      (cmd : Command) (home : Option ℕ)
      → HasArity cmd.type (length cmd.args)
      → AllSized cmd.args
      → IsHome n home
      → EndsTask (execute on_thread hash n cmd home)
  unfolding execute
  execute-EndsTask cmd home h sized at_home = elim (Bool-cases (n == 1)) [
    | inl one ↦
        rw one (execute_single_shard-EndsTask (ground (arith, one)) cmd.type cmd.args home h sized)
    | inr several ↦ rw several (execute_multi_shard-EndsTask cmd.type cmd.args home h sized at_home)
  ]
