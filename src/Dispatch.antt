-- ===== src/Dispatch.antt =====
-- `CommandExecutor` of include/commandExecutor.hpp and src/commandExecutor.cpp over the pool of
-- shards. A command is a task: what it still has to do at the shards. Between two steps of a task the
-- coroutine is suspended, and other tasks may run.
pub mod Keys
pub mod Commands
pub mod Sound
pub mod Groups
pub mod Home
pub mod Deletion
pub mod Table
pub mod Counts
pub mod Progress
pub mod Places
pub mod Accepts
pub mod Single
pub mod Written
pub mod Overflows
pub mod Alone
pub mod Lookup
pub mod Forgets
pub mod Tables
pub mod Lookups
pub mod Stores
pub mod Safe
pub mod Equivalence
use tinycache.Prelude
use tinycache.Prelude.{
  ℕ, suc, ◌+◌, ltb, ◌==◌, ◌&&◌, if◌then◌else◌, Bool, true, false, List, [], ◌∷◌, ◌++◌, length,
  Option, none, some, ℤ, pos, Outcome, ok, fault, dangling, ◌>>=◌, get_elem?,
}
use tinycache.Prelude.Bytes.{Bytes, codes}
use tinycache.FlatMap.{FlatMap}
use tinycache.Resp.{RespType, RespValue, resp, number}
use tinycache.Shard
use tinycache.Shard.{LruShard, Stats}
use tinycache.Shard.Time.{TimePoint}
use tinycache.Command.{CommandType, Command}
use tinycache.Executor.{
  arg, error_answer, process_get, process_set, process_del_keys, process_expire, process_ttl,
  process_ping,
}
use tinycache.Executor.Catalog.{process_command, process_config}
use tinycache.Executor.Info.{knows_section, unsupported_section, no_stats, add_stats, info_answer}
use tinycache.Router.{get_shard_index}
use tinycache.Pool.{
  Worker, Place, local_shard, run_on_shard, at_place, is_on_shard_thread, replicate,
}

-- The commands on one key.
pub data KeyCommand : Type 0 where
  get set expire ttl : KeyCommand

-- `finished` holds the answer. `deleting` holds the groups of keys that are left with the places of
-- their shards, and the keys that were deleted. `summing` holds the next shard, and the sums so far.
pub data Task : Type 0 where
  finished : RespValue → Task
  on_key : Place → KeyCommand → List Bytes → Task
  deleting : List (Place × List Bytes) → ℕ → Task
  summing : ℕ → Stats → Task

abbrev pub integer_answer : ℕ → RespValue
integer_answer n = resp RespType.integer (number (pos n))

abbrev pub unknown_command : RespValue
unknown_command = error_answer (codes "ERR unknown command")

unfoldable pub start_info : List Bytes → Task
unfolding knows_section
start_info args = if knows_section args then summing 0 no_stats else finished unsupported_section

-- `keys_by_shard[i].push_back(key)`
unfoldable pub push_key : ℕ → Bytes → List (List Bytes) → Outcome (List (List Bytes))
push_key i key groups = elim (get_elem? groups i) [
  | none ↦ fault dangling
  | some g ↦ ok (Prelude.set groups i (g ++ key ∷ []))
]

-- The loop that groups the keys of DEL by their shards.
unfoldable pub group_keys :
    (Bytes → ℕ) → List Bytes → List (List Bytes) → Outcome (List (List Bytes))
unfolding push_key
group_keys index [] groups = ok groups
group_keys index (key ∷ keys) groups = push_key (index key) key groups >>= group_keys index keys

-- The groups from shard `i` on that hold a key, for the calls to their shards.
unfoldable pub remote_groups : ℕ → List (List Bytes) → List (Place × List Bytes)
remote_groups i [] = []
remote_groups i ([] ∷ groups) = remote_groups (suc i) groups
remote_groups i ((key ∷ keys) ∷ groups) =
    (run_on_shard i, key ∷ keys) ∷ remote_groups (suc i) groups

-- The group of the local shard comes first, and is cleared.
unfoldable pub all_groups : Option ℕ → List (List Bytes) → Outcome (List (Place × List Bytes))
unfolding remote_groups
all_groups none groups = ok (remote_groups 0 groups)
all_groups (some home) groups = elim (get_elem? groups home) [
  | none ↦ fault dangling
  | some [] ↦ ok (remote_groups 0 groups)
  | some (key ∷ keys) ↦
      ok ((local_shard home, key ∷ keys) ∷ remote_groups 0 (Prelude.set groups home []))
]

module _ {M : Type 0} (F : FlatMap M) where
  unfoldable pub process_key :
      KeyCommand
      → List Bytes
      → TimePoint
      → TimePoint
      → LruShard M
      → Outcome (LruShard M × RespValue)
  unfolding process_get process_set process_expire process_ttl
  process_key get args now later s = process_get F args now s
  process_key set args now later s = process_set F args now later s
  process_key expire args now later s = process_expire F args now s
  process_key ttl args now later s = process_ttl F args now later s

  abbrev pub read_stats : LruShard M → Outcome (LruShard M × Stats)
  read_stats s = ok (s, Shard.get_stats F s)

abbrev pub index_of : (Bytes → ℕ) → ℕ → Bytes → ℕ
index_of hash shard_count key = get_shard_index hash key shard_count

-- `is_local`: the home shard, if it can be used and is that of the key, is reached directly.
abbrev pub place_of : Option ℕ → ℕ → Place
place_of none i = run_on_shard i
place_of (some home) i = if i == home then local_shard i else run_on_shard i

module _ (hash : Bytes → ℕ) (shard_count : ℕ) where
  -- A command on one key goes to the shard of the key.
  unfoldable pub to_shard : KeyCommand → List Bytes → Option ℕ → Outcome Task
  to_shard c args home = do
    key ← arg 0 args
    ok (on_key (place_of home (index_of hash shard_count key)) c args)

  -- The switch of `execute_multi_shard`, with the home shard if it can be used.
  unfoldable pub switch_multi : CommandType → List Bytes → Option ℕ → Outcome Task
  unfolding to_shard group_keys all_groups start_info process_ping process_command process_config
  switch_multi t args home = elim t [
    | CommandType.get ↦ to_shard KeyCommand.get args home
    | CommandType.set ↦ to_shard KeyCommand.set args home
    | CommandType.del ↦ do
      groups ← group_keys (index_of hash shard_count) args (replicate shard_count [])
      calls ← all_groups home groups
      ok (deleting calls 0)
    | CommandType.expire ↦ to_shard KeyCommand.expire args home
    | CommandType.ttl ↦ to_shard KeyCommand.ttl args home
    | CommandType.info ↦ ok (start_info args)
    | CommandType.ping ↦ ok (finished (process_ping args))
    | CommandType.command ↦ ok (finished (process_command args))
    | CommandType.config ↦ do v ← process_config args; ok (finished v)
    | CommandType.unknown ↦ ok (finished unknown_command)
  ]

module _ (on_thread : ℕ → Bool) where
  -- `can_use_local` of `execute_single_shard`
  abbrev pub uses_first : Option ℕ → Bool
  uses_first none = false
  uses_first (some home) = (home == 0) && on_thread 0

  unfoldable pub execute_single_shard : CommandType → List Bytes → Option ℕ → Outcome Task
  unfolding start_info process_ping process_command process_config
  execute_single_shard t args home =
      let place = if uses_first home then local_shard 0 else run_on_shard 0 in
      elim t [
        | CommandType.get ↦ ok (on_key place KeyCommand.get args)
        | CommandType.set ↦ ok (on_key place KeyCommand.set args)
        | CommandType.del ↦ ok (deleting ((place, args) ∷ []) 0)
        | CommandType.expire ↦ ok (on_key place KeyCommand.expire args)
        | CommandType.ttl ↦ ok (on_key place KeyCommand.ttl args)
        | CommandType.info ↦ ok (start_info args)
        | CommandType.ping ↦ ok (finished (process_ping args))
        | CommandType.command ↦ ok (finished (process_command args))
        | CommandType.config ↦ do v ← process_config args; ok (finished v)
        | CommandType.unknown ↦ ok (finished unknown_command)
      ]

  -- `can_use_local` of `execute_multi_shard`, with the home shard.
  unfoldable pub local_home : ℕ → Option ℕ → Outcome (Option ℕ)
  unfolding is_on_shard_thread
  local_home shard_count none = ok none
  local_home shard_count (some home) = do
    can_use_local ← is_on_shard_thread on_thread shard_count home
    ok (if can_use_local then some home else none)

  module _ (hash : Bytes → ℕ) (shard_count : ℕ) where
    unfoldable pub execute_multi_shard : CommandType → List Bytes → Option ℕ → Outcome Task
    unfolding local_home switch_multi
    execute_multi_shard t args home =
        local_home shard_count home >>= switch_multi hash shard_count t args

    -- `execute_impl_` is chosen by the number of shards.
    unfoldable pub execute : Command → Option ℕ → Outcome Task
    unfolding execute_single_shard execute_multi_shard
    execute cmd home =
        if shard_count == 1
        then execute_single_shard cmd.type cmd.args home
        else execute_multi_shard cmd.type cmd.args home

  module _ {M : Type 0} (F : FlatMap M) where
    -- The next step of a task, with the readings of the clock that it makes.
    unfoldable pub step :
        Task → TimePoint → TimePoint → List (Worker M) → Outcome (List (Worker M) × Task)
    unfolding process_key at_place process_del_keys info_answer add_stats
    step (finished v) now later ws = ok (ws, finished v)
    step (on_key place c args) now later ws = do
      (ws', v) ← at_place on_thread place (process_key F c args now later) ws
      ok (ws', finished v)
    step (deleting [] count) now later ws = ok (ws, finished (integer_answer count))
    step (deleting ((place, keys) ∷ calls) count) now later ws = do
      (ws', n) ← at_place on_thread place (process_del_keys F keys) ws
      ok (ws', deleting calls (count + n))
    step (summing i sums) now later ws =
        if ltb i (length ws)
        then (do
          (ws', stats) ← at_place on_thread (run_on_shard i) (read_stats F) ws
          ok (ws', summing (suc i) (add_stats sums stats)))
        else ok (ws, finished (info_answer sums))
