-- ===== src/Tests/Conversations.antt =====
-- Conversations and commands on a pool of two empty shards, seen as one table (src/session.cpp,
-- src/commandExecutor.cpp).
use tinycache.Dispatch.Tables.{Leaves}
use tinycache.Dispatch.Lookups.{look_at, serve-get}
use tinycache.Shard.Seen.{value_of, is_there}
use tinycache.Executor.{bulk_or_null}
use tinycache.Shard.Time.{add_seconds}
use tinycache.Executor.Numbers.{stoull, skip_space, unsigned_part, read_digits}
use tinycache.Prelude.{
  ◌+◌, ◌*◌, ℕ, ◌<◌, ◌≡◌, ◌≢◌, ◌⊎◌, refl, arith, List, [], ◌∷◌, map, length, none, some, ok, Bool,
}
use tinycache.Shard.Time.{TimePoint}
use tinycache.Connection.{timed}
use tinycache.Prelude.Bytes.{Bytes, codes}
use tinycache.FlatMap.Assoc.{assoc_map, Entries}
use tinycache.Resp.{RespValue}
use tinycache.Resp.Emit.{emit}
use tinycache.Resp.Decimal.{format, digits}
use tinycache.Command.{CommandType}
use tinycache.Executor.{ok_answer}
use tinycache.Pool.{Worker}
use tinycache.Dispatch.{index_of, integer_answer}
use tinycache.Dispatch.Sound.{IsPool}
use tinycache.Dispatch.Alone.{serve}
use tinycache.Dispatch.Table.{removed, forget_all}
use tinycache.Dispatch.Lookup.{lookup}
use tinycache.Dispatch.Forgets.{serve-del}
use tinycache.Dispatch.Stores.{serve-set, serve-expire, set_deadline, integer}
use tinycache.System.{on_thread_of}
use tinycache.Session.{received, reading, no_effects, run}
use tinycache.Session.Chunks.{concat_all}
use tinycache.Session.Requests.{emit_all}
use tinycache.Connection.{executor, timed}
use tinycache.Connection.Replay.{Ask, get_key, store, delete_keys, AllAsk, Replay}
use tinycache.Connection.Asks.{requests_of}
use tinycache.Connection.Conversation.{run-Replay}
use tinycache.Tests.Shards.{now, due}
use tinycache.Tests.Systems.{hash, start_state, start-IsPool}
use tinycache.Tests.Connections.{del_both, del_both-HasArity}

-- SET a, GET a, DEL a and a key of the other shard, GET a.
abbrev asks : List Ask
asks =
    store (codes "a") (codes "12")
    ∷ get_key (codes "a")
    ∷ delete_keys (codes "a" ∷ codes "bb" ∷ [])
    ∷ get_key (codes "a")
    ∷ []

abbrev pieces : List Bytes
pieces = emit_all (requests_of asks) ∷ []

-- A clock that goes on by a second from one command to the next.
abbrev ticks : ℕ → TimePoint × TimePoint
ticks i = (now + i * 1000000000, now + i * 1000000000 + 7)

asks-AllAsk : AllAsk 6 ticks 0 asks
asks-AllAsk = (
  omega arith,
  omega arith,
  ((omega arith, (omega arith, tt)), omega arith),
  (
    omega arith,
    omega arith,
    (omega arith, tt),
    (
      omega arith,
      omega arith,
      ((omega arith, (omega arith, tt)), omega arith, omega arith),
      (omega arith, omega arith, (omega arith, tt), tt),
    ),
  ),
)

pieces_text : concat_all pieces ≡ emit_all (requests_of asks)
unfolding emit format digits
pieces_text = refl

asks-length : length (emit_all (requests_of asks)) < 1024
unfolding emit format digits
asks-length = omega arith

abbrev on_home : ℕ → Bool
on_home = on_thread_of 0

abbrev start_workers : List (Worker Entries)
start_workers = start_state.workers

run-Replay_example :
    (vs : List RespValue) × (s : ℕ × List (Worker Entries)) × (run
        (timed (executor assoc_map hash 6 2 0) ticks)
        1024
        (map received pieces)
        []
        (no_effects (0, start_workers))
      ≡ ok (reading [] (record { sent = map emit vs; state = s })))
    × IsPool assoc_map 6 2 (index_of hash 2) s.1
    × Replay ticks 0 (lookup (index_of hash 2) start_workers) asks vs (lookup (index_of hash 2) s.1)
run-Replay_example =
    run-Replay assoc_map hash 6 2 0 ticks (omega arith) (omega arith) 1024 asks pieces start_workers
      asks-AllAsk start-IsPool pieces_text asks-length

serve-del_example :
    (ws : List (Worker Entries)) × (serve assoc_map on_home now due hash 2
        (some 0)
        del_both
        start_workers
      ≡ ok (ws, integer_answer (removed del_both.args (lookup (index_of hash 2) start_workers))))
    × IsPool assoc_map 6 2 (index_of hash 2) ws
    × (lookup (index_of hash 2) ws
        ≡ forget_all del_both.args (lookup (index_of hash 2) start_workers))
serve-del_example =
    serve-del assoc_map hash 6 2 on_home (omega arith) now due (codes "a" ∷ codes "bb" ∷ [])
      (some 0) start_workers del_both-HasArity (omega arith) start-IsPool

serve-set_example :
    (ws : List (Worker Entries)) × (serve assoc_map on_home now due hash 2
        (some 0)
        (record { type = CommandType.set; args = codes "a" ∷ codes "12" ∷ [] })
        start_workers
      ≡ ok (ws, ok_answer))
    × IsPool assoc_map 6 2 (index_of hash 2) ws
    × (lookup (index_of hash 2) ws (codes "a")
        ≡ some (record { key = codes "a"; value = codes "12"; expire_at = none }))
    × ((j : Bytes)
        → codes "a" ≢ j
        → (lookup (index_of hash 2) ws j ≡ lookup (index_of hash 2) start_workers j)
          ⊎ (lookup (index_of hash 2) ws j ≡ none))
    × ((j : Bytes)
        → index_of hash 2 (codes "a") ≢ index_of hash 2 j
        → lookup (index_of hash 2) ws j ≡ lookup (index_of hash 2) start_workers j)
serve-set_example =
    serve-set assoc_map hash 6 2 on_home (omega arith) now due (some 0) (omega arith) start-IsPool
      (codes "a") (codes "12") (omega arith) (omega arith)

serve-get_example :
    Leaves assoc_map hash 6 2 on_home
      (omega arith)
      now
      due
      (some 0)
      (omega arith)
      start-IsPool
      (record { type = CommandType.get; args = codes "a" ∷ [] })
      (look_at (codes "a") now (lookup (index_of hash 2) start_workers))
      (bulk_or_null (value_of (lookup (index_of hash 2) start_workers (codes "a")) now))
serve-get_example =
    serve-get assoc_map hash 6 2 on_home (omega arith) now due (some 0) (omega arith) start-IsPool
      (codes "a")

three_seconds : stoull (codes "3") ≡ some 3
unfolding stoull skip_space unsigned_part read_digits
three_seconds = refl

due_in_range : add_seconds now 3 ≡ ok due
unfolding add_seconds
due_in_range = refl

serve-expire_example :
    Leaves assoc_map hash 6 2 on_home
      (omega arith)
      now
      due
      (some 0)
      (omega arith)
      start-IsPool
      (record { type = CommandType.expire; args = codes "a" ∷ codes "3" ∷ [] })
      (set_deadline (codes "a") due (lookup (index_of hash 2) start_workers))
      (integer (is_there (lookup (index_of hash 2) start_workers (codes "a"))))
serve-expire_example =
    serve-expire assoc_map hash 6 2 on_home (omega arith) now due (some 0) (omega arith)
      start-IsPool (codes "a") (codes "3") three_seconds due_in_range (omega arith)
