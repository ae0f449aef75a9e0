-- ===== src/Connection.antt =====
-- A connection from the bytes that it receives to the bytes that it sends (src/session.cpp,
-- src/respParser.cpp, src/command.cpp, src/commandExecutor.cpp, src/shardPool.cpp, src/lruShard.cpp,
-- src/respSerializer.cpp).
pub mod Safety
pub mod Replay
pub mod Asks
pub mod Conversation
use tinycache.Prelude.{suc, ◌>>=◌}
use tinycache.Prelude.{
  ℕ, ◌+◌, ◌<◌, ◌≤◌, ◌≡◌, refl, ◌∙◌, arith, List, [], ◌∷◌, ◌++◌, map, length, some, Outcome, ok,
}
use tinycache.Prelude.Bytes.{Bytes, codes, word, bytes_discrete}
use tinycache.FlatMap.{FlatMap}
use tinycache.Resp.{RespType, RespValue, resp, elements}
use tinycache.Resp.Parser.{max_bulk_size}
use tinycache.Resp.Emit.{emit, IsWellTyped}
use tinycache.Resp.Reading.{IsSendable}
use tinycache.Resp.Estimate.{serialize-emit}
use tinycache.Shard.Time.{TimePoint}
use tinycache.Command.{
  CommandType, Command, to_command, determine_command_type, to_uppercase, spec_for,
}
use tinycache.Command.Shape.{word_values, to_command-words}
use tinycache.Executor.{ok_answer, bulk_or_null}
use tinycache.Pool.{Worker}
use tinycache.Dispatch.{index_of}
use tinycache.Dispatch.Sound.{IsPool}
use tinycache.Dispatch.Alone.{serve, serve-step}
use tinycache.Dispatch.Written.{execute-get-set}
use tinycache.System.{on_thread_of}
use tinycache.Session.{received, Effects, reading, no_effects, write, reply, run}
use tinycache.Session.Chunks.{concat_all}
use tinycache.Session.Requests.{emit_all, AllRequests, converse}
use tinycache.Session.Answers.{run-converse}

abbrev pub request : List Bytes → RespValue
request words = resp RespType.array (elements (word_values words))

pub reply-ok :
    {S : Type 0} (execute : Command → S → Outcome (S × RespValue)) (v answer : RespValue)
    (cmd : Command) (e : Effects S) (s : S)
    → to_command v ≡ ok (some cmd)
    → execute cmd e.state ≡ ok (s, answer)
    → IsWellTyped answer
    → reply execute v e ≡ ok (record { sent = e.sent ++ emit answer ∷ []; state = s })
unfolding reply write
reply-ok execute v answer cmd e s is runs typed =
    rw is (rw runs (rw (serialize-emit answer typed) refl))

module _ {M : Type 0} (F : FlatMap M) (hash : Bytes → ℕ) (m n home : ℕ)
    (now later : TimePoint) where
  -- The commands of a session whose home shard is `home`, while no one else uses the shards.
  abbrev pub executor : Command → List (Worker M) → Outcome (List (Worker M) × RespValue)
  executor = serve F (on_thread_of home) now later hash n (some home)

-- The commands take two readings of the clock each; the state counts the commands.
abbrev pub timed :
    {W A : Type 0}
    → (TimePoint → TimePoint → Command → W → Outcome (W × A))
    → (ℕ → TimePoint × TimePoint)
    → Command
    → ℕ × W
    → Outcome ((ℕ × W) × A)
timed execute clock cmd s =
    execute (clock s.0).0 (clock s.0).1 cmd s.1 >>= λ r. ok ((suc s.0, r.0), r.1)
