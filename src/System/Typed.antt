-- ===== src/System/Typed.antt =====
-- The answers of the system of shards and sessions (src/commandExecutor.cpp, src/shardPool.cpp) can be
-- printed by src/respSerializer.cpp.
use mathlib.Core.Path.{subst}
use tinycache.Prelude.{ℕ, ◌<◌, ◌≡◌, Bool, some, get_elem?}
use tinycache.Prelude.Bytes.{Bytes, word}
use tinycache.FlatMap.{FlatMap}
use tinycache.Resp.{RespValue}
use tinycache.Resp.Serializer.{done, serialize}
use tinycache.Resp.Emit.{emit, IsWellTyped}
use tinycache.Resp.Estimate.{serialize-emit}
use tinycache.Pool.{at_least_one}
use tinycache.Dispatch.{finished, index_of}
use tinycache.Dispatch.Sound.{IsTask}
use tinycache.System.{Client, System, Run, on_thread_of, new_system}
use tinycache.System.Safety.{Run-IsSystem}
use tinycache.System.Answers.{new_system-IsSystem}

module _ {M : Type 0} (F : FlatMap M) (hash : Bytes → ℕ) (m shard_count : ℕ) (affinity : Bool) where
  -- In every state that a new pool of shards with a limit below 2 ^ 64 comes to, whatever order the
  -- steps of the clients and the expiration loops have, the answer of every client that has one is
  -- well-typed: its tags and variants agree, numbers are 64 bits wide and lengths are sizes. So the
  -- serializer does not throw, and writes the text of the value.
  pub Run-serialize :
      {sys : System M}
      → m < word
      → Run F hash m (at_least_one shard_count) (new_system F shard_count m affinity) sys
      → (j : ℕ) (c : Client) (v : RespValue) → get_elem? sys.clients j ≡ some c
      → c.task ≡ finished v
      → IsWellTyped v × (serialize v ≡ done (emit v))
  Run-serialize small run j c v there answered =
      let n = at_least_one shard_count in
      let sound =
        Run-IsSystem F hash m n (new_system-IsSystem F hash m shard_count affinity small) run in
      let typed =
        subst (IsTask m n (index_of hash n) (on_thread_of c.home)) answered
          (sound.tasks j c there) in
      (typed, serialize-emit v typed)
