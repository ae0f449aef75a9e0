-- ===== src/Connection/Conversation.antt =====
-- Any conversation of a client that is alone on the cache (src/session.cpp, src/respParser.cpp,
-- src/command.cpp, src/commandExecutor.cpp, src/shardPool.cpp, src/lruShard.cpp,
-- src/respSerializer.cpp) against one table.
use tinycache.Connection.{timed}
use mathlib.Core.Path.{subst}
use tinycache.Command.{Command}
use tinycache.Prelude.{
  suc, Outcome, ℕ, ◌+◌, ◌<◌, ◌≡◌, refl, sym, ap, ◌∙◌, arith, List, [], ◌∷◌, ◌++◌, map, length,
  append_assoc, append-nil, some, inl, inr, ok,
}
use tinycache.Prelude.Bytes.{Bytes, word}
use tinycache.FlatMap.{FlatMap}
use tinycache.Resp.{RespValue}
use tinycache.Resp.Parser.{max_bulk_size}
use tinycache.Resp.Emit.{emit, IsWellTyped}
use tinycache.Shard.Time.{TimePoint}
use tinycache.Pool.{Worker}
use tinycache.Dispatch.{index_of}
use tinycache.Dispatch.Sound.{IsPool}
use tinycache.Dispatch.Safe.{serve-EndsOrOverflows}
use tinycache.Dispatch.Lookup.{lookup}
use tinycache.Dispatch.Forgets.{serve-del}
use tinycache.Dispatch.Lookups.{serve-get, serve-ttl}
use tinycache.Dispatch.Stores.{serve-expire, serve-set}
use tinycache.System.{on_thread_of}
use tinycache.Session.{received, Effects, reading, no_effects, run}
use tinycache.Session.Chunks.{concat_all}
use tinycache.Session.Requests.{emit_all, converse, converse-nil, converse-cons}
use tinycache.Session.Answers.{run-converse}
use tinycache.Connection.{request, executor, reply-ok}
use tinycache.Connection.Replay.{
  Ask, get_key, ttl_key, store, expire_key, delete_keys, words_of, command_of, CanAsk, AllAsk, Acts,
  Replay, nothing, asked,
}
use tinycache.Connection.Asks.{
  requests_of, ask-HasArity, ask-short, ask-command, requests-AllRequests,
}

module _ {M : Type 0} (F : FlatMap M) (hash : Bytes → ℕ) (m n home : ℕ) (now later : TimePoint)
    (inside : home < n) (low : now < word) (low' : later < word)
    (room : m + max_bulk_size + max_bulk_size < word) where
  -- A sound pool answers a question as its table does.
  abbrev ActsAs : Ask → List (Worker M) → Outcome (List (Worker M) × RespValue) → Type 0
  ActsAs a ws r =
      (ws' : List (Worker M)) × (v : RespValue) × (r ≡ ok (ws', v))
      × IsPool F m n (index_of hash n) ws'
      × Acts now later (lookup (index_of hash n) ws) a v (lookup (index_of hash n) ws')

  serve-ActsAs :
      (a : Ask) (ws : List (Worker M))
      → CanAsk m now a
      → IsPool F m n (index_of hash n) ws
      → ActsAs a ws (executor F hash m n home now later (command_of a) ws)
  serve-ActsAs (get_key k) ws h pool =
      let (ws', runs, pool', sees) =
        serve-get F hash m n (on_thread_of home) (omega (arith, inside)) now later (some home)
          inside pool k in
      (ws', _, runs, pool', (refl, sees))
  serve-ActsAs (ttl_key k) ws h pool =
      let (ws', runs, pool', sees) =
        serve-ttl F hash m n (on_thread_of home) (omega (arith, inside)) now later (some home)
          inside pool k in
      (ws', _, runs, pool', (refl, sees))
  serve-ActsAs (store k v) ws (short, fits) pool =
      let (ws', runs, pool', stored, others, _) =
        serve-set F hash m n (on_thread_of home) (omega (arith, inside)) now later (some home)
          inside pool k v (omega (arith, short.0, short.1.0, room)) fits in
      (ws', _, runs, pool', (refl, (stored, others)))
  serve-ActsAs (expire_key k count) ws (short, seconds, u, spelt, in_range, wide) pool =
      let (ws', runs, pool', sees) =
        serve-expire F hash m n (on_thread_of home) (omega (arith, inside)) now later (some home)
          inside pool k count spelt in_range wide in
      (ws', _, runs, pool', (refl, seconds, u, spelt, in_range, sees))
  serve-ActsAs (delete_keys ks) ws h pool =
      let (ws', runs, pool', sees) =
        serve-del F hash m n (on_thread_of home) (omega (arith, inside)) now later ks (some home) ws
          (ask-HasArity m now (delete_keys ks) h) inside pool in
      (ws', _, runs, pool', (refl, sees))

  -- The answer can be printed.
  answer-IsWellTyped :
      (a : Ask) (ws ws' : List (Worker M)) (v : RespValue)
      → CanAsk m now a
      → IsPool F m n (index_of hash n) ws
      → executor F hash m n home now later (command_of a) ws ≡ ok (ws', v)
      → IsWellTyped v
  answer-IsWellTyped a ws ws' v h pool runs =
      elim (serve-EndsOrOverflows F (on_thread_of home) now later low low' m max_bulk_size n room
        hash (some home) (command_of a) ws (omega (arith, inside)) (ask-HasArity m now a h)
        (ask-short m now a h) inside pool) [
          | inl (ws'', v', runs', _, typed) ↦
              let same : v' ≡ v = ground (arith, runs, runs') in subst IsWellTyped same typed
          | inr overflows ↦ absurd (ground (arith, runs, overflows))
        ]

module _ {M : Type 0} (F : FlatMap M) (hash : Bytes → ℕ) (m n home : ℕ)
    (clock : ℕ → TimePoint × TimePoint) (inside : home < n)
    (room : m + max_bulk_size + max_bulk_size < word) where
  abbrev index : Bytes → ℕ
  index = index_of hash n

  abbrev execute : Command → ℕ × List (Worker M) → Outcome ((ℕ × List (Worker M)) × RespValue)
  execute = timed (executor F hash m n home) clock

  -- The answers to the questions that come next.
  converse-Replay :
      (asks : List Ask) (e : Effects (ℕ × List (Worker M)))
      → AllAsk m clock e.state.0 asks
      → IsPool F m n index e.state.1
      → (vs : List RespValue) × (s : ℕ × List (Worker M)) × (converse execute (requests_of asks) e
          ≡ ok (record { sent = e.sent ++ map emit vs; state = s }))
        × IsPool F m n index s.1
        × Replay clock e.state.0 (lookup index e.state.1) asks vs (lookup index s.1)
  converse-Replay [] e h pool = (
    [],
    e.state,
    converse-nil execute e ∙ ap (λ s. ok (record e { sent = s })) (sym (append-nil e.sent)),
    pool,
    nothing,
  )
  converse-Replay (a ∷ asks) e (low, low', can, rest) pool =
      let (now, later) = clock e.state.0 in
      let (ws1, v, runs, pool1, acts) =
        serve-ActsAs F hash m n home now later inside low low' room a e.state.1 can pool in
      let typed =
        answer-IsWellTyped F hash m n home now later inside low low' room a e.state.1 ws1 v can pool
          runs in
      let replied =
        reply-ok execute (request (words_of a)) v (command_of a) e (suc e.state.0, ws1)
          (ask-command m now a can) (rw runs refl) typed in
      let e1 : Effects (ℕ × List (Worker M)) = record {
        sent = e.sent ++ emit v ∷ [];
        state = (suc e.state.0, ws1);
      } in
      let (vs, s2, runs', pool2, replay) = converse-Replay asks e1 rest pool1 in
      (
        v ∷ vs,
        s2,
        converse-cons execute (request (words_of a)) (requests_of asks) e
            ∙ rw replied (
                runs'
                ∙ ap (λ s. ok (record { sent = s; state = s2 }))
                    (append_assoc e.sent (emit v ∷ []) (map emit vs))),
        pool2,
        asked acts replay,
      )

  -- A client alone on a sound pool, one shard of which is its home shard, asks GET, TTL, SET, EXPIRE and
  -- DEL in any number and order, as arrays of bulk strings that are cut into any pieces and together stay
  -- below the limit of the session; each command takes two readings of the clock, of 64 bits, and no
  -- sweep runs meanwhile. The words are no longer than the parser allows, each value fits the limit of a
  -- shard with its key, that limit with twice the parser's stays below 2 ^ 64, each deadline is a time
  -- point of 64 bits, and each DEL names 1 to 10 keys. Then what the session writes are the answers that
  -- one table gives to the questions in their order, whichever shards the keys lie on, where a SET may
  -- also evict other keys from the table; the session then waits for more, and the pool is sound and
  -- shows the table that the questions lead to.
  pub run-Replay :
      (limit : ℕ) (asks : List Ask) (chunks : List Bytes) (ws : List (Worker M))
      → AllAsk m clock 0 asks
      → IsPool F m n (index_of hash n) ws
      → concat_all chunks ≡ emit_all (requests_of asks)
      → length (emit_all (requests_of asks)) < limit
      → (vs : List RespValue) × (s : ℕ × List (Worker M)) × (run
            (timed (executor F hash m n home) clock)
            limit
            (map received chunks)
            []
            (no_effects (0, ws))
          ≡ ok (reading [] (record { sent = map emit vs; state = s })))
        × IsPool F m n (index_of hash n) s.1
        × Replay clock 0 (lookup (index_of hash n) ws) asks vs (lookup (index_of hash n) s.1)
  run-Replay limit asks chunks ws h pool same short =
      let (vs, s, runs, pool', replay) = converse-Replay asks (no_effects (0, ws)) h pool in
      (
        vs,
        s,
        run-converse execute limit (requests_of asks) chunks (no_effects (0, ws))
              (requests-AllRequests m clock 0 asks h) same short
            ∙ rw runs refl,
        pool',
        replay,
      )
