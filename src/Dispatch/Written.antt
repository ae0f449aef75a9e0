-- ===== src/Dispatch/Written.antt =====
-- SET and GET of src/commandExecutor.cpp from different sessions.
use tinycache.Dispatch.Home.{IsHome}
use tinycache.Prelude
use tinycache.Prelude.{
  ℕ, ◌+◌, ◌<◌, ◌≤◌, ◌≡◌, refl, sym, ap, ◌∙◌, arith, Bool, false, List, [], ◌∷◌, length, Option,
  none, some, Outcome, ok, ◌>>=◌, get_elem?, get_elem?-some, get_elem?-set_self, if◌then◌else◌,
}
use tinycache.Prelude.Bytes.{Bytes, word}
use tinycache.FlatMap.{FlatMap}
use tinycache.Shard
use tinycache.Shard.{LruShard}
use tinycache.Shard.Time.{TimePoint, is_expired, deadline}
use tinycache.Shard.Laws.{get-set}
use tinycache.Pool.{Worker}
use tinycache.Router.{get_shard_index-lt}
use tinycache.Command.{CommandType}
use tinycache.Executor.{ok_answer, bulk_or_null, process_set, process_get, write}
use tinycache.Dispatch.{Task, finished, KeyCommand, index_of, process_key, execute, step}
use tinycache.Dispatch.Sound.{IsPool}
use tinycache.Dispatch.Single.{execute-step}

module _ {M : Type 0} (F : FlatMap M) where
  set-runs :
      (k v : Bytes) (now later : TimePoint) (s s' : LruShard M)
      → Shard.set F k v none later s ≡ ok s'
      → process_key F KeyCommand.set (k ∷ v ∷ []) now later s ≡ ok (s', ok_answer)
  unfolding process_key process_set write get_elem?
  set-runs k v now later s s' runs = ground (arith, runs)

  get-runs :
      (k v : Bytes) (now later : TimePoint) (s s' : LruShard M)
      → Shard.get F k now s ≡ ok (s', some v)
      → process_key F KeyCommand.get (k ∷ []) now later s ≡ ok (s', bulk_or_null (some v))
  unfolding process_key process_get get_elem?
  get-runs k v now later s s' runs = rw runs refl

  -- In a sound pool, whose limit per shard with the bytes of key and value stays below 2 ^ 64, a value
  -- that fits this limit with its key, and that a session writes with SET, is what GET of the key next
  -- answers to any session, whichever shards of the pool are their home shards, and whatever their threads.
  pub execute-get-set :
      (hash : Bytes → ℕ) (m n : ℕ) (ws : List (Worker M)) (k v : Bytes) (writer reader : ℕ → Bool)
      (home home' : Option ℕ) (now later now' later' : TimePoint)
      → 0 < n
      → IsHome n home
      → IsHome n home'
      → IsPool F m n (index_of hash n) ws
      → m + length k + length v < word
      → length k + length v ≤ m
      → (t : Task) × (ws' : List (Worker M)) × (t' : Task) × (ws'' : List (Worker M)) × (execute
            writer hash n
            (record { type = CommandType.set; args = k ∷ v ∷ [] })
            home
          ≡ ok t)
        × (step writer F t now later ws ≡ ok (ws', finished ok_answer))
        × (execute reader hash n (record { type = CommandType.get; args = k ∷ [] }) home' ≡ ok t')
        × (step reader F t' now' later' ws' ≡ ok (ws'', finished (bulk_or_null (some v))))
  unfolding deadline is_expired
  execute-get-set hash m n ws k v writer reader home home' now later now' later' positive at_home
        at_home' pool room fits =
      let i = index_of hash n k in
      let low : i < length ws = rw pool.size (get_shard_index-lt hash k n positive) in
      let (w, there) = get_elem?-some ws i low in
      let (valid, holds) = pool.sound i w there in
      let (s', s'', writes, reads) =
        get-set F valid k v none later now' {t = none} (omega (arith, holds.limit)) refl
          (omega (arith, holds.limit)) refl in
      let (t, e, runs) =
        execute-step hash writer n positive F KeyCommand.set k (v ∷ []) home now later ws w s'
          ok_answer at_home there (set-runs k v now later w.shard s' writes) in
      let w' = record w { shard = s' } in
      let (t', e', runs') =
        execute-step hash reader n positive F KeyCommand.get k [] home' now' later'
          (Prelude.set ws i w') w' s'' (bulk_or_null (some v)) at_home'
          (get_elem?-set_self ws i w' low) (get-runs k v now' later' s' s'' reads) in
      (t, Prelude.set ws i w', t', _, e, runs, e', runs')
