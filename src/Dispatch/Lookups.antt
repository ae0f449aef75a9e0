-- ===== src/Dispatch/Lookups.antt =====
-- GET and TTL (src/commandExecutor.cpp) against the pool as one table.
use tinycache.Dispatch.Home.{IsHome}
use tinycache.Prelude.{
  ℕ, ◌<◌, ◌≡◌, ◌≢◌, ap, ◌∙◌, arith, Bool, if◌then◌else◌, List, [], ◌∷◌, Option, get_elem?,
}
use tinycache.Prelude.Bytes.{Bytes}
use tinycache.FlatMap.{FlatMap}
use tinycache.Resp.{RespType, resp, number}
use tinycache.Shard.Time.{TimePoint}
use tinycache.Shard.Spec
use tinycache.Shard.Spec.{Entry, View, entry_for}
use tinycache.Shard.Valid.{view}
use tinycache.Shard.Home.{get-Holds, ttl-Holds}
use tinycache.Shard.Seen.{
  is_late, value_of, ttl_of, get-looked_at, ttl-looked_at, get-value_of, ttl-ttl_of,
}
use tinycache.Shard.Refines.Reads.{get-Implements, ttl-Implements}
use tinycache.Executor.{bulk_or_null, process_get, process_ttl}
use tinycache.Pool.{Worker}
use tinycache.Dispatch.{KeyCommand, index_of, process_key}
use tinycache.Dispatch.Sound.{IsPool}
use tinycache.Dispatch.Places.{type_of}
use tinycache.Dispatch.Table.{Table, forget}
use tinycache.Dispatch.Lookup.{lookup}
use tinycache.Dispatch.Tables.{Leaves, at_shard, the_shard}

-- The table after a look at a key.
unfoldable pub look_at : Bytes → TimePoint → Table → Table
look_at k now t = if is_late (t k) now then forget k t else t

module _ {M : Type 0} (F : FlatMap M) (hash : Bytes → ℕ) (m n : ℕ) (on_thread : ℕ → Bool)
    (some_shard : 0 < n) (now later : TimePoint) (home : Option ℕ) (at_home : IsHome n home)
    {ws : List (Worker M)} (pool : IsPool F m n (index_of hash n) ws) where
  look_at-others :
      (key j : Bytes)
      → key ≢ j
      → lookup (index_of hash n) ws j ≡ look_at key now (lookup (index_of hash n) ws) j
  unfolding look_at forget
  look_at-others key j ne = ground (arith, ne)

  -- GET of a client that is alone on a sound pool, with its home shard in it if it has one: the pool stays
  -- sound, its table loses the key if the deadline has passed and stays the same otherwise, and the
  -- answer is the value under the key, or null if there is none or it has expired.
  pub serve-get :
      (key : Bytes)
      → Leaves F hash m n on_thread some_shard now later home at_home pool
          (record { type = type_of KeyCommand.get; args = key ∷ [] })
          (look_at key now (lookup (index_of hash n) ws))
          (bulk_or_null (value_of (lookup (index_of hash n) ws key) now))
  unfolding process_key process_get get_elem? look_at forget
  serve-get key =
      let (w, there, (valid, holds), own, before) =
        the_shard F hash m n on_thread some_shard now later home at_home pool key in
      let (s', runs, valid', seen) = get-Implements F valid key now in
      let answer = get-value_of key (view w.shard) now in
      at_shard F hash m n on_thread some_shard now later home at_home pool KeyCommand.get key [] w
        (
          (Spec.get key now (view w.shard)).0,
          bulk_or_null (value_of (lookup (index_of hash n) ws key) now),
        )
        (look_at key now (lookup (index_of hash n) ws)) there
        (s', ground (arith, runs, answer, before), valid', seen) (get-Holds key own holds now)
        (λ j at yours. get-looked_at key j (view w.shard) now ∙ ground (arith, before, yours))
        (λ j ne. look_at-others key j (λ e. ne (ap (index_of hash n) e)))

  -- TTL likewise: the answer is -2 if there is no entry or it has expired, -1 if it has no deadline, and
  -- else the whole seconds up to the deadline.
  pub serve-ttl :
      (key : Bytes)
      → Leaves F hash m n on_thread some_shard now later home at_home pool
          (record { type = type_of KeyCommand.ttl; args = key ∷ [] })
          (look_at key now (lookup (index_of hash n) ws))
          (resp RespType.integer (number (ttl_of (lookup (index_of hash n) ws key) now later)))
  unfolding process_key process_ttl get_elem? look_at forget
  serve-ttl key =
      let (w, there, (valid, holds), own, before) =
        the_shard F hash m n on_thread some_shard now later home at_home pool key in
      let (s', runs, valid', seen) = ttl-Implements F valid key now later in
      let answer = ttl-ttl_of key (view w.shard) now later in
      at_shard F hash m n on_thread some_shard now later home at_home pool KeyCommand.ttl key [] w
        (
          (Spec.ttl key now later (view w.shard)).0,
          resp RespType.integer (number (ttl_of (lookup (index_of hash n) ws key) now later)),
        )
        (look_at key now (lookup (index_of hash n) ws)) there
        (s', ground (arith, runs, answer, before), valid', seen) (ttl-Holds key own holds now later)
        (λ j at yours. ttl-looked_at key j (view w.shard) now later ∙ ground (arith, before, yours))
        (λ j ne. look_at-others key j (λ e. ne (ap (index_of hash n) e)))
