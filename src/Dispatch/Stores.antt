-- ===== src/Dispatch/Stores.antt =====
-- EXPIRE and SET (src/commandExecutor.cpp) against the pool as one table.
use tinycache.Dispatch.Home.{IsHome}
use tinycache.Prelude.{
  ℕ, ◌+◌, ◌<◌, ◌≤◌, ◌≡◌, ◌≢◌, ◌⊎◌, refl, ap, ◌∙◌, arith, ◌==◌, ite, Bool, Bool-cases, if◌then◌else◌,
  List, [], ◌∷◌, length, Option, none, some, inl, inr, pos, ok, get_elem?,
}
use tinycache.Prelude.Bytes.{Bytes, bytes_discrete, word}
use tinycache.FlatMap.{FlatMap}
use tinycache.Resp.{RespType, RespValue, resp, number}
use tinycache.Shard.Time.{TimePoint, add_seconds}
use tinycache.Shard.Spec
use tinycache.Shard.Spec.{Entry, View, entry_for}
use tinycache.Shard.Valid.{view}
use tinycache.Shard.Home.{expire-Holds, set-Holds}
use tinycache.Shard.Seen.{
  is_there, with_deadline, set_deadline-with_deadline, expire-is_there, set_self, set-others,
}
use tinycache.Shard.Refines.Deadlines.{expire-Implements}
use tinycache.Executor.{ok_answer, process_expire}
use tinycache.Executor.Numbers.{stoull}
use tinycache.Pool.{Worker}
use tinycache.Dispatch.{KeyCommand, index_of, process_key}
use tinycache.Dispatch.Sound.{IsPool}
use tinycache.Dispatch.Places.{type_of}
use tinycache.Dispatch.Alone.{serve}
use tinycache.Dispatch.Table.{Table}
use tinycache.Dispatch.Lookup.{lookup, lookup-at}
use tinycache.Shard.Time.{deadline}
use tinycache.Shard.Refines.Writes.{set-Fits}
use tinycache.Executor.{process_set, write}
use tinycache.Dispatch.Tables.{Leaves, at_shard, the_shard}

-- The table after a key got a deadline, if it is there.
unfoldable pub set_deadline : Bytes → TimePoint → Table → Table
set_deadline k u t j = ite (bytes_discrete k j) (with_deadline u (t j)) (t j)

abbrev pub integer : Bool → RespValue
integer b = resp RespType.integer (number (pos (if b then 1 else 0)))

module _ {M : Type 0} (F : FlatMap M) (hash : Bytes → ℕ) (m n : ℕ) (on_thread : ℕ → Bool)
    (some_shard : 0 < n) (now later : TimePoint) (home : Option ℕ) (at_home : IsHome n home)
    {ws : List (Worker M)} (pool : IsPool F m n (index_of hash n) ws) where
  -- EXPIRE of a client that is alone on a sound pool, with its home shard in it if it has one, where the
  -- count of seconds makes a time point of 64 bits: the pool stays sound, the entry of the key gets the
  -- deadline in the table of the pool, even if its old one has passed, no other key is touched, and the
  -- answer tells whether there was an entry.
  pub serve-expire :
      (key count : Bytes) {seconds : ℕ} {u : TimePoint}
      → stoull count ≡ some seconds
      → add_seconds now seconds ≡ ok u
      → u < word
      → Leaves F hash m n on_thread some_shard now later home at_home pool
          (record { type = type_of KeyCommand.expire; args = key ∷ count ∷ [] })
          (set_deadline key u (lookup (index_of hash n) ws))
          (integer (is_there (lookup (index_of hash n) ws key)))
  unfolding process_key process_expire get_elem? set_deadline Spec.expire
  serve-expire key count {seconds} {u} spelt in_range low =
      let (w, there, (valid, holds), own, before) =
        the_shard F hash m n on_thread some_shard now later home at_home pool key in
      let (s', runs, valid', seen) = expire-Implements F valid key seconds now u in_range in
      let answer = expire-is_there key u (view w.shard) in
      at_shard F hash m n on_thread some_shard now later home at_home pool KeyCommand.expire key
        (count ∷ []) w
        ((Spec.expire key u (view w.shard)).0, integer (is_there (lookup (index_of hash n) ws key)))
        (set_deadline key u (lookup (index_of hash n) ws)) there
        (s', ground (arith, spelt, runs, answer, before), valid', seen)
        (expire-Holds key own holds u low)
        (λ j at yours.
          set_deadline-with_deadline key j u (view w.shard).entries ∙ ground (arith, yours))
        (λ j ne. let other : key ≢ j = λ e. ne (ap (index_of hash n) e) in ground (arith, other))

  -- SET of a value that fits the limit of a shard with its key, by a client that is alone on a sound pool,
  -- with its home shard in it if it has one, where the limit with both stays below 2 ^ 64: it answers OK and leaves the pool sound. The table has the
  -- value under the key, with no deadline. Any other key has what it had or is evicted, and it is
  -- evicted only from the shard of the key.
  pub serve-set :
      (key v : Bytes)
      → m + length key + length v < word
      → length key + length v ≤ m
      → (ws' : List (Worker M)) × (serve F on_thread now later hash n home
            (record { type = type_of KeyCommand.set; args = key ∷ v ∷ [] })
            ws
          ≡ ok (ws', ok_answer))
        × IsPool F m n (index_of hash n) ws'
        × (lookup (index_of hash n) ws' key
            ≡ some (record { key = key; value = v; expire_at = none }))
        × ((j : Bytes)
            → key ≢ j
            → (lookup (index_of hash n) ws' j ≡ lookup (index_of hash n) ws j)
              ⊎ (lookup (index_of hash n) ws' j ≡ none))
        × ((j : Bytes)
            → index_of hash n key ≢ index_of hash n j
            → lookup (index_of hash n) ws' j ≡ lookup (index_of hash n) ws j)
  unfolding process_key process_set write get_elem? deadline
  serve-set key v room fits =
      let i = index_of hash n key in
      let (w, there, (valid, holds), own, before) =
        the_shard F hash m n on_thread some_shard now later home at_home pool key in
      let (s', runs, valid', seen) =
        set-Fits F valid key v (omega (arith, room, holds.limit)) none later {t = none} refl in
      let after = (Spec.set key v none (view w.shard)).entries in
      let t : Table =
        λ j. if index_of hash n j == i then entry_for j after else lookup (index_of hash n) ws j in
      let (ws', ends, pool', sees) =
        at_shard F hash m n on_thread some_shard now later home at_home pool KeyCommand.set key
          (v ∷ []) w (Spec.set key v none (view w.shard), ok_answer) t there
          (s', ground (arith, runs), valid', seen) (set-Holds key own holds v none tt)
          (λ j at yours. ground (arith, at)) (λ j ne. ground (arith, ne)) in
      let written = set_self key v none (view w.shard) (omega (arith, fits, holds.limit)) in
      (
        ws',
        ends,
        pool',
        ap (λ (t' : Table). t' key) sees ∙ ground (arith, written),
        λ j ne. elim (Bool-cases (index_of hash n j == i)) [
          | inr other ↦ inl (ap (λ (t' : Table). t' j) sees ∙ ground (arith, other))
          | inl yours ↦
              let here = lookup-at (index_of hash n) ws w j i (ground (arith, yours)) there in
              elim (set-others key j v none (view w.shard) ne) [
                | inl kept ↦
                    inl (ap (λ (t' : Table). t' j) sees ∙ ground (arith, yours, kept, here))
                | inr evicted ↦
                    inr (ap (λ (t' : Table). t' j) sees ∙ ground (arith, yours, evicted))
              ]
        ],
        λ j ne. ap (λ (t' : Table). t' j) sees ∙ ground (arith, ne),
      )
