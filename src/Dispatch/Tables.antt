-- ===== src/Dispatch/Tables.antt =====
-- The commands on one key (src/commandExecutor.cpp) against the pool as one table.
use tinycache.Dispatch.Home.{IsHome}
use mathlib.Core.Path.{fun_ext}
use tinycache.Prelude
use tinycache.Prelude.{
  ℕ, ◌+◌, ◌<◌, ◌≤◌, ◌≡◌, ◌≢◌, ◌⊎◌, refl, sym, ap, ◌∙◌, arith, ◌==◌, ite, if_pos, if_neg, Bool, true,
  false, Bool-cases, if◌then◌else◌, List, [], ◌∷◌, length, Option, none, some, inl, inr, pos,
  Outcome, ok, get_elem?, get_elem?-some,
}
use tinycache.Prelude.Bytes.{Bytes}
use tinycache.FlatMap.{FlatMap}
use tinycache.Resp.{RespValue}
use tinycache.Shard.Time.{TimePoint}
use tinycache.Shard.Spec.{View, entry_for}
use tinycache.Shard.Valid.{view}
use tinycache.Shard.Home.{Holds}
use tinycache.Shard.Refines.{Implements}
use tinycache.Command.{Command}
use tinycache.Pool.{Worker}
use tinycache.Router.{get_shard_index-lt}
use tinycache.Dispatch.{KeyCommand, index_of, process_key}
use tinycache.Dispatch.Keys.{IsSound}
use tinycache.Dispatch.Sound.{mine, IsPool, set-IsPool}
use tinycache.Dispatch.Places.{type_of}
use tinycache.Dispatch.Single.{execute-step}
use tinycache.Dispatch.Alone.{serve, serve-step}
use tinycache.Dispatch.Table.{Table}
use tinycache.Dispatch.Lookup.{lookup, lookup-at, lookup-set}

module _ {M : Type 0} (F : FlatMap M) (hash : Bytes → ℕ) (m n : ℕ) (on_thread : ℕ → Bool)
    (some_shard : 0 < n) (now later : TimePoint) (home : Option ℕ) (at_home : IsHome n home)
    {ws : List (Worker M)} (pool : IsPool F m n (index_of hash n) ws) where
  -- The command of a client that is alone ends in a sound pool with the table `t` and the answer `v`.
  abbrev pub Leaves : Command → Table → RespValue → Type 0
  Leaves cmd t v =
      (ws' : List (Worker M)) × (serve F on_thread now later hash n home cmd ws ≡ ok (ws', v))
      × IsPool F m n (index_of hash n) ws'
      × (lookup (index_of hash n) ws' ≡ t)

  -- What the shard of a key promises is what the pool promises, if the keys of other shards stay.
  pub at_shard :
      (c : KeyCommand) (key : Bytes) (args : List Bytes) (w : Worker M) (v : View × RespValue)
      (t : Table)
      → get_elem? ws (index_of hash n key) ≡ some w
      → Implements F (process_key F c (key ∷ args) now later w.shard) v
      → Holds m (mine (index_of hash n) (index_of hash n key)) v.0
      → ((j : Bytes)
          → index_of hash n j ≡ index_of hash n key
          → lookup (index_of hash n) ws j ≡ entry_for j (view w.shard).entries
          → entry_for j v.0.entries ≡ t j)
      → ((j : Bytes)
          → index_of hash n key ≢ index_of hash n j
          → lookup (index_of hash n) ws j ≡ t j)
      → Leaves (record { type = type_of c; args = key ∷ args }) t v.1
  at_shard c key args w v t there (s', runs, valid, seen) holds same others =
      let i = index_of hash n key in
      let low : i < n = get_shard_index-lt hash key n some_shard in
      let w' = record w { shard = s' } in
      let (task, starts, ends) =
        execute-step hash on_thread n some_shard F c key args home now later ws w s' v.1 at_home
          there runs in
      (
        Prelude.set ws i w',
        serve-step F on_thread now later hash n home _ task ws (Prelude.set ws i w') v.1 starts
            ends,
        set-IsPool F m n (index_of hash n) pool i w' low (valid, rw seen holds),
        fun_ext (λ j.
            lookup-set (index_of hash n) ws i w' j (rw pool.size low)
            ∙ elim (Bool-cases (index_of hash n j == i)) [
              | inl yours ↦ rw yours (
                  ap (λ (u : View). entry_for j u.entries) seen
                  ∙ same j (ground (arith, yours))
                      (lookup-at (index_of hash n) ws w j i (ground (arith, yours)) there))
              | inr other ↦ rw other (others j (λ is. absurd (ground (arith, other, is))))
            ]),
      )

  -- The shard of a key, with what it has under the key.
  pub the_shard :
      (key : Bytes)
      → (w : Worker M) × (get_elem? ws (index_of hash n key) ≡ some w)
        × IsSound F m (mine (index_of hash n) (index_of hash n key)) w.shard
        × (mine (index_of hash n) (index_of hash n key) key ≡ true)
        × (lookup (index_of hash n) ws key ≡ entry_for key (view w.shard).entries)
  the_shard key =
      let i = index_of hash n key in
      let (w, there) =
        get_elem?-some ws i (rw pool.size (get_shard_index-lt hash key n some_shard)) in
      (
        w,
        there,
        pool.sound i w there,
        ground arith,
        lookup-at (index_of hash n) ws w key i refl there,
      )
