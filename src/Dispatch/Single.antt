-- ===== src/Dispatch/Single.antt =====
-- A command on one key (src/commandExecutor.cpp) from any session: where it runs, and what it answers.
use tinycache.Dispatch.{switch_multi}
use tinycache.Prelude.{◌∙◌}
use tinycache.Dispatch.Home.{IsHome, local_at, execute_multi_shard-switch_multi}
use tinycache.Prelude
use tinycache.Prelude.{
  ℕ, ◌<◌, ◌≡◌, refl, sym, ap, ◌∙◌, arith, ◌==◌, Bool, true, false, Bool-cases, List, [], ◌∷◌,
  length, Option, none, some, inl, inr, Outcome, ok, ◌>>=◌, get_elem?, if◌then◌else◌,
}
use tinycache.Prelude.Bytes.{Bytes}
use tinycache.FlatMap.{FlatMap}
use tinycache.Resp.{RespValue}
use tinycache.Shard.{LruShard}
use tinycache.Shard.Time.{TimePoint}
use tinycache.Pool.{Worker, Place, on_worker}
use tinycache.Router.{get_shard_index-lt}
use tinycache.Dispatch.{
  KeyCommand, get, set, expire, ttl, Task, finished, on_key, index_of, process_key, to_shard,
  place_of, execute_single_shard, execute_multi_shard, execute, step,
}
use tinycache.Dispatch.Sound.{target, IsReached, at_place-target}
use tinycache.Dispatch.Places.{
  type_of, place_of-IsPlace, index-first, first_place, first_place-IsPlace,
}

module _ (hash : Bytes → ℕ) (on_thread : ℕ → Bool) (n : ℕ) (some_shard : 0 < n) where
  -- The command is at the shard of its key, and its thread is the caller's if it is reached directly.
  abbrev GoesTo : KeyCommand → Bytes → List Bytes → Outcome Task → Type 0
  GoesTo c key args r =
      (place : Place) × (r ≡ ok (on_key place c (key ∷ args)))
      × IsReached on_thread place
      × (target place ≡ index_of hash n key)

  multi-place_of :
      (c : KeyCommand) (key : Bytes) (args : List Bytes) (home : Option ℕ)
      → switch_multi hash n (type_of c) (key ∷ args) (local_at on_thread home)
        ≡ ok (on_key (place_of (local_at on_thread home) (index_of hash n key)) c (key ∷ args))
  unfolding switch_multi to_shard get_elem?
  multi-place_of get key args home = refl
  multi-place_of set key args home = refl
  multi-place_of expire key args home = refl
  multi-place_of ttl key args home = refl

  multi-GoesTo :
      (c : KeyCommand) (key : Bytes) (args : List Bytes) (home : Option ℕ)
      → IsHome n home
      → GoesTo c key args (execute_multi_shard on_thread hash n (type_of c) (key ∷ args) home)
  multi-GoesTo c key args home at_home =
      let i = index_of hash n key in
      let (there, aimed) =
        place_of-IsPlace hash on_thread n some_shard home i
          (get_shard_index-lt hash key n some_shard) in
      (
        place_of (local_at on_thread home) i,
        execute_multi_shard-switch_multi on_thread n hash (type_of c) (key ∷ args) home at_home
            ∙ multi-place_of c key args home,
        there.1,
        aimed,
      )

  module _ (one : n ≡ 1) where
    abbrev the_place : Option ℕ → Place
    the_place = first_place hash on_thread n some_shard one

    single-the_place :
        (c : KeyCommand) (key : Bytes) (args : List Bytes) (home : Option ℕ)
        → execute_single_shard on_thread (type_of c) (key ∷ args) home
          ≡ ok (on_key (the_place home) c (key ∷ args))
    unfolding execute_single_shard
    single-the_place get key args home = refl
    single-the_place set key args home = refl
    single-the_place expire key args home = refl
    single-the_place ttl key args home = refl

    single-GoesTo :
        (c : KeyCommand) (key : Bytes) (args : List Bytes) (home : Option ℕ)
        → GoesTo c key args (execute_single_shard on_thread (type_of c) (key ∷ args) home)
    single-GoesTo c key args home =
        let (there, aimed) = first_place-IsPlace hash on_thread n some_shard one home in
        (
          the_place home,
          single-the_place c key args home,
          there.1,
          aimed ∙ sym (index-first hash on_thread n some_shard one key),
        )

  execute-GoesTo :
      (c : KeyCommand) (key : Bytes) (args : List Bytes) (home : Option ℕ)
      → IsHome n home
      → GoesTo c key args
          (execute on_thread hash n (record { type = type_of c; args = key ∷ args }) home)
  unfolding execute
  execute-GoesTo c key args home at_home = elim (Bool-cases (n == 1)) [
    | inl one ↦ rw one (single-GoesTo (ground (arith, one)) c key args home)
    | inr several ↦ rw several (multi-GoesTo c key args home at_home)
  ]

  -- Whichever shard of the pool is the home shard of the session, and whatever thread it is on, GET, SET, EXPIRE and TTL take
  -- one step, which does to the shard that the router gives for the key what the command does there,
  -- changes no other shard, and has its answer.
  pub execute-step :
      {M : Type 0} (F : FlatMap M) (c : KeyCommand) (key : Bytes) (args : List Bytes)
      (home : Option ℕ) (now later : TimePoint) (ws : List (Worker M)) (w : Worker M)
      (s : LruShard M) (v : RespValue)
      → IsHome n home
      → get_elem? ws (index_of hash n key) ≡ some w
      → process_key F c (key ∷ args) now later w.shard ≡ ok (s, v)
      → (t : Task) × (execute on_thread hash n (record { type = type_of c; args = key ∷ args }) home
          ≡ ok t)
        × (step on_thread F t now later ws
            ≡ ok (Prelude.set ws (index_of hash n key) (record w { shard = s }), finished v))
  unfolding step on_worker
  execute-step F c key args home now later ws w s v at_home there runs =
      let (place, e, here, aimed) = execute-GoesTo c key args home at_home in
      (
        on_key place c (key ∷ args),
        e,
        rw (at_place-target on_thread place (process_key F c (key ∷ args) now later) ws here, aimed)
            (ground (arith, there, runs)),
      )
