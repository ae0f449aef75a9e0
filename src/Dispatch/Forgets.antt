-- ===== src/Dispatch/Forgets.antt =====
-- DEL of src/commandExecutor.cpp against the pool as one table.
use mathlib.Core.Path.{fun_ext, subst}
use tinycache.Prelude
use tinycache.Prelude.{
  ℕ, zero, suc, ◌+◌, ◌<◌, ◌≡◌, refl, sym, ap, ◌∙◌, arith, ◌==◌, Bool, true, false, Bool-cases,
  if◌then◌else◌, List, [], ◌∷◌, ◌++◌, length, Option, none, inl, inr, Outcome, ok, ◌>>=◌, get_elem?,
  get_elem?-some,
}
use tinycache.Prelude.Bytes.{Bytes}
use tinycache.FlatMap.{FlatMap}
use tinycache.Shard.Time.{TimePoint}
use tinycache.Shard.Spec
use tinycache.Shard.Spec.{Entry, entry_for}
use tinycache.Shard.Valid.{view}
use tinycache.Command.{CommandType}
use tinycache.Command.Shape.{HasArity}
use tinycache.Pool.{Worker, Place, on_worker, at_place}
use tinycache.Executor.{process_del_keys}
use tinycache.Executor.Answers.{del_all, process_del_keys-Implements}
use tinycache.Dispatch.{deleting, integer_answer, index_of, execute_multi_shard, execute, step}
use tinycache.Dispatch.Keys.{AllOwn, del_all-Holds}
use tinycache.Dispatch.Sound.{
  mine, target, IsPlace, AllCalls, IsPool, at_place-target, at_worker-EndsPool,
}
use tinycache.Dispatch.Deletion.{execute_multi_shard-del}
use tinycache.Dispatch.Home.{IsHome}
use tinycache.Dispatch.Equivalence.{execute_single_shard-execute_multi_shard}
use tinycache.Dispatch.Table.{
  forget_all, removed, has, forget_all-has, forget_all-append, removed-append, removed-has,
}
use tinycache.Dispatch.Lookup.{
  lookup, lookup-at, lookup-set, entry_for-del_all, del_all-removed, has-AllOwn, flat, has-flat,
  has-keys_of,
}
use tinycache.Dispatch.Alone.{finish, serve}

module _ {M : Type 0} (F : FlatMap M) (m n : ℕ) (index : Bytes → ℕ) (on_thread : ℕ → Bool) where
  -- The run ends in a sound pool with the number of keys that were there, and without these keys.
  abbrev Forgets :
      List Bytes → List (Worker M) → {R : Type 0} → (ℕ → R) → Outcome (List (Worker M) × R) → Type 0
  Forgets keys ws result r =
      (ws' : List (Worker M)) × (r ≡ ok (ws', result (removed keys (lookup index ws))))
      × IsPool F m n index ws'
      × (lookup index ws' ≡ forget_all keys (lookup index ws))

  module _ {ws : List (Worker M)} (pool : IsPool F m n index ws) where
    place-Forgets :
        (place : Place) (keys : List Bytes)
        → IsPlace on_thread n place
        → AllOwn (mine index (target place)) keys
        → Forgets keys ws (λ x. x) (at_place on_thread place (process_del_keys F keys) ws)
    unfolding on_worker
    place-Forgets place keys (low, here) own =
        let i = target place in
        let (w, there) = get_elem?-some ws i (rw pool.size low) in
        let (valid, holds) = pool.sound i w there in
        let (s', runs, valid', seen) = process_del_keys-Implements F keys valid in
        let w' = record w { shard = s' } in
        let counted : (del_all keys (view w.shard)).1 ≡ removed keys (lookup index ws) =
          del_all-removed (mine index i) keys (view w.shard) (lookup index ws) own
            (λ k yours. lookup-at index ws w k i (ground (arith, yours)) there) in
        let (ws', x, ends, pool', _) =
          at_worker-EndsPool F m n index pool (λ _. Unit {0}) i w (process_del_keys F keys) low
            there (s', _, runs, (valid', rw seen (del_all-Holds keys own holds)), tt) in
        let is : ws' ≡ Prelude.set ws i w' = ground (arith, there, runs, ends) in
        (
          Prelude.set ws i w',
          at_place-target on_thread place (process_del_keys F keys) ws here
              ∙ ground (arith, there, runs, counted),
          rw (sym is) pool',
          fun_ext (λ k.
              let left = entry_for-del_all keys (view w.shard) k in
              lookup-set index ws i w' k (rw pool.size low) ∙ elim (Bool-cases (index k == i)) [
                | inl yours ↦
                    let before = lookup-at index ws w k i (ground (arith, yours)) there in
                    ground (
                      arith,
                      yours,
                      ap (λ (v : Spec.View). entry_for k v.entries) seen,
                      left,
                      before,
                      forget_all-has keys (lookup index ws) k,
                    )
                | inr other ↦ elim (Bool-cases (has k keys)) [
                  | inl named ↦
                      absurd (ground (arith, other, has-AllOwn (mine index i) k keys own named))
                  | inr absent ↦
                      ground (arith, other, absent, forget_all-has keys (lookup index ws) k)
                ]
              ]),
        )

  finish-Forgets :
      (now later : TimePoint) (calls : List (Place × List Bytes)) (count : ℕ) {ws : List (Worker M)}
      → IsPool F m n index ws
      → AllCalls index on_thread n calls
      → Forgets
          (flat calls)
          ws
          (λ x. integer_answer (count + x))
          (finish F on_thread now later (suc (length calls)) (deleting calls count) ws)
  unfolding finish step removed forget_all
  finish-Forgets now later [] count {ws} pool all =
      (ws, ap (λ c. ok (ws, integer_answer c)) (omega arith), pool, refl)
  finish-Forgets now later ((place, keys) ∷ calls) count {ws} pool (there, own, all) =
      let (ws1, runs, pool1, forgets) = place-Forgets pool place keys there own in
      let t = lookup index ws in
      let (ws2, runs', pool2, forgets') =
        finish-Forgets now later calls (count + removed keys t) pool1 all in
      let total : count + removed keys t + removed (flat calls) (lookup index ws1)
          ≡ count + removed (keys ++ flat calls) t =
        omega (arith, removed-append keys (flat calls) t, ap (removed (flat calls)) forgets) in
      (
        ws2,
        rw runs (runs' ∙ ap (λ c. ok (ws2, integer_answer c)) total),
        pool2,
        forgets'
            ∙ ap (forget_all (flat calls)) forgets
            ∙ sym (forget_all-append keys (flat calls) t),
      )

module _ {M : Type 0} (F : FlatMap M) (hash : Bytes → ℕ) (m n : ℕ) (on_thread : ℕ → Bool)
    (some_shard : 0 < n) where
  abbrev index : Bytes → ℕ
  index = index_of hash n

  -- Both ways to execute a command agree, so DEL becomes the calls of the general one.
  execute-del :
      (keys : List Bytes) (home : Option ℕ)
      → HasArity CommandType.del (length keys)
      → IsHome n home
      → execute on_thread hash n (record { type = CommandType.del; args = keys }) home
        ≡ execute_multi_shard on_thread hash n CommandType.del keys home
  unfolding execute
  execute-del keys home h at_home = elim (Bool-cases (n == 1)) [
    | inr several ↦ rw several refl
    | inl one ↦
        let is : n ≡ 1 = ground (arith, one) in
        rw one (
          execute_single_shard-execute_multi_shard on_thread hash CommandType.del keys home h
            (subst (λ a. IsHome a home) is at_home)
          ∙ ap (λ a. execute_multi_shard on_thread hash a CommandType.del keys home) (sym is))
  ]

  -- To the client of a sound pool, which is alone on it, the shards are one table: DEL with any accepted
  -- keys, on however many shards they lie and whichever shard of the pool is the home shard, if there is
  -- one, leaves the pool sound, forgets just these keys, and answers how many keys the table had when they are forgotten one after the other, in the order of
  -- the command; a key that is named twice counts once.
  pub serve-del :
      (now later : TimePoint) (keys : List Bytes) (home : Option ℕ) (ws : List (Worker M))
      → HasArity CommandType.del (length keys)
      → IsHome n home
      → IsPool F m n (index_of hash n) ws
      → (ws' : List (Worker M)) × (serve F on_thread now later hash n home
            (record { type = CommandType.del; args = keys })
            ws
          ≡ ok (ws', integer_answer (removed keys (lookup (index_of hash n) ws))))
        × IsPool F m n (index_of hash n) ws'
        × (lookup (index_of hash n) ws' ≡ forget_all keys (lookup (index_of hash n) ws))
  unfolding serve
  serve-del now later keys home ws arity at_home pool =
      let t = lookup index ws in
      let (calls, starts, all, takes) =
        execute_multi_shard-del hash on_thread n some_shard keys home at_home in
      let same : (j : Bytes) → has j (flat calls) ≡ has j keys = λ j.
        has-flat index on_thread n j calls all
        ∙ ap (has j) (takes (index j))
        ∙ has-keys_of index j keys in
      let (ws', runs, pool', forgets) =
        finish-Forgets F m n index on_thread now later calls 0 pool all in
      (
        ws',
        rw (execute-del keys home arity at_home ∙ starts) (
            runs
            ∙ ap (λ c. ok (ws', integer_answer c))
                (omega (arith, removed-has (flat calls) keys t (λ j e there. same j)))),
        pool',
        forgets
            ∙ fun_ext (λ j.
              forget_all-has (flat calls) t j
              ∙ ap (λ (b : Bool). if b then none else t j) (same j)
              ∙ sym (forget_all-has keys t j)),
      )
