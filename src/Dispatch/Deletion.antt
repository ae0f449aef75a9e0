-- ===== src/Dispatch/Deletion.antt =====
-- DEL of src/commandExecutor.cpp: the calls that it makes to the shards.
use tinycache.Dispatch.Home.{IsHome, local_at, execute_multi_shard-switch_multi}
use mathlib.Core.Path.{subst}
use tinycache.Prelude
use tinycache.Prelude.{
  ℕ, zero, suc, ◌+◌, ◌<◌, ◌≤◌, ◌≡◌, refl, sym, ap, ◌∙◌, arith, ◌==◌, Bool, true, false, Bool-cases,
  List, [], ◌∷◌, ◌++◌, length, Option, none, some, inl, inr, Outcome, ok, ◌>>=◌, get_elem?,
  length-set, get_elem?-some, get_elem?-set_self, get_elem?-set_ne, get_elem?-lt, if◌then◌else◌,
  List-cases,
}
use tinycache.Prelude.Bytes.{Bytes}
use tinycache.Pool.{Place, local_shard, replicate, length-replicate}
use tinycache.Command.{CommandType}
use tinycache.Router.{get_shard_index-lt}
use tinycache.Dispatch.{
  remote_groups, all_groups, switch_multi, deleting, index_of, execute_multi_shard,
}
use tinycache.Dispatch.Keys.{AllOwn}
use tinycache.Dispatch.Sound.{mine, AllCalls}
use tinycache.Dispatch.Groups.{
  keys_of, keys_at, group_at, or_empty, keys_of-AllOwn, group_keys-keys_of, keys_at-remote_groups,
  keys_at-cleared, remote_groups-AllCalls,
}

group_at-replicate : (n j : ℕ) → group_at j (replicate n []) ≡ []
unfolding replicate get_elem?
group_at-replicate zero j = refl
group_at-replicate (suc n) zero = refl
group_at-replicate (suc n) (suc j) = group_at-replicate n j

module _ (index : Bytes → ℕ) (on_thread : ℕ → Bool) (n : ℕ) where
  -- The calls are sound, and take each key to its shard once.
  abbrev Takes : List Bytes → List (Place × List Bytes) → Type 0
  Takes keys calls =
      AllCalls index on_thread n calls × ((j : ℕ) → keys_at j calls ≡ keys_of index j keys)

  module _ (keys : List Bytes) (groups : List (List Bytes)) (size : length groups ≡ n)
      (sorted : (j : ℕ) → group_at j groups ≡ keys_of index j keys) where
    group-AllOwn : (d : ℕ) → AllOwn (mine index d) (group_at d groups)
    group-AllOwn d = rw (sorted d) (keys_of-AllOwn index d keys)

    remote_groups-Takes : Takes keys (remote_groups 0 groups)
    remote_groups-Takes = (
      remote_groups-AllCalls index on_thread n 0 groups (omega (arith, size)) (λ d.
          subst (λ a. AllOwn (mine index a) (group_at d groups)) (omega arith) (group-AllOwn d)),
      λ j. keys_at-remote_groups j 0 j groups (omega arith) ∙ sorted j,
    )

    cleared-AllOwn :
        (h d : ℕ) → h < n → AllOwn (mine index d) (group_at d (Prelude.set groups h []))
    cleared-AllOwn h d low = elim (Bool-cases (h == d)) [
      | inl here ↦
          let same : h ≡ d = ground (arith, here) in
          subst (AllOwn (mine index d))
            (sym (
              subst (λ a. group_at a (Prelude.set groups h []) ≡ []) same
                (ap or_empty (get_elem?-set_self groups h [] (rw size low)))))
            tt
      | inr other ↦
          subst (AllOwn (mine index d))
            (sym (ap or_empty (get_elem?-set_ne groups h d [] (ground (arith, other)))))
            (group-AllOwn d)
    ]

    all_groups-Takes :
        (home : Option ℕ)
        → IsHome n home
        → (calls : List (Place × List Bytes)) × (all_groups (local_at on_thread home) groups
            ≡ ok calls)
          × Takes keys calls
    unfolding all_groups
    all_groups-Takes none h = (remote_groups 0 groups, refl, remote_groups-Takes)
    all_groups-Takes (some home) h = elim (Bool-cases (on_thread home)) [
      | inr away ↦ (remote_groups 0 groups, rw away refl, remote_groups-Takes)
      | inl here ↦
          let (g, there) = get_elem?-some groups home (rw size h) in
          elim (List-cases g) [
            | inl no_keys ↦
                (remote_groups 0 groups, ground (arith, here, there, no_keys), remote_groups-Takes)
            | inr (key, more, some_keys) ↦
                let there' : get_elem? groups home ≡ some (key ∷ more) =
                  ground (arith, there, some_keys) in
                (
                  (local_shard home, key ∷ more) ∷ remote_groups 0 (Prelude.set groups home []),
                  ground (arith, here, there'),
                  (
                    (
                      (h, here),
                      subst (AllOwn (mine index home)) (ap or_empty there') (group-AllOwn home),
                      remote_groups-AllCalls index on_thread n 0 (Prelude.set groups home [])
                          (omega (arith, size, length-set groups home []))
                          (λ d.
                            subst
                              (λ a. AllOwn (mine index a) (group_at d (Prelude.set groups home [])))
                              (omega arith) (cleared-AllOwn home d h)),
                    ),
                    λ j. keys_at-cleared home j (key ∷ more) groups there' ∙ sorted j,
                  ),
                )
          ]
    ]

module _ (hash : Bytes → ℕ) (on_thread : ℕ → Bool) (n : ℕ) (some_shard : 0 < n) where
  -- In a pool of `n` > 0 shards, one of which is the home shard of the session, if it has one, DEL
  -- becomes a list of calls: each goes to a shard of the pool, is direct only on the shard's thread, and
  -- only has keys that the router sends there. Together the calls to a shard have exactly the keys of
  -- the command that the router sends there, in their order.
  pub execute_multi_shard-del :
      (keys : List Bytes) (home : Option ℕ)
      → IsHome n home
      → (calls : List (Place × List Bytes)) × (execute_multi_shard on_thread hash n CommandType.del
            keys home
          ≡ ok (deleting calls 0))
        × AllCalls (index_of hash n) on_thread n calls
        × ((j : ℕ) → keys_at j calls ≡ keys_of (index_of hash n) j keys)
  unfolding switch_multi
  execute_multi_shard-del keys home h =
      let index = index_of hash n in
      let (groups, runs, size, sorted) = group_keys-keys_of index keys (replicate n []) (λ k.
        rw (length-replicate {A = List Bytes} n []) (get_shard_index-lt hash k n some_shard)) in
      let (calls, runs', takes) =
        all_groups-Takes index on_thread n keys groups
          (size ∙ length-replicate {A = List Bytes} n [])
          (λ j. sorted j ∙ ap (λ g. g ++ keys_of index j keys) (group_at-replicate n j)) home h in
      (
        calls,
        execute_multi_shard-switch_multi on_thread n hash CommandType.del keys home h
            ∙ ground (arith, runs, runs'),
        takes.0,
        takes.1,
      )
