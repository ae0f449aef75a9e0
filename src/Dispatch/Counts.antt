-- ===== src/Dispatch/Counts.antt =====
-- DEL of src/commandExecutor.cpp: its calls have as many keys as the command.
use tinycache.Prelude
use tinycache.Prelude.{
  ℕ, zero, suc, ◌+◌, ◌≡◌, refl, ap, arith, Bool, List, [], ◌∷◌, ◌++◌, length, length-append, Option,
  none, some, Option-cases, List-cases, inl, inr, Outcome, ok, ◌>>=◌, >>=-eq-ok, get_elem?,
}
use tinycache.Prelude.Bytes.{Bytes}
use tinycache.Pool.{Place, replicate}
use tinycache.Command.{CommandType}
use tinycache.Dispatch.{
  deleting, push_key, group_keys, remote_groups, all_groups, local_home, switch_multi, index_of,
  execute_multi_shard,
}
use tinycache.Dispatch.Sound.{key_count}

-- The keys in all groups.
abbrev grouped : List (List Bytes) → ℕ
grouped [] = 0
grouped (g ∷ groups) = length g + grouped groups

grouped-set :
    (groups : List (List Bytes)) (i : ℕ) (g g' : List Bytes)
    → get_elem? groups i ≡ some g
    → grouped (Prelude.set groups i g') + length g ≡ grouped groups + length g'
unfolding get_elem? Prelude.set
grouped-set [] i g g' there = cc
grouped-set (x ∷ groups) zero g g' there = ground (arith, there)
grouped-set (x ∷ groups) (suc i) g g' there = omega (arith, grouped-set groups i g g' there)

push_key-grouped :
    (i : ℕ) (key : Bytes) (groups : List (List Bytes)) {groups' : List (List Bytes)}
    → push_key i key groups ≡ ok groups'
    → grouped groups' ≡ suc (grouped groups)
unfolding push_key
push_key-grouped i key groups {groups'} runs = elim (Option-cases (get_elem? groups i)) [
  | inl missing ↦ absurd (ground (arith, missing, runs))
  | inr (g, there) ↦ ground (
    arith,
    runs,
    there,
    grouped-set groups i g (g ++ key ∷ []) there,
    length-append {0} g (key ∷ []),
  )
]

group_keys-grouped :
    (index : Bytes → ℕ) (keys : List Bytes) (groups : List (List Bytes))
    {groups' : List (List Bytes)}
    → group_keys index keys groups ≡ ok groups'
    → grouped groups' ≡ grouped groups + length keys
unfolding group_keys
group_keys-grouped index [] groups runs = ground (arith, runs)
group_keys-grouped index (key ∷ keys) groups {groups'} runs =
    let (middle, pushed, rest) = >>=-eq-ok (push_key (index key) key groups) _ runs in
    omega (
      arith,
      push_key-grouped (index key) key groups pushed,
      group_keys-grouped index keys middle {groups' = groups'} rest,
    )

remote_groups-grouped :
    (i : ℕ) (groups : List (List Bytes)) → key_count (remote_groups i groups) ≡ grouped groups
unfolding remote_groups
remote_groups-grouped i [] = refl
remote_groups-grouped i ([] ∷ groups) = omega (arith, remote_groups-grouped (suc i) groups)
remote_groups-grouped i ((key ∷ keys) ∷ groups) =
    omega (arith, remote_groups-grouped (suc i) groups)

all_groups-grouped :
    (home : Option ℕ) (groups : List (List Bytes)) {calls : List (Place × List Bytes)}
    → all_groups home groups ≡ ok calls
    → key_count calls ≡ grouped groups
unfolding all_groups
all_groups-grouped none groups runs = ground (arith, runs, remote_groups-grouped 0 groups)
all_groups-grouped (some home) groups runs = elim (Option-cases (get_elem? groups home)) [
  | inl missing ↦ absurd (ground (arith, missing, runs))
  | inr (g, there) ↦ elim (List-cases g) [
    | inl no_keys ↦ ground (arith, there, no_keys, runs, remote_groups-grouped 0 groups)
    | inr (key, keys, some_keys) ↦ ground (
      arith,
      there,
      some_keys,
      runs,
      remote_groups-grouped 0 (Prelude.set groups home []),
      grouped-set groups home g [] there,
    )
  ]
]

grouped-replicate : (n : ℕ) → grouped (replicate n []) ≡ 0
unfolding replicate
grouped-replicate zero = refl
grouped-replicate (suc n) = omega (arith, grouped-replicate n)

-- No key of DEL is lost and none is named twice more.
pub execute_multi_shard-key_count :
    (hash : Bytes → ℕ) (on_thread : ℕ → Bool) (n : ℕ) (keys : List Bytes) (home : Option ℕ)
    {calls : List (Place × List Bytes)}
    → execute_multi_shard on_thread hash n CommandType.del keys home ≡ ok (deleting calls 0)
    → key_count calls ≡ length keys
unfolding execute_multi_shard switch_multi
execute_multi_shard-key_count hash on_thread n keys home {calls} runs =
    let (home', at_home, starts) = >>=-eq-ok (local_home on_thread n home) _ runs in
    let (groups, sorted, rest) =
      >>=-eq-ok (group_keys (index_of hash n) keys (replicate n [])) _ starts in
    let (calls', taken, is) = >>=-eq-ok (all_groups home' groups) _ rest in
    let same : calls' ≡ calls = ground (arith, is) in
    omega (
      arith,
      ap key_count same,
      all_groups-grouped home' groups taken,
      group_keys-grouped (index_of hash n) keys (replicate n []) sorted,
      grouped-replicate n,
    )
