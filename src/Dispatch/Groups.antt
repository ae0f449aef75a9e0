-- ===== src/Dispatch/Groups.antt =====
-- How DEL of src/commandExecutor.cpp sorts its keys by their shards.
use mathlib.Core.Path.{subst}
use tinycache.Prelude
use tinycache.Prelude.{
  ℕ, zero, suc, ◌+◌, ◌-◌, ◌<◌, ◌≤◌, ◌≡◌, ◌≢◌, refl, sym, ap, ◌∙◌, arith, ◌==◌, ltb, Bool, true,
  false, Bool-cases, List, [], ◌∷◌, ◌++◌, length, Option, none, some, inl, inr, Outcome, ok, ◌>>=◌,
  get_elem?, length-set, get_elem?-some, get_elem?-set_self, get_elem?-set_ne, get_elem?-lt,
  if◌then◌else◌, Option-cases, List-cases,
}
use mathlib.Core.List.{append_assoc, append-nil}
use tinycache.Prelude.Bytes.{Bytes}
use tinycache.Pool.{Place, local_shard}
use tinycache.Dispatch.{push_key, group_keys, remote_groups}
use tinycache.Dispatch.Keys.{AllOwn}
use tinycache.Dispatch.Sound.{mine, target, AllCalls}

-- The keys whose shard is `i`, in their order.
unfoldable pub keys_of : (Bytes → ℕ) → ℕ → List Bytes → List Bytes
keys_of index i [] = []
keys_of index i (key ∷ keys) =
    if index key == i then key ∷ keys_of index i keys else keys_of index i keys

-- The keys that the calls take to shard `i`.
unfoldable pub keys_at : ℕ → List (Place × List Bytes) → List Bytes
keys_at i [] = []
keys_at i ((place, keys) ∷ calls) =
    if target place == i then keys ++ keys_at i calls else keys_at i calls

abbrev pub or_empty : Option (List Bytes) → List Bytes
or_empty none = []
or_empty (some g) = g

-- The group of a shard, which is empty outside of the groups.
abbrev pub group_at : ℕ → List (List Bytes) → List Bytes
group_at i groups = or_empty (get_elem? groups i)

module _ (index : Bytes → ℕ) where
  pub keys_of-AllOwn : (i : ℕ) (keys : List Bytes) → AllOwn (mine index i) (keys_of index i keys)
  unfolding keys_of
  keys_of-AllOwn i [] = tt
  keys_of-AllOwn i (key ∷ keys) = elim (Bool-cases (index key == i)) [
    | inl own ↦ rw own (own, keys_of-AllOwn i keys)
    | inr other ↦ rw other (keys_of-AllOwn i keys)
  ]

  push_key-group_at :
      (i : ℕ) (key : Bytes) (groups : List (List Bytes))
      → i < length groups
      → (groups' : List (List Bytes)) × (push_key i key groups ≡ ok groups')
        × (length groups' ≡ length groups)
        × ((j : ℕ)
            → group_at j groups'
              ≡ (if i == j then group_at j groups ++ key ∷ [] else group_at j groups))
  unfolding push_key
  push_key-group_at i key groups h =
      let (g, there) = get_elem?-some groups i h in
      (
        Prelude.set groups i (g ++ key ∷ []),
        ground (arith, there),
        length-set groups i (g ++ key ∷ []),
        λ j. elim (Bool-cases (i == j)) [
          | inl same ↦
              let here : i ≡ j = ground (arith, same) in
              ground (arith, here, there, get_elem?-set_self groups i (g ++ key ∷ []) h)
          | inr other ↦
              rw other
                (ap or_empty (get_elem?-set_ne groups i j (g ++ key ∷ []) (ground (arith, other))))
        ],
      )

  pub group_keys-keys_of :
      (keys : List Bytes) (groups : List (List Bytes))
      → ((key : Bytes) → index key < length groups)
      → (groups' : List (List Bytes)) × (group_keys index keys groups ≡ ok groups')
        × (length groups' ≡ length groups)
        × ((j : ℕ) → group_at j groups' ≡ group_at j groups ++ keys_of index j keys)
  unfolding group_keys keys_of
  group_keys-keys_of [] groups h = (groups, refl, refl, λ j. sym (append-nil (group_at j groups)))
  group_keys-keys_of (key ∷ keys) groups h =
      let (middle, pushed, same, first) = push_key-group_at (index key) key groups (h key) in
      let (groups', runs, same', rest) = group_keys-keys_of keys middle (λ k. rw same (h k)) in
      (
        groups',
        rw pushed runs,
        same' ∙ same,
        λ j. rest j ∙ elim (Bool-cases (index key == j)) [
          | inl own ↦
              rw (first j, own) (append_assoc (group_at j groups) (key ∷ []) (keys_of index j keys))
          | inr other ↦ rw (first j, other) refl
        ],
      )

keys_at-group :
    (i j : ℕ) (g : List Bytes) (groups : List (List Bytes))
    → keys_at j (remote_groups i (g ∷ groups))
      ≡ (if i == j then g else []) ++ keys_at j (remote_groups (suc i) groups)
unfolding keys_at remote_groups
keys_at-group i j [] groups = elim (Bool-cases (i == j)) [
  | inl here ↦ rw here refl
  | inr other ↦ rw other refl
]
keys_at-group i j (key ∷ keys) groups = elim (Bool-cases (i == j)) [
  | inl here ↦ rw here refl
  | inr other ↦ rw other refl
]

keys_at_before :
    (i j : ℕ) (groups : List (List Bytes)) → j < i → keys_at j (remote_groups i groups) ≡ []
unfolding keys_at remote_groups
keys_at_before i j [] h = refl
keys_at_before i j (g ∷ groups) h =
    let other : (i == j) ≡ false = ground arith in
    rw (keys_at-group i j g groups, other) (keys_at_before (suc i) j groups (omega arith))

-- The calls for the groups from shard `i` on take each group to its shard.
pub keys_at-remote_groups :
    (d i j : ℕ) (groups : List (List Bytes))
    → j ≡ i + d
    → keys_at j (remote_groups i groups) ≡ group_at d groups
unfolding keys_at remote_groups get_elem?
keys_at-remote_groups d i j [] h = refl
keys_at-remote_groups zero i j (g ∷ groups) h =
    let here : (i == j) ≡ true = ground arith in
    rw (keys_at-group i j g groups, here, keys_at_before (suc i) j groups (omega arith))
      (append-nil g)
keys_at-remote_groups (suc d) i j (g ∷ groups) h =
    let other : (i == j) ≡ false = ground arith in
    rw (keys_at-group i j g groups, other) (keys_at-remote_groups d (suc i) j groups (omega arith))

-- Clearing the group of the local shard leaves the other groups.
pub keys_at-cleared :
    (h j : ℕ) (g : List Bytes) (groups : List (List Bytes))
    → get_elem? groups h ≡ some g
    → keys_at j ((local_shard h, g) ∷ remote_groups 0 (Prelude.set groups h [])) ≡ group_at j groups
unfolding keys_at
keys_at-cleared h j g groups there =
    let rest = keys_at-remote_groups j 0 j (Prelude.set groups h []) (omega arith) in
    elim (Bool-cases (h == j)) [
      | inl here ↦
          let same : h ≡ j = ground (arith, here) in
          let group : group_at j groups ≡ g = rw (sym same) (ap or_empty there) in
          let cleared : group_at j (Prelude.set groups h []) ≡ [] =
            rw (sym same)
              (ap or_empty (get_elem?-set_self groups h [] (get_elem?-lt groups h there))) in
          rw (here, rest ∙ cleared, group) (append-nil g)
      | inr other ↦
          rw other (rest ∙ ap or_empty (get_elem?-set_ne groups h j [] (ground (arith, other))))
    ]

module _ (index : Bytes → ℕ) (on_thread : ℕ → Bool) (n : ℕ) where
  pub remote_groups-AllCalls :
      (i : ℕ) (groups : List (List Bytes))
      → i + length groups ≤ n
      → ((d : ℕ) → AllOwn (mine index (i + d)) (group_at d groups))
      → AllCalls index on_thread n (remote_groups i groups)
  unfolding remote_groups get_elem?
  remote_groups-AllCalls i [] h own = tt
  remote_groups-AllCalls i (g ∷ groups) h own =
      let rest =
        remote_groups-AllCalls (suc i) groups (omega arith) (λ d.
          subst (λ a. AllOwn (mine index a) (group_at d groups)) (omega arith) (own (suc d))) in
      elim (List-cases g) [
        | inl no_keys ↦ rw no_keys rest
        | inr (key, keys, some_keys) ↦ rw some_keys (
            (
              (omega arith, tt),
              subst (λ a. AllOwn (mine index a) (key ∷ keys)) (omega arith)
                  (subst (AllOwn (mine index (i + 0))) some_keys (own 0)),
              rest,
            ))
      ]
