-- ===== src/Dispatch/Lookup.antt =====
-- The pool of src/shardPool.cpp as one table: what DEL of src/commandExecutor.cpp does to it.
use tinycache.Prelude
use tinycache.Prelude.{
  ℕ, zero, suc, ◌+◌, ◌<◌, ◌≡◌, ◌≢◌, refl, sym, ap, ◌∙◌, arith, ◌==◌, Bool, true, false, Bool-cases,
  if◌then◌else◌, ite, List, [], ◌∷◌, ◌++◌, length, Option, none, some, inl, inr, Outcome, ok, ◌>>=◌,
  get_elem?, get_elem?-some, get_elem?-set_self, get_elem?-set_ne,
}
use tinycache.Prelude.Bytes.{Bytes, bytes_discrete}
use tinycache.Prelude.Keyed.{keyed-without}
use tinycache.Shard.Spec
use tinycache.Shard.Spec.{Entry, View, entry_for}
use tinycache.Shard.Valid.{view}
use tinycache.Pool.{Worker, Place}
use tinycache.Executor.Answers.{del_all}
use tinycache.Dispatch.Keys.{AllOwn}
use tinycache.Dispatch.Sound.{mine, target, AllCalls}
use tinycache.Dispatch.Groups.{keys_of, keys_at}
use tinycache.Dispatch.Table.{Table, forget, removed, has, has-append}

abbrev seen : {M : Type 0} → Bytes → Option (Worker M) → Option Entry
seen k none = none
seen k (some w) = entry_for k (view w.shard).entries

-- What the pool has under a key, in the shard of the key.
unfoldable pub lookup : {M : Type 0} → (Bytes → ℕ) → List (Worker M) → Table
lookup index ws k = seen k (get_elem? ws (index k))

module _ {M : Type 0} (index : Bytes → ℕ) where
  pub lookup-at :
      (ws : List (Worker M)) (w : Worker M) (k : Bytes) (i : ℕ)
      → index k ≡ i
      → get_elem? ws i ≡ some w
      → lookup index ws k ≡ entry_for k (view w.shard).entries
  unfolding lookup
  lookup-at ws w k i is there = ap (λ a. seen k (get_elem? ws a)) is ∙ ap (seen k) there

  -- A write to one worker changes what is seen of its own keys.
  pub lookup-set :
      (ws : List (Worker M)) (i : ℕ) (w : Worker M) (k : Bytes)
      → i < length ws
      → lookup index (Prelude.set ws i w) k
        ≡ (if index k == i then entry_for k (view w.shard).entries else lookup index ws k)
  unfolding lookup
  lookup-set ws i w k low = elim (Bool-cases (index k == i)) [
    | inl own ↦
        rw own (
          lookup-at (Prelude.set ws i w) w k i (ground (arith, own))
            (get_elem?-set_self ws i w low))
    | inr other ↦
        let ne : i ≢ index k = ground (arith, other) in
        rw other (ap (seen k) (get_elem?-set_ne ws i (index k) w ne))
  ]

-- What is left of the entries.
pub entry_for-del_all :
    (keys : List Bytes) (v : View) (j : Bytes)
    → entry_for j (del_all keys v).0.entries ≡ (if has j keys then none else entry_for j v.entries)
unfolding del_all has Spec.del
entry_for-del_all [] v j = refl
entry_for-del_all (k ∷ ks) v j = ground (
  arith,
  entry_for-del_all ks (Spec.del k v).0 j,
  keyed-without (λ (e : Entry). e.key) k j v.entries,
)

pub del_all-removed :
    (mine_too : Bytes → Bool) (keys : List Bytes) (v : View) (t : Table)
    → AllOwn mine_too keys
    → ((k : Bytes) → mine_too k ≡ true → t k ≡ entry_for k v.entries)
    → (del_all keys v).1 ≡ removed keys t
unfolding del_all removed forget Spec.del
del_all-removed mine_too [] v t own same = refl
del_all-removed mine_too (k ∷ ks) v t own same =
    let rest = del_all-removed mine_too ks (Spec.del k v).0 (forget k t) own.1 (λ j yours.
      ground (arith, same j yours, keyed-without (λ (e : Entry). e.key) k j v.entries)) in
    ground (arith, same k own.0, rest)

-- A key among the shard's own is the shard's own.
pub has-AllOwn :
    (mine_too : Bytes → Bool) (j : Bytes) (keys : List Bytes)
    → AllOwn mine_too keys
    → has j keys ≡ true
    → mine_too j ≡ true
unfolding has
has-AllOwn mine_too j [] own h = cc
has-AllOwn mine_too j (k ∷ ks) own h = elim (bytes_discrete k j) [
  | yes same ↦ rw (sym same) own.0
  | no other ↦ has-AllOwn mine_too j ks own.1 (ground (arith, other, h))
]

pub has-keys_of :
    (index : Bytes → ℕ) (j : Bytes) (keys : List Bytes)
    → has j (keys_of index (index j) keys) ≡ has j keys
unfolding has keys_of
has-keys_of index j [] = refl
has-keys_of index j (k ∷ ks) = elim (bytes_discrete k j) [
  | yes same ↦ ground (arith, same)
  | no other ↦ ground (arith, other, has-keys_of index j ks)
]

-- The keys of all calls, one call behind the other.
abbrev pub flat : List (Place × List Bytes) → List Bytes
flat [] = []
flat ((place, keys) ∷ calls) = keys ++ flat calls

pub has-flat :
    (index : Bytes → ℕ) (on_thread : ℕ → Bool) (n : ℕ) (j : Bytes)
    (calls : List (Place × List Bytes))
    → AllCalls index on_thread n calls
    → has j (flat calls) ≡ has j (keys_at (index j) calls)
unfolding keys_at
has-flat index on_thread n j [] h = refl
has-flat index on_thread n j ((place, keys) ∷ calls) (there, own, rest) =
    let ih = has-flat index on_thread n j calls rest in
    elim (Bool-cases (target place == index j)) [
      | inl here ↦ rw here (
          ground (
            arith,
            has-append j keys (flat calls),
            has-append j keys (keys_at (index j) calls),
            ih,
          ))
      | inr other ↦ rw other (elim (Bool-cases (has j keys)) [
        | inl named ↦
            absurd (ground (arith, other, has-AllOwn (mine index (target place)) j keys own named))
        | inr absent ↦ ground (arith, has-append j keys (flat calls), absent, ih)
      ])
    ]
