-- ===== src/Shard/Refines.antt =====
-- The operations of src/lruShard.cpp against Shard/Spec.antt: what the proofs share.
pub mod Reads
pub mod Writes
pub mod Deadlines
pub mod Expiration
use mathlib.Core.Option
use tinycache.Prelude.{
  ℕ, suc, ◌+◌, ◌-◌, ◌≤◌, ◌<◌, ◌≡◌, refl, sym, ap, ◌∙◌, Option, none, some, List, [], ◌∷◌, arith,
  length, ◌==◌, if◌then◌else◌, Option-cases, inl, inr, leb, Bool, true, false, Bool-cases, Outcome,
  ok, ◌>>=◌, ◌⊎◌,
}
use tinycache.Prelude.Bytes.{Bytes, word, add64, add64_exact}
use tinycache.Prelude.Keyed.{keyed-map, without-map}
use tinycache.FlatMap.{FlatMap}
use tinycache.Shard
use tinycache.Shard.{
  Node, Expiry, LruShard, erase_node, expiration, delete, RemovalReason, count_eviction,
  count_expired, remove_key, drop_expired, map_find, payload_bytes, resize, release, link_expiry,
  set_existing, set_new, erase_linked,
}
use tinycache.Shard.Time.{TimePoint, is_expired, deadline}
use tinycache.Shard.Spec
use tinycache.Shard.Spec.{View, Entry, entry_for, drop_key, fit, total}
use tinycache.Shard.Nodes.{
  node_for, entry_of, entries, size_of, erase_node-without, total-erase_node,
}
use tinycache.Shard.Valid.{
  IsConsistent, IsValid, view, it_of, heap_of, table_of, removed, remove_key-removed,
  removed-IsConsistent, view-removed, found_at, found_key, found-Linked, size_of-le-used,
  payload_bytes_exact, drop_linked, erase_linked-drop_linked, drop_linked-IsOrdered,
  table_of-drop_linked, heap_of-erase_node,
}
use tinycache.Shard.Eviction.{Fits, enforce_max_memory-Fits}
use tinycache.Shard.Links.{Links, put_cell, drop_cell, Links-drop_cell}
use tinycache.Shard.Relink.{
  to_front, to_front-IsConsistent, moved-Links, Links-link_expiry, link_expiry-IsOrdered,
  heap_of-cons, free_new,
}

-- What is found in the view under a key is the entry of the node found in the list.
entry_for-entries :
    (k : Bytes) (ns : List Node) → entry_for k (entries ns) ≡ Option.map entry_of (node_for k ns)
entry_for-entries k ns = keyed-map (λ e. e.key) entry_of k ns

pub entry_for-none :
    (k : Bytes) (ns : List Node) → node_for k ns ≡ none → entry_for k (entries ns) ≡ none
entry_for-none k ns h = rw (entry_for-entries k ns) (rw h)

pub entry_for-some :
    (k : Bytes) (ns : List Node) {n : Node}
    → node_for k ns ≡ some n
    → entry_for k (entries ns) ≡ some (entry_of n)
entry_for-some k ns h = rw (entry_for-entries k ns) (rw h)

-- The operation ends without a fault, in a valid shard with the promised view, and returns the
-- promised result.
abbrev pub Implements : {M R : Type 0} → FlatMap M → Outcome (LruShard M × R) → View × R → Type 0
Implements {M} F r v = (s' : LruShard M) × (r ≡ ok (s', v.1)) × IsValid F s' × (view s' ≡ v.0)

module _ {M : Type 0} (F : FlatMap M) {s : LruShard M} (valid : IsValid F s) (k : Bytes) where
  c : IsConsistent F s
  c = valid.consistent

  -- The index and the view agree on whether the key is there.
  pub lookup_cases :
      ((F.find k s.map ≡ none)
        × (entry_for k (entries s.lru_list) ≡ none)
        × (node_for k s.lru_list ≡ none))
      ⊎ ((n : Node) × (node_for k s.lru_list ≡ some n)
          × (F.find k s.map ≡ some n.it)
          × (entry_for k (entries s.lru_list) ≡ some (entry_of n)))
  lookup_cases = elim (Option-cases (node_for k s.lru_list)) [
    | inl miss ↦ inl (rw (c.index k) (rw miss), entry_for-none k s.lru_list miss, miss)
    | inr (n, hit) ↦ inr (n, hit, rw (c.index k) (rw hit), entry_for-some k s.lru_list hit)
  ]

  -- A node that is found can be removed, for any reason, and the shard stays valid.
  pub removed-IsValid :
      (n : Node) (reason : RemovalReason)
      → node_for k s.lru_list ≡ some n
      → IsValid F (removed F s n reason)
  unfolding removed
  removed-IsValid n reason found = record {
    consistent = removed-IsConsistent F c k found reason;
    bounded = omega (arith, valid.bounded);
  }

  pub drop_expired-Implements :
      {R : Type 0} (n : Node) (r : R)
      → node_for k s.lru_list ≡ some n
      → Implements F (drop_expired F k n.it s r) (Spec.drop_expired k (view s), r)
  unfolding drop_expired Spec.drop_expired count_eviction count_expired
  drop_expired-Implements n r found = (
    removed F s n expiration,
    rw (remove_key-removed F c k found expiration),
    removed-IsValid n expiration found,
    view-removed F c k found expiration,
  )
