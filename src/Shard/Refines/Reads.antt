-- ===== src/Shard/Refines/Reads.antt =====
-- `get`, `ttl` and `del` of src/lruShard.cpp against Shard/Spec.antt.
use tinycache.Prelude.{◌≡◌, refl, Option, none, some, ◌∷◌, arith, Bool-cases, inl, inr, ok, negsuc}
use tinycache.Prelude.Bytes.{Bytes}
use tinycache.Prelude.Keyed.{without_absent}
use tinycache.FlatMap.{FlatMap}
use tinycache.Shard
use tinycache.Shard.{
  Node, LruShard, erase_node, delete, map_find, remove_key, count_eviction, count_expired,
}
use tinycache.Shard.Time.{TimePoint, is_expired}
use tinycache.Shard.Spec
use tinycache.Shard.Nodes.{node_for, entry_of}
use tinycache.Shard.Valid.{
  IsValid, view, removed, remove_key-removed, view-removed, entries-erase_node, found_at,
}
use tinycache.Shard.Relink.{to_front-IsConsistent, moved-Links}
use tinycache.Shard.Refines.{Implements, lookup_cases, removed-IsValid, drop_expired-Implements}

module _ {M : Type 0} (F : FlatMap M) {s : LruShard M} (valid : IsValid F s) (k : Bytes) where
  touched-Implements :
      (n : Node)
      → node_for k s.lru_list ≡ some n
      → Implements F (ok (record s { lru_list = n ∷ erase_node n.it s.lru_list }, some n.value)) (
        record (view s) { entries = entry_of n ∷ Spec.drop_key k (view s).entries },
        some n.value,
      )
  touched-Implements n found = (
    record s { lru_list = n ∷ erase_node n.it s.lru_list },
    refl,
    record {
      consistent =
          to_front-IsConsistent F valid.consistent k found n s.expire_map s.used_payload_bytes
            s.next refl refl (moved-Links F valid.consistent k found) valid.consistent.ordered refl
            valid.consistent.small;
      bounded = valid.bounded;
    },
    rw (entries-erase_node F valid.consistent k found),
  )

  -- `get` on a valid shard ends without a fault and leaves it valid; it returns what the view has under
  -- the key, moves the entry to the front, and drops it instead if it has expired.
  pub get-Implements :
      (now : TimePoint) → Implements F (Shard.get F k now s) (Spec.get k now (view s))
  unfolding Shard.get Spec.get
  get-Implements now = elim (lookup_cases F valid k) [
    | inl (miss, gone, absent) ↦ (s, ground arith, valid, ground arith)
    | inr (n, found, hit, seen) ↦ elim (Bool-cases (is_expired n.expire_at now)) [
      | inl late ↦
          let (s', runs, v, w) =
            drop_expired-Implements F valid k n (let r : Option Bytes = none in r) found in
          (s', ground (arith, found_at F valid.consistent k found), v, ground arith)
      | inr alive ↦
          let (s', runs, v, w) = touched-Implements n found in
          (s', ground (arith, found_at F valid.consistent k found), v, ground arith)
    ]
  ]

  -- `ttl` on a valid shard ends without a fault and leaves it valid; it returns -2 for a key that is
  -- missing or has expired, which it drops, -1 for one with no deadline, and else the whole seconds
  -- that remain at the second reading of the clock.
  pub ttl-Implements :
      (now later : TimePoint)
      → Implements F (Shard.ttl F k now later s) (Spec.ttl k now later (view s))
  unfolding Shard.ttl Spec.ttl
  ttl-Implements now later = elim (lookup_cases F valid k) [
    | inl (miss, gone, absent) ↦ (s, ground arith, valid, ground arith)
    | inr (n, found, hit, seen) ↦ elim (Bool-cases (is_expired n.expire_at now)) [
      | inl late ↦
          let (s', runs, v, w) = drop_expired-Implements F valid k n (negsuc 1) found in
          (s', ground (arith, found_at F valid.consistent k found), v, ground arith)
      | inr alive ↦ (s, ground (arith, found_at F valid.consistent k found), valid, ground arith)
    ]
  ]

  -- `del` on a valid shard ends without a fault and leaves it valid; it drops the key, whether or not
  -- it has expired, and tells whether it was there.
  pub del-Implements : Implements F (Shard.del F k s) (Spec.del k (view s))
  unfolding Shard.del Spec.del map_find remove_key count_eviction count_expired
  del-Implements = elim (lookup_cases F valid k) [
    | inl (miss, gone, absent) ↦ (
      s,
      ground arith,
      valid,
      ground (arith, without_absent (λ (e : Spec.Entry). e.key) k (view s).entries gone),
    )
    | inr (n, found, hit, seen) ↦ (
      removed F s n delete,
      ground (arith, remove_key-removed F valid.consistent k found delete),
      removed-IsValid F valid k n delete found,
      ground (arith, view-removed F valid.consistent k found delete),
    )
  ]
