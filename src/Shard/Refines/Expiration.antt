-- ===== src/Shard/Refines/Expiration.antt =====
-- `remove_expired_keys` of src/lruShard.cpp against Shard/Spec.antt.
use tinycache.Prelude.{
  ℕ, zero, suc, ◌-◌, ◌≤◌, ◌<◌, ◌≡◌, refl, sym, ap, ◌∙◌, none, some, [], arith, length, length-map,
  inl, inr, true, Bool-cases, List-cases, ok, leb, cell_at-write_at_self, erase_at-write_at,
}
use tinycache.FlatMap.{FlatMap}
use tinycache.Shard
use tinycache.Shard.{
  Node, Expiry, LruShard, node_at, entry_at, erase_node, write_node, erase_entry, expiration,
  payload_bytes, release, remove_key, remove_expired_step, remove_expired_loop, map_find,
  erase_linked, count_expired, count_eviction,
}
use tinycache.Shard.Time.{TimePoint, is_expired}
use tinycache.Shard.Spec
use tinycache.Shard.Spec.{Entry, live, bump}
use tinycache.Shard.Links.{Linked, unset, linked}
use tinycache.Shard.Nodes.{node_for, entry_of, entries, node_at→node_for, total-erase_node}
use tinycache.Shard.Valid.{
  IsConsistent, IsValid, view, table_of, drop_linked, removed, found_at, payload_bytes_exact,
  size_of-le-used,
}
use tinycache.Shard.Eviction.{Fits}
use tinycache.Shard.Refines.{removed-IsValid}
use tinycache.Shard.Due.{
  live-erase_node, length-live-le, all_live, none_ahead, all_ahead, first_entry,
  length-drop_linked-le,
}

module _ {M : Type 0} (F : FlatMap M) {s : LruShard M} (c : IsConsistent F s) {x : Expiry}
    (here : entry_at x.it s.expire_map ≡ some x) where
  -- The node of an entry points back at it and has its deadline.
  owner :
      (n : Node) × (node_at x.node s.lru_list ≡ some n)
      × (n.it ≡ x.node)
      × (n.expire_it ≡ some x.it)
      × (n.expire_at ≡ some x.time)
      × (node_for n.key s.lru_list ≡ some n)
  owner =
      let (n, there, points) = c.links.backward x.it x here in
      (
        n,
        there,
        c.links.located x.node n there,
        points,
        timed n points (c.links.forward x.node n there),
        node_at→node_for x.node s.lru_list {n = n} c.distinct there,
      )
    where
      timed :
          (n : Node)
          → n.expire_it ≡ some x.it
          → Linked (table_of s.expire_map) n
          → n.expire_at ≡ some x.time
      timed n points (unset p q) = cc
      timed n points (linked e x' p q r t) = ground arith

  -- A round of the loop is the removal of the entry's node.
  remove_expired_step-removed : remove_expired_step F x s ≡ ok (removed F s owner.0 expiration)
  unfolding remove_expired_step remove_key removed release payload_bytes drop_linked map_find
      erase_linked
  remove_expired_step-removed =
      let n = owner.0 in
      let unlinked : Node = record n { expire_it = none } in
      let (there, same_it, points, timed, found) = rest in
      let at_n : node_at n.it s.lru_list ≡ some n = found_at F c n.key found in
      let again : Node = record unlinked { expire_it = none } in
      ground (
        arith,
        at_n,
        c.index n.key,
        cell_at-write_at_self (λ (m : Node). m.it) unlinked s.lru_list {x = n} at_n,
        erase_at-write_at (λ (m : Node). m.it) n.it again (write_node unlinked s.lru_list) refl,
        erase_at-write_at (λ (m : Node). m.it) n.it unlinked s.lru_list refl,
        payload_bytes_exact F c n.key found,
        size_of-le-used F c n.key found,
      )
    where
      rest :
          (node_at x.node s.lru_list ≡ some owner.0)
          × (owner.0.it ≡ x.node)
          × (owner.0.expire_it ≡ some x.it)
          × (owner.0.expire_at ≡ some x.time)
          × (node_for owner.0.key s.lru_list ≡ some owner.0)
      rest = (owner.1, owner.2, owner.3, owner.4, owner.5)

  -- To remove an expired node first changes nothing of what all removals lead to.
  remove_expired-removed :
      (now : TimePoint)
      → x.time ≤ now
      → Spec.remove_expired now (view (removed F s owner.0 expiration))
        ≡ Spec.remove_expired now (view s)
  unfolding Spec.remove_expired removed bump count_expired count_eviction is_expired
  remove_expired-removed now late =
      let n = owner.0 in
      let at_n : node_at n.it s.lru_list ≡ some n = found_at F c n.key owner.5 in
      let gone : is_expired n.expire_at now ≡ true = ground (arith, owner.4) in
      let same : live now (entries (erase_node n.it s.lru_list)) ≡ live now (entries s.lru_list) =
        live-erase_node now s.lru_list {n = n} c.distinct at_n gone in
      let shorter = (total-erase_node n.it s.lru_list {n = n} c.distinct at_n).1 in
      let rest = entries (erase_node n.it s.lru_list) in
      let all = entries s.lru_list in
      let one_more : length all - length (live now all)
          ≡ suc (length rest - length (live now all)) =
        omega (
          arith,
          length-live-le now rest,
          ap length same,
          length-map entry_of s.lru_list,
          length-map entry_of (erase_node n.it s.lru_list),
          shorter,
        ) in
      rw same (rw one_more)

module _ {M : Type 0} (F : FlatMap M) where
  none_expired :
      (s : LruShard M) (now : TimePoint)
      → live now (entries s.lru_list) ≡ entries s.lru_list
      → Spec.remove_expired now (view s) ≡ view s
  unfolding Spec.remove_expired bump
  none_expired s now all =
      let none_lost : length (entries s.lru_list) - length (entries s.lru_list) ≡ 0 = omega arith in
      rw all (rw none_lost)

  stops :
      (s : LruShard M) (now : TimePoint)
      → IsValid F s
      → ((e : ℕ) (y : Expiry) → entry_at e s.expire_map ≡ some y → now < y.time)
      → IsValid F s × (view s ≡ Spec.remove_expired now (view s))
  stops s now valid ahead =
      (valid, sym (none_expired s now (all_live F s now valid.consistent ahead)))

  remove_expired_loop-Fits :
      (f : ℕ) (now : TimePoint) (s : LruShard M)
      → IsValid F s
      → length s.expire_map ≤ f
      → Fits F (remove_expired_loop F f now s) (Spec.remove_expired now (view s))
  unfolding remove_expired_loop
  remove_expired_loop-Fits zero now s valid h =
      let empty_map : s.expire_map ≡ [] = ground arith in
      let (ok_s, seen) = stops s now valid (none_ahead s.expire_map now empty_map) in
      (s, ground arith, ok_s, seen)
  remove_expired_loop-Fits (suc f) now s valid h = elim (List-cases s.expire_map) [
    | inl empty_map ↦
        let (ok_s, seen) = stops s now valid (none_ahead s.expire_map now empty_map) in
        (s, ground arith, ok_s, seen)
    | inr (x, xs, shape) ↦ elim (Bool-cases (leb x.time now)) [
      | inl late ↦
          let c = valid.consistent in
          let here = first_entry s.expire_map x xs shape in
          let (n, _, _, points, _, found) = owner F c here in
          let steps = remove_expired_step-removed F c here in
          let shorter = length-drop_linked-le n s.expire_map x xs shape points in
          let (s', runs, ok_s', seen) =
            remove_expired_loop-Fits f now (removed F s n expiration)
              (removed-IsValid F valid n.key n expiration found)
              (unfold removed in omega (arith, ap length shape)) in
          (s', ground arith, ok_s', seen ∙ remove_expired-removed F c here now (ground arith))
      | inr ahead ↦
          let (ok_s, seen) =
            stops s now valid
              (all_ahead s.expire_map x xs now shape valid.consistent.ordered (ground arith)) in
          (s, ground arith, ok_s, seen)
    ]
  ]

  -- `remove_expired_keys` on a valid shard ends without a fault and leaves it valid: the entries whose
  -- deadline is not after `now` are gone, the others stay in their order, and each removal is counted.
  pub remove_expired_keys-Fits :
      (now : TimePoint) {s : LruShard M}
      → IsValid F s
      → Fits F (Shard.remove_expired_keys F now s) (Spec.remove_expired now (view s))
  unfolding Shard.remove_expired_keys
  remove_expired_keys-Fits now {s} valid =
      remove_expired_loop-Fits (length s.expire_map) now s valid (omega arith)
