-- ===== src/Shard/Refines/Writes.antt =====
-- `set` of src/lruShard.cpp against Shard/Spec.antt.
use tinycache.Prelude.{
  ℕ, suc, ◌+◌, ◌-◌, ◌≤◌, ◌<◌, ◌≡◌, refl, ap, ◌∙◌, Option, none, some, List, ◌∷◌, arith, length, inl,
  inr, ok,
}
use tinycache.Prelude.Bytes.{Bytes, word, add64, add64_exact}
use tinycache.Prelude.Keyed.{keyed, without_absent}
use tinycache.FlatMap.{FlatMap}
use tinycache.Shard
use tinycache.Shard.{
  Node, Expiry, LruShard, erase_node, link_expiry, resize, release, payload_bytes, set_existing,
  set_new, enforce_max_memory,
}
use tinycache.Shard.Time.{TimePoint, deadline}
use tinycache.Shard.Spec
use tinycache.Shard.Spec.{total, fit, entry_for}
use tinycache.Shard.Links.{Links, put_cell, drop_cell, Links-drop_cell}
use tinycache.Shard.Nodes.{node_for, entries, size_of}
use tinycache.Shard.Valid.{
  IsConsistent, IsValid, it_of, view, heap_of, table_of, drop_linked, drop_linked-IsOrdered,
  table_of-drop_linked, erase_linked-drop_linked, found_at, found_key, found-Linked,
  payload_bytes_exact, size_of-le-used, entries-erase_node,
}
use tinycache.Shard.Eviction.{Fits, enforce_max_memory-Fits}
use tinycache.Shard.Relink.{
  to_front, to_front-IsConsistent, Links-link_expiry, link_expiry-IsOrdered, heap_of-cons, free_new,
}
use tinycache.Shard.Refines.{lookup_cases, entry_for-none}

resize_exact :
    (used old new : ℕ) → old ≤ used → used + new < word → resize used old new + old ≡ used + new
unfolding resize release
resize_exact used old new h small = ground (arith, add64_exact used (new - old))

new_payload_exact :
    (n : Node) (v : Bytes)
    → length n.key + length v < word
    → payload_bytes (record n { value = v }) ≡ length n.key + length v
unfolding payload_bytes
new_payload_exact n v h = add64_exact (length n.key) (length v) h

module _ {M : Type 0} (F : FlatMap M) {s : LruShard M} (valid : IsValid F s) (k v : Bytes)
    (room : s.max_memory_bytes + length k + length v < word) where
  c : IsConsistent F s
  c = valid.consistent

  module _ {n : Node} (found : node_for k s.lru_list ≡ some n) (t : Option TimePoint) where
    abbrev rest : List Expiry
    rest = drop_linked n.expire_it s.expire_map

    abbrev fresh_link : Option ℕ × List Expiry × ℕ
    fresh_link = link_expiry t n.it rest s.next

    abbrev updated : Node
    updated = record n { value = v; expire_at = t; expire_it = fresh_link.0 }

    abbrev resized : ℕ
    resized = resize s.used_payload_bytes (payload_bytes n) (payload_bytes (record n { value = v }))

    updated-Links :
        Links
          (put_cell n.it updated (drop_cell n.it (heap_of s.lru_list)))
          (table_of fresh_link.1)
          fresh_link.2
    updated-Links =
        Links-link_expiry rest {next = s.next}
          (rw (table_of-drop_linked n.expire_it s.expire_map)
            (Links-drop_cell c.links n.it n (found_at F c k found)))
          t n.it s.next updated (ground arith) (c.links.node_old n.it n (found_at F c k found))
          (omega arith) refl refl refl

    resized_exact :
        (resized + size_of n ≡ s.used_payload_bytes + size_of updated) × (resized < word)
    resized_exact =
        let used = s.used_payload_bytes in
        let old = payload_bytes_exact F c k found in
        let key_length : length n.key ≡ length k = ap length (found_key F c k found) in
        let new : payload_bytes (record n { value = v }) ≡ size_of updated =
          new_payload_exact n v (omega (arith, valid.bounded)) in
        let sum =
          resize_exact used (size_of n) (size_of updated) (size_of-le-used F c k found)
            (omega (arith, valid.bounded)) in
        rw (old, new) (sum, omega arith)

    abbrev updated_shard : LruShard M
    updated_shard = to_front F c k found updated fresh_link.1 resized fresh_link.2

    updated-IsConsistent : IsConsistent F updated_shard
    updated-IsConsistent =
        to_front-IsConsistent F c k found updated fresh_link.1 resized fresh_link.2 refl refl
          updated-Links
          (link_expiry-IsOrdered t n.it rest s.next
            (drop_linked-IsOrdered n.expire_it s.expire_map c.ordered))
          resized_exact.0 resized_exact.1

    updated_view : view updated_shard ≡ record (view s) {
      entries = record { key = k; value = v; expire_at = t } ∷ Spec.drop_key k (view s).entries;
    }
    updated_view = rw (entries-erase_node F c k found) (rw (found_key F c k found))

    set_existing-Fits : Fits F (set_existing F n.it v t s) (Spec.set k v t (view s))
    unfolding set_existing Spec.set
    set_existing-Fits =
        let (s', runs, ok_s', seen) =
          enforce_max_memory-Fits F updated_shard updated-IsConsistent in
        (
          s',
          ground (
            arith,
            found_at F c k found,
            erase_linked-drop_linked s.expire_map n (found-Linked F c k found),
          ),
          ok_s',
          seen ∙ ap fit updated_view,
        )

  module _ (missing : F.find k s.map ≡ none) (t : Option TimePoint) where
    abbrev new_link : Option ℕ × List Expiry × ℕ
    new_link = link_expiry t s.next s.expire_map (suc s.next)

    abbrev new_node : Node
    new_node = record { it = s.next; key = k; value = v; expire_at = t; expire_it = new_link.0 }

    abbrev new_shard : LruShard M
    new_shard = record s {
      map = F.emplace k s.next s.map;
      lru_list = new_node ∷ s.lru_list;
      expire_map = new_link.1;
      used_payload_bytes = add64 s.used_payload_bytes (payload_bytes new_node);
      next = new_link.2;
    }

    absent : node_for k s.lru_list ≡ none
    absent = ground (arith, c.index k)

    new_payload :
        add64 s.used_payload_bytes (payload_bytes new_node)
        ≡ s.used_payload_bytes + (length k + length v)
    unfolding payload_bytes
    new_payload =
        rw (add64_exact (length k) (length v) (omega arith))
          (add64_exact s.used_payload_bytes (length k + length v) (omega (arith, valid.bounded)))

    new-Links : Links (heap_of (new_node ∷ s.lru_list)) (table_of new_link.1) new_link.2
    new-Links = rw (heap_of-cons new_node s.lru_list) (
        Links-link_expiry s.expire_map {next = s.next} c.links t s.next (suc s.next) new_node
          (free_new c.links s.next (omega arith)) (omega arith) (omega arith) refl refl refl)

    new_index :
        (j : Bytes)
        → F.find j (F.emplace k s.next s.map) ≡ it_of (node_for j (new_node ∷ s.lru_list))
    unfolding keyed
    new_index j = ground (arith, F.find-emplace k j s.next s.map missing, c.index j)

    new-IsConsistent : IsConsistent F new_shard
    unfolding total
    new-IsConsistent = record {
      index = new_index;
      count = omega (arith, F.size-emplace k s.next s.map missing, c.count);
      distinct = (free_new c.links s.next (omega arith), absent, c.distinct);
      ordered = link_expiry-IsOrdered t s.next s.expire_map (suc s.next) c.ordered;
      links = new-Links;
      used = omega (arith, new_payload, c.used);
      small = omega (arith, new_payload, valid.bounded);
      range = c.range;
    }

    new_view : view new_shard ≡ record (view s) {
      entries = record { key = k; value = v; expire_at = t } ∷ Spec.drop_key k (view s).entries;
    }
    new_view = rw (
        without_absent (λ (e : Spec.Entry). e.key) k (entries s.lru_list)
          (entry_for-none k s.lru_list absent))

    set_new-Fits : Fits F (set_new F k v t s) (Spec.set k v t (view s))
    unfolding set_new Spec.set payload_bytes
    set_new-Fits =
        let (s', runs, ok_s', seen) = enforce_max_memory-Fits F new_shard new-IsConsistent in
        (s', runs, ok_s', seen ∙ ap fit new_view)

  -- `set` on a valid shard, whose limit with the bytes of key and value stays below 2 ^ 64 and
  -- whose deadline is in range, ends without a fault and leaves it valid: the written entry comes
  -- in front of the others, and of all of them the longest front part whose payloads fit the limit
  -- stays, the rest counted as evicted.
  pub set-Fits :
      (expire_seconds : Option ℕ) (now : TimePoint) {t : Option TimePoint}
      → deadline expire_seconds now ≡ ok t
      → Fits F (Shard.set F k v expire_seconds now s) (Spec.set k v t (view s))
  unfolding Shard.set
  set-Fits expire_seconds now {t} h = elim (lookup_cases F valid k) [
    | inl (miss, _, _) ↦
        let (s', runs, ok_s', seen) = set_new-Fits miss t in (s', ground arith, ok_s', seen)
    | inr (n, found, hit, _) ↦
        let (s', runs, ok_s', seen) = set_existing-Fits found t in (s', ground arith, ok_s', seen)
  ]
