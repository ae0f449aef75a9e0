-- ===== src/Shard/Refines/Deadlines.antt =====
-- `expire` of src/lruShard.cpp against Shard/Spec.antt.
use tinycache.Prelude.{ℕ, ◌≡◌, refl, sym, ◌∙◌, Option, some, List, arith, inl, inr, ok}
use tinycache.Prelude.Bytes.{Bytes}
use tinycache.FlatMap.{FlatMap}
use tinycache.Shard
use tinycache.Shard.{Node, Expiry, LruShard, write_node, link_expiry}
use tinycache.Shard.Time.{TimePoint, add_seconds}
use tinycache.Shard.Spec
use tinycache.Shard.Links.{Links, Links-drop_cell}
use tinycache.Shard.Nodes.{node_for}
use tinycache.Shard.Valid.{
  IsConsistent, IsValid, view, heap_of, table_of, drop_linked, drop_linked-IsOrdered,
  table_of-drop_linked, erase_linked-drop_linked, found_at, found_key, found-Linked,
}
use tinycache.Shard.InPlace.{
  it_of-write_node, length-write_node, write_node-Distinct, total-write_node, entries-write_node,
  heap_of-write_node, set_deadline_absent,
}
use tinycache.Shard.Relink.{Links-link_expiry, link_expiry-IsOrdered}
use tinycache.Shard.Refines.{Implements, lookup_cases}

module _ {M : Type 0} (F : FlatMap M) {s : LruShard M} (valid : IsValid F s) (k : Bytes) where
  c : IsConsistent F s
  c = valid.consistent

  module _ {n : Node} (found : node_for k s.lru_list ≡ some n) (t : TimePoint) where
    abbrev rest : List Expiry
    rest = drop_linked n.expire_it s.expire_map

    abbrev link : Option ℕ × List Expiry × ℕ
    link = link_expiry (some t) n.it rest s.next

    abbrev timed : Node
    timed = record n { expire_at = some t; expire_it = link.0 }

    abbrev timed_shard : LruShard M
    timed_shard = record s {
      lru_list = write_node timed s.lru_list;
      expire_map = link.1;
      next = link.2;
    }

    timed-Links : Links (heap_of (write_node timed s.lru_list)) (table_of link.1) link.2
    timed-Links = rw (heap_of-write_node n timed refl refl s.lru_list (found_at F c k found)) (
        Links-link_expiry rest {next = s.next}
          (rw (table_of-drop_linked n.expire_it s.expire_map)
            (Links-drop_cell c.links n.it n (found_at F c k found)))
          (some t) n.it s.next timed (ground arith) (c.links.node_old n.it n (found_at F c k found))
          (omega arith) refl refl refl)

    timed-IsValid : IsValid F timed_shard
    timed-IsValid = record {
      consistent = record {
        index =
            λ j. c.index j ∙ sym (it_of-write_node n timed refl refl j s.lru_list c.distinct at_n);
        count = c.count ∙ sym (length-write_node n timed refl refl s.lru_list);
        distinct = write_node-Distinct n timed refl refl s.lru_list c.distinct at_n;
        ordered =
            link_expiry-IsOrdered (some t) n.it rest s.next
              (drop_linked-IsOrdered n.expire_it s.expire_map c.ordered);
        links = timed-Links;
        used = c.used ∙ sym (total-write_node n timed refl refl s.lru_list c.distinct at_n refl);
        small = c.small;
        range = c.range;
      };
      bounded = valid.bounded;
    }
      where
        at_n : Shard.node_at n.it s.lru_list ≡ some n
        at_n = found_at F c k found

  -- `expire` on a valid shard whose new deadline is in range ends without a fault and leaves it valid:
  -- a key that is there gets the deadline and keeps its place, also where its old one has passed, and
  -- the result tells whether it was there.
  pub expire-Implements :
      (seconds : ℕ) (now t : TimePoint)
      → add_seconds now seconds ≡ ok t
      → Implements F (Shard.expire F k seconds now s) (Spec.expire k t (view s))
  unfolding Shard.expire Spec.expire
  expire-Implements seconds now t h = elim (lookup_cases F valid k) [
    | inl (miss, gone, absent) ↦
        (s, ground arith, valid, ground (arith, set_deadline_absent k t s.lru_list absent))
    | inr (n, found, hit, seen) ↦ (
      timed_shard found t,
      ground (
        arith,
        found_at F c k found,
        erase_linked-drop_linked s.expire_map n (found-Linked F c k found),
      ),
      timed-IsValid found t,
      ground (
        arith,
        found_key F c k found,
        entries-write_node n (timed found t) refl refl t s.lru_list c.distinct
            (found_at F c k found) refl refl,
      ),
    )
  ]
