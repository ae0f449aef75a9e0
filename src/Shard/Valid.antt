-- ===== src/Shard/Valid.antt =====
-- The invariant of a shard, and the state that `remove_key` leaves.
use mathlib.Core.Path.{fun_ext}
use tinycache.Prelude.{
  ℕ, ◌-◌, ◌≤◌, ◌<◌, ◌≡◌, refl, Option, none, some, List, arith, length, ok, cell_at-erase_at,
  erase_at-write_at,
}
use tinycache.Prelude.Bytes.{Bytes, word, add64_exact}
use tinycache.Prelude.Keyed.{keyed-without, without-map}
use tinycache.FlatMap.{FlatMap}
use tinycache.Shard.{
  Node, Expiry, LruShard, RemovalReason, node_at, erase_node, entry_at, erase_entry, erase_linked,
  payload_bytes, release, count_eviction, count_expired, remove_key,
}
use tinycache.Shard.Spec.{View, total, drop_key}
use tinycache.Shard.Nodes.{
  entry_of, entries, node_for, Distinct, size_of, without_node, node_for→node_at, node_for-key,
  erase_node-without, erase_node-Distinct, total-erase_node,
}
use tinycache.Shard.Expiries.{IsOrdered, erase_entry-IsOrdered}
use tinycache.Shard.Links.{
  Heap, Table, Linked, unset, linked, Links, drop_cell, unlink, Links-drop_cell,
}

abbrev pub it_of : Option Node → Option ℕ
it_of none = none
it_of (some n) = some n.it

abbrev pub heap_of : List Node → Heap
heap_of ns = λ a. node_at a ns

abbrev pub table_of : List Expiry → Table
table_of xs = λ e. entry_at e xs

-- `used` may stand above the limit, as it does inside `set`.
pub record IsConsistent {M : Type 0} (F : FlatMap M) (s : LruShard M) : Type 0 where
  pub index : (k : Bytes) → F.find k s.map ≡ it_of (node_for k s.lru_list)
  pub count : F.size s.map ≡ length s.lru_list
  pub distinct : Distinct s.lru_list
  pub ordered : IsOrdered s.expire_map
  pub links : Links (heap_of s.lru_list) (table_of s.expire_map) s.next
  pub used : s.used_payload_bytes ≡ total (entries s.lru_list)
  pub small : s.used_payload_bytes < word
  pub range : s.max_memory_bytes < word

pub record IsValid {M : Type 0} (F : FlatMap M) (s : LruShard M) : Type 0 where
  pub consistent : IsConsistent F s
  pub bounded : s.used_payload_bytes ≤ s.max_memory_bytes

abbrev pub view : {M : Type 0} → LruShard M → View
view s = record {
  entries = entries s.lru_list;
  max_memory_bytes = s.max_memory_bytes;
  evictions = s.evictions;
  expired = s.expired;
}

-- The entries without the one that an iterator points at.
unfoldable pub drop_linked : Option ℕ → List Expiry → List Expiry
drop_linked none xs = xs
drop_linked (some e) xs = erase_entry e xs

pub heap_of-erase_node :
    (a : ℕ) (ns : List Node) → heap_of (erase_node a ns) ≡ drop_cell a (heap_of ns)
heap_of-erase_node a ns = fun_ext (λ b. cell_at-erase_at (λ (n : Node). n.it) a b ns)

pub table_of-drop_linked :
    (o : Option ℕ) (xs : List Expiry) → table_of (drop_linked o xs) ≡ unlink o (table_of xs)
unfolding drop_linked
table_of-drop_linked none xs = refl
table_of-drop_linked (some e) xs = fun_ext (λ b. cell_at-erase_at (λ (x : Expiry). x.it) e b xs)

pub drop_linked-IsOrdered :
    (o : Option ℕ) (xs : List Expiry) → IsOrdered xs → IsOrdered (drop_linked o xs)
unfolding drop_linked
drop_linked-IsOrdered none xs p = p
drop_linked-IsOrdered (some e) xs p = erase_entry-IsOrdered e xs p

-- The iterator of a linked node is not dangling.
pub erase_linked-drop_linked :
    (xs : List Expiry) (n : Node)
    → Linked (table_of xs) n
    → erase_linked n.expire_it xs ≡ ok (drop_linked n.expire_it xs)
unfolding erase_linked drop_linked
erase_linked-drop_linked xs n (unset p q) = rw p
erase_linked-drop_linked xs n (linked e x p q r s) = ground arith

module _ {M : Type 0} (F : FlatMap M) where
  unfoldable pub removed : LruShard M → Node → RemovalReason → LruShard M
  removed s n reason = record s {
    map = F.erase n.key s.map;
    lru_list = erase_node n.it s.lru_list;
    expire_map = drop_linked n.expire_it s.expire_map;
    used_payload_bytes = s.used_payload_bytes - size_of n;
    evictions = count_eviction reason s.evictions;
    expired = count_expired reason s.expired;
  }

  module _ {s : LruShard M} (c : IsConsistent F s) {n : Node} (k : Bytes)
      (found : node_for k s.lru_list ≡ some n) where
    pub found_at : node_at n.it s.lru_list ≡ some n
    found_at = node_for→node_at k s.lru_list c.distinct found

    pub found_key : n.key ≡ k
    found_key = node_for-key k s.lru_list found

    pub found-Linked : Linked (table_of s.expire_map) n
    found-Linked = c.links.forward n.it n found_at

    pub size_of-le-used : size_of n ≤ s.used_payload_bytes
    size_of-le-used =
        omega (arith, total-erase_node n.it s.lru_list {n = n} c.distinct found_at, c.used)

    pub payload_bytes_exact : payload_bytes n ≡ size_of n
    unfolding payload_bytes
    payload_bytes_exact =
        add64_exact (length n.key) (length n.value) (omega (arith, size_of-le-used, c.small))

    pub remove_key-removed :
        (reason : RemovalReason)
        → remove_key F (Option.some (k, n.it)) reason s ≡ ok (removed s n reason)
    unfolding remove_key removed release
    remove_key-removed reason = ground (
      arith,
      found_at,
      found_key,
      erase_linked-drop_linked s.expire_map n found-Linked,
      payload_bytes_exact,
      size_of-le-used,
      erase_at-write_at (λ (m : Node). m.it) n.it (record n { expire_it = none }) s.lru_list refl,
    )

    erased : erase_node n.it s.lru_list ≡ without_node n.key s.lru_list
    erased = erase_node-without n.it s.lru_list {n = n} c.distinct found_at

    mapped : F.find n.key s.map ≡ some n.it
    mapped = rw found_key (rw (c.index k) (rw found))

    pub removed-IsConsistent : (reason : RemovalReason) → IsConsistent F (removed s n reason)
    unfolding removed
    removed-IsConsistent reason = record {
      index = λ j. ground (
        arith,
        F.find-erase n.key j s.map,
        c.index j,
        erased,
        keyed-without (λ (m : Node). m.key) n.key j s.lru_list,
      );
      count = omega (
        arith,
        F.size-erase n.key n.it s.map mapped,
        c.count,
        total-erase_node n.it s.lru_list {n = n} c.distinct found_at,
      );
      distinct = erase_node-Distinct n.it s.lru_list c.distinct;
      ordered = drop_linked-IsOrdered n.expire_it s.expire_map c.ordered;
      links = rw (heap_of-erase_node n.it s.lru_list) (
          rw (table_of-drop_linked n.expire_it s.expire_map)
            (Links-drop_cell c.links n.it n found_at));
      used = omega (arith, c.used, total-erase_node n.it s.lru_list {n = n} c.distinct found_at);
      small = omega (arith, c.small);
      range = c.range;
    }

    pub entries-erase_node : entries (erase_node n.it s.lru_list) ≡ drop_key k (entries s.lru_list)
    entries-erase_node =
        rw erased (rw (without-map (λ e. e.key) entry_of k s.lru_list) (rw found_key))

    -- What is seen of the shard afterwards: the key is gone.
    pub view-removed :
        (reason : RemovalReason)
        → view (removed s n reason) ≡ record (view s) {
          entries = drop_key k (entries s.lru_list);
          evictions = count_eviction reason s.evictions;
          expired = count_expired reason s.expired;
        }
    unfolding removed
    view-removed reason = rw entries-erase_node
