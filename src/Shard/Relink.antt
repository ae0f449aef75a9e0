-- ===== src/Shard/Relink.antt =====
-- A node that comes to the front of the list, with a new deadline or none.
use mathlib.Core.Path.{fun_ext, subst}
use tinycache.Prelude.{
  ℕ, suc, ◌+◌, ◌≤◌, ◌<◌, ◌≡◌, refl, sym, Option, none, some, List, ◌∷◌, arith, length, Option-cases,
  inl, inr, cell_at, cell_at-erase_at,
}
use tinycache.Prelude.Bytes.{Bytes, word}
use tinycache.Prelude.Keyed.{keyed, keyed-without}
use tinycache.FlatMap.{FlatMap}
use tinycache.Shard.{Node, Expiry, LruShard, erase_node, entry_at, emplace_entry, link_expiry}
use tinycache.Shard.Time.{TimePoint}
use tinycache.Shard.Nodes.{
  node_for, Distinct, size_of, entries, erase_node-without, erase_node-Distinct, total-erase_node,
}
use tinycache.Shard.Spec.{total}
use tinycache.Shard.Expiries.{IsOrdered, entry_at-emplace_entry, emplace_entry-IsOrdered}
use tinycache.Shard.Links.{
  Heap, Table, Links, drop_cell, put_cell, Links-put_plain, Links-put_linked,
}
use tinycache.Shard.Valid.{
  IsConsistent, heap_of, table_of, it_of, found_at, found_key, heap_of-erase_node,
}

pub heap_of-cons : (n : Node) (ns : List Node) → heap_of (n ∷ ns) ≡ put_cell n.it n (heap_of ns)
unfolding cell_at
heap_of-cons n ns = refl

table_of-emplace_entry :
    (x : Expiry) (xs : List Expiry)
    → entry_at x.it xs ≡ none
    → table_of (emplace_entry x xs) ≡ put_cell x.it x (table_of xs)
table_of-emplace_entry x xs h = fun_ext (λ e. entry_at-emplace_entry x e xs h)

absent_new :
    {heap : Heap} {table : Table} {next : ℕ}
    → Links heap table next
    → (e : ℕ) → next ≤ e
    → table e ≡ none
absent_new {heap} {table} l e h = elim (Option-cases (table e)) [
  | inl free ↦ free
  | inr (x, there) ↦ absurd (omega (arith, l.entry_old e x there))
]

pub free_new :
    {heap : Heap} {table : Table} {next : ℕ}
    → Links heap table next
    → (a : ℕ) → next ≤ a
    → heap a ≡ none
free_new {heap} l a h = elim (Option-cases (heap a)) [
  | inl free ↦ free
  | inr (n, there) ↦ absurd (omega (arith, l.node_old a n there))
]

-- `link_expiry` sets both iterators of a node that comes in at a free address.
pub Links-link_expiry :
    {heap : Heap} (xs : List Expiry) {next : ℕ}
    → Links heap (table_of xs) next
    → (t : Option TimePoint) (a next' : ℕ) (n : Node) → heap a ≡ none
    → a < next'
    → next ≤ next'
    → n.it ≡ a
    → n.expire_at ≡ t
    → n.expire_it ≡ (link_expiry t a xs next').0
    → Links (put_cell a n heap) (table_of (link_expiry t a xs next').1) (link_expiry t a xs next').2
unfolding link_expiry
Links-link_expiry xs l none a next' n free old grows at_a at_t at_e =
    Links-put_plain l a next' n free at_a old grows at_e at_t
Links-link_expiry xs l (some t) a next' n free old grows at_a at_t at_e =
    let x : Expiry = record { it = next'; time = t; node = a } in
    let new = absent_new l next' grows in
    rw (table_of-emplace_entry x xs new) (
      Links-put_linked l a next' (suc next') n x free at_a (omega arith) (omega arith) new
        (omega arith) refl at_e at_t)

pub link_expiry-IsOrdered :
    (t : Option TimePoint) (a : ℕ) (xs : List Expiry) (next : ℕ)
    → IsOrdered xs
    → IsOrdered (link_expiry t a xs next).1
unfolding link_expiry
link_expiry-IsOrdered none a xs next p = p
link_expiry-IsOrdered (some t) a xs next p =
    emplace_entry-IsOrdered (record { it = next; time = t; node = a }) xs p

module _ {M : Type 0} (F : FlatMap M) {s : LruShard M} (c : IsConsistent F s) {n : Node} (k : Bytes)
    (found : node_for k s.lru_list ≡ some n) where
  abbrev pub to_front : Node → List Expiry → ℕ → ℕ → LruShard M
  to_front n' xs used next = record s {
    lru_list = n' ∷ erase_node n.it s.lru_list;
    expire_map = xs;
    used_payload_bytes = used;
    next = next;
  }

  front_index :
      (n' : Node) (j : Bytes)
      → n'.it ≡ n.it
      → n'.key ≡ n.key
      → F.find j s.map ≡ it_of (node_for j (n' ∷ erase_node n.it s.lru_list))
  unfolding keyed
  front_index n' j same_it same_key = ground (
    arith,
    c.index j,
    found_key F c k found,
    erase_node-without n.it s.lru_list {n = n} c.distinct (found_at F c k found),
    keyed-without (λ (m : Node). m.key) n.key j s.lru_list,
  )

  front_Distinct :
      (n' : Node) → n'.it ≡ n.it → n'.key ≡ n.key → Distinct (n' ∷ erase_node n.it s.lru_list)
  front_Distinct n' same_it same_key = (
    ground (arith, cell_at-erase_at (λ (m : Node). m.it) n.it n'.it s.lru_list),
    ground (
      arith,
      erase_node-without n.it s.lru_list {n = n} c.distinct (found_at F c k found),
      keyed-without (λ (m : Node). m.key) n.key n'.key s.lru_list,
    ),
    erase_node-Distinct n.it s.lru_list c.distinct,
  )

  -- The node found under a key is replaced by one with its key and address, at the front.
  pub to_front-IsConsistent :
      (n' : Node) (xs : List Expiry) (used next : ℕ)
      → n'.it ≡ n.it
      → n'.key ≡ n.key
      → Links (put_cell n.it n' (drop_cell n.it (heap_of s.lru_list))) (table_of xs) next
      → IsOrdered xs
      → used + size_of n ≡ s.used_payload_bytes + size_of n'
      → used < word
      → IsConsistent F (to_front n' xs used next)
  unfolding total
  to_front-IsConsistent n' xs used next same_it same_key l ordered sum small = record {
    index = λ j. front_index n' j same_it same_key;
    count = omega (arith, c.count, left.1);
    distinct = front_Distinct n' same_it same_key;
    ordered = ordered;
    links = rw (heap_of-cons n' (erase_node n.it s.lru_list)) (
        rw (heap_of-erase_node n.it s.lru_list) (
          subst
            (λ a. Links (put_cell a n' (drop_cell n.it (heap_of s.lru_list))) (table_of xs) next)
            (sym same_it) l));
    used = omega (arith, left.0, c.used);
    small = small;
    range = c.range;
  }
    where
      left :
          (total (entries (erase_node n.it s.lru_list)) + size_of n ≡ total (entries s.lru_list))
          × (length (erase_node n.it s.lru_list) + 1 ≡ length s.lru_list)
      left = total-erase_node n.it s.lru_list {n = n} c.distinct (found_at F c k found)

  -- To move the node alone leaves both tables as they were.
  pub moved-Links :
      Links (put_cell n.it n (drop_cell n.it (heap_of s.lru_list))) (table_of s.expire_map) s.next
  moved-Links = rw same c.links
    where
      same : put_cell n.it n (drop_cell n.it (heap_of s.lru_list)) ≡ heap_of s.lru_list
      same = fun_ext (λ b. ground (arith, found_at F c k found))
