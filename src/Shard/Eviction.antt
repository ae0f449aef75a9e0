-- ===== src/Shard/Eviction.antt =====
-- `enforce_max_memory` of src/lruShard.cpp against the longest front part that fits.
use tinycache.Prelude.{
  ℕ, zero, suc, ◌+◌, ◌-◌, ◌≤◌, ◌<◌, ◌≡◌, refl, ap, ◌∙◌, sym, some, List, [], ◌∷◌, arith, length,
  length-map, true, false, Bool-cases, List-cases, inl, inr, Outcome, ok, cell_at, erase_at,
}
use tinycache.FlatMap.{FlatMap}
use tinycache.Shard.{
  Node, LruShard, node_at, erase_node, last_node, eviction, map_find, evict_lru, over_memory,
  enforce_loop, enforce_max_memory, count_eviction, count_expired,
}
use tinycache.Shard.Spec.{View, Entry, total, keep, bump, fit}
use tinycache.Shard.Nodes.{
  entries, node_for, Distinct, size_of, node_at→node_for, total-erase_node, entry_of,
}
use tinycache.Shard.Valid.{
  IsConsistent, IsValid, view, removed, remove_key-removed, removed-IsConsistent,
}

pub keep_all : (m : ℕ) (es : List Entry) → total es ≤ m → keep m es ≡ es
unfolding keep total
keep_all m [] h = refl
keep_all m (e ∷ es) h = ground (arith, keep_all (m - (length e.key + length e.value)) es)

pub length-keep-le : (m : ℕ) (es : List Entry) → length (keep m es) ≤ length es
unfolding keep
length-keep-le m [] = omega arith
length-keep-le m (e ∷ es) = ground (arith, length-keep-le (m - (length e.key + length e.value)) es)

pub last_node→node_at :
    (ns : List Node) {n : Node} → Distinct ns → last_node ns ≡ some n → node_at n.it ns ≡ some n
unfolding last_node cell_at
last_node→node_at [] d h = cc
last_node→node_at (m ∷ []) d h = ground arith
last_node→node_at (m ∷ m' ∷ ns) (fresh, _, d) h =
    let there = last_node→node_at (m' ∷ ns) d h in ground arith

pub last_node-some : (n : Node) (ns : List Node) → (m : Node) × (last_node (n ∷ ns) ≡ some m)
unfolding last_node
last_node-some n [] = (n, refl)
last_node-some n (n' ∷ ns) = last_node-some n' ns

-- To drop the last node of a list that does not fit changes nothing of what is kept.
pub keep-erase_node :
    (m : ℕ) (ns : List Node) {n : Node}
    → Distinct ns
    → last_node ns ≡ some n
    → m < total (entries ns)
    → keep m (entries (erase_node n.it ns)) ≡ keep m (entries ns)
unfolding last_node erase_at keep total
keep-erase_node m [] d h p = cc
keep-erase_node m (x ∷ []) d h p = ground arith
keep-erase_node m (x ∷ x' ∷ ns) {n} (fresh, _, d) h p =
    let there = last_node→node_at (x' ∷ ns) {n = n} d h in
    ground (arith, keep-erase_node (m - size_of x) (x' ∷ ns) {n = n} d h)

module _ {M : Type 0} (F : FlatMap M) where
  -- A round of the loop on a shard that holds a node.
  evict_lru-removed :
      {s : LruShard M} (c : IsConsistent F s) {n : Node}
      → last_node s.lru_list ≡ some n
      → (node_for n.key s.lru_list ≡ some n) × (evict_lru F s ≡ ok (removed F s n eviction))
  unfolding evict_lru map_find
  evict_lru-removed {s} c {n} h =
      let there = last_node→node_at s.lru_list {n = n} c.distinct h in
      let found = node_at→node_for n.it s.lru_list {n = n} c.distinct there in
      (found, ground (arith, c.index n.key, remove_key-removed F c n.key found eviction))

  fit-removed :
      {s : LruShard M} (c : IsConsistent F s) {n : Node}
      → last_node s.lru_list ≡ some n
      → s.max_memory_bytes < s.used_payload_bytes
      → fit (view (removed F s n eviction)) ≡ fit (view s)
  unfolding fit removed bump count_eviction count_expired
  fit-removed {s} c {n} h over =
      let there = last_node→node_at s.lru_list {n = n} c.distinct h in
      let same =
        keep-erase_node s.max_memory_bytes s.lru_list {n = n} c.distinct h
          (omega (arith, c.used)) in
      let m = s.max_memory_bytes in
      let rest = entries (erase_node n.it s.lru_list) in
      let all = entries s.lru_list in
      let one_more : length all - length (keep m all) ≡ suc (length rest - length (keep m all)) =
        omega (
          arith,
          length-keep-le m rest,
          ap length same,
          length-map entry_of s.lru_list,
          length-map entry_of (erase_node n.it s.lru_list),
          (total-erase_node n.it s.lru_list {n = n} c.distinct there).1,
        ) in
      rw same (rw one_more)

  abbrev pub Fits : Outcome (LruShard M) → View → Type 0
  Fits r v = (s' : LruShard M) × (r ≡ ok s') × IsValid F s' × (view s' ≡ v)

  fits_already :
      (s : LruShard M)
      → IsConsistent F s
      → s.used_payload_bytes ≤ s.max_memory_bytes
      → fit (view s) ≡ view s
  unfolding fit bump
  fits_already s c h =
      let all = keep_all s.max_memory_bytes (entries s.lru_list) (omega (arith, c.used)) in
      let none_lost : length (entries s.lru_list) - length (entries s.lru_list) ≡ 0 = omega arith in
      rw all (rw none_lost)

  over_memory-node :
      (s : LruShard M)
      → IsConsistent F s
      → over_memory F s ≡ true
      → (n : Node) × (last_node s.lru_list ≡ some n) × (s.max_memory_bytes < s.used_payload_bytes)
  unfolding over_memory
  over_memory-node s c h = elim (List-cases s.lru_list) [
    | inl none_left ↦ ground arith
    | inr (n, ns, e) ↦ let (m, last) = last_node-some n ns in (m, rw e last, ground arith)
  ]

  within_memory :
      (s : LruShard M)
      → IsConsistent F s
      → over_memory F s ≡ false
      → s.used_payload_bytes ≤ s.max_memory_bytes
  unfolding over_memory total
  within_memory s c h = elim (List-cases s.lru_list) [
    | inl none_left ↦
        let zero_used : s.used_payload_bytes ≡ 0 = rw c.used (rw none_left) in omega arith
    | inr (n, ns, e) ↦ ground arith
  ]

  -- From a consistent shard the loop ends within its fuel, and what is left is the longest front part
  -- that fits.
  enforce_loop-Fits :
      (f : ℕ) (s : LruShard M)
      → IsConsistent F s
      → length s.lru_list ≤ f
      → Fits (enforce_loop F f s) (fit (view s))
  unfolding enforce_loop
  enforce_loop-Fits zero s c h = elim (Bool-cases (over_memory F s)) [
    | inl over ↦
        let (n, last, _) = over_memory-node s c over in
        let there = last_node→node_at s.lru_list {n = n} c.distinct last in
        absurd (omega (arith, (total-erase_node n.it s.lru_list {n = n} c.distinct there).1))
    | inr within ↦ rw within (
        let small = within_memory s c within in
        (s, refl, record { consistent = c; bounded = small }, sym (fits_already s c small)))
  ]
  enforce_loop-Fits (suc f) s c h = elim (Bool-cases (over_memory F s)) [
    | inl over ↦
        let (n, last, above) = over_memory-node s c over in
        let (found, evicts) = evict_lru-removed c last in
        let there = last_node→node_at s.lru_list {n = n} c.distinct last in
        let shorter = (total-erase_node n.it s.lru_list {n = n} c.distinct there).1 in
        let (s', runs, valid, seen) =
          enforce_loop-Fits f (removed F s n eviction)
            (removed-IsConsistent F c n.key found eviction) (unfold removed in omega arith) in
        (s', ground arith, valid, seen ∙ fit-removed c last above)
    | inr within ↦
        let small = within_memory s c within in
        (s, ground arith, record { consistent = c; bounded = small }, sym (fits_already s c small))
  ]

  pub enforce_max_memory-Fits :
      (s : LruShard M) → IsConsistent F s → Fits (enforce_max_memory F s) (fit (view s))
  unfolding enforce_max_memory
  enforce_max_memory-Fits s c = enforce_loop-Fits (length s.lru_list) s c (omega arith)
