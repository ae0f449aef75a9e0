-- ===== src/Shard/Nodes.antt =====
-- The node list: keys and addresses name the same nodes, and what an erasure leaves.
use tinycache.Prelude.{
  ℕ, ◌+◌, ◌≡◌, refl, inl, inr, Option, none, some, List, [], ◌∷◌, map, arith, length, ◌==◌,
  Bool-cases, cell_at, erase_at, cell_at-erase_at, erase_at_absent, cell_at-address,
}
use tinycache.Prelude.Bytes.{Bytes, bytes_discrete}
use tinycache.Prelude.Keyed.{keyed, without, keyed-key, without_absent}
use tinycache.Shard.{Node, node_at, erase_node}
use tinycache.Shard.Spec.{Entry, total}

abbrev pub entry_of : Node → Entry
entry_of n = record { key = n.key; value = n.value; expire_at = n.expire_at }

abbrev pub entries : List Node → List Entry
entries = map entry_of

abbrev pub node_for : Bytes → List Node → Option Node
node_for = keyed (λ n. n.key)

abbrev pub without_node : Bytes → List Node → List Node
without_node = without (λ n. n.key)

-- No address and no key stands twice.
abbrev pub Distinct : List Node → Type 0
Distinct [] = Unit
Distinct (n ∷ ns) = (node_at n.it ns ≡ none) × (node_for n.key ns ≡ none) × Distinct ns

pub node_at-it : (a : ℕ) (ns : List Node) {n : Node} → node_at a ns ≡ some n → n.it ≡ a
node_at-it a ns = cell_at-address (λ (m : Node). m.it) a ns

pub node_for-key : (k : Bytes) (ns : List Node) {n : Node} → node_for k ns ≡ some n → n.key ≡ k
node_for-key k ns = keyed-key (λ (m : Node). m.key) k ns

pub node_for→node_at :
    (k : Bytes) (ns : List Node) {n : Node}
    → Distinct ns
    → node_for k ns ≡ some n
    → node_at n.it ns ≡ some n
unfolding keyed cell_at
node_for→node_at k [] d h = cc
node_for→node_at k (m ∷ ns) {n} (fresh, new, d) h = elim (bytes_discrete m.key k) [
  | yes e ↦ ground arith
  | no ne ↦
      let later : node_for k ns ≡ some n = ground arith in
      let there = node_for→node_at k ns d later in ground arith
]

pub node_at→node_for :
    (a : ℕ) (ns : List Node) {n : Node}
    → Distinct ns
    → node_at a ns ≡ some n
    → node_for n.key ns ≡ some n
unfolding keyed cell_at
node_at→node_for a [] d h = cc
node_at→node_for a (m ∷ ns) {n} (fresh, new, d) h = elim (Bool-cases (m.it == a)) [
  | inl here ↦ ground arith
  | inr later ↦ let there = node_at→node_for a ns d (rw later at h) in ground arith
]

pub erase_node-without :
    (a : ℕ) (ns : List Node) {n : Node}
    → Distinct ns
    → node_at a ns ≡ some n
    → erase_node a ns ≡ without_node n.key ns
unfolding cell_at erase_at without keyed
erase_node-without a [] d h = cc
erase_node-without a (m ∷ ns) {n} (fresh, new, d) h = elim (Bool-cases (m.it == a)) [
  | inl here ↦ ground (
    arith,
    erase_at_absent (λ (x : Node). x.it) a ns,
    without_absent (λ (x : Node). x.key) n.key ns,
  )
  | inr later ↦ ground (
    arith,
    erase_node-without a ns {n = n} d (rw later at h),
    node_at→node_for a ns {n = n} d (rw later at h),
  )
]

node_for-erase_none :
    (a : ℕ) (j : Bytes) (ns : List Node)
    → node_for j ns ≡ none
    → node_for j (erase_node a ns) ≡ none
unfolding erase_at keyed
node_for-erase_none a j [] h = refl
node_for-erase_none a j (m ∷ ns) h = ground (arith, node_for-erase_none a j ns)

pub erase_node-Distinct : (a : ℕ) (ns : List Node) → Distinct ns → Distinct (erase_node a ns)
unfolding erase_at
erase_node-Distinct a [] d = tt
erase_node-Distinct a (m ∷ ns) (fresh, new, d) = elim (Bool-cases (m.it == a)) [
  | inl here ↦ rw here (erase_node-Distinct a ns d)
  | inr later ↦ rw later (
    ground (arith, cell_at-erase_at (λ (x : Node). x.it) a m.it ns),
    node_for-erase_none a m.key ns new,
    erase_node-Distinct a ns d,
  )
]

abbrev pub size_of : Node → ℕ
size_of n = length n.key + length n.value

pub total-erase_node :
    (a : ℕ) (ns : List Node) {n : Node}
    → Distinct ns
    → node_at a ns ≡ some n
    → (total (entries (erase_node a ns)) + size_of n ≡ total (entries ns))
      × (length (erase_node a ns) + 1 ≡ length ns)
unfolding cell_at erase_at total
total-erase_node a [] d h = cc
total-erase_node a (m ∷ ns) {n} (fresh, new, d) h = elim (Bool-cases (m.it == a)) [
  | inl here ↦ ground (arith, erase_at_absent (λ (x : Node). x.it) a ns)
  | inr later ↦
      rw later
        (let ih = total-erase_node a ns {n = n} d (rw later at h) in (omega arith, omega arith))
]
