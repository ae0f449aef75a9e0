-- ===== src/Shard/InPlace.antt =====
-- A node that is written in place, with the same address and key.
use mathlib.Core.Path.{fun_ext}
use tinycache.Prelude.{
  ℕ, ◌≡◌, refl, none, some, List, [], ◌∷◌, arith, length, Bool-cases, inl, inr, ◌==◌, cell_at,
  write_at, write_at_absent, cell_at-write_at_ne, cell_at-write_at_self,
}
use tinycache.Prelude.Bytes.{Bytes}
use tinycache.Prelude.Keyed.{keyed}
use tinycache.Shard.{Node, node_at, write_node}
use tinycache.Shard.Time.{TimePoint}
use tinycache.Shard.Spec.{total, set_deadline}
use tinycache.Shard.Links.{put_cell, drop_cell}
use tinycache.Shard.Nodes.{node_for, entries, Distinct, node_at→node_for}
use tinycache.Shard.Valid.{it_of, heap_of}

abbrev it_field : Node → ℕ
it_field n = n.it

pub set_deadline_absent :
    (k : Bytes) (t : TimePoint) (ns : List Node)
    → node_for k ns ≡ none
    → set_deadline k t (entries ns) ≡ entries ns
unfolding keyed set_deadline
set_deadline_absent k t [] h = refl
set_deadline_absent k t (m ∷ ns) h = ground (arith, set_deadline_absent k t ns)

-- `n'` is to be written over `n`, which has the same address and key.
module _ (n n' : Node) (same_it : n'.it ≡ n.it) (same_key : n'.key ≡ n.key) where
  pub it_of-write_node :
      (j : Bytes) (ns : List Node)
      → Distinct ns
      → node_at n.it ns ≡ some n
      → it_of (node_for j (write_node n' ns)) ≡ it_of (node_for j ns)
  unfolding cell_at write_at keyed
  it_of-write_node j [] d h = cc
  it_of-write_node j (m ∷ ns) (fresh, new, d) h = elim (Bool-cases (m.it == n.it)) [
    | inl here ↦ ground (arith, write_at_absent it_field n' ns)
    | inr later ↦ ground (arith, it_of-write_node j ns d (rw later at h))
  ]

  pub length-write_node : (ns : List Node) → (length (write_node n' ns) ≡ length ns)
  unfolding write_at
  length-write_node [] = refl
  length-write_node (m ∷ ns) = ground (arith, length-write_node ns)

  pub write_node-Distinct :
      (ns : List Node) → Distinct ns → node_at n.it ns ≡ some n → Distinct (write_node n' ns)
  unfolding cell_at write_at
  write_node-Distinct [] d h = cc
  write_node-Distinct (m ∷ ns) (fresh, new, d) h = elim (Bool-cases (m.it == n'.it)) [
    | inl here ↦
        let same : write_node n' ns ≡ ns = write_at_absent it_field n' ns (ground arith) in
        rw (here, same) (ground arith, ground arith, d)
    | inr later ↦
        let there : node_at n.it ns ≡ some n = ground arith in
        rw later (
          ground (arith, cell_at-write_at_ne it_field m.it n' ns),
          ground (arith, it_of-write_node m.key ns d there),
          write_node-Distinct ns d there,
        )
  ]

  pub total-write_node :
      (ns : List Node)
      → Distinct ns
      → node_at n.it ns ≡ some n
      → n'.value ≡ n.value
      → total (entries (write_node n' ns)) ≡ total (entries ns)
  unfolding cell_at write_at total
  total-write_node [] d h same_value = cc
  total-write_node (m ∷ ns) (fresh, new, d) h same_value = elim (Bool-cases (m.it == n.it)) [
    | inl here ↦ ground (arith, write_at_absent it_field n' ns)
    | inr later ↦ ground (arith, total-write_node ns d (rw later at h))
  ]

  pub entries-write_node :
      (t : TimePoint) (ns : List Node)
      → Distinct ns
      → node_at n.it ns ≡ some n
      → n'.value ≡ n.value
      → n'.expire_at ≡ some t
      → entries (write_node n' ns) ≡ set_deadline n.key t (entries ns)
  unfolding cell_at write_at set_deadline
  entries-write_node t [] d h same_value at_t = cc
  entries-write_node t (m ∷ ns) (fresh, new, d) h same_value at_t =
      elim (Bool-cases (m.it == n.it)) [
        | inl here ↦ ground (arith, write_at_absent it_field n' ns, set_deadline_absent n.key t ns)
        | inr later ↦ ground (
          arith,
          entries-write_node t ns d (rw later at h) same_value at_t,
          node_at→node_for n.it ns {n = n} d (rw later at h),
        )
      ]

  pub heap_of-write_node :
      (ns : List Node)
      → node_at n.it ns ≡ some n
      → heap_of (write_node n' ns) ≡ put_cell n.it n' (drop_cell n.it (heap_of ns))
  heap_of-write_node ns h = fun_ext (λ b.
      ground
        (arith, cell_at-write_at_ne it_field b n' ns, cell_at-write_at_self it_field n' ns {x = n}))
