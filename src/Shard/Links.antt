-- ===== src/Shard/Links.antt =====
-- The two tables of iterators: each node with a deadline points at its entry, and each entry at its
-- node. They are read as functions of an address, so that the order of the lists plays no part.
use tinycache.Prelude.{
  ℕ, ◌<◌, ◌≡◌, ◌≢◌, Option, none, some, arith, ◌==◌, Bool-cases, inl, inr, ◌≤◌, if◌then◌else◌,
}
use tinycache.Shard.{Node, Expiry}

abbrev pub Heap : Type 0
Heap = ℕ → Option Node

abbrev pub Table : Type 0
Table = ℕ → Option Expiry

-- The node and its entry agree, or it has neither deadline nor entry.
pub data Linked (table : Table) (n : Node) : Type 0 where
  unset : n.expire_it ≡ none → n.expire_at ≡ none → Linked table n
  linked :
      (e : ℕ) (x : Expiry)
      → n.expire_it ≡ some e
      → table e ≡ some x
      → x.node ≡ n.it
      → n.expire_at ≡ some x.time
      → Linked table n

pub record Links (heap : Heap) (table : Table) (next : ℕ) : Type 0 where
  pub forward : (a : ℕ) (n : Node) → heap a ≡ some n → Linked table n
  pub backward :
      (e : ℕ) (x : Expiry)
      → table e ≡ some x
      → (n : Node) × (heap x.node ≡ some n) × (n.expire_it ≡ some e)
  pub located : (a : ℕ) (n : Node) → heap a ≡ some n → n.it ≡ a
  pub node_old : (a : ℕ) (n : Node) → heap a ≡ some n → a < next
  pub entry_old : (e : ℕ) (x : Expiry) → table e ≡ some x → e < next

-- A map with an address taken out, or set.
abbrev pub drop_cell {ℓ} : {A : Type ℓ} → ℕ → (ℕ → Option A) → ℕ → Option A
drop_cell a h b = if a == b then none else h b

abbrev pub put_cell {ℓ} : {A : Type ℓ} → ℕ → A → (ℕ → Option A) → ℕ → Option A
put_cell a x h b = if a == b then some x else h b

-- The table without the entry that a node's iterator points at.
abbrev pub unlink : Option ℕ → Table → Table
unlink none table = table
unlink (some e) table = drop_cell e table

unlink_keeps :
    (table : Table) (n : Node) (e : ℕ) (x : Expiry)
    → Linked table n
    → table e ≡ some x
    → x.node ≢ n.it
    → unlink n.expire_it table e ≡ some x
unlink_keeps table n e x (unset p q) h ne = rw p h
unlink_keeps table n e x (linked e' x' p q r s) h ne = rw p (ground arith)

unlink_le :
    (table : Table) (o : Option ℕ) (e : ℕ) (x : Expiry)
    → unlink o table e ≡ some x
    → (table e ≡ some x) × (o ≢ some e)
unlink_le table none e x h = (h, cc)
unlink_le table (some e') e x h = (ground arith, ground arith)

module _ {heap : Heap} {table : Table} {next : ℕ} (l : Links heap table next) where
  drop_forward :
      (a : ℕ) (n : Node)
      → heap a ≡ some n
      → (b : ℕ) (m : Node) → drop_cell a heap b ≡ some m
      → Linked (unlink n.expire_it table) m
  drop_forward a n h b m h' =
      let there : heap b ≡ some m = ground arith in
      let apart : a ≢ b = ground arith in moved there apart (l.forward b m there)
    where
      moved : heap b ≡ some m → a ≢ b → Linked table m → Linked (unlink n.expire_it table) m
      moved there apart (unset p q) = unset p q
      moved there apart (linked e x p q r s) =
          linked e x p
            (unlink_keeps table n e x (l.forward a n h) q
              (ground (arith, l.located a n h, l.located b m there)))
            r s

  drop_backward :
      (a : ℕ) (n : Node)
      → heap a ≡ some n
      → (e : ℕ) (x : Expiry) → unlink n.expire_it table e ≡ some x
      → (m : Node) × (drop_cell a heap x.node ≡ some m) × (m.expire_it ≡ some e)
  drop_backward a n h e x h' =
      let (q, ne) = unlink_le table n.expire_it e x h' in
      let (m, there, points) = l.backward e x q in (m, ground arith, points)

  -- A node is taken out with its entry.
  pub Links-drop_cell :
      (a : ℕ) (n : Node)
      → heap a ≡ some n
      → Links (drop_cell a heap) (unlink n.expire_it table) next
  Links-drop_cell a n h = record {
    forward = drop_forward a n h;
    backward = drop_backward a n h;
    located = λ b m h'. l.located b m (ground arith);
    node_old = λ b m h'. l.node_old b m (ground arith);
    entry_old = λ e x h'. l.entry_old e x (unlink_le table n.expire_it e x h').0;
  }

  -- A node comes in at a free address, with no deadline.
  pub Links-put_plain :
      (a next' : ℕ) (n : Node)
      → heap a ≡ none
      → n.it ≡ a
      → a < next'
      → next ≤ next'
      → n.expire_it ≡ none
      → n.expire_at ≡ none
      → Links (put_cell a n heap) table next'
  Links-put_plain a next' n free at_a old grows p q = record {
    forward = λ b m h'. elim (Bool-cases (a == b)) [
      | inl here ↦ unset (ground arith) (ground arith)
      | inr other ↦ l.forward b m (rw other at h')
    ];
    backward = λ e x h'. let (m, there, points) = l.backward e x h' in (m, ground arith, points);
    located = λ b m h'. elim (Bool-cases (a == b)) [
      | inl here ↦ ground arith
      | inr other ↦ l.located b m (rw other at h')
    ];
    node_old = λ b m h'. elim (Bool-cases (a == b)) [
      | inl here ↦ ground arith
      | inr other ↦ omega (arith, l.node_old b m (rw other at h'))
    ];
    entry_old = λ e x h'. omega (arith, l.entry_old e x h');
  }

  put-Linked_forward :
      (a e : ℕ) (n : Node) (x : Expiry)
      → n.it ≡ a
      → table e ≡ none
      → x.node ≡ a
      → n.expire_it ≡ some e
      → n.expire_at ≡ some x.time
      → (b : ℕ) (m : Node) → put_cell a n heap b ≡ some m
      → Linked (put_cell e x table) m
  put-Linked_forward a e n x at_a new to_a p q b m h' = elim (Bool-cases (a == b)) [
    | inl here ↦
        let same : n ≡ m = ground arith in
        linked e x (ground arith) (ground arith) (ground arith) (ground arith)
    | inr other ↦ kept (l.forward b m (rw other at h'))
  ]
    where
      kept : Linked table m → Linked (put_cell e x table) m
      kept (unset p' q') = unset p' q'
      kept (linked e' x' p' q' r' s') = linked e' x' p' (ground arith) r' s'

  -- A node comes in at a free address, with a new entry for its deadline.
  pub Links-put_linked :
      (a e next' : ℕ) (n : Node) (x : Expiry)
      → heap a ≡ none
      → n.it ≡ a
      → a < next'
      → next ≤ next'
      → table e ≡ none
      → e < next'
      → x.node ≡ a
      → n.expire_it ≡ some e
      → n.expire_at ≡ some x.time
      → Links (put_cell a n heap) (put_cell e x table) next'
  Links-put_linked a e next' n x free at_a old grows new old_e to_a p q = record {
    forward = put-Linked_forward a e n x at_a new to_a p q;
    backward = λ e' x' h'. elim (Bool-cases (e == e')) [
      | inl here ↦ (n, ground arith, ground arith)
      | inr other ↦
          let (m, there, points) = l.backward e' x' (rw other at h') in (m, ground arith, points)
    ];
    located = λ b m h'. elim (Bool-cases (a == b)) [
      | inl here ↦ ground arith
      | inr other ↦ l.located b m (rw other at h')
    ];
    node_old = λ b m h'. elim (Bool-cases (a == b)) [
      | inl here ↦ ground arith
      | inr other ↦ omega (arith, l.node_old b m (rw other at h'))
    ];
    entry_old = λ e' x' h'. elim (Bool-cases (e == e')) [
      | inl here ↦ ground arith
      | inr other ↦ omega (arith, l.entry_old e' x' (rw other at h'))
    ];
  }
