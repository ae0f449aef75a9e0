-- ===== src/Shard/State.antt =====
-- The state of a shard (include/lruShard.hpp), and what src/lruShard.cpp does with one list, one multimap
-- or one counter of it.
use tinycache.Prelude.{
  ℕ, suc, ◌-◌, Option, none, some, List, [], ◌∷◌, leb, if◌then◌else◌, length, cell_at, erase_at,
  write_at, Outcome, ok, fault, dangling,
}
use tinycache.Prelude.Bytes.{Bytes, add64}
use tinycache.Shard.Time.{TimePoint}

-- `it` is the address that a list iterator to the node holds.
pub record Node : Type 0 where
  pub it : ℕ
  pub key : Bytes
  pub value : Bytes
  pub expire_at : Option TimePoint
  pub expire_it : Option ℕ

-- An entry of the multimap `ExpireMap`: `it` is its own address, `node` the iterator that it maps to.
pub record Expiry : Type 0 where
  pub it : ℕ
  pub time : TimePoint
  pub node : ℕ

-- `next` is the first address that no node and no entry has had.
pub record LruShard (M : Type 0) : Type 0 where
  pub map : M
  pub lru_list : List Node
  pub expire_map : List Expiry
  pub max_memory_bytes : ℕ
  pub used_payload_bytes : ℕ
  pub evictions : ℕ
  pub expired : ℕ
  pub next : ℕ

pub record Stats : Type 0 where
  pub used_payload_bytes : ℕ
  pub key_count : ℕ
  pub evictions : ℕ
  pub expired : ℕ
  pub max_memory_bytes : ℕ

pub data RemovalReason : Type 0 where
  delete eviction expiration : RemovalReason

-- A `Map::iterator`: a key with its mapped list iterator, or `end()`.
abbrev pub MapIt : Type 0
MapIt = Option (Bytes × ℕ)

abbrev pub node_at : ℕ → List Node → Option Node
node_at = cell_at (λ n. n.it)

abbrev pub erase_node : ℕ → List Node → List Node
erase_node = erase_at (λ n. n.it)

abbrev pub write_node : Node → List Node → List Node
write_node = write_at (λ n. n.it)

abbrev pub entry_at : ℕ → List Expiry → Option Expiry
entry_at = cell_at (λ x. x.it)

abbrev pub erase_entry : ℕ → List Expiry → List Expiry
erase_entry = erase_at (λ x. x.it)

-- Reading through a list iterator.
abbrev pub deref : ℕ → List Node → Outcome Node
deref a ns = elim (node_at a ns) [ none ↦ fault dangling | some n ↦ ok n ]

-- `multimap::emplace`: behind the entries that are not later.
unfoldable pub emplace_entry : Expiry → List Expiry → List Expiry
emplace_entry x [] = x ∷ []
emplace_entry x (y ∷ ys) = if leb y.time x.time then y ∷ emplace_entry x ys else x ∷ y ∷ ys

-- `if (expire_it != end()) expire_map_.erase(expire_it)`
unfoldable pub erase_linked : Option ℕ → List Expiry → Outcome (List Expiry)
erase_linked none xs = ok xs
erase_linked (some e) xs = elim (entry_at e xs) [
  | none ↦ fault dangling
  | some _ ↦ ok (erase_entry e xs)
]

unfoldable pub payload_bytes : Node → ℕ
payload_bytes n = add64 (length n.key) (length n.value)

-- `used -= bytes`, which stops at 0.
unfoldable pub release : ℕ → ℕ → ℕ
release used bytes = if leb bytes used then used - bytes else 0

-- `used` after a payload of `old` bytes became one of `new` bytes.
unfoldable pub resize : ℕ → ℕ → ℕ → ℕ
unfolding release
resize used old new = if leb old new then add64 used (new - old) else release used (old - new)

unfoldable pub last_node : List Node → Option Node
last_node [] = none
last_node (n ∷ []) = some n
last_node (n ∷ m ∷ ns) = last_node (m ∷ ns)

-- `expire_it` of a node at `a` after the new deadline, with the entries and the next address.
unfoldable pub link_expiry : Option TimePoint → ℕ → List Expiry → ℕ → Option ℕ × List Expiry × ℕ
link_expiry none a xs next = (none, xs, next)
link_expiry (some t) a xs next =
    (some next, emplace_entry (record { it = next; time = t; node = a }) xs, suc next)

unfoldable pub count_eviction : RemovalReason → ℕ → ℕ
count_eviction eviction n = add64 n 1
count_eviction _ n = n

unfoldable pub count_expired : RemovalReason → ℕ → ℕ
count_expired expiration n = add64 n 1
count_expired _ n = n
