-- ===== src/Shard.antt =====
-- include/lruShard.hpp and src/lruShard.cpp: one shard of the cache, with its iterators.
mod State
pub mod Time
pub mod Spec
pub mod Nodes
pub mod Expiries
pub mod Links
pub mod Valid
pub mod Eviction
pub mod Relink
pub mod InPlace
pub mod Due
pub mod Timed
pub mod Seen
pub mod Home
pub mod Laws
pub mod Refines
pub mod Reachable
use tinycache.Prelude.{
  ℕ, zero, suc, ◌+◌, ◌-◌, ◌/◌, ◌%◌, ◌^◌, ◌≤◌, Bool, true, false, not, ◌&&◌, Option, none, some,
  List, [], ◌∷◌, ltb, leb, if◌then◌else◌, length, cell_at, erase_at, write_at, ℤ, pos, negsuc,
  Outcome, ok, fault, Fault, dangling, out_of_fuel, ◌>>=◌,
}
use tinycache.Prelude.Bytes.{Bytes, add64}
use tinycache.FlatMap.{FlatMap}
unfoldable pub use State.*
use Time.{TimePoint, ns_per_second, is_expired, add_seconds, deadline}

module _ {M : Type 0} (F : FlatMap M) where
  -- `map_.find(key)`
  unfoldable pub map_find : Bytes → M → MapIt
  map_find k m = elim (F.find k m) [ none ↦ none | some a ↦ some (k, a) ]

  unfoldable pub init : ℕ → LruShard M
  init max_memory_bytes = record {
    map = F.empty;
    lru_list = [];
    expire_map = [];
    max_memory_bytes = max_memory_bytes;
    used_payload_bytes = 0;
    evictions = 0;
    expired = 0;
    next = 0;
  }

  unfoldable pub remove_key : MapIt → RemovalReason → LruShard M → Outcome (LruShard M)
  remove_key none reason s = ok s
  remove_key (some (k, a)) reason s = do
    n ← deref a s.lru_list
    expiries ← erase_linked n.expire_it s.expire_map
    ok (record s {
      map = F.erase k s.map;
      lru_list = erase_node a (write_node (record n { expire_it = none }) s.lru_list);
      expire_map = expiries;
      used_payload_bytes = release s.used_payload_bytes (payload_bytes n);
      evictions = count_eviction reason s.evictions;
      expired = count_expired reason s.expired;
    })

  unfoldable pub evict_lru : LruShard M → Outcome (LruShard M)
  evict_lru s = elim (last_node s.lru_list) [
    | none ↦ ok s
    | some n ↦ elim (map_find n.key s.map) [
      | none ↦ ok (record s { lru_list = erase_node n.it s.lru_list })
      | some found ↦ remove_key (some found) eviction s
    ]
  ]

  -- the condition of the loop in `enforce_max_memory`
  unfoldable pub over_memory : LruShard M → Bool
  over_memory s =
      ltb s.max_memory_bytes s.used_payload_bytes && elim s.lru_list [ [] ↦ false | _ ∷ _ ↦ true ]

  unfoldable pub enforce_loop : ℕ → LruShard M → Outcome (LruShard M)
  enforce_loop zero s = if over_memory s then fault out_of_fuel else ok s
  enforce_loop (suc f) s = elim (over_memory s) [
    | true ↦ evict_lru s >>= λ s'. enforce_loop f s'
    | false ↦ ok s
  ]

  -- Each round takes a node off the list, so its length is fuel enough.
  unfoldable pub enforce_max_memory : LruShard M → Outcome (LruShard M)
  enforce_max_memory s = enforce_loop (length s.lru_list) s

  -- What `get` and `ttl` do with a key that has expired.
  unfoldable pub drop_expired : {R : Type 0} → Bytes → ℕ → LruShard M → R → Outcome (LruShard M × R)
  drop_expired k a s r = do s' ← remove_key (some (k, a)) expiration s; ok (s', r)

  unfoldable pub get : Bytes → TimePoint → LruShard M → Outcome (LruShard M × Option Bytes)
  get k now s = elim (F.find k s.map) [
    | none ↦ ok (s, none)
    | some a ↦ do
      n ← deref a s.lru_list
      if is_expired n.expire_at now
          then drop_expired k a s none
          else ok (record s { lru_list = n ∷ erase_node a s.lru_list }, some n.value)
  ]

  -- The branch of `set` for a key that is there.
  unfoldable pub set_existing : ℕ → Bytes → Option TimePoint → LruShard M → Outcome (LruShard M)
  set_existing a v expire_at s = do
    n ← deref a s.lru_list
    let old_payload = payload_bytes n
    let new_payload = payload_bytes (record n { value = v })
    expiries ← erase_linked n.expire_it s.expire_map
    let linked = link_expiry expire_at a expiries s.next
    enforce_max_memory (record s {
      lru_list =
          record n { value = v; expire_at = expire_at; expire_it = linked.0 }
          ∷ erase_node a s.lru_list;
      expire_map = linked.1;
      used_payload_bytes = resize s.used_payload_bytes old_payload new_payload;
      next = linked.2;
    })

  -- The branch of `set` for a new key.
  unfoldable pub set_new : Bytes → Bytes → Option TimePoint → LruShard M → Outcome (LruShard M)
  set_new k v expire_at s =
      let a = s.next in
      let n : Node = record {
        it = a;
        key = k;
        value = v;
        expire_at = expire_at;
        expire_it = none;
      } in
      let linked = link_expiry expire_at a s.expire_map (suc a) in
      enforce_max_memory (record s {
        map = F.emplace k a s.map;
        lru_list = record n { expire_it = linked.0 } ∷ s.lru_list;
        expire_map = linked.1;
        used_payload_bytes = add64 s.used_payload_bytes (payload_bytes n);
        next = linked.2;
      })

  unfoldable pub set : Bytes → Bytes → Option ℕ → TimePoint → LruShard M → Outcome (LruShard M)
  set k v expire_seconds now s = do
    expire_at ← deadline expire_seconds now
    elim (F.find k s.map) [ none ↦ set_new k v expire_at s | some a ↦ set_existing a v expire_at s ]

  unfoldable pub del : Bytes → LruShard M → Outcome (LruShard M × Bool)
  del k s = do
    s' ← remove_key (map_find k s.map) delete s
    ok (s', elim (map_find k s.map) [ none ↦ false | some _ ↦ true ])

  unfoldable pub get_stats : LruShard M → Stats
  get_stats s = record {
    used_payload_bytes = s.used_payload_bytes;
    key_count = F.size s.map;
    evictions = s.evictions;
    expired = s.expired;
    max_memory_bytes = s.max_memory_bytes;
  }

  unfoldable pub expire : Bytes → ℕ → TimePoint → LruShard M → Outcome (LruShard M × Bool)
  expire k seconds now s = elim (F.find k s.map) [
    | none ↦ ok (s, false)
    | some a ↦ do
      n ← deref a s.lru_list
      expiries ← erase_linked n.expire_it s.expire_map
      t ← add_seconds now seconds
      let linked = link_expiry (some t) a expiries s.next
      ok (
        record s {
          lru_list = write_node (record n { expire_at = some t; expire_it = linked.0 }) s.lru_list;
          expire_map = linked.1;
          next = linked.2;
        },
        true,
      )
  ]

  -- The clock is read once for the test and once for what remains.
  unfoldable pub ttl : Bytes → TimePoint → TimePoint → LruShard M → Outcome (LruShard M × ℤ)
  ttl k now later s = elim (F.find k s.map) [
    | none ↦ ok (s, negsuc 1)
    | some a ↦ do
      n ← deref a s.lru_list
      if is_expired n.expire_at now then drop_expired k a s (negsuc 1) else elim n.expire_at [
        | none ↦ ok (s, negsuc 0)
        | some t ↦ ok (s, pos ((t - later) / ns_per_second))
      ]
  ]

  -- One round of `remove_expired_keys`, at the first entry of the multimap.
  unfoldable pub remove_expired_step : Expiry → LruShard M → Outcome (LruShard M)
  remove_expired_step x s = do
    let expiries = erase_entry x.it s.expire_map
    n ← deref x.node s.lru_list
    let unlinked = record s {
      expire_map = expiries;
      lru_list = write_node (record n { expire_it = none }) s.lru_list;
    }
    elim (map_find n.key s.map) [
      | none ↦ ok unlinked
      | some found ↦ remove_key (some found) expiration unlinked
    ]

  -- The loop of `remove_expired_keys`.
  unfoldable pub remove_expired_loop : ℕ → TimePoint → LruShard M → Outcome (LruShard M)
  remove_expired_loop zero now s = elim s.expire_map [
    | [] ↦ ok s
    | x ∷ _ ↦ if leb x.time now then fault out_of_fuel else ok s
  ]
  remove_expired_loop (suc f) now s = elim s.expire_map [
    | [] ↦ ok s
    | x ∷ _ ↦ elim (leb x.time now) [
      | true ↦ remove_expired_step x s >>= λ s'. remove_expired_loop f now s'
      | false ↦ ok s
    ]
  ]

  -- Each round erases an entry, so their number is fuel enough.
  unfoldable pub remove_expired_keys : TimePoint → LruShard M → Outcome (LruShard M)
  remove_expired_keys now s = remove_expired_loop (length s.expire_map) now s

  unfoldable pub get_next_expire_time : LruShard M → Option TimePoint
  get_next_expire_time s = elim s.expire_map [ [] ↦ none | x ∷ _ ↦ some x.time ]
