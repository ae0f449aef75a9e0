-- ===== src/Tests/Shards.antt =====
-- A shard (src/lruShard.cpp) with one key, whose index is an association list.
use tinycache.Prelude.{◌<◌, ◌≤◌, ◌++◌, ◌+◌, ◌≡◌, refl, [], ◌∷◌, ok, some, List, length, arith}
use tinycache.Prelude.Bytes.{codes, word, bytes_discrete, add64}
use tinycache.FlatMap.Assoc
use tinycache.FlatMap.Assoc.{assoc_map, Entries}
use tinycache.Shard
use tinycache.Shard.{LruShard, Node, Expiry}
use tinycache.Shard.Time.{TimePoint, half_word, add_seconds, deadline}
use tinycache.Prelude.Keyed.{keyed}
use tinycache.Shard.Spec
use tinycache.Shard.Eviction.{Fits}
use tinycache.Shard.Laws.{Overflows, set-evicts}
use tinycache.Shard.Refines.{Implements}
use tinycache.Shard.Refines.Reads.{get-Implements, ttl-Implements, del-Implements}
use tinycache.Shard.Refines.Writes.{set-Fits}
use tinycache.Shard.Refines.Deadlines.{expire-Implements}
use tinycache.Shard.Refines.Expiration.{remove_expired_keys-Fits}
use tinycache.Shard.Valid.{IsValid, view}
use tinycache.Shard.Reachable
use tinycache.Shard.Reachable.{
  Call, Reachable, started, called, run, IsAllowed, Reachable-IsValid, Reachable-ok,
}

abbrev pub now : TimePoint
now = half_word + 5

abbrev pub due : TimePoint
due = half_word + 3000000005

abbrev fresh : LruShard Entries
fresh = Shard.init assoc_map 6

abbrev pub one_key : LruShard Entries
one_key = record {
  map = (codes "a", 0) ∷ [];
  lru_list =
      record {
        it = 0;
        key = codes "a";
        value = codes "12";
        expire_at = some due;
        expire_it = some 1;
      }
      ∷ [];
  expire_map = record { it = 1; time = due; node = 0 } ∷ [];
  max_memory_bytes = 6;
  used_payload_bytes = 3;
  evictions = 0;
  expired = 0;
  next = 2;
}

abbrev write : Call
write = Reachable.set (codes "a") (codes "12") (some 3) now

writes : run assoc_map write fresh ≡ ok one_key
unfolding run Shard.set deadline add_seconds Shard.init Shard.set_new Shard.enforce_max_memory
    Shard.enforce_loop Shard.link_expiry Shard.emplace_entry Shard.payload_bytes Shard.over_memory
    add64 Assoc.find Assoc.emplace
writes = refl

small : 6 < word
small = omega arith

write-IsAllowed : IsAllowed write fresh
unfolding IsAllowed Shard.init deadline add_seconds
write-IsAllowed = (omega arith, some due, refl)

one_key-Reachable : Reachable assoc_map 6 one_key
one_key-Reachable = called started write write-IsAllowed writes

pub one_key-IsValid : IsValid assoc_map one_key
one_key-IsValid = Reachable-IsValid assoc_map small one_key-Reachable

abbrev sweep : Call
sweep = Call.remove_expired_keys due

sweep-IsAllowed : IsAllowed sweep one_key
unfolding IsAllowed
sweep-IsAllowed = tt

Reachable-ok_example :
    (s : LruShard Entries) × (run assoc_map sweep one_key ≡ ok s) × Reachable assoc_map 6 s
Reachable-ok_example = Reachable-ok assoc_map small one_key-Reachable sweep sweep-IsAllowed

-- Four bytes for a second key: the first has to go.
pub room : 6 + length (codes "b") + length (codes "345") < word
room = omega arith

pub in_range : deadline (some 3) now ≡ ok (some due)
unfolding deadline add_seconds
in_range = refl

set-Fits_example :
    Fits assoc_map
      (Shard.set assoc_map (codes "b") (codes "345") (some 3) now one_key)
      (Spec.set (codes "b") (codes "345") (some due) (view one_key))
set-Fits_example =
    set-Fits assoc_map one_key-IsValid (codes "b") (codes "345") room (some 3) now in_range

get-Implements_example :
    Implements assoc_map
      (Shard.get assoc_map (codes "a") now one_key)
      (Spec.get (codes "a") now (view one_key))
get-Implements_example = get-Implements assoc_map one_key-IsValid (codes "a") now

ttl-Implements_example :
    Implements assoc_map
      (Shard.ttl assoc_map (codes "a") now now one_key)
      (Spec.ttl (codes "a") now now (view one_key))
ttl-Implements_example = ttl-Implements assoc_map one_key-IsValid (codes "a") now now

del-Implements_example :
    Implements assoc_map
      (Shard.del assoc_map (codes "a") one_key)
      (Spec.del (codes "a") (view one_key))
del-Implements_example = del-Implements assoc_map one_key-IsValid (codes "a")

later_deadline : add_seconds due 1 ≡ ok (due + 1000000000)
unfolding add_seconds
later_deadline = refl

expire-Implements_example :
    Implements assoc_map
      (Shard.expire assoc_map (codes "a") 1 due one_key)
      (Spec.expire (codes "a") (due + 1000000000) (view one_key))
expire-Implements_example =
    expire-Implements assoc_map one_key-IsValid (codes "a") 1 due (due + 1000000000) later_deadline

remove_expired_keys-Fits_example :
    Fits assoc_map
      (Shard.remove_expired_keys assoc_map due one_key)
      (Spec.remove_expired due (view one_key))
remove_expired_keys-Fits_example = remove_expired_keys-Fits assoc_map due one_key-IsValid

set-evicts_example :
    (s' : LruShard Entries) × (dropped : List Spec.Entry) × (Shard.set assoc_map
        (codes "b")
        (codes "345")
        (some 3)
        now
        one_key
      ≡ ok s')
    × (record { key = codes "b"; value = codes "345"; expire_at = some due }
          ∷ Spec.drop_key (codes "b") (view one_key).entries
        ≡ (view s').entries ++ dropped)
    × (Spec.total (view s').entries ≤ 6)
    × Overflows 6 (view s').entries dropped
set-evicts_example =
    set-evicts assoc_map one_key-IsValid (codes "b") (codes "345") (some 3) now room in_range

found :
    Spec.entry_for (codes "a") (view one_key).entries
    ≡ some (record { key = codes "a"; value = codes "12"; expire_at = some due })
unfolding keyed bytes_discrete
found = refl
