-- ===== src/Shard/Reachable.antt =====
-- The states that a shard of src/lruShard.cpp can come to by the calls that its clients make.
use mathlib.Core.Path.{subst}
use tinycache.Prelude.{length, ◌+◌, ℕ, cell_at, ◌<◌, ◌≡◌, refl, Option, arith, Outcome, ok, ◌>>=◌}
use tinycache.Prelude.Bytes.{Bytes, word}
use tinycache.Prelude.Keyed.{keyed}
use tinycache.FlatMap.{FlatMap}
use tinycache.Shard
use tinycache.Shard.{LruShard}
use tinycache.Shard.Time.{TimePoint, add_seconds, deadline}
use tinycache.Shard.Valid.{IsValid}
use tinycache.Shard.Spec.{View, total}
use tinycache.Shard.Refines.{Implements}
use tinycache.Shard.Refines.Reads.{get-Implements, ttl-Implements, del-Implements}
use tinycache.Shard.Refines.Writes.{set-Fits}
use tinycache.Shard.Refines.Deadlines.{expire-Implements}
use tinycache.Shard.Refines.Expiration.{remove_expired_keys-Fits}

-- A call of a public member function that changes the shard, with the clock readings that it makes.
pub data Call : Type 0 where
  get : Bytes → TimePoint → Call
  set : Bytes → Bytes → Option ℕ → TimePoint → Call
  del : Bytes → Call
  expire : Bytes → ℕ → TimePoint → Call
  ttl : Bytes → TimePoint → TimePoint → Call
  remove_expired_keys : TimePoint → Call

-- The state that is left by an operation that also returns a result.
abbrev state_of : {M R : Type 0} → Outcome (LruShard M × R) → Outcome (LruShard M)
state_of r = r >>= λ p. ok p.0

-- The sizes that a call adds up stay below 2 ^ 64, and its deadline is a time point.
unfoldable pub IsAllowed : {M : Type 0} → Call → LruShard M → Type 0
IsAllowed (set k v expire_seconds now) s =
    (s.max_memory_bytes + length k + length v < word)
    × (t : Option TimePoint) × (deadline expire_seconds now ≡ ok t)
IsAllowed (expire k seconds now) s = (t : TimePoint) × (add_seconds now seconds ≡ ok t)
IsAllowed _ s = Unit

module _ {M : Type 0} (F : FlatMap M) where
  unfoldable pub run : Call → LruShard M → Outcome (LruShard M)
  run (get k now) s = state_of (Shard.get F k now s)
  run (set k v expire_seconds now) s = Shard.set F k v expire_seconds now s
  run (del k) s = state_of (Shard.del F k s)
  run (expire k seconds now) s = state_of (Shard.expire F k seconds now s)
  run (ttl k now later) s = state_of (Shard.ttl F k now later s)
  run (remove_expired_keys now) s = Shard.remove_expired_keys F now s

  pub data Reachable (max_memory_bytes : ℕ) : LruShard M → Type 0 where
    started : Reachable max_memory_bytes (Shard.init F max_memory_bytes)
    called :
        {s s' : LruShard M}
        → Reachable max_memory_bytes s
        → (c : Call) → IsAllowed c s
        → run c s ≡ ok s'
        → Reachable max_memory_bytes s'

  pub init-IsValid : (m : ℕ) → m < word → IsValid F (Shard.init F m)
  unfolding Shard.init keyed total cell_at
  init-IsValid m h = record {
    consistent = record {
      index = λ k. F.find-empty k;
      count = F.size-empty;
      distinct = tt;
      ordered = tt;
      links = record {
        forward = λ a n h'. absurd (ground (arith, h'));
        backward = λ e x h'. absurd (ground (arith, h'));
        located = λ a n h'. absurd (ground (arith, h'));
        node_old = λ a n h'. absurd (ground (arith, h'));
        entry_old = λ e x h'. absurd (ground (arith, h'));
      };
      used = refl;
      small = omega arith;
      range = h;
    };
    bounded = omega arith;
  }

  abbrev pub Ends : Outcome (LruShard M) → Type 0
  Ends r = (s' : LruShard M) × (r ≡ ok s') × IsValid F s'

  state-Ends :
      {R : Type 0} (r : Outcome (LruShard M × R)) {v : View × R}
      → Implements F r v
      → Ends (state_of r)
  state-Ends r (s', runs, valid, seen) = (s', rw runs refl, valid)

  -- A call on a valid shard ends without a fault, in a valid shard.
  run-ok : {s : LruShard M} → IsValid F s → (c : Call) → IsAllowed c s → Ends (run c s)
  unfolding run IsAllowed
  run-ok {s} valid (get k now) h = state-Ends (Shard.get F k now s) (get-Implements F valid k now)
  run-ok valid (set k v expire_seconds now) (room, t, in_range) =
      let (s', runs, valid', seen) = set-Fits F valid k v room expire_seconds now in_range in
      (s', runs, valid')
  run-ok {s} valid (del k) h = state-Ends (Shard.del F k s) (del-Implements F valid k)
  run-ok {s} valid (expire k seconds now) (t, in_range) =
      state-Ends (Shard.expire F k seconds now s)
        (expire-Implements F valid k seconds now t in_range)
  run-ok {s} valid (ttl k now later) h =
      state-Ends (Shard.ttl F k now later s) (ttl-Implements F valid k now later)
  run-ok valid (remove_expired_keys now) h =
      let (s', runs, valid', seen) = remove_expired_keys-Fits F now valid in (s', runs, valid')

  -- Every shard that allowed calls lead to, from a new one with a limit below 2 ^ 64, is valid.
  pub Reachable-IsValid : {m : ℕ} {s : LruShard M} → m < word → Reachable m s → IsValid F s
  Reachable-IsValid {m} h started = init-IsValid m h
  Reachable-IsValid h (called r c allowed runs) =
      let (s', runs', valid) = run-ok (Reachable-IsValid h r) c allowed in
      subst (IsValid F) (ground (arith, runs, runs')) valid

  -- In a shard that allowed calls lead to, from a new one with a limit below 2 ^ 64, every allowed
  -- call ends without a fault, in such a shard: no iterator dangles, and no loop runs out of fuel.
  pub Reachable-ok :
      {m : ℕ} {s : LruShard M}
      → m < word
      → Reachable m s
      → (c : Call) → IsAllowed c s
      → (s' : LruShard M) × (run c s ≡ ok s') × Reachable m s'
  Reachable-ok h r c allowed =
      let (s', runs, _) = run-ok (Reachable-IsValid h r) c allowed in
      (s', runs, called r c allowed runs)
