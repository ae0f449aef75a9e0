-- ===== src/Server/Bounds.antt =====
-- Bounds on what src/config.cpp and src/server.cpp hand to the shards and the sessions.
use tinycache.Prelude.{
  ℕ, zero, suc, ◌<◌, ◌≡◌, ◌^◌, refl, arith, Bool, true, false, List, [], ◌∷◌, length, pos, negsuc,
  ℤ,
}
use tinycache.Prelude.Bytes.{word}
use tinycache.FlatMap.{FlatMap}
use tinycache.Config.{Settings, to_unsigned, positive_or, get_config}
use tinycache.Pool.{new_pool, new_worker, length-replicate, at_least_one}
use tinycache.Server.{Server, new_server, take_shard, listener}

-- The range of `std::int64_t`, for what the configuration holds.
abbrev pub Fits64 : ℤ → Type 0
Fits64 (pos n) = n < 2 ^ 63
Fits64 (negsuc n) = n < 2 ^ 63

abbrev pub AllBelow : ℕ → List ℕ → Type 0
AllBelow n [] = Unit
AllBelow n (i ∷ is) = (i < n) × AllBelow n is

positive_or-bounds :
    (z : ℤ)
    → Fits64 z
    → (0 < to_unsigned 64 (positive_or 1024 z)) × (to_unsigned 64 (positive_or 1024 z) < word)
positive_or-bounds (pos zero) h = (omega arith, omega arith)
positive_or-bounds (pos (suc n)) h = (omega arith, omega arith)
positive_or-bounds (negsuc n) h = (omega arith, omega arith)

to_unsigned-lt : (z : ℤ) → to_unsigned 16 z < 65536
to_unsigned-lt (pos n) = omega arith
to_unsigned-lt (negsuc n) = omega arith

at_least_one-bounds : (n : ℕ) → n < 65536 → (0 < at_least_one n) × (at_least_one n < 65536)
at_least_one-bounds n h = (ground arith, ground arith)

pub listener-AllBelow :
    {M : Type 0} (n : ℕ) (outcomes : List Bool) (v : Server M)
    → length v.shard_pool.workers ≡ n
    → 0 < n
    → AllBelow n (listener outcomes v)
unfolding listener take_shard
listener-AllBelow n [] v size some_shard = tt
listener-AllBelow n (true ∷ outcomes) v size some_shard =
    (omega (arith, size), listener-AllBelow n outcomes _ size some_shard)
listener-AllBelow n (false ∷ outcomes) v size some_shard =
    listener-AllBelow n outcomes _ size some_shard

-- Whatever 64-bit sizes and whatever shard count `config.toml` holds: the message limit and the memory
-- limit are positive and fit 64 bits, the pool has between 1 and 65535 shards, and every connection
-- that the listener accepts has the index of one of them as its home shard.
pub new_server-bounds :
    {M : Type 0} (F : FlatMap M) (t : Settings) (outcomes : List Bool)
    → Fits64 t.max_message_size
    → Fits64 t.max_memory_bytes_per_shard
    → (0 < (get_config t).max_message_size)
      × ((get_config t).max_message_size < word)
      × (0 < (get_config t).max_memory_bytes_per_shard)
      × ((get_config t).max_memory_bytes_per_shard < word)
      × (0 < length (new_server F (get_config t)).shard_pool.workers)
      × (length (new_server F (get_config t)).shard_pool.workers < 65536)
      × AllBelow
          (length (new_server F (get_config t)).shard_pool.workers)
          (listener outcomes (new_server F (get_config t)))
unfolding get_config new_pool
new_server-bounds F t outcomes h h' =
    let (m0, m1) = positive_or-bounds t.max_message_size h in
    let (b0, b1) = positive_or-bounds t.max_memory_bytes_per_shard h' in
    let count = to_unsigned 16 (positive_or 1 t.shard_count) in
    let (low, high) = at_least_one-bounds count (to_unsigned-lt (positive_or 1 t.shard_count)) in
    let size =
      length-replicate (at_least_one count)
        (new_worker F (get_config t).max_memory_bytes_per_shard) in
    (
      m0,
      m1,
      b0,
      b1,
      rw size low,
      rw size high,
      listener-AllBelow _ outcomes (new_server F (get_config t)) refl (rw size low),
    )
