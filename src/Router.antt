-- ===== src/Router.antt =====
-- include/shardRouter.hpp: the shard of a key. The hash `XXH3_64bits` of a library is a parameter.
use tinycache.Prelude.{ℕ, ◌%◌, ◌<◌, ◌==◌, if◌then◌else◌, arith}
use tinycache.Prelude.Bytes.{Bytes}

-- The code asserts that there is a shard.
unfoldable pub get_shard_index : (Bytes → ℕ) → Bytes → ℕ → ℕ
get_shard_index hash key count = if count == 1 then 0 else hash key % count

pub get_shard_index-lt :
    (hash : Bytes → ℕ) (key : Bytes) (count : ℕ)
    → 0 < count
    → get_shard_index hash key count < count
unfolding get_shard_index
get_shard_index-lt hash key count h = grind arith
