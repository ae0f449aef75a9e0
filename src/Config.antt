-- ===== src/Config.antt =====
-- include/config.hpp and src/config.cpp: the settings that the server starts with.
use tinycache.Prelude.{ℕ, zero, suc, ◌%◌, ◌-◌, ◌^◌, Bool, ℤ, pos, negsuc}
use tinycache.Prelude.Bytes.{Bytes}

-- What the `value_or` calls on `config.toml` return.
pub record Settings : Type 0 where
  pub host : Bytes
  pub port : ℤ
  pub thread_affinity_enabled : Bool
  pub max_message_size : ℤ
  pub max_memory_bytes_per_shard : ℤ
  pub preallocated_map_capacity_per_shard : ℤ
  pub shard_count : ℤ

pub record Config : Type 0 where
  pub host : Bytes
  pub port : ℕ
  pub max_message_size : ℕ
  pub max_memory_bytes_per_shard : ℕ
  pub preallocated_map_capacity_per_shard : ℕ
  pub shard_count : ℕ
  pub thread_affinity_enabled : Bool

-- A signed number as an unsigned one of `w` bits.
abbrev pub to_unsigned : ℕ → ℤ → ℕ
to_unsigned w (pos n) = n % 2 ^ w
to_unsigned w (negsuc n) = 2 ^ w - 1 - n % 2 ^ w

-- `value <= 0 ? fallback : value`
abbrev pub positive_or : ℕ → ℤ → ℤ
positive_or fallback (pos zero) = pos fallback
positive_or fallback (pos (suc n)) = pos (suc n)
positive_or fallback (negsuc n) = pos fallback

-- `value < 0 ? 0 : value`
abbrev pub not_negative : ℤ → ℤ
not_negative (pos n) = pos n
not_negative (negsuc n) = pos 0

unfoldable pub get_config : Settings → Config
get_config t = record {
  host = t.host;
  port = to_unsigned 16 t.port;
  max_message_size = to_unsigned 64 (positive_or 1024 t.max_message_size);
  max_memory_bytes_per_shard = to_unsigned 64 (positive_or 1024 t.max_memory_bytes_per_shard);
  preallocated_map_capacity_per_shard =
      to_unsigned 64 (not_negative t.preallocated_map_capacity_per_shard);
  shard_count = to_unsigned 16 (positive_or 1 t.shard_count);
  thread_affinity_enabled = t.thread_affinity_enabled;
}
