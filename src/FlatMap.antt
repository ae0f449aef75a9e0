-- ===== src/FlatMap.antt =====
-- `boost::unordered_flat_map` as include/lruShard.hpp uses it: the interface that the shard takes as
-- a parameter, with the documented behaviour of the calls. Keys are compared by their bytes.
pub mod Assoc
use tinycache.Prelude.{ℕ, ◌+◌, ◌≡◌, ite, Option, none, some}
use tinycache.Prelude.Bytes.{Bytes, bytes_discrete}

-- The mapped value is a list iterator, an address in the model.
pub record FlatMap (M : Type 0) : Type 0 where
  pub empty : M
  pub find : Bytes → M → Option ℕ
  pub emplace : Bytes → ℕ → M → M
  pub erase : Bytes → M → M
  pub size : M → ℕ
  pub find-empty : (j : Bytes) → find j empty ≡ none
  pub find-emplace :
      (k j : Bytes) (a : ℕ) (m : M)
      → find k m ≡ none
      → find j (emplace k a m) ≡ ite (bytes_discrete k j) (some a) (find j m)
  pub find-erase :
      (k j : Bytes) (m : M) → find j (erase k m) ≡ ite (bytes_discrete k j) none (find j m)
  pub size-empty : size empty ≡ 0
  pub size-emplace :
      (k : Bytes) (a : ℕ) (m : M) → find k m ≡ none → size (emplace k a m) ≡ size m + 1
  pub size-erase : (k : Bytes) (a : ℕ) (m : M) → find k m ≡ some a → size (erase k m) + 1 ≡ size m
