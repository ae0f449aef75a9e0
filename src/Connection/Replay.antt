-- ===== src/Connection/Replay.antt =====
-- What a client may ask, and what a table of entries would answer: the promise of the whole cache
-- (src/session.cpp over src/commandExecutor.cpp and src/lruShard.cpp).
use tinycache.Prelude.{suc, ℕ, ◌+◌, ◌≤◌, ◌<◌, ◌≡◌, ◌≢◌, ◌⊎◌, List, [], ◌∷◌, length, none, some, ok}
use tinycache.Prelude.Bytes.{Bytes, codes, word}
use tinycache.Resp.{RespType, RespValue, resp, number}
use tinycache.Shard.Time.{TimePoint, add_seconds}
use tinycache.Shard.Seen.{value_of, ttl_of, is_there}
use tinycache.Command.{CommandType, Command}
use tinycache.Executor.{bulk_or_null, ok_answer}
use tinycache.Executor.Numbers.{stoull}
use tinycache.Executor.Typed.{AllShort}
use tinycache.Resp.Parser.{max_bulk_size}
use tinycache.Dispatch.{integer_answer}
use tinycache.Dispatch.Table.{Table, forget_all, removed}
use tinycache.Dispatch.Lookups.{look_at}
use tinycache.Dispatch.Stores.{set_deadline, integer}

pub data Ask : Type 0 where
  get_key ttl_key : Bytes → Ask
  store expire_key : Bytes → Bytes → Ask
  delete_keys : List Bytes → Ask

-- The words that a client sends.
abbrev pub words_of : Ask → List Bytes
words_of (get_key k) = codes "GET" ∷ k ∷ []
words_of (ttl_key k) = codes "TTL" ∷ k ∷ []
words_of (store k v) = codes "SET" ∷ k ∷ v ∷ []
words_of (expire_key k count) = codes "EXPIRE" ∷ k ∷ count ∷ []
words_of (delete_keys ks) = codes "DEL" ∷ ks

abbrev pub command_of : Ask → Command
command_of (get_key k) = record { type = CommandType.get; args = k ∷ [] }
command_of (ttl_key k) = record { type = CommandType.ttl; args = k ∷ [] }
command_of (store k v) = record { type = CommandType.set; args = k ∷ v ∷ [] }
command_of (expire_key k count) = record { type = CommandType.expire; args = k ∷ count ∷ [] }
command_of (delete_keys ks) = record { type = CommandType.del; args = ks }

-- The words are no longer than the parser allows; a value fits the limit `m` of a shard with its key;
-- a deadline is a time point of 64 bits; and 1 to 10 keys are deleted at a time.
abbrev pub CanAsk : ℕ → TimePoint → Ask → Type 0
CanAsk m now (get_key k) = AllShort max_bulk_size (k ∷ [])
CanAsk m now (ttl_key k) = AllShort max_bulk_size (k ∷ [])
CanAsk m now (store k v) = AllShort max_bulk_size (k ∷ v ∷ []) × (length k + length v ≤ m)
CanAsk m now (expire_key k count) =
    AllShort max_bulk_size (k ∷ count ∷ [])
    × (seconds : ℕ) × (u : TimePoint) × (stoull count ≡ some seconds)
    × (add_seconds now seconds ≡ ok u)
    × (u < word)
CanAsk m now (delete_keys ks) = AllShort max_bulk_size ks × (1 ≤ length ks) × (length ks ≤ 10)

-- The question `i` is answered with the two readings `clock i`, of 64 bits.
abbrev pub AllAsk : ℕ → (ℕ → TimePoint × TimePoint) → ℕ → List Ask → Type 0
AllAsk m clock i [] = Unit
AllAsk m clock i (a ∷ asks) =
    ((clock i).0 < word)
    × ((clock i).1 < word)
    × CanAsk m (clock i).0 a
    × AllAsk m clock (suc i) asks

-- SET puts the value under the key; other keys have what they had, or are evicted.
abbrev pub Stores : Bytes → Bytes → Table → Table → Type 0
Stores k v t t' =
    (t' k ≡ some (record { key = k; value = v; expire_at = none }))
    × ((j : Bytes) → k ≢ j → (t' j ≡ t j) ⊎ (t' j ≡ none))

-- A table `t` that is asked answers `v` and becomes `t'`.
abbrev pub Acts : TimePoint → TimePoint → Table → Ask → RespValue → Table → Type 0
Acts now later t (get_key k) v t' = (v ≡ bulk_or_null (value_of (t k) now)) × (t' ≡ look_at k now t)
Acts now later t (ttl_key k) v t' =
    (v ≡ resp RespType.integer (number (ttl_of (t k) now later))) × (t' ≡ look_at k now t)
Acts now later t (store k x) v t' = (v ≡ ok_answer) × Stores k x t t'
Acts now later t (expire_key k count) v t' =
    (v ≡ integer (is_there (t k)))
    × (seconds : ℕ) × (u : TimePoint) × (stoull count ≡ some seconds)
    × (add_seconds now seconds ≡ ok u)
    × (t' ≡ set_deadline k u t)
Acts now later t (delete_keys ks) v t' =
    (v ≡ integer_answer (removed ks t)) × (t' ≡ forget_all ks t)

-- A table that is asked one thing after the other, from the question `i` on.
pub data Replay (clock : ℕ → TimePoint × TimePoint)
    : ℕ → Table → List Ask → List RespValue → Table → Type 0 where
  nothing : {i : ℕ} {t : Table} → Replay clock i t [] [] t
  asked :
      {i : ℕ} {t t' t'' : Table} {a : Ask} {asks : List Ask} {v : RespValue} {vs : List RespValue}
      → Acts (clock i).0 (clock i).1 t a v t'
      → Replay clock (suc i) t' asks vs t''
      → Replay clock i t (a ∷ asks) (v ∷ vs) t''
