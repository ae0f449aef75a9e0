-- ===== src/Connection/Asks.antt =====
-- The requests that ask (src/session.cpp, src/respParser.cpp, src/command.cpp): their text is one that a
-- client may send, and they become commands.
use tinycache.Prelude.{suc, ℕ, ◌≤◌, ◌≡◌, refl, arith, List, [], ◌∷◌, length, some, ok}
use tinycache.Prelude.Bytes.{Bytes, codes, bytes_discrete}
use tinycache.Resp.{RespValue}
use tinycache.Resp.Parser.{max_bulk_size}
use tinycache.Resp.Reading.{IsSendable, AllSendable}
use tinycache.Shard.Time.{TimePoint}
use tinycache.Command.{CommandType, to_command, determine_command_type, to_uppercase, spec_for}
use tinycache.Command.Shape.{HasArity, word_values, size-words, to_command-words}
use tinycache.Executor.Typed.{AllShort}
use tinycache.Session.Requests.{AllRequests}
use tinycache.Connection.{request}
use tinycache.Connection.Replay.{
  Ask, get_key, ttl_key, store, expire_key, delete_keys, words_of, command_of, CanAsk, AllAsk,
}

-- The requests of a conversation.
abbrev pub requests_of : List Ask → List RespValue
requests_of [] = []
requests_of (a ∷ asks) = request (words_of a) ∷ requests_of asks

pub ask-HasArity :
    (m : ℕ) (now : TimePoint) (a : Ask)
    → CanAsk m now a
    → HasArity (command_of a).type (length (command_of a).args)
unfolding spec_for
ask-HasArity m now (get_key k) h =
    (record { min_args = 1; max_args = 1 }, refl, omega arith, omega arith)
ask-HasArity m now (ttl_key k) h =
    (record { min_args = 1; max_args = 1 }, refl, omega arith, omega arith)
ask-HasArity m now (store k v) h =
    (record { min_args = 2; max_args = 4 }, refl, omega arith, omega arith)
ask-HasArity m now (expire_key k count) h =
    (record { min_args = 2; max_args = 2 }, refl, omega arith, omega arith)
ask-HasArity m now (delete_keys ks) h =
    (record { min_args = 1; max_args = 10 }, refl, omega (arith, h.1), omega (arith, h.2))

pub ask-short :
    (m : ℕ) (now : TimePoint) (a : Ask)
    → CanAsk m now a
    → AllShort max_bulk_size (command_of a).args
ask-short m now (get_key k) h = h
ask-short m now (ttl_key k) h = h
ask-short m now (store k v) h = h.0
ask-short m now (expire_key k count) h = h.0
ask-short m now (delete_keys ks) h = h.0

-- The words of a request become its command.
pub ask-command :
    (m : ℕ) (now : TimePoint) (a : Ask)
    → CanAsk m now a
    → to_command (request (words_of a)) ≡ ok (some (command_of a))
unfolding determine_command_type to_uppercase bytes_discrete
ask-command m now (get_key k) h =
    to_command-words (codes "GET") (k ∷ []) CommandType.get refl (ask-HasArity m now (get_key k) h)
ask-command m now (ttl_key k) h =
    to_command-words (codes "TTL") (k ∷ []) CommandType.ttl refl (ask-HasArity m now (ttl_key k) h)
ask-command m now (store k v) h =
    to_command-words (codes "SET") (k ∷ v ∷ []) CommandType.set refl
      (ask-HasArity m now (store k v) h)
ask-command m now (expire_key k count) h =
    to_command-words (codes "EXPIRE") (k ∷ count ∷ []) CommandType.expire refl
      (ask-HasArity m now (expire_key k count) h)
ask-command m now (delete_keys ks) h =
    to_command-words (codes "DEL") ks CommandType.del refl (ask-HasArity m now (delete_keys ks) h)

words-AllSendable :
    (depth : ℕ) (ss : List Bytes) → AllShort max_bulk_size ss → AllSendable depth (word_values ss)
unfolding IsSendable AllSendable
words-AllSendable depth [] h = tt
words-AllSendable depth (s ∷ ss) h = (h.0, words-AllSendable depth ss h.1)

request-IsSendable :
    (name : Bytes) (args : List Bytes)
    → length name ≤ 10
    → length args ≤ 10
    → AllShort max_bulk_size args
    → IsSendable 0 (request (name ∷ args))
unfolding IsSendable
request-IsSendable name args h few short =
    (omega (arith, size-words args), omega arith, omega (arith, h), words-AllSendable 1 args short)

ask-IsSendable :
    (m : ℕ) (now : TimePoint) (a : Ask) → CanAsk m now a → IsSendable 0 (request (words_of a))
ask-IsSendable m now (get_key k) h =
    request-IsSendable (codes "GET") (k ∷ []) (omega arith) (omega arith) h
ask-IsSendable m now (ttl_key k) h =
    request-IsSendable (codes "TTL") (k ∷ []) (omega arith) (omega arith) h
ask-IsSendable m now (store k v) h =
    request-IsSendable (codes "SET") (k ∷ v ∷ []) (omega arith) (omega arith) h.0
ask-IsSendable m now (expire_key k count) h =
    request-IsSendable (codes "EXPIRE") (k ∷ count ∷ []) (omega arith) (omega arith) h.0
ask-IsSendable m now (delete_keys ks) h =
    request-IsSendable (codes "DEL") ks (omega arith) (omega (arith, h.2)) h.0

pub requests-AllRequests :
    (m : ℕ) (clock : ℕ → TimePoint × TimePoint) (i : ℕ) (asks : List Ask)
    → AllAsk m clock i asks
    → AllRequests (requests_of asks)
requests-AllRequests m clock i [] h = tt
requests-AllRequests m clock i (a ∷ asks) (low, low', can, rest) =
    (ask-IsSendable m (clock i).0 a can, requests-AllRequests m clock (suc i) asks rest)
