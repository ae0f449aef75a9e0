-- ===== src/Executor.antt =====
-- src/commandExecutor.cpp: what a command does to the shard of its key, and its answer.
pub mod Numbers
pub mod Glob
pub mod Inversion
pub mod Refusals
pub mod Rounds
pub mod Matches
pub mod Catalog
pub mod Info
pub mod Values
pub mod Typed
pub mod Answers
use tinycache.Prelude.{
  ℕ, ◌+◌, ◌==◌, if◌then◌else◌, ite, List, [], ◌∷◌, length, get_elem?, Option, none, some, ℤ, pos,
  Bool, true, false, Outcome, ok, fault, dangling, ◌>>=◌,
}
use tinycache.Prelude.Bytes.{Bytes, codes, bytes_discrete}
use tinycache.FlatMap.{FlatMap}
use tinycache.Resp.{RespType, RespValue, resp, text, number}
use tinycache.Shard
use tinycache.Shard.{LruShard}
use tinycache.Shard.Time.{TimePoint}
use tinycache.Command.{to_uppercase}
use Numbers.{stoull}

-- `cmd.args[i]`
abbrev pub arg : ℕ → List Bytes → Outcome Bytes
arg i args = elim (get_elem? args i) [ none ↦ fault dangling | some s ↦ ok s ]

abbrev pub null_answer : RespValue
null_answer = resp RespType.null_bulk_string (text [])

abbrev pub ok_answer : RespValue
ok_answer = resp RespType.simple_string (text (codes "OK"))

abbrev pub error_answer : Bytes → RespValue
error_answer s = resp RespType.error (text s)

abbrev pub syntax_error : RespValue
syntax_error = error_answer (codes "ERR syntax error")

abbrev pub range_error : RespValue
range_error = error_answer (codes "ERR value is not an integer or out of range")

abbrev pub bulk_or_null : Option Bytes → RespValue
bulk_or_null none = null_answer
bulk_or_null (some v) = resp RespType.bulk_string (text v)

unfoldable pub process_ping : List Bytes → RespValue
process_ping (s ∷ []) = resp RespType.bulk_string (text s)
process_ping _ = resp RespType.bulk_string (text (codes "PONG"))

module _ {M : Type 0} (F : FlatMap M) where
  abbrev pub Answer : Type 0
  Answer = Outcome (LruShard M × RespValue)

  unfoldable pub process_get : List Bytes → TimePoint → LruShard M → Answer
  process_get args now s = do
    key ← arg 0 args
    (s', r) ← Shard.get F key now s
    ok (s', bulk_or_null r)

  -- The write at the end of `processSetCommand`.
  unfoldable pub write : Bytes → List Bytes → Option ℕ → TimePoint → LruShard M → Answer
  write key args expire_seconds now s = do
    v ← arg 1 args
    s' ← Shard.set F key v expire_seconds now s
    ok (s', ok_answer)

  -- `SET key value NX` writes if `get` finds nothing, `SET key value XX` if it finds something.
  unfoldable pub write_if : Bool → Bytes → List Bytes → TimePoint → TimePoint → LruShard M → Answer
  write_if wanted key args now later s = do
    (s', found) ← Shard.get F key now s
    elim found [
      | none ↦ if wanted then ok (s', null_answer) else write key args none later s'
      | some _ ↦ if wanted then write key args none later s' else ok (s', null_answer)
    ]

  -- `later` is the reading of the clock by `set`.
  unfoldable pub process_set : List Bytes → TimePoint → TimePoint → LruShard M → Answer
  process_set args now later s = do
    key ← arg 0 args
    if length args == 3
        then (do
          option ← arg 2 args
          ite (bytes_discrete (to_uppercase option) (codes "NX"))
              (write_if false key args now later s)
              (ite (bytes_discrete (to_uppercase option) (codes "XX"))
                (write_if true key args now later s) (ok (s, syntax_error))))
        else if length args == 4
        then (do
          option ← arg 2 args
          count ← arg 3 args
          ite (bytes_discrete (to_uppercase option) (codes "EX"))
              (elim (stoull count) [
                | none ↦ ok (s, range_error)
                | some seconds ↦ write key args (some seconds) later s
              ])
              (ok (s, syntax_error)))
        else write key args none later s

  unfoldable pub process_del_keys : List Bytes → LruShard M → Outcome (LruShard M × ℕ)
  process_del_keys [] s = ok (s, 0)
  process_del_keys (key ∷ keys) s = do
    (s', deleted) ← Shard.del F key s
    (s'', count) ← process_del_keys keys s'
    ok (s'', if deleted then count + 1 else count)

  unfoldable pub process_expire : List Bytes → TimePoint → LruShard M → Answer
  process_expire args now s = do
    count ← arg 1 args
    elim (stoull count) [
      | none ↦ ok (s, range_error)
      | some seconds ↦ do
        key ← arg 0 args
        (s', there) ← Shard.expire F key seconds now s
        ok (s', resp RespType.integer (number (pos (if there then 1 else 0))))
    ]

  unfoldable pub process_ttl : List Bytes → TimePoint → TimePoint → LruShard M → Answer
  process_ttl args now later s = do
    key ← arg 0 args
    (s', n) ← Shard.ttl F key now later s
    ok (s', resp RespType.integer (number n))
