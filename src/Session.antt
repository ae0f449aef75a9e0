-- ===== src/Session.antt =====
-- include/session.hpp and src/session.cpp: a connection, from the bytes that its socket reads to the
-- bytes that it writes. What a command does to the shards is a parameter.
pub mod Rounds
pub mod Chunks
pub mod Requests
pub mod Answers
pub mod Full
pub mod Fine
pub mod Replies
pub mod Safety
use tinycache.Prelude.{
  ℕ, zero, suc, ◌-◌, ◌≤◌, ◌≡◌, ◌==◌, leb, ltb, if◌then◌else◌, Bool, true, false, List, [], ◌∷◌,
  ◌++◌, length, Option, none, some, Outcome, ok, fault, bad_variant, out_of_fuel, ◌>>=◌,
}
use tinycache.Prelude.Bytes.{Bytes, codes}
use tinycache.Resp.{RespType, RespValue, resp, text}
use tinycache.Resp.Parser
use tinycache.Resp.Parser.{ParsingResult, parse}
use tinycache.Resp.Serializer
use tinycache.Resp.Serializer.{Printed, serialize}
use tinycache.Command.{Command, to_command}
use tinycache.Executor.{error_answer}

-- The outcome of `async_read_some`: bytes that came, the end of the stream, or another error.
pub data Event : Type 0 where
  received : Bytes → Event
  eof failed : Event

pub data ReadResult : Type 0 where
  new_message close_connection read_error message_too_large : ReadResult

-- Why a session closes.
pub data End : Type 0 where
  malformed too_large closed : End

-- What a session leaves behind: the messages that `write` handed to the socket, which only logs an
-- error, and the state of the shards.
pub record Effects (S : Type 0) : Type 0 where
  pub sent : List Bytes
  pub state : S

-- What a round of the loop over the buffer comes to.
pub data Round (S : Type 0) : Type 0 where
  again : Bytes → Effects S → Round S
  await_read : Round S
  close : Effects S → Round S

-- What the loop over the buffer comes to: a buffer to read behind, or the end of the session.
pub data Drained (S : Type 0) : Type 0 where
  awaits : Bytes → Effects S → Drained S
  closes : Effects S → Drained S

-- What `run` comes to: it waits for the socket, or it has returned.
pub data Standing (S : Type 0) : Type 0 where
  reading : Bytes → Effects S → Standing S
  ended : End → Effects S → Standing S

abbrev pub malformed_request : RespValue
malformed_request = error_answer (codes "ERR malformed request")

abbrev pub invalid_command : RespValue
invalid_command = error_answer (codes "ERR invalid command")

abbrev pub request_too_large : RespValue
request_too_large = error_answer (codes "ERR request is too large")

-- `max_message_size == 0 ? 1 : max_message_size`
abbrev pub message_limit : ℕ → ℕ
message_limit zero = 1
message_limit (suc n) = suc n

-- `RespValue value;`
abbrev no_value : RespValue
no_value = resp RespType.unknown (text [])

abbrev printed : Printed Bytes → Outcome Bytes
printed (Printed.done s) = ok s
printed Printed.bad_variant = fault bad_variant
printed Printed.out_of_fuel = fault out_of_fuel

-- `read`, with the outcome of the socket: its result, and the buffer afterwards.
unfoldable pub read : ℕ → Event → Bytes → ReadResult × Bytes
read limit event buffer =
    if leb limit (length buffer) then (message_too_large, buffer) else elim event [
      | received s ↦ (new_message, buffer ++ s)
      | eof ↦ (close_connection, buffer)
      | failed ↦ (read_error, buffer)
    ]

module _ {S : Type 0} (execute : Command → S → Outcome (S × RespValue)) where
  unfoldable pub write : RespValue → Effects S → Outcome (Effects S)
  write v e = do s ← printed (serialize v); ok (record e { sent = e.sent ++ s ∷ [] })

  -- The answer to a value of the protocol.
  unfoldable pub reply : RespValue → Effects S → Outcome (Effects S)
  unfolding write
  reply v e = do
    command ← to_command v
    elim command [
      | none ↦ write invalid_command e
      | some cmd ↦ do (s, answer) ← execute cmd e.state; write answer (record e { state = s })
    ]

  -- One round of the loop over the buffer.
  unfoldable pub serve_one : Bytes → Effects S → Outcome (Round S)
  unfolding reply write
  serve_one buffer e = elim (parse buffer no_value).0 [
    | ParsingResult.need_more_data ↦ ok await_read
    | ParsingResult.error ↦ do e' ← write malformed_request e; ok (close e')
    | ParsingResult.out_of_fuel ↦ fault out_of_fuel
    | ParsingResult.ready v rest ↦ do e' ← reply v e; ok (again rest e')
  ]

  -- The loop over the buffer. The fuel bounds its rounds.
  unfoldable pub drain : ℕ → Bytes → Effects S → Outcome (Drained S)
  unfolding serve_one
  drain f [] e = ok (awaits [] e)
  drain zero (b ∷ buffer) e = fault out_of_fuel
  drain (suc f) (b ∷ buffer) e = serve_one (b ∷ buffer) e >>= λ r. elim r [
    | again rest e' ↦ drain f rest e'
    | await_read ↦ ok (awaits (b ∷ buffer) e)
    | close e' ↦ ok (closes e')
  ]

  -- Each round but the last takes a byte off the buffer.
  unfoldable pub drain_all : Bytes → Effects S → Outcome (Drained S)
  drain_all buffer e = drain (length buffer) buffer e

  unfoldable pub refuse : Effects S → Outcome (Standing S)
  unfolding write
  refuse e = do e' ← write request_too_large e; ok (ended too_large e')

  -- `run` on what the socket reads. When the events are used up, it waits for the next one, unless the
  -- buffer is full.
  unfoldable pub run : ℕ → List Event → Bytes → Effects S → Outcome (Standing S)
  unfolding drain_all read refuse
  run limit [] buffer e = drain_all buffer e >>= λ d. elim d [
    | closes e' ↦ ok (ended malformed e')
    | awaits rest e' ↦ if leb limit (length rest) then refuse e' else ok (reading rest e')
  ]
  run limit (event ∷ events) buffer e = drain_all buffer e >>= λ d. elim d [
    | closes e' ↦ ok (ended malformed e')
    | awaits rest e' ↦ elim (read limit event rest).0 [
      | new_message ↦ run limit events (read limit event rest).1 e'
      | message_too_large ↦ refuse e'
      | close_connection ↦ ok (ended closed e')
      | read_error ↦ ok (ended closed e')
    ]
  ]

abbrev pub no_effects : {S : Type 0} → S → Effects S
no_effects s = record { sent = []; state = s }
