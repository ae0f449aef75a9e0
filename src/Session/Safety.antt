-- ===== src/Session/Safety.antt =====
-- A session (src/session.cpp) whatever bytes its socket delivers: the only fault is one of the commands
-- that it runs, its buffer never grows above the limit, and all that it writes are values of the
-- protocol.
use tinycache.Prelude.{
  ℕ, ◌<◌, ◌≤◌, ◌≡◌, refl, ap, ◌∙◌, arith, if◌then◌else◌, leb, false, Bool-cases, List, [], ◌∷◌,
  length, length-append, inl, inr, Outcome, ok, Fares, ends, Fares-bind,
}
use tinycache.Prelude.Bytes.{Bytes, word}
use tinycache.Resp.{RespValue}
use tinycache.Resp.Emit.{IsWellTyped}
use tinycache.Command.{Command}
use tinycache.Command.Shape.{HasArity}
use tinycache.Executor.Typed.{AllShort}
use tinycache.Session.{
  Event, received, eof, failed, Effects, Drained, awaits, closes, reading, ended, ReadResult,
  new_message, message_too_large, close_connection, read_error, malformed, closed,
  request_too_large, read, refuse, run,
}
use tinycache.Session.Fine.{IsFine, IsDrained, IsStanding, FitsRoom, Delivers}
use tinycache.Session.Replies.{write-Fares, drain_all-Fares}

module _ {S : Type 0} (execute : Command → S → Outcome (S × RespValue)) (I : S → Type 0) (limit : ℕ)
    (low : limit < word)
    (serves : (cmd : Command) (s : S)
      → HasArity cmd.type (length cmd.args)
      → AllShort limit cmd.args
      → I s
      → Fares (λ r. I r.0 × IsWellTyped r.1) (execute cmd s)) where
  refuse-Fares : (e : Effects S) → IsFine I e → Fares (IsStanding I limit) (refuse execute e)
  unfolding refuse IsWellTyped
  refuse-Fares e fine =
      Fares-bind _ (write-Fares execute I limit low serves request_too_large e tt fine)
        (λ e' _ fine'. ends fine')

  last-Fares :
      (n : ℕ) (d : Drained S)
      → IsDrained I n d
      → Fares (IsStanding I limit) (elim d [
        | closes e' ↦ ok (ended malformed e')
        | awaits rest e' ↦
            if leb limit (length rest) then refuse execute e' else ok (reading rest e')
      ])
  last-Fares n (closes e') fine = ends fine
  last-Fares n (awaits rest e') (short, fine) = elim (Bool-cases (leb limit (length rest))) [
    | inl full ↦ rw full (refuse-Fares e' fine)
    | inr room ↦ rw room (ends (ground (arith, room), fine))
  ]

  -- A read that brings a message had room for it.
  read-room_left :
      (event : Event) (rest : Bytes) → (read limit event rest).0 ≡ new_message → length rest < limit
  unfolding read
  read-room_left event rest h = elim (Bool-cases (leb limit (length rest))) [
    | inl full ↦ absurd (ground (arith, full, h))
    | inr room ↦ ground (arith, room)
  ]

  read-fits :
      (event : Event) (rest : Bytes)
      → length rest < limit
      → FitsRoom limit event rest
      → length (read limit event rest).1 ≤ limit
  unfolding read
  read-fits (received s) rest room fits =
      let test : leb limit (length rest) ≡ false = ground arith in
      rw test (omega (arith, fits, length-append rest s))
  read-fits eof rest room fits =
      let test : leb limit (length rest) ≡ false = ground arith in rw test (omega (arith, room))
  read-fits failed rest room fits =
      let test : leb limit (length rest) ≡ false = ground arith in rw test (omega (arith, room))

  -- What follows a read, when the turns behind it fare well.
  behind-Fares :
      (events : List Event) (r : ReadResult × Bytes) (e : Effects S)
      → IsFine I e
      → (r.0 ≡ new_message → Fares (IsStanding I limit) (run execute limit events r.1 e))
      → Fares (IsStanding I limit) (elim r.0 [
        | new_message ↦ run execute limit events r.1 e
        | message_too_large ↦ refuse execute e
        | close_connection ↦ ok (ended closed e)
        | read_error ↦ ok (ended closed e)
      ])
  behind-Fares events (new_message, buffer) e fine ih = ih refl
  behind-Fares events (message_too_large, buffer) e fine ih = refuse-Fares e fine
  behind-Fares events (close_connection, buffer) e fine ih = ends fine
  behind-Fares events (read_error, buffer) e fine ih = ends fine

  turn-Fares :
      (n : ℕ) (event : Event) (events : List Event)
      → ((buffer : Bytes) (e : Effects S)
          → length buffer ≤ limit
          → IsFine I e
          → Delivers limit execute events buffer e
          → Fares (IsStanding I limit) (run execute limit events buffer e))
      → (d : Drained S) → IsDrained I n d
      → ((rest : Bytes) (e' : Effects S)
          → d ≡ awaits rest e'
          → length rest < limit
          → FitsRoom limit event rest × Delivers limit execute events (read limit event rest).1 e')
      → Fares (IsStanding I limit) (elim d [
        | closes e' ↦ ok (ended malformed e')
        | awaits rest e' ↦ elim (read limit event rest).0 [
          | new_message ↦ run execute limit events (read limit event rest).1 e'
          | message_too_large ↦ refuse execute e'
          | close_connection ↦ ok (ended closed e')
          | read_error ↦ ok (ended closed e')
        ]
      ])
  turn-Fares n event events ih (closes e') fine delivered = ends fine
  turn-Fares n event events ih (awaits rest e') (short, fine) delivered =
      behind-Fares events (read limit event rest) e' fine (λ got.
        let room = read-room_left event rest got in
        let (fits, more) = delivered rest e' refl room in
        ih (read limit event rest).1 e' (read-fits event rest room fits) fine more)

  -- Whatever its socket delivers, within the room that `read` prepares, a session with a limit below
  -- 2 ^ 64 stops at nothing but an overflow in a command.
  pub run-Fares :
      (events : List Event) (buffer : Bytes) (e : Effects S)
      → length buffer ≤ limit
      → IsFine I e
      → Delivers limit execute events buffer e
      → Fares (IsStanding I limit) (run execute limit events buffer e)
  unfolding run
  run-Fares [] buffer e short fine delivered =
      Fares-bind _ (drain_all-Fares execute I limit low serves buffer e short fine)
        (λ d _ drained. last-Fares (length buffer) d drained)
  run-Fares (event ∷ events) buffer e short fine delivered =
      Fares-bind _ (drain_all-Fares execute I limit low serves buffer e short fine) (λ d is drained.
        turn-Fares (length buffer) event events
          (λ buffer' e' short' fine' delivered'.
            run-Fares events buffer' e' short' fine' delivered')
          d drained (λ rest e' at room. delivered rest e' (is ∙ ap ok at) room))
