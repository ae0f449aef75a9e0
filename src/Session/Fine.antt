-- ===== src/Session/Fine.antt =====
-- What a session of src/session.cpp leaves behind, whatever bytes its socket delivers.
use tinycache.Prelude.{ℕ, ◌+◌, ◌<◌, ◌≤◌, ◌≡◌, refl, List, [], ◌∷◌, ◌++◌, length, Outcome, ok}
use tinycache.Prelude.Bytes.{Bytes}
use tinycache.Resp.{RespValue}
use tinycache.Resp.Emit.{emit, IsWellTyped}
use tinycache.Command.{Command}
use tinycache.Session.{
  Event, received, eof, failed, Effects, Round, again, await_read, close, Drained, awaits, closes,
  Standing, reading, ended, drain_all, read,
}

-- Every message is the text of a value that the protocol can carry.
abbrev pub AllMessages : List Bytes → Type 0
AllMessages [] = Unit
AllMessages (s ∷ ss) = ((v : RespValue) × (s ≡ emit v) × IsWellTyped v) × AllMessages ss

pub AllMessages-append :
    (ss : List Bytes) (v : RespValue)
    → AllMessages ss
    → IsWellTyped v
    → AllMessages (ss ++ emit v ∷ [])
AllMessages-append [] v h typed = ((v, refl, typed), tt)
AllMessages-append (s ∷ ss) v h typed = (h.0, AllMessages-append ss v h.1 typed)

module _ {S : Type 0} (I : S → Type 0) where
  -- The shards are as `I` wants them, and all that was written are values of the protocol.
  abbrev pub IsFine : Effects S → Type 0
  IsFine e = I e.state × AllMessages e.sent

  -- What a round over a buffer leaves: a shorter one, or the session's end.
  abbrev pub IsRound : ℕ → Round S → Type 0
  IsRound n (again rest e) = (length rest < n) × IsFine e
  IsRound n await_read = Unit
  IsRound n (close e) = IsFine e

  -- What the loop over a buffer leaves.
  abbrev pub IsDrained : ℕ → Drained S → Type 0
  IsDrained n (awaits rest e) = (length rest ≤ n) × IsFine e
  IsDrained n (closes e) = IsFine e

  module _ (limit : ℕ) where
    -- The session waits with room in its buffer, or has ended.
    abbrev pub IsStanding : Standing S → Type 0
    IsStanding (reading buffer e) = (length buffer < limit) × IsFine e
    IsStanding (ended why e) = IsFine e

module _ (limit : ℕ) where
  -- `async_read_some` delivers no more bytes than the room that `read` prepared for it.
  abbrev pub FitsRoom : Event → Bytes → Type 0
  FitsRoom (received s) rest = length rest + length s ≤ limit
  FitsRoom eof rest = Unit
  FitsRoom failed rest = Unit

  module _ {S : Type 0} (execute : Command → S → Outcome (S × RespValue)) where
    -- Each event of a run is such an outcome.
    abbrev pub Delivers : List Event → Bytes → Effects S → Type 0
    Delivers [] buffer e = Unit
    Delivers (event ∷ events) buffer e =
        (rest : Bytes) (e' : Effects S)
        → drain_all execute buffer e ≡ ok (awaits rest e')
        → length rest < limit
        → FitsRoom event rest × Delivers events (read limit event rest).1 e'
