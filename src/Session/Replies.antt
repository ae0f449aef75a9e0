-- ===== src/Session/Replies.antt =====
-- The rounds of a session (src/session.cpp) over its buffer, whatever the bytes are: they fare as the
-- commands that they run.
use tinycache.Prelude.{
  ℕ, zero, suc, ◌<◌, ◌≤◌, ◌≡◌, refl, arith, [], ◌∷◌, length, Option, none, some, Outcome, ok, ◌>>=◌,
  Fares, ends, Fares-bind,
}
use tinycache.Prelude.Bytes.{Bytes, word}
use tinycache.Resp.{RespValue}
use tinycache.Resp.Emit.{IsWellTyped}
use tinycache.Resp.Estimate.{serialize-emit}
use tinycache.Resp.Parser.{ParsingResult, parse_impl}
use tinycache.Resp.Typed.{IsRead, IsRead-IsWellTyped}
use tinycache.Resp.Returns.{parse_impl-IsRead}
use tinycache.Resp.Streaming.{parse_impl-shorter}
use tinycache.Command.{Command, to_command}
use tinycache.Command.Shape.{HasArity, to_command-HasArity, to_command-ok}
use tinycache.Command.Arguments.{to_command-AllShort}
use tinycache.Executor.Typed.{AllShort}
use tinycache.Session.{
  Effects, Round, again, await_read, close, malformed_request, invalid_command, write, reply,
  serve_one, drain, drain_all,
}
use tinycache.Session.Rounds.{
  Parsed, waits, refuses, reads, parse_impl-Parsed, serve_one-waits, serve_one-refuses,
  serve_one-reads,
}
use tinycache.Session.Chunks.{next, drain-nil, drain-cons}
use tinycache.Session.Fine.{AllMessages-append, IsFine, IsRound, IsDrained}

module _ {S : Type 0} (execute : Command → S → Outcome (S × RespValue)) (I : S → Type 0) (limit : ℕ)
    (low : limit < word)
    (serves : (cmd : Command) (s : S)
      → HasArity cmd.type (length cmd.args)
      → AllShort limit cmd.args
      → I s
      → Fares (λ r. I r.0 × IsWellTyped r.1) (execute cmd s)) where
  pub write-Fares :
      (v : RespValue) (e : Effects S)
      → IsWellTyped v
      → IsFine I e
      → Fares (IsFine I) (write execute v e)
  unfolding write
  write-Fares v e typed fine =
      rw (serialize-emit v typed) (ends (fine.0, AllMessages-append e.sent v fine.1 typed))

  answer-Fares :
      (v : RespValue) (e : Effects S) (command : Option Command)
      → IsRead limit v
      → to_command v ≡ ok command
      → IsFine I e
      → Fares (IsFine I) (elim command [
        | none ↦ write execute invalid_command e
        | some cmd ↦ do
          (s, answer) ← execute cmd e.state
          write execute answer (record e { state = s })
      ])
  unfolding IsWellTyped
  answer-Fares v e none typed is fine = write-Fares invalid_command e tt fine
  answer-Fares v e (some cmd) typed is fine =
      Fares-bind _
        (serves cmd e.state (to_command-HasArity v is) (to_command-AllShort limit v typed is)
          fine.0)
        (λ r _ h. write-Fares r.1 (record e { state = r.0 }) h.1 (h.0, fine.1))

  reply-Fares :
      (v : RespValue) (e : Effects S)
      → IsRead limit v
      → IsFine I e
      → Fares (IsFine I) (reply execute v e)
  unfolding reply
  reply-Fares v e typed fine =
      let (command, is) = to_command-ok v (IsRead-IsWellTyped limit v low typed) in
      rw is (answer-Fares v e command typed is fine)

  serve_one-Fares :
      (buffer : Bytes) (e : Effects S) {r : ParsingResult}
      → length buffer ≤ limit
      → IsFine I e
      → parse_impl buffer ≡ r
      → Parsed r
      → Fares (IsRound I (length buffer)) (serve_one execute buffer e)
  unfolding IsWellTyped
  serve_one-Fares buffer e short fine is waits = rw (serve_one-waits execute buffer e is) (ends tt)
  serve_one-Fares buffer e short fine is refuses =
      rw (serve_one-refuses execute buffer e is)
        (Fares-bind _ (write-Fares malformed_request e tt fine) (λ e' _ fine'. ends fine'))
  serve_one-Fares buffer e short fine is (reads v rest) =
      rw (serve_one-reads execute buffer e v rest is) (
        Fares-bind _ (reply-Fares v e (parse_impl-IsRead limit buffer short is) fine)
          (λ e' _ fine'. ends (parse_impl-shorter buffer is, fine')))

  next-Fares :
      (f n : ℕ) (buffer : Bytes) (e : Effects S)
      → length buffer ≤ n
      → IsFine I e
      → ((rest : Bytes) (e' : Effects S)
          → length rest < length buffer
          → IsFine I e'
          → Fares (IsDrained I n) (drain execute f rest e'))
      → (r : Round S) → IsRound I (length buffer) r
      → Fares (IsDrained I n) (next execute f buffer e r)
  next-Fares f n buffer e short fine ih (again rest e') (shorter, fine') = ih rest e' shorter fine'
  next-Fares f n buffer e short fine ih await_read h = ends (short, fine)
  next-Fares f n buffer e short fine ih (close e') fine' = ends fine'

  drain-Fares :
      (f n : ℕ) (buffer : Bytes) (e : Effects S)
      → length buffer ≤ f
      → length buffer ≤ n
      → n ≤ limit
      → IsFine I e
      → Fares (IsDrained I n) (drain execute f buffer e)
  drain-Fares f n [] e enough short small fine =
      rw (drain-nil execute f e) (ends (omega arith, fine))
  drain-Fares zero n (b ∷ buffer) e enough short small fine = absurd (omega arith)
  drain-Fares (suc f) n (b ∷ buffer) e enough short small fine =
      rw (drain-cons execute f b buffer e) (
        Fares-bind _
          (serve_one-Fares (b ∷ buffer) e (omega (arith, short, small)) fine refl
            (parse_impl-Parsed (b ∷ buffer)))
          (λ r _ round.
            next-Fares f n (b ∷ buffer) e short fine
              (λ rest e' shorter fine'.
                drain-Fares f n rest e' (omega (arith, shorter, enough))
                  (omega (arith, shorter, short)) small fine')
              r round))

  pub drain_all-Fares :
      (buffer : Bytes) (e : Effects S)
      → length buffer ≤ limit
      → IsFine I e
      → Fares (IsDrained I (length buffer)) (drain_all execute buffer e)
  unfolding drain_all
  drain_all-Fares buffer e short fine =
      drain-Fares (length buffer) (length buffer) buffer e (omega arith) (omega arith) short fine
