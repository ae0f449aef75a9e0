-- ===== src/Session/Requests.antt =====
-- What `run` of src/session.cpp answers to the requests on a connection.
use tinycache.Prelude.{Option, none, some}
use tinycache.Session.{invalid_command, printed}
use tinycache.Resp.Serializer.{serialize}
use tinycache.Command.{to_command}
use tinycache.Prelude.{
  ℕ, ◌+◌, ◌<◌, ◌≡◌, refl, sym, ap, ◌∙◌, arith, leb, false, List, [], ◌∷◌, ◌++◌, map, length,
  length-append, append_assoc, append-nil, Outcome, ok, ◌>>=◌, >>=-cong, >>=-assoc, if◌then◌else◌,
}
use tinycache.Prelude.Bytes.{Bytes}
use tinycache.Resp.{RespValue}
use tinycache.Resp.Parser.{ParsingResult, parse_impl, parse_loop}
use tinycache.Resp.Emit.{emit}
use tinycache.Resp.Reading.{IsSendable}
use tinycache.Resp.RoundTrip.{parse_impl-emit}
use tinycache.Resp.Streaming.{parse_impl-shorter}
use tinycache.Command.{Command}
use tinycache.Session.{
  Event, received, malformed, Standing, reading, ended, Effects, Drained, awaits, closes,
  malformed_request, write, reply, closed, close_connection, read_error, message_too_large, read,
  refuse, drain_all, run, new_message,
}
use tinycache.Session.Rounds.{serve_one-waits, serve_one-refuses, serve_one-reads}
use tinycache.Session.Chunks.{
  concat_all, drain-nil, drain-cons, drain-fuel, drain_all-append, drain_all-le, stands, resume,
}

-- Requests one behind the other.
abbrev pub emit_all : List RespValue → Bytes
emit_all [] = []
emit_all (v ∷ vs) = emit v ++ emit_all vs

abbrev pub AllRequests : List RespValue → Type 0
AllRequests [] = Unit
AllRequests (v ∷ vs) = IsSendable 0 v × AllRequests vs

pub read-room :
    (limit : ℕ) (s rest : Bytes)
    → length rest < limit
    → read limit (received s) rest ≡ (new_message, rest ++ s)
unfolding read
read-room limit s rest h = ground arith

module _ {S : Type 0} (execute : Command → S → Outcome (S × RespValue)) where
  -- The answer to a request, with the state that its command leaves.
  abbrev answer_to : RespValue → S → Outcome (S × RespValue)
  answer_to v s =
      to_command v >>= λ c. elim c [ none ↦ ok (s, invalid_command) | some cmd ↦ execute cmd s ]

  -- The texts of the answers to requests, each on the state that the one before it left.
  unfoldable pub answers_to : List RespValue → S → Outcome (S × List Bytes)
  answers_to [] s = ok (s, [])
  answers_to (v ∷ vs) s = answer_to v s >>= λ r.
      printed (serialize r.1) >>= λ t. answers_to vs r.0 >>= λ rest. ok (rest.0, t ∷ rest.1)

  -- The answers are written behind what was written before.
  unfoldable pub converse : List RespValue → Effects S → Outcome (Effects S)
  unfolding answers_to
  converse vs e = answers_to vs e.state >>= λ r. ok (record { sent = e.sent ++ r.1; state = r.0 })

  pub converse-nil : (e : Effects S) → converse [] e ≡ ok e
  unfolding converse
  converse-nil e = ap (λ s. ok (record e { sent = s })) (append-nil e.sent)

  reply-answer_to :
      (v : RespValue) (e : Effects S)
      → reply execute v e
        ≡ (answer_to v e.state >>= λ r. write execute r.1 (record e { state = r.0 }))
  unfolding reply
  reply-answer_to v e =
      >>=-cong (to_command v) _ _ (λ c _. same c) ∙ sym (>>=-assoc (to_command v) _ _)
    where
      same :
          (c : Option Command)
          → (elim c as (λ _. Outcome (Effects S)) [
            | none ↦ write execute invalid_command e
            | some cmd ↦ execute cmd e.state >>= λ r. write execute r.1 (record e { state = r.0 })
          ])
            ≡ ((elim c as (λ _. Outcome (S × RespValue)) [
              | none ↦ ok (e.state, invalid_command)
              | some cmd ↦ execute cmd e.state
            ])
                >>= λ r. write execute r.1 (record e { state = r.0 }))
      same none = refl
      same (some cmd) = refl

  -- The first answer is what `reply` writes.
  pub converse-cons :
      (v : RespValue) (vs : List RespValue) (e : Effects S)
      → converse (v ∷ vs) e ≡ (reply execute v e >>= λ e'. converse vs e')
  unfolding converse write
  converse-cons v vs e =
      >>=-assoc (answer_to v e.state) _ _
      ∙ >>=-cong (answer_to v e.state) _ _ (λ r _.
        >>=-assoc (printed (serialize r.1)) _ _
        ∙ >>=-cong (printed (serialize r.1)) _ _ (λ t _.
          >>=-assoc (answers_to vs r.0) _ _
          ∙ >>=-cong (answers_to vs r.0) _ _ (λ rest _.
            ap (λ s. ok (record { sent = s; state = rest.0 }))
              (sym (append_assoc e.sent (t ∷ []) rest.1))))
        ∙ sym (>>=-assoc (printed (serialize r.1)) _ _))
      ∙ sym (>>=-assoc (answer_to v e.state) _ _)
      ∙ ap (λ r. r >>= λ e'. converse vs e') (sym (reply-answer_to v e))

  drain_all-reads :
      (buffer : Bytes) (e : Effects S) (v : RespValue) (rest : Bytes)
      → parse_impl buffer ≡ ParsingResult.ready v rest
      → drain_all execute buffer e ≡ (reply execute v e >>= λ e'. drain_all execute rest e')
  unfolding drain_all
  drain_all-reads [] e v rest h = absurd (omega (arith, parse_impl-shorter [] h))
  drain_all-reads (b ∷ buffer) e v rest h =
      drain-cons execute (length buffer) b buffer e
      ∙ rw (serve_one-reads execute (b ∷ buffer) e v rest h) (
          >>=-assoc (reply execute v e) _ _
          ∙ >>=-cong (reply execute v e) _ _ (λ e' _.
            drain-fuel execute (length buffer) (length rest) rest e'
              (omega (arith, parse_impl-shorter (b ∷ buffer) h)) (omega arith)))

  pub drain_all-waits :
      (buffer : Bytes) (e : Effects S)
      → parse_impl buffer ≡ ParsingResult.need_more_data
      → drain_all execute buffer e ≡ ok (awaits buffer e)
  unfolding drain_all
  drain_all-waits [] e h = drain-nil execute 0 e
  drain_all-waits (b ∷ buffer) e h =
      drain-cons execute (length buffer) b buffer e
      ∙ rw (serve_one-waits execute (b ∷ buffer) e h) refl

  pub drain_all-refuses :
      (buffer : Bytes) (e : Effects S)
      → parse_impl buffer ≡ ParsingResult.error
      → drain_all execute buffer e ≡ (write execute malformed_request e >>= λ e'. ok (closes e'))
  unfolding drain_all parse_impl parse_loop
  drain_all-refuses [] e h = absurd (ground (arith, h))
  drain_all-refuses (b ∷ buffer) e h =
      drain-cons execute (length buffer) b buffer e
      ∙ rw (serve_one-refuses execute (b ∷ buffer) e h)
          (>>=-assoc (write execute malformed_request e) _ _)

  pub drain_all-converse :
      (vs : List RespValue) (rest : Bytes) (e : Effects S)
      → AllRequests vs
      → drain_all execute (emit_all vs ++ rest) e
        ≡ (converse vs e >>= λ e'. drain_all execute rest e')
  drain_all-converse [] rest e h = rw (converse-nil e) refl
  drain_all-converse (v ∷ vs) rest e h =
      ap (λ s. drain_all execute s e) (append_assoc (emit v) (emit_all vs) rest)
      ∙ drain_all-reads (emit v ++ (emit_all vs ++ rest)) e v (emit_all vs ++ rest)
          (parse_impl-emit v (emit_all vs ++ rest) h.0)
      ∙ >>=-cong (reply execute v e) _ _ (λ e' _. drain_all-converse vs rest e' h.1)
      ∙ sym (>>=-assoc (reply execute v e) _ _)
      ∙ ap (λ r. r >>= λ e'. drain_all execute rest e') (sym (converse-cons v vs e))

  module _ (limit : ℕ) (buffer : Bytes) (e : Effects S) where
    -- The last turn of `run`, while there is room in the buffer.
    last_turn :
        length buffer < limit
        → (d : Drained S) → drain_all execute buffer e ≡ ok d
        → (elim d as (λ _. Outcome (Standing S)) [
          | closes e' ↦ ok (ended malformed e')
          | awaits rest e' ↦
              if leb limit (length rest) then refuse execute e' else ok (reading rest e')
        ])
          ≡ stands d
    last_turn h (closes e') is = refl
    last_turn h (awaits rest e') is =
        let short = drain_all-le execute buffer rest e e' is in
        let room : leb limit (length rest) ≡ false = ground arith in rw room refl

    -- A turn of `run` that reads, while there is room in the buffer.
    turn :
        (s t : Bytes) (events : List Event)
        → length buffer + length (s ++ t) < limit
        → ((rest : Bytes) (e' : Effects S)
            → length rest + length t < limit
            → run execute limit events rest e' ≡ (drain_all execute (rest ++ t) e' >>= stands))
        → (d : Drained S) → drain_all execute buffer e ≡ ok d
        → (elim d as (λ _. Outcome (Standing S)) [
          | closes e' ↦ ok (ended malformed e')
          | awaits rest e' ↦ elim (read limit (received s) rest).0 [
            | new_message ↦ run execute limit events (read limit (received s) rest).1 e'
            | message_too_large ↦ refuse execute e'
            | close_connection ↦ ok (ended closed e')
            | read_error ↦ ok (ended closed e')
          ]
        ])
          ≡ (resume execute (s ++ t) d >>= stands)
    turn s t events h ih (closes e') is = refl
    turn s t events h ih (awaits rest e') is =
        let short = drain_all-le execute buffer rest e e' is in
        let got = read-room limit s rest (omega (arith, length-append s t)) in
        rw got (
          rw got (
            ih (rest ++ s) e' (omega (arith, length-append s t, length-append rest s))
            ∙ ap (λ u. drain_all execute u e' >>= stands) (append_assoc rest s t)))

  -- While the buffer has room for all bytes that come, only the bytes count, not their pieces.
  pub run-stands :
      (limit : ℕ) (chunks : List Bytes) (buffer : Bytes) (e : Effects S)
      → length buffer + length (concat_all chunks) < limit
      → run execute limit (map received chunks) buffer e
        ≡ (drain_all execute (buffer ++ concat_all chunks) e >>= stands)
  unfolding run
  run-stands limit [] buffer e h =
      rw (append-nil buffer)
        (>>=-cong (drain_all execute buffer e) _ _ (last_turn limit buffer e (omega arith)))
  run-stands limit (s ∷ chunks) buffer e h =
      >>=-cong (drain_all execute buffer e) _ _ (
        turn limit buffer e s (concat_all chunks) (map received chunks) h
          (λ rest e' low. run-stands limit chunks rest e' low))
      ∙ sym (>>=-assoc (drain_all execute buffer e) _ _)
      ∙ ap (λ r. r >>= stands) (sym (drain_all-append execute buffer (s ++ concat_all chunks) e))
