-- ===== src/Session/Full.antt =====
-- A buffer that fills up (src/session.cpp).
use tinycache.Prelude.{append_assoc, length-append, if◌then◌else◌, Bool-cases, inl, inr, ◌+◌}
use tinycache.Session.{Drained, closes}
use tinycache.Session.Chunks.{resume, drain_all-append, drain_all-le}
use tinycache.Prelude.{
  ℕ, ◌≤◌, ◌≡◌, ◌≢◌, refl, sym, ap, ◌∙◌, arith, leb, true, List, [], ◌∷◌, ◌++◌, map, length,
  append-nil, Outcome, ok, ◌>>=◌, >>=-cong, >>=-assoc,
}
use tinycache.Prelude.Bytes.{Bytes}
use tinycache.Resp.{RespValue}
use tinycache.Resp.Emit.{emit}
use tinycache.Resp.Reading.{IsSendable}
use tinycache.Resp.Streaming.{parse_impl-cut}
use tinycache.Command.{Command}
use tinycache.Session.{
  message_limit, Event, received, malformed, too_large, Standing, reading, ended, Effects, awaits,
  request_too_large, write, read, refuse, drain_all, run, ReadResult, message_too_large,
  new_message, close_connection, read_error, closed,
}
use tinycache.Session.Chunks.{concat_all}
use tinycache.Session.Requests.{
  emit_all, AllRequests, converse, drain_all-waits, drain_all-converse, read-room,
}

length-zero : (s : Bytes) → length s ≡ 0 → s ≡ []
length-zero [] h = refl
length-zero (b ∷ s) h = absurd (omega arith)

read-full :
    (limit : ℕ) (event : Event) (s : Bytes)
    → limit ≤ length s
    → read limit event s ≡ (message_too_large, s)
unfolding read
read-full limit event s h = let full : leb limit (length s) ≡ true = ground arith in rw full refl

module _ {S : Type 0} (execute : Command → S → Outcome (S × RespValue)) (limit : ℕ) where
  -- What follows a read.
  abbrev behind : List Event → ReadResult × Bytes → Effects S → Outcome (Standing S)
  behind events r e = elim r.0 [
    | new_message ↦ run execute limit events r.1 e
    | message_too_large ↦ refuse execute e
    | close_connection ↦ ok (ended closed e)
    | read_error ↦ ok (ended closed e)
  ]

  -- What follows the loop over the buffer.
  abbrev after : List Event → Drained S → Outcome (Standing S)
  after events (closes e) = ok (ended malformed e)
  after [] (awaits rest e) =
      if leb limit (length rest) then refuse execute e else ok (reading rest e)
  after (event ∷ events) (awaits rest e) = behind events (read limit event rest) e

  run-after :
      (events : List Event) (buffer : Bytes) (e : Effects S)
      → run execute limit events buffer e ≡ (drain_all execute buffer e >>= after events)
  unfolding run
  run-after [] buffer e = >>=-cong (drain_all execute buffer e) _ _ (λ d _. same d)
    where
      same :
          (d : Drained S)
          → (elim d as (λ _. Outcome (Standing S)) [
            | closes e' ↦ ok (ended malformed e')
            | awaits rest e' ↦
                if leb limit (length rest) then refuse execute e' else ok (reading rest e')
          ])
            ≡ after [] d
      same (closes e') = refl
      same (awaits rest e') = refl
  run-after (event ∷ events) buffer e = >>=-cong (drain_all execute buffer e) _ _ (λ d _. same d)
    where
      same :
          (d : Drained S)
          → (elim d as (λ _. Outcome (Standing S)) [
            | closes e' ↦ ok (ended malformed e')
            | awaits rest e' ↦ behind events (read limit event rest) e'
          ])
            ≡ after (event ∷ events) d
      same (closes e') = refl
      same (awaits rest e') = refl

  -- A full buffer without a complete request is refused.
  after-full :
      (events : List Event) (rest : Bytes) (e : Effects S)
      → limit ≤ length rest
      → after events (awaits rest e) ≡ refuse execute e
  after-full [] rest e full =
      let test : leb limit (length rest) ≡ true = ground arith in rw test refl
  after-full (event ∷ events) rest e full =
      ap (λ r. behind events r e) (read-full limit event rest full)

  after-resume :
      (s t : Bytes) (events later : List Event) (buffer : Bytes) (e : Effects S)
      → length buffer + length (s ++ t) ≤ limit
      → ((rest : Bytes) (e' : Effects S)
          → length rest + length t ≤ limit
          → run execute limit events rest e' ≡ run execute limit later (rest ++ t) e')
      → (d : Drained S) → drain_all execute buffer e ≡ ok d
      → after (received s ∷ events) d ≡ (resume execute (s ++ t) d >>= after later)
  after-resume s t events later buffer e h ih (closes e') is = refl
  after-resume s t events later buffer e h ih (awaits rest e') is =
      let short = drain_all-le execute buffer rest e e' is in
      elim (Bool-cases (leb limit (length rest))) [
        | inr room ↦
            ap (λ r. behind events r e') (read-room limit s rest (ground (arith, room)))
            ∙ ih (rest ++ s) e' (omega (arith, length-append s t, length-append rest s))
            ∙ run-after later ((rest ++ s) ++ t) e'
            ∙ ap (λ u. drain_all execute u e' >>= after later) (append_assoc rest s t)
        | inl full ↦
            let is_full : limit ≤ length rest = ground (arith, full) in
            let nothing : s ++ t ≡ [] = length-zero (s ++ t) (omega (arith, h, short, is_full)) in
            let again : drain_all execute (rest ++ []) e' ≡ ok (awaits rest e') =
              sym (drain_all-append execute buffer [] e ∙ rw is refl)
              ∙ ap (λ u. drain_all execute u e) (append-nil buffer)
              ∙ is in
            ap (λ r. behind events r e') (read-full limit (received s) rest is_full)
            ∙ sym (
                ap (λ u. drain_all execute (rest ++ u) e' >>= after later) nothing
                ∙ ap (λ r. r >>= after later) again
                ∙ after-full later rest e' is_full)
      ]

  -- While the bytes that come fit the buffer, their pieces do not count, whatever happens then.
  run-onward :
      (chunks : List Bytes) (events : List Event) (buffer : Bytes) (e : Effects S)
      → length buffer + length (concat_all chunks) ≤ limit
      → run execute limit (map received chunks ++ events) buffer e
        ≡ run execute limit events (buffer ++ concat_all chunks) e
  run-onward [] events buffer e h = ap (λ u. run execute limit events u e) (sym (append-nil buffer))
  run-onward (s ∷ chunks) events buffer e h =
      run-after (received s ∷ (map received chunks ++ events)) buffer e
      ∙ >>=-cong (drain_all execute buffer e) _ _ (
          after-resume s (concat_all chunks) (map received chunks ++ events) events buffer e h
            (λ rest e' low. run-onward chunks events rest e' low))
      ∙ sym (>>=-assoc (drain_all execute buffer e) _ _)
      ∙ ap (λ r. r >>= after events)
          (sym (drain_all-append execute buffer (s ++ concat_all chunks) e))
      ∙ sym (run-after events (buffer ++ (s ++ concat_all chunks)) e)

module _ {S : Type 0} (execute : Command → S → Outcome (S × RespValue)) where
  -- Requests `vs`, and then the `front` and the `back` of a request that is not complete when it fills
  -- the buffer up to the limit (the configured size, or 1 for 0). The bytes come in any pieces, of which
  -- some end behind the `front`, and up to there they fit the limit together. Then the requests are
  -- answered, the session writes the error answer and ends, and runs nothing else, whatever the socket
  -- would deliver then.
  pub run-too_large :
      (max_message_size : ℕ) (vs : List RespValue) (v : RespValue) (front back missing : Bytes)
      (chunks chunks' : List Bytes) (events : List Event) (e : Effects S)
      → AllRequests vs
      → IsSendable 0 v
      → emit v ≡ (front ++ back) ++ missing
      → missing ≢ []
      → length (front ++ back) ≡ message_limit max_message_size
      → concat_all chunks ≡ emit_all vs ++ front
      → length (emit_all vs ++ front) ≤ message_limit max_message_size
      → concat_all chunks' ≡ back
      → run execute
          (message_limit max_message_size)
          (map received chunks ++ (map received chunks' ++ events))
          []
          e
        ≡ (converse execute vs e >>= λ e'.
            write execute request_too_large e' >>= λ e''. ok (ended too_large e''))
  unfolding refuse
  run-too_large max_message_size vs v front back missing chunks chunks' events e all h cut more full
        first short second =
      let limit = message_limit max_message_size in
      let next = map received chunks' ++ events in
      run-onward execute limit chunks next [] e (omega (arith, ap length first, short))
      ∙ ap (λ s. run execute limit next s e) first
      ∙ run-after execute limit next (emit_all vs ++ front) e
      ∙ ap (λ r. r >>= after execute limit next) (drain_all-converse execute vs front e all)
      ∙ >>=-assoc (converse execute vs e) _ _
      ∙ >>=-cong (converse execute vs e) _ _ (λ e' _.
        sym (run-after execute limit next front e')
        ∙ run-onward execute limit chunks' events front e'
            (omega (arith, ap length second, length-append front back, full))
        ∙ ap (λ s. run execute limit events (front ++ s) e') second
        ∙ run-after execute limit events (front ++ back) e'
        ∙ ap (λ r. r >>= after execute limit events)
            (drain_all-waits execute (front ++ back) e'
              (parse_impl-cut v (front ++ back) missing h cut more))
        ∙ after-full execute limit events (front ++ back) e' (omega (arith, full)))
