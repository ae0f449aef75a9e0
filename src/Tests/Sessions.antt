-- ===== src/Tests/Sessions.antt =====
-- A connection (src/session.cpp) whose commands count up a number.
use tinycache.Prelude.{
  ℕ, suc, ◌<◌, ◌≡◌, refl, arith, List, [], ◌∷◌, ◌++◌, map, length, pos, Outcome, ok, ◌>>=◌,
}
use tinycache.Prelude.Bytes.{Bytes, codes}
use tinycache.Resp.{RespType, RespValue, resp, number, elements}
use tinycache.Resp.Parser.{ParsingResult, parse_impl, parse_loop, read_token}
use tinycache.Resp.Emit.{emit}
use tinycache.Resp.Reading.{IsSendable}
use tinycache.Resp.Decimal.{format, digits}
use tinycache.Command.{Command}
use tinycache.Command.Shape.{word_values}
use tinycache.Session.{
  received, malformed, too_large, reading, ended, malformed_request, request_too_large, write, run,
  no_effects,
}
use tinycache.Session.Chunks.{concat_all}
use tinycache.Session.Requests.{emit_all, converse}
use tinycache.Session.Answers.{run-chunks, run-converse, run-malformed}
use tinycache.Session.Full.{run-too_large}
use tinycache.Prelude.{append-nil, ◌≤◌}

abbrev count_up : Command → ℕ → Outcome (ℕ × RespValue)
count_up cmd n = ok (suc n, resp RespType.integer (number (pos n)))

abbrev get_request : RespValue
get_request = resp RespType.array (elements (word_values (codes "GET" ∷ codes "a" ∷ [])))

abbrev requests : List RespValue
requests = get_request ∷ get_request ∷ []

get_request-IsSendable : IsSendable 0 get_request
unfolding IsSendable
get_request-IsSendable = (omega arith, omega arith, omega arith, (omega arith, tt))

-- The text of the request up to its last two bytes.
abbrev crlf : Bytes
crlf = 13 ∷ 10 ∷ []

abbrev most : Bytes
most =
    codes "*2"
    ++ (crlf
        ++ (codes "$3" ++ (crlf ++ (codes "GET" ++ (crlf ++ (codes "$1" ++ (crlf ++ codes "a")))))))

get_request_text : emit get_request ≡ most ++ crlf
unfolding emit format digits
get_request_text = refl

requests_text : concat_all (most ∷ (crlf ++ most) ∷ crlf ∷ []) ≡ emit_all requests
unfolding emit format digits
requests_text = refl

requests-length : length (emit_all requests) < 1024
unfolding emit format digits
requests-length = omega arith

run-chunks_example :
    run count_up 1024 (map received (most ∷ crlf ∷ codes "?" ∷ [])) [] (no_effects 0)
    ≡ run count_up 1024 (map received ((most ++ (crlf ++ codes "?")) ∷ [])) [] (no_effects 0)
run-chunks_example =
    run-chunks count_up 1024 (most ∷ crlf ∷ codes "?" ∷ []) ((most ++ (crlf ++ codes "?")) ∷ [])
      (no_effects 0) refl (omega arith)

run-converse_example :
    run count_up 1024 (map received (most ∷ (crlf ++ most) ∷ crlf ∷ [])) [] (no_effects 0)
    ≡ (converse count_up requests (no_effects 0) >>= λ e. ok (reading [] e))
run-converse_example =
    run-converse count_up 1024 requests (most ∷ (crlf ++ most) ∷ crlf ∷ []) (no_effects 0)
      (get_request-IsSendable, (get_request-IsSendable, tt)) requests_text requests-length

question_refused : parse_impl (codes "?") ≡ ParsingResult.error
unfolding parse_impl parse_loop read_token
question_refused = refl

bad_text : concat_all (most ∷ crlf ∷ codes "?" ∷ []) ≡ emit_all (get_request ∷ []) ++ codes "?"
unfolding emit format digits
bad_text = refl

bad_length : length (emit_all (get_request ∷ []) ++ codes "?") < 1024
unfolding emit format digits
bad_length = omega arith

run-malformed_example :
    run count_up 1024 (map received (most ∷ crlf ∷ codes "?" ∷ [])) [] (no_effects 0) ≡ (
      converse count_up (get_request ∷ []) (no_effects 0) >>= λ e.
      write count_up malformed_request e >>= λ e'. ok (ended malformed e'))
run-malformed_example =
    run-malformed count_up 1024 (get_request ∷ []) (codes "?") (most ∷ crlf ∷ codes "?" ∷ [])
      (no_effects 0) (get_request-IsSendable, tt) question_refused bad_text bad_length

-- A request that is answered, and then one that fills the buffer.
abbrev ping_request : RespValue
ping_request = resp RespType.array (elements (word_values (codes "PING" ∷ [])))

ping_request-IsSendable : IsSendable 0 ping_request
unfolding IsSendable
ping_request-IsSendable = (omega arith, omega arith, omega arith, tt)

abbrev front : Bytes
front = codes "*2" ++ crlf

abbrev back : Bytes
back = codes "$3" ++ (crlf ++ (codes "GET" ++ (crlf ++ (codes "$1" ++ (crlf ++ codes "a")))))

abbrev first_piece : Bytes
first_piece = emit_all (ping_request ∷ []) ++ front

full_text : emit get_request ≡ (front ++ back) ++ crlf
unfolding emit format digits
full_text = refl

first_fits : length first_piece ≤ 18
unfolding emit format digits
first_fits = omega arith

run-too_large_example :
    run count_up 18 (received first_piece ∷ received back ∷ received crlf ∷ []) [] (no_effects 0)
    ≡ (converse count_up (ping_request ∷ []) (no_effects 0) >>= λ e.
        write count_up request_too_large e >>= λ e'. ok (ended too_large e'))
run-too_large_example =
    run-too_large count_up 18 (ping_request ∷ []) get_request front back crlf (first_piece ∷ [])
      (back ∷ []) (received crlf ∷ []) (no_effects 0) (ping_request-IsSendable, tt)
      get_request-IsSendable full_text (λ e. absurd (ground (arith, e))) refl
      (append-nil first_piece) (omega (arith, first_fits)) (append-nil back)
