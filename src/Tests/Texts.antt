-- ===== src/Tests/Texts.antt =====
-- The text of the protocol (src/respParser.cpp, src/respSerializer.cpp) and its commands
-- (src/command.cpp) on concrete values.
use tinycache.Prelude.{◌≡◌, ◌≢◌, ◌++◌, refl, [], ◌∷◌, ok, some, arith, negsuc}
use tinycache.Prelude.Bytes.{Bytes, codes, bytes_discrete}
use tinycache.Resp.{RespType, RespValue, resp, text, number, elements, nil, cons}
use tinycache.Resp.Serializer.{done, serialize}
use tinycache.Resp.Emit.{emit, IsWellTyped}
use tinycache.Resp.Parser.{
  parse, parse_impl, ready, need_more_data, parse_int64_token, find_crlf, parse_loop, read_token,
  read_number, scan_digits, attach_value,
}
use tinycache.Resp.Reading.{IsSendable}
use tinycache.Resp.RoundTrip.{parse-serialize}
use tinycache.Resp.Streaming.{extend_result, parse_impl-extend}
use tinycache.Resp.Estimate.{serialize-emit}
use tinycache.Command.{
  CommandType, spec_for, validate_args, collect_args, to_command, determine_command_type,
  to_uppercase,
}
use tinycache.Command.Shape.{HasArity, word_values, to_command-HasArity}

-- `*3\r\n$3\r\nset\r\n$1\r\na\r\n:-12\r\n` as a value.
abbrev request : RespValue
request = resp RespType.array (
    elements (
      cons (resp RespType.bulk_string (text (codes "set"))) (
        cons (resp RespType.bulk_string (text (codes "a")))
          (cons (resp RespType.integer (number (negsuc 11))) nil))))

abbrev getting : RespValue
getting = resp RespType.array (elements (word_values (codes "get" ∷ codes "a" ∷ [])))

abbrev status : RespValue
status = resp RespType.simple_string (text (codes "OK"))

request-IsSendable : IsSendable 0 request
unfolding IsSendable
request-IsSendable = (omega arith, omega arith, omega arith, (omega arith, (omega arith, tt)))

request-IsWellTyped : IsWellTyped request
unfolding IsWellTyped
request-IsWellTyped = (omega arith, (omega arith, (omega arith, (omega arith, tt))))

parse-serialize_example :
    (s : Bytes) × (serialize request ≡ done s)
    × (parse (s ++ codes "+O") status ≡ (ready request (codes "+O"), codes "+O", request))
parse-serialize_example = parse-serialize request status (codes "+O") request-IsSendable

-- A line feed follows the carriage return.
abbrev crlf : Bytes
crlf = 13 ∷ 10 ∷ []

abbrev seven : Bytes
seven = codes ":7" ++ crlf

not_waiting : parse_impl seven ≢ need_more_data
unfolding parse_impl parse_loop read_token read_number find_crlf parse_int64_token scan_digits
    attach_value
not_waiting e = ground (arith, e)

parse_impl-extend_example :
    parse_impl (seven ++ codes "+O") ≡ extend_result (codes "+O") (parse_impl seven)
parse_impl-extend_example = parse_impl-extend seven (codes "+O") not_waiting

serialize-emit_example : serialize request ≡ done (emit request)
serialize-emit_example = serialize-emit request request-IsWellTyped

get_name : determine_command_type (to_uppercase (codes "get")) ≡ CommandType.get
unfolding determine_command_type to_uppercase bytes_discrete
get_name = refl

get_arity : HasArity CommandType.get 1
unfolding spec_for
get_arity = (_, refl, omega arith, omega arith)

getting_command :
    to_command getting ≡ ok (some (record { type = CommandType.get; args = codes "a" ∷ [] }))
unfolding to_command determine_command_type to_uppercase bytes_discrete spec_for validate_args
    collect_args
getting_command = refl

to_command-HasArity_example : HasArity CommandType.get 1
to_command-HasArity_example =
    to_command-HasArity getting {c = record { type = CommandType.get; args = codes "a" ∷ [] }}
      getting_command
