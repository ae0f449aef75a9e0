-- ===== src/Resp/RoundTrip.antt =====
-- The parser (src/respParser.cpp) on what the serializer (src/respSerializer.cpp) writes.
use tinycache.Prelude.{ℕ, suc, ◌+◌, ◌-◌, ◌≤◌, ◌<◌, ◌≡◌, ap, [], ◌++◌, arith, length, length-append}
use tinycache.Prelude.Bytes.{Bytes}
use tinycache.Resp.{RespType, RespValue, RespArray, resp, text, number, elements, nil, cons, size}
use tinycache.Resp.Decimal.{format}
use tinycache.Resp.Serializer.{crlf, count, count_array, serialize, done}
use tinycache.Resp.Emit.{emit, emit_array, IsWellTyped, AllWellTyped}
use tinycache.Resp.Estimate.{serialize-emit}
use tinycache.Resp.Parser.{attach_value, ready, parse_impl, parse}
use tinycache.Resp.Reading.{IsSendable, AllSendable, IsSingle, read_single}
use tinycache.Resp.Nesting.{parse_loop-emit}

single_pos : (v : RespValue) (depth : ℕ) → IsSendable depth v → IsSingle v → 0 < length (emit v)
single_pos v depth h one =
    let (c, s, shape, _) = read_single depth v [] h one in
    let e = ap length shape in omega (arith, e, length-append {0} (emit v) [])

mutual
  unfolding count emit IsSendable

  count-le-length : (v : RespValue) (depth : ℕ) → IsSendable depth v → count v ≤ length (emit v)
  count-le-length (resp RespType.array (elements (cons v vs))) depth h = omega (
    arith,
    count-le-length v (suc depth) h.2,
    count_array-le-length vs (suc depth) h.3,
    length-append {0} (format (suc (size vs))) (crlf ++ (emit v ++ emit_array vs)),
    length-append {0} (emit v) (emit_array vs),
  )
  count-le-length v depth h = single_pos v depth h tt

  count_array-le-length :
      (xs : RespArray) (depth : ℕ) → AllSendable depth xs → count_array xs ≤ length (emit_array xs)
  count_array-le-length nil depth h = omega arith
  count_array-le-length (cons v vs) depth h = omega (
    arith,
    count-le-length v depth h.0,
    count_array-le-length vs depth h.1,
    length-append {0} (emit v) (emit_array vs),
  )

mutual
  unfolding IsSendable IsWellTyped

  IsSendable-IsWellTyped : (v : RespValue) (depth : ℕ) → IsSendable depth v → IsWellTyped v
  IsSendable-IsWellTyped (resp RespType.simple_string (text s)) depth h = tt
  IsSendable-IsWellTyped (resp RespType.error (text s)) depth h = tt
  IsSendable-IsWellTyped (resp RespType.integer (number n)) depth h = h
  IsSendable-IsWellTyped (resp RespType.bulk_string (text s)) depth h = omega arith
  IsSendable-IsWellTyped (resp RespType.null_bulk_string (text [])) depth h = tt
  IsSendable-IsWellTyped (resp RespType.array (elements nil)) depth h = (omega arith, tt)
  IsSendable-IsWellTyped (resp RespType.array (elements (cons v vs))) depth h = (
    omega arith,
    (IsSendable-IsWellTyped v (suc depth) h.2, AllSendable-AllWellTyped vs (suc depth) h.3),
  )
  IsSendable-IsWellTyped (resp RespType.null_array (text [])) depth h = tt
  IsSendable-IsWellTyped (resp _ _) depth h = absurd h

  AllSendable-AllWellTyped : (xs : RespArray) (depth : ℕ) → AllSendable depth xs → AllWellTyped xs
  AllSendable-AllWellTyped nil depth h = tt
  AllSendable-AllWellTyped (cons v vs) depth h =
      (IsSendable-IsWellTyped v depth h.0, AllSendable-AllWellTyped vs depth h.1)

-- The parser reads a printed value off the front of any input and leaves the rest.
pub parse_impl-emit :
    (v : RespValue) (rest : Bytes) → IsSendable 0 v → parse_impl (emit v ++ rest) ≡ ready v rest
unfolding parse_impl attach_value
parse_impl-emit v rest h =
    let room = length-append {0} (emit v) rest in
    let spare = suc (length (emit v ++ rest)) - count v in
    let enough : suc (length (emit v ++ rest)) ≡ count v + spare =
      omega (arith, count-le-length v 0 h, room) in
    rw enough (parse_loop-emit v rest spare [] h)

-- A value that the protocol can carry is serialized without a throw, and `parse`, on a buffer that
-- holds the text with anything behind it, returns the value and consumes the text alone.
pub parse-serialize :
    (v out : RespValue) (rest : Bytes)
    → IsSendable 0 v
    → (s : Bytes) × (serialize v ≡ done s) × (parse (s ++ rest) out ≡ (ready v rest, rest, v))
unfolding parse
parse-serialize v out rest h =
    (emit v, serialize-emit v (IsSendable-IsWellTyped v 0 h), rw (parse_impl-emit v rest h, parse))
