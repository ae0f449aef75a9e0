-- ===== src/Resp/Parser.antt =====
-- src/respParser.cpp. A position in the buffer is the list of the bytes from there on.
use tinycache.Prelude.{
  ℕ, zero, suc, ◌+◌, ◌-◌, ◌*◌, ◌/◌, ◌%◌, ◌^◌, Bool, true, false, ◌&&◌, ◌||◌, List, [], ◌∷◌, Option,
  none, some, length, ltb, ◌==◌, if◌then◌else◌, ℤ, pos, negsuc,
}
use tinycache.Prelude.Bytes.{Bytes, word}
use tinycache.Resp.{RespType, RespValue, RespData, RespArray, resp, text, number, nil, push_back}

abbrev pub max_bulk_size : ℕ
max_bulk_size = 16 * 1024 * 1024

abbrev pub max_array_length : ℕ
max_array_length = 1 * 1024 * 1024

abbrev pub max_nesting_depth : ℕ
max_nesting_depth = 4096

abbrev pub int64_max : ℕ
int64_max = 2 ^ 63 - 1

abbrev pub int64_min_abs : ℕ
int64_min_abs = int64_max + 1

pub record ArrayFrame : Type 0 where
  pub remaining : ℕ
  pub elements : RespArray

-- `findCrlf`: the bytes before the first CR LF and those behind it.
unfoldable pub find_crlf : Bytes → Option (Bytes × Bytes)
find_crlf [] = none
find_crlf (c ∷ []) = none
find_crlf (c ∷ d ∷ s) =
    if (c == 13) && (d == 10)
    then some ([], s)
    else elim (find_crlf (d ∷ s)) [ none ↦ none | some (line, rest) ↦ some (c ∷ line, rest) ]

-- The loop over the digits of `parseInt64Token`.
unfoldable pub scan_digits : ℕ → Bytes → ℕ → Option ℕ
scan_digits limit [] acc = some acc
scan_digits limit (c ∷ s) acc =
    let digit = c - b'0' in
    if ltb c b'0' || ltb b'9' c
    then none
    else if ltb ((limit - digit) / 10) acc
    then none
    else scan_digits limit s ((acc * 10 + digit) % word)

-- `-static_cast<int64_t>(acc)` for an `acc` below 2 ^ 63, and the least value for 2 ^ 63.
unfoldable pub negate : ℕ → ℤ
negate zero = pos 0
negate (suc n) = negsuc n

unfoldable pub int_of : Bool → Option ℕ → Option ℤ
int_of negative none = none
int_of false (some acc) = some (pos acc)
int_of true (some acc) = some (negate acc)

-- The digits behind the sign, of which there must be one.
unfoldable pub parse_unsigned : Bool → Bytes → Option ℤ
unfolding scan_digits int_of negate
parse_unsigned negative [] = none
parse_unsigned negative (c ∷ s) =
    int_of negative (scan_digits (if negative then int64_min_abs else int64_max) (c ∷ s) 0)

unfoldable pub parse_int64_token : Bytes → Option ℤ
unfolding parse_unsigned
parse_int64_token [] = none
parse_int64_token (c ∷ s) =
    if (c == b'+') || (c == b'-')
    then parse_unsigned (c == b'-') s
    else parse_unsigned false (c ∷ s)

-- What `attachValue` leaves: the root value, or a stack that waits for more.
pub data Attached : Type 0 where
  root_ready : RespValue → Attached
  waiting : List ArrayFrame → Attached

unfoldable pub attach_value : RespValue → List ArrayFrame → Attached
attach_value v [] = root_ready v
attach_value v (frame ∷ stack) =
    let items = push_back frame.elements v in
    let remaining = (frame.remaining + (word - 1)) % word in
    let outer = attach_value (resp RespType.array (RespData.elements items)) stack in
    if ltb 0 remaining
    then waiting (record { remaining = remaining; elements = items } ∷ stack)
    else outer

-- What one round of the parser reads.
pub data Token : Type 0 where
  value : RespValue → Bytes → Token
  open_array : ℕ → Bytes → Token
  incomplete malformed : Token

-- The bytes behind the length line of a bulk string: `n` bytes of data, then CR LF.
unfoldable pub take_data : ℕ → Bytes → Option (Bytes × Bytes)
take_data zero (c ∷ d ∷ rest) = if (c == 13) && (d == 10) then some ([], rest) else none
take_data zero s = none
take_data (suc n) [] = none
take_data (suc n) (c ∷ s) = elim (take_data n s) [
  | none ↦ none
  | some (bytes, rest) ↦ some (c ∷ bytes, rest)
]

unfoldable pub read_bulk : ℤ → Bytes → Token
unfolding take_data
read_bulk (negsuc zero) rest = value (resp RespType.null_bulk_string (text [])) rest
read_bulk (negsuc (suc n)) rest = malformed
read_bulk (pos n) rest =
    if ltb max_bulk_size n
    then malformed
    else if ltb (length rest) (n + 2)
    then incomplete
    else elim (take_data n rest) [
      | none ↦ malformed
      | some (bytes, rest') ↦ value (resp RespType.bulk_string (text bytes)) rest'
    ]

-- `depth` is the number of arrays that are open.
unfoldable pub read_array : ℕ → ℤ → Bytes → Token
read_array depth (negsuc zero) rest = value (resp RespType.null_array (text [])) rest
read_array depth (negsuc (suc n)) rest = malformed
read_array depth (pos n) rest =
    if ltb max_array_length n
    then malformed
    else if n == 0
    then value (resp RespType.array (RespData.elements nil)) rest
    else if ltb max_nesting_depth (depth + 1)
    then malformed
    else open_array n rest

-- A line with a number, for `next`.
unfoldable pub read_number : Bytes → (ℤ → Bytes → Token) → Token
read_number s next = elim (find_crlf s) [
  | none ↦ incomplete
  | some (line, rest) ↦ elim (parse_int64_token line) [ none ↦ malformed | some n ↦ next n rest ]
]

unfoldable pub read_line : RespType → Bytes → Token
read_line t s = elim (find_crlf s) [
  | none ↦ incomplete
  | some (line, rest) ↦ value (resp t (text line)) rest
]

-- The `switch` on the type byte.
unfoldable pub read_token : ℕ → ℕ → Bytes → Token
read_token depth c s =
    if c == b'+'
    then read_line RespType.simple_string s
    else if c == b'-'
    then read_line RespType.error s
    else if c == b':'
    then read_number s (λ n rest. value (resp RespType.integer (number n)) rest)
    else if c == b'$'
    then read_number s read_bulk
    else if c == b'*'
    then read_number s (read_array depth)
    else malformed

-- `ready` holds the value and the bytes that were not consumed. `out_of_fuel` belongs to the model
-- only.
pub data ParsingResult : Type 0 where
  ready : RespValue → Bytes → ParsingResult
  need_more_data error out_of_fuel : ParsingResult

unfoldable pub parse_loop : ℕ → List ArrayFrame → Bytes → ParsingResult
parse_loop zero stack s = out_of_fuel
parse_loop (suc f) stack [] = need_more_data
parse_loop (suc f) stack (c ∷ s) = elim (read_token (length stack) c s) [
  | incomplete ↦ need_more_data
  | malformed ↦ error
  | open_array n rest ↦ parse_loop f (record { remaining = n; elements = nil } ∷ stack) rest
  | value v rest ↦ elim (attach_value v stack) [
    | root_ready root ↦ ready root rest
    | waiting stack' ↦ parse_loop f stack' rest
  ]
]

-- Every round consumes a byte, so the fuel is enough.
unfoldable pub parse_impl : Bytes → ParsingResult
parse_impl s = parse_loop (suc (length s)) [] s

-- `RespParser::parse`: the outcome, and the buffer and the output value afterwards.
unfoldable pub parse : Bytes → RespValue → ParsingResult × Bytes × RespValue
parse buffer out = elim (parse_impl buffer) [
  | ready v rest ↦ (ready v rest, rest, v)
  | other ↦ (other, buffer, out)
]
