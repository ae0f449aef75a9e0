-- ===== src/Resp/Reading.antt =====
-- One round of the parser (src/respParser.cpp) on what the serializer writes.
use tinycache.Prelude.{
  ℕ, suc, ◌≤◌, ◌<◌, ◌≡◌, refl, ◌∙◌, [], ◌∷◌, ◌++◌, append_assoc, none, some, arith, length,
  length-append, ℤ, pos, negsuc,
}
use tinycache.Prelude.Bytes.{Bytes}
use tinycache.Resp.{RespType, RespValue, RespArray, resp, text, number, elements, nil, cons, size}
use tinycache.Resp.Decimal.{format, format_int}
use tinycache.Resp.Serializer.{crlf}
use tinycache.Resp.Emit.{emit, IsInt64}
use tinycache.Resp.Parser.{
  find_crlf, Token, value, open_array, take_data, read_bulk, read_array, read_number, read_line,
  read_token, max_bulk_size, max_array_length, max_nesting_depth,
}
use tinycache.Resp.Numbers.{find_crlf-append, find_crlf-format_int, parse_int64_token-format_int}

-- A value that the parser can return with `depth` arrays open: lines hold no CR LF, numbers and
-- lengths are in range, and nulls carry the default variant.
unfoldable mutual
  pub IsSendable : ℕ → RespValue → Type 0
  IsSendable depth (resp RespType.simple_string (text s)) = find_crlf s ≡ none
  IsSendable depth (resp RespType.error (text s)) = find_crlf s ≡ none
  IsSendable depth (resp RespType.integer (number n)) = IsInt64 n
  IsSendable depth (resp RespType.bulk_string (text s)) = length s ≤ max_bulk_size
  IsSendable depth (resp RespType.null_bulk_string (text [])) = Unit
  IsSendable depth (resp RespType.array (elements nil)) = Unit
  IsSendable depth (resp RespType.array (elements (cons v vs))) =
      (size (cons v vs) ≤ max_array_length)
      × (depth < max_nesting_depth)
      × IsSendable (suc depth) v
      × AllSendable (suc depth) vs
  IsSendable depth (resp RespType.null_array (text [])) = Unit
  IsSendable depth (resp _ _) = ⊥

  pub AllSendable : ℕ → RespArray → Type 0
  AllSendable depth nil = Unit
  AllSendable depth (cons v vs) = IsSendable depth v × AllSendable depth vs

take_data-append : (s rest : Bytes) → take_data (length s) (s ++ 13 ∷ 10 ∷ rest) ≡ some (s, rest)
unfolding take_data
take_data-append [] rest = refl
take_data-append (c ∷ s) rest = rw (take_data-append s rest)

read_number-format_int :
    (n : ℤ) (rest : Bytes) (next : ℤ → Bytes → Token)
    → IsInt64 n
    → read_number (format_int n ++ (crlf ++ rest)) next ≡ next n rest
unfolding read_number
read_number-format_int n rest next h = ground (
  arith,
  find_crlf-append (format_int n) rest (find_crlf-format_int n),
  parse_int64_token-format_int n h,
)

read_line-crlf :
    (t : RespType) (s rest : Bytes)
    → find_crlf s ≡ none
    → read_line t (s ++ (crlf ++ rest)) ≡ value (resp t (text s)) rest
unfolding read_line
read_line-crlf t s rest h = ground (arith, find_crlf-append s rest h)

read_bulk-data :
    (s rest : Bytes)
    → length s ≤ max_bulk_size
    → read_bulk (pos (length s)) (s ++ (crlf ++ rest))
      ≡ value (resp RespType.bulk_string (text s)) rest
unfolding read_bulk
read_bulk-data s rest h =
    ground (arith, take_data-append s rest, length-append {0} s (crlf ++ rest))

-- What one round reads of a value that is no array with elements.
abbrev pub IsSingle : RespValue → Type 0
IsSingle (resp RespType.array (elements (cons v vs))) = ⊥
IsSingle _ = Unit

abbrev first_byte : Bytes → ℕ
first_byte [] = 0
first_byte (c ∷ s) = c

pub read_single :
    (depth : ℕ) (v : RespValue) (rest : Bytes)
    → IsSendable depth v
    → IsSingle v
    → (c : ℕ) × (s : Bytes) × (emit v ++ rest ≡ c ∷ s) × (read_token depth c s ≡ value v rest)
unfolding IsSendable emit read_token format_int
read_single depth (resp RespType.simple_string (text s)) rest h one =
    (b'+', s ++ (crlf ++ rest), simp append_assoc, read_line-crlf RespType.simple_string s rest h)
read_single depth (resp RespType.error (text s)) rest h one =
    (b'-', s ++ (crlf ++ rest), simp append_assoc, read_line-crlf RespType.error s rest h)
read_single depth (resp RespType.integer (number n)) rest h one = (
  b':',
  format_int n ++ (crlf ++ rest),
  simp append_assoc,
  read_number-format_int n rest (λ n rest. value (resp RespType.integer (number n)) rest) h,
)
read_single depth (resp RespType.bulk_string (text s)) rest h one = (
  b'$',
  format (length s) ++ (crlf ++ (s ++ (crlf ++ rest))),
  simp append_assoc,
  read_number-format_int (pos (length s)) (s ++ (crlf ++ rest)) read_bulk (omega arith)
      ∙ read_bulk-data s rest h,
)
read_single depth (resp RespType.null_bulk_string (text [])) rest h one = (
  b'$',
  b'-' ∷ b'1' ∷ (crlf ++ rest),
  refl,
  read_number-format_int (negsuc 0) rest read_bulk (omega arith) ∙ unfold read_bulk in refl,
)
read_single depth (resp RespType.array (elements nil)) rest h one = (
  b'*',
  format 0 ++ (crlf ++ rest),
  simp append_assoc,
  read_number-format_int (pos 0) rest (read_array depth) (omega arith) ∙ unfold read_array in refl,
)
read_single depth (resp RespType.array (elements (cons v vs))) rest h one = absurd one
read_single depth (resp RespType.null_array (text [])) rest h one = (
  b'*',
  b'-' ∷ b'1' ∷ (crlf ++ rest),
  refl,
  read_number-format_int (negsuc 0) rest (read_array depth) (omega arith)
      ∙ unfold read_array in refl,
)
read_single depth (resp _ _) rest h one = absurd h

pub read_open :
    (depth : ℕ) (v : RespValue) (vs : RespArray) (rest : Bytes)
    → size (cons v vs) ≤ max_array_length
    → depth < max_nesting_depth
    → read_number (format (size (cons v vs)) ++ (crlf ++ rest)) (read_array depth)
      ≡ open_array (size (cons v vs)) rest
unfolding read_array
read_open depth v vs rest h deep =
    unfold format_int in
    read_number-format_int (pos (size (cons v vs))) rest (read_array depth) (omega arith)
    ∙ ground arith
