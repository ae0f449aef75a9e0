-- ===== src/Resp/Emit.antt =====
-- The text of a value by recursion, and the values that the protocol can carry.
use tinycache.Prelude.{◌^◌, ◌<◌, [], ◌∷◌, ◌++◌, length, ℤ, pos, negsuc}
use tinycache.Prelude.Bytes.{Bytes, word}
use tinycache.Resp.{RespType, RespValue, RespArray, resp, text, number, elements, nil, cons, size}
use tinycache.Resp.Decimal.{format, format_int}
use tinycache.Resp.Serializer.{crlf, null_bulk_line, null_array_line, unknown_type}

unfoldable mutual
  pub emit : RespValue → Bytes
  emit (resp RespType.simple_string (text s)) = b'+' ∷ (s ++ crlf)
  emit (resp RespType.error (text s)) = b'-' ∷ (s ++ crlf)
  emit (resp RespType.integer (number n)) = b':' ∷ (format_int n ++ crlf)
  emit (resp RespType.bulk_string (text s)) = b'$' ∷ (format (length s) ++ (crlf ++ (s ++ crlf)))
  emit (resp RespType.null_bulk_string d) = null_bulk_line
  emit (resp RespType.array (elements xs)) = b'*' ∷ (format (size xs) ++ (crlf ++ emit_array xs))
  emit (resp RespType.null_array d) = null_array_line
  emit (resp RespType.unknown d) = unknown_type
  emit (resp _ _) = []

  pub emit_array : RespArray → Bytes
  emit_array nil = []
  emit_array (cons v vs) = emit v ++ emit_array vs

-- The tag and the variant agree, numbers are 64 bits wide, and lengths are sizes.
abbrev pub IsInt64 : ℤ → Type 0
IsInt64 (pos n) = n < 2 ^ 63
IsInt64 (negsuc n) = n < 2 ^ 63

unfoldable mutual
  pub IsWellTyped : RespValue → Type 0
  IsWellTyped (resp RespType.simple_string (text s)) = Unit
  IsWellTyped (resp RespType.error (text s)) = Unit
  IsWellTyped (resp RespType.integer (number n)) = IsInt64 n
  IsWellTyped (resp RespType.bulk_string (text s)) = length s < word
  IsWellTyped (resp RespType.null_bulk_string d) = Unit
  IsWellTyped (resp RespType.array (elements xs)) = (size xs < word) × AllWellTyped xs
  IsWellTyped (resp RespType.null_array d) = Unit
  IsWellTyped (resp RespType.unknown d) = Unit
  IsWellTyped (resp _ _) = ⊥

  pub AllWellTyped : RespArray → Type 0
  AllWellTyped nil = Unit
  AllWellTyped (cons v vs) = IsWellTyped v × AllWellTyped vs
