-- ===== src/Resp/Serializer.antt =====
-- src/respSerializer.cpp.
use tinycache.Prelude.{ℕ, zero, suc, ◌+◌, List, [], ◌∷◌, ◌++◌, Option, none, some, length, ℤ, pos}
use tinycache.Prelude.Bytes.{Bytes, codes, add64}
use tinycache.Resp.{
  RespType, RespValue, RespData, RespArray, resp, nil, cons, get_text, get_number, get_elements,
  size,
}
use tinycache.Resp.Decimal.{to_chars}

-- A run, which may throw `std::bad_variant_access`. `out_of_fuel` belongs to the model only.
pub data Printed {ℓ} (A : Type ℓ) : Type ℓ where
  done : A → Printed A
  bad_variant out_of_fuel : Printed A

infixl 4 ◌>>=◌
abbrev pub ◌>>=◌ {ℓ κ} :
    {R : Type ℓ} {S : Type κ} → (run : Printed R) → (next : R → Printed S) → Printed S
bad_variant >>= next = bad_variant
out_of_fuel >>= next = out_of_fuel
done r >>= next = next r

-- `std::get`
abbrev pub got {ℓ} : {A : Type ℓ} → Option A → Printed A
got none = bad_variant
got (some a) = done a

abbrev pub crlf : Bytes
crlf = 13 ∷ 10 ∷ []

abbrev pub null_bulk_line : Bytes
null_bulk_line = b'$' ∷ b'-' ∷ b'1' ∷ 13 ∷ 10 ∷ []

abbrev pub null_array_line : Bytes
null_array_line = b'*' ∷ b'-' ∷ b'1' ∷ 13 ∷ 10 ∷ []

abbrev pub unknown_type : Bytes
unknown_type = codes "-ERR unknown type" ++ crlf

-- The buffers that the numbers are printed into hold 32 bytes.
abbrev pub buffer_size : ℕ
buffer_size = 32

unfoldable pub integer_length : ℤ → ℕ
integer_length n = elim (to_chars buffer_size n) [ none ↦ 0 | some s ↦ length s ]

unfoldable pub append_integer : Bytes → ℤ → Bytes
append_integer out n = elim (to_chars buffer_size n) [ none ↦ out | some s ↦ out ++ s ]

unfoldable pub append_prefixed_line : Bytes → ℕ → Bytes → Bytes
append_prefixed_line out prefix s = ((out ++ prefix ∷ []) ++ s) ++ crlf

unfoldable pub append_non_array : Bytes → RespType → RespData → Printed Bytes
append_non_array out RespType.simple_string d = do
  s ← got (get_text d)
  done (append_prefixed_line out b'+' s)
append_non_array out RespType.error d = do
  s ← got (get_text d)
  done (append_prefixed_line out b'-' s)
append_non_array out RespType.integer d = do
  n ← got (get_number d)
  done (append_integer (out ++ b':' ∷ []) n ++ crlf)
append_non_array out RespType.bulk_string d = do
  s ← got (get_text d)
  done (((append_integer (out ++ b'$' ∷ []) (pos (length s)) ++ crlf) ++ s) ++ crlf)
append_non_array out RespType.null_bulk_string d = done (out ++ null_bulk_line)
append_non_array out RespType.null_array d = done (out ++ null_array_line)
append_non_array out _ d = done (out ++ unknown_type)

-- The bytes that one value adds to the estimate, with the values that it leaves to be visited.
unfoldable pub push_elements : RespArray → List RespValue → List RespValue
push_elements nil stack = stack
push_elements (cons v vs) stack = v ∷ push_elements vs stack

-- One round of `estimate_serialized_size`: the total and the stack after a value.
unfoldable pub estimate_value : ℕ → RespValue → List RespValue → Printed (ℕ × List RespValue)
estimate_value total (resp RespType.simple_string d) stack = do
  s ← got (get_text d)
  done (add64 total (1 + length s + length crlf), stack)
estimate_value total (resp RespType.error d) stack = do
  s ← got (get_text d)
  done (add64 total (1 + length s + length crlf), stack)
estimate_value total (resp RespType.integer d) stack = do
  n ← got (get_number d)
  done (add64 total (1 + integer_length n + length crlf), stack)
estimate_value total (resp RespType.bulk_string d) stack = do
  s ← got (get_text d)
  done (
    add64 total (1 + integer_length (pos (length s)) + length crlf + length s + length crlf),
    stack,
  )
estimate_value total (resp RespType.null_bulk_string d) stack =
    done (add64 total (length null_bulk_line), stack)
estimate_value total (resp RespType.array d) stack = do
  xs ← got (get_elements d)
  done (add64 total (1 + integer_length (pos (size xs)) + length crlf), push_elements xs stack)
estimate_value total (resp RespType.null_array d) stack =
    done (add64 total (length null_array_line), stack)
estimate_value total (resp RespType.unknown d) stack =
    done (add64 total (length unknown_type), stack)

unfoldable pub estimate_loop : ℕ → ℕ → List RespValue → Printed ℕ
estimate_loop f total [] = done total
estimate_loop zero total (v ∷ stack) = out_of_fuel
estimate_loop (suc f) total (v ∷ stack) =
    estimate_value total v stack >>= λ r. estimate_loop f r.0 r.1

-- An `ArrayFrame` is the elements from `next_index` on. The inner loop of `serialize_iterative` drops
-- the frames that are done and takes the next element of the first that is not.
unfoldable pub advance : List RespArray → Option (RespValue × List RespArray)
advance [] = none
advance (nil ∷ stack) = advance stack
advance (cons v vs ∷ stack) = some (v, vs ∷ stack)

-- One round of `serialize_iterative` up to the inner loop: the output, and the element to go on with
-- at once, if there is one.
unfoldable pub visit :
    Bytes → RespValue → List RespArray → Printed (Bytes × Option (RespValue × List RespArray))
visit out (resp RespType.array d) stack = do
  xs ← got (get_elements d)
  let out' = append_integer (out ++ b'*' ∷ []) (pos (size xs)) ++ crlf
  done (out', elim xs [ nil ↦ advance stack | cons v vs ↦ some (v, vs ∷ stack) ])
visit out (resp t d) stack = do out' ← append_non_array out t d; done (out', advance stack)

unfoldable pub serialize_loop : ℕ → Bytes → RespValue → List RespArray → Printed Bytes
serialize_loop zero out v stack = out_of_fuel
serialize_loop (suc f) out v stack = visit out v stack >>= λ r. elim r.1 [
  | none ↦ done r.0
  | some next ↦ serialize_loop f r.0 next.0 next.1
]

-- The number of values that a walk through a value visits.
unfoldable mutual
  pub count : RespValue → ℕ
  count (resp RespType.array (RespData.elements xs)) = suc (count_array xs)
  count (resp _ _) = 1

  pub count_array : RespArray → ℕ
  count_array nil = 0
  count_array (cons v vs) = count v + count_array vs

-- Every round visits one value, so their number is fuel enough.
unfoldable pub estimate_serialized_size : RespValue → Printed ℕ
estimate_serialized_size root = estimate_loop (count root) 0 (root ∷ [])

-- `reserve` changes the capacity only; a throw of the estimate is a throw of the whole.
unfoldable pub serialize : RespValue → Printed Bytes
serialize root = do reserved ← estimate_serialized_size root; serialize_loop (count root) [] root []
