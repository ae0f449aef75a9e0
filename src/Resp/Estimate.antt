-- ===== src/Resp/Estimate.antt =====
-- `estimate_serialized_size` of src/respSerializer.cpp against the recursive text.
use native.Mathlib.Nat.{suc-add, add-zero, add_assoc}
use tinycache.Prelude.{
  ℕ, suc, ◌+◌, ◌%◌, ◌<◌, ◌≡◌, ap, List, [], ◌∷◌, ◌++◌, length, length-append, ℤ, pos, arith, ◌∙◌,
}
use tinycache.Prelude.Bytes.{Bytes, word, add64}
use tinycache.Resp.{
  RespType, RespValue, RespData, RespArray, resp, text, number, elements, nil, cons, size,
}
use tinycache.Resp.Decimal.{format, format_int, to_chars_fits, IsWord}
use tinycache.Resp.Serializer.{
  done, crlf, integer_length, push_elements, estimate_value, estimate_loop,
  estimate_serialized_size, count, count_array, serialize,
}
use tinycache.Resp.Emit.{emit, emit_array, IsWellTyped, AllWellTyped}
use tinycache.Resp.Output.{IsLeaf, IsInt64-IsWord, one_add, zero_add, serialize_loop-count}

integer_length-format_int : (n : ℤ) → IsWord n → integer_length n ≡ length (format_int n)
unfolding integer_length
integer_length-format_int n h = ground (arith, to_chars_fits n h)

length-append_bytes : (s t : Bytes) → length (s ++ t) ≡ length s + length t
length-append_bytes = length-append

-- The total so far, of which the program keeps 64 bits.
estimate_leaf :
    (total : ℕ) (stack : List RespValue) (t : RespType) (d : RespData)
    → IsWellTyped (resp t d)
    → IsLeaf t d
    → estimate_value (total % word) (resp t d) stack
      ≡ done ((total + length (emit (resp t d))) % word, stack)
unfolding estimate_value emit IsWellTyped add64 format_int
estimate_leaf total stack RespType.simple_string (text s) h leaf =
    ground (arith, length-append_bytes s crlf)
estimate_leaf total stack RespType.error (text s) h leaf =
    ground (arith, length-append_bytes s crlf)
estimate_leaf total stack RespType.integer (number n) h leaf = ground (
  arith,
  length-append_bytes (format_int n) crlf,
  integer_length-format_int n (IsInt64-IsWord n h),
)
estimate_leaf total stack RespType.bulk_string (text s) h leaf = ground (
  arith,
  length-append_bytes (format (length s)) (crlf ++ (s ++ crlf)),
  length-append_bytes s crlf,
  integer_length-format_int (pos (length s)) h,
)
estimate_leaf total stack RespType.null_bulk_string d h leaf = ground arith
estimate_leaf total stack RespType.null_array d h leaf = ground arith
estimate_leaf total stack RespType.unknown d h leaf = ground arith
estimate_leaf total stack RespType.array (elements xs) h leaf = absurd leaf
estimate_leaf total stack _ _ h leaf = absurd h

estimate_header :
    (total : ℕ) (stack : List RespValue) (xs : RespArray)
    → size xs < word
    → estimate_value (total % word) (resp RespType.array (elements xs)) stack
      ≡ done ((total + length (b'*' ∷ (format (size xs) ++ crlf))) % word, push_elements xs stack)
unfolding estimate_value add64 format_int
estimate_header total stack xs h = ground (
  arith,
  length-append_bytes (format (size xs)) crlf,
  integer_length-format_int (pos (size xs)) h,
)

estimate_step :
    (f total : ℕ) (v : RespValue) (stack : List RespValue) {total' : ℕ} {stack' : List RespValue}
    → estimate_value total v stack ≡ done (total', stack')
    → estimate_loop (suc f) total (v ∷ stack) ≡ estimate_loop f total' stack'
unfolding estimate_loop
estimate_step f total v stack h = rw h

array_length :
    (total : ℕ) (xs : RespArray)
    → total + length (b'*' ∷ (format (size xs) ++ crlf)) + length (emit_array xs)
      ≡ total + length (b'*' ∷ (format (size xs) ++ (crlf ++ emit_array xs)))
array_length total xs = omega (
  arith,
  length-append_bytes (format (size xs)) crlf,
  length-append_bytes (format (size xs)) (crlf ++ emit_array xs),
)

mutual
  unfolding count emit IsWellTyped push_elements

  estimate_loop-emit :
      (v : RespValue)
      → IsWellTyped v
      → (f total : ℕ) (stack : List RespValue)
      → estimate_loop (count v + f) (total % word) (v ∷ stack)
        ≡ estimate_loop f ((total + length (emit v)) % word) stack
  estimate_loop-emit (resp RespType.array (elements xs)) h f total stack =
      let head = b'*' ∷ (format (size xs) ++ crlf) in
      rw suc-add (
        estimate_step (count_array xs + f) (total % word) (resp RespType.array (elements xs)) stack
          (estimate_header total stack xs h.0)
        ∙ estimate_loop-emit_array xs h.1 f (total + length head) stack
        ∙ ap (λ n. estimate_loop f (n % word) stack) (array_length total xs))
  estimate_loop-emit (resp t d) h f total stack =
      rw (one_add f)
        (estimate_step f (total % word) (resp t d) stack (estimate_leaf total stack t d h tt))

  estimate_loop-emit_array :
      (xs : RespArray)
      → AllWellTyped xs
      → (f total : ℕ) (stack : List RespValue)
      → estimate_loop (count_array xs + f) (total % word) (push_elements xs stack)
        ≡ estimate_loop f ((total + length (emit_array xs)) % word) stack
  estimate_loop-emit_array nil h f total stack =
      rw (zero_add f) (ap (λ n. estimate_loop f (n % word) stack) (omega arith))
  estimate_loop-emit_array (cons v vs) h f total stack =
      rw (add_assoc (count v) (count_array vs) f)
        (estimate_loop-emit v h.0 (count_array vs + f) total (push_elements vs stack))
      ∙ estimate_loop-emit_array vs h.1 f (total + length (emit v)) stack
      ∙ ap (λ n. estimate_loop f (n % word) stack)
          (omega (arith, length-append_bytes (emit v) (emit_array vs)))

-- The estimate of a well-typed value is the length of its text, in 64 bits.
pub estimate-length :
    (root : RespValue)
    → IsWellTyped root
    → estimate_serialized_size root ≡ done (length (emit root) % word)
unfolding estimate_serialized_size estimate_loop
estimate-length root h = rw zero_add at (rw add-zero at (estimate_loop-emit root h 0 0 []))

-- A well-typed value is serialized to its text: both loops end within their fuel, and nothing throws.
pub serialize-emit : (root : RespValue) → IsWellTyped root → serialize root ≡ done (emit root)
unfolding serialize
serialize-emit root h = rw (estimate-length root h) (serialize_loop-count root h)
