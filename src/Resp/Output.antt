-- ===== src/Resp/Output.antt =====
-- The loops of src/respSerializer.cpp against the recursive text.
use native.Mathlib.Nat.{suc-add, add-zero, add_assoc}
use tinycache.Prelude.{
  ℕ, suc, ◌+◌, ◌<◌, ◌≡◌, refl, ap, List, [], ◌∷◌, ◌++◌, length, ℤ, pos, negsuc, Option, none, some,
  append_assoc, append-nil, arith, ◌∙◌,
}
use tinycache.Prelude.Bytes.{Bytes, word}
use tinycache.Resp.{
  RespType, RespValue, RespData, RespArray, resp, text, number, elements, nil, cons, size,
}
use tinycache.Resp.Decimal.{format, format_int, to_chars_fits, IsWord}
use tinycache.Resp.Serializer.{
  Printed, done, crlf, append_integer, append_prefixed_line, append_non_array, advance, visit,
  serialize_loop, count, count_array,
}
use tinycache.Resp.Emit.{emit, emit_array, IsInt64, IsWellTyped, AllWellTyped}

pub append_integer-format_int :
    (out : Bytes) (n : ℤ) → IsWord n → append_integer out n ≡ out ++ format_int n
unfolding append_integer
append_integer-format_int out n h = ground (arith, to_chars_fits n h)

pub IsInt64-IsWord : (n : ℤ) → IsInt64 n → IsWord n
IsInt64-IsWord (pos n) h = omega arith
IsInt64-IsWord (negsuc n) h = h

abbrev pub IsLeaf : RespType → RespData → Type 0
IsLeaf RespType.array (elements xs) = ⊥
IsLeaf _ _ = Unit

-- A value that is no array is printed at once.
leaf :
    (out : Bytes) (stack : List RespArray) (t : RespType) (d : RespData)
    → IsWellTyped (resp t d)
    → IsLeaf t d
    → visit out (resp t d) stack ≡ done (out ++ emit (resp t d), advance stack)
unfolding visit append_non_array append_prefixed_line emit IsWellTyped
leaf out stack RespType.simple_string (text s) h ne = simp append_assoc
leaf out stack RespType.error (text s) h ne = simp append_assoc
leaf out stack RespType.integer (number n) h ne =
    rw (append_integer-format_int (out ++ b':' ∷ []) n (IsInt64-IsWord n h)) (simp append_assoc)
leaf out stack RespType.bulk_string (text s) h ne =
    rw (append_integer-format_int (out ++ b'$' ∷ []) (pos (length s)) h)
      (unfold format_int in simp append_assoc)
leaf out stack RespType.null_bulk_string d h ne = refl
leaf out stack RespType.null_array d h ne = refl
leaf out stack RespType.unknown d h ne = refl
leaf out stack RespType.array (elements xs) h ne = absurd ne
leaf out stack _ _ h ne = absurd h

-- What the loop goes on to once the stack was looked at.
abbrev resume : ℕ → Bytes → Option (RespValue × List RespArray) → Printed Bytes
resume f out none = done out
resume f out (some (v, stack)) = serialize_loop f out v stack

resume_step :
    (f : ℕ) (out : Bytes) (v : RespValue) (stack : List RespArray) {out' : Bytes}
    {next : Option (RespValue × List RespArray)}
    → visit out v stack ≡ done (out', next)
    → serialize_loop (suc f) out v stack ≡ resume f out' next
unfolding serialize_loop
resume_step f out v stack {next = none} h = rw h
resume_step f out v stack {next = some n} h = rw h

abbrev header : RespArray → Bytes
header xs = b'*' ∷ (format (size xs) ++ crlf)

visit_array :
    (out : Bytes) (xs : RespArray)
    → size xs < word
    → append_integer (out ++ b'*' ∷ []) (pos (size xs)) ++ crlf ≡ out ++ header xs
visit_array out xs h =
    rw (append_integer-format_int (out ++ b'*' ∷ []) (pos (size xs)) h)
      (unfold format_int in simp append_assoc)

visit_empty :
    (out : Bytes) (stack : List RespArray)
    → visit out (resp RespType.array (elements nil)) stack
      ≡ done (out ++ emit (resp RespType.array (elements nil)), advance stack)
unfolding visit emit
visit_empty out stack = rw (visit_array out nil (omega arith))

visit_full :
    (out : Bytes) (v : RespValue) (vs : RespArray) (stack : List RespArray)
    → size (cons v vs) < word
    → visit out (resp RespType.array (elements (cons v vs))) stack
      ≡ done (out ++ header (cons v vs), some (v, vs ∷ stack))
unfolding visit
visit_full out v vs stack h = rw (visit_array out (cons v vs) h)

pub one_add : (f : ℕ) → 1 + f ≡ suc f
one_add f = omega arith

pub zero_add : (f : ℕ) → 0 + f ≡ f
zero_add f = omega arith

mutual
  unfolding count emit IsWellTyped visit advance

  serialize_loop-emit :
      (v : RespValue)
      → IsWellTyped v
      → (f : ℕ) (out : Bytes) (stack : List RespArray)
      → serialize_loop (count v + f) out v stack ≡ resume f (out ++ emit v) (advance stack)
  serialize_loop-emit (resp RespType.array (elements nil)) h f out stack =
      rw (one_add f)
        (resume_step f out (resp RespType.array (elements nil)) stack (visit_empty out stack))
  serialize_loop-emit (resp RespType.array (elements (cons v vs))) h f out stack =
      let out' = out ++ header (cons v vs) in
      let f' = count v + count_array vs + f in
      rw suc-add (
        resume_step f' out (resp RespType.array (elements (cons v vs))) stack
          (visit_full out v vs stack h.0)
        ∙ rw (add_assoc (count v) (count_array vs) f)
            (serialize_loop-emit v h.1.0 (count_array vs + f) out' (vs ∷ stack))
        ∙ resume-emit_array vs h.1.1 f (out' ++ emit v) stack
        ∙ ap (λ o. resume f o (advance stack)) (simp append_assoc))
  serialize_loop-emit (resp t d) h f out stack =
      rw (one_add f) (resume_step f out (resp t d) stack (leaf out stack t d h tt))

  resume-emit_array :
      (xs : RespArray)
      → AllWellTyped xs
      → (f : ℕ) (out : Bytes) (stack : List RespArray)
      → resume (count_array xs + f) out (advance (xs ∷ stack))
        ≡ resume f (out ++ emit_array xs) (advance stack)
  resume-emit_array nil h f out stack = rw (zero_add f) (rw (append-nil out))
  resume-emit_array (cons v vs) h f out stack =
      rw (add_assoc (count v) (count_array vs) f)
        (serialize_loop-emit v h.0 (count_array vs + f) out (vs ∷ stack))
      ∙ resume-emit_array vs h.1 f (out ++ emit v) stack
      ∙ ap (λ o. resume f o (advance stack)) (simp append_assoc)

pub serialize_loop-count :
    (root : RespValue)
    → IsWellTyped root
    → serialize_loop (count root) [] root [] ≡ done (emit root)
unfolding advance
serialize_loop-count root h = rw add-zero at (serialize_loop-emit root h 0 [] [])
