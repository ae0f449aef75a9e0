-- ===== src/Resp/Nesting.antt =====
-- The parser's stack of open arrays against the nesting of the value.
use native.Mathlib.Nat.{suc-add, add_assoc}
use tinycache.Prelude.{
  ℕ, suc, ◌+◌, ◌-◌, ◌%◌, ◌≤◌, ◌<◌, ◌≡◌, refl, sym, ap, ◌∙◌, List, ◌∷◌, ◌++◌, append_assoc, arith,
  length,
}
use tinycache.Prelude.Bytes.{Bytes, word}
use tinycache.Resp.{RespType, RespValue, RespArray, resp, elements, nil, cons, size, push_back}
use tinycache.Resp.Decimal.{format}
use tinycache.Resp.Serializer.{crlf, count, count_array}
use tinycache.Resp.Emit.{emit, emit_array}
use tinycache.Resp.Parser.{
  ArrayFrame, Attached, root_ready, waiting, attach_value, read_token, ParsingResult, ready,
  parse_loop, max_array_length, max_nesting_depth,
}
use tinycache.Resp.Output.{one_add, zero_add}
use tinycache.Resp.Reading.{IsSendable, AllSendable, IsSingle, read_single, read_open}

-- What the loop goes on to once a value was attached.
abbrev pub resume : ℕ → Bytes → Attached → ParsingResult
resume f rest (root_ready v) = ready v rest
resume f rest (waiting stack) = parse_loop f stack rest

abbrev append_array : RespArray → RespArray → RespArray
append_array nil ys = ys
append_array (cons x xs) ys = cons x (append_array xs ys)

append_array-push_back :
    (xs : RespArray) (v : RespValue) (ys : RespArray)
    → append_array (push_back xs v) ys ≡ append_array xs (cons v ys)
unfolding push_back
append_array-push_back nil v ys = refl
append_array-push_back (cons x xs) v ys = ap (cons x) (append_array-push_back xs v ys)

append_array-nil : (xs : RespArray) → append_array xs nil ≡ xs
append_array-nil nil = refl
append_array-nil (cons x xs) = ap (cons x) (append_array-nil xs)

push_back_last : (xs : RespArray) (v : RespValue) → push_back xs v ≡ append_array xs (cons v nil)
push_back_last xs v = sym (append_array-nil (push_back xs v)) ∙ append_array-push_back xs v nil

abbrev frame_of : ℕ → RespArray → ArrayFrame
frame_of remaining xs = record { remaining = remaining; elements = xs }

attach_more :
    (n : ℕ) (v : RespValue) (xs : RespArray) (stack : List ArrayFrame)
    → suc n < word
    → 0 < n
    → attach_value v (frame_of (suc n) xs ∷ stack) ≡ waiting (frame_of n (push_back xs v) ∷ stack)
unfolding attach_value
attach_more n v xs stack small more =
    let e : (suc n + (word - 1)) % word ≡ n = omega arith in ground (arith, e)

attach_last :
    (v : RespValue) (xs : RespArray) (stack : List ArrayFrame)
    → attach_value v (frame_of 1 xs ∷ stack)
      ≡ attach_value (resp RespType.array (elements (push_back xs v))) stack
unfolding attach_value
attach_last v xs stack = refl

parse_single :
    (v : RespValue) (rest : Bytes) (f : ℕ) (stack : List ArrayFrame)
    → IsSendable (length stack) v
    → IsSingle v
    → parse_loop (suc f) stack (emit v ++ rest) ≡ resume f rest (attach_value v stack)
unfolding parse_loop
parse_single v rest f stack h one =
    let (c, s, shape, reads) = read_single (length stack) v rest h one in
    rw shape (ground (arith, reads))

parse_open :
    (v : RespValue) (vs : RespArray) (rest : Bytes) (f : ℕ) (stack : List ArrayFrame)
    → size (cons v vs) ≤ max_array_length
    → length stack < max_nesting_depth
    → parse_loop (suc f) stack (emit (resp RespType.array (elements (cons v vs))) ++ rest)
      ≡ parse_loop f (frame_of (size (cons v vs)) nil ∷ stack) (emit_array (cons v vs) ++ rest)
unfolding parse_loop emit read_token
parse_open v vs rest f stack h deep =
    let body = (emit v ++ emit_array vs) ++ rest in
    let shape : (format (suc (size vs)) ++ (crlf ++ (emit v ++ emit_array vs))) ++ rest
        ≡ format (suc (size vs)) ++ (crlf ++ body) =
      simp append_assoc in
    rw shape (ground (arith, read_open (length stack) v vs body h deep))

mutual
  unfolding count emit IsSendable

  pub parse_loop-emit :
      (v : RespValue) (rest : Bytes) (f : ℕ) (stack : List ArrayFrame)
      → IsSendable (length stack) v
      → parse_loop (count v + f) stack (emit v ++ rest) ≡ resume f rest (attach_value v stack)
  parse_loop-emit (resp RespType.array (elements (cons v vs))) rest f stack h = rw suc-add (
      parse_open v vs rest (count v + count_array vs + f) stack h.0 h.1
      ∙ rw (append_assoc (emit v) (emit_array vs) rest) (
          rw (add_assoc (count v) (count_array vs) f) (
            parse_loop-emit v (emit_array vs ++ rest) (count_array vs + f)
              (frame_of (size (cons v vs)) nil ∷ stack) h.2
            ∙ parse_loop-emit_array vs v rest f nil stack h.0 h.3)))
  parse_loop-emit v rest f stack h = rw (one_add f) (parse_single v rest f stack h tt)

  parse_loop-emit_array :
      (xs : RespArray) (v : RespValue) (rest : Bytes) (f : ℕ) (items : RespArray)
      (stack : List ArrayFrame)
      → size (cons v xs) ≤ max_array_length
      → AllSendable (suc (length stack)) xs
      → resume
          (count_array xs + f)
          (emit_array xs ++ rest)
          (attach_value v (frame_of (size (cons v xs)) items ∷ stack))
        ≡ resume f rest
            (attach_value (resp RespType.array (elements (append_array items (cons v xs)))) stack)
  parse_loop-emit_array nil v rest f items stack small h = rw (zero_add f) (
      ap (resume f rest) (
        attach_last v items stack
        ∙ ap (λ xs. attach_value (resp RespType.array (elements xs)) stack)
            (push_back_last items v)))
  parse_loop-emit_array (cons w xs) v rest f items stack small h =
      ap (resume (count w + count_array xs + f) ((emit w ++ emit_array xs) ++ rest))
        (attach_more (suc (size xs)) v items stack (omega arith) (omega arith))
      ∙ rw (append_assoc (emit w) (emit_array xs) rest) (
          rw (add_assoc (count w) (count_array xs) f) (
            parse_loop-emit w (emit_array xs ++ rest) (count_array xs + f)
              (frame_of (size (cons w xs)) (push_back items v) ∷ stack) h.0
            ∙ parse_loop-emit_array xs w rest f (push_back items v) stack (omega arith) h.1
            ∙ ap (λ ys. resume f rest (attach_value (resp RespType.array (elements ys)) stack))
                (append_array-push_back items v (cons w xs))))
