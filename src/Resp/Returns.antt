-- ===== src/Resp/Returns.antt =====
-- What `parse` of src/respParser.cpp returns is well-typed: one round of the parser, then its loop.
use mathlib.Core.Path.{subst}
use tinycache.Prelude.{
  ℕ, zero, suc, ◌+◌, ◌-◌, ◌%◌, ◌≤◌, ◌<◌, ◌≡◌, refl, arith, Bool, true, false, Bool-cases, List, [],
  ◌∷◌, ◌++◌, length, length-append, none, some, Option-cases, inl, inr, ltb, ◌==◌, ℤ, pos, negsuc,
  if◌then◌else◌,
}
use tinycache.Prelude.Bytes.{Bytes, word}
use tinycache.Resp.{
  RespType, RespValue, RespArray, resp, text, number, elements, nil, cons, size, push_back,
}
use tinycache.Resp.Emit.{IsInt64, IsWellTyped}
use tinycache.Resp.Parser.{
  max_bulk_size, max_array_length, max_nesting_depth, ArrayFrame, find_crlf, parse_int64_token,
  Attached, root_ready, waiting, attach_value, Token, value, open_array, incomplete, malformed,
  take_data, read_bulk, read_array, read_number, read_line, read_token, ParsingResult, ready,
  parse_loop, parse_impl,
}
use tinycache.Resp.Cuts.{find_crlf-eq-some, take_data-eq-some}
use tinycache.Resp.Rounds.{Leaves, by_value, by_array, read_token-Leaves}
use tinycache.Resp.Typed.{IsRead, AllRead, IsRead-IsWellTyped, parse_int64_token-IsInt64}

-- A value that a round reads is well-typed, and an array that it opens waits for elements.
data IsToken (b : ℕ) : Token → Type 0 where
  reads : {v : RespValue} {rest : Bytes} → IsRead b v → IsToken b (value v rest)
  opens : {n : ℕ} {rest : Bytes} → 0 < n → n ≤ max_array_length → IsToken b (open_array n rest)
  waits : IsToken b incomplete
  refused : IsToken b malformed

token-if :
    (b : ℕ) (test : Bool) {x y : Token}
    → IsToken b x
    → IsToken b y
    → IsToken b (if test then x else y)
token-if b true hx hy = hx
token-if b false hx hy = hy

line-le : (s line rest : Bytes) → s ≡ line ++ 13 ∷ 10 ∷ rest → length line ≤ length s
line-le s line rest e = grind (arith, e, length-append line (13 ∷ 10 ∷ rest))

module _ (b : ℕ) where
  data-IsToken :
      (n : ℕ) (s : Bytes)
      → length s ≤ b
      → IsToken b (elim (take_data n s) [
        | none ↦ malformed
        | some (bytes, rest) ↦ value (resp RespType.bulk_string (text bytes)) rest
      ])
  unfolding IsRead
  data-IsToken n s h = elim (Option-cases (take_data n s)) [
    | inl miss ↦ rw miss refused
    | inr (r, hit) ↦
        let low = line-le s r.0 r.1 (take_data-eq-some n s {bytes = r.0} {rest = r.1} hit) in
        rw hit (reads (omega (arith, low, h)))
  ]

  read_bulk-IsToken : (n : ℤ) (s : Bytes) → length s ≤ b → IsToken b (read_bulk n s)
  unfolding read_bulk IsRead
  read_bulk-IsToken (negsuc zero) s h = reads tt
  read_bulk-IsToken (negsuc (suc n)) s h = refused
  read_bulk-IsToken (pos n) s h =
      token-if b (ltb max_bulk_size n) refused
        (token-if b (ltb (length s) (n + 2)) waits (data-IsToken n s h))

  read_array-IsToken : (depth : ℕ) (n : ℤ) (s : Bytes) → IsToken b (read_array depth n s)
  unfolding read_array IsRead AllRead
  read_array-IsToken depth (negsuc zero) s = reads tt
  read_array-IsToken depth (negsuc (suc n)) s = refused
  read_array-IsToken depth (pos n) s = elim (Bool-cases (ltb max_array_length n)) [
    | inl long ↦ rw long refused
    | inr short ↦ rw short (elim (Bool-cases (n == 0)) [
      | inl empty ↦ rw empty (reads (omega arith, tt))
      | inr some_elements ↦ rw some_elements (
          token-if b (ltb max_nesting_depth (depth + 1)) refused
            (opens (ground (arith, some_elements)) (ground (arith, short))))
    ])
  ]

  read_line-IsToken :
      (t : RespType) (s : Bytes)
      → ((line : Bytes) → length line ≤ b → IsRead b (resp t (text line)))
      → length s ≤ b
      → IsToken b (read_line t s)
  unfolding read_line
  read_line-IsToken t s line_ok h = elim (Option-cases (find_crlf s)) [
    | inl miss ↦ rw (miss, read_line) waits
    | inr (r, hit) ↦
        let low = line-le s r.0 r.1 (find_crlf-eq-some s {line = r.0} {rest = r.1} hit) in
        rw (hit, read_line) (reads (line_ok r.0 (omega (arith, low, h))))
  ]

  read_number-IsToken :
      (s : Bytes) (next : ℤ → Bytes → Token)
      → ((n : ℤ) (r : Bytes) → IsInt64 n → length r ≤ b → IsToken b (next n r))
      → length s ≤ b
      → IsToken b (read_number s next)
  unfolding read_number
  read_number-IsToken s next next_ok h = elim (Option-cases (find_crlf s)) [
    | inl miss ↦ rw (miss, read_number) waits
    | inr (r, hit) ↦ elim (Option-cases (parse_int64_token r.0)) [
      | inl bad ↦ rw (hit, bad, read_number) refused
      | inr (n, good) ↦
          let cut = find_crlf-eq-some s {line = r.0} {rest = r.1} hit in
          let low : length r.1 ≤ length s = grind (arith, cut, length-append r.0 (13 ∷ 10 ∷ r.1)) in
          rw (hit, good, read_number)
            (next_ok n r.1 (parse_int64_token-IsInt64 r.0 {n = n} good) (omega (arith, low, h)))
    ]
  ]

  read_token-IsToken : (depth c : ℕ) (s : Bytes) → length s ≤ b → IsToken b (read_token depth c s)
  unfolding read_token IsRead
  read_token-IsToken depth c s h =
      token-if b (c == b'+') (read_line-IsToken RespType.simple_string s (λ line low. low) h) (
        token-if b (c == b'-') (read_line-IsToken RespType.error s (λ line low. low) h) (
          token-if b (c == b':')
            (read_number-IsToken s (λ n rest. value (resp RespType.integer (number n)) rest)
              (λ n r wide low. reads wide) h)
            (token-if b (c == b'$')
              (read_number-IsToken s read_bulk (λ n r wide low. read_bulk-IsToken n r low) h)
              (token-if b (c == b'*')
                (read_number-IsToken s (read_array depth)
                  (λ n r wide low. read_array-IsToken depth n r) h)
                refused))))

  push_back-AllRead :
      (xs : RespArray) (v : RespValue)
      → AllRead b xs
      → IsRead b v
      → AllRead b (push_back xs v) × (size (push_back xs v) ≡ suc (size xs))
  unfolding push_back AllRead
  push_back-AllRead nil v h h' = ((h', tt), refl)
  push_back-AllRead (cons x xs) v h h' =
      let (all, longer) = push_back-AllRead xs v h.1 h' in ((h.0, all), omega (arith, longer))

  -- The open arrays hold well-typed elements, and wait for at least one more.
  abbrev AllFrames : List ArrayFrame → Type 0
  AllFrames [] = Unit
  AllFrames (frame ∷ stack) =
      AllRead b frame.elements
      × (0 < frame.remaining)
      × (size frame.elements + frame.remaining ≤ max_array_length)
      × AllFrames stack

  abbrev IsAttached : Attached → Type 0
  IsAttached (root_ready v) = IsRead b v
  IsAttached (waiting stack) = AllFrames stack

  attach_value-IsAttached :
      (v : RespValue) (stack : List ArrayFrame)
      → IsRead b v
      → AllFrames stack
      → IsAttached (attach_value v stack)
  unfolding attach_value IsRead
  attach_value-IsAttached v [] h all = h
  attach_value-IsAttached v (frame ∷ stack) h (read, some_left, fits, all) =
      let (read', longer) = push_back-AllRead frame.elements v read h in
      let left : (frame.remaining + (word - 1)) % word ≡ frame.remaining - 1 =
        omega (arith, some_left, fits) in
      elim (Bool-cases (ltb 0 (frame.remaining - 1))) [
        | inl more ↦
            rw (left, more)
              (read', ground (arith, more), omega (arith, longer, fits, some_left), all)
        | inr full ↦
            rw (left, full)
              (attach_value-IsAttached (resp RespType.array (elements (push_back frame.elements v)))
                stack (omega (arith, longer, fits, some_left), read') all)
      ]

  abbrev IsResult : ParsingResult → Type 0
  IsResult (ready v rest) = IsRead b v
  IsResult _ = Unit

  round-IsResult :
      (f : ℕ) (stack : List ArrayFrame) (c : ℕ) (s : Bytes)
      → length s ≤ b
      → AllFrames stack
      → ((stack' : List ArrayFrame) (r : Bytes)
          → length r ≤ b
          → AllFrames stack'
          → IsResult (parse_loop f stack' r))
      → (tok : Token) → read_token (length stack) c s ≡ tok
      → Leaves s tok
      → IsToken b tok
      → IsResult (parse_loop (suc f) stack (c ∷ s))
  unfolding parse_loop AllRead
  round-IsResult f stack c s h all ih incomplete e l typed = rw (e, parse_loop) tt
  round-IsResult f stack c s h all ih malformed e l typed = rw (e, parse_loop) tt
  round-IsResult f stack c s h all ih (open_array n rest) e (by_array used cut)
        (opens some_left fits) =
      rw (e, parse_loop)
        (ih (record { remaining = n; elements = nil } ∷ stack) rest
          (grind (arith, cut, h, length-append used rest))
          (tt, some_left, omega (arith, fits), all))
  round-IsResult f stack c s h all ih (value v rest) e (by_value used cut) (reads typed) =
      go (attach_value v stack) refl (attach_value-IsAttached v stack typed all)
    where
      go :
          (a : Attached)
          → attach_value v stack ≡ a
          → IsAttached a
          → IsResult (parse_loop (suc f) stack (c ∷ s))
      go (root_ready root) e' attached = rw (e, e', parse_loop) attached
      go (waiting stack') e' attached =
          rw (e, e', parse_loop)
            (ih stack' rest (grind (arith, cut, h, length-append used rest)) attached)

  parse_loop-IsResult :
      (f : ℕ) (stack : List ArrayFrame) (s : Bytes)
      → length s ≤ b
      → AllFrames stack
      → IsResult (parse_loop f stack s)
  unfolding parse_loop
  parse_loop-IsResult zero stack s h all = tt
  parse_loop-IsResult (suc f) stack [] h all = tt
  parse_loop-IsResult (suc f) stack (c ∷ s) h all =
      round-IsResult f stack c s (omega (arith, h)) all
        (λ stack' r low all'. parse_loop-IsResult f stack' r low all')
        (read_token (length stack) c s) refl (read_token-Leaves (length stack) c s)
        (read_token-IsToken (length stack) c s (omega (arith, h)))

pub parse_impl-IsRead :
    (b : ℕ) (s : Bytes) {v : RespValue} {rest : Bytes}
    → length s ≤ b
    → parse_impl s ≡ ready v rest
    → IsRead b v
unfolding parse_impl
parse_impl-IsRead b s low h =
    subst (IsResult b) h (parse_loop-IsResult b (suc (length s)) [] s low tt)

-- A value that the parser returns for a buffer shorter than 2 ^ 64 bytes is well-typed: its tags and
-- variants agree, its numbers are 64 bits wide, and its lengths are sizes.
pub parse_impl-IsWellTyped :
    (s : Bytes) {v : RespValue} {rest : Bytes}
    → length s < word
    → parse_impl s ≡ ready v rest
    → IsWellTyped v
parse_impl-IsWellTyped s {v} {rest} low h =
    IsRead-IsWellTyped (length s) v low (parse_impl-IsRead (length s) s (omega arith) h)
