-- ===== src/Resp/Typed.antt =====
-- The values that src/respParser.cpp reads: their tags and variants agree, their numbers and lengths
-- are in range, and no text is longer than the buffer.
use mathlib.Core.Path.{subst}
use tinycache.Prelude.{
  ℕ, zero, suc, ◌+◌, ◌*◌, ◌-◌, ◌/◌, ◌%◌, ◌≤◌, ◌<◌, ◌≡◌, arith, Bool, true, false, Bool-cases, [],
  ◌∷◌, length, some, Option-cases, inl, inr, ltb, ◌==◌, ◌||◌, ℤ, pos,
}
use tinycache.Prelude.Bytes.{Bytes, word}
use tinycache.Resp.{RespType, RespValue, RespArray, resp, text, number, elements, nil, cons, size}
use tinycache.Resp.Emit.{IsInt64, IsWellTyped, AllWellTyped}
use tinycache.Resp.Parser.{
  max_array_length, int64_max, int64_min_abs, scan_digits, negate, int_of, parse_unsigned,
  parse_int64_token,
}

-- A well-typed value with texts of at most `b` bytes and arrays as long as the parser allows.
unfoldable mutual
  pub IsRead : ℕ → RespValue → Type 0
  IsRead b (resp RespType.simple_string (text s)) = length s ≤ b
  IsRead b (resp RespType.error (text s)) = length s ≤ b
  IsRead b (resp RespType.integer (number n)) = IsInt64 n
  IsRead b (resp RespType.bulk_string (text s)) = length s ≤ b
  IsRead b (resp RespType.null_bulk_string d) = Unit
  IsRead b (resp RespType.array (elements xs)) = (size xs ≤ max_array_length) × AllRead b xs
  IsRead b (resp RespType.null_array d) = Unit
  IsRead b (resp _ _) = ⊥

  pub AllRead : ℕ → RespArray → Type 0
  AllRead b nil = Unit
  AllRead b (cons v vs) = IsRead b v × AllRead b vs

mutual
  unfolding IsRead AllRead IsWellTyped AllWellTyped

  pub IsRead-IsWellTyped : (b : ℕ) (v : RespValue) → b < word → IsRead b v → IsWellTyped v
  IsRead-IsWellTyped b (resp RespType.simple_string (text s)) low h = tt
  IsRead-IsWellTyped b (resp RespType.error (text s)) low h = tt
  IsRead-IsWellTyped b (resp RespType.integer (number n)) low h = h
  IsRead-IsWellTyped b (resp RespType.bulk_string (text s)) low h = omega (arith, h)
  IsRead-IsWellTyped b (resp RespType.null_bulk_string d) low h = tt
  IsRead-IsWellTyped b (resp RespType.array (elements xs)) low h =
      (omega (arith, h.0), AllRead-AllWellTyped b xs low h.1)
  IsRead-IsWellTyped b (resp RespType.null_array d) low h = tt
  IsRead-IsWellTyped b (resp _ _) low h = absurd h

  AllRead-AllWellTyped : (b : ℕ) (vs : RespArray) → b < word → AllRead b vs → AllWellTyped vs
  AllRead-AllWellTyped b nil low h = tt
  AllRead-AllWellTyped b (cons v vs) low h =
      (IsRead-IsWellTyped b v low h.0, AllRead-AllWellTyped b vs low h.1)

-- The digits stay within the limit, so nothing wraps around.
scan_digits-le :
    (limit : ℕ) (s : Bytes) (acc : ℕ) {r : ℕ}
    → 9 ≤ limit
    → limit < word
    → acc ≤ limit
    → scan_digits limit s acc ≡ some r
    → r ≤ limit
unfolding scan_digits
scan_digits-le limit [] acc big small h runs = ground (arith, runs)
scan_digits-le limit (c ∷ s) acc {r} big small h runs =
    elim (Bool-cases (ltb c b'0' || ltb b'9' c)) [
      | inl strange ↦ absurd (ground (arith, strange, runs))
      | inr digit ↦ elim (Bool-cases (ltb ((limit - (c - b'0')) / 10) acc)) [
        | inl large ↦ absurd (ground (arith, digit, large, runs))
        | inr fits ↦
            scan_digits-le limit s ((acc * 10 + (c - b'0')) % word) {r = r} big small
              (ground (arith, digit, fits)) (ground (arith, digit, fits, runs))
      ]
    ]

negate-IsInt64 : (acc : ℕ) → acc ≤ int64_min_abs → IsInt64 (negate acc)
unfolding negate
negate-IsInt64 zero h = omega arith
negate-IsInt64 (suc acc) h = omega (arith, h)

parse_unsigned-IsInt64 :
    (negative : Bool) (s : Bytes) {n : ℤ} → parse_unsigned negative s ≡ some n → IsInt64 n
unfolding parse_unsigned int_of
parse_unsigned-IsInt64 negative [] h = cc
parse_unsigned-IsInt64 false (c ∷ s) {n} h = elim (Option-cases (scan_digits int64_max (c ∷ s) 0)) [
  | inl garbled ↦ absurd (ground (arith, garbled, h))
  | inr (acc, read) ↦
      let low =
        scan_digits-le int64_max (c ∷ s) 0 {r = acc} (omega arith) (omega arith) (omega arith)
          read in
      let is : pos acc ≡ n = ground (arith, read, h) in subst IsInt64 is (omega (arith, low))
]
parse_unsigned-IsInt64 true (c ∷ s) {n} h =
    elim (Option-cases (scan_digits int64_min_abs (c ∷ s) 0)) [
      | inl garbled ↦ absurd (ground (arith, garbled, h))
      | inr (acc, read) ↦
          let low =
            scan_digits-le int64_min_abs (c ∷ s) 0 {r = acc} (omega arith) (omega arith)
              (omega arith) read in
          let is : negate acc ≡ n = ground (arith, read, h) in
          subst IsInt64 is (negate-IsInt64 acc low)
    ]

pub parse_int64_token-IsInt64 : (s : Bytes) {n : ℤ} → parse_int64_token s ≡ some n → IsInt64 n
unfolding parse_int64_token
parse_int64_token-IsInt64 [] h = cc
parse_int64_token-IsInt64 (c ∷ s) {n} h = elim (Bool-cases ((c == b'+') || (c == b'-'))) [
  | inl signed ↦ parse_unsigned-IsInt64 (c == b'-') s {n = n} (ground (arith, signed, h))
  | inr plain ↦ parse_unsigned-IsInt64 false (c ∷ s) {n = n} (ground (arith, plain, h))
]
