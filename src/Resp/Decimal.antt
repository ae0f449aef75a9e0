-- ===== src/Resp/Decimal.antt =====
-- Decimal print of numbers (`std::to_chars`, `std::to_string`) and its laws.
use tinycache.Prelude.{
  ℕ, zero, suc, ◌+◌, ◌*◌, ◌/◌, ◌%◌, ◌^◌, ◌≤◌, ◌<◌, ◌≡◌, refl, [], ◌∷◌, ◌++◌, arith, ltb, leb,
  if◌then◌else◌, length, ℤ, pos, negsuc, Option, none, some, Bool-cases, inl, inr,
}
use tinycache.Prelude.Bytes.{Bytes}

-- The digits of `n` in front of `out`; a number has fewer digits than the next number has fuel.
unfoldable pub digits : ℕ → ℕ → Bytes → Bytes
digits zero n out = out
digits (suc f) n out =
    let more = digits f (n / 10) ((b'0' + n % 10) ∷ out) in
    if ltb n 10 then (b'0' + n) ∷ out else more

unfoldable pub format : ℕ → Bytes
unfolding digits
format n = digits (suc n) n []

unfoldable pub format_int : ℤ → Bytes
unfolding format
format_int (pos n) = format n
format_int (negsuc n) = b'-' ∷ format (suc n)

-- `std::to_chars` into a buffer of `room` bytes.
unfoldable pub to_chars : ℕ → ℤ → Option Bytes
to_chars room n = let s = format_int n in if leb (length s) room then some s else none

abbrev pub IsDigit : ℕ → Type 0
IsDigit c = (b'0' ≤ c) × (c ≤ b'9')

abbrev pub AllDigits : Bytes → Type 0
AllDigits [] = Unit
AllDigits (c ∷ s) = IsDigit c × AllDigits s

-- The values of `int64_t` and `size_t`.
abbrev pub IsWord : ℤ → Type 0
IsWord (pos n) = n < 2 ^ 64
IsWord (negsuc n) = n < 2 ^ 63

pub digits-append : (f n : ℕ) (out rest : Bytes) → digits f n out ++ rest ≡ digits f n (out ++ rest)
unfolding digits
digits-append zero n out rest = refl
digits-append (suc f) n out rest =
    ground (arith, digits-append f (n / 10) ((b'0' + n % 10) ∷ out) rest)

pub digits-AllDigits : (f n : ℕ) (out : Bytes) → AllDigits out → n < f → AllDigits (digits f n out)
unfolding digits
digits-AllDigits zero n out h lt = h
digits-AllDigits (suc f) n out h lt = elim (Bool-cases (ltb n 10)) [
  | inl small ↦ rw small ((ground arith, ground arith), h)
  | inr large ↦ rw large (
      digits-AllDigits f (n / 10) ((b'0' + n % 10) ∷ out) ((omega arith, omega arith), h)
        (ground arith))
]

-- The first byte, which is a digit.
pub digits-cons : (f n : ℕ) (out : Bytes) → (c : ℕ) × (s : Bytes) × (digits (suc f) n out ≡ c ∷ s)
unfolding digits
digits-cons zero n out = elim (Bool-cases (ltb n 10)) [
  | inl small ↦ ((b'0' + n), out, ground arith)
  | inr large ↦ ((b'0' + n % 10), out, ground arith)
]
digits-cons (suc f) n out = elim (Bool-cases (ltb n 10)) [
  | inl small ↦ ((b'0' + n), out, ground arith)
  | inr large ↦
      let (c, s, e) = digits-cons f (n / 10) ((b'0' + n % 10) ∷ out) in (c, s, ground arith)
]

abbrev power : ℕ → ℕ
power zero = 1
power (suc d) = 10 * power d

-- At most `d + 1` digits below the next power of ten.
pub length-digits-le :
    (d f n : ℕ) (out : Bytes) → n < power (suc d) → length (digits f n out) ≤ suc d + length out
unfolding digits
length-digits-le d zero n out h = omega arith
length-digits-le zero (suc f) n out h = ground arith
length-digits-le (suc d) (suc f) n out h =
    ground (arith, length-digits-le d f (n / 10) ((b'0' + n % 10) ∷ out))

pub length-format-le : (n : ℕ) → n < 2 ^ 64 → length (format n) ≤ 20
unfolding format
length-format-le n h = omega (arith, length-digits-le 19 (suc n) n [])

-- Every 64-bit number fits the buffers of src/respSerializer.cpp.
pub to_chars_fits : (n : ℤ) → IsWord n → to_chars 32 n ≡ some (format_int n)
unfolding to_chars format_int
to_chars_fits (pos n) h = ground (arith, length-format-le n h)
to_chars_fits (negsuc n) h = ground (arith, length-format-le (suc n))
