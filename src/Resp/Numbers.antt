-- ===== src/Resp/Numbers.antt =====
-- `findCrlf` and `parseInt64Token` of src/respParser.cpp on printed numbers.
use tinycache.Prelude.{
  ℕ, zero, suc, ◌+◌, ◌/◌, ◌%◌, ◌≤◌, ◌<◌, ◌≡◌, refl, ap, ◌∙◌, if◌then◌else◌, Bool, true, false, [],
  ◌∷◌, ◌++◌, none, some, arith, Bool-cases, inl, inr, ltb, ℤ, pos, negsuc,
}
use tinycache.Prelude.Bytes.{Bytes, word}
use tinycache.Resp.Decimal.{
  digits, format, format_int, IsDigit, AllDigits, digits-AllDigits, digits-cons,
}
use tinycache.Resp.Emit.{IsInt64}
use tinycache.Resp.Parser.{
  find_crlf, scan_digits, parse_unsigned, parse_int64_token, int_of, negate, int64_max,
  int64_min_abs,
}

-- The first CR LF behind a text that holds none.
pub find_crlf-append :
    (s rest : Bytes) → find_crlf s ≡ none → find_crlf (s ++ 13 ∷ 10 ∷ rest) ≡ some (s, rest)
unfolding find_crlf
find_crlf-append [] rest h = refl
find_crlf-append (c ∷ []) rest h = ground arith
find_crlf-append (c ∷ d ∷ s) rest h = ground (arith, find_crlf-append (d ∷ s) rest)

pub find_crlf-AllDigits : (s : Bytes) → AllDigits s → find_crlf s ≡ none
unfolding find_crlf
find_crlf-AllDigits [] h = refl
find_crlf-AllDigits (c ∷ []) h = refl
find_crlf-AllDigits (c ∷ d ∷ s) h = ground (arith, find_crlf-AllDigits (d ∷ s) h.1)

pub format-AllDigits : (n : ℕ) → AllDigits (format n)
unfolding format
format-AllDigits n = digits-AllDigits (suc n) n [] tt (omega arith)

pub find_crlf-format_int : (n : ℤ) → find_crlf (format_int n) ≡ none
unfolding format_int
find_crlf-format_int (pos n) = find_crlf-AllDigits (format n) (format-AllDigits n)
find_crlf-format_int (negsuc n) = minus (format (suc n)) (format-AllDigits (suc n))
  where
    minus : (s : Bytes) → AllDigits s → find_crlf (b'-' ∷ s) ≡ none
    minus [] h = unfold find_crlf in refl
    minus (c ∷ s) h = unfold find_crlf in ground (arith, find_crlf-AllDigits (c ∷ s) h)

-- Reading the last digit of `n` after the digits before it gives `n`.
scan_last :
    (limit n : ℕ) (out : Bytes)
    → n ≤ limit
    → limit < word
    → scan_digits limit ((b'0' + n % 10) ∷ out) (n / 10) ≡ scan_digits limit out n
unfolding scan_digits
scan_last limit n out h small = ground arith

scan_digits-digits :
    (f limit n : ℕ) (out : Bytes)
    → n < f
    → n ≤ limit
    → limit < word
    → scan_digits limit (digits f n out) 0 ≡ scan_digits limit out n
unfolding digits
scan_digits-digits zero limit n out lt h small = absurd (omega arith)
scan_digits-digits (suc f) limit n out lt h small = elim (Bool-cases (ltb n 10)) [
  | inl one ↦ ground (arith, scan_last limit n out h small)
  | inr more ↦ ground (
    arith,
    scan_digits-digits f limit (n / 10) ((b'0' + n % 10) ∷ out),
    scan_last limit n out h small,
  )
]

scan_digits-format :
    (limit n : ℕ) → n ≤ limit → limit < word → scan_digits limit (format n) 0 ≡ some n
unfolding format scan_digits
scan_digits-format limit n h small = scan_digits-digits (suc n) limit n [] (omega arith) h small

-- The greatest magnitude of a number with this sign.
abbrev pub limit_of : Bool → ℕ
limit_of negative = if negative then int64_min_abs else int64_max

parse_unsigned-scan :
    (negative : Bool) (c : ℕ) (s t : Bytes)
    → t ≡ c ∷ s
    → parse_unsigned negative t ≡ int_of negative (scan_digits (limit_of negative) t 0)
unfolding parse_unsigned
parse_unsigned-scan negative c s t h = rw h

parse_unsigned-format :
    (negative : Bool) (n : ℕ)
    → n ≤ limit_of negative
    → limit_of negative < word
    → parse_unsigned negative (format n) ≡ int_of negative (some n)
parse_unsigned-format negative n h small =
    let (c, s, e) = shape in
    parse_unsigned-scan negative c s (format n) e
    ∙ ap (int_of negative) (scan_digits-format (limit_of negative) n h small)
  where
    shape : (c : ℕ) × (s : Bytes) × (format n ≡ c ∷ s)
    shape = unfold format in digits-cons n n []

parse_positive :
    (c : ℕ) (s t : Bytes) → t ≡ c ∷ s → AllDigits t → parse_int64_token t ≡ parse_unsigned false t
unfolding parse_int64_token
parse_positive c s t h d = let first : IsDigit c = (rw h at d).0 in rw h (ground arith)

-- Every `int64_t` is read back from its decimal print.
pub parse_int64_token-format_int : (n : ℤ) → IsInt64 n → parse_int64_token (format_int n) ≡ some n
unfolding format_int
parse_int64_token-format_int (pos n) h =
    let (c, s, e) = shape in
    parse_positive c s (format n) e (format-AllDigits n)
    ∙ parse_unsigned-format false n (omega arith) (omega arith)
    ∙ unfold int_of in refl
  where
    shape : (c : ℕ) × (s : Bytes) × (format n ≡ c ∷ s)
    shape = unfold format in digits-cons n n []
parse_int64_token-format_int (negsuc n) h =
    unfold parse_int64_token in
    (parse_unsigned-format true (suc n) (omega arith) (omega arith) ∙ unfold int_of negate in refl)
