-- ===== src/Resp/Rounds.antt =====
-- One round of the parser (src/respParser.cpp): what it consumes, and what more bytes can change.
use tinycache.Prelude.{
  ℕ, zero, suc, ◌+◌, ◌≡◌, ◌≢◌, refl, ◌∙◌, [], ◌∷◌, ◌++◌, append_assoc, none, some, arith, length,
  length-append, ℤ, pos, negsuc, Option-cases, inl, inr, Bool, true, false, ◌==◌, ltb,
  if◌then◌else◌,
}
use tinycache.Prelude.Bytes.{Bytes}
use tinycache.Resp.{RespType, RespValue, resp, text, number}
use tinycache.Resp.Parser.{
  find_crlf, parse_int64_token, Token, value, open_array, incomplete, malformed, take_data,
  read_bulk, read_array, read_number, read_line, read_token, max_bulk_size, max_array_length,
  max_nesting_depth,
}
use tinycache.Resp.Cuts.{find_crlf-eq-some, find_crlf-extend, take_data-eq-some, take_data-extend}

-- The bytes that a round leaves are a tail of those it was given.
pub data Leaves (s : Bytes) : Token → Type 0 where
  by_value :
      {v : RespValue} {rest : Bytes} (used : Bytes) → s ≡ used ++ rest → Leaves s (value v rest)
  by_array : {n : ℕ} {rest : Bytes} (used : Bytes) → s ≡ used ++ rest → Leaves s (open_array n rest)
  waits : Leaves s incomplete
  refused : Leaves s malformed

-- A token with more bytes behind it.
abbrev pub extend : Bytes → Token → Token
extend t (value v rest) = value v (rest ++ t)
extend t (open_array n rest) = open_array n (rest ++ t)
extend t tok = tok

Leaves-if :
    (s : Bytes) (b : Bool) {x y : Token} → Leaves s x → Leaves s y → Leaves s (if b then x else y)
Leaves-if s true hx hy = hx
Leaves-if s false hx hy = hy

Leaves-behind :
    {s : Bytes} (r : Bytes) (p : Bytes) {tok : Token} → s ≡ p ++ r → Leaves r tok → Leaves s tok
Leaves-behind r p e (by_value used h) = by_value (p ++ used) (rw e (rw h (simp append_assoc)))
Leaves-behind r p e (by_array used h) = by_array (p ++ used) (rw e (rw h (simp append_assoc)))
Leaves-behind r p e waits = waits
Leaves-behind r p e refused = refused

data_Leaves :
    (n : ℕ) (s : Bytes)
    → Leaves s (elim (take_data n s) [
      | none ↦ malformed
      | some (bytes, rest) ↦ value (resp RespType.bulk_string (text bytes)) rest
    ])
data_Leaves n s = elim (Option-cases (take_data n s)) [
  | inl miss ↦ rw miss refused
  | inr (r, hit) ↦ rw hit (
      by_value (r.0 ++ 13 ∷ 10 ∷ [])
        (take_data-eq-some n s {bytes = r.0} {rest = r.1} hit ∙ simp append_assoc))
]

read_bulk-Leaves : (n : ℤ) (s : Bytes) → Leaves s (read_bulk n s)
unfolding read_bulk
read_bulk-Leaves (negsuc zero) s = by_value [] refl
read_bulk-Leaves (negsuc (suc n)) s = refused
read_bulk-Leaves (pos n) s =
    Leaves-if s (ltb max_bulk_size n) refused
      (Leaves-if s (ltb (length s) (n + 2)) waits (data_Leaves n s))

read_bulk-extend :
    (n : ℤ) (s t : Bytes)
    → read_bulk n s ≢ incomplete
    → read_bulk n (s ++ t) ≡ extend t (read_bulk n s)
unfolding read_bulk
read_bulk-extend (negsuc zero) s t h = refl
read_bulk-extend (negsuc (suc n)) s t h = refl
read_bulk-extend (pos n) s t h = ground (arith, take_data-extend n s t, length-append {0} s t)

read_array-Leaves : (depth : ℕ) (n : ℤ) (s : Bytes) → Leaves s (read_array depth n s)
unfolding read_array
read_array-Leaves depth (negsuc zero) s = by_value [] refl
read_array-Leaves depth (negsuc (suc n)) s = refused
read_array-Leaves depth (pos n) s = Leaves-if s (ltb max_array_length n) refused (
    Leaves-if s (n == 0) (by_value [] refl)
      (Leaves-if s (ltb max_nesting_depth (depth + 1)) refused (by_array [] refl)))

read_array-extend :
    (depth : ℕ) (n : ℤ) (s t : Bytes)
    → read_array depth n (s ++ t) ≡ extend t (read_array depth n s)
unfolding read_array
read_array-extend depth (negsuc zero) s t = refl
read_array-extend depth (negsuc (suc n)) s t = refl
read_array-extend depth (pos n) s t = ground arith

abbrev integer_token : ℤ → Bytes → Token
integer_token n rest = value (resp RespType.integer (number n)) rest

read_line-Leaves : (t : RespType) (s : Bytes) → Leaves s (read_line t s)
unfolding read_line
read_line-Leaves t s = elim (Option-cases (find_crlf s)) [
  | inl miss ↦ rw (miss, read_line) waits
  | inr (r, hit) ↦
      rw (hit, read_line)
        (by_value (r.0 ++ 13 ∷ 10 ∷ [])
          (find_crlf-eq-some s {line = r.0} {rest = r.1} hit ∙ simp append_assoc))
]

read_number-Leaves :
    (s : Bytes) (next : ℤ → Bytes → Token)
    → ((n : ℤ) (r : Bytes) → Leaves r (next n r))
    → Leaves s (read_number s next)
unfolding read_number
read_number-Leaves s next h = elim (Option-cases (find_crlf s)) [
  | inl miss ↦ rw (miss, read_number) waits
  | inr (r, hit) ↦ elim (Option-cases (parse_int64_token r.0)) [
    | inl bad ↦ rw (hit, bad, read_number) refused
    | inr (n, good) ↦
        rw (hit, good, read_number)
          (Leaves-behind r.1 (r.0 ++ 13 ∷ 10 ∷ [])
            (find_crlf-eq-some s {line = r.0} {rest = r.1} hit ∙ simp append_assoc) (h n r.1))
  ]
]

pub read_token-Leaves : (depth c : ℕ) (s : Bytes) → Leaves s (read_token depth c s)
unfolding read_token
read_token-Leaves depth c s = Leaves-if s (c == b'+') (read_line-Leaves RespType.simple_string s) (
    Leaves-if s (c == b'-') (read_line-Leaves RespType.error s) (
      Leaves-if s (c == b':') (read_number-Leaves s integer_token (λ n r. by_value [] refl)) (
        Leaves-if s (c == b'$') (read_number-Leaves s read_bulk read_bulk-Leaves) (
          Leaves-if s (c == b'*')
            (read_number-Leaves s (read_array depth) (read_array-Leaves depth)) refused))))

read_line-extend :
    (ty : RespType) (s t : Bytes)
    → read_line ty s ≢ incomplete
    → read_line ty (s ++ t) ≡ extend t (read_line ty s)
unfolding read_line
read_line-extend ty s t h = elim (Option-cases (find_crlf s)) [
  | inl miss ↦ absurd (ground arith)
  | inr (r, hit) ↦ ground (arith, find_crlf-extend s t {line = r.0} {rest = r.1} hit)
]

read_number-extend :
    (s t : Bytes) (next : ℤ → Bytes → Token)
    → ((n : ℤ) (r : Bytes) → next n r ≢ incomplete → next n (r ++ t) ≡ extend t (next n r))
    → read_number s next ≢ incomplete
    → read_number (s ++ t) next ≡ extend t (read_number s next)
unfolding read_number
read_number-extend s t next h ne = elim (Option-cases (find_crlf s)) [
  | inl miss ↦ absurd (ground arith)
  | inr (r, hit) ↦
      let longer = find_crlf-extend s t {line = r.0} {rest = r.1} hit in
      elim (Option-cases (parse_int64_token r.0)) [
        | inl bad ↦ ground arith
        | inr (n, good) ↦ ground (arith, λ (e : next n r.1 ≢ incomplete). h n r.1 e)
      ]
]

-- A round on the longer buffer does the same, unless on the shorter one it waits.
abbrev Agrees : Bytes → Token → Token → Type 0
Agrees t longer tok = tok ≢ incomplete → longer ≡ extend t tok

Agrees-if :
    (t : Bytes) (b : Bool) {x x' y y' : Token}
    → Agrees t x' x
    → Agrees t y' y
    → Agrees t (if b then x' else y') (if b then x else y)
Agrees-if t true hx hy = hx
Agrees-if t false hx hy = hy

pub read_token-extend :
    (depth c : ℕ) (s t : Bytes)
    → read_token depth c s ≢ incomplete
    → read_token depth c (s ++ t) ≡ extend t (read_token depth c s)
unfolding read_token
read_token-extend depth c s t =
    Agrees-if t (c == b'+') (read_line-extend RespType.simple_string s t) (
      Agrees-if t (c == b'-') (read_line-extend RespType.error s t) (
        Agrees-if t (c == b':') (read_number-extend s t integer_token (λ n r e. refl)) (
          Agrees-if t (c == b'$')
            (read_number-extend s t read_bulk (λ n r e. read_bulk-extend n r t e))
            (Agrees-if t (c == b'*')
              (read_number-extend s t (read_array depth) (λ n r e. read_array-extend depth n r t))
              (λ e. refl)))))
