-- ===== src/Resp/Cuts.antt =====
-- Where `findCrlf` and the data of a bulk string (src/respParser.cpp) cut a buffer.
use tinycache.Prelude.{
  ℕ, zero, suc, ◌+◌, ◌≤◌, ◌≡◌, [], ◌∷◌, ◌++◌, Option, none, some, arith, length, Option-cases, inl,
  inr,
}
use tinycache.Prelude.Bytes.{Bytes}
use tinycache.Resp.Parser.{find_crlf, take_data}

pub find_crlf-eq-some :
    (s : Bytes) {line rest : Bytes} → find_crlf s ≡ some (line, rest) → s ≡ line ++ 13 ∷ 10 ∷ rest
unfolding find_crlf
find_crlf-eq-some [] h = cc
find_crlf-eq-some (c ∷ []) h = cc
find_crlf-eq-some (c ∷ d ∷ s) h = elim (Option-cases (find_crlf (d ∷ s))) [
  | inl miss ↦ ground arith
  | inr (r, hit) ↦ ground (arith, find_crlf-eq-some (d ∷ s) {line = r.0} {rest = r.1} hit)
]

pub find_crlf-extend :
    (s t : Bytes) {line rest : Bytes}
    → find_crlf s ≡ some (line, rest)
    → find_crlf (s ++ t) ≡ some (line, rest ++ t)
unfolding find_crlf
find_crlf-extend [] t h = cc
find_crlf-extend (c ∷ []) t h = cc
find_crlf-extend (c ∷ d ∷ s) t h = elim (Option-cases (find_crlf (d ∷ s))) [
  | inl miss ↦ ground arith
  | inr (r, hit) ↦ ground (arith, find_crlf-extend (d ∷ s) t {line = r.0} {rest = r.1} hit)
]

pub take_data-eq-some :
    (n : ℕ) (s : Bytes) {bytes rest : Bytes}
    → take_data n s ≡ some (bytes, rest)
    → s ≡ bytes ++ 13 ∷ 10 ∷ rest
unfolding take_data
take_data-eq-some zero (c ∷ d ∷ s) h = ground arith
take_data-eq-some zero [] h = cc
take_data-eq-some zero (c ∷ []) h = cc
take_data-eq-some (suc n) [] h = cc
take_data-eq-some (suc n) (c ∷ s) h = elim (Option-cases (take_data n s)) [
  | inl miss ↦ ground arith
  | inr (r, hit) ↦ ground (arith, take_data-eq-some n s {bytes = r.0} {rest = r.1} hit)
]

abbrev pub extend_data : Bytes → Option (Bytes × Bytes) → Option (Bytes × Bytes)
extend_data t none = none
extend_data t (some (bytes, rest)) = some (bytes, rest ++ t)

pub take_data-extend :
    (n : ℕ) (s t : Bytes) → n + 2 ≤ length s → take_data n (s ++ t) ≡ extend_data t (take_data n s)
unfolding take_data
take_data-extend zero (c ∷ d ∷ s) t h = ground arith
take_data-extend zero [] t h = absurd (omega arith)
take_data-extend zero (c ∷ []) t h = absurd (omega arith)
take_data-extend (suc n) [] t h = absurd (omega arith)
take_data-extend (suc n) (c ∷ s) t h = ground (arith, take_data-extend n s t)
