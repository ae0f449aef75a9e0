-- ===== src/Executor/Numbers.antt =====
-- `std::stoull` of the standard library in base 10, as src/commandExecutor.cpp calls it: `none` stands
-- for the exceptions, which are caught.
use tinycache.Prelude.{
  ℕ, ◌+◌, ◌-◌, ◌*◌, ◌%◌, Bool, false, ◌&&◌, ◌||◌, ◌==◌, leb, ltb, if◌then◌else◌, [], ◌∷◌, Option,
  none, some,
}
use tinycache.Prelude.Bytes.{Bytes, word}

abbrev pub is_digit : ℕ → Bool
is_digit c = leb b'0' c && leb c b'9'

unfoldable pub skip_space : Bytes → Bytes
skip_space [] = []
skip_space (c ∷ s) = if (c == 32) || (leb 9 c && leb c 13) then skip_space s else c ∷ s

-- The number that the digits in front spell.
unfoldable pub read_digits : ℕ → Bytes → ℕ
read_digits acc [] = acc
read_digits acc (c ∷ s) =
    let longer = read_digits (acc * 10 + (c - b'0')) s in if is_digit c then longer else acc

-- Without a digit in front there is no number; a negated one wraps around.
unfoldable pub unsigned_part : Bool → Bytes → Option ℕ
unfolding read_digits
unsigned_part negative [] = none
unsigned_part negative (c ∷ s) =
    let n = read_digits 0 (c ∷ s) in
    if is_digit c && ltb n word then some (if negative then (word - n) % word else n) else none

unfoldable pub stoull : Bytes → Option ℕ
unfolding unsigned_part skip_space
stoull s = elim (skip_space s) [
  | [] ↦ none
  | c ∷ t ↦
      if (c == b'-') || (c == b'+')
      then unsigned_part (c == b'-') t
      else unsigned_part false (c ∷ t)
]
