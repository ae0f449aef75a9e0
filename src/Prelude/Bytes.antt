-- ===== src/Prelude/Bytes.antt =====
-- Byte strings (`std::string`, `std::string_view`) and the 64-bit unsigned arithmetic on sizes.
use Prim.Native.Nat.{ℕ, ◌+◌, ◌%◌, ◌^◌, ◌<◌}
use Prim.Native.Char.{code}
use Prim.Native.String.{String}
use mathlib.Core.Path.{◌≡◌}
use mathlib.Core.List.{List, [], ◌∷◌}
use native.Mathlib.Decide.{ℕ_discrete}
use native.Mathlib.Nat.{mod-eq_of_lt}

abbrev pub Bytes : Type 0
Bytes = List ℕ

-- The code points of a text: its bytes, if it is ASCII.
abbrev pub codes : String → Bytes
codes String.[] = []
codes (String.◌∷◌ c s) = code c ∷ codes s

unfoldable pub bytes_discrete : Discrete Bytes
unfolding ℕ_discrete
bytes_discrete = hlevel ℕ_discrete

abbrev pub word : ℕ
word = 2 ^ 64

-- `size_t` and `uint64_t` addition.
unfoldable pub add64 : ℕ → ℕ → ℕ
add64 a b = (a + b) % word

pub add64_exact : (a b : ℕ) → a + b < word → add64 a b ≡ a + b
unfolding add64
add64_exact a b h = mod-eq_of_lt h
