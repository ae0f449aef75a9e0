-- ===== src/Executor/Glob.antt =====
-- `glob_match` of src/commandExecutor.cpp. A position in the pattern or the text is the tail from there.
use tinycache.Prelude.{
  ℕ, zero, suc, ◌+◌, ◌==◌, ◌||◌, Bool, true, false, [], ◌∷◌, length, Option, none, some, Outcome,
  ok, fault, out_of_fuel, if◌then◌else◌,
}
use tinycache.Prelude.Bytes.{Bytes}

-- Whether the pattern goes on with `?` or with this byte.
abbrev pub consumes : Bytes → ℕ → Bool
consumes [] c = false
consumes (d ∷ p) c = (d == b'?') || (d == c)

abbrev pub at_star : Bytes → Bool
at_star [] = false
at_star (d ∷ p) = d == b'*'

abbrev pub tail : Bytes → Bytes
tail [] = []
tail (c ∷ s) = s

-- The loop at the end: whether all that is left is stars.
unfoldable pub only_stars : Bytes → Bool
only_stars [] = true
only_stars (d ∷ p) = let rest = only_stars p in if d == b'*' then rest else false

-- The last star is kept as the pattern behind it and the text at `star_text_match`.
unfoldable pub glob_loop : ℕ → Bytes → Bytes → Option (Bytes × Bytes) → Outcome Bool
unfolding only_stars
glob_loop f p [] star = ok (only_stars p)
glob_loop zero p (c ∷ t) star = fault out_of_fuel
glob_loop (suc f) p (c ∷ t) star = elim (consumes p c) [
  | true ↦ glob_loop f (tail p) t star
  | false ↦ elim (at_star p) [
    | true ↦ glob_loop f (tail p) (c ∷ t) (some (tail p, c ∷ t))
    | false ↦ elim star [
      | none ↦ ok false
      | some (sp, st) ↦ glob_loop f sp (tail st) (some (sp, tail st))
    ]
  ]
]

-- `n` times `k`
unfoldable pub times : ℕ → ℕ → ℕ
times zero k = 0
times (suc n) k = k + times n k

-- Between two returns to a star, of which each starts one byte later, every round takes a byte off the
-- pattern or the text.
unfoldable pub glob_match : Bytes → Bytes → Outcome Bool
unfolding glob_loop times
glob_match pattern text =
    let k = length pattern + length text + 1 in
    glob_loop (times (length text + 2) k) pattern text none
