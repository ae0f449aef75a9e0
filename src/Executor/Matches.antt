-- ===== src/Executor/Matches.antt =====
-- The relation of a pattern and a text, and what `glob_match` of src/commandExecutor.cpp accepts.
use tinycache.Prelude.{
  ℕ, zero, suc, ◌≡◌, arith, ◌==◌, Bool, true, false, [], ◌∷◌, Option, none, some, Bool-cases, inl,
  inr, Outcome, ok,
}
use tinycache.Prelude.Bytes.{Bytes}
use tinycache.Executor.Glob.{consumes, at_star, tail, only_stars, glob_loop, glob_match}

-- Which texts a pattern matches: `?` any byte, `*` any bytes, another byte itself.
pub data Matches : Bytes → Bytes → Type 0 where
  end : Matches [] []
  literal : {p t : Bytes} (c : ℕ) → Matches p t → Matches (c ∷ p) (c ∷ t)
  any : {p t : Bytes} (c : ℕ) → Matches p t → Matches (b'?' ∷ p) (c ∷ t)
  skip : {p t : Bytes} → Matches p t → Matches (b'*' ∷ p) t
  absorb : {p t : Bytes} (c : ℕ) → Matches (b'*' ∷ p) t → Matches (b'*' ∷ p) (c ∷ t)

unfoldable pub drop : ℕ → Bytes → Bytes
drop zero s = s
drop (suc n) s = drop n (tail s)

pub absorb_all : (n : ℕ) (p t : Bytes) → Matches p (drop n t) → Matches (b'*' ∷ p) t
unfolding drop
absorb_all zero p t m = skip m
absorb_all (suc n) p [] m = absorb_all n p [] m
absorb_all (suc n) p (c ∷ t) m = absorb c (absorb_all n p t m)

only_stars-Matches : (p : Bytes) → only_stars p ≡ true → Matches p []
unfolding only_stars
only_stars-Matches [] h = end
only_stars-Matches (d ∷ p) h = elim (Bool-cases (d == b'*')) [
  | inl star ↦
      let same : d ≡ b'*' = ground (arith, star) in
      rw same (skip (only_stars-Matches p (ground (arith, h, star))))
  | inr other ↦ absurd (ground (arith, h, other))
]

-- What a match behind the last star would show.
StarShows : Option (Bytes × Bytes) → Type 0 → Type 0
StarShows none G = Unit
StarShows (some (sp, st)) G = (n : ℕ) → Matches sp (drop n st) → G

consume :
    (p : Bytes) (c : ℕ) (t : Bytes) → consumes p c ≡ true → Matches (tail p) t → Matches p (c ∷ t)
consume [] c t h m = cc
consume (d ∷ p) c t h m = elim (Bool-cases (d == b'?')) [
  | inl is ↦ let same : d ≡ b'?' = ground (arith, is) in rw same (any c m)
  | inr other ↦ let same : d ≡ c = ground (arith, h, other) in rw same (literal c m)
]

star_absorbs :
    (p : Bytes) (n : ℕ) (t : Bytes) → at_star p ≡ true → Matches (tail p) (drop n t) → Matches p t
star_absorbs [] n t h m = cc
star_absorbs (d ∷ p) n t h m =
    let same : d ≡ b'*' = ground (arith, h) in rw same (absorb_all n p t m)

-- The return to the last star, if there is one.
returned :
    (G : Type 0) (f : ℕ) (star : Option (Bytes × Bytes))
    → StarShows star G
    → ((sp st : Bytes)
        → (Matches sp st → G)
        → StarShows (some (sp, st)) G
        → glob_loop f sp st (some (sp, st)) ≡ ok true
        → G)
    → (elim star as (λ _. Outcome Bool) [
      | none ↦ ok false
      | some (sp, st) ↦ glob_loop f sp (tail st) (some (sp, tail st))
    ])
      ≡ ok true
    → G
unfolding StarShows drop
returned G f none l ih e = absurd (ground (arith, e))
returned G f (some (sp, st)) l ih e = ih sp (tail st) (l 1) (λ n m. l (suc n) m) e

glob_loop-shows :
    (G : Type 0) (f : ℕ) (p t : Bytes) (star : Option (Bytes × Bytes))
    → (Matches p t → G)
    → StarShows star G
    → glob_loop f p t star ≡ ok true
    → G
unfolding glob_loop StarShows drop
glob_loop-shows G f p [] star now later h = now (only_stars-Matches p (ground (arith, h)))
glob_loop-shows G zero p (c ∷ t) star now later h = absurd (ground (arith, h))
glob_loop-shows G (suc f) p (c ∷ t) star now later h = elim (Bool-cases (consumes p c)) [
  | inl taken ↦
      glob_loop-shows G f (tail p) t star (λ m. now (consume p c t taken m)) later
        (ground (arith, h, taken))
  | inr not_taken ↦ elim (Bool-cases (at_star p)) [
    | inl starred ↦
        glob_loop-shows G f (tail p) (c ∷ t) (some (tail p, c ∷ t))
          (λ m. now (star_absorbs p 0 (c ∷ t) starred m))
          (λ n m. now (star_absorbs p n (c ∷ t) starred m)) (ground (arith, h, not_taken, starred))
    | inr plain ↦
        returned G f star later (λ sp st n l e. glob_loop-shows G f sp st (some (sp, st)) n l e)
          (ground (arith, h, not_taken, plain))
  ]
]

-- A text that `glob_match` accepts matches the pattern.
pub glob_match-Matches : (p t : Bytes) → glob_match p t ≡ ok true → Matches p t
unfolding glob_match StarShows
glob_match-Matches p t h = glob_loop-shows (Matches p t) _ p t none (λ m. m) tt h
