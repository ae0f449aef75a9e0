-- ===== src/Executor/Inversion.antt =====
-- What a match of a pattern says of its parts.
use tinycache.Prelude.{ℕ, zero, suc, ◌≡◌, refl, arith, ◌==◌, ◌||◌, true, false, [], ◌∷◌}
use tinycache.Prelude.Bytes.{Bytes}
use tinycache.Executor.Glob.{at_star, tail, only_stars}
use tinycache.Executor.Matches.{Matches, end, literal, any, skip, absorb, drop}

unfoldable pub NoStar : Bytes → Type 0
NoStar [] = Unit
NoStar (c ∷ t) = ((c == b'*') ≡ false) × NoStar t

pub NoStar-tail : (t : Bytes) → NoStar t → NoStar (tail t)
unfolding NoStar
NoStar-tail [] h = tt
NoStar-tail (c ∷ t) h = h.1

pub drop-nil : (n : ℕ) → drop n [] ≡ []
unfolding drop
drop-nil zero = refl
drop-nil (suc n) = drop-nil n

-- A pattern that does not begin with a star takes the first byte of the text.
pub taken_off :
    (d : ℕ) (p : Bytes) (c : ℕ) (t : Bytes)
    → (d == b'*') ≡ false
    → Matches (d ∷ p) (c ∷ t)
    → Matches p t × (((d == b'?') || (d == c)) ≡ true)
taken_off d p c t h (literal c' m) = (m, ground arith)
taken_off d p c t h (any c' m) = (m, ground arith)
taken_off d p c t h (skip m) = absurd (ground (arith, h))
taken_off d p c t h (absorb c' m) = absurd (ground (arith, h))

pub unabsorbed :
    (d : ℕ) (p t : Bytes) → d ≡ b'*' → Matches (d ∷ p) t → (n : ℕ) × Matches p (drop n t)
unfolding drop
unabsorbed d p t h (literal c m) = (1, m)
unabsorbed d p t h (any c m) = absurd (omega arith)
unabsorbed d p t h (skip m) = (0, m)
unabsorbed d p t h (absorb c m) = let (n, m') = unabsorbed d p _ h m in (suc n, m')

pub no_stars_left : (p : Bytes) → only_stars p ≡ false → Matches p [] → ⊥
unfolding only_stars
no_stars_left [] h m = ground (arith, h)
no_stars_left (d ∷ p) h (skip m) = no_stars_left p (ground (arith, h)) m

pub tail-drop : (n : ℕ) (s : Bytes) → tail (drop n s) ≡ drop n (tail s)
unfolding drop
tail-drop zero s = refl
tail-drop (suc n) s = tail-drop n (tail s)

pub peel : (p t : Bytes) → at_star p ≡ false → Matches p t → Matches (tail p) (tail t)
peel [] t h end = end
peel (d ∷ p) [] h m = absurd (empty_text d p h m)
  where
    empty_text : (d' : ℕ) (p' : Bytes) → (d' == b'*') ≡ false → Matches (d' ∷ p') [] → ⊥
    empty_text d' p' e (skip m') = ground (arith, e)
peel (d ∷ p) (c ∷ t) h m = (taken_off d p c t h m).0

pub drop_twice : (i j : ℕ) (s : Bytes) → (n : ℕ) × (drop j (drop i s) ≡ drop n s)
unfolding drop
drop_twice zero j s = (j, refl)
drop_twice (suc i) j s = let (n, e) = drop_twice i j (tail s) in (suc n, e)
