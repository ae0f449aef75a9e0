-- ===== src/Executor/Rounds.antt =====
-- The rounds of the loop of `glob_match` (src/commandExecutor.cpp).
use tinycache.Prelude.{
  ℕ, zero, suc, ◌+◌, ◌≤◌, ◌<◌, ◌≡◌, refl, arith, Bool, true, false, [], ◌∷◌, length, Option, none,
  some, Bool-cases, inl, inr, Outcome, ok,
}
use tinycache.Prelude.Bytes.{Bytes}
use tinycache.Executor.Glob.{consumes, at_star, tail, only_stars, glob_loop, times, glob_match}

-- `w` counts the returns to the star that are left, and a pass takes fewer than `k` rounds.
Bounded : ℕ → ℕ → Option (Bytes × Bytes) → Type 0
Bounded k w none = Unit
Bounded k w (some (sp, st)) = (length st ≡ w) × (length sp + length st < k)

Ends : Outcome Bool → Type 0
Ends r = (b : Bool) × (r ≡ ok b)

times_mono : (v w k : ℕ) → v ≤ w → times v k ≤ times w k
unfolding times
times_mono zero w k h = omega arith
times_mono (suc v) zero k h = absurd (omega arith)
times_mono (suc v) (suc w) k h = omega (arith, times_mono v w k (omega arith))

length-consumed : (p : Bytes) (c : ℕ) → consumes p c ≡ true → length p ≡ suc (length (tail p))
length-consumed [] c h = cc
length-consumed (d ∷ p) c h = refl

length-star : (p : Bytes) → at_star p ≡ true → length p ≡ suc (length (tail p))
length-star [] h = cc
length-star (d ∷ p) h = refl

length-tail : (s : Bytes) (n : ℕ) → length s ≡ suc n → length (tail s) ≡ n
length-tail [] n h = absurd (omega (arith, h))
length-tail (c ∷ s) n h = omega (arith, h)

-- The return to the last star, if there is one.
returned-Ends :
    (f k w n : ℕ) (star : Option (Bytes × Bytes))
    → Bounded k w star
    → suc n ≤ w
    → times w k < suc f
    → ((v : ℕ) (sp st : Bytes)
        → Bounded k v (some (sp, st))
        → length st ≤ v
        → length sp + length st < k
        → times v k + (length sp + length st) < f
        → Ends (glob_loop f sp st (some (sp, st))))
    → Ends (elim star as (λ _. Outcome Bool) [
      | none ↦ ok false
      | some (sp, st) ↦ glob_loop f sp (tail st) (some (sp, tail st))
    ])
unfolding Bounded Ends times
returned-Ends f k w n none b h enough ih = (false, refl)
returned-Ends f k zero n (some (sp, st)) b h enough ih = absurd (omega arith)
returned-Ends f k (suc w) n (some (sp, st)) (same, room) h enough ih =
    let shorter = length-tail st w same in
    ih w sp (tail st) (shorter, omega (arith, shorter, room, same)) (omega (arith, shorter))
      (omega (arith, shorter, room, same)) (omega (arith, shorter, room, same))

glob_loop-Ends :
    (f k w : ℕ) (p t : Bytes) (star : Option (Bytes × Bytes))
    → Bounded k w star
    → length t ≤ w
    → length p + length t < k
    → times w k + (length p + length t) < f
    → Ends (glob_loop f p t star)
unfolding glob_loop Ends Bounded
glob_loop-Ends f k w p [] star b h room enough = (only_stars p, refl)
glob_loop-Ends zero k w p (c ∷ t) star b h room enough = absurd (omega arith)
glob_loop-Ends (suc f) k w p (c ∷ t) star b h room enough = elim (Bool-cases (consumes p c)) [
  | inl taken ↦
      let one = length-consumed p c taken in
      let (r, e) =
        glob_loop-Ends f k w (tail p) t star b (omega arith) (omega (arith, one))
          (omega (arith, one)) in
      (r, ground (arith, e, taken))
  | inr not_taken ↦ elim (Bool-cases (at_star p)) [
    | inl starred ↦
        let one = length-star p starred in
        let less = times_mono (suc (length t)) w k h in
        let (r, e) =
          glob_loop-Ends f k (suc (length t)) (tail p) (c ∷ t) (some (tail p, c ∷ t))
            (refl, omega (arith, one)) (omega arith) (omega (arith, one))
            (omega (arith, one, less)) in
        (r, ground (arith, e, not_taken, starred))
    | inr plain ↦
        let (r, e) =
          returned-Ends f k w (length t) star b h (omega arith) (λ v sp st b' h' room' enough'.
            glob_loop-Ends f k v sp st (some (sp, st)) b' h' room' enough') in
        (r, ground (arith, e, not_taken, plain))
  ]
]

two_more : (n k : ℕ) → times (n + 2) k ≡ k + (k + times n k)
unfolding times
two_more n k = let split : n + 2 ≡ suc (suc n) = omega arith in rw split refl

-- `glob_match` ends on every pattern and every text.
pub glob_match-Ends : (p t : Bytes) → (b : Bool) × (glob_match p t ≡ ok b)
unfolding glob_match Ends Bounded
glob_match-Ends p t =
    glob_loop-Ends (times (length t + 2) (length p + length t + 1)) (length p + length t + 1)
      (length t) p t none tt (omega arith) (omega arith)
      (omega (arith, two_more (length t) (length p + length t + 1)))
