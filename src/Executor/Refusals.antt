-- ===== src/Executor/Refusals.antt =====
-- What `glob_match` of src/commandExecutor.cpp refuses.
use tinycache.Prelude.{
  ℕ, zero, suc, ◌≡◌, refl, arith, ◌==◌, Bool, true, false, [], ◌∷◌, Option, none, some, Bool-cases,
  inl, inr, ◌↔◌, Outcome, ok,
}
use tinycache.Prelude.Bytes.{Bytes}
use tinycache.Executor.Glob.{consumes, at_star, tail, glob_loop, glob_match}
use tinycache.Executor.Rounds.{glob_match-Ends}
use tinycache.Executor.Matches.{Matches, drop, glob_match-Matches}
use tinycache.Executor.Inversion.{
  NoStar, NoStar-tail, drop-nil, taken_off, unabsorbed, no_stars_left, tail-drop, peel, drop_twice,
}

-- A match of the pattern behind the last star, from any place on, goes through where the loop stands.
Through : Option (Bytes × Bytes) → Bytes → Bytes → Type 0
Through none p t = Unit
Through (some (sp, st)) p t =
    NoStar st × ((n : ℕ) → Matches sp (drop n st) → (m : ℕ) × Matches p (drop m t))

-- No match behind the last star, one byte later or more.
NoneBehind : Option (Bytes × Bytes) → Type 0
NoneBehind none = Unit
NoneBehind (some (sp, st)) = (n : ℕ) → Matches sp (drop (suc n) st) → ⊥

-- At the end of the text.
ends_Refuted :
    (p : Bytes) (star : Option (Bytes × Bytes))
    → Through star p []
    → (Matches p [] → ⊥)
    → NoneBehind star
unfolding Through NoneBehind
ends_Refuted p none h out = tt
ends_Refuted p (some (sp, st)) h out = λ n m. out (rw drop-nil at (h.1 (suc n) m).1)

-- After a byte is taken off both.
Through-consume :
    (p : Bytes) (c : ℕ) (t : Bytes) (star : Option (Bytes × Bytes))
    → at_star p ≡ false
    → NoStar t
    → Through star p (c ∷ t)
    → Through star (tail p) t
unfolding Through drop
Through-consume p c t none h ns g = tt
Through-consume p c t (some (sp, st)) h ns g =
    (g.0, λ n m. let (k, m') = g.1 n m in (k, rw tail-drop at (peel p (drop k (c ∷ t)) h m')))

-- At a new star nothing matches behind the old one either.
star_Refuted :
    (p t : Bytes) (star : Option (Bytes × Bytes))
    → at_star p ≡ true
    → Through star p t
    → ((n : ℕ) → Matches (tail p) (drop n t) → ⊥)
    → (Matches p t → ⊥) × NoneBehind star
unfolding Through NoneBehind
star_Refuted [] t star h g out = cc
star_Refuted (d ∷ p) t star h g out = (none_here, behind star g)
  where
    none_here : Matches (d ∷ p) t → ⊥
    none_here m = let (n, m') = unabsorbed d p t (ground (arith, h)) m in out n m'

    behind : (star' : Option (Bytes × Bytes)) → Through star' (d ∷ p) t → NoneBehind star'
    behind none g' = tt
    behind (some (sp, st)) g' = λ n m.
        let (k, m') = g'.1 (suc n) m in
        let (k', m'') = unabsorbed d p (drop k t) (ground (arith, h)) m' in
        let (i, e) = drop_twice k k' t in out i (rw e at m'')

returned_Refuted :
    (f : ℕ) (p : Bytes) (c : ℕ) (t : Bytes) (star : Option (Bytes × Bytes))
    → Through star p (c ∷ t)
    → ((sp st : Bytes)
        → NoStar st
        → Through (some (sp, st)) sp st
        → glob_loop f sp st (some (sp, st)) ≡ ok false
        → (Matches sp st → ⊥) × NoneBehind (some (sp, st)))
    → (elim star as (λ _. Outcome Bool) [
      | none ↦ ok false
      | some (sp, st) ↦ glob_loop f sp (tail st) (some (sp, tail st))
    ])
      ≡ ok false
    → NoneBehind star
unfolding Through NoneBehind drop
returned_Refuted f p c t none g ih e = tt
returned_Refuted f p c t (some (sp, st)) g ih e =
    let (now, later) = ih sp (tail st) (NoStar-tail st g.0) (NoStar-tail st g.0, λ n m. (n, m)) e in
    behind now later
  where
    behind :
        (Matches sp (tail st) → ⊥)
        → ((n : ℕ) → Matches sp (drop (suc n) (tail st)) → ⊥)
        → (n : ℕ) → Matches sp (drop (suc n) st)
        → ⊥
    behind now later zero m = now m
    behind now later (suc n) m = later n m

-- Where the pattern neither takes the byte nor goes on with a star, it does not match.
stuck :
    (p : Bytes) (c : ℕ) (t : Bytes)
    → consumes p c ≡ false
    → at_star p ≡ false
    → Matches p (c ∷ t)
    → ⊥
stuck [] c t h h' m = elim m [ ]
stuck (d ∷ p) c t h h' m = let (_, e) = taken_off d p c t h' m in ground (arith, h, e)

star_not_taken : (p : Bytes) (c : ℕ) → at_star p ≡ true → (c == b'*') ≡ false → consumes p c ≡ false
star_not_taken [] c h e = cc
star_not_taken (d ∷ p) c h e = ground arith

everywhere :
    (p t : Bytes)
    → (Matches p t → ⊥)
    → ((n : ℕ) → Matches p (drop (suc n) t) → ⊥)
    → (n : ℕ) → Matches p (drop n t)
    → ⊥
unfolding drop
everywhere p t out behind zero m = out m
everywhere p t out behind (suc n) m = behind n m

glob_loop_Refuted :
    (f : ℕ) (p t : Bytes) (star : Option (Bytes × Bytes))
    → NoStar t
    → Through star p t
    → glob_loop f p t star ≡ ok false
    → (Matches p t → ⊥) × NoneBehind star
unfolding glob_loop NoStar Through NoneBehind
glob_loop_Refuted f p [] star ns g h =
    let out = no_stars_left p (ground (arith, h)) in (out, ends_Refuted p star g out)
glob_loop_Refuted zero p (c ∷ t) star ns g h = absurd (ground (arith, h))
glob_loop_Refuted (suc f) p (c ∷ t) star ns g h = elim (Bool-cases (at_star p)) [
  | inl starred ↦
      let first : (c == b'*') ≡ false = ns.0 in
      let left = star_not_taken p c starred first in
      let (out, behind) =
        glob_loop_Refuted f (tail p) (c ∷ t) (some (tail p, c ∷ t)) ns (ns, λ n m. (n, m))
          (ground (arith, h, starred, left)) in
      star_Refuted p (c ∷ t) star starred g (everywhere (tail p) (c ∷ t) out behind)
  | inr plain ↦ elim (Bool-cases (consumes p c)) [
    | inl taken ↦
        let (out, behind) =
          glob_loop_Refuted f (tail p) t star ns.1 (Through-consume p c t star plain ns.1 g)
            (ground (arith, h, taken)) in
        (λ m. out (peel p (c ∷ t) plain m), behind)
    | inr left ↦ (
      stuck p c t left plain,
      returned_Refuted f p c t star g
          (λ sp st ns' g' e. glob_loop_Refuted f sp st (some (sp, st)) ns' g' e)
          (ground (arith, h, left, plain)),
    )
  ]
]

glob_match-refuses : (p t : Bytes) → NoStar t → glob_match p t ≡ ok false → Matches p t → ⊥
unfolding glob_match Through
glob_match-refuses p t ns h = (glob_loop_Refuted _ p t none ns tt h).0

-- On a text that holds no `*`, `glob_match` ends, and returns true if and only if the text matches
-- the pattern.
pub glob_match-decides :
    (p t : Bytes) → NoStar t → (b : Bool) × (glob_match p t ≡ ok b) × ((b ≡ true) ↔ Matches p t)
glob_match-decides p t ns = decide (glob_match-Ends p t).0 (glob_match-Ends p t).1
  where
    decide :
        (b : Bool)
        → glob_match p t ≡ ok b
        → (b' : Bool) × (glob_match p t ≡ ok b') × ((b' ≡ true) ↔ Matches p t)
    decide true e = (true, e, ((λ _. glob_match-Matches p t e), λ _. refl))
    decide false e =
        (false, e, ((λ x. absurd (ground (arith, x))), λ m. absurd (glob_match-refuses p t ns e m)))
