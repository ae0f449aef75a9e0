-- ===== src/Dispatch/Table.antt =====
-- What the pool of src/commandExecutor.cpp is to its clients: one table of entries by their keys.
use mathlib.Core.Path.{fun_ext}
use tinycache.Prelude.{
  ℕ, ◌+◌, ◌≡◌, ◌≢◌, refl, sym, ap, ◌∙◌, arith, ite, if_pos, if_neg, Bool, true, false,
  if◌then◌else◌, List, [], ◌∷◌, ◌++◌, Option, none, some, Option-cases, inl, inr,
}
use tinycache.Prelude.Bytes.{Bytes, bytes_discrete}
use tinycache.Shard.Spec.{Entry}

abbrev pub Table : Type 0
Table = Bytes → Option Entry

abbrev pub present : Option Entry → ℕ
present none = 0
present (some e) = 1

unfoldable pub forget : Bytes → Table → Table
forget k t j = ite (bytes_discrete k j) none (t j)

-- To forget keys one after the other, and the number of those that were there.
unfoldable pub forget_all : List Bytes → Table → Table
unfolding forget
forget_all [] t = t
forget_all (k ∷ ks) t = forget_all ks (forget k t)

unfoldable pub removed : List Bytes → Table → ℕ
unfolding forget
removed [] t = 0
removed (k ∷ ks) t = present (t k) + removed ks (forget k t)

unfoldable pub has : Bytes → List Bytes → Bool
has k [] = false
has k (x ∷ xs) = ite (bytes_discrete x k) true (has k xs)

pub has-append :
    (k : Bytes) (xs ys : List Bytes) → has k (xs ++ ys) ≡ (if has k xs then true else has k ys)
unfolding has
has-append k [] ys = refl
has-append k (x ∷ xs) ys = ground (arith, has-append k xs ys)

-- The keys that are named are gone, and no other.
pub forget_all-has :
    (ks : List Bytes) (t : Table) (j : Bytes) → forget_all ks t j ≡ (if has j ks then none else t j)
unfolding forget_all forget has
forget_all-has [] t j = refl
forget_all-has (k ∷ ks) t j = ground (arith, forget_all-has ks (forget k t) j)

pub forget_all-append :
    (ks ls : List Bytes) (t : Table) → forget_all (ks ++ ls) t ≡ forget_all ls (forget_all ks t)
unfolding forget_all
forget_all-append [] ls t = refl
forget_all-append (k ∷ ks) ls t = forget_all-append ks ls (forget k t)

pub removed-append :
    (ks ls : List Bytes) (t : Table)
    → removed (ks ++ ls) t ≡ removed ks t + removed ls (forget_all ks t)
unfolding removed forget_all
removed-append [] ls t = omega arith
removed-append (k ∷ ks) ls t = omega (arith, removed-append ks ls (forget k t))

forget_comm : (k j : Bytes) (t : Table) → forget k (forget j t) ≡ forget j (forget k t)
unfolding forget
forget_comm k j t = fun_ext (λ i. ground arith)

forget_twice : (k : Bytes) (t : Table) → forget k (forget k t) ≡ forget k t
unfolding forget
forget_twice k t = fun_ext (λ i. ground arith)

forget_self : (k : Bytes) (t : Table) → present (forget k t k) ≡ 0
unfolding forget
forget_self k t = ground arith

forget_ne : (k j : Bytes) (t : Table) → k ≢ j → forget k t j ≡ t j
unfolding forget
forget_ne k j t ne = ground (arith, ne)

-- A key that is named may as well be forgotten first.
removed_first :
    (ks : List Bytes) (k : Bytes) (t : Table)
    → has k ks ≡ true
    → removed ks t ≡ present (t k) + removed ks (forget k t)
unfolding removed has
removed_first [] k t h = cc
removed_first (x ∷ xs) k t h = elim (bytes_discrete x k) [
  | yes same ↦ rw same (rw (forget_self k t, forget_twice k t) (omega arith))
  | no other ↦
      let ih = removed_first xs k (forget x t) (ground (arith, other, h)) in
      omega (
        arith,
        ih,
        ap (λ (t' : Table). removed xs t') (forget_comm k x t),
        ap present (forget_ne x k t other),
        ap present (forget_ne k x t (λ e. other (sym e))),
      )
]

-- Nothing is removed where no key that is named is there.
removed-none :
    (ks : List Bytes) (t : Table) → ((j : Bytes) → has j ks ≡ true → t j ≡ none) → removed ks t ≡ 0
unfolding removed has
removed-none [] t h = refl
removed-none (k ∷ ks) t h =
    let gone : t k ≡ none = h k (ground arith) in
    let rest = removed-none ks (forget k t) (λ j named. elim (bytes_discrete k j) [
      | yes same ↦ unfold forget in ground (arith, same)
      | no other ↦ forget_ne k j t other ∙ h j (ground (arith, other, named))
    ]) in
    omega (arith, ap present gone, rest)

forget_missing : (k : Bytes) (t : Table) → t k ≡ none → forget k t ≡ t
unfolding forget
forget_missing k t gone = fun_ext (λ j. elim (bytes_discrete k j) [
  | yes same ↦ rw (if_pos _ same) (sym gone ∙ ap t same)
  | no other ↦ rw (if_neg _ other) refl
])

forgotten :
    (k : Bytes) (t : Table) (j : Bytes) {e : Entry}
    → forget k t j ≡ some e
    → (k ≢ j) × (t j ≡ some e)
unfolding forget
forgotten k t j h = elim (bytes_discrete k j) [
  | yes same ↦ absurd (ground (arith, same, h))
  | no other ↦ (other, ground (arith, other, h))
]

-- Only which keys are named counts, where a key is there: not their order, nor how often they are named.
pub removed-has :
    (ks ls : List Bytes) (t : Table)
    → ((j : Bytes) (e : Entry) → t j ≡ some e → has j ks ≡ has j ls)
    → removed ks t ≡ removed ls t
unfolding removed has
removed-has [] ls t h = sym (
    removed-none ls t (λ j named. elim (Option-cases (t j)) [
      | inl gone ↦ gone
      | inr (e, there) ↦ absurd (ground (arith, named, h j e there))
    ]))
removed-has (k ∷ ks) ls t h =
    let rest = removed-has ks ls (forget k t) (λ j e there.
      let (other, there') = forgotten k t j {e = e} there in ground (arith, other, h j e there')) in
    elim (Option-cases (t k)) [
      | inl gone ↦ omega (arith, rest, ap present gone, ap (removed ls) (forget_missing k t gone))
      | inr (e, there) ↦ omega (arith, rest, removed_first ls k t (ground (arith, h k e there)))
    ]
