-- ===== src/Prelude/Lists.antt =====
-- Lists measured by native numbers, under the library's names, and cells found by their address.
use Prim.Native.Nat.{zero, ℕ, suc, ◌+◌, ◌<◌}
use mathlib.Core.Path.{◌≡◌, refl, ap}
use mathlib.Core.List.{List, [], ◌∷◌, ◌++◌, map}
use mathlib.Core.Option.{Option, none, some}
use native.Mathlib.Omega.{arith}
use mathlib.Core.Logic.{◌≢◌, ◌⊎◌, inl, inr}
use tinycache.Prelude.Tests.{◌==◌, if◌then◌else◌, Bool-cases}

module _ {ℓ} {A : Type ℓ} where
  abbrev pub length : List A → ℕ
  length [] = 0
  length (x ∷ xs) = suc (length xs)

  pub length-append : (xs ys : List A) → length (xs ++ ys) ≡ length xs + length ys
  length-append [] ys = omega arith
  length-append (x ∷ xs) ys = omega (arith, length-append xs ys)

pub List-cases {ℓ} : {A : Type ℓ} (l : List A) → (l ≡ []) ⊎ ((x : A) × (xs : List A) × (l ≡ x ∷ xs))
List-cases [] = inl refl
List-cases (x ∷ xs) = inr (x, xs, refl)

module _ {ℓ} {A : Type ℓ} where
  pub length-map {κ} : {B : Type κ} (f : A → B) (xs : List A) → length (map f xs) ≡ length xs
  length-map f [] = refl
  length-map f (x ∷ xs) = ap suc (length-map f xs)

-- A list of cells that stand at addresses, as an iterator of a list container points at one.
module _ {ℓ} {A : Type ℓ} (address : A → ℕ) where
  -- What an iterator points at, if it points into the list.
  unfoldable pub cell_at : ℕ → List A → Option A
  cell_at a [] = none
  cell_at a (x ∷ xs) = if address x == a then some x else cell_at a xs

  -- The list without the cell at an address.
  unfoldable pub erase_at : ℕ → List A → List A
  erase_at a [] = []
  erase_at a (x ∷ xs) = if address x == a then erase_at a xs else x ∷ erase_at a xs

  -- The list with a cell written over the one at its address.
  unfoldable pub write_at : A → List A → List A
  write_at y [] = []
  write_at y (x ∷ xs) = if address x == address y then y ∷ write_at y xs else x ∷ write_at y xs

  pub cell_at-address : (a : ℕ) (xs : List A) {x : A} → cell_at a xs ≡ some x → address x ≡ a
  unfolding cell_at
  cell_at-address a [] h = cc
  cell_at-address a (x ∷ xs) h = elim (Bool-cases (address x == a)) [
    | inl here ↦ ground arith
    | inr later ↦ cell_at-address a xs (rw later at h)
  ]

  pub cell_at-erase_at :
      (a b : ℕ) (xs : List A) → cell_at b (erase_at a xs) ≡ (if a == b then none else cell_at b xs)
  unfolding cell_at erase_at
  cell_at-erase_at a b [] = ground arith
  cell_at-erase_at a b (x ∷ xs) = ground (arith, cell_at-erase_at a b xs)

  pub erase_at_absent : (a : ℕ) (xs : List A) → cell_at a xs ≡ none → erase_at a xs ≡ xs
  unfolding cell_at erase_at
  erase_at_absent a [] h = refl
  erase_at_absent a (x ∷ xs) h = ground (arith, erase_at_absent a xs)

  pub erase_at-write_at :
      (a : ℕ) (y : A) (xs : List A) → address y ≡ a → erase_at a (write_at y xs) ≡ erase_at a xs
  unfolding write_at erase_at
  erase_at-write_at a y [] h = refl
  erase_at-write_at a y (x ∷ xs) h = ground (arith, erase_at-write_at a y xs h)

  pub cell_at-write_at_ne :
      (b : ℕ) (y : A) (xs : List A) → address y ≢ b → cell_at b (write_at y xs) ≡ cell_at b xs
  unfolding cell_at write_at
  cell_at-write_at_ne b y [] h = refl
  cell_at-write_at_ne b y (x ∷ xs) h = ground (arith, cell_at-write_at_ne b y xs h)

  pub cell_at-write_at_self :
      (y : A) (xs : List A) {x : A}
      → cell_at (address y) xs ≡ some x
      → cell_at (address y) (write_at y xs) ≡ some y
  unfolding cell_at write_at
  cell_at-write_at_self y [] h = cc
  cell_at-write_at_self y (x ∷ xs) h = elim (Bool-cases (address x == address y)) [
    | inl here ↦ ground arith
    | inr later ↦ rw later (rw later (cell_at-write_at_self y xs (rw later at h)))
  ]

  pub write_at_absent : (y : A) (xs : List A) → cell_at (address y) xs ≡ none → write_at y xs ≡ xs
  unfolding cell_at write_at
  write_at_absent y [] h = refl
  write_at_absent y (x ∷ xs) h = ground (arith, write_at_absent y xs)

unfoldable pub get_elem? {ℓ} : {A : Type ℓ} → List A → ℕ → Option A
get_elem? [] i = none
get_elem? (a ∷ rest) zero = some a
get_elem? (a ∷ rest) (suc i) = get_elem? rest i

module _ {ℓ} {A : Type ℓ} where
  -- A write out of range changes nothing.
  unfoldable pub set : List A → ℕ → A → List A
  set [] i v = []
  set (a ∷ rest) zero v = v ∷ rest
  set (a ∷ rest) (suc i) v = a ∷ set rest i v

  pub length-set : (items : List A) (i : ℕ) (v : A) → length (set items i v) ≡ length items
  unfolding set
  length-set [] i v = refl
  length-set (a ∷ rest) zero v = refl
  length-set (a ∷ rest) (suc i) v = ap suc (length-set rest i v)

  pub get_elem?-some :
      (items : List A) (i : ℕ) → i < length items → (a : A) × (get_elem? items i ≡ some a)
  unfolding get_elem?
  get_elem?-some [] i h = absurd (omega arith)
  get_elem?-some (a ∷ rest) zero h = (a, refl)
  get_elem?-some (a ∷ rest) (suc i) h = get_elem?-some rest i (omega arith)

  pub get_elem?-set_self :
      (items : List A) (i : ℕ) (v : A) → i < length items → get_elem? (set items i v) i ≡ some v
  unfolding get_elem? set
  get_elem?-set_self [] i v h = absurd (omega arith)
  get_elem?-set_self (a ∷ rest) zero v h = refl
  get_elem?-set_self (a ∷ rest) (suc i) v h = get_elem?-set_self rest i v (omega arith)

  pub get_elem?-set_ne :
      (items : List A) (i j : ℕ) (v : A) → i ≢ j → get_elem? (set items i v) j ≡ get_elem? items j
  unfolding get_elem? set
  get_elem?-set_ne [] i j v h = refl
  get_elem?-set_ne (a ∷ rest) zero zero v h = absurd (h refl)
  get_elem?-set_ne (a ∷ rest) zero (suc j) v h = refl
  get_elem?-set_ne (a ∷ rest) (suc i) zero v h = refl
  get_elem?-set_ne (a ∷ rest) (suc i) (suc j) v h = get_elem?-set_ne rest i j v (λ e. h (ap suc e))

  pub get_elem?-lt :
      (items : List A) (i : ℕ) {a : A} → get_elem? items i ≡ some a → i < length items
  unfolding get_elem?
  get_elem?-lt [] i h = cc
  get_elem?-lt (a ∷ rest) zero h = omega arith
  get_elem?-lt (a ∷ rest) (suc i) h = omega (arith, get_elem?-lt rest i h)

  pub get_elem?-append :
      (items more : List A) (i : ℕ) {a : A}
      → get_elem? items i ≡ some a
      → get_elem? (items ++ more) i ≡ some a
  unfolding get_elem?
  get_elem?-append [] more i h = cc
  get_elem?-append (x ∷ rest) more zero h = h
  get_elem?-append (x ∷ rest) more (suc i) h = get_elem?-append rest more i h

  -- A cell of a list with one more is a cell of the list, or the one more.
  pub get_elem?-append_one :
      (items : List A) (y : A) (i : ℕ) {a : A}
      → get_elem? (items ++ y ∷ []) i ≡ some a
      → (get_elem? items i ≡ some a) ⊎ (a ≡ y)
  unfolding get_elem?
  get_elem?-append_one [] y zero h = inr cc
  get_elem?-append_one [] y (suc i) h = cc
  get_elem?-append_one (x ∷ rest) y zero h = inl h
  get_elem?-append_one (x ∷ rest) y (suc i) h = get_elem?-append_one rest y i h

  -- A cell of a list that was written to is what was written, or a cell of the list.
  pub get_elem?-set-cases :
      (items : List A) (i j : ℕ) (v : A) {a : A}
      → get_elem? (set items i v) j ≡ some a
      → ((i ≡ j) × (a ≡ v)) ⊎ ((i ≢ j) × (get_elem? items j ≡ some a))
  unfolding get_elem? set
  get_elem?-set-cases [] i j v h = cc
  get_elem?-set-cases (x ∷ rest) zero zero v h = inl (refl, cc)
  get_elem?-set-cases (x ∷ rest) zero (suc j) v h = inr (omega arith, h)
  get_elem?-set-cases (x ∷ rest) (suc i) zero v h = inr (omega arith, h)
  get_elem?-set-cases (x ∷ rest) (suc i) (suc j) v h = elim (get_elem?-set-cases rest i j v h) [
    | inl (same, is) ↦ inl (ap suc same, is)
    | inr (other, there) ↦ inr (omega arith, there)
  ]
