-- ===== src/Prelude/Keyed.antt =====
-- Lists of items with a key: the first item with a key, and the list without it.
use mathlib.Core.Path.{◌≡◌, refl}
use mathlib.Core.Logic.{ite}
use mathlib.Core.List.{List, [], ◌∷◌, map}
use mathlib.Core.Option
use mathlib.Core.Option.{Option, none, some}
use native.Mathlib.Omega.{arith}
use tinycache.Prelude.Bytes.{Bytes, bytes_discrete}

module _ {ℓ} {A : Type ℓ} (key : A → Bytes) where
  unfoldable pub keyed : Bytes → List A → Option A
  keyed k [] = none
  keyed k (x ∷ xs) = ite (bytes_discrete (key x) k) (some x) (keyed k xs)

  unfoldable pub without : Bytes → List A → List A
  without k [] = []
  without k (x ∷ xs) = ite (bytes_discrete (key x) k) (without k xs) (x ∷ without k xs)

  pub keyed-key : (k : Bytes) (xs : List A) {x : A} → keyed k xs ≡ some x → key x ≡ k
  unfolding keyed
  keyed-key k [] h = cc
  keyed-key k (y ∷ xs) {x} h = elim (bytes_discrete (key y) k) [
    | yes e ↦ ground arith
    | no d ↦ keyed-key k xs (ground arith)
  ]

  pub keyed-without :
      (k j : Bytes) (xs : List A)
      → keyed j (without k xs) ≡ ite (bytes_discrete k j) none (keyed j xs)
  unfolding keyed without
  keyed-without k j [] = ground arith
  keyed-without k j (x ∷ xs) = ground (arith, keyed-without k j xs)

  pub without_absent : (k : Bytes) (xs : List A) → keyed k xs ≡ none → without k xs ≡ xs
  unfolding keyed without
  without_absent k [] h = refl
  without_absent k (x ∷ xs) h = ground (arith, without_absent k xs)

module _ {ℓ κ} {A : Type ℓ} {B : Type κ} (key : A → Bytes) (f : B → A) where
  pub keyed-map :
      (k : Bytes) (xs : List B)
      → keyed key k (map f xs) ≡ Option.map f (keyed (λ x. key (f x)) k xs)
  unfolding keyed
  keyed-map k [] = refl
  keyed-map k (x ∷ xs) = ground (arith, keyed-map k xs)

  pub without-map :
      (k : Bytes) (xs : List B) → without key k (map f xs) ≡ map f (without (λ x. key (f x)) k xs)
  unfolding without
  without-map k [] = refl
  without-map k (x ∷ xs) = ground (arith, without-map k xs)
