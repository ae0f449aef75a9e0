-- ===== src/FlatMap/Assoc.antt =====
-- An association list that meets the interface of the flat map, for tests and witnesses. A key counts
-- once, and its first entry is the one that is found.
use tinycache.Prelude.{
  ℕ, suc, ◌+◌, ◌≡◌, refl, ite, Option, none, some, List, [], ◌∷◌, arith, inl, inr, Option-cases,
}
use tinycache.Prelude.Bytes.{Bytes, bytes_discrete}
use tinycache.FlatMap.{FlatMap}

abbrev pub Entries : Type 0
Entries = List (Bytes × ℕ)

unfoldable pub find : Bytes → Entries → Option ℕ
find k [] = none
find k ((j, a) ∷ m) = ite (bytes_discrete j k) (some a) (find k m)

unfoldable pub emplace : Bytes → ℕ → Entries → Entries
emplace k a m = elim (find k m) [ none ↦ (k, a) ∷ m | some _ ↦ m ]

unfoldable pub erase : Bytes → Entries → Entries
erase k [] = []
erase k ((j, a) ∷ m) = ite (bytes_discrete j k) (erase k m) ((j, a) ∷ erase k m)

unfoldable pub size : Entries → ℕ
size [] = 0
size ((j, a) ∷ m) = elim (find j m) [ none ↦ suc (size m) | some _ ↦ size m ]

pub find_nil : (j : Bytes) → find j [] ≡ none
unfolding find
find_nil j = refl

pub size_nil : size [] ≡ 0
unfolding size
size_nil = refl

pub find-emplace :
    (k j : Bytes) (a : ℕ) (m : Entries)
    → find k m ≡ none
    → find j (emplace k a m) ≡ ite (bytes_discrete k j) (some a) (find j m)
unfolding emplace find
find-emplace k j a m h = ground arith

pub find-erase :
    (k j : Bytes) (m : Entries) → find j (erase k m) ≡ ite (bytes_discrete k j) none (find j m)
unfolding find erase
find-erase k j [] = ground arith
find-erase k j ((i, a) ∷ m) = ground (arith, find-erase k j m)

pub size-emplace :
    (k : Bytes) (a : ℕ) (m : Entries) → find k m ≡ none → size (emplace k a m) ≡ size m + 1
unfolding emplace size
size-emplace k a m h = ground arith

erase_absent : (k : Bytes) (m : Entries) → find k m ≡ none → erase k m ≡ m
unfolding find erase
erase_absent k [] h = refl
erase_absent k ((j, a) ∷ m) h = ground (arith, erase_absent k m)

pub size-erase :
    (k : Bytes) (a : ℕ) (m : Entries) → find k m ≡ some a → size (erase k m) + 1 ≡ size m
unfolding find erase size
size-erase k a [] h = cc
size-erase k a ((j, b) ∷ m) h = elim (bytes_discrete j k) [
  | yes e ↦ elim (Option-cases (find k m)) [
    | inl miss ↦ ground (arith, erase_absent k m miss)
    | inr (c, hit) ↦ ground (arith, size-erase k c m hit)
  ]
  | no d ↦ ground (arith, find-erase k j m, size-erase k a m)
]

-- The interface, met by association lists.
abbrev pub assoc_map : FlatMap Entries
assoc_map = record {
  empty = [];
  find = find;
  emplace = emplace;
  erase = erase;
  size = size;
  find-empty = find_nil;
  find-emplace = find-emplace;
  find-erase = find-erase;
  size-empty = size_nil;
  size-emplace = size-emplace;
  size-erase = size-erase;
}
