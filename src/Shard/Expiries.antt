-- ===== src/Shard/Expiries.antt =====
-- The multimap of deadlines: insertion keeps the order by time and the entries by address.
use tinycache.Prelude.{
  ℕ, ◌≤◌, ◌≡◌, refl, none, some, List, [], ◌∷◌, arith, length, leb, ◌==◌, if◌then◌else◌, Bool-cases,
  inl, inr, cell_at, erase_at,
}
use tinycache.Shard.{Expiry, entry_at, erase_entry, emplace_entry}

-- No entry is earlier than `t`.
abbrev pub NoneBefore : ℕ → List Expiry → Type 0
NoneBefore t [] = Unit
NoneBefore t (x ∷ xs) = (t ≤ x.time) × NoneBefore t xs

abbrev pub IsOrdered : List Expiry → Type 0
IsOrdered [] = Unit
IsOrdered (x ∷ xs) = NoneBefore x.time xs × IsOrdered xs

pub entry_at-emplace_entry :
    (x : Expiry) (e : ℕ) (xs : List Expiry)
    → entry_at x.it xs ≡ none
    → entry_at e (emplace_entry x xs) ≡ (if x.it == e then some x else entry_at e xs)
unfolding cell_at emplace_entry
entry_at-emplace_entry x e [] h = refl
entry_at-emplace_entry x e (y ∷ ys) h = ground (arith, entry_at-emplace_entry x e ys)

NoneBefore-emplace_entry :
    (t : ℕ) (x : Expiry) (xs : List Expiry)
    → t ≤ x.time
    → NoneBefore t xs
    → NoneBefore t (emplace_entry x xs)
unfolding emplace_entry
NoneBefore-emplace_entry t x [] h p = (h, p)
NoneBefore-emplace_entry t x (y ∷ ys) h p = elim (Bool-cases (leb y.time x.time)) [
  | inl below ↦ rw below (p.0, NoneBefore-emplace_entry t x ys h p.1)
  | inr above ↦ rw above (h, p)
]

NoneBefore-mono : (t u : ℕ) (xs : List Expiry) → t ≤ u → NoneBefore u xs → NoneBefore t xs
NoneBefore-mono t u [] h p = tt
NoneBefore-mono t u (x ∷ xs) h p = (omega arith, NoneBefore-mono t u xs h p.1)

pub emplace_entry-IsOrdered :
    (x : Expiry) (xs : List Expiry) → IsOrdered xs → IsOrdered (emplace_entry x xs)
unfolding emplace_entry
emplace_entry-IsOrdered x [] p = (tt, tt)
emplace_entry-IsOrdered x (y ∷ ys) p = elim (Bool-cases (leb y.time x.time)) [
  | inl below ↦
      rw below
        (NoneBefore-emplace_entry y.time x ys (ground arith) p.0, emplace_entry-IsOrdered x ys p.1)
  | inr above ↦
      let earlier : x.time ≤ y.time = ground arith in
      rw above ((earlier, NoneBefore-mono x.time y.time ys earlier p.0), p)
]

NoneBefore-erase_entry :
    (t e : ℕ) (xs : List Expiry) → NoneBefore t xs → NoneBefore t (erase_entry e xs)
unfolding erase_at
NoneBefore-erase_entry t e [] p = tt
NoneBefore-erase_entry t e (x ∷ xs) p = elim (Bool-cases (x.it == e)) [
  | inl here ↦ rw here (NoneBefore-erase_entry t e xs p.1)
  | inr later ↦ rw later (p.0, NoneBefore-erase_entry t e xs p.1)
]

pub erase_entry-IsOrdered : (e : ℕ) (xs : List Expiry) → IsOrdered xs → IsOrdered (erase_entry e xs)
unfolding erase_at
erase_entry-IsOrdered e [] p = tt
erase_entry-IsOrdered e (x ∷ xs) p = elim (Bool-cases (x.it == e)) [
  | inl here ↦ rw here (erase_entry-IsOrdered e xs p.1)
  | inr later ↦ rw later (NoneBefore-erase_entry x.time e xs p.0, erase_entry-IsOrdered e xs p.1)
]

pub NoneBefore-entry_at :
    (t e : ℕ) (xs : List Expiry) {x : Expiry}
    → NoneBefore t xs
    → entry_at e xs ≡ some x
    → t ≤ x.time
unfolding cell_at
NoneBefore-entry_at t e [] p h = cc
NoneBefore-entry_at t e (y ∷ ys) p h = elim (Bool-cases (y.it == e)) [
  | inl here ↦ ground arith
  | inr later ↦ NoneBefore-entry_at t e ys p.1 (rw later at h)
]

pub length-erase_entry-le : (e : ℕ) (xs : List Expiry) → length (erase_entry e xs) ≤ length xs
unfolding erase_at
length-erase_entry-le e [] = omega arith
length-erase_entry-le e (x ∷ xs) = ground (arith, length-erase_entry-le e xs)
