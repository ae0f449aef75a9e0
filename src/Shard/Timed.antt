-- ===== src/Shard/Timed.antt =====
-- The deadlines of the entries of Shard/Spec.antt are time points, which src/lruShard.cpp keeps in 64
-- bits, and a value is as long as the bytes in use allow.
use mathlib.Core.Path.{subst}
use tinycache.Prelude.{
  ℕ, ◌+◌, ◌-◌, ◌<◌, ◌≤◌, ◌≡◌, Option, none, some, List, [], ◌∷◌, length, arith, Bool-cases, inl,
  inr, leb, ltb, if_pos, if_neg, ◌⊎◌, ◌*◌, ◌&&◌, refl, ok, fault, overflow,
}
use tinycache.Prelude.Bytes.{Bytes, bytes_discrete, word}
use tinycache.Prelude.Keyed.{keyed, without}
use tinycache.Shard.Time.{TimePoint, is_expired, add_seconds, half_word, ns_per_second}
use tinycache.Shard.Spec.{Entry, entry_for, drop_key, keep, live, set_deadline, total}

abbrev pub IsTimed : Option TimePoint → Type 0
IsTimed none = Unit
IsTimed (some t) = t < word

abbrev pub AllTimed : List Entry → Type 0
AllTimed [] = Unit
AllTimed (e ∷ es) = IsTimed e.expire_at × AllTimed es

pub keep-AllTimed : (m : ℕ) (es : List Entry) → AllTimed es → AllTimed (keep m es)
unfolding keep
keep-AllTimed m [] h = tt
keep-AllTimed m (e ∷ es) h = elim (Bool-cases (leb (length e.key + length e.value) m)) [
  | inl fits ↦ rw fits (h.0, keep-AllTimed (m - (length e.key + length e.value)) es h.1)
  | inr large ↦ rw large tt
]

pub drop_key-AllTimed : (k : Bytes) (es : List Entry) → AllTimed es → AllTimed (drop_key k es)
unfolding without
drop_key-AllTimed k [] h = tt
drop_key-AllTimed k (e ∷ es) h = elim (bytes_discrete e.key k) [
  | yes same ↦ rw (if_pos _ same) (drop_key-AllTimed k es h.1)
  | no other ↦ rw (if_neg _ other) (h.0, drop_key-AllTimed k es h.1)
]

pub live-AllTimed : (now : TimePoint) (es : List Entry) → AllTimed es → AllTimed (live now es)
unfolding live
live-AllTimed now [] h = tt
live-AllTimed now (e ∷ es) h = elim (Bool-cases (is_expired e.expire_at now)) [
  | inl late ↦ rw late (live-AllTimed now es h.1)
  | inr alive ↦ rw alive (h.0, live-AllTimed now es h.1)
]

pub set_deadline-AllTimed :
    (k : Bytes) (t : TimePoint) (es : List Entry)
    → t < word
    → AllTimed es
    → AllTimed (set_deadline k t es)
unfolding set_deadline
set_deadline-AllTimed k t [] low h = tt
set_deadline-AllTimed k t (e ∷ es) low h = elim (bytes_discrete e.key k) [
  | yes same ↦ rw (if_pos _ same) (low, set_deadline-AllTimed k t es low h.1)
  | no other ↦ rw (if_neg _ other) (h.0, set_deadline-AllTimed k t es low h.1)
]

-- What is found under a key has a deadline in range, and a value no longer than all entries.
pub entry_for-IsTimed :
    (k : Bytes) (es : List Entry) {e : Entry}
    → AllTimed es
    → entry_for k es ≡ some e
    → IsTimed e.expire_at
unfolding keyed
entry_for-IsTimed k [] h found = cc
entry_for-IsTimed k (x ∷ es) {e} h found = elim (bytes_discrete x.key k) [
  | yes same ↦
      let it : x ≡ e = ground (arith, same, found) in subst (λ y. IsTimed y.expire_at) it h.0
  | no other ↦ entry_for-IsTimed k es {e = e} h.1 (ground (arith, other, found))
]

pub entry_for-total :
    (k : Bytes) (es : List Entry) {e : Entry} → entry_for k es ≡ some e → length e.value ≤ total es
unfolding keyed total
entry_for-total k [] found = cc
entry_for-total k (x ∷ es) {e} found = elim (bytes_discrete x.key k) [
  | yes same ↦
      let it : x ≡ e = ground (arith, same, found) in
      subst (λ y. length y.value ≤ total (x ∷ es)) it (omega arith)
  | no other ↦ omega (arith, entry_for-total k es {e = e} (ground (arith, other, found)))
]

-- A reading of the clock and a number of seconds lead to a time point, or overflow.
pub add_seconds-cases :
    (now : TimePoint) (n : ℕ)
    → now < word
    → ((t : TimePoint) × (add_seconds now n ≡ ok t) × (t < word))
      ⊎ (add_seconds now n ≡ fault overflow)
unfolding add_seconds
add_seconds-cases now n h = elim (Bool-cases (ltb n half_word)) [
  | inl small ↦
      elim (Bool-cases (ltb (n * ns_per_second) half_word && ltb (now + n * ns_per_second) word)) [
        | inl fits ↦ inl (now + n * ns_per_second, rw (small, fits) refl, ground (arith, fits))
        | inr large ↦ inr (rw (small, large) refl)
      ]
  | inr negative ↦
      let back = (word - n) * ns_per_second in
      elim (Bool-cases (leb back half_word && leb back now)) [
        | inl fits ↦ inl (now - back, rw (negative, fits) refl, omega (arith, h))
        | inr large ↦ inr (rw (negative, large) refl)
      ]
]
