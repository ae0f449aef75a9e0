-- ===== src/Shard/Seen.antt =====
-- What the operations of Shard/Spec.antt leave under each key (src/lruShard.cpp).
use tinycache.Prelude.{
  ℕ, ◌+◌, ◌-◌, ◌/◌, ◌≤◌, ◌≡◌, ◌≢◌, ◌⊎◌, refl, ◌∙◌, arith, ite, Bool, true, false, Bool-cases,
  if◌then◌else◌, leb, List, [], ◌∷◌, length, Option, none, some, Option-cases, inl, inr, ℤ, pos,
  negsuc,
}
use tinycache.Prelude.Bytes.{Bytes, bytes_discrete}
use tinycache.Prelude.Keyed.{keyed, keyed-without, keyed-key}
use tinycache.Shard.Time.{TimePoint, is_expired, ns_per_second}
use tinycache.Shard.Spec
use tinycache.Shard.Spec.{Entry, View, entry_for, drop_key, keep, set_deadline}

-- Whether there is an entry whose deadline has passed.
abbrev pub is_late : Option Entry → TimePoint → Bool
is_late none now = false
is_late (some e) now = is_expired e.expire_at now

-- What GET finds in an entry.
abbrev pub value_of : Option Entry → TimePoint → Option Bytes
value_of none now = none
value_of (some e) now = if is_expired e.expire_at now then none else some e.value

-- What TTL says of a deadline, and of an entry.
abbrev pub remaining : Option TimePoint → TimePoint → ℤ
remaining none later = negsuc 0
remaining (some t) later = pos ((t - later) / ns_per_second)

abbrev pub ttl_of : Option Entry → TimePoint → TimePoint → ℤ
ttl_of none now later = negsuc 1
ttl_of (some e) now later =
    if is_expired e.expire_at now then negsuc 1 else remaining e.expire_at later

abbrev pub is_there : Option Entry → Bool
is_there none = false
is_there (some e) = true

abbrev pub with_deadline : TimePoint → Option Entry → Option Entry
with_deadline t none = none
with_deadline t (some e) = some (record e { expire_at = some t })

module _ (k j : Bytes) (w : View) where
  -- An entry that has expired is dropped when it is looked at.
  abbrev pub looked_at : TimePoint → Option Entry
  looked_at now =
      if is_late (entry_for k w.entries) now
      then ite (bytes_discrete k j) none (entry_for j w.entries)
      else entry_for j w.entries

  dropped :
      entry_for j (drop_key k w.entries) ≡ ite (bytes_discrete k j) none (entry_for j w.entries)
  dropped = keyed-without (λ (e : Entry). e.key) k j w.entries

  to_front :
      (e : Entry)
      → entry_for k w.entries ≡ some e
      → entry_for j (e ∷ drop_key k w.entries) ≡ entry_for j w.entries
  unfolding keyed
  to_front e hit =
      let named = keyed-key (λ (x : Entry). x.key) k w.entries {x = e} hit in
      elim (bytes_discrete k j) [
        | yes same ↦ ground (arith, same, named, hit)
        | no other ↦ ground (arith, other, named, dropped)
      ]

  pub get-looked_at : (now : TimePoint) → entry_for j (Spec.get k now w).0.entries ≡ looked_at now
  unfolding Spec.get Spec.drop_expired
  get-looked_at now = elim (Option-cases (entry_for k w.entries)) [
    | inl miss ↦ ground (arith, miss)
    | inr (e, hit) ↦ elim (Bool-cases (is_expired e.expire_at now)) [
      | inl late ↦ ground (arith, hit, late, dropped)
      | inr alive ↦ ground (arith, hit, alive, to_front e hit)
    ]
  ]

  pub ttl-looked_at :
      (now later : TimePoint) → entry_for j (Spec.ttl k now later w).0.entries ≡ looked_at now
  unfolding Spec.ttl Spec.drop_expired
  ttl-looked_at now later = elim (Option-cases (entry_for k w.entries)) [
    | inl miss ↦ ground (arith, miss)
    | inr (e, hit) ↦ elim (Bool-cases (is_expired e.expire_at now)) [
      | inl late ↦ ground (arith, hit, late, dropped)
      | inr alive ↦ elim (Option-cases e.expire_at) [
        | inl unset ↦ ground (arith, hit, alive, unset)
        | inr (t, timed) ↦ ground (arith, hit, alive, timed)
      ]
    ]
  ]

pub get-value_of :
    (k : Bytes) (w : View) (now : TimePoint)
    → (Spec.get k now w).1 ≡ value_of (entry_for k w.entries) now
unfolding Spec.get
get-value_of k w now = elim (Option-cases (entry_for k w.entries)) [
  | inl miss ↦ ground (arith, miss)
  | inr (e, hit) ↦ ground (arith, hit)
]

pub ttl-ttl_of :
    (k : Bytes) (w : View) (now later : TimePoint)
    → (Spec.ttl k now later w).1 ≡ ttl_of (entry_for k w.entries) now later
unfolding Spec.ttl
ttl-ttl_of k w now later = elim (Option-cases (entry_for k w.entries)) [
  | inl miss ↦ ground (arith, miss)
  | inr (e, hit) ↦ elim (Bool-cases (is_expired e.expire_at now)) [
    | inl late ↦ ground (arith, hit, late)
    | inr alive ↦ elim (Option-cases e.expire_at) [
      | inl unset ↦ ground (arith, hit, alive, unset)
      | inr (t, timed) ↦ ground (arith, hit, alive, timed)
    ]
  ]
]

pub set_deadline-with_deadline :
    (k j : Bytes) (t : TimePoint) (es : List Entry)
    → entry_for j (set_deadline k t es)
      ≡ ite (bytes_discrete k j) (with_deadline t (entry_for j es)) (entry_for j es)
unfolding keyed set_deadline
set_deadline-with_deadline k j t [] = ground arith
set_deadline-with_deadline k j t (e ∷ es) =
    let ih = set_deadline-with_deadline k j t es in
    elim (bytes_discrete e.key j) [
      | yes at_j ↦ ground (arith, at_j)
      | no other ↦ ground (arith, other, ih)
    ]

pub expire-is_there :
    (k : Bytes) (t : TimePoint) (w : View)
    → (Spec.expire k t w).1 ≡ is_there (entry_for k w.entries)
unfolding Spec.expire
expire-is_there k t w = ground arith

-- What is kept is found as before, what is evicted is not found.
pub keep-cases :
    (m : ℕ) (j : Bytes) (es : List Entry)
    → (entry_for j (keep m es) ≡ entry_for j es) ⊎ (entry_for j (keep m es) ≡ none)
unfolding keyed keep
keep-cases m j [] = inl refl
keep-cases m j (e ∷ es) = elim (Bool-cases (leb (length e.key + length e.value) m)) [
  | inr large ↦ inr (ground (arith, large))
  | inl fits ↦ elim (bytes_discrete e.key j) [
    | yes same ↦ inl (ground (arith, fits, same))
    | no other ↦ elim (keep-cases (m - (length e.key + length e.value)) j es) [
      | inl kept ↦ inl (ground (arith, fits, other, kept))
      | inr evicted ↦ inr (ground (arith, fits, other, evicted))
    ]
  ]
]

pub set_self :
    (k v : Bytes) (t : Option TimePoint) (w : View)
    → length k + length v ≤ w.max_memory_bytes
    → entry_for k (Spec.set k v t w).entries ≡ some (record { key = k; value = v; expire_at = t })
unfolding Spec.set Spec.fit keep keyed
set_self k v t w fits = ground arith

pub set-others :
    (k j v : Bytes) (t : Option TimePoint) (w : View)
    → k ≢ j
    → (entry_for j (Spec.set k v t w).entries ≡ entry_for j w.entries)
      ⊎ (entry_for j (Spec.set k v t w).entries ≡ none)
unfolding Spec.set Spec.fit
set-others k j v t w ne =
    let e : Entry = record { key = k; value = v; expire_at = t } in
    let before : entry_for j (e ∷ drop_key k w.entries) ≡ entry_for j w.entries =
      unfold keyed in ground (arith, ne, keyed-without (λ (x : Entry). x.key) k j w.entries) in
    elim (keep-cases w.max_memory_bytes j (e ∷ drop_key k w.entries)) [
      | inl kept ↦ inl (kept ∙ before)
      | inr evicted ↦ inr evicted
    ]
