-- ===== src/Shard/Home.antt =====
-- A shard that only holds keys of its own, and keeps its limit, under the operations of Shard/Spec.antt.
use tinycache.Prelude.{
  ℕ, ◌+◌, ◌-◌, ◌<◌, ◌≡◌, refl, Bool, true, false, Option, none, List, [], ◌∷◌, arith, length,
  Option-cases, Bool-cases, inl, inr,
}
use tinycache.Prelude.Bytes.{Bytes, word}
use tinycache.Prelude.Keyed.{keyed, keyed-without, keyed-key}
use tinycache.Shard.Time.{TimePoint, is_expired}
use tinycache.Shard.Spec
use tinycache.Shard.Spec.{Entry, View, entry_for, drop_key, keep, live, set_deadline}
use tinycache.Shard.Timed.{
  IsTimed, AllTimed, keep-AllTimed, drop_key-AllTimed, live-AllTimed, set_deadline-AllTimed,
  entry_for-IsTimed,
}

-- `mine` tells which keys are the shard's own. Deadlines are time points of 64 bits.
pub record Holds (m : ℕ) (mine : Bytes → Bool) (w : View) : Type 0 where
  pub limit : w.max_memory_bytes ≡ m
  pub home : (j : Bytes) → mine j ≡ false → entry_for j w.entries ≡ none
  pub timed : AllTimed w.entries

absent-keep :
    (m : ℕ) (j : Bytes) (es : List Entry) → entry_for j es ≡ none → entry_for j (keep m es) ≡ none
unfolding keyed keep
absent-keep m j [] h = refl
absent-keep m j (e ∷ es) h = ground (arith, absent-keep (m - (length e.key + length e.value)) j es)

absent-drop_key :
    (k j : Bytes) (es : List Entry) → entry_for j es ≡ none → entry_for j (drop_key k es) ≡ none
absent-drop_key k j es h = ground (arith, keyed-without (λ (e : Entry). e.key) k j es)

absent-live :
    (now : TimePoint) (j : Bytes) (es : List Entry)
    → entry_for j es ≡ none
    → entry_for j (live now es) ≡ none
unfolding keyed live
absent-live now j [] h = refl
absent-live now j (e ∷ es) h = ground (arith, absent-live now j es)

absent-set_deadline :
    (k : Bytes) (t : TimePoint) (j : Bytes) (es : List Entry)
    → entry_for j es ≡ none
    → entry_for j (set_deadline k t es) ≡ none
unfolding keyed set_deadline
absent-set_deadline k t j [] h = refl
absent-set_deadline k t j (e ∷ es) h = ground (arith, absent-set_deadline k t j es)

-- A key of the shard in front changes nothing for the keys of others.
absent-cons :
    (mine : Bytes → Bool) (e : Entry) (j : Bytes) (es : List Entry)
    → mine e.key ≡ true
    → mine j ≡ false
    → entry_for j es ≡ none
    → entry_for j (e ∷ es) ≡ none
unfolding keyed
absent-cons mine e j es h h' g = ground arith

module _ {m : ℕ} {mine : Bytes → Bool} (k : Bytes) (own : mine k ≡ true) {w : View}
    (h : Holds m mine w) where
  drop_key-Holds : Holds m mine (Spec.drop_expired k w)
  unfolding Spec.drop_expired
  drop_key-Holds = record {
    limit = h.limit;
    home = λ j other. absent-drop_key k j w.entries (h.home j other);
    timed = drop_key-AllTimed k w.entries h.timed;
  }

  pub get-Holds : (now : TimePoint) → Holds m mine (Spec.get k now w).0
  unfolding Spec.get
  get-Holds now = elim (Option-cases (entry_for k w.entries)) [
    | inl miss ↦ rw (miss, Spec.get) h
    | inr (e, hit) ↦ elim (Bool-cases (is_expired e.expire_at now)) [
      | inl late ↦ rw (hit, late, Spec.get) drop_key-Holds
      | inr alive ↦
          rw (hit, alive, Spec.get)
            (record {
              limit = h.limit;
              home = λ j other.
                  absent-cons mine e j (drop_key k w.entries)
                    (ground (arith, keyed-key (λ (x : Entry). x.key) k w.entries {x = e} hit)) other
                    (absent-drop_key k j w.entries (h.home j other));
              timed = (
                entry_for-IsTimed k w.entries {e = e} h.timed hit,
                drop_key-AllTimed k w.entries h.timed,
              );
            })
    ]
  ]

  pub set-Holds : (v : Bytes) (t : Option TimePoint) → IsTimed t → Holds m mine (Spec.set k v t w)
  unfolding Spec.set Spec.fit
  set-Holds v t in_range = record {
    limit = h.limit;
    home = λ j other.
        let e : Entry = record { key = k; value = v; expire_at = t } in
        absent-keep w.max_memory_bytes j (e ∷ drop_key k w.entries) (
          absent-cons mine e j (drop_key k w.entries) own other
            (absent-drop_key k j w.entries (h.home j other)));
    timed =
        keep-AllTimed w.max_memory_bytes
          (record { key = k; value = v; expire_at = t } ∷ drop_key k w.entries)
          (in_range, drop_key-AllTimed k w.entries h.timed);
  }

  pub del-Holds : Holds m mine (Spec.del k w).0
  unfolding Spec.del
  del-Holds = record {
    limit = h.limit;
    home = λ j other. absent-drop_key k j w.entries (h.home j other);
    timed = drop_key-AllTimed k w.entries h.timed;
  }

  pub expire-Holds : (t : TimePoint) → t < word → Holds m mine (Spec.expire k t w).0
  unfolding Spec.expire
  expire-Holds t in_range = record {
    limit = h.limit;
    home = λ j other. absent-set_deadline k t j w.entries (h.home j other);
    timed = set_deadline-AllTimed k t w.entries in_range h.timed;
  }

  pub ttl-Holds : (now later : TimePoint) → Holds m mine (Spec.ttl k now later w).0
  unfolding Spec.ttl
  ttl-Holds now later = elim (Option-cases (entry_for k w.entries)) [
    | inl miss ↦ rw (miss, Spec.ttl) h
    | inr (e, hit) ↦ elim (Bool-cases (is_expired e.expire_at now)) [
      | inl late ↦ rw (hit, late, Spec.ttl) drop_key-Holds
      | inr alive ↦ elim (Option-cases e.expire_at) [
        | inl unset ↦ rw (hit, alive, unset, Spec.ttl) h
        | inr (t, timed) ↦ rw (hit, alive, timed, Spec.ttl) h
      ]
    ]
  ]

pub remove_expired-Holds :
    {m : ℕ} {mine : Bytes → Bool} (now : TimePoint) {w : View}
    → Holds m mine w
    → Holds m mine (Spec.remove_expired now w)
unfolding Spec.remove_expired
remove_expired-Holds now {w} h = record {
  limit = h.limit;
  home = λ j other. absent-live now j w.entries (h.home j other);
  timed = live-AllTimed now w.entries h.timed;
}
