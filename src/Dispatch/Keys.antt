-- ===== src/Dispatch/Keys.antt =====
-- The commands on one key (src/commandExecutor.cpp) at the shard of the key.
use mathlib.Core.Path.{subst}
use tinycache.Prelude.{
  ℕ, ◌+◌, ◌<◌, ◌≤◌, ◌≡◌, refl, arith, List, [], ◌∷◌, length, none, some, Option-cases, Bool-cases,
  inl, inr, pos, Bool, true, Outcome, ok, get_elem?, if◌then◌else◌,
}
use tinycache.Prelude.Bytes.{Bytes, word}
use tinycache.FlatMap.{FlatMap}
use tinycache.Resp.{RespType, resp, number}
use tinycache.Resp.Emit.{IsWellTyped, IsInt64}
use tinycache.Shard.{LruShard}
use tinycache.Shard.Time.{TimePoint, add_seconds, is_expired}
use tinycache.Shard.Timed.{IsTimed, entry_for-IsTimed, entry_for-total}
use tinycache.Shard.Spec
use tinycache.Shard.Spec.{View, entry_for}
use tinycache.Shard.Valid.{IsValid, view}
use tinycache.Shard.Home.{Holds, get-Holds, set-Holds, del-Holds, expire-Holds, ttl-Holds}
use tinycache.Shard.Refines.{Implements}
use tinycache.Shard.Refines.Reads.{get-Implements, ttl-Implements}
use tinycache.Shard.Refines.Deadlines.{expire-Implements}
use tinycache.Executor.{
  range_error, bulk_or_null, process_get, process_del_keys, process_expire, process_ttl,
}
use tinycache.Executor.Numbers.{stoull}
use tinycache.Executor.Answers.{del_all, set_if, process_del_keys-Implements}
use tinycache.Dispatch.{KeyCommand}

-- The arguments that `toCommand` lets through.
abbrev pub IsShaped : KeyCommand → List Bytes → Type 0
IsShaped KeyCommand.get (k ∷ []) = Unit
IsShaped KeyCommand.set (k ∷ v ∷ []) = Unit
IsShaped KeyCommand.set (k ∷ v ∷ option ∷ []) = Unit
IsShaped KeyCommand.set (k ∷ v ∷ option ∷ count ∷ []) = Unit
IsShaped KeyCommand.expire (k ∷ count ∷ []) = Unit
IsShaped KeyCommand.ttl (k ∷ []) = Unit
IsShaped _ _ = ⊥

-- The seconds that a text spells, if any, lead from `now` to a time point.
abbrev pub InRange : Bytes → TimePoint → Type 0
InRange count now =
    (n : ℕ) → stoull count ≡ some n → (t : TimePoint) × (add_seconds now n ≡ ok t) × (t < word)

-- The sizes that a write to a shard with limit `m` adds up stay below 2 ^ 64, and its deadline is a
-- time point.
abbrev pub IsAllowed : ℕ → KeyCommand → List Bytes → TimePoint → TimePoint → Type 0
IsAllowed m KeyCommand.set (k ∷ v ∷ option ∷ count ∷ []) now later =
    (m + length k + length v < word) × InRange count later
IsAllowed m KeyCommand.set (k ∷ v ∷ more) now later = m + length k + length v < word
IsAllowed m KeyCommand.expire (k ∷ count ∷ []) now later = InRange count now
IsAllowed _ _ _ _ _ = Unit

abbrev pub IsOwn : (Bytes → Bool) → List Bytes → Type 0
IsOwn mine [] = ⊥
IsOwn mine (k ∷ args) = mine k ≡ true

abbrev pub AllOwn : (Bytes → Bool) → List Bytes → Type 0
AllOwn mine [] = Unit
AllOwn mine (k ∷ ks) = (mine k ≡ true) × AllOwn mine ks

pub del_all-Holds :
    {m : ℕ} {mine : Bytes → Bool} (ks : List Bytes) {w : View}
    → AllOwn mine ks
    → Holds m mine w
    → Holds m mine (del_all ks w).0
unfolding del_all
del_all-Holds [] own h = h
del_all-Holds (k ∷ ks) own h = del_all-Holds ks own.1 (del-Holds k own.0 h)

pub set_if-Holds :
    {m : ℕ} {mine : Bytes → Bool} (wanted : Bool) (k v : Bytes) (now : TimePoint) {w : View}
    → mine k ≡ true
    → Holds m mine w
    → Holds m mine (set_if wanted k v now w).0
unfolding set_if
set_if-Holds wanted k v now {w} own h =
    let kept = get-Holds k own h now in
    let written = set-Holds k own kept v none tt in
    elim (Option-cases (Spec.get k now w).1) [
      | inl missing ↦ elim (Bool-cases wanted) [
        | inl yes_wanted ↦ rw (missing, yes_wanted, set_if) kept
        | inr not_wanted ↦ rw (missing, not_wanted, set_if) written
      ]
      | inr (x, there) ↦ elim (Bool-cases wanted) [
        | inl yes_wanted ↦ rw (there, yes_wanted, set_if) written
        | inr not_wanted ↦ rw (there, not_wanted, set_if) kept
      ]
    ]

pub set_if-IsWellTyped :
    (wanted : Bool) (k v : Bytes) (now : TimePoint) (w : View)
    → IsWellTyped (set_if wanted k v now w).1
unfolding set_if IsWellTyped
set_if-IsWellTyped wanted k v now w = elim (Option-cases (Spec.get k now w).1) [
  | inl missing ↦ elim (Bool-cases wanted) [
    | inl yes_wanted ↦ rw (missing, yes_wanted, set_if) tt
    | inr not_wanted ↦ rw (missing, not_wanted, set_if) tt
  ]
  | inr (x, there) ↦ elim (Bool-cases wanted) [
    | inl yes_wanted ↦ rw (there, yes_wanted, set_if) tt
    | inr not_wanted ↦ rw (there, not_wanted, set_if) tt
  ]
]

del_all-le : (ks : List Bytes) (w : View) → (del_all ks w).1 ≤ length ks
unfolding del_all
del_all-le [] w = omega arith
del_all-le (k ∷ ks) w = ground (arith, del_all-le ks (Spec.del k w).0)

module _ {M : Type 0} (F : FlatMap M) (m : ℕ) (mine : Bytes → Bool) where
  -- A valid shard with limit `m` that holds no key but its own.
  abbrev pub IsSound : LruShard M → Type 0
  IsSound s = IsValid F s × Holds m mine (view s)

  -- The run ends in a sound shard, with a result as `P` wants it.
  abbrev pub EndsSound : {R : Type 0} → (R → Type 0) → Outcome (LruShard M × R) → Type 0
  EndsSound {R} P r = (s' : LruShard M) × (x : R) × (r ≡ ok (s', x)) × IsSound s' × P x

  pub from_view :
      {R : Type 0} (P : R → Type 0) {r : Outcome (LruShard M × R)} {v : View × R}
      → Implements F r v
      → Holds m mine v.0
      → P v.1
      → EndsSound P r
  from_view P {v = v} (s', runs, valid, seen) h typed = (s', v.1, runs, (valid, rw seen h), typed)

  module _ {s : LruShard M} (sound : IsSound s) where
    -- The limit that the theorems on `set` speak of is the shard's.
    pub room_of :
        (k v : Bytes)
        → m + length k + length v < word
        → s.max_memory_bytes + length k + length v < word
    room_of k v h = omega (arith, sound.1.limit)

    pub process_del_keys-EndsSound :
        (keys : List Bytes)
        → AllOwn mine keys
        → EndsSound (λ n. n ≤ length keys) (process_del_keys F keys s)
    process_del_keys-EndsSound keys own =
        from_view (λ n. n ≤ length keys) (process_del_keys-Implements F keys sound.0)
          (del_all-Holds keys own sound.1) (del_all-le keys (view s))

    found-IsWellTyped :
        (k : Bytes) (now : TimePoint) → IsWellTyped (bulk_or_null (Spec.get k now (view s)).1)
    unfolding Spec.get IsWellTyped
    found-IsWellTyped k now = elim (Option-cases (entry_for k (view s).entries)) [
      | inl missing ↦ rw (missing, Spec.get) tt
      | inr (e, there) ↦ elim (Bool-cases (is_expired e.expire_at now)) [
        | inl late ↦ rw (there, late, Spec.get) tt
        | inr alive ↦
            rw (there, alive, Spec.get)
              (omega (
                arith,
                entry_for-total k (view s).entries {e = e} there,
                sound.0.consistent.used,
                sound.0.consistent.small,
              ))
      ]
    ]

    pub get-EndsSound :
        (k : Bytes) (now : TimePoint)
        → mine k ≡ true
        → EndsSound IsWellTyped (process_get F (k ∷ []) now s)
    unfolding process_get get_elem?
    get-EndsSound k now own =
        let (s', x, runs, sound', typed) =
          from_view (λ x. IsWellTyped (bulk_or_null x)) (get-Implements F sound.0 k now)
            (get-Holds k own sound.1 now) (found-IsWellTyped k now) in
        (s', bulk_or_null x, rw runs refl, sound', typed)

    left-IsInt64 : (k : Bytes) (now later : TimePoint) → IsInt64 (Spec.ttl k now later (view s)).1
    unfolding Spec.ttl
    left-IsInt64 k now later = elim (Option-cases (entry_for k (view s).entries)) [
      | inl missing ↦ rw (missing, Spec.ttl) (omega arith)
      | inr (e, there) ↦ elim (Bool-cases (is_expired e.expire_at now)) [
        | inl late ↦ rw (there, late, Spec.ttl) (omega arith)
        | inr alive ↦ elim (Option-cases e.expire_at) [
          | inl unset ↦ rw (there, alive, unset, Spec.ttl) (omega arith)
          | inr (t, timed) ↦
              let low : t < word =
                subst IsTimed timed
                  (entry_for-IsTimed k (view s).entries {e = e} sound.1.timed there) in
              rw (there, alive, timed, Spec.ttl) (omega (arith, low))
        ]
      ]
    ]

    pub ttl-EndsSound :
        (k : Bytes) (now later : TimePoint)
        → mine k ≡ true
        → EndsSound IsWellTyped (process_ttl F (k ∷ []) now later s)
    unfolding process_ttl get_elem? IsWellTyped
    ttl-EndsSound k now later own =
        let (s', x, runs, sound', typed) =
          from_view IsInt64 (ttl-Implements F sound.0 k now later)
            (ttl-Holds k own sound.1 now later) (left-IsInt64 k now later) in
        (s', resp RespType.integer (number x), rw runs refl, sound', typed)

    pub expire-EndsSound :
        (k count : Bytes) (now : TimePoint)
        → mine k ≡ true
        → InRange count now
        → EndsSound IsWellTyped (process_expire F (k ∷ count ∷ []) now s)
    unfolding process_expire get_elem? IsWellTyped
    expire-EndsSound k count now own in_range = elim (Option-cases (stoull count)) [
      | inl garbled ↦ (s, range_error, ground (arith, garbled), sound, tt)
      | inr (n, spelt) ↦
          let (t, e, low) = in_range n spelt in
          let (s', x, runs, sound', _) =
            from_view (λ _. Unit {0}) (expire-Implements F sound.0 k n now t e)
              (expire-Holds k own sound.1 t low) tt in
          (
            s',
            resp RespType.integer (number (pos (if x then 1 else 0))),
            ground (arith, spelt, runs),
            sound',
            (ground arith),
          )
    ]
