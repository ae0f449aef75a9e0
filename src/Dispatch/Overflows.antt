-- ===== src/Dispatch/Overflows.antt =====
-- A command on one key (src/commandExecutor.cpp) at the shard of the key, with no assumption on its
-- deadline: the signed overflow of the deadline is the only fault.
use mathlib.Core.Path.{subst}
use tinycache.Prelude.{
  ℕ, ◌+◌, ◌<◌, ◌≡◌, ◌⊎◌, arith, List, [], ◌∷◌, length, some, Option-cases, Bool, false, inl, inr,
  pos, Outcome, ok, fault, overflow, get_elem?, pos,
}
use tinycache.Prelude.Bytes.{Bytes, codes, word, bytes_discrete}
use tinycache.FlatMap.{FlatMap}
use tinycache.Resp.{RespType, RespValue, resp, number}
use tinycache.Resp.Emit.{IsWellTyped}
use tinycache.Shard
use tinycache.Shard.{LruShard}
use tinycache.Shard.Time.{TimePoint, add_seconds, deadline}
use tinycache.Shard.Timed.{add_seconds-cases}
use tinycache.Shard.Valid.{erase_linked-drop_linked, found_at, found-Linked}
use tinycache.Shard.Refines.{lookup_cases}
use tinycache.Command.{to_uppercase}
use tinycache.Executor.{syntax_error, process_expire, process_set, write}
use tinycache.Executor.Numbers.{stoull}
use tinycache.Dispatch.{KeyCommand, process_key}
use tinycache.Dispatch.Keys.{IsShaped, InRange, IsOwn, IsSound, EndsSound}
use tinycache.Dispatch.Commands.{process_key-EndsSound}

-- The sizes that a write to a shard with limit `m` adds up stay below 2 ^ 64.
abbrev pub IsRoomy : ℕ → KeyCommand → List Bytes → Type 0
IsRoomy m KeyCommand.set (k ∷ v ∷ more) = m + length k + length v < word
IsRoomy _ _ _ = Unit

-- A text spells seconds that make a deadline overflow.
abbrev IsLate : Bytes → TimePoint → Type 0
IsLate count now = (n : ℕ) × (stoull count ≡ some n) × (add_seconds now n ≡ fault overflow)

range_cases : (count : Bytes) (now : TimePoint) → now < word → InRange count now ⊎ IsLate count now
range_cases count now h = elim (Option-cases (stoull count)) [
  | inl garbled ↦ inl (λ n spelt. absurd (ground (arith, garbled, spelt)))
  | inr (n, spelt) ↦ elim (add_seconds-cases now n h) [
    | inr late ↦ inr (n, spelt, late)
    | inl (t, e, low) ↦ inl (λ n' spelt'.
        let same : n ≡ n' = ground (arith, spelt, spelt') in
        (t, subst (λ a. add_seconds now a ≡ ok t) same e, low))
  ]
]

module _ {M : Type 0} (F : FlatMap M) (m : ℕ) (mine : Bytes → Bool) where
  -- The run ends in a sound shard with a well-typed answer, or a deadline overflows.
  abbrev pub Overflows : Outcome (LruShard M × RespValue) → Type 0
  Overflows r = EndsSound F m mine IsWellTyped r ⊎ (r ≡ fault overflow)

  module _ {s : LruShard M} (sound : IsSound F m mine s) where
    expire_late :
        (k : Bytes) (n : ℕ) (now : TimePoint)
        → add_seconds now n ≡ fault overflow
        → (Shard.expire F k n now s ≡ ok (s, false)) ⊎ (Shard.expire F k n now s ≡ fault overflow)
    unfolding Shard.expire
    expire_late k n now late = elim (lookup_cases F sound.0 k) [
      | inl (gone, absent, missing) ↦ inl (ground (arith, gone))
      | inr (node, found, hit, seen) ↦
          let c = sound.0.consistent in
          inr (
            ground (
              arith,
              hit,
              late,
              found_at F c k found,
              erase_linked-drop_linked s.expire_map node (found-Linked F c k found),
            ))
    ]

    process_expire-Overflows :
        (k count : Bytes) (now : TimePoint)
        → IsLate count now
        → Overflows (process_expire F (k ∷ count ∷ []) now s)
    unfolding process_expire get_elem? IsWellTyped
    process_expire-Overflows k count now (n, spelt, late) = elim (expire_late k n now late) [
      | inl missing ↦ inl (
        s,
        resp RespType.integer (number (pos 0)),
        ground (arith, spelt, missing),
        sound,
        omega arith,
      )
      | inr overflows ↦ inr (ground (arith, spelt, overflows))
    ]

    process_set-Overflows :
        (k v option count : Bytes) (now later : TimePoint)
        → IsLate count later
        → Overflows (process_set F (k ∷ v ∷ option ∷ count ∷ []) now later s)
    unfolding process_set write get_elem? Shard.set deadline IsWellTyped
    process_set-Overflows k v option count now later (n, spelt, late) =
        elim (bytes_discrete (to_uppercase option) (codes "EX")) [
          | no not_ex ↦ inl (s, syntax_error, ground (arith, not_ex), sound, tt)
          | yes ex ↦ inr (ground (arith, ex, spelt, late))
        ]

    -- Every command on a key of the shard ends in a sound shard, with a well-typed answer, or its
    -- deadline overflows.
    pub process_key-Overflows :
        (c : KeyCommand) (args : List Bytes) (now later : TimePoint)
        → IsShaped c args
        → IsOwn mine args
        → IsRoomy m c args
        → now < word
        → later < word
        → Overflows (process_key F c args now later s)
    unfolding process_key
    process_key-Overflows KeyCommand.set (k ∷ v ∷ option ∷ count ∷ []) now later shaped own room low
          low' =
        elim (range_cases count later low') [
          | inl in_range ↦ inl (
              process_key-EndsSound F m mine sound KeyCommand.set (k ∷ v ∷ option ∷ count ∷ []) now
                later shaped own (room, in_range))
          | inr late ↦ process_set-Overflows k v option count now later late
        ]
    process_key-Overflows KeyCommand.expire (k ∷ count ∷ []) now later shaped own room low low' =
        elim (range_cases count now low) [
          | inl in_range ↦ inl (
              process_key-EndsSound F m mine sound KeyCommand.expire (k ∷ count ∷ []) now later
                shaped own in_range)
          | inr late ↦ process_expire-Overflows k count now late
        ]
    process_key-Overflows KeyCommand.set (k ∷ v ∷ []) now later shaped own room low low' =
        inl (
          process_key-EndsSound F m mine sound KeyCommand.set (k ∷ v ∷ []) now later shaped own
            room)
    process_key-Overflows KeyCommand.set (k ∷ v ∷ option ∷ []) now later shaped own room low low' =
        inl (
          process_key-EndsSound F m mine sound KeyCommand.set (k ∷ v ∷ option ∷ []) now later shaped
            own room)
    process_key-Overflows KeyCommand.get (k ∷ []) now later shaped own room low low' =
        inl (process_key-EndsSound F m mine sound KeyCommand.get (k ∷ []) now later shaped own tt)
    process_key-Overflows KeyCommand.ttl (k ∷ []) now later shaped own room low low' =
        inl (process_key-EndsSound F m mine sound KeyCommand.ttl (k ∷ []) now later shaped own tt)
    process_key-Overflows c args now later shaped own room low low' = absurd shaped
