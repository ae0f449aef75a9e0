-- ===== src/Dispatch/Commands.antt =====
-- SET, and any command on one key (src/commandExecutor.cpp), at the shard of the key.
use tinycache.Prelude.{
  ℕ, ◌+◌, ◌<◌, ◌≡◌, refl, arith, List, [], ◌∷◌, length, Option, none, some, Option-cases, inl, inr,
  Bool, true, false, ok, get_elem?,
}
use tinycache.Prelude.Bytes.{Bytes, codes, word, bytes_discrete}
use tinycache.FlatMap.{FlatMap}
use tinycache.Shard.{LruShard}
use tinycache.Shard.Time.{TimePoint, deadline}
use tinycache.Shard.Timed.{IsTimed}
use tinycache.Shard.Valid.{view}
use tinycache.Shard.Home.{set-Holds}
use tinycache.Resp.Emit.{IsWellTyped}
use tinycache.Command.{to_uppercase}
use tinycache.Executor.{syntax_error, range_error, write, write_if, process_set}
use tinycache.Executor.Numbers.{stoull}
use tinycache.Executor.Answers.{write-Implements, write_if-Implements}
use tinycache.Dispatch.{KeyCommand, process_key}
use tinycache.Dispatch.Keys.{
  IsShaped, InRange, IsAllowed, IsOwn, set_if-Holds, set_if-IsWellTyped, IsSound, EndsSound,
  from_view, room_of, get-EndsSound, ttl-EndsSound, expire-EndsSound,
}

module _ {M : Type 0} (F : FlatMap M) (m : ℕ) (mine : Bytes → Bool) where
  module _ {s : LruShard M} (sound : IsSound F m mine s) where
    write-EndsSound :
        (k v : Bytes) (more : List Bytes) (expire_seconds : Option ℕ) (now : TimePoint)
        {t : Option TimePoint}
        → mine k ≡ true
        → m + length k + length v < word
        → deadline expire_seconds now ≡ ok t
        → IsTimed t
        → EndsSound F m mine IsWellTyped (write F k (k ∷ v ∷ more) expire_seconds now s)
    unfolding IsWellTyped
    write-EndsSound k v more expire_seconds now {t} own room in_range low =
        from_view F m mine IsWellTyped
          (write-Implements F sound.0 k v more expire_seconds now (room_of F m mine sound k v room)
            in_range)
          (set-Holds k own sound.1 v t low) tt

    write_if-EndsSound :
        (wanted : Bool) (k v : Bytes) (more : List Bytes) (now later : TimePoint)
        → mine k ≡ true
        → m + length k + length v < word
        → EndsSound F m mine IsWellTyped (write_if F wanted k (k ∷ v ∷ more) now later s)
    write_if-EndsSound wanted k v more now later own room =
        from_view F m mine IsWellTyped
          (write_if-Implements F sound.0 wanted k v more now later
            (room_of F m mine sound k v room))
          (set_if-Holds wanted k v now own sound.1) (set_if-IsWellTyped wanted k v now (view s))

    set_plain-EndsSound :
        (k v : Bytes) (now later : TimePoint)
        → mine k ≡ true
        → m + length k + length v < word
        → EndsSound F m mine IsWellTyped (process_set F (k ∷ v ∷ []) now later s)
    unfolding process_set get_elem? IsWellTyped deadline
    set_plain-EndsSound k v now later own room =
        let (s', x, runs, sound', typed) =
          write-EndsSound k v [] none later {t = none} own room refl tt in
        (s', x, ground (arith, runs), sound', typed)

    set_option-EndsSound :
        (k v option : Bytes) (now later : TimePoint)
        → mine k ≡ true
        → m + length k + length v < word
        → EndsSound F m mine IsWellTyped (process_set F (k ∷ v ∷ option ∷ []) now later s)
    unfolding process_set get_elem? IsWellTyped
    set_option-EndsSound k v option now later own room =
        elim (bytes_discrete (to_uppercase option) (codes "NX")) [
          | yes nx ↦
              let (s', x, runs, sound', typed) =
                write_if-EndsSound false k v (option ∷ []) now later own room in
              (s', x, ground (arith, nx, runs), sound', typed)
          | no not_nx ↦ elim (bytes_discrete (to_uppercase option) (codes "XX")) [
            | yes xx ↦
                let (s', x, runs, sound', typed) =
                  write_if-EndsSound true k v (option ∷ []) now later own room in
                (s', x, ground (arith, xx, runs), sound', typed)
            | no not_xx ↦ (s, syntax_error, ground (arith, not_nx, not_xx), sound, tt)
          ]
        ]

    set_deadline-EndsSound :
        (k v option count : Bytes) (now later : TimePoint)
        → mine k ≡ true
        → m + length k + length v < word
        → InRange count later
        → EndsSound F m mine IsWellTyped (process_set F (k ∷ v ∷ option ∷ count ∷ []) now later s)
    unfolding process_set get_elem? IsWellTyped deadline
    set_deadline-EndsSound k v option count now later own room in_range =
        elim (bytes_discrete (to_uppercase option) (codes "EX")) [
          | no not_ex ↦ (s, syntax_error, ground (arith, not_ex), sound, tt)
          | yes ex ↦ elim (Option-cases (stoull count)) [
            | inl garbled ↦ (s, range_error, ground (arith, ex, garbled), sound, tt)
            | inr (n, spelt) ↦
                let (t, e, low) = in_range n spelt in
                let (s', x, runs, sound', typed) =
                  write-EndsSound k v (option ∷ count ∷ []) (some n) later {t = some t} own room
                    (rw e refl) low in
                (s', x, ground (arith, ex, spelt, runs), sound', typed)
          ]
        ]

    -- Every command on a key of the shard ends without a fault, in a sound shard
    -- and with a well-typed answer.
    pub process_key-EndsSound :
        (c : KeyCommand) (args : List Bytes) (now later : TimePoint)
        → IsShaped c args
        → IsOwn mine args
        → IsAllowed m c args now later
        → EndsSound F m mine IsWellTyped (process_key F c args now later s)
    unfolding process_key
    process_key-EndsSound KeyCommand.get (k ∷ []) now later shaped own h =
        get-EndsSound F m mine sound k now own
    process_key-EndsSound KeyCommand.set (k ∷ v ∷ []) now later shaped own h =
        set_plain-EndsSound k v now later own h
    process_key-EndsSound KeyCommand.set (k ∷ v ∷ option ∷ []) now later shaped own h =
        set_option-EndsSound k v option now later own h
    process_key-EndsSound KeyCommand.set (k ∷ v ∷ option ∷ count ∷ []) now later shaped own h =
        set_deadline-EndsSound k v option count now later own h.0 h.1
    process_key-EndsSound KeyCommand.expire (k ∷ count ∷ []) now later shaped own h =
        expire-EndsSound F m mine sound k count now own h
    process_key-EndsSound KeyCommand.ttl (k ∷ []) now later shaped own h =
        ttl-EndsSound F m mine sound k now later own
    process_key-EndsSound c args now later shaped own h = absurd shaped
