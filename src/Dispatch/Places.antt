-- ===== src/Dispatch/Places.antt =====
-- Where `execute` of src/commandExecutor.cpp sends a command on one key.
use tinycache.Dispatch.Home.{local_at}
use tinycache.Prelude.{
  ℕ, ◌<◌, ◌≡◌, refl, sym, arith, ◌==◌, ◌&&◌, Bool, true, Bool-cases, List, [], ◌∷◌, length, Option,
  none, some, inl, inr, if◌then◌else◌,
}
use tinycache.Prelude.Bytes.{Bytes}
use tinycache.Pool.{Place, local_shard, run_on_shard}
use tinycache.Command.{CommandType, spec_for}
use tinycache.Command.Shape.{HasArity}
use tinycache.Router.{get_shard_index}
use tinycache.Dispatch.{KeyCommand, uses_first, place_of, index_of}
use tinycache.Dispatch.Keys.{IsShaped, AllOwn}
use tinycache.Dispatch.Sound.{mine, target, IsPlace}

-- The type of a command on one key.
abbrev pub type_of : KeyCommand → CommandType
type_of KeyCommand.get = CommandType.get
type_of KeyCommand.set = CommandType.set
type_of KeyCommand.expire = CommandType.expire
type_of KeyCommand.ttl = CommandType.ttl

-- The bounds of `kSpecs` are those that the commands on one key rely on.
pub key_shape :
    (c : KeyCommand) (args : List Bytes)
    → HasArity (type_of c) (length args)
    → (key : Bytes) × (more : List Bytes) × (args ≡ key ∷ more) × IsShaped c (key ∷ more)
unfolding spec_for
key_shape KeyCommand.get (k ∷ []) h = (k, [], refl, tt)
key_shape KeyCommand.get [] (spec, e, low, high) = absurd (ground (arith, e))
key_shape KeyCommand.get (k ∷ v ∷ args) (spec, e, low, high) = absurd (ground (arith, e))
key_shape KeyCommand.ttl (k ∷ []) h = (k, [], refl, tt)
key_shape KeyCommand.ttl [] (spec, e, low, high) = absurd (ground (arith, e))
key_shape KeyCommand.ttl (k ∷ v ∷ args) (spec, e, low, high) = absurd (ground (arith, e))
key_shape KeyCommand.expire (k ∷ v ∷ []) h = (k, v ∷ [], refl, tt)
key_shape KeyCommand.expire [] (spec, e, low, high) = absurd (ground (arith, e))
key_shape KeyCommand.expire (k ∷ []) (spec, e, low, high) = absurd (ground (arith, e))
key_shape KeyCommand.expire (k ∷ v ∷ x ∷ args) (spec, e, low, high) = absurd (ground (arith, e))
key_shape KeyCommand.set (k ∷ v ∷ []) h = (k, v ∷ [], refl, tt)
key_shape KeyCommand.set (k ∷ v ∷ option ∷ []) h = (k, v ∷ option ∷ [], refl, tt)
key_shape KeyCommand.set (k ∷ v ∷ option ∷ count ∷ []) h = (k, v ∷ option ∷ count ∷ [], refl, tt)
key_shape KeyCommand.set [] (spec, e, low, high) = absurd (ground (arith, e))
key_shape KeyCommand.set (k ∷ []) (spec, e, low, high) = absurd (ground (arith, e))
key_shape KeyCommand.set (k ∷ v ∷ x ∷ y ∷ z ∷ args) (spec, e, low, high) =
    absurd (ground (arith, e))

module _ (hash : Bytes → ℕ) (on_thread : ℕ → Bool) (n : ℕ) (some_shard : 0 < n) where
  pub place_of-IsPlace :
      (home : Option ℕ) (i : ℕ)
      → i < n
      → IsPlace on_thread n (place_of (local_at on_thread home) i)
        × (target (place_of (local_at on_thread home) i) ≡ i)
  place_of-IsPlace none i h = ((h, tt), refl)
  place_of-IsPlace (some home) i h = elim (Bool-cases (on_thread home)) [
    | inl here ↦ elim (Bool-cases (i == home)) [
      | inl same ↦
          let is : home ≡ i = ground (arith, same) in
          let there : on_thread i ≡ true = rw (sym is) here in rw (here, same) ((h, there), refl)
      | inr other ↦ rw (here, other) ((h, tt), refl)
    ]
    | inr away ↦ rw away ((h, tt), refl)
  ]

  module _ (one : n ≡ 1) where
    pub index-first : (key : Bytes) → index_of hash n key ≡ 0
    unfolding get_shard_index
    index-first key = rw one refl

    pub first-AllOwn : (keys : List Bytes) → AllOwn (mine (index_of hash n) 0) keys
    first-AllOwn [] = tt
    first-AllOwn (key ∷ keys) = (rw (index-first key) refl, first-AllOwn keys)

    -- The place that a command has in a pool of one shard.
    abbrev pub first_place : Option ℕ → Place
    first_place home = if uses_first on_thread home then local_shard 0 else run_on_shard 0

    pub first_place-IsPlace :
        (home : Option ℕ) → IsPlace on_thread n (first_place home) × (target (first_place home) ≡ 0)
    first_place-IsPlace none = ((omega arith, tt), refl)
    first_place-IsPlace (some home) = elim (Bool-cases ((home == 0) && on_thread 0)) [
      | inl here ↦ rw here ((omega arith, ground (arith, here)), refl)
      | inr away ↦ rw away ((omega arith, tt), refl)
    ]
