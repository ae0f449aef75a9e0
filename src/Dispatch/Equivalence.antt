-- ===== src/Dispatch/Equivalence.antt =====
-- `execute_single_shard` of src/commandExecutor.cpp against `execute_multi_shard` in a pool of one shard.
use tinycache.Prelude
use tinycache.Prelude.{
  ℕ, ◌<◌, ◌≡◌, refl, sym, ap, ◌∙◌, arith, ◌==◌, ◌&&◌, Bool, true, false, Bool-cases, List, [], ◌∷◌,
  ◌++◌, length, append_assoc, append-nil, Option, none, some, inl, inr, Outcome, ok, ◌>>=◌,
  get_elem?, if◌then◌else◌,
}
use tinycache.Prelude.Bytes.{Bytes}
use tinycache.Pool.{Place, local_shard, run_on_shard, replicate}
use tinycache.Command.{CommandType, spec_for}
use tinycache.Command.Shape.{HasArity}
use tinycache.Router.{get_shard_index}
use tinycache.Dispatch.{
  KeyCommand, on_key, push_key, group_keys, remote_groups, all_groups, uses_first, place_of,
  index_of, to_shard, execute_single_shard, execute_multi_shard,
}
use tinycache.Dispatch.Places.{type_of, key_shape}
use tinycache.Dispatch.{switch_multi}
use tinycache.Prelude.{◌∙◌}
use tinycache.Dispatch.Home.{IsHome, local_at, execute_multi_shard-switch_multi}

module _ (on_thread : ℕ → Bool) (hash : Bytes → ℕ) where
  abbrev the_place : Option ℕ → Place
  the_place home = if uses_first on_thread home then local_shard 0 else run_on_shard 0

  the_place-place_of : (home : Option ℕ) → the_place home ≡ place_of (local_at on_thread home) 0
  the_place-place_of none = refl
  the_place-place_of (some home) = elim (Bool-cases (home == 0)) [
    | inl zeroth ↦ let is : home ≡ 0 = ground (arith, zeroth) in rw is (ground arith)
    | inr other ↦ ground (arith, other)
  ]

  to_shard-first :
      (c : KeyCommand) (args : List Bytes) (home : Option ℕ)
      → HasArity (type_of c) (length args)
      → ok (on_key (the_place home) c args) ≡ to_shard hash 1 c args (local_at on_thread home)
  unfolding to_shard get_elem? get_shard_index
  to_shard-first c args home h =
      let (key, more, shape, shaped) = key_shape c args h in
      rw shape (ap (λ (p : Place). ok (on_key p c (key ∷ more))) (the_place-place_of home))

  group_keys-first :
      (keys g : List Bytes) → group_keys (index_of hash 1) keys (g ∷ []) ≡ ok ((g ++ keys) ∷ [])
  unfolding group_keys push_key get_elem? Prelude.set get_shard_index
  group_keys-first [] g = ap (λ l. ok (l ∷ [])) (sym (append-nil g))
  group_keys-first (key ∷ keys) g =
      group_keys-first keys (g ++ key ∷ []) ∙ ap (λ l. ok (l ∷ [])) (append_assoc g (key ∷ []) keys)

  all_groups-first :
      (home : Option ℕ) (key : Bytes) (keys : List Bytes)
      → IsHome 1 home
      → all_groups (local_at on_thread home) ((key ∷ keys) ∷ [])
        ≡ ok ((the_place home, key ∷ keys) ∷ [])
  unfolding all_groups remote_groups get_elem? Prelude.set
  all_groups-first none key keys h = refl
  all_groups-first (some home) key keys h = elim (Bool-cases (on_thread home)) [
    | inl here ↦
        let is : home ≡ 0 = omega (arith, h) in
        let there : on_thread 0 ≡ true = rw (sym is) here in rw is (rw there refl)
    | inr away ↦ elim (Bool-cases (home == 0)) [
      | inl zeroth ↦
          let is : home ≡ 0 = ground (arith, zeroth) in
          let there : on_thread 0 ≡ false = rw (sym is) away in rw is (rw there refl)
      | inr other ↦ rw (away, other) refl
    ]
  ]

  execute_single_shard-switch_multi :
      (t : CommandType) (args : List Bytes) (home : Option ℕ)
      → HasArity t (length args)
      → IsHome 1 home
      → execute_single_shard on_thread t args home
        ≡ switch_multi hash 1 t args (local_at on_thread home)
  unfolding execute_single_shard switch_multi replicate spec_for
  execute_single_shard-switch_multi CommandType.get args home h at_home =
      to_shard-first KeyCommand.get args home h
  execute_single_shard-switch_multi CommandType.set args home h at_home =
      to_shard-first KeyCommand.set args home h
  execute_single_shard-switch_multi CommandType.expire args home h at_home =
      to_shard-first KeyCommand.expire args home h
  execute_single_shard-switch_multi CommandType.ttl args home h at_home =
      to_shard-first KeyCommand.ttl args home h
  execute_single_shard-switch_multi CommandType.del [] home (spec, e, low, high) at_home =
      absurd (ground (arith, e))
  execute_single_shard-switch_multi CommandType.del (key ∷ keys) home h at_home =
      rw (group_keys-first (key ∷ keys) [], all_groups-first home key keys at_home) refl
  execute_single_shard-switch_multi CommandType.info args home h at_home = refl
  execute_single_shard-switch_multi CommandType.ping args home h at_home = refl
  execute_single_shard-switch_multi CommandType.command args home h at_home = refl
  execute_single_shard-switch_multi CommandType.config args home h at_home = refl
  execute_single_shard-switch_multi CommandType.unknown args home h at_home = refl

  -- With one shard, which is the home shard of the session if it has one, the short dispatch makes the
  -- same task of every accepted command as the one that hashes the keys, sorts them and looks for the
  -- local shard, whatever thread the caller is on.
  pub execute_single_shard-execute_multi_shard :
      (t : CommandType) (args : List Bytes) (home : Option ℕ)
      → HasArity t (length args)
      → IsHome 1 home
      → execute_single_shard on_thread t args home
        ≡ execute_multi_shard on_thread hash 1 t args home
  execute_single_shard-execute_multi_shard t args home h at_home =
      execute_single_shard-switch_multi t args home h at_home
      ∙ sym (execute_multi_shard-switch_multi on_thread 1 hash t args home at_home)
