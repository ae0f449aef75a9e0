-- ===== src/Dispatch/Sound.antt =====
-- Sound pools of src/shardPool.cpp and sound tasks of src/commandExecutor.cpp: the shards hold their
-- own keys, and a task takes a key to its own shard.
use mathlib.Core.Path.{subst}
use tinycache.Prelude
use tinycache.Prelude.{
  ◌≤◌, ◌*◌, ◌%◌, ◌^◌, ℕ, suc, ◌+◌, ◌-◌, ◌<◌, ◌≤◌, ◌≡◌, ◌≢◌, refl, sym, ap, ◌∙◌, arith, ltb, ◌==◌,
  Bool, true, Bool-cases, List, [], ◌∷◌, length, Option, none, some, inl, inr, Outcome, ok, ◌>>=◌,
  get_elem?, length-set, get_elem?-some, get_elem?-set_self, get_elem?-set_ne, if◌then◌else◌,
}
use tinycache.Resp.{RespValue}
use tinycache.Resp.Emit.{IsWellTyped}
use tinycache.Executor.Typed.{IsStats}
use tinycache.Prelude.Bytes.{Bytes, word}
use tinycache.FlatMap.{FlatMap}
use tinycache.Shard
use tinycache.Shard.{LruShard, Stats}
use tinycache.Shard.Time.{TimePoint}
use tinycache.Pool.{Worker, Place, local_shard, run_on_shard, on_worker, at_place}
use tinycache.Dispatch.{read_stats, Task, finished, on_key, deleting, summing}
use tinycache.Dispatch.Keys.{IsShaped, IsOwn, AllOwn, IsAllowed, IsSound, EndsSound}

-- Whether shard `i` is that of a key.
abbrev pub mine : (Bytes → ℕ) → ℕ → Bytes → Bool
mine index i key = index key == i

abbrev pub target : Place → ℕ
target (local_shard i) = i
target (run_on_shard i) = i

-- A reference to a shard is taken on the thread of the shard.
abbrev pub IsReached : (ℕ → Bool) → Place → Type 0
IsReached on_thread (local_shard i) = on_thread i ≡ true
IsReached on_thread (run_on_shard i) = Unit

pub at_place-target :
    {M R : Type 0} (on_thread : ℕ → Bool) (place : Place)
    (f : LruShard M → Outcome (LruShard M × R)) (ws : List (Worker M))
    → IsReached on_thread place
    → at_place on_thread place f ws ≡ on_worker (target place) f ws
unfolding at_place
at_place-target on_thread (local_shard i) f ws here = rw here refl
at_place-target on_thread (run_on_shard i) f ws here = refl

-- The place is that of a shard of the pool, and on the caller's thread if it is reached directly.
abbrev pub IsPlace : (ℕ → Bool) → ℕ → Place → Type 0
IsPlace on_thread n place = (target place < n) × IsReached on_thread place

abbrev pub AllCalls : (Bytes → ℕ) → (ℕ → Bool) → ℕ → List (Place × List Bytes) → Type 0
AllCalls index on_thread n [] = Unit
AllCalls index on_thread n ((place, keys) ∷ calls) =
    IsPlace on_thread n place
    × AllOwn (mine index (target place)) keys
    × AllCalls index on_thread n calls

-- The sums of INFO over the first `i` shards of `n` with limit `m`, which are 64 bits wide.
abbrev pub IsSum : ℕ → ℕ → ℕ → Stats → Type 0
IsSum m n i sums =
    (i ≤ n)
    × (sums.used_payload_bytes ≤ i * m)
    × (sums.max_memory_bytes ≡ (i * m) % word)
    × IsStats sums

-- The keys that calls have together.
abbrev pub key_count : List (Place × List Bytes) → ℕ
key_count [] = 0
key_count ((place, keys) ∷ calls) = length keys + key_count calls

-- The calls of a task go where they may, and its answer is or will be a value that can be printed.
abbrev pub IsTask : ℕ → ℕ → (Bytes → ℕ) → (ℕ → Bool) → Task → Type 0
IsTask m n index on_thread (finished v) = IsWellTyped v
IsTask m n index on_thread (on_key place c args) =
    IsPlace on_thread n place × IsShaped c args × IsOwn (mine index (target place)) args
IsTask m n index on_thread (deleting calls count) =
    AllCalls index on_thread n calls × (count + key_count calls < 2 ^ 63)
IsTask m n index on_thread (summing i sums) = IsSum m n i sums

-- The next step of a task stays in the range of the sizes and the clock, for shards with limit `m`.
abbrev pub IsTimely : ℕ → Task → TimePoint → TimePoint → Type 0
IsTimely m (on_key place c args) now later = IsAllowed m c args now later
IsTimely m _ now later = Unit

-- The steps that are left until a task has its answer, in a pool of `n` shards.
abbrev pub steps_left : ℕ → Task → ℕ
steps_left n (finished v) = 0
steps_left n (on_key place c args) = 1
steps_left n (deleting calls count) = suc (length calls)
steps_left n (summing i sums) = suc (n - i)

pub no_steps_left : (n : ℕ) (t : Task) → steps_left n t ≡ 0 → (v : RespValue) × (t ≡ finished v)
no_steps_left n (finished v) h = (v, refl)
no_steps_left n (on_key place c args) h = absurd (omega arith)
no_steps_left n (deleting calls count) h = absurd (omega arith)
no_steps_left n (summing i sums) h = absurd (omega arith)

module _ {M : Type 0} (F : FlatMap M) (m n : ℕ) (index : Bytes → ℕ) where
  -- `n` valid shards with limit `m`, each of which only holds keys of its own.
  pub record IsPool (ws : List (Worker M)) : Type 0 where
    pub size : length ws ≡ n
    pub sound :
        (i : ℕ) (w : Worker M) → get_elem? ws i ≡ some w → IsSound F m (mine index i) w.shard

  -- The run ends in a sound pool, with a result as `P` wants it.
  abbrev pub EndsPool : {R : Type 0} → (R → Type 0) → Outcome (List (Worker M) × R) → Type 0
  EndsPool {R} P r = (ws' : List (Worker M)) × (x : R) × (r ≡ ok (ws', x)) × IsPool ws' × P x

  module _ {ws : List (Worker M)} (pool : IsPool ws) where
    pub set-IsPool :
        (i : ℕ) (w : Worker M)
        → i < n
        → IsSound F m (mine index i) w.shard
        → IsPool (Prelude.set ws i w)
    set-IsPool i w h sound = record {
      size = length-set ws i w ∙ pool.size;
      sound = λ j w' e. elim (Bool-cases (i == j)) [
        | inl same ↦
            let here : i ≡ j = ground (arith, same) in
            let written = get_elem?-set_self ws i w (rw pool.size h) in
            let it : w ≡ w' = cc in
            subst (λ a. IsSound F m (mine index a) w'.shard) here
              (subst (λ u. IsSound F m (mine index i) u.shard) it sound)
        | inr other ↦ pool.sound j w' (sym (get_elem?-set_ne ws i j w (ground arith)) ∙ e)
      ];
    }

    -- What a function does to the shard of one worker.
    pub at_worker-EndsPool :
        {R : Type 0} (P : R → Type 0) (i : ℕ) (w : Worker M)
        (f : LruShard M → Outcome (LruShard M × R))
        → i < n
        → get_elem? ws i ≡ some w
        → EndsSound F m (mine index i) P (f w.shard)
        → EndsPool P (on_worker i f ws)
    unfolding on_worker
    at_worker-EndsPool P i w f h there (s', x, runs, sound, typed) =
        let w' = record w { shard = s' } in
        (Prelude.set ws i w', x, ground (arith, there, runs), set-IsPool i w' h sound, typed)

    pub on_worker-EndsPool :
        {R : Type 0} (P : R → Type 0) (i : ℕ) (f : LruShard M → Outcome (LruShard M × R))
        → i < n
        → ((s : LruShard M) → IsSound F m (mine index i) s → EndsSound F m (mine index i) P (f s))
        → EndsPool P (on_worker i f ws)
    on_worker-EndsPool P i f h ends =
        let (w, there) = get_elem?-some ws i (rw pool.size h) in
        at_worker-EndsPool P i w f h there (ends w.shard (pool.sound i w there))

    pub at_place-EndsPool :
        {R : Type 0} (P : R → Type 0) (on_thread : ℕ → Bool) (place : Place)
        (f : LruShard M → Outcome (LruShard M × R))
        → IsPlace on_thread n place
        → ((s : LruShard M)
            → IsSound F m (mine index (target place)) s
            → EndsSound F m (mine index (target place)) P (f s))
        → EndsPool P (at_place on_thread place f ws)
    at_place-EndsPool P on_thread place f (h, here) ends =
        rw (at_place-target on_thread place f ws here)
          (on_worker-EndsPool P (target place) f h ends)

    pub read_stats-EndsPool :
        (i : ℕ)
        → i < n
        → (ws' : List (Worker M)) × (x : Stats) × (on_worker i (read_stats F) ws ≡ ok (ws', x))
          × IsPool ws'
          × (x.used_payload_bytes ≤ m)
          × (x.max_memory_bytes ≡ m)
    unfolding on_worker Shard.get_stats
    read_stats-EndsPool i h =
        let (w, there) = get_elem?-some ws i (rw pool.size h) in
        let (valid, holds) = pool.sound i w there in
        (
          Prelude.set ws i (record w { shard = w.shard }),
          Shard.get_stats F w.shard,
          ground (arith, there),
          set-IsPool i (record w { shard = w.shard }) h (valid, holds),
          omega (arith, valid.bounded, holds.limit),
          holds.limit,
        )
