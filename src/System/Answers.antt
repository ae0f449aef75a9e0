-- ===== src/System/Answers.antt =====
-- What the system of shards and sessions (src/commandExecutor.cpp, src/shardPool.cpp) comes to.
use mathlib.Core.Path.{subst}
use native.Mathlib.Nat.{mul-le-mul_right}
use tinycache.Prelude
use tinycache.Prelude.{
  ◌*◌, ◌%◌, ℕ, suc, ◌-◌, ◌==◌, ◌<◌, ◌≤◌, ◌≡◌, refl, sym, ap, ◌∙◌, arith, Bool, Bool-cases, true,
  false, Option, none, some, ok, inl, inr, List, get_elem?, get_elem?-append, get_elem?-set_self,
  get_elem?-set_ne, get_elem?-lt, if◌then◌else◌,
}
use tinycache.Prelude.Bytes.{Bytes, word}
use tinycache.FlatMap.{FlatMap}
use tinycache.Resp.{RespValue}
use tinycache.Shard.{Stats}
use tinycache.Shard.Time.{TimePoint}
use tinycache.Shard.Spec.{Entry, entry_for}
use tinycache.Shard.Valid.{IsValid, view}
use tinycache.Pool.{Worker, at_least_one}
use tinycache.Router.{get_shard_index}
use tinycache.Dispatch.{Task, finished, summing, index_of, step}
use tinycache.Dispatch.Sound.{mine, IsTimely, IsSum, IsTask, no_steps_left, steps_left}
use tinycache.Dispatch.Progress.{step-Advances}
use tinycache.System.{
  Client, System, submitted, advanced, swept, Run, here, then_step, steps_of, on_thread_of,
  new_system,
}
use tinycache.System.Safety.{IsSystem, Run-IsSystem, new_pool-IsPool}

sum_exact :
    (m n i : ℕ) (sums : Stats)
    → i ≤ n
    → n * m < word
    → sums.max_memory_bytes ≡ (i * m) % word
    → sums.max_memory_bytes ≡ i * m
sum_exact m n i sums low small limit =
    let less : i * m ≤ n * m = mul-le-mul_right m low in omega (arith, less, limit)

module _ {M : Type 0} (F : FlatMap M) (hash : Bytes → ℕ) (m n : ℕ) where
  -- Where client `j` stands after a run.
  abbrev Stands : ℕ → Client → ℕ → System M → Type 0
  Stands j c steps sys =
      (c' : Client) × (get_elem? sys.clients j ≡ some c')
      × (steps_left n c'.task ≡ steps_left n c.task - steps)

  Run-Stands :
      {sys sys' : System M}
      → IsSystem F hash m n sys
      → (run : Run F hash m n sys sys') → (j : ℕ) (c : Client) → get_elem? sys.clients j ≡ some c
      → Stands j c (steps_of F hash m n j run) sys'
  unfolding steps_of
  Run-Stands sound here j c there = (c, there, omega arith)
  Run-Stands sound (then_step {sys = mid} run (submitted {t = t} home cmd low arity sized runs)) j c
        there =
      let (c', there', left) = Run-Stands sound run j c there in
      (c', get_elem?-append mid.clients _ j there', left)
  Run-Stands sound (then_step {sys = mid} run (swept i now low runs)) j c there =
      Run-Stands sound run j c there
  Run-Stands sound (then_step {sys = mid} run (advanced {t = t} i d now later at_i timely runs)) j c
        there =
      let (c', there', left) = Run-Stands sound run j c there in
      let now_sound = Run-IsSystem F hash m n sound run in
      elim (Bool-cases (i == j)) [
        | inr other ↦ (
          c',
          get_elem?-set_ne mid.clients i j (record d { task = t }) (ground (arith, other)) ∙ there',
          rw other left,
        )
        | inl same ↦
            let is : i ≡ j = ground (arith, same) in
            let it : d ≡ c' = cc in
            let (ws', t', runs', _, _, less, _) =
              step-Advances F m n (index_of hash n) (on_thread_of d.home) d.task now later
                now_sound.pool (now_sound.tasks i d at_i) timely in
            let is_task : t' ≡ t = ground (arith, runs, runs') in
            let written =
              get_elem?-set_self mid.clients i (record d { task = t })
                (get_elem?-lt mid.clients i at_i) in
            let before : steps_left n d.task ≡ steps_left n c.task - steps_of F hash m n j run =
              rw it left in
            let after : steps_left n t ≡ steps_left n d.task - 1 = rw (sym is_task) less in
            (
              record d { task = t },
              ap (λ a. get_elem? (Prelude.set mid.clients i (record d { task = t })) a) (sym is)
                  ∙ written,
              rw same (omega (arith, before, after)),
            )
      ]

  -- From a state with sound shards and tasks, in any run in which a client takes as many steps as its
  -- task has left, whatever other clients and the expiration loops do in between, it has its answer.
  pub Run-answers :
      {sys sys' : System M}
      → IsSystem F hash m n sys
      → (run : Run F hash m n sys sys') → (j : ℕ) (c : Client) → get_elem? sys.clients j ≡ some c
      → steps_left n c.task ≤ steps_of F hash m n j run
      → (home : ℕ) × (v : RespValue) × (get_elem? sys'.clients j
          ≡ some (record { home = home; task = finished v }))
  Run-answers sound run j c there enough =
      let (c', there', left) = Run-Stands sound run j c there in
      let (v, done) = no_steps_left n c'.task (omega (arith, left)) in
      (c'.home, v, there' ∙ ap (λ t. some (record { home = c'.home; task = t })) done)

  -- From a state with sound shards and tasks, whatever the clients and the expiration loops do, every
  -- client with timely readings of the clock can take its next step: the step has no fault, and one
  -- step less is left.
  pub Run-advances :
      {sys sys' : System M}
      → IsSystem F hash m n sys
      → Run F hash m n sys sys'
      → (j : ℕ) (c : Client) (now later : TimePoint) → get_elem? sys'.clients j ≡ some c
      → IsTimely m c.task now later
      → (ws : List (Worker M)) × (t : Task) × (step
            (on_thread_of c.home)
            F
            c.task
            now
            later
            sys'.workers
          ≡ ok (ws, t))
        × (steps_left n t ≡ steps_left n c.task - 1)
  Run-advances sound run j c now later there timely =
      let now_sound = Run-IsSystem F hash m n sound run in
      let (ws, t, runs, _, _, less, _) =
        step-Advances F m n (index_of hash n) (on_thread_of c.home) c.task now later now_sound.pool
          (now_sound.tasks j c there) timely in
      (ws, t, runs, less)

module _ {M : Type 0} (F : FlatMap M) (hash : Bytes → ℕ) (m shard_count : ℕ) (affinity : Bool) where
  pub new_system-IsSystem :
      m < word → IsSystem F hash m (at_least_one shard_count) (new_system F shard_count m affinity)
  unfolding get_elem?
  new_system-IsSystem small = record {
    pool =
        new_pool-IsPool F m (index_of hash (at_least_one shard_count)) shard_count affinity small;
    tasks = λ j c there. absurd (ground (arith, there));
  }

  -- In every state that a new pool of shards with a limit below 2 ^ 64 comes to, whatever order the
  -- steps of the clients and the expiration loops have, every shard is valid and only holds keys that
  -- the router sends to it.
  pub Run-home :
      {sys : System M}
      → m < word
      → Run F hash m (at_least_one shard_count) (new_system F shard_count m affinity) sys
      → (i : ℕ) (w : Worker M) → get_elem? sys.workers i ≡ some w
      → IsValid F w.shard
        × ((k : Bytes) (e : Entry)
            → entry_for k (view w.shard).entries ≡ some e
            → get_shard_index hash k (at_least_one shard_count) ≡ i)
  Run-home small run i w there =
      let sound =
        Run-IsSystem F hash m (at_least_one shard_count) (new_system-IsSystem small) run in
      let (valid, holds) = sound.pool.sound i w there in
      (
        valid,
        λ k e found. elim (Bool-cases (mine (index_of hash (at_least_one shard_count)) i k)) [
          | inl own ↦ ground (arith, own)
          | inr other ↦ absurd (ground (arith, found, holds.home k other))
        ],
      )

  -- Suppose the limits of all shards together stay below 2 ^ 64. In every state that a new pool comes
  -- to, whatever order the steps have, INFO has summed up shards of the pool only; the limit it has so
  -- far is their number times the limit of one, and the bytes in use are at most that.
  pub Run-sums :
      {sys : System M}
      → m < word
      → at_least_one shard_count * m < word
      → Run F hash m (at_least_one shard_count) (new_system F shard_count m affinity) sys
      → (j : ℕ) (c : Client) (i : ℕ) (sums : Stats) → get_elem? sys.clients j ≡ some c
      → c.task ≡ summing i sums
      → (i ≤ at_least_one shard_count)
        × (sums.max_memory_bytes ≡ i * m)
        × (sums.used_payload_bytes ≤ sums.max_memory_bytes)
  Run-sums small all_small run j c i sums there at_sums =
      let n = at_least_one shard_count in
      let sound = Run-IsSystem F hash m n (new_system-IsSystem small) run in
      let (low, used, limit, _) : IsSum m n i sums =
        subst (IsTask m n (index_of hash n) (on_thread_of c.home)) at_sums
          (sound.tasks j c there) in
      let exact = sum_exact m n i sums low all_small limit in
      (low, exact, omega (arith, exact, used))
