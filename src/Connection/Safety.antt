-- ===== src/Connection/Safety.antt =====
-- A connection (src/session.cpp) to a pool that no one else uses, whatever bytes come.
use tinycache.Prelude.{
  ℕ, suc, ok, ◌+◌, ◌<◌, arith, List, [], some, inl, inr, Outcome, Fares, ends, overflows, ◌>>=◌,
}
use tinycache.Prelude.Bytes.{Bytes, word}
use tinycache.FlatMap.{FlatMap}
use tinycache.Resp.{RespValue}
use tinycache.Resp.Emit.{IsWellTyped}
use tinycache.Shard.Time.{TimePoint}
use tinycache.Pool.{Worker}
use tinycache.Dispatch.{index_of}
use tinycache.Dispatch.Sound.{IsPool}
use tinycache.Dispatch.Safe.{EndsOrOverflows, serve-EndsOrOverflows}
use tinycache.System.{on_thread_of}
use tinycache.Session.{Event, no_effects, run}
use tinycache.Session.Fine.{IsStanding, Delivers}
use tinycache.Session.Safety.{run-Fares}
use tinycache.Command.{Command}
use tinycache.Connection.{executor, timed}

module _ {M : Type 0} (F : FlatMap M) (hash : Bytes → ℕ) (m n home limit : ℕ)
    (clock : ℕ → TimePoint × TimePoint)
    (low : (i : ℕ) → ((clock i).0 < word) × ((clock i).1 < word)) (room : m + limit + limit < word)
    (inside : home < n) where
  abbrev execute : Command → ℕ × List (Worker M) → Outcome ((ℕ × List (Worker M)) × RespValue)
  execute = timed (executor F hash m n home) clock

  -- The pool is sound.
  abbrev pub Stays : ℕ × List (Worker M) → Type 0
  Stays s = IsPool F m n (index_of hash n) s.1

  served :
      (i : ℕ) (r : Outcome (List (Worker M) × RespValue))
      → EndsOrOverflows F
          (on_thread_of home)
          (clock i).0
          (clock i).1
          (low i).0
          (low i).1
          m
          limit
          n
          room
          (index_of hash n)
          r
      → Fares
          (λ (x : (ℕ × List (Worker M)) × RespValue). Stays x.0 × IsWellTyped x.1)
          (r >>= λ x. ok ((suc i, x.0), x.1))
  served i r (inl (ws, v, runs, pool, typed)) = rw runs (ends (pool, typed))
  served i r (inr late) = rw late overflows

  -- Whatever bytes come to a session, no more at a time than it has room for, it has no fault but the
  -- signed overflow of a deadline: no exception of a variant, no dangling iterator, no shard touched off
  -- its thread. Until then it waits with its buffer below the limit or has ended, all that it wrote are
  -- texts of well-typed values, and the pool is sound. The session is alone on a sound pool that has its
  -- home shard, each command takes two readings of the clock, any of 64 bits, and the limit of a shard
  -- with twice the limit of the session stays below 2 ^ 64.
  pub run_safe :
      (events : List Event) (ws : List (Worker M))
      → IsPool F m n (index_of hash n) ws
      → Delivers limit (timed (executor F hash m n home) clock) events [] (no_effects (0, ws))
      → Fares
          (IsStanding (λ (s : ℕ × List (Worker M)). IsPool F m n (index_of hash n) s.1) limit)
          (run (timed (executor F hash m n home) clock) limit events [] (no_effects (0, ws)))
  run_safe events ws pool delivered =
      run-Fares execute Stays limit (omega (arith, room))
        (λ cmd s arity short sound. served s.0 _ (
          serve-EndsOrOverflows F (on_thread_of home) (clock s.0).0 (clock s.0).1 (low s.0).0
            (low s.0).1 m limit n room hash (some home) cmd s.1 (omega (arith, inside)) arity short
            inside sound))
        events [] (no_effects (0, ws)) (omega arith) (pool, tt) delivered
