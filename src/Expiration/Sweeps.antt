-- ===== src/Expiration/Sweeps.antt =====
-- A round of `cleaning_loop` (src/expirationController.cpp) on a valid shard.
use tinycache.Prelude.{
  ◌+◌, ◌*◌, ◌≤◌, ◌≡◌, refl, sym, ap, ◌∙◌, arith, ltb, Bool-cases, Option, none, some, List, [], ◌∷◌,
  inl, inr, ok, if◌then◌else◌,
}
use tinycache.Prelude.Bytes.{Bytes, bytes_discrete}
use tinycache.Prelude.Keyed.{keyed}
use tinycache.FlatMap.{FlatMap}
use tinycache.Shard
use tinycache.Shard.{Node, LruShard}
use tinycache.Shard.Time.{TimePoint, is_expired, ns_per_second}
use tinycache.Shard.Spec
use tinycache.Shard.Spec.{Entry, entry_for, live}
use tinycache.Shard.Nodes.{entries, Distinct}
use tinycache.Shard.Valid.{IsValid, view}
use tinycache.Shard.Refines.{entry_for-none}
use tinycache.Shard.Refines.Expiration.{remove_expired_keys-Fits}
use tinycache.Expiration.{Wait, no_wait, expires_at, expires_after, plan, sweep}

-- The timer completes no earlier than it was set to, and the clock does not run backwards.
abbrev pub Wakes : Wait → TimePoint → TimePoint → Type 0
Wakes no_wait now woken = now ≤ woken
Wakes (expires_at t) now woken = t ≤ woken
Wakes (expires_after n) now woken = now + n * ns_per_second ≤ woken

-- The entry, unless its deadline has passed.
abbrev pub unexpired : TimePoint → Option Entry → Option Entry
unexpired now none = none
unexpired now (some e) = if is_expired e.expire_at now then none else some e

entry_for-live :
    (now : TimePoint) (k : Bytes) (ns : List Node)
    → Distinct ns
    → entry_for k (live now (entries ns)) ≡ unexpired now (entry_for k (entries ns))
unfolding keyed live
entry_for-live now k [] d = refl
entry_for-live now k (m ∷ ns) (fresh, new, d) =
    let ih = entry_for-live now k ns d in
    elim (bytes_discrete m.key k) [
      | yes same ↦
          let gone : entry_for k (entries ns) ≡ none = entry_for-none k ns (rw (sym same) new) in
          elim (Bool-cases (is_expired m.expire_at now)) [
            | inl late ↦ ground (arith, same, late, ih, gone)
            | inr alive ↦ ground (arith, same, alive)
          ]
      | no other ↦ elim (Bool-cases (is_expired m.expire_at now)) [
        | inl late ↦ ground (arith, other, late, ih)
        | inr alive ↦ ground (arith, other, alive, ih)
      ]
    ]

module _ {M : Type 0} (F : FlatMap M) where
  plan-Wakes :
      (s : LruShard M) (now woken u : TimePoint)
      → Wakes (plan F now s) now woken
      → Shard.get_next_expire_time F s ≡ some u
      → u ≤ woken
  unfolding plan
  plan-Wakes s now woken u h first = elim (Bool-cases (ltb now u)) [
    | inl ahead ↦ rw (plan, first, ahead) at h
    | inr past ↦ let low : now ≤ woken = rw (plan, first, past) at h in ground (arith, past, low)
  ]

  -- A round that plans its wait on `planned`, and sweeps what the shard has become meanwhile, a valid
  -- shard `s`, when the timer has completed: the sweep ends without a fault, in a valid shard. Under
  -- each key the entry is kept, but for the entries whose deadline has passed. Among these are those
  -- with the deadline that the round waited for.
  pub round-sweeps :
      (planned s : LruShard M) (now woken : TimePoint)
      → IsValid F s
      → Wakes (plan F now planned) now woken
      → (s' : LruShard M) × (sweep F woken s ≡ ok (s', tt))
        × IsValid F s'
        × ((k : Bytes)
            → entry_for k (view s').entries ≡ unexpired woken (entry_for k (view s).entries))
        × ((k : Bytes) (e : Entry) (u : TimePoint)
            → Shard.get_next_expire_time F planned ≡ some u
            → entry_for k (view s).entries ≡ some e
            → e.expire_at ≡ some u
            → entry_for k (view s').entries ≡ none)
  unfolding sweep Spec.remove_expired is_expired
  round-sweeps planned s now woken valid h =
      let (s', runs, valid', seen) = remove_expired_keys-Fits F woken valid in
      let kept : (k : Bytes)
          → entry_for k (view s').entries ≡ unexpired woken (entry_for k (view s).entries) =
        λ k.
          ap (λ v. entry_for k (Spec.View.entries v)) seen
          ∙ entry_for-live woken k s.lru_list valid.consistent.distinct in
      (
        s',
        rw runs refl,
        valid',
        kept,
        λ k e u first there timed.
            kept k ∙ ground (arith, there, timed, plan-Wakes planned now woken u h first),
      )
