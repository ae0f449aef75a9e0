-- ===== src/Executor/Answers.antt =====
-- The answers of the commands of src/commandExecutor.cpp on a valid shard.
use tinycache.Prelude.{
  ℕ, ◌+◌, ◌<◌, ◌≡◌, refl, ap, ◌∙◌, arith, if◌then◌else◌, List, [], ◌∷◌, length, Option, none, some,
  Option-cases, inl, inr, Bool, true, false, ok, Bool-cases, get_elem?,
}
use tinycache.Prelude.Bytes.{Bytes, codes, word}
use tinycache.FlatMap.{FlatMap}
use tinycache.Resp.{RespValue}
use tinycache.Shard.{LruShard}
use tinycache.Shard.Time.{TimePoint, deadline}
use tinycache.Shard.Spec
use tinycache.Shard.Spec.{View}
use tinycache.Shard.Valid.{IsValid, view}
use tinycache.Shard.Refines.{Implements}
use tinycache.Shard.Refines.Reads.{get-Implements, del-Implements}
use tinycache.Shard.Refines.Writes.{set-Fits}
use tinycache.Command.{to_uppercase}
use tinycache.Executor.{write, write_if, process_set, process_del_keys, null_answer, ok_answer}
use tinycache.Executor.Numbers.{stoull}

-- To delete keys one after the other, and the number of those that were there.
unfoldable pub del_all : List Bytes → View → View × ℕ
del_all [] w = (w, 0)
del_all (k ∷ ks) w =
    let one = Spec.del k w in
    let rest = del_all ks one.0 in (rest.0, if one.1 then rest.1 + 1 else rest.1)

-- To write with no deadline, if the key is there and alive or if it is not, as `wanted` says.
unfoldable pub set_if : Bool → Bytes → Bytes → TimePoint → View → View × RespValue
set_if wanted k v now w =
    let seen = Spec.get k now w in
    let written : View × RespValue = (Spec.set k v none seen.0, ok_answer) in
    let refused : View × RespValue = (seen.0, null_answer) in
    elim seen.1 [
      | none ↦ if wanted then refused else written
      | some _ ↦ if wanted then written else refused
    ]

get_max :
    (k : Bytes) (now : TimePoint) (w : View)
    → (Spec.get k now w).0.max_memory_bytes ≡ w.max_memory_bytes
unfolding Spec.get Spec.drop_expired
get_max k now w = ground arith

module _ {M : Type 0} (F : FlatMap M) where
  -- `DEL` on a valid shard deletes its keys in turn, ends in a valid shard, and counts those that were
  -- there; a key that is named twice counts once.
  pub process_del_keys-Implements :
      (keys : List Bytes) {s : LruShard M}
      → IsValid F s
      → Implements F (process_del_keys F keys s) (del_all keys (view s))
  unfolding process_del_keys del_all
  process_del_keys-Implements [] {s} valid = (s, refl, valid, refl)
  process_del_keys-Implements (k ∷ ks) {s} valid =
      let (s1, runs1, valid1, seen1) = del-Implements F valid k in
      let (s2, runs2, valid2, seen2) = process_del_keys-Implements ks valid1 in
      (s2, rw runs1 (rw runs2 (rw seen1 refl)), valid2, seen2 ∙ ap (λ w. (del_all ks w).0) seen1)

  pub write-Implements :
      {s : LruShard M} (valid : IsValid F s) (k v : Bytes) (more : List Bytes)
      (expire_seconds : Option ℕ) (now : TimePoint) {t : Option TimePoint}
      → s.max_memory_bytes + length k + length v < word
      → deadline expire_seconds now ≡ ok t
      → Implements F
          (write F k (k ∷ v ∷ more) expire_seconds now s)
          (Spec.set k v t (view s), ok_answer)
  unfolding write get_elem?
  write-Implements valid k v more expire_seconds now room in_range =
      let (s', runs, valid', seen) = set-Fits F valid k v room expire_seconds now in_range in
      (s', rw runs refl, valid', seen)

  pub write_if-Implements :
      {s : LruShard M} (valid : IsValid F s) (wanted : Bool) (k v : Bytes) (more : List Bytes)
      (now later : TimePoint)
      → s.max_memory_bytes + length k + length v < word
      → Implements F
          (write_if F wanted k (k ∷ v ∷ more) now later s)
          (set_if wanted k v now (view s))
  unfolding write_if set_if deadline
  write_if-Implements {s} valid wanted k v more now later room =
      let (s1, runs, valid1, seen) = get-Implements F valid k now in
      let same : s1.max_memory_bytes ≡ s.max_memory_bytes =
        ap (λ (w : View). w.max_memory_bytes) seen ∙ get_max k now (view s) in
      let (s2, writes, valid2, seen2) =
        write-Implements valid1 k v more none later (omega (arith, same, room)) refl in
      let after = seen2 ∙ ap (Spec.set k v none) seen in
      elim (Bool-cases wanted) [
        | inl yes_wanted ↦ elim (Option-cases (Spec.get k now (view s)).1) [
          | inl missing ↦ (
            s1,
            ground (arith, runs, missing, yes_wanted),
            valid1,
            ground (arith, missing, yes_wanted, seen),
          )
          | inr (x, there) ↦ (
            s2,
            ground (arith, runs, there, yes_wanted, writes),
            valid2,
            ground (arith, there, yes_wanted, after),
          )
        ]
        | inr not_wanted ↦ elim (Option-cases (Spec.get k now (view s)).1) [
          | inl missing ↦ (
            s2,
            ground (arith, runs, missing, not_wanted, writes),
            valid2,
            ground (arith, missing, not_wanted, after),
          )
          | inr (x, there) ↦ (
            s1,
            ground (arith, runs, there, not_wanted),
            valid1,
            ground (arith, there, not_wanted, seen),
          )
        ]
      ]

  -- `SET key value NX` on a valid shard, whose limit with the bytes of key and value stays below 2
  -- ^ 64, looks the key up and then writes, with no deadline, if it finds nothing; it answers null
  -- otherwise. The letters of `NX` may be of either case.
  pub process_set-nx :
      {s : LruShard M} (valid : IsValid F s) (k v option : Bytes) (now later : TimePoint)
      → to_uppercase option ≡ codes "NX"
      → s.max_memory_bytes + length k + length v < word
      → Implements F
          (process_set F (k ∷ v ∷ option ∷ []) now later s)
          (set_if false k v now (view s))
  unfolding process_set get_elem?
  process_set-nx valid k v option now later named room =
      let (s', runs, valid', seen) =
        write_if-Implements valid false k v (option ∷ []) now later room in
      (s', ground (arith, named, runs), valid', seen)

  -- `SET key value XX` on a valid shard, whose limit with the bytes of key and value stays below 2
  -- ^ 64, looks the key up and then writes, with no deadline, if it finds something; it answers
  -- null otherwise. The letters of `XX` may be of either case.
  pub process_set-xx :
      {s : LruShard M} (valid : IsValid F s) (k v option : Bytes) (now later : TimePoint)
      → to_uppercase option ≡ codes "XX"
      → s.max_memory_bytes + length k + length v < word
      → Implements F
          (process_set F (k ∷ v ∷ option ∷ []) now later s)
          (set_if true k v now (view s))
  unfolding process_set get_elem?
  process_set-xx valid k v option now later named room =
      let (s', runs, valid', seen) =
        write_if-Implements valid true k v (option ∷ []) now later room in
      (s', ground (arith, named, runs), valid', seen)

  -- `SET key value EX count` on a valid shard, whose limit with the bytes of key and value stays
  -- below 2 ^ 64, and where `count` spells a number of seconds that makes a deadline in range,
  -- writes with this deadline and answers OK. The letters of `EX` may be of either case.
  pub process_set-ex :
      {s : LruShard M} (valid : IsValid F s) (k v option count : Bytes) (now later : TimePoint)
      {seconds : ℕ} {t : Option TimePoint}
      → to_uppercase option ≡ codes "EX"
      → stoull count ≡ some seconds
      → deadline (some seconds) later ≡ ok t
      → s.max_memory_bytes + length k + length v < word
      → Implements F
          (process_set F (k ∷ v ∷ option ∷ count ∷ []) now later s)
          (Spec.set k v t (view s), ok_answer)
  unfolding process_set get_elem?
  process_set-ex valid k v option count now later {seconds} named spelt in_range room =
      let (s', runs, valid', seen) =
        write-Implements valid k v (option ∷ count ∷ []) (some seconds) later room in_range in
      (s', ground (arith, named, spelt, runs), valid', seen)
