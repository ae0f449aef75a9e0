-- ===== src/Tests/Commands.antt =====
-- The commands of src/commandExecutor.cpp on the shard with one key.
use tinycache.Prelude.{◌≡◌, refl, [], ◌∷◌, some, false}
use tinycache.Prelude.Bytes.{codes}
use tinycache.FlatMap.Assoc.{assoc_map}
use tinycache.Shard.Spec
use tinycache.Shard.Valid.{view}
use tinycache.Shard.Refines.{Implements}
use tinycache.Command.{to_uppercase}
use tinycache.Executor.{process_set, ok_answer}
use tinycache.Executor.Numbers.{stoull, skip_space, unsigned_part, read_digits}
use tinycache.Executor.Answers.{set_if, process_set-nx, process_set-ex}
use tinycache.Tests.Shards.{one_key, one_key-IsValid, now, due, room, in_range}

nx_name : to_uppercase (codes "nX") ≡ codes "NX"
unfolding to_uppercase
nx_name = refl

process_set-nx_example :
    Implements assoc_map
      (process_set assoc_map (codes "b" ∷ codes "345" ∷ codes "nX" ∷ []) now now one_key)
      (set_if false (codes "b") (codes "345") now (view one_key))
process_set-nx_example =
    process_set-nx assoc_map one_key-IsValid (codes "b") (codes "345") (codes "nX") now now nx_name
      room

xx_name : to_uppercase (codes "xx") ≡ codes "XX"
unfolding to_uppercase
xx_name = refl

ex_name : to_uppercase (codes "ex") ≡ codes "EX"
unfolding to_uppercase
ex_name = refl

three_seconds : stoull (codes " 3s") ≡ some 3
unfolding stoull skip_space unsigned_part read_digits
three_seconds = refl

process_set-ex_example :
    Implements assoc_map
      (process_set assoc_map
        (codes "b" ∷ codes "345" ∷ codes "ex" ∷ codes " 3s" ∷ [])
        now
        now
        one_key)
      (Spec.set (codes "b") (codes "345") (some due) (view one_key), ok_answer)
process_set-ex_example =
    process_set-ex assoc_map one_key-IsValid (codes "b") (codes "345") (codes "ex") (codes " 3s")
      now now ex_name three_seconds in_range room
