-- ===== src/Executor/Typed.antt =====
-- The answers of PING, COMMAND, CONFIG and INFO (src/commandExecutor.cpp) are values that the
-- serializer can print.
use mathlib.Core.Path.{subst}
use tinycache.Prelude.{
  ℕ, ◌*◌, ◌<◌, ◌≤◌, ◌≡◌, arith, List, [], ◌∷◌, if_pos, if_neg, length, length-append, some,
  Option-cases, inl, inr, ok, get_elem?,
}
use tinycache.Prelude.Bytes.{Bytes, codes, word, add64, bytes_discrete}
use tinycache.Resp.{RespValue, RespArray, size}
use tinycache.Resp.Decimal.{length-format-le}
use tinycache.Resp.Emit.{IsWellTyped, AllWellTyped, IsInt64}
use tinycache.Shard.{Stats}
use tinycache.Command.{to_uppercase}
use tinycache.Executor.{process_ping}
use tinycache.Executor.Catalog.{
  CommandDefinition, commands, describe, describe_all, find_command, command_info, process_command,
  array_of, process_config, unknown_subcommand,
}
use tinycache.Executor.Info.{add_stats, info_text, info_answer}
use tinycache.Executor.Values.{Selects, done, hit, miss, process_config-Selects}

-- The lengths of the arguments are sizes.
abbrev pub AllSized : List Bytes → Type 0
AllSized [] = Unit
AllSized (s ∷ ss) = (length s < word) × AllSized ss

-- Every argument is at most `b` bytes long.
abbrev pub AllShort : ℕ → List Bytes → Type 0
AllShort b [] = Unit
AllShort b (s ∷ ss) = (length s ≤ b) × AllShort b ss

pub AllShort-AllSized : (b : ℕ) (ss : List Bytes) → b < word → AllShort b ss → AllSized ss
AllShort-AllSized b [] low h = tt
AllShort-AllSized b (s ∷ ss) low h = (omega (arith, h.0), AllShort-AllSized b ss low h.1)

-- The numbers are 64 bits wide.
abbrev pub IsStats : Stats → Type 0
IsStats sums =
    (sums.used_payload_bytes < word)
    × (sums.key_count < word)
    × (sums.evictions < word)
    × (sums.expired < word)
    × (sums.max_memory_bytes < word)

pub add_stats-IsStats : (sums shard : Stats) → IsStats (add_stats sums shard)
unfolding add_stats add64
add_stats-IsStats sums shard = (omega arith, omega arith, omega arith, omega arith, omega arith)

pub info_answer-IsWellTyped : (sums : Stats) → IsStats sums → IsWellTyped (info_answer sums)
unfolding info_answer info_text IsWellTyped
info_answer-IsWellTyped sums (used, keys, evictions, expired, limit) = omega (
  arith,
  length-append {0},
  length-format-le sums.used_payload_bytes used,
  length-format-le sums.key_count keys,
  length-format-le sums.evictions evictions,
  length-format-le sums.expired expired,
  length-format-le sums.max_memory_bytes limit,
)

pub process_ping-IsWellTyped : (args : List Bytes) → AllSized args → IsWellTyped (process_ping args)
unfolding process_ping IsWellTyped
process_ping-IsWellTyped [] h = omega arith
process_ping-IsWellTyped (s ∷ []) h = h.0
process_ping-IsWellTyped (s ∷ t ∷ args) h = omega arith

-- A row of `kCommands` whose name and arity are in range.
abbrev IsRow : CommandDefinition → Type 0
IsRow d = (length d.name < word) × IsInt64 d.arity

abbrev AllRows : List CommandDefinition → Type 0
AllRows [] = Unit
AllRows (d ∷ ds) = IsRow d × AllRows ds

describe-IsWellTyped : (d : CommandDefinition) → IsRow d → IsWellTyped (describe d)
unfolding describe IsWellTyped AllWellTyped
describe-IsWellTyped d h = (omega arith, (h.0, (h.1, tt)))

describe_all-AllWellTyped :
    (ds : List CommandDefinition) → AllRows ds → AllWellTyped (describe_all ds)
unfolding describe_all AllWellTyped
describe_all-AllWellTyped [] h = tt
describe_all-AllWellTyped (d ∷ ds) h =
    (describe-IsWellTyped d h.0, describe_all-AllWellTyped ds h.1)

find_command-IsRow :
    (name : Bytes) (ds : List CommandDefinition) {d : CommandDefinition}
    → AllRows ds
    → find_command name ds ≡ some d
    → IsRow d
unfolding find_command
find_command-IsRow name [] h found = cc
find_command-IsRow name (x ∷ ds) {d} h found = elim (bytes_discrete x.name name) [
  | yes same ↦ let it : x ≡ d = ground (arith, same, found) in subst (λ y. IsRow y) it h.0
  | no other ↦ find_command-IsRow name ds {d = d} h.1 (ground (arith, other, found))
]

commands-AllRows : AllRows commands
commands-AllRows = omega arith

command_info-AllWellTyped : (names : List Bytes) → AllWellTyped (command_info names)
unfolding command_info AllWellTyped
command_info-AllWellTyped [] = tt
command_info-AllWellTyped (name ∷ names) =
    elim (Option-cases (find_command (to_uppercase name) commands)) [
      | inl missing ↦ rw (missing, command_info) (command_info-AllWellTyped names)
      | inr (d, found) ↦
          rw (found, command_info)
            (
              describe-IsWellTyped d
                  (find_command-IsRow (to_uppercase name) commands {d = d} commands-AllRows found),
              command_info-AllWellTyped names,
            )
    ]

size-command_info : (names : List Bytes) → size (command_info names) ≤ length names
unfolding command_info
size-command_info [] = omega arith
size-command_info (name ∷ names) = ground (arith, size-command_info names)

pub process_command-IsWellTyped :
    (args : List Bytes) → length args < word → IsWellTyped (process_command args)
unfolding process_command describe_all IsWellTyped
process_command-IsWellTyped [] h =
    (omega arith, describe_all-AllWellTyped commands commands-AllRows)
process_command-IsWellTyped (sub ∷ names) h =
    elim (bytes_discrete (to_uppercase sub) (codes "INFO")) [
      | yes info ↦
          rw (if_pos _ info)
            (omega (arith, size-command_info names), command_info-AllWellTyped names)
      | no other ↦ rw (if_neg _ other) (elim (bytes_discrete (to_uppercase sub) (codes "COUNT")) [
        | yes counts ↦ rw (if_pos _ counts) (omega arith)
        | no neither ↦ rw (if_neg _ neither) tt
      ])
    ]

abbrev AllSettings : List (Bytes × Bytes) → Type 0
AllSettings [] = Unit
AllSettings ((name, value) ∷ rest) = (length name < word) × (length value < word) × AllSettings rest

-- The array that CONFIG GET answers has at most two elements for each setting.
Selects-IsWellTyped :
    {pattern : Bytes} {table : List (Bytes × Bytes)} {vs : RespArray}
    → Selects pattern table vs
    → AllSettings table
    → (size vs ≤ 2 * length table) × AllWellTyped vs
unfolding IsWellTyped AllWellTyped
Selects-IsWellTyped done h = (omega arith, tt)
Selects-IsWellTyped (hit name value matched rest) h =
    let (low, typed) = Selects-IsWellTyped rest h.2 in (omega (arith, low), (h.0, (h.1, typed)))
Selects-IsWellTyped (miss name value refused rest) h =
    let (low, typed) = Selects-IsWellTyped rest h.2 in (omega (arith, low), typed)

-- CONFIG with two arguments answers a well-typed value.
pub process_config-IsWellTyped :
    (sub pattern : Bytes)
    → (v : RespValue) × (process_config (sub ∷ pattern ∷ []) ≡ ok v) × IsWellTyped v
unfolding process_config get_elem? IsWellTyped
process_config-IsWellTyped sub pattern = elim (bytes_discrete (to_uppercase sub) (codes "GET")) [
  | yes is_get ↦
      let (vs, runs, selected) = process_config-Selects sub pattern is_get in
      let (low, typed) = Selects-IsWellTyped selected (omega arith) in
      (array_of vs, runs, (omega (arith, low), typed))
  | no other ↦ (unknown_subcommand, ground (arith, other), tt)
]
