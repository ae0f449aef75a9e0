-- ===== src/Executor/Catalog.antt =====
-- COMMAND and CONFIG of src/commandExecutor.cpp, with `kCommands` of include/command.hpp and
-- `to_lowercase` of include/utils.hpp.
use tinycache.Prelude.{
  ℕ, ◌+◌, ◌&&◌, leb, if◌then◌else◌, ite, List, [], ◌∷◌, map, length, Option, none, some, ℤ, pos,
  negsuc, Outcome, ok, ◌>>=◌,
}
use tinycache.Prelude.Bytes.{Bytes, codes, bytes_discrete}
use tinycache.Resp.{RespType, RespValue, RespArray, resp, text, number, elements, nil, cons}
use tinycache.Command.{CommandType, to_uppercase}
use tinycache.Executor.{arg, error_answer}
use tinycache.Executor.Glob.{glob_match}

-- `std::tolower` of a byte.
abbrev pub lower : ℕ → ℕ
lower c = if leb b'A' c && leb c b'Z' then c + 32 else c

unfoldable pub to_lowercase : Bytes → Bytes
to_lowercase s = map lower s

pub record CommandDefinition : Type 0 where
  pub type : CommandType
  pub name : Bytes
  pub arity : ℤ

-- `kCommands`
abbrev pub commands : List CommandDefinition
commands =
    record { type = CommandType.ping; name = codes "PING"; arity = pos 1 }
    ∷ record { type = CommandType.command; name = codes "COMMAND"; arity = negsuc 0 }
    ∷ record { type = CommandType.get; name = codes "GET"; arity = pos 2 }
    ∷ record { type = CommandType.set; name = codes "SET"; arity = negsuc 2 }
    ∷ record { type = CommandType.del; name = codes "DEL"; arity = negsuc 1 }
    ∷ record { type = CommandType.expire; name = codes "EXPIRE"; arity = pos 3 }
    ∷ record { type = CommandType.ttl; name = codes "TTL"; arity = pos 2 }
    ∷ record { type = CommandType.info; name = codes "INFO"; arity = negsuc 0 }
    ∷ record { type = CommandType.config; name = codes "CONFIG"; arity = negsuc 1 }
    ∷ []

abbrev pub bulk : Bytes → RespValue
bulk s = resp RespType.bulk_string (text s)

abbrev pub array_of : RespArray → RespValue
array_of vs = resp RespType.array (elements vs)

-- `cmd_info` of a row
unfoldable pub describe : CommandDefinition → RespValue
describe d = array_of (cons (bulk d.name) (cons (resp RespType.integer (number d.arity)) nil))

unfoldable pub describe_all : List CommandDefinition → RespArray
unfolding describe
describe_all [] = nil
describe_all (d ∷ ds) = cons (describe d) (describe_all ds)

-- `std::find_if` by the name
unfoldable pub find_command : Bytes → List CommandDefinition → Option CommandDefinition
find_command name [] = none
find_command name (d ∷ ds) = ite (bytes_discrete d.name name) (some d) (find_command name ds)

-- The loop of COMMAND INFO.
unfoldable pub command_info : List Bytes → RespArray
unfolding find_command describe to_uppercase
command_info [] = nil
command_info (name ∷ names) = elim (find_command (to_uppercase name) commands) [
  | none ↦ command_info names
  | some d ↦ cons (describe d) (command_info names)
]

abbrev pub unknown_subcommand : RespValue
unknown_subcommand = error_answer (codes "Unknown subcommand")

unfoldable pub process_command : List Bytes → RespValue
unfolding describe_all command_info
process_command [] = array_of (describe_all commands)
process_command (sub ∷ names) =
    ite (bytes_discrete (to_uppercase sub) (codes "INFO")) (array_of (command_info names)) (
      ite (bytes_discrete (to_uppercase sub) (codes "COUNT"))
        (resp RespType.integer (number (pos (length commands)))) unknown_subcommand)

-- `kSupportedConfigValues`
abbrev pub config_values : List (Bytes × Bytes)
config_values = (codes "save", []) ∷ (codes "appendonly", codes "no") ∷ []

-- The loop of CONFIG GET.
unfoldable pub matching_values : Bytes → List (Bytes × Bytes) → Outcome RespArray
matching_values pattern [] = ok nil
matching_values pattern ((name, value) ∷ rest) = do
  hit ← glob_match pattern name
  vs ← matching_values pattern rest
  ok (if hit then cons (bulk name) (cons (bulk value) vs) else vs)

unfoldable pub process_config : List Bytes → Outcome RespValue
unfolding matching_values to_lowercase
process_config args = do
  sub ← arg 0 args
  ite (bytes_discrete (to_uppercase sub) (codes "GET"))
      (do
        pattern ← arg 1 args
        vs ← matching_values (to_lowercase pattern) config_values
        ok (array_of vs))
      (ok unknown_subcommand)
