-- ===== src/Command.antt =====
-- include/command.hpp, src/command.cpp and include/utils.hpp: a command from a value of the protocol.
pub mod Shape
pub mod Arguments
use tinycache.Prelude.{
  ℕ, suc, ◌+◌, ◌-◌, Bool, ◌&&◌, ◌||◌, not, true, false, List, [], ◌∷◌, map, length, Option, none,
  some, leb, if◌then◌else◌, ite, ℤ, Outcome, ok, fault, dangling, bad_variant, ◌>>=◌,
}
use tinycache.Prelude.Bytes.{Bytes, codes, bytes_discrete}
use tinycache.Resp.{
  RespType, RespValue, RespData, RespArray, resp, nil, cons, size, text, number, elements,
}

pub data CommandType : Type 0 where
  unknown ping command get set del expire ttl info config : CommandType

pub record Command : Type 0 where
  pub type : CommandType
  pub args : List Bytes

-- `std::toupper` of a byte.
abbrev pub upper : ℕ → ℕ
upper c = if leb b'a' c && leb c b'z' then c - 32 else c

unfoldable pub to_uppercase : Bytes → Bytes
to_uppercase s = map upper s

unfoldable pub determine_command_type : Bytes → CommandType
determine_command_type s = ite (bytes_discrete s (codes "GET")) get (
    ite (bytes_discrete s (codes "SET")) set (
      ite (bytes_discrete s (codes "DEL")) del (
        ite (bytes_discrete s (codes "EXPIRE")) expire (
          ite (bytes_discrete s (codes "TTL")) ttl (
            ite (bytes_discrete s (codes "INFO")) info (
              ite (bytes_discrete s (codes "PING")) ping (
                ite (bytes_discrete s (codes "COMMAND")) command
                  (ite (bytes_discrete s (codes "CONFIG")) config unknown))))))))

abbrev pub args_limit : ℕ
args_limit = 10

-- A row of `kSpecs`, with `args_limit` for `kMaxArgs`.
pub record CommandSpec : Type 0 where
  pub min_args : ℕ
  pub max_args : ℕ

unfoldable pub spec_for : CommandType → Option CommandSpec
spec_for get = some (record { min_args = 1; max_args = 1 })
spec_for set = some (record { min_args = 2; max_args = 4 })
spec_for del = some (record { min_args = 1; max_args = args_limit })
spec_for expire = some (record { min_args = 2; max_args = 2 })
spec_for ttl = some (record { min_args = 1; max_args = 1 })
spec_for info = some (record { min_args = 0; max_args = 1 })
spec_for ping = some (record { min_args = 0; max_args = 1 })
spec_for command = some (record { min_args = 0; max_args = args_limit })
spec_for config = some (record { min_args = 2; max_args = 2 })
spec_for unknown = none

-- A type without a row would be read through `end()`.
unfoldable pub validate_args : CommandType → ℕ → Outcome Bool
validate_args t argc = elim (spec_for t) [
  | none ↦ fault dangling
  | some spec ↦ ok (leb spec.min_args argc && leb argc spec.max_args)
]

-- Whether a value of this type is taken as a word of the command.
abbrev pub is_string : RespType → Bool
is_string RespType.bulk_string = true
is_string RespType.simple_string = true
is_string _ = false

unfoldable pub get_string : RespData → Outcome Bytes
get_string (text s) = ok s
get_string _ = fault bad_variant

abbrev pub prepend : Bytes → Option (List Bytes) → Option (List Bytes)
prepend s none = none
prepend s (some ss) = some (s ∷ ss)

-- The loop over the arguments.
unfoldable pub collect_args : RespArray → Outcome (Option (List Bytes))
unfolding get_string
collect_args nil = ok (some [])
collect_args (cons (resp t d) vs) =
    let rest = collect_args vs in
    if is_string t then (do s ← get_string d; ss ← rest; ok (prepend s ss)) else ok none

-- `type == kUnknown`
abbrev pub is_unknown : CommandType → Bool
is_unknown unknown = true
is_unknown _ = false

abbrev pub with_type : CommandType → Option (List Bytes) → Option Command
with_type t none = none
with_type t (some args) = some (record { type = t; args = args })

-- `toCommand` behind the lookup of the name.
unfoldable pub with_args : CommandType → RespArray → Outcome (Option Command)
unfolding validate_args collect_args
with_args t vs = do
  enough ← validate_args t (size vs)
  if enough then (do args ← collect_args vs; ok (with_type t args)) else ok none

unfoldable pub of_elements : RespArray → Outcome (Option Command)
unfolding with_args get_string
of_elements nil = ok none
of_elements (cons (resp t d) vs) =
    if is_string t
    then (do
      name ← get_string d
      let type = determine_command_type (to_uppercase name)
      if is_unknown type then ok none else with_args type vs)
    else ok none

unfoldable pub to_command : RespValue → Outcome (Option Command)
unfolding of_elements
to_command (resp RespType.array (elements vs)) = of_elements vs
to_command (resp RespType.array d) = fault bad_variant
to_command (resp _ d) = ok none
