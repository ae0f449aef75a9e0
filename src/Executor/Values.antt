-- ===== src/Executor/Values.antt =====
-- CONFIG GET of src/commandExecutor.cpp, against the relation of a pattern and a text.
use tinycache.Prelude.{◌≡◌, refl, arith, List, [], ◌∷◌, Bool-cases, inl, inr, ok, get_elem?}
use tinycache.Prelude.Bytes.{Bytes, codes, bytes_discrete}
use tinycache.Resp.{RespValue, RespArray, nil, cons}
use tinycache.Command.{to_uppercase}
use tinycache.Executor.Matches.{Matches}
use tinycache.Executor.Inversion.{NoStar}
use tinycache.Executor.Refusals.{glob_match-decides}
use tinycache.Executor.Catalog.{
  to_lowercase, bulk, array_of, unknown_subcommand, config_values, matching_values, process_config,
}

-- The values whose names a pattern matches, name before value, in the order of the table.
pub data Selects (pattern : Bytes) : List (Bytes × Bytes) → RespArray → Type 0 where
  done : Selects pattern [] nil
  hit :
      {rest : List (Bytes × Bytes)} {vs : RespArray} (name value : Bytes)
      → Matches pattern name
      → Selects pattern rest vs
      → Selects pattern ((name, value) ∷ rest) (cons (bulk name) (cons (bulk value) vs))
  miss :
      {rest : List (Bytes × Bytes)} {vs : RespArray} (name value : Bytes)
      → ¬ Matches pattern name
      → Selects pattern rest vs
      → Selects pattern ((name, value) ∷ rest) vs

abbrev AllPlain : List (Bytes × Bytes) → Type 0
AllPlain [] = Unit
AllPlain ((name, value) ∷ rest) = NoStar name × AllPlain rest

matching_values-Selects :
    (pattern : Bytes) (table : List (Bytes × Bytes))
    → AllPlain table
    → (vs : RespArray) × (matching_values pattern table ≡ ok vs) × Selects pattern table vs
unfolding matching_values
matching_values-Selects pattern [] plain = (nil, refl, done)
matching_values-Selects pattern ((name, value) ∷ rest) (no_star, plain) =
    let (b, runs, decides) = glob_match-decides pattern name no_star in
    let (vs, runs', selected) = matching_values-Selects pattern rest plain in
    elim (Bool-cases b) [
      | inl yes_hit ↦ (
        cons (bulk name) (cons (bulk value) vs),
        ground (arith, runs, runs', yes_hit),
        hit name value (decides.0 yes_hit) selected,
      )
      | inr no_hit ↦ (
        vs,
        ground (arith, runs, runs', no_hit),
        miss name value (λ m. absurd (ground (arith, no_hit, decides.1 m))) selected,
      )
    ]

config_values-AllPlain : AllPlain config_values
unfolding NoStar
config_values-AllPlain = (
  (refl, (refl, (refl, (refl, tt)))),
  ((refl, (refl, (refl, (refl, (refl, (refl, (refl, (refl, (refl, (refl, tt)))))))))), tt),
)

-- CONFIG GET with a pattern ends without a fault and answers the array of exactly the settings whose
-- names match the pattern in lower case, each name followed by its value.
pub process_config-Selects :
    (sub pattern : Bytes)
    → to_uppercase sub ≡ codes "GET"
    → (vs : RespArray) × (process_config (sub ∷ pattern ∷ []) ≡ ok (array_of vs))
      × Selects (to_lowercase pattern) config_values vs
unfolding process_config get_elem? bytes_discrete
process_config-Selects sub pattern is_get =
    let (vs, runs, selected) =
      matching_values-Selects (to_lowercase pattern) config_values config_values-AllPlain in
    (vs, rw (is_get, runs) refl, selected)

pub process_config-Ends :
    (sub pattern : Bytes) → (v : RespValue) × (process_config (sub ∷ pattern ∷ []) ≡ ok v)
unfolding process_config get_elem?
process_config-Ends sub pattern = elim (bytes_discrete (to_uppercase sub) (codes "GET")) [
  | yes is_get ↦
      let (vs, runs, selected) = process_config-Selects sub pattern is_get in (array_of vs, runs)
  | no other ↦ (unknown_subcommand, ground (arith, other))
]
