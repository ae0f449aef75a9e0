-- ===== src/Command/Arguments.antt =====
-- The arguments that `Command::toCommand` of src/command.cpp takes from a value.
use mathlib.Core.Path.{subst}
use tinycache.Prelude.{ℕ, ◌≤◌, ◌≡◌, arith, true, List, [], length, Option-cases, some, inl, inr, ok}
use tinycache.Prelude.Bytes.{Bytes}
use tinycache.Resp.{
  RespType, RespValue, RespData, RespArray, resp, text, number, elements, nil, cons,
}
use tinycache.Resp.Typed.{IsRead, AllRead}
use tinycache.Command.{
  CommandType, Command, is_string, get_string, collect_args, spec_for, validate_args, with_args,
  of_elements, to_command, determine_command_type, to_uppercase,
}
use tinycache.Command.Shape.{collected, collect_cases}
use tinycache.Executor.Typed.{AllShort}

word-le :
    (b : ℕ) (t : RespType) (d : RespData) (s : Bytes)
    → IsRead b (resp t d)
    → is_string t ≡ true
    → get_string d ≡ ok s
    → length s ≤ b
unfolding IsRead get_string
word-le b RespType.bulk_string (text x) s h word got = ground (arith, h, got)
word-le b RespType.simple_string (text x) s h word got = ground (arith, h, got)
word-le b t (number n) s h word got = absurd (ground (arith, got))
word-le b t (elements xs) s h word got = absurd (ground (arith, got))
word-le b t d s h word got = cc

collect_args-AllShort :
    (b : ℕ) (vs : RespArray) (ss : List Bytes)
    → AllRead b vs
    → collect_args vs ≡ ok (some ss)
    → AllShort b ss
unfolding collect_args AllRead
collect_args-AllShort b nil ss h runs =
    let is : [] ≡ ss = ground (arith, runs) in subst (AllShort b) is tt
collect_args-AllShort b (cons (resp t d) vs) ss h runs =
    let (s, rest, shape, runs', word, got) = collected t d vs ss runs in
    rw shape (word-le b t d s h.0 word got, collect_args-AllShort b vs rest h.1 runs')

with_args-AllShort :
    (b : ℕ) (t : CommandType) (vs : RespArray) {c : Command}
    → AllRead b vs
    → with_args t vs ≡ ok (some c)
    → AllShort b c.args
unfolding with_args validate_args
with_args-AllShort b t vs {c} h runs = elim (Option-cases (spec_for t)) [
  | inl miss ↦ absurd (ground (arith, runs, miss))
  | inr (spec, row) ↦ elim (collect_cases (collect_args vs)) [
    | inl (ss, e) ↦
        let is : ss ≡ c.args = ground (arith, runs, row, e) in
        subst (AllShort b) is (collect_args-AllShort b vs ss h e)
    | inr other ↦ absurd (ground (arith, runs, row, other c.args))
  ]
]

-- A command from a value with texts of at most `b` bytes has arguments of at most `b` bytes.
pub to_command-AllShort :
    (b : ℕ) (v : RespValue) {c : Command}
    → IsRead b v
    → to_command v ≡ ok (some c)
    → AllShort b c.args
unfolding to_command of_elements get_string IsRead AllRead
to_command-AllShort b (resp RespType.array (elements nil)) h runs = absurd (ground (arith, runs))
to_command-AllShort b (resp RespType.array (elements (cons (resp t (text name)) vs))) {c} h runs =
    let ty = determine_command_type (to_uppercase name) in
    with_args-AllShort b ty vs {c = c} h.1.1 (ground (arith, runs))
to_command-AllShort b (resp RespType.array (elements (cons (resp t d) vs))) h runs =
    absurd (ground (arith, runs))
to_command-AllShort b (resp RespType.array d) h runs = absurd (ground (arith, runs))
to_command-AllShort b (resp t d) h runs = absurd (ground (arith, runs))
