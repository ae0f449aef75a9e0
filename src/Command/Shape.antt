-- ===== src/Command/Shape.antt =====
-- What `Command::toCommand` of src/command.cpp accepts and what it returns.
use tinycache.Prelude.{
  leb, ◌&&◌, ℕ, suc, ◌≤◌, ◌≡◌, ◌≢◌, ◌⊎◌, >>=-eq-ok, Option-cases, refl, ap, arith, true, false,
  List, [], ◌∷◌, length, Option, none, some, Bool-cases, inl, inr, Outcome, ok, fault,
}
use tinycache.Prelude.Bytes.{Bytes}
use tinycache.Resp.{
  RespType, RespValue, RespData, RespArray, resp, nil, cons, size, text, number, elements,
}
use tinycache.Resp.Emit.{IsWellTyped, AllWellTyped}
use tinycache.Command.{
  CommandType, unknown, ping, command, get, set, del, expire, ttl, info, config, Command,
  CommandSpec, spec_for, validate_args, get_string, is_string, collect_args, prepend, with_type,
  with_args, of_elements, to_command, determine_command_type, to_uppercase, is_unknown,
}

-- The words of a command as a client sends them.
abbrev pub word_value : Bytes → RespValue
word_value s = resp RespType.bulk_string (text s)

abbrev pub word_values : List Bytes → RespArray
word_values [] = nil
word_values (s ∷ ss) = cons (word_value s) (word_values ss)

-- The number of arguments lies between the bounds of the row of `kSpecs`.
abbrev pub HasArity : CommandType → ℕ → Type 0
HasArity t n =
    (spec : CommandSpec) × (spec_for t ≡ some spec) × (spec.min_args ≤ n) × (n ≤ spec.max_args)

collect_args-words : (ss : List Bytes) → collect_args (word_values ss) ≡ ok (some ss)
unfolding collect_args get_string
collect_args-words [] = refl
collect_args-words (s ∷ ss) = rw (collect_args-words ss) refl

pub size-words : (ss : List Bytes) → size (word_values ss) ≡ length ss
size-words [] = refl
size-words (s ∷ ss) = ap suc (size-words ss)

is_unknown-HasArity : (t : CommandType) (n : ℕ) → HasArity t n → is_unknown t ≡ false
unfolding spec_for
is_unknown-HasArity unknown n (spec, e, low, high) = cc
is_unknown-HasArity ping n h = refl
is_unknown-HasArity command n h = refl
is_unknown-HasArity get n h = refl
is_unknown-HasArity set n h = refl
is_unknown-HasArity del n h = refl
is_unknown-HasArity expire n h = refl
is_unknown-HasArity ttl n h = refl
is_unknown-HasArity info n h = refl
is_unknown-HasArity config n h = refl

-- An array of bulk strings becomes a command when its first word, in upper case, names one and the
-- number of the others lies in the range for it: the others are its arguments.
pub to_command-words :
    (name : Bytes) (ss : List Bytes) (t : CommandType)
    → determine_command_type (to_uppercase name) ≡ t
    → HasArity t (length ss)
    → to_command (resp RespType.array (elements (word_values (name ∷ ss))))
      ≡ ok (some (record { type = t; args = ss }))
unfolding to_command of_elements get_string with_args validate_args
to_command-words name ss t h (spec, row, low, high) = ground (
  arith,
  h,
  row,
  low,
  high,
  size-words ss,
  collect_args-words ss,
  is_unknown-HasArity t (length ss) (spec, row, low, high),
)

pub collect_cases :
    (r : Outcome (Option (List Bytes)))
    → ((ss : List Bytes) × (r ≡ ok (some ss))) ⊎ ((ss : List Bytes) → r ≢ ok (some ss))
collect_cases (ok (some ss)) = inl (ss, refl)
collect_cases (ok none) = inr (λ ss e. absurd (ground (arith, e)))
collect_cases (fault x) = inr (λ ss e. absurd (ground (arith, e)))

-- The arguments behind a word.
pub collected :
    (t : RespType) (d : RespData) (vs : RespArray) (ss : List Bytes)
    → collect_args (cons (resp t d) vs) ≡ ok (some ss)
    → (s : Bytes) × (rest : List Bytes) × (ss ≡ s ∷ rest)
      × (collect_args vs ≡ ok (some rest))
      × (is_string t ≡ true)
      × (get_string d ≡ ok s)
unfolding collect_args
collected t d vs ss h = elim (Bool-cases (is_string t)) [
  | inr other ↦ absurd (ground (arith, h, other))
  | inl word ↦
      let (s, got, h') = >>=-eq-ok (get_string d) _ (rw word at h) in
      let (rest, e, h'') = >>=-eq-ok (collect_args vs) _ h' in go s rest word got e h''
]
  where
    go :
        (s : Bytes) (r : Option (List Bytes))
        → is_string t ≡ true
        → get_string d ≡ ok s
        → collect_args vs ≡ ok r
        → Outcome.ok (prepend s r) ≡ ok (some ss)
        → (s' : Bytes) × (rest : List Bytes) × (ss ≡ s' ∷ rest)
          × (collect_args vs ≡ ok (some rest))
          × (is_string t ≡ true)
          × (get_string d ≡ ok s')
    go s none word got e x = absurd (ground (arith, x))
    go s (some rest) word got e x = (s, rest, ground (arith, x), e, word, got)

length-collect_args :
    (vs : RespArray) (ss : List Bytes) → collect_args vs ≡ ok (some ss) → length ss ≡ size vs
unfolding collect_args
length-collect_args nil ss h = ground (arith, h)
length-collect_args (cons (resp t d) vs) ss h =
    let (s, rest, shape, e, word, got) = collected t d vs ss h in
    rw shape (ap suc (length-collect_args vs rest e))

with_args-HasArity :
    (t : CommandType) (vs : RespArray) {c : Command}
    → with_args t vs ≡ ok (some c)
    → HasArity c.type (length c.args)
unfolding with_args validate_args
with_args-HasArity t vs {c} h = elim (Option-cases (spec_for t)) [
  | inl miss ↦ absurd (ground (arith, h, miss))
  | inr (spec, row) ↦ elim (collect_cases (collect_args vs)) [
    | inl (ss, e) ↦ (
      spec,
      ground (arith, h, row, e),
      ground (arith, h, row, e, length-collect_args vs ss e),
      ground (arith, h, row, e, length-collect_args vs ss e),
    )
    | inr other ↦ absurd (ground (arith, h, row, other c.args))
  ]
]

-- Whatever the value, a command that it becomes has a number of arguments in the range for its type.
pub to_command-HasArity :
    (v : RespValue) {c : Command} → to_command v ≡ ok (some c) → HasArity c.type (length c.args)
unfolding to_command of_elements get_string
to_command-HasArity (resp RespType.array (elements nil)) h = absurd (ground (arith, h))
to_command-HasArity (resp RespType.array (elements (cons (resp t (text name)) vs))) {c} h =
    let ty = determine_command_type (to_uppercase name) in
    with_args-HasArity ty vs {c = c} (ground (arith, h))
to_command-HasArity (resp RespType.array (elements (cons (resp t d) vs))) h =
    absurd (ground (arith, h))
to_command-HasArity (resp RespType.array d) h = absurd (ground (arith, h))
to_command-HasArity (resp t d) h = absurd (ground (arith, h))

get_string-ok :
    (t : RespType) (d : RespData)
    → is_string t ≡ true
    → IsWellTyped (resp t d)
    → (s : Bytes) × (get_string d ≡ ok s)
unfolding get_string IsWellTyped
get_string-ok RespType.bulk_string (text s) e h = (s, refl)
get_string-ok RespType.simple_string (text s) e h = (s, refl)
get_string-ok t (text s) e h = (s, refl)
get_string-ok RespType.bulk_string (number n) e h = absurd h
get_string-ok RespType.bulk_string (elements vs) e h = absurd h
get_string-ok RespType.simple_string (number n) e h = absurd h
get_string-ok RespType.simple_string (elements vs) e h = absurd h
get_string-ok t d e h = cc

collect_args-ok :
    (vs : RespArray) → AllWellTyped vs → (r : Option (List Bytes)) × (collect_args vs ≡ ok r)
unfolding collect_args AllWellTyped
collect_args-ok nil h = (some [], refl)
collect_args-ok (cons (resp t d) vs) h = elim (Bool-cases (is_string t)) [
  | inr other ↦ (none, rw other refl)
  | inl word ↦
      let (s, got) = get_string-ok t d word h.0 in
      let (r, e) = collect_args-ok vs h.1 in (prepend s r, rw word (rw got (rw e refl)))
]

row_of : (t : CommandType) → is_unknown t ≡ false → (spec : CommandSpec) × (spec_for t ≡ some spec)
unfolding spec_for
row_of unknown e = cc
row_of t e = (_, refl)

with_args-ok :
    (t : CommandType) (vs : RespArray)
    → is_unknown t ≡ false
    → AllWellTyped vs
    → (r : Option Command) × (with_args t vs ≡ ok r)
unfolding with_args validate_args spec_for
with_args-ok t vs known h =
    let (spec, row) = row_of t known in
    let (r, e) = collect_args-ok vs h in
    elim (Bool-cases (leb spec.min_args (size vs) && leb (size vs) spec.max_args)) [
      | inl enough ↦ (with_type t r, ground (arith, row, e, enough))
      | inr few ↦ (none, ground (arith, row, e, few))
    ]

-- A well-typed value makes `toCommand` throw nothing.
pub to_command-ok : (v : RespValue) → IsWellTyped v → (r : Option Command) × (to_command v ≡ ok r)
unfolding to_command of_elements IsWellTyped AllWellTyped
to_command-ok (resp RespType.array (elements nil)) h = (none, refl)
to_command-ok (resp RespType.array (elements (cons (resp t d) vs))) h =
    elim (Bool-cases (is_string t)) [
      | inr other ↦ (none, rw other refl)
      | inl word ↦
          let (s, got) = get_string-ok t d word h.1.0 in
          let ty = determine_command_type (to_uppercase s) in
          elim (Bool-cases (is_unknown ty)) [
            | inl strange ↦ (none, rw word (rw got (rw strange refl)))
            | inr known ↦
                let (r, e) = with_args-ok ty vs known h.1.1 in (r, rw word (rw got (rw known e)))
          ]
    ]
to_command-ok (resp RespType.array d) h = absurd h
to_command-ok (resp t d) h = (none, refl)
