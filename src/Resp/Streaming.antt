-- ===== src/Resp/Streaming.antt =====
-- The parser on a buffer that grows (src/respParser.cpp, and src/session.cpp, which parses the same
-- buffer again when more bytes have come).
use tinycache.Prelude.{
  ℕ, zero, suc, ◌<◌, ◌≡◌, ◌≢◌, refl, sym, ap, ◌∙◌, List, [], ◌∷◌, ◌++◌, append_assoc, append-nil,
  arith, length, length-append,
}
use tinycache.Prelude.Bytes.{Bytes}
use tinycache.Resp.{RespValue, nil}
use tinycache.Resp.Parser.{
  ArrayFrame, Attached, root_ready, waiting, attach_value, Token, value, open_array, incomplete,
  malformed, read_token, ParsingResult, ready, need_more_data, out_of_fuel, error, parse_loop,
  parse_impl,
}
use tinycache.Resp.Emit.{emit}
use tinycache.Resp.Reading.{IsSendable}
use tinycache.Resp.RoundTrip.{parse_impl-emit}
use tinycache.Resp.Rounds.{Leaves, by_value, by_array, extend, read_token-Leaves, read_token-extend}

-- What an outcome is allowed to be: the fuel was enough, and the rest is a proper tail of the buffer.
pub data Consumes (s : Bytes) : ParsingResult → Type 0 where
  by_ready :
      {v : RespValue} {rest : Bytes} (used : Bytes)
      → s ≡ used ++ rest
      → used ≢ []
      → Consumes s (ready v rest)
  by_waiting : Consumes s need_more_data
  by_error : Consumes s error

tail_nil : (s t : Bytes) → s ++ t ≡ [] → t ≡ []
tail_nil [] t e = e
tail_nil (c ∷ s) t e = cc

Consumes-behind :
    {s : Bytes} (r p : Bytes) {res : ParsingResult} → s ≡ p ++ r → Consumes r res → Consumes s res
Consumes-behind r p e (by_ready used h some_used) =
    by_ready (p ++ used) (rw e (rw h (simp append_assoc)))
      (λ none_used. some_used (tail_nil p used none_used))
Consumes-behind r p e by_waiting = by_waiting
Consumes-behind r p e by_error = by_error

tail_fuel : (s used rest : Bytes) (f : ℕ) → s ≡ used ++ rest → length s < f → length rest < f
tail_fuel s used rest f e h = grind (arith, e, length-append used rest)

-- One round, when the rounds on the fuel that is left consume a part of their buffer.
round-Consumes :
    (f : ℕ) (stack : List ArrayFrame) (c : ℕ) (s : Bytes)
    → length s < f
    → ((stack' : List ArrayFrame) (r : Bytes) → length r < f → Consumes r (parse_loop f stack' r))
    → (tok : Token) → read_token (length stack) c s ≡ tok
    → Leaves s tok
    → Consumes (c ∷ s) (parse_loop (suc f) stack (c ∷ s))
unfolding parse_loop
round-Consumes f stack c s h ih incomplete e l = rw (e, parse_loop) by_waiting
round-Consumes f stack c s h ih malformed e l = rw (e, parse_loop) by_error
round-Consumes f stack c s h ih (open_array n rest) e (by_array used cut) =
    rw (e, parse_loop)
      (Consumes-behind rest (c ∷ used) (ap (c ∷◌) cut) (ih _ rest (tail_fuel s used rest f cut h)))
round-Consumes f stack c s h ih (value v rest) e (by_value used cut) =
    go (attach_value v stack) refl
  where
    go :
        (a : Attached)
        → attach_value v stack ≡ a
        → Consumes (c ∷ s) (parse_loop (suc f) stack (c ∷ s))
    go (root_ready root) e' =
        rw (e, e', parse_loop)
          (by_ready (c ∷ used) (ap (c ∷◌) cut) (λ x. absurd (ground (arith, x))))
    go (waiting stack') e' =
        rw (e, e', parse_loop)
          (Consumes-behind rest (c ∷ used) (ap (c ∷◌) cut)
            (ih stack' rest (tail_fuel s used rest f cut h)))

parse_loop-Consumes :
    (f : ℕ) (stack : List ArrayFrame) (s : Bytes) → length s < f → Consumes s (parse_loop f stack s)
unfolding parse_loop
parse_loop-Consumes zero stack s h = absurd (omega arith)
parse_loop-Consumes (suc f) stack [] h = by_waiting
parse_loop-Consumes (suc f) stack (c ∷ s) h =
    round-Consumes f stack c s (omega arith) (λ stack' r e. parse_loop-Consumes f stack' r e)
      (read_token (length stack) c s) refl (read_token-Leaves (length stack) c s)

abbrev pub extend_result : Bytes → ParsingResult → ParsingResult
extend_result t (ready v rest) = ready v (rest ++ t)
extend_result t res = res

abbrev Stable : ℕ → ℕ → List ArrayFrame → Bytes → Bytes → Type 0
Stable f g stack s t =
    parse_loop f stack s ≢ need_more_data
    → parse_loop g stack (s ++ t) ≡ extend_result t (parse_loop f stack s)

longer_tail :
    (s t used rest : Bytes) (g : ℕ)
    → s ≡ used ++ rest
    → length (s ++ t) < g
    → length (rest ++ t) < g
longer_tail s t used rest g e h =
    grind (arith, e, length-append used rest, length-append s t, length-append rest t)

longer_round :
    (depth c : ℕ) (s t : Bytes) (tok : Token)
    → read_token depth c s ≡ tok
    → tok ≢ incomplete
    → read_token depth c (s ++ t) ≡ extend t tok
longer_round depth c s t tok e ne =
    read_token-extend depth c s t (λ x. ne (sym e ∙ x)) ∙ ap (extend t) e

round_Stable :
    (f g : ℕ) (stack : List ArrayFrame) (c : ℕ) (s t : Bytes)
    → length s < f
    → length (s ++ t) < g
    → ((stack' : List ArrayFrame) (r : Bytes)
        → length r < f
        → length (r ++ t) < g
        → Stable f g stack' r t)
    → (tok : Token) → read_token (length stack) c s ≡ tok
    → Leaves s tok
    → Stable (suc f) (suc g) stack (c ∷ s) t
unfolding parse_loop
round_Stable f g stack c s t h h' ih incomplete e l ne = absurd (ne (rw (e, parse_loop) refl))
round_Stable f g stack c s t h h' ih malformed e l ne =
    let longer = longer_round (length stack) c s t malformed e (λ x. absurd (ground (arith, x))) in
    rw (longer, e, parse_loop) refl
round_Stable f g stack c s t h h' ih (open_array n rest) e (by_array used cut) ne =
    let longer =
      longer_round (length stack) c s t (open_array n rest) e (λ x. absurd (ground (arith, x))) in
    rw (longer, e, parse_loop)
      (ih (record { remaining = n; elements = nil } ∷ stack) rest (tail_fuel s used rest f cut h)
        (longer_tail s t used rest g cut h') (λ waits. ne (rw (e, parse_loop) waits)))
round_Stable f g stack c s t h h' ih (value v rest) e (by_value used cut) ne =
    go (attach_value v stack) refl
  where
    longer : read_token (length stack) c (s ++ t) ≡ value v (rest ++ t)
    longer = longer_round (length stack) c s t (value v rest) e (λ x. absurd (ground (arith, x)))

    go :
        (a : Attached)
        → attach_value v stack ≡ a
        → parse_loop (suc g) stack ((c ∷ s) ++ t)
          ≡ extend_result t (parse_loop (suc f) stack (c ∷ s))
    go (root_ready root) e' = rw (longer, e, e', parse_loop) refl
    go (waiting stack') e' =
        rw (longer, e, e', parse_loop)
          (ih stack' rest (tail_fuel s used rest f cut h) (longer_tail s t used rest g cut h')
            (λ waits. ne (rw (e, e', parse_loop) waits)))

parse_loop-extend :
    (f g : ℕ) (stack : List ArrayFrame) (s t : Bytes)
    → length s < f
    → length (s ++ t) < g
    → Stable f g stack s t
unfolding parse_loop
parse_loop-extend zero g stack s t h h' ne = absurd (omega arith)
parse_loop-extend (suc f) zero stack s t h h' ne = absurd (omega arith)
parse_loop-extend (suc f) (suc g) stack [] t h h' ne = absurd (ne refl)
parse_loop-extend (suc f) (suc g) stack (c ∷ s) t h h' ne =
    round_Stable f g stack c s t (omega arith) (omega arith)
      (λ stack' r e e'. parse_loop-extend f g stack' r t e e') (read_token (length stack) c s) refl
      (read_token-Leaves (length stack) c s) ne

-- Every buffer has one of the three outcomes of the code, and a value that is returned was read off
-- the front of the buffer, which it shortens.
pub parse_impl-Consumes : (s : Bytes) → Consumes s (parse_impl s)
unfolding parse_impl
parse_impl-Consumes s = parse_loop-Consumes (suc (length s)) [] s (omega arith)

-- When more bytes come behind a buffer on which the parser did not wait, its outcome stays, and the
-- bytes that it leaves grow by those.
pub parse_impl-extend :
    (s t : Bytes)
    → parse_impl s ≢ need_more_data
    → parse_impl (s ++ t) ≡ extend_result t (parse_impl s)
unfolding parse_impl
parse_impl-extend s t =
    parse_loop-extend (suc (length s)) (suc (length (s ++ t))) [] s t (omega arith) (omega arith)

-- On the text of a value that the protocol can carry, without some bytes at its end, the parser
-- waits.
pub parse_impl-cut :
    (v : RespValue) (s missing : Bytes)
    → IsSendable 0 v
    → emit v ≡ s ++ missing
    → missing ≢ []
    → parse_impl s ≡ need_more_data
parse_impl-cut v s missing h e ne = go (parse_impl s) refl (parse_impl-Consumes s)
  where
    whole : parse_impl (s ++ missing) ≡ ready v []
    whole = ap parse_impl (sym e ∙ sym (append-nil (emit v))) ∙ parse_impl-emit v [] h

    grown : parse_impl s ≢ need_more_data → extend_result missing (parse_impl s) ≡ ready v []
    grown w = sym (parse_impl-extend s missing w) ∙ whole

    go : (res : ParsingResult) → parse_impl s ≡ res → Consumes s res → res ≡ need_more_data
    go need_more_data is c = refl
    go out_of_fuel is c = elim c [ ]
    go error is c = absurd (
        ground (
          arith,
          ap (extend_result missing) (sym is) ∙ grown (λ x. absurd (ground (arith, is, x))),
        ))
    go (ready v' rest) is c = absurd (
        ground (
          arith,
          ne,
          tail_nil rest missing,
          ap (extend_result missing) (sym is) ∙ grown (λ x. absurd (ground (arith, is, x))),
        ))

Consumes-shorter :
    {s : Bytes} {res : ParsingResult} (v : RespValue) (rest : Bytes)
    → Consumes s res
    → res ≡ ready v rest
    → length rest < length s
Consumes-shorter v rest (by_ready {v = v'} {rest = rest'} used cut some_used) e =
    let same : rest' ≡ rest = ground (arith, e) in rw cut (rw (sym same) (longer used some_used))
  where
    longer : (used : Bytes) → used ≢ [] → length rest' < length (used ++ rest')
    longer [] h = absurd (h refl)
    longer (c ∷ used) h = omega (arith, length-append used rest')
Consumes-shorter v rest by_waiting e = absurd (ground (arith, e))
Consumes-shorter v rest by_error e = absurd (ground (arith, e))

-- A value is read off at least one byte.
pub parse_impl-shorter :
    (s : Bytes) {v : RespValue} {rest : Bytes}
    → parse_impl s ≡ ready v rest
    → length rest < length s
parse_impl-shorter s {v} {rest} e = Consumes-shorter v rest (parse_impl-Consumes s) e

pub parse_impl-fuel : (s : Bytes) → parse_impl s ≢ out_of_fuel
parse_impl-fuel s e = go (parse_impl s) (parse_impl-Consumes s) e
  where
    go : (res : ParsingResult) → Consumes s res → res ≡ out_of_fuel → ⊥
    go (ready v rest) c e' = absurd (ground (arith, e'))
    go need_more_data c e' = absurd (ground (arith, e'))
    go error c e' = absurd (ground (arith, e'))
    go out_of_fuel c e' = elim c [ ]
