-- ===== src/Session/Chunks.antt =====
-- `run` of src/session.cpp, on bytes that the socket delivers in pieces.
use tinycache.Prelude.{
  ℕ, zero, suc, ◌≤◌, ◌≡◌, ◌≢◌, refl, sym, ap, ◌∙◌, arith, List, [], ◌∷◌, ◌++◌, length,
  length-append, Outcome, ok, ◌>>=◌, >>=-cong, >>=-assoc, >>=-eq-ok,
}
use tinycache.Prelude.Bytes.{Bytes}
use tinycache.Resp.{RespValue}
use tinycache.Resp.Parser.{ParsingResult, parse_impl}
use tinycache.Command.{Command}
use tinycache.Session.{
  malformed, Standing, reading, ended, Effects, Round, again, await_read, close, Drained, awaits,
  closes, malformed_request, write, reply, serve_one, drain, drain_all,
}
use tinycache.Session.Rounds.{
  Parsed, waits, refuses, reads, parse_impl-Parsed, grow, serve_one-waits, serve_one-refuses,
  serve_one-reads, serve_one-again, serve_one-extend,
}

abbrev pub concat_all : List Bytes → Bytes
concat_all [] = []
concat_all (s ∷ ss) = s ++ concat_all ss

-- Where the session stands after the loop, with room left in the buffer.
abbrev pub stands : {S : Type 0} → Drained S → Outcome (Standing S)
stands (awaits rest e) = ok (reading rest e)
stands (closes e) = ok (ended malformed e)

module _ {S : Type 0} (execute : Command → S → Outcome (S × RespValue)) where
  abbrev pub next : ℕ → Bytes → Effects S → Round S → Outcome (Drained S)
  next f buffer e (again rest e') = drain execute f rest e'
  next f buffer e await_read = ok (awaits buffer e)
  next f buffer e (close e') = ok (closes e')

  -- The loop goes on behind more bytes.
  abbrev pub resume : Bytes → Drained S → Outcome (Drained S)
  resume t (awaits rest e) = drain_all execute (rest ++ t) e
  resume t (closes e) = ok (closes e)

  pub drain-nil : (f : ℕ) (e : Effects S) → drain execute f [] e ≡ ok (awaits [] e)
  unfolding drain
  drain-nil zero e = refl
  drain-nil (suc f) e = refl

  pub drain-cons :
      (f b : ℕ) (buffer : Bytes) (e : Effects S)
      → drain execute (suc f) (b ∷ buffer) e
        ≡ (serve_one execute (b ∷ buffer) e >>= next f (b ∷ buffer) e)
  unfolding drain
  drain-cons f b buffer e = >>=-cong (serve_one execute (b ∷ buffer) e) _ _ (λ r _. go r)
    where
      go :
          (r : Round S)
          → (elim r as (λ _. Outcome (Drained S)) [
            | again rest e' ↦ drain execute f rest e'
            | await_read ↦ ok (awaits (b ∷ buffer) e)
            | close e' ↦ ok (closes e')
          ])
            ≡ next f (b ∷ buffer) e r
      go (again rest e') = refl
      go await_read = refl
      go (close e') = refl

  -- The rounds after a first one, with more fuel.
  next-fuel :
      (f g b : ℕ) (buffer : Bytes) (e : Effects S)
      → ((rest : Bytes) (e' : Effects S)
          → length rest ≤ length buffer
          → drain execute f rest e' ≡ drain execute g rest e')
      → (r : Round S) → serve_one execute (b ∷ buffer) e ≡ ok r
      → next f (b ∷ buffer) e r ≡ next g (b ∷ buffer) e r
  next-fuel f g b buffer e ih (again rest e') is =
      let shorter = serve_one-again execute (b ∷ buffer) e e' rest is in ih rest e' (omega arith)
  next-fuel f g b buffer e ih await_read is = refl
  next-fuel f g b buffer e ih (close e') is = refl

  -- More fuel changes nothing.
  pub drain-fuel :
      (f g : ℕ) (buffer : Bytes) (e : Effects S)
      → length buffer ≤ f
      → length buffer ≤ g
      → drain execute f buffer e ≡ drain execute g buffer e
  drain-fuel f g [] e h h' = drain-nil f e ∙ sym (drain-nil g e)
  drain-fuel zero g (b ∷ buffer) e h h' = absurd (omega arith)
  drain-fuel (suc f) zero (b ∷ buffer) e h h' = absurd (omega arith)
  drain-fuel (suc f) (suc g) (b ∷ buffer) e h h' =
      drain-cons f b buffer e
      ∙ >>=-cong (serve_one execute (b ∷ buffer) e) _ _ (
          next-fuel f g b buffer e
            (λ rest e' low. drain-fuel f g rest e' (omega arith) (omega arith)))
      ∙ sym (drain-cons g b buffer e)

  module _ (f b : ℕ) (buffer t : Bytes) (e : Effects S)
      (ih : (rest : Bytes) (e' : Effects S)
        → length rest ≤ length buffer
        → drain_all execute (rest ++ t) e' ≡ (drain execute f rest e' >>= resume t)) where
    next-extend :
        (r : Round S)
        → serve_one execute (b ∷ buffer) e ≡ ok r
        → r ≢ await_read
        → next (length (buffer ++ t)) (b ∷ (buffer ++ t)) e (grow t r)
          ≡ (next f (b ∷ buffer) e r >>= resume t)
    unfolding drain_all
    next-extend (again rest e') is w =
        let shorter = serve_one-again execute (b ∷ buffer) e e' rest is in
        drain-fuel (length (buffer ++ t)) (length (rest ++ t)) (rest ++ t) e'
          (omega (arith, length-append rest t, length-append buffer t)) (omega arith)
        ∙ ih rest e' (omega arith)
    next-extend await_read is w = absurd (w refl)
    next-extend (close e') is w = refl

    round-extend :
        parse_impl (b ∷ buffer) ≢ ParsingResult.need_more_data
        → ((r : Round S) → serve_one execute (b ∷ buffer) e ≡ ok r → r ≢ await_read)
        → drain_all execute ((b ∷ buffer) ++ t) e
          ≡ (drain execute (suc f) (b ∷ buffer) e >>= resume t)
    unfolding drain_all
    round-extend w goes_on =
        drain-cons (length (buffer ++ t)) b (buffer ++ t) e
        ∙ ap (λ r. r >>= next (length (buffer ++ t)) (b ∷ (buffer ++ t)) e)
            (serve_one-extend execute (b ∷ buffer) t e w)
        ∙ >>=-assoc (serve_one execute (b ∷ buffer) e) _ _
        ∙ >>=-cong (serve_one execute (b ∷ buffer) e) _ _ (λ r is. next-extend r is (goes_on r is))
        ∙ sym (>>=-assoc (serve_one execute (b ∷ buffer) e) _ _)
        ∙ ap (λ r. r >>= resume t) (sym (drain-cons f b buffer e))

    drain-cons-extend :
        {r : ParsingResult}
        → parse_impl (b ∷ buffer) ≡ r
        → Parsed r
        → drain_all execute ((b ∷ buffer) ++ t) e
          ≡ (drain execute (suc f) (b ∷ buffer) e >>= resume t)
    drain-cons-extend is waits =
        rw (drain-cons f b buffer e, serve_one-waits execute (b ∷ buffer) e is) refl
    drain-cons-extend is refuses =
        round-extend (λ w. absurd (ground (arith, sym is ∙ w)))
          (λ r ran at_await.
            let (e'', _, x) =
              >>=-eq-ok (write execute malformed_request e) _
                (sym (serve_one-refuses execute (b ∷ buffer) e is) ∙ ran) in
            absurd (ground (arith, x, at_await)))
    drain-cons-extend is (reads v rest) =
        round-extend (λ w. absurd (ground (arith, sym is ∙ w)))
          (λ r ran at_await.
            let (e'', _, x) =
              >>=-eq-ok (reply execute v e) _
                (sym (serve_one-reads execute (b ∷ buffer) e v rest is) ∙ ran) in
            absurd (ground (arith, x, at_await)))

  -- The loop over a longer buffer is the loop over its front, resumed behind the rest.
  drain-extend :
      (f : ℕ) (buffer t : Bytes) (e : Effects S)
      → length buffer ≤ f
      → drain_all execute (buffer ++ t) e ≡ (drain execute f buffer e >>= resume t)
  drain-extend f [] t e h = rw (drain-nil f e) refl
  drain-extend zero (b ∷ buffer) t e h = absurd (omega arith)
  drain-extend (suc f) (b ∷ buffer) t e h =
      drain-cons-extend f b buffer t e (λ rest e' low. drain-extend f rest t e' (omega arith)) refl
        (parse_impl-Parsed (b ∷ buffer))

  pub drain_all-append :
      (buffer t : Bytes) (e : Effects S)
      → drain_all execute (buffer ++ t) e ≡ (drain_all execute buffer e >>= resume t)
  unfolding drain_all
  drain_all-append buffer t e = drain-extend (length buffer) buffer t e (omega arith)

  -- The bytes that wait were in the buffer.
  drain-le :
      (f : ℕ) (buffer rest : Bytes) (e e' : Effects S)
      → drain execute f buffer e ≡ ok (awaits rest e')
      → length rest ≤ length buffer
  drain-le f [] rest e e' h = ground (arith, sym (drain-nil f e) ∙ h)
  drain-le zero (b ∷ buffer) rest e e' h = unfold drain in absurd (ground (arith, h))
  drain-le (suc f) (b ∷ buffer) rest e e' h =
      let (r, ran, rest_runs) =
        >>=-eq-ok (serve_one execute (b ∷ buffer) e) _ (sym (drain-cons f b buffer e) ∙ h) in
      go r ran rest_runs (λ rest' e''. drain-le f rest' rest e'' e')
    where
      go :
          (r : Round S)
          → serve_one execute (b ∷ buffer) e ≡ ok r
          → next f (b ∷ buffer) e r ≡ ok (awaits rest e')
          → ((rest' : Bytes) (e'' : Effects S)
              → drain execute f rest' e'' ≡ ok (awaits rest e')
              → length rest ≤ length rest')
          → length rest ≤ suc (length buffer)
      go (again rest' e'') is x ih =
          omega (arith, serve_one-again execute (b ∷ buffer) e e'' rest' is, ih rest' e'' x)
      go await_read is x ih = ground (arith, x)
      go (close e'') is x ih = absurd (ground (arith, x))

  pub drain_all-le :
      (buffer rest : Bytes) (e e' : Effects S)
      → drain_all execute buffer e ≡ ok (awaits rest e')
      → length rest ≤ length buffer
  unfolding drain_all
  drain_all-le buffer rest e e' h = drain-le (length buffer) buffer rest e e' h
