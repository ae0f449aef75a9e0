-- ===== src/Session/Rounds.antt =====
-- The loop of src/session.cpp over its buffer, when more bytes come behind it.
use tinycache.Prelude.{
  ◌<◌, ◌≡◌, ◌≢◌, refl, sym, ap, ◌∙◌, arith, ◌++◌, length, Outcome, ok, ◌>>=◌, >>=-assoc, >>=-eq-ok,
}
use tinycache.Prelude.Bytes.{Bytes}
use tinycache.Resp.{RespValue}
use tinycache.Resp.Parser.{ParsingResult, parse, parse_impl}
use tinycache.Resp.Streaming.{extend_result, parse_impl-extend, parse_impl-shorter, parse_impl-fuel}
use tinycache.Command.{Command}
use tinycache.Session.{
  Effects, Round, again, await_read, close, malformed_request, write, reply, serve_one,
}

-- What the parser comes to on a buffer.
pub data Parsed : ParsingResult → Type 0 where
  waits : Parsed ParsingResult.need_more_data
  refuses : Parsed ParsingResult.error
  reads : (v : RespValue) (rest : Bytes) → Parsed (ParsingResult.ready v rest)

parsed : (r : ParsingResult) → r ≢ ParsingResult.out_of_fuel → Parsed r
parsed (ParsingResult.ready v rest) h = reads v rest
parsed ParsingResult.need_more_data h = waits
parsed ParsingResult.error h = refuses
parsed ParsingResult.out_of_fuel h = absurd (h refl)

pub parse_impl-Parsed : (buffer : Bytes) → Parsed (parse_impl buffer)
parse_impl-Parsed buffer = parsed (parse_impl buffer) (parse_impl-fuel buffer)

abbrev pub grow : {S : Type 0} → Bytes → Round S → Round S
grow t (again rest e) = again (rest ++ t) e
grow t await_read = await_read
grow t (close e) = close e

module _ {S : Type 0} (execute : Command → S → Outcome (S × RespValue)) where
  pub serve_one-waits :
      (buffer : Bytes) (e : Effects S)
      → parse_impl buffer ≡ ParsingResult.need_more_data
      → serve_one execute buffer e ≡ ok await_read
  unfolding serve_one parse
  serve_one-waits buffer e h = ground (arith, h)

  pub serve_one-refuses :
      (buffer : Bytes) (e : Effects S)
      → parse_impl buffer ≡ ParsingResult.error
      → serve_one execute buffer e ≡ (write execute malformed_request e >>= λ e'. ok (close e'))
  unfolding serve_one parse
  serve_one-refuses buffer e h = ground (arith, h)

  pub serve_one-reads :
      (buffer : Bytes) (e : Effects S) (v : RespValue) (rest : Bytes)
      → parse_impl buffer ≡ ParsingResult.ready v rest
      → serve_one execute buffer e ≡ (reply execute v e >>= λ e'. ok (again rest e'))
  unfolding serve_one parse
  serve_one-reads buffer e v rest h = ground (arith, h)

  -- Why a round goes on, or waits.
  pub serve_one-again :
      (buffer : Bytes) (e e' : Effects S) (rest : Bytes)
      → serve_one execute buffer e ≡ ok (again rest e')
      → length rest < length buffer
  serve_one-again buffer e e' rest h = go (parse_impl buffer) refl (parse_impl-Parsed buffer)
    where
      go : (r : ParsingResult) → parse_impl buffer ≡ r → Parsed r → length rest < length buffer
      go _ is waits = absurd (ground (arith, sym (serve_one-waits buffer e is) ∙ h))
      go _ is refuses =
          let (e'', _, x) =
            >>=-eq-ok (write execute malformed_request e) _
              (sym (serve_one-refuses buffer e is) ∙ h) in
          absurd (ground (arith, x))
      go _ is (reads v rest') =
          let (e'', _, x) =
            >>=-eq-ok (reply execute v e) _ (sym (serve_one-reads buffer e v rest' is) ∙ h) in
          ground (arith, x, parse_impl-shorter buffer is)

  pub serve_one-extend :
      (buffer t : Bytes) (e : Effects S)
      → parse_impl buffer ≢ ParsingResult.need_more_data
      → serve_one execute (buffer ++ t) e ≡ (serve_one execute buffer e >>= λ r. ok (grow t r))
  serve_one-extend buffer t e h = go (parse_impl buffer) refl (parse_impl-Parsed buffer)
    where
      longer : parse_impl (buffer ++ t) ≡ extend_result t (parse_impl buffer)
      longer = parse_impl-extend buffer t h

      go :
          (r : ParsingResult)
          → parse_impl buffer ≡ r
          → Parsed r
          → serve_one execute (buffer ++ t) e ≡ (serve_one execute buffer e >>= λ r. ok (grow t r))
      go _ is waits = absurd (h is)
      go _ is refuses =
          rw
            (
              serve_one-refuses (buffer ++ t) e (longer ∙ ap (extend_result t) is),
              serve_one-refuses buffer e is,
            )
            (sym (>>=-assoc (write execute malformed_request e) _ _))
      go _ is (reads v rest) =
          rw
            (
              serve_one-reads (buffer ++ t) e v (rest ++ t) (longer ∙ ap (extend_result t) is),
              serve_one-reads buffer e v rest is,
            )
            (sym (>>=-assoc (reply execute v e) _ _))
