-- ===== src/Session/Answers.antt =====
-- A connection of src/session.cpp from its start to its end.
use tinycache.Prelude.{
  ℕ, ◌<◌, ◌≡◌, refl, sym, ap, ◌∙◌, arith, List, [], ◌++◌, map, length, append-nil, Outcome, ok,
  ◌>>=◌, >>=-cong, >>=-assoc,
}
use tinycache.Prelude.Bytes.{Bytes}
use tinycache.Resp.{RespValue}
use tinycache.Resp.Parser.{ParsingResult, parse_impl}
use tinycache.Command.{Command}
use tinycache.Session.{
  received, malformed, reading, ended, Effects, malformed_request, write, drain_all, run,
}
use tinycache.Session.Chunks.{concat_all, stands, drain-nil}
use tinycache.Session.Requests.{
  emit_all, AllRequests, converse, drain_all-refuses, drain_all-converse, run-stands,
}

module _ {S : Type 0} (execute : Command → S → Outcome (S × RespValue)) where
  -- A session whose limit is above the number of bytes that come does the same, and writes the same
  -- answers, however the bytes are cut into pieces, be they requests or not.
  pub run-chunks :
      (limit : ℕ) (chunks chunks' : List Bytes) (e : Effects S)
      → concat_all chunks ≡ concat_all chunks'
      → length (concat_all chunks) < limit
      → run execute limit (map received chunks) [] e ≡ run execute limit (map received chunks') [] e
  run-chunks limit chunks chunks' e same h =
      run-stands execute limit chunks [] e (omega arith)
      ∙ ap (λ s. drain_all execute s e >>= stands) same
      ∙ sym (run-stands execute limit chunks' [] e (omega (arith, ap length same)))

  -- Requests that come in any pieces, together below the limit, are answered one by one in their order,
  -- each on the state that the one before it left, and the session waits for more.
  pub run-converse :
      (limit : ℕ) (vs : List RespValue) (chunks : List Bytes) (e : Effects S)
      → AllRequests vs
      → concat_all chunks ≡ emit_all vs
      → length (emit_all vs) < limit
      → run execute limit (map received chunks) [] e
        ≡ (converse execute vs e >>= λ e'. ok (reading [] e'))
  unfolding drain_all
  run-converse limit vs chunks e h same low =
      run-stands execute limit chunks [] e (omega (arith, ap length same))
      ∙ ap (λ s. drain_all execute s e >>= stands) (same ∙ sym (append-nil (emit_all vs)))
      ∙ ap (λ r. r >>= stands) (drain_all-converse execute vs [] e h)
      ∙ >>=-assoc (converse execute vs e) _ _
      ∙ >>=-cong (converse execute vs e) _ _ (λ e' _. rw (drain-nil execute 0 e') refl)

  -- Requests and then bytes that the parser refuses, in any pieces, together below the limit: the
  -- requests are answered, then comes the error answer, and the session has ended. Nothing behind the
  -- refused bytes is run.
  pub run-malformed :
      (limit : ℕ) (vs : List RespValue) (bad : Bytes) (chunks : List Bytes) (e : Effects S)
      → AllRequests vs
      → parse_impl bad ≡ ParsingResult.error
      → concat_all chunks ≡ emit_all vs ++ bad
      → length (emit_all vs ++ bad) < limit
      → run execute limit (map received chunks) [] e ≡ (
          converse execute vs e >>= λ e'.
          write execute malformed_request e' >>= λ e''. ok (ended malformed e''))
  run-malformed limit vs bad chunks e h refused same low =
      run-stands execute limit chunks [] e (omega (arith, ap length same))
      ∙ ap (λ s. drain_all execute s e >>= stands) same
      ∙ ap (λ r. r >>= stands) (drain_all-converse execute vs bad e h)
      ∙ >>=-assoc (converse execute vs e) _ _
      ∙ >>=-cong (converse execute vs e) _ _ (λ e' _.
        rw (drain_all-refuses execute bad e' refused)
          (>>=-assoc (write execute malformed_request e') _ _))
