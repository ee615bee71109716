-- ===== src/Transport/Attempt.antt =====
-- internal/transport/transport.go: one attempt on the wire, and the request that it sends.
pub mod Safety
use ynab_go.Base.{
  ℕ, suc, ◌+◌, Bool, true, false, Option, none, some, List, [], ◌∷◌, ◌++◌, Bytes, codes, ◌==◌, ltb,
  if◌then◌else◌, length, take, is_nil,
}
use ynab_go.Base.Int.{ℤ, pos, pos_part, leb_ℤ, ltb_ℤ, ◌+ℤ◌}
use ynab_go.Base.Word.{wrap}
use ynab_go.Std.Url.{Values, encode}
use ynab_go.Transport.{
  Core, Request, Response, Header, Failure, limiter, token_source, build_request, send,
  read_response, too_large, Outcome, received, failed, Answer, no_answer, answer, TokenResult,
  token, no_token, Environment,
}

-- strings.TrimPrefix(path, "/").
unfoldable pub trim_slash : Bytes → Bytes
trim_slash [] = []
trim_slash (c ∷ s) = if c == b'/' then s else c ∷ s

-- `requestURL`.
unfoldable pub request_url : Core → Bytes → Values → Bytes
unfolding trim_slash
request_url core path query =
    let s = core.base_url ++ b'/' ∷ trim_slash path in
    let enc = encode query in if is_nil enc then s else s ++ b'?' ∷ enc

-- 128 MiB.
abbrev pub default_max_response_bytes : ℤ
default_max_response_bytes = pos 134217728

unfoldable pub response_limit : Core → ℤ
response_limit core =
    if leb_ℤ core.max_response_bytes (pos 0)
    then default_max_response_bytes
    else core.max_response_bytes

unfoldable pub to_request : Core → Bytes → Bytes → Values → Option Bytes → Bytes → Request
unfolding request_url
to_request core method path query payload tok = record {
  method = method;
  url = request_url core path query;
  authorization = codes "Bearer " ++ tok;
  user_agent = core.user_agent;
  accept = codes "application/json";
  content_type = elim payload [ none ↦ none | some p ↦ some (codes "application/json") ];
  payload = payload;
}

module _ {E : Type 0} where
  -- io.ReadAll of a LimitReader with `room` bytes left, and the test of the length. A stream that
  -- reaches the reader's end is not read on, so its error is not met.
  unfoldable pub read_within : ℕ → ℤ → ℕ → Header → Bytes → Option E → Outcome E
  read_within room limit status header stream broken =
      let body = take room stream in
      elim (if ltb (length body) room then broken else none) [
        | some e ↦ failed (read_response e)
        | none ↦
            if ltb_ℤ limit (pos (length body))
            then failed (too_large limit)
            else received (record { status = status; body = body; header = header })
      ]

  -- The reader gets limit+1, in int64 arithmetic; with no bytes or fewer it is at its end.
  unfoldable pub read_body : ℤ → ℕ → Header → Bytes → Option E → Outcome E
  unfolding read_within wrap ◌+ℤ◌
  read_body limit status header stream broken =
      read_within (pos_part (wrap (limit +ℤ pos 1))) limit status header stream broken

  unfoldable pub read_answer : ℤ → Answer E → Outcome E
  unfolding read_body
  read_answer limit (no_answer e) = failed (send e)
  read_answer limit (answer status header stream broken) =
      read_body limit status header stream broken

  -- The request goes out unless it cannot be built.
  unfoldable pub send_request : Core → Environment E → ℕ → Request → Outcome E
  unfolding read_answer
  send_request core env i req = elim (env.refuse_request req.method req.url) [
    | some e ↦ failed (build_request e)
    | none ↦ read_answer (response_limit core) (env.exchange i req)
  ]

  unfoldable pub with_token :
      Core → Environment E → Bytes → Bytes → Values → Option Bytes → ℕ → TokenResult E → Outcome E
  unfolding send_request
  with_token core env method path query payload i (no_token e) = failed (token_source e)
  with_token core env method path query payload i (token t) =
      send_request core env i (to_request core method path query payload t)

  -- The limiter's verdict; a nil limiter passes.
  unfoldable pub limiter_verdict : Core → Environment E → ℕ → Option E
  limiter_verdict core env i = if core.has_limiter then env.wait i else none

  unfoldable pub attempt :
      Core → Environment E → Bytes → Bytes → Values → Option Bytes → ℕ → Outcome E
  unfolding with_token
  attempt core env method path query payload i = elim (limiter_verdict core env i) [
    | some e ↦ failed (limiter e)
    | none ↦ with_token core env method path query payload i (env.get_token i)
  ]
