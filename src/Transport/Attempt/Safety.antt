-- ===== src/Transport/Attempt/Safety.antt =====
-- What an attempt that receives a response did to get it.
use ynab_go.Base.{
  ℕ, zero, suc, false, ◌+◌, ◌≤◌, ◌≡◌, refl, ap, Option, none, some, [], ◌∷◌, arith, Bytes, length,
  take, Option-cases, inl, inr, Bool-cases, sym, subst, ◌<◌,
}
use ynab_go.Base.Int.{ℤ, pos, negsuc, pos_part, leb_ℤ, ◌+ℤ◌, ◌≤ℤ◌, ◌<ℤ◌}
use ynab_go.Base.Word.{wrap}
use ynab_go.Std.Url.{Values}
use ynab_go.Transport.{
  Core, Request, Response, Header, received, Answer, no_answer, answer, TokenResult, token,
  no_token, Environment, max_int64,
}
use ynab_go.Transport.Attempt.{
  response_limit, to_request, read_within, read_body, read_answer, send_request, with_token,
  limiter_verdict, attempt,
}

take_all : (n : ℕ) (s : Bytes) → length (take (n + 1) s) ≤ n → take (n + 1) s ≡ s
take_all n s = go n (n + 1) (omega arith) s
  where
    go : (n k : ℕ) → k ≡ n + 1 → (s : Bytes) → length (take k s) ≤ n → take k s ≡ s
    go n zero e s h = absurd (omega arith)
    go n (suc k) e [] h = refl
    go zero (suc k) e (c ∷ s) h = absurd (omega arith)
    go (suc n) (suc k) e (c ∷ s) h = ap (λ t. c ∷ t) (go n k (omega arith) s (omega arith))

positive : (z : ℤ) → leb_ℤ z (pos 0) ≡ false → z ≡ pos (pos_part z)
positive (pos n) h = refl
positive (negsuc n) h = absurd (ground (arith, h))

-- The limit of a core whose own one is not the largest int64.
response_limit_fits :
    (core : Core)
    → core.max_response_bytes <ℤ pos max_int64
    → (n : ℕ) × ((response_limit core ≡ pos n) × (n < max_int64))
unfolding response_limit
response_limit_fits core h = elim (Bool-cases (leb_ℤ core.max_response_bytes (pos 0))) [
  | inl unset ↦ (134217728, (ground (arith, unset), omega arith))
  | inr own ↦
      let e = positive core.max_response_bytes own in
      (pos_part core.max_response_bytes, (ground (arith, own, e), ground (arith, h, own)))
]

room : (n : ℕ) → n < max_int64 → pos_part (wrap (pos n +ℤ pos 1)) ≡ n + 1
unfolding wrap ◌+ℤ◌
room n h = ground (arith, h)

module _ {E : Type 0} where
  -- The whole stream was read, within the limit, and it did not break off.
  abbrev pub IsWhole : ℤ → Answer E → Response → Type 0
  IsWhole limit ans res =
      (ans ≡ answer res.status res.header res.body none) × (pos (length res.body) ≤ℤ limit)

  read_within-IsWhole :
      (n status : ℕ) (header : Header) (stream : Bytes) (broken : Option E) (res : Response)
      → read_within (n + 1) (pos n) status header stream broken ≡ received res
      → IsWhole (pos n) (answer status header stream broken) res
  unfolding read_within
  read_within-IsWhole n status header stream none res h = ground (arith, take_all n stream, h)
  read_within-IsWhole n status header stream (some e) res h = ground (arith, take_all n stream, h)

  read_body-IsWhole :
      (n status : ℕ) (header : Header) (stream : Bytes) (broken : Option E) (res : Response)
      → n < max_int64
      → read_body (pos n) status header stream broken ≡ received res
      → IsWhole (pos n) (answer status header stream broken) res
  unfolding read_body
  read_body-IsWhole n status header stream broken res fits h =
      read_within-IsWhole n status header stream broken res (
        subst (λ k. read_within k (pos n) status header stream broken ≡ received res) (room n fits)
          h)

  read_answer-IsWhole :
      (n : ℕ) (ans : Answer E) (res : Response)
      → n < max_int64
      → read_answer (pos n) ans ≡ received res
      → IsWhole (pos n) ans res
  unfolding read_answer
  read_answer-IsWhole n (no_answer e) res fits h = ground arith
  read_answer-IsWhole n (answer status header stream broken) res fits h =
      read_body-IsWhole n status header stream broken res fits h

module _ {E : Type 0} (core : Core) (env : Environment E) (method path : Bytes) (query : Values)
    (payload : Option Bytes) (i : ℕ) (res : Response)
    (fits : core.max_response_bytes <ℤ pos max_int64) where
  abbrev WasSent : Type 0
  WasSent =
      (t : Bytes) × (env.get_token i ≡ token t)
      × IsWhole (response_limit core) (env.exchange i (to_request core method path query payload t))
          res

  send_request-IsWhole :
      (req : Request)
      → send_request core env i req ≡ received res
      → IsWhole (response_limit core) (env.exchange i req) res
  unfolding send_request
  send_request-IsWhole req h = elim (Option-cases (env.refuse_request req.method req.url)) [
    | inl fine ↦
        let (n, (e, bound)) = response_limit_fits core fits in
        let got : read_answer (response_limit core) (env.exchange i req) ≡ received res =
          ground (arith, fine, h) in
        subst (λ l. IsWhole l (env.exchange i req) res) (sym e)
          (read_answer-IsWhole n (env.exchange i req) res bound
            (subst (λ l. read_answer l (env.exchange i req) ≡ received res) e got))
    | inr (e, refused) ↦ ground arith
  ]

  with_token-WasSent :
      (got : TokenResult E)
      → env.get_token i ≡ got
      → with_token core env method path query payload i got ≡ received res
      → WasSent
  unfolding with_token
  with_token-WasSent (token t) e h = (t, e, send_request-IsWhole _ h)
  with_token-WasSent (no_token err) e h = cc

-- With a response limit below the largest int64, an attempt that receives a response passed the
-- limiter, got a token, and sent exactly the request made from that token; the body is the whole
-- stream that the server sent, no longer than the limit, and the stream did not break off.
pub attempt_received :
    {E : Type 0} (core : Core) (env : Environment E) (method path : Bytes) (query : Values)
    (payload : Option Bytes) (i : ℕ) (res : Response)
    → core.max_response_bytes <ℤ pos max_int64
    → attempt core env method path query payload i ≡ received res
    → (limiter_verdict core env i ≡ none)
      × ((t : Bytes) × (env.get_token i ≡ token t)
          × IsWhole
              (response_limit core)
              (env.exchange i (to_request core method path query payload t))
              res)
unfolding attempt
attempt_received core env method path query payload i res fits h =
    elim (Option-cases (limiter_verdict core env i)) [
      | inl passed ↦ (
        passed,
        with_token-WasSent core env method path query payload i res fits (env.get_token i) refl
            (ground arith),
      )
      | inr (e, held) ↦ absurd (ground arith)
    ]
