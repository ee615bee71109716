-- ===== src/Errors/Retryable.antt =====
-- `IsRetryable`, and that the built-in pipeline agrees with it.
use ynab_go.Base.{
  ℕ, ◌≡◌, ◌⊎◌, inl, inr, refl, Bool, true, false, ◌||◌, Option, some, arith, Bytes, ◌==◌, ◌↔◌,
}
use ynab_go.Base.Int.{◌<ℤ◌}
use ynab_go.Transport.{RetryConfig, Clock, Response}
use ynab_go.Transport.Delay.{retry_after_delay, retry_after_cap, retry_after_key}
use ynab_go.Transport.Pipeline.{retry, classify_response}
use ynab_go.Transport.Pipeline.Classify.{classify_response-retry}
use ynab_go.Errors.{
  ApiError, Sentinel, rate_limited, server_error, service_unavailable, sentinel_by_id,
  sentinel_by_status, is, Chain, api, argument, sentinel, context_canceled, deadline_exceeded,
  net_error, net_wrapping, wrapped, other, chain_is, as_argument, as_api, is_retryable, WireError,
  decode_wire_error,
}
use ynab_go.Errors.Taxonomy.{is_iff}

-- The chain wraps this API error, any number of times.
abbrev pub Carries : ApiError → Chain → Type 0
Carries e (api e') = e' ≡ e
Carries e (net_wrapping c) = Carries e c
Carries e (wrapped m c) = Carries e c
Carries e _ = ⊥

abbrev pub is_transient : ApiError → Bool
is_transient e = is e rate_limited || (is e server_error || is e service_unavailable)

Carries-as_argument : (e : ApiError) (c : Chain) → Carries e c → as_argument c ≡ false
unfolding as_argument
Carries-as_argument e (api e') h = refl
Carries-as_argument e (argument a) h = absurd h
Carries-as_argument e (sentinel s) h = absurd h
Carries-as_argument e context_canceled h = absurd h
Carries-as_argument e deadline_exceeded h = absurd h
Carries-as_argument e net_error h = absurd h
Carries-as_argument e (net_wrapping c) h = Carries-as_argument e c h
Carries-as_argument e (wrapped m c) h = Carries-as_argument e c h
Carries-as_argument e (other m) h = absurd h

Carries-as_api : (e : ApiError) (c : Chain) → Carries e c → as_api c ≡ true
unfolding as_api
Carries-as_api e (api e') h = refl
Carries-as_api e (argument a) h = absurd h
Carries-as_api e (sentinel s) h = absurd h
Carries-as_api e context_canceled h = absurd h
Carries-as_api e deadline_exceeded h = absurd h
Carries-as_api e net_error h = absurd h
Carries-as_api e (net_wrapping c) h = Carries-as_api e c h
Carries-as_api e (wrapped m c) h = Carries-as_api e c h
Carries-as_api e (other m) h = absurd h

Carries-chain_is : (e : ApiError) (c : Chain) (s : Sentinel) → Carries e c → chain_is c s ≡ is e s
unfolding chain_is
Carries-chain_is e (api e') s h = rw h
Carries-chain_is e (argument a) s h = absurd h
Carries-chain_is e (sentinel t) s h = absurd h
Carries-chain_is e context_canceled s h = absurd h
Carries-chain_is e deadline_exceeded s h = absurd h
Carries-chain_is e net_error s h = absurd h
Carries-chain_is e (net_wrapping c) s h = Carries-chain_is e c s h
Carries-chain_is e (wrapped m c) s h = Carries-chain_is e c s h
Carries-chain_is e (other m) s h = absurd h

-- An error that wraps an API error is retryable exactly if the API error is rate limited, a server
-- error or an unavailable service, however it is wrapped.
pub is_retryable-Carries :
    (e : ApiError) (c : Chain) → Carries e c → is_retryable (some c) ≡ is_transient e
unfolding is_retryable
is_retryable-Carries e c h =
    rw
      (
        Carries-as_argument e c h,
        Carries-chain_is e c rate_limited h,
        Carries-chain_is e c server_error h,
        Carries-chain_is e c service_unavailable h,
        Carries-as_api e c h,
      )
      (ground arith)

-- A sub-code that names a transient sentinel stands on an answer of that status.
abbrev pub Agrees : ApiError → Type 0
Agrees e =
    (sentinel_by_id e.id ≡ some rate_limited → e.status_code ≡ 429)
    × (sentinel_by_id e.id ≡ some server_error → e.status_code ≡ 500)
    × (sentinel_by_id e.id ≡ some service_unavailable → e.status_code ≡ 503)

by_status_iff :
    (n : ℕ)
    → ((sentinel_by_status n ≡ some rate_limited) ↔ (n ≡ 429))
      × ((sentinel_by_status n ≡ some server_error) ↔ (n ≡ 500))
      × ((sentinel_by_status n ≡ some service_unavailable) ↔ (n ≡ 503))
unfolding sentinel_by_status
by_status_iff n = (ground arith, ground arith, ground arith)

transient_status :
    (e : ApiError)
    → Agrees e
    → is_transient e ≡ (e.status_code == 429 || (e.status_code == 500 || e.status_code == 503))
transient_status e h = ground (
  arith,
  is_iff e rate_limited,
  is_iff e server_error,
  is_iff e service_unavailable,
  by_status_iff e.status_code,
)

-- For a response decoded to an error whose sub-code fits its status: the error is retryable for a
-- caller exactly if the pipeline retries the response on a retryable verb, or the response is a 429
-- that asks for a longer wait than the pipeline will sleep.
pub classify_response-is_retryable :
    (envelope : Bytes → Option WireError) (r : RetryConfig) (clock : Clock) (res : Response)
    → let e = decode_wire_error envelope clock res.status res.body res.header in
      Agrees e
      → (is_retryable (some (api e)) ≡ true) ↔ (
          (classify_response {E = Unit} r clock true res ≡ retry)
          ⊎ ((res.status ≡ 429)
              × (retry_after_cap r <ℤ retry_after_delay clock (res.header retry_after_key))))
unfolding decode_wire_error
classify_response-is_retryable envelope r clock res h =
    let e = decode_wire_error envelope clock res.status res.body res.header in
    let both = classify_response-retry {E = Unit} r clock res in
    rw (is_retryable-Carries e (api e) refl, transient_status e h)
      (both.1, λ k. elim k [ inl again ↦ both.0 again | inr late ↦ rw late.0 refl ])
