-- ===== src/Errors/Tests.antt =====
-- The theorems at concrete errors.
use ynab_go.Base.{◌≡◌, ◌↔◌, ◌⊎◌, true, false, none, some, [], arith, codes, bytes_eq}
use ynab_go.Base.Int.{pos, ◌<ℤ◌}
use ynab_go.Transport.{Clock, Response, RetryConfig}
use ynab_go.Transport.Delay.{retry_after_delay, retry_after_cap}
use ynab_go.Transport.Pipeline.{retry, classify_response}
use ynab_go.Errors.{
  ApiError, WireError, api, lookup_id, sentinel_by_id, is_retryable, decode_wire_error,
}
use ynab_go.Errors.Retryable.{Agrees, classify_response-is_retryable}

abbrev busy : ApiError
busy = record {
  status_code = 429;
  id = codes "429";
  name = codes "too_many_requests";
  detail = [];
  retry_after = pos 0;
}

abbrev clock : Clock
clock = record { now = pos 0; parse_time = λ v. none }

abbrev policy : RetryConfig
policy = record {
  max_attempts = pos 3;
  min_backoff = pos 300;
  max_backoff = pos 30000;
  retry_writes = false;
  disabled = false;
}

abbrev response : Response
response = record { status = 429; body = []; header = λ k. codes "90" }

abbrev wire : WireError
wire = record { id = codes "429"; name = []; detail = [] }

agrees : Agrees (decode_wire_error (λ b. some wire) clock 429 [] (λ k. codes "90"))
unfolding decode_wire_error sentinel_by_id lookup_id bytes_eq
agrees = ground arith

classify_response-is_retryable_example :
    (is_retryable (some (api (decode_wire_error (λ b. some wire) clock 429 [] (λ k. codes "90"))))
      ≡ true)
    ↔ ((classify_response {E = Unit} policy clock true response ≡ retry)
        ⊎ ((response.status ≡ 429)
            × (retry_after_cap policy <ℤ retry_after_delay clock (codes "90"))))
classify_response-is_retryable_example =
    classify_response-is_retryable (λ b. some wire) policy clock response agrees
