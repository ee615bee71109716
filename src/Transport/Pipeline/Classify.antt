-- ===== src/Transport/Pipeline/Classify.antt =====
-- Which responses the pipeline retries on a retryable verb.
use ynab_go.Base.{ℕ, ◌≡◌, ◌⊎◌, Bool, true, ◌||◌, arith, ◌==◌}
use ynab_go.Base.Int.{◌<ℤ◌}
use ynab_go.Transport.{RetryConfig, Clock, Response}
use ynab_go.Transport.Delay.{retry_after_delay, retry_after_cap, retry_after_key}
use ynab_go.Transport.Pipeline.{retry, classify_response}

-- The statuses that a retry may help.
abbrev pub is_transient_status : ℕ → Bool
is_transient_status n = n == 429 || (n == 500 || n == 503)

pub classify_response-retry :
    {E : Type 0} (r : RetryConfig) (clock : Clock) (res : Response)
    → (classify_response {E = E} r clock true res ≡ retry → is_transient_status res.status ≡ true)
      × (is_transient_status res.status ≡ true
          → (classify_response {E = E} r clock true res ≡ retry)
            ⊎ ((res.status ≡ 429)
                × (retry_after_cap r <ℤ retry_after_delay clock (res.header retry_after_key))))
unfolding classify_response
classify_response-retry r clock res = (ground arith, ground arith)
