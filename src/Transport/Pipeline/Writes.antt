-- ===== src/Transport/Pipeline/Writes.antt =====
-- A write without RetryWrites is sent again only after the server has rejected it.
use ynab_go.Base.{
  ℕ, zero, suc, ◌+◌, ◌-◌, ◌≤◌, ◌≡◌, ◌≢◌, Bool, true, false, Option, List, [], ◌∷◌, arith, Bytes,
  codes, bytes_eq_iff, ◌==◌,
}
use ynab_go.Std.Url.{Values}
use ynab_go.Transport.{Core, RetryConfig, Outcome, received, failed, Environment}
use ynab_go.Transport.Attempt.{attempt}
use ynab_go.Transport.Delay.{too_many_requests}
use ynab_go.Transport.Pipeline.{
  retry, Event, slept, tried, classify, classify_response, classify_failure, conclude, pause,
  settle, retry_verb, attempts, execute,
}

-- The server answered 429: it did not process the request.
abbrev pub is_rejected : {E : Type 0} → Outcome E → Bool
is_rejected (received res) = res.status == too_many_requests
is_rejected (failed f) = false

-- The attempts that the server may have processed.
abbrev pub processed : {E : Type 0} → (ℕ → Outcome E) → List Event → ℕ
processed outcome [] = 0
processed outcome (slept i d ∷ t) = processed outcome t
processed outcome (tried i ∷ t) =
    (elim (is_rejected (outcome i)) [ true ↦ 0 | false ↦ 1 ]) + processed outcome t

module _ {E : Type 0} (r : RetryConfig) (env : Environment E) (outcome : ℕ → Outcome E) where
  retry-rejected :
      (o : Outcome E) (ctx : Option E)
      → classify r env.clock false ctx o ≡ retry
      → is_rejected o ≡ true
  unfolding classify classify_response classify_failure
  retry-rejected (received res) ctx h = ground arith
  retry-rejected (failed f) ctx h = ground arith

  processed-settle :
      (rounds i : ℕ) → processed outcome (settle r env false outcome rounds i).trace ≤ 1
  unfolding settle conclude pause
  processed-settle zero i = ground arith
  processed-settle (suc rounds) i =
      ground (arith, retry-rejected (outcome i) (env.ctx_err i), processed-settle rounds (i + 1))

retry_verb-write :
    (r : RetryConfig) (method : Bytes)
    → r.retry_writes ≡ false
    → method ≢ codes "GET"
    → method ≢ codes "DELETE"
    → retry_verb r method ≡ false
unfolding retry_verb
retry_verb-write r method w g d =
    ground (arith, bytes_eq_iff method (codes "GET"), bytes_eq_iff method (codes "DELETE"))

-- Without RetryWrites a call with a method other than GET and DELETE makes at most one attempt that
-- the server did not reject by a 429.
pub write_at_most_once :
    {E : Type 0} (core : Core) (env : Environment E) (method path : Bytes) (query : Values)
    (payload : Option Bytes)
    → core.retry.retry_writes ≡ false
    → method ≢ codes "GET"
    → method ≢ codes "DELETE"
    → processed
        (attempt core env method path query payload)
        (execute core env method path query payload).trace
      ≤ 1
unfolding execute
write_at_most_once core env method path query payload w g d =
    rw (retry_verb-write core.retry method w g d) (
      processed-settle core.retry env (attempt core env method path query payload)
        (attempts core.retry - 1) 0)
