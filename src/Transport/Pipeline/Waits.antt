-- ===== src/Transport/Pipeline/Waits.antt =====
-- Every wait of the pipeline is positive and bounded.
use ynab_go.Base.{ℕ, zero, suc, ◌+◌, ◌-◌, Bool, Option, arith, All, Bytes}
use ynab_go.Base.Int.{pos, ◌≤ℤ◌}
use ynab_go.Std.Url.{Values}
use ynab_go.Transport.{max_int64, Core, RetryConfig, Outcome, Environment}
use ynab_go.Transport.Attempt.{attempt}
use ynab_go.Transport.Delay.{retry_after_cap}
use ynab_go.Transport.Delay.Bounds.{IsJitter, retry_delay-bounds}
use ynab_go.Transport.Pipeline.{
  Event, slept, tried, last_response, conclude, pause, settle, execute, retry_verb, attempts,
}

-- A wait before a retry is at least a nanosecond and no longer than the larger of MaxBackoff and a
-- minute.
abbrev pub IsShort : RetryConfig → Event → Type 0
IsShort r (slept i d) = (pos 1 ≤ℤ d) × (d ≤ℤ retry_after_cap r)
IsShort r (tried i) = Unit

module _ {E : Type 0} (r : RetryConfig) (env : Environment E) (verb : Bool)
    (outcome : ℕ → Outcome E) (lo : pos 1 ≤ℤ r.min_backoff) (le : r.min_backoff ≤ℤ r.max_backoff)
    (hi : r.max_backoff ≤ℤ pos max_int64) (jitter : (i : ℕ) → IsJitter (env.jitter i)) where
  settle-IsShort : (rounds i : ℕ) → All (IsShort r) (settle r env verb outcome rounds i).trace
  unfolding settle conclude pause
  settle-IsShort zero i = ground arith
  settle-IsShort (suc rounds) i = ground (
    arith,
    retry_delay-bounds r env.clock (env.jitter (i + 1)) (i + 1) (last_response (outcome i)) lo le hi
        (jitter (i + 1)),
    settle-IsShort rounds (i + 1),
  )

-- With a policy 0 < MinBackoff <= MaxBackoff in int64 and a jitter below its span, every wait of
-- every call is positive and no longer than the larger of MaxBackoff and a minute.
pub execute-IsShort :
    {E : Type 0} (core : Core) (env : Environment E) (method path : Bytes) (query : Values)
    (payload : Option Bytes)
    → pos 1 ≤ℤ core.retry.min_backoff
    → core.retry.min_backoff ≤ℤ core.retry.max_backoff
    → core.retry.max_backoff ≤ℤ pos max_int64
    → ((i : ℕ) → IsJitter (env.jitter i))
    → All (IsShort core.retry) (execute core env method path query payload).trace
unfolding execute
execute-IsShort core env method path query payload lo le hi jitter =
    settle-IsShort core.retry env (retry_verb core.retry method)
      (attempt core env method path query payload) lo le hi jitter (attempts core.retry - 1) 0
