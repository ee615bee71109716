-- ===== src/Transport/Pipeline/Recovery.antt =====
-- internal/transport/retry.go: the retry loop against a server that recovers in time.
use ynab_go.Base.{
  ℕ, zero, suc, ◌+◌, ◌-◌, ◌≤◌, ◌<◌, ◌≡◌, ◌⊎◌, refl, ◌∙◌, ap, subst, true, false, Option, none,
  arith, Bytes,
}
use ynab_go.Base.Int.{◌≤ℤ◌}
use ynab_go.Std.Url.{Values}
use ynab_go.Transport.{
  Core, Environment, RetryConfig, Clock, Response, is_hook, Outcome, received, failed, Duration,
}
use ynab_go.Transport.Delay.{retry_after_delay, retry_after_cap, retry_after_key, retry_delay}
use ynab_go.Transport.Attempt.{attempt}
use ynab_go.Transport.Pipeline.{
  answered, Run, retry, done, classify, classify_response, classify_failure, retry_verb, attempts,
  sleep, pause, conclude, stop, exhausted, last_response, settle, execute,
}
use ynab_go.Transport.Pipeline.Classify.{is_transient_status}

-- An outcome that a read may retry: an error that is no hook's, a 500, a 503, or a 429 that does not
-- ask for a longer wait than the policy allows.
abbrev pub IsTransient : {E : Type 0} → RetryConfig → Clock → Outcome E → Type 0
IsTransient r clock (failed f) = is_hook f ≡ false
IsTransient r clock (received res) =
    ((res.status ≡ 500) ⊎ (res.status ≡ 503))
    ⊎ ((res.status ≡ 429)
        × (retry_after_delay clock (res.header retry_after_key) ≤ℤ retry_after_cap r))

-- The context is never done.
abbrev pub IsAlive : {E : Type 0} → Environment E → Type 0
IsAlive env =
    ((i : ℕ) → env.ctx_err i ≡ none)
    × (((i : ℕ) (d : Duration) → env.select_sleep i d ≡ none)
        × ((i : ℕ) → env.ctx_err_no_wait i ≡ none))

module _ {E : Type 0} where
  classify-transient :
      (r : RetryConfig) (clock : Clock) (o : Outcome E)
      → IsTransient r clock o
      → classify r clock true none o ≡ retry
  unfolding classify classify_response classify_failure
  classify-transient r clock (failed f) h = ground arith
  classify-transient r clock (received res) h = ground (arith, h)

  sleep-alive : (env : Environment E) (i : ℕ) (d : Duration) → IsAlive env → sleep env i d ≡ none
  unfolding sleep
  sleep-alive env i d alive = ground (arith, alive.1.0 i d, alive.1.1 i)

  classify-final :
      (r : RetryConfig) (clock : Clock) (ctx : Option E) (res : Response)
      → is_transient_status res.status ≡ false
      → classify r clock true ctx (received res) ≡ done
  unfolding classify classify_response
  classify-final r clock ctx res h = ground (arith, h)

  conclude-final :
      (r : RetryConfig) (clock : Clock) (ctx : Option E) (o : Outcome E) (res : Response)
      (next : Run E)
      → o ≡ received res
      → is_transient_status res.status ≡ false
      → (conclude (classify r clock true ctx o) o next).ending ≡ answered res
  unfolding conclude last_response
  conclude-final r clock ctx o res next e final = rw (e, classify-final r clock ctx res final) refl

  pause-alive :
      (r : RetryConfig) (env : Environment E) (o : Outcome E) (i : ℕ) (d : Duration) (next : Run E)
      → IsAlive env
      → IsTransient r env.clock o
      → (conclude
          (classify r env.clock true (env.ctx_err i) o)
          o
          (pause (i + 1) d (sleep env (i + 1) d) next)).ending
        ≡ next.ending
  unfolding conclude pause
  pause-alive r env o i d next alive h =
      rw (alive.0 i, classify-transient r env.clock o h, sleep-alive env (i + 1) d alive) refl

  settle-recovers :
      (r : RetryConfig) (env : Environment E) (outcome : ℕ → Outcome E) (rounds i j : ℕ)
      (res : Response)
      → IsAlive env
      → j ≤ rounds
      → ((n : ℕ) → n < j → IsTransient r env.clock (outcome (i + n)))
      → outcome (i + j) ≡ received res
      → is_transient_status res.status ≡ false
      → (settle r env true outcome rounds i).ending ≡ answered res
  unfolding settle
  settle-recovers r env outcome zero i j res alive enough before now final =
      let here : i ≡ i + j = omega arith in
      conclude-final r env.clock (env.ctx_err i) (outcome i) res (stop (exhausted (outcome i)))
        (ap outcome here ∙ now) final
  settle-recovers r env outcome (suc rounds) i zero res alive enough before now final =
      let here : i ≡ i + 0 = omega arith in
      conclude-final r env.clock (env.ctx_err i) (outcome i) res _ (ap outcome here ∙ now) final
  settle-recovers r env outcome (suc rounds) i (suc j) res alive enough before now final =
      let first : IsTransient r env.clock (outcome i) =
        subst (λ n. IsTransient r env.clock (outcome n)) (omega arith) (before 0 (omega arith)) in
      let later : (n : ℕ) → n < j → IsTransient r env.clock (outcome (i + 1 + n)) = λ n. λ h.
        subst (λ x. IsTransient r env.clock (outcome x)) (omega arith)
          (before (suc n) (omega (arith, h))) in
      let there : i + 1 + j ≡ i + suc j = omega arith in
      pause-alive r env (outcome i) i
        (retry_delay r env.clock (env.jitter (i + 1)) (i + 1) (last_response (outcome i)))
        (settle r env true outcome rounds (i + 1)) alive first
      ∙ settle-recovers r env outcome rounds (i + 1) j res alive (omega (arith, enough)) later
          (ap outcome there ∙ now) final

  -- On a method that may be retried, with a context that is never done: if fewer attempts than the
  -- policy allows end in transient outcomes, and the next one receives a response that is not
  -- transient, then `execute` answers that response.
  pub execute-recovers :
      (core : Core) (env : Environment E) (method path : Bytes) (query : Values)
      (payload : Option Bytes) (j : ℕ) (res : Response)
      → retry_verb core.retry method ≡ true
      → IsAlive env
      → j < attempts core.retry
      → ((n : ℕ)
          → n < j
          → IsTransient core.retry env.clock (attempt core env method path query payload n))
      → attempt core env method path query payload j ≡ received res
      → is_transient_status res.status ≡ false
      → (execute core env method path query payload).ending ≡ answered res
  unfolding execute
  execute-recovers core env method path query payload j res verb alive enough before now final =
      let here : 0 + j ≡ j = omega arith in
      rw verb (
        settle-recovers core.retry env (attempt core env method path query payload)
          (attempts core.retry - 1) 0 j res alive (omega (arith, enough))
          (λ n. λ h.
            subst
              (λ x. IsTransient core.retry env.clock (attempt core env method path query payload x))
              (omega arith) (before n h))
          (ap (attempt core env method path query payload) here ∙ now) final)
