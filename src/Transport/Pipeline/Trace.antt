-- ===== src/Transport/Pipeline/Trace.antt =====
-- What every run of the pipeline does: how often it tries, how it ends, how long it waits.
use ynab_go.Base.{
  ℕ, zero, suc, ◌+◌, ◌-◌, ◌≤◌, ◌≡◌, refl, ◌⊎◌, Bool, false, Option, List, [], ◌∷◌, arith, Bytes,
}
use ynab_go.Base.Int.{pos, ◌≤ℤ◌}
use ynab_go.Std.Url.{Values}
use ynab_go.Transport.{Core, RetryConfig, Response, Failure, Outcome, received, failed, Environment}
use ynab_go.Transport.Pipeline.{
  Fate, done, abort, answered, aborted, Event, slept, tried, Run, classify, conclude, pause, settle,
  retry_verb, exhausted, last_response, attempts, execute, classify_response, classify_failure,
}
use ynab_go.Transport.Attempt.{attempt}

-- The attempts in a trace.
abbrev pub tries : List Event → ℕ
tries [] = 0
tries (slept i d ∷ t) = tries t
tries (tried i ∷ t) = suc (tries t)

-- The last attempt in a trace, or the one given.
abbrev pub last_try : ℕ → List Event → ℕ
last_try i [] = i
last_try i (slept j d ∷ t) = last_try i t
last_try i (tried j ∷ t) = last_try j t

attempts_pos : (r : RetryConfig) → 1 ≤ attempts r
unfolding attempts
attempts_pos r = ground arith

attempts_bound :
    (r : RetryConfig) (n : ℕ)
    → (1 ≤ n) × (n ≤ attempts r - 1 + 1)
    → (1 ≤ n) × ((n ≡ 1) ⊎ ((r.disabled ≡ false) × (pos n ≤ℤ r.max_attempts)))
unfolding attempts
attempts_bound r n h = ground (arith, h)

module _ {E : Type 0} (r : RetryConfig) (env : Environment E) (verb : Bool)
    (outcome : ℕ → Outcome E) where
  abbrev fate : ℕ → Fate E
  fate i = classify r env.clock verb (env.ctx_err i) (outcome i)

  -- At least one attempt, and at most one more than may follow.
  tries-settle :
      (rounds i : ℕ)
      → let n = tries (settle r env verb outcome rounds i).trace in (1 ≤ n) × (n ≤ rounds + 1)
  unfolding settle conclude pause
  tries-settle zero i = ground arith
  tries-settle (suc rounds) i = ground (arith, tries-settle rounds (i + 1))

  -- How a run that ends in a response ended.
  abbrev Answers : ℕ → Run E → Response → Type 0
  Answers limit run res =
      (outcome (last_try 0 run.trace) ≡ received res)
      × ((fate (last_try 0 run.trace) ≡ done) ⊎ (tries run.trace ≡ limit))

  done-received :
      (o : Outcome E) (ctx : Option E)
      → classify r env.clock verb ctx o ≡ done
      → o ≡ received (last_response o)
  unfolding classify classify_failure last_response
  done-received (received res) ctx h = refl
  done-received (failed f) ctx h = ground arith

  exhausted-answered :
      (o : Outcome E) (res : Response) → exhausted o ≡ answered res → o ≡ received res
  unfolding exhausted
  exhausted-answered (received res') res h = cc
  exhausted-answered (failed f) res h = cc

  abort-failed :
      (o : Outcome E) (ctx : Option E) (f : Failure E)
      → classify r env.clock verb ctx o ≡ abort f
      → o ≡ failed f
  unfolding classify classify_failure classify_response
  abort-failed (received res) ctx f h = ground arith
  abort-failed (failed f') ctx f h = ground arith

  exhausted-aborted : (o : Outcome E) (f : Failure E) → exhausted o ≡ aborted f → o ≡ failed f
  unfolding exhausted
  exhausted-aborted (received res) f h = cc
  exhausted-aborted (failed f') f h = cc

  -- A run has an attempt in it, so the number given does not matter.
  last_try-settle :
      (rounds i a b : ℕ)
      → last_try a (settle r env verb outcome rounds i).trace
        ≡ last_try b (settle r env verb outcome rounds i).trace
  unfolding settle
  last_try-settle zero i a b = refl
  last_try-settle (suc rounds) i a b = refl

  settle-Answers :
      (rounds i : ℕ) (res : Response)
      → (settle r env verb outcome rounds i).ending ≡ answered res
      → Answers (rounds + 1) (settle r env verb outcome rounds i) res
  unfolding settle conclude pause
  settle-Answers zero i res h =
      ground (arith, done-received (outcome i) (env.ctx_err i), exhausted-answered (outcome i) res)
  settle-Answers (suc rounds) i res h = ground (
    arith,
    done-received (outcome i) (env.ctx_err i),
    settle-Answers rounds (i + 1) res,
    last_try-settle rounds (i + 1) i 0,
  )

  -- A run that ends in a failure ends in that of its last attempt.
  settle-aborted :
      (rounds i : ℕ) (f : Failure E)
      → (settle r env verb outcome rounds i).ending ≡ aborted f
      → outcome (last_try 0 (settle r env verb outcome rounds i).trace) ≡ failed f
  unfolding settle conclude pause
  settle-aborted zero i f h =
      ground (arith, abort-failed (outcome i) (env.ctx_err i) f, exhausted-aborted (outcome i) f)
  settle-aborted (suc rounds) i f h = ground (
    arith,
    abort-failed (outcome i) (env.ctx_err i) f,
    settle-aborted rounds (i + 1) f,
    last_try-settle rounds (i + 1) i 0,
  )

-- Every call makes at least one attempt. It makes more than one only where retries are not disabled,
-- and then at most MaxAttempts.
pub tries-execute :
    {E : Type 0} (core : Core) (env : Environment E) (method path : Bytes) (query : Values)
    (payload : Option Bytes)
    → let n = tries (execute core env method path query payload).trace in
      (1 ≤ n) × ((n ≡ 1) ⊎ ((core.retry.disabled ≡ false) × (pos n ≤ℤ core.retry.max_attempts)))
unfolding execute
tries-execute core env method path query payload = attempts_bound core.retry _ (
    tries-settle core.retry env (retry_verb core.retry method)
      (attempt core env method path query payload) (attempts core.retry - 1) 0)

-- A call that returns a response returns the one of its last attempt, and that attempt is one that
-- the pipeline does not retry or the last one allowed.
pub execute-answered :
    {E : Type 0} (core : Core) (env : Environment E) (method path : Bytes) (query : Values)
    (payload : Option Bytes) (res : Response)
    → let run = execute core env method path query payload in
      let outcome = attempt core env method path query payload in
      let last = last_try 0 run.trace in
      run.ending ≡ answered res
      → (outcome last ≡ received res)
        × ((classify core.retry env.clock
                (retry_verb core.retry method)
                (env.ctx_err last)
                (outcome last)
              ≡ done)
            ⊎ (tries run.trace ≡ attempts core.retry))
unfolding execute
execute-answered core env method path query payload res h =
    let a =
      settle-Answers core.retry env (retry_verb core.retry method)
        (attempt core env method path query payload) (attempts core.retry - 1) 0 res h in
    (a.0, ground (arith, a.1, attempts_pos core.retry))

-- A call that fails without being canceled in a wait returns the failure of its last attempt.
pub execute-aborted :
    {E : Type 0} (core : Core) (env : Environment E) (method path : Bytes) (query : Values)
    (payload : Option Bytes) (f : Failure E)
    → (execute core env method path query payload).ending ≡ aborted f
    → attempt core env method path query payload
        (last_try 0 (execute core env method path query payload).trace)
      ≡ failed f
unfolding execute
execute-aborted core env method path query payload =
    settle-aborted core.retry env (retry_verb core.retry method)
      (attempt core env method path query payload) (attempts core.retry - 1) 0
