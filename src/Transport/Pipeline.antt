-- ===== src/Transport/Pipeline.antt =====
-- internal/transport/retry.go: `classify` and the retry pipeline, with a trace of what it does.
pub mod Trace
pub mod Waits
pub mod Classify
pub mod Writes
pub mod Recovery
use ynab_go.Base.{
  ℕ, zero, suc, ◌+◌, ◌-◌, Bool, true, false, ◌&&◌, ◌||◌, Option, none, some, List, [], ◌∷◌, Bytes,
  codes, bytes_eq, ◌==◌, if◌then◌else◌,
}
use ynab_go.Base.Int.{ℤ, pos, pos_part, leb_ℤ, ltb_ℤ}
use ynab_go.Std.Url.{Values}
use ynab_go.Transport.{
  Duration, Core, RetryConfig, Clock, Response, no_response, Failure, is_hook, Outcome, received,
  failed, Environment,
}
use ynab_go.Transport.Delay.{
  retry_after_delay, retry_after_cap, retry_delay, too_many_requests, retry_after_key,
}
use ynab_go.Transport.Attempt.{attempt}

-- `retryVerb`.
unfoldable pub retry_verb : RetryConfig → Bytes → Bool
retry_verb r method =
    r.retry_writes || (bytes_eq method (codes "GET") || bytes_eq method (codes "DELETE"))

pub data Fate (E : Type 0) : Type 0 where
  retry : Fate E
  done : Fate E
  abort : Failure E → Fate E

module _ {E : Type 0} where
  -- The fate of a response.
  unfoldable pub classify_response : RetryConfig → Clock → Bool → Response → Fate E
  classify_response r clock verb res =
      if res.status == too_many_requests
      then if ltb_ℤ (retry_after_cap r) (retry_after_delay clock (res.header retry_after_key))
        then done
        else retry
      else if res.status == 500 || res.status == 503
      then if verb then retry else done
      else done

  -- The fate of an error; the second argument is ctx.Err().
  unfoldable pub classify_failure : Bool → Option E → Failure E → Fate E
  classify_failure verb ctx f =
      if is_hook f
      then abort f
      else (elim ctx [ some e ↦ abort f | none ↦ if verb then retry else abort f ])

  -- `classify`.
  unfoldable pub classify : RetryConfig → Clock → Bool → Option E → Outcome E → Fate E
  unfolding classify_response classify_failure
  classify r clock verb ctx (received res) = classify_response r clock verb res
  classify r clock verb ctx (failed f) = classify_failure verb ctx f

-- How a call of `execute` ends.
pub data Ending (E : Type 0) : Type 0 where
  answered : Response → Ending E
  aborted : Failure E → Ending E
  canceled : E → Ending E

pub data Event : Type 0 where
  slept : ℕ → Duration → Event
  tried : ℕ → Event

pub record Run (E : Type 0) : Type 0 where
  pub trace : List Event
  pub ending : Ending E

-- The attempts that the configuration allows, at least one.
unfoldable pub attempts : RetryConfig → ℕ
attempts r = if r.disabled || ltb_ℤ r.max_attempts (pos 1) then 1 else pos_part r.max_attempts

module _ {E : Type 0} where
  -- `res` after an attempt: the zero result where it failed.
  unfoldable pub last_response : Outcome E → Response
  last_response (received res) = res
  last_response (failed f) = no_response

  -- What `execute` returns when the attempts are used up.
  unfoldable pub exhausted : Outcome E → Ending E
  exhausted (received res) = answered res
  exhausted (failed f) = aborted f

  -- `sleeper.sleep`: a wait that is not positive only looks at the context.
  unfoldable pub sleep : Environment E → ℕ → Duration → Option E
  sleep env i d = if leb_ℤ d (pos 0) then env.ctx_err_no_wait i else env.select_sleep i d

  abbrev pub stop : Ending E → Run E
  stop ending = record { trace = []; ending = ending }

  abbrev pub log : Event → Run E → Run E
  log e run = record { trace = e ∷ run.trace; ending = run.ending }

  -- What follows an attempt with this fate and outcome; `next` is the next round.
  unfoldable pub conclude : Fate E → Outcome E → Run E → Run E
  conclude (abort f) o next = stop (aborted f)
  conclude done o next = stop (answered (last_response o))
  conclude retry o next = next

  -- The wait before retry i, and the rounds from there if nothing interrupts it.
  unfoldable pub pause : ℕ → Duration → Option E → Run E → Run E
  pause i d (some e) next = log (slept i d) (stop (canceled e))
  pause i d none next = log (slept i d) next

  -- The loop of `execute` from attempt i on; `outcome` gives the attempts by number, and the first
  -- number is how many more may follow attempt i.
  unfoldable pub settle : RetryConfig → Environment E → Bool → (ℕ → Outcome E) → ℕ → ℕ → Run E
  settle r env verb outcome zero i =
      let o = outcome i in
      log (tried i) (conclude (classify r env.clock verb (env.ctx_err i) o) o (stop (exhausted o)))
  settle r env verb outcome (suc rounds) i =
      let o = outcome i in
      let d = retry_delay r env.clock (env.jitter (i + 1)) (i + 1) (last_response o) in
      let next = settle r env verb outcome rounds (i + 1) in
      log (tried i) (
        conclude (classify r env.clock verb (env.ctx_err i) o) o
          (pause (i + 1) d (sleep env (i + 1) d) next))

  -- `execute`.
  unfoldable pub execute : Core → Environment E → Bytes → Bytes → Values → Option Bytes → Run E
  execute core env method path query payload =
      settle core.retry env (retry_verb core.retry method)
        (attempt core env method path query payload) (attempts core.retry - 1) 0
