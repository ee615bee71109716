-- ===== src/Transport/Tests.antt =====
-- The theorems at a concrete server, policy and client configuration.
use ynab_go.Base.{
  ℕ, zero, suc, ◌*◌, ◌^◌, ◌≤◌, ◌<◌, ◌≡◌, ◌⊎◌, refl, true, false, none, some, [], ◌∷◌, min, arith,
  All, map, Bytes, codes, bytes_eq,
}
use ynab_go.Base.Int.{◌+ℤ◌, pos, ◌≤ℤ◌, ◌<ℤ◌, ◌*ℤ◌}
use ynab_go.Base.Word.{wrap}
use ynab_go.Std.Strconv.{parse_int, signed, in_range, parse_digits, value_from}
use ynab_go.Transport.{
  max_int64, Clock, Environment, Core, RetryConfig, Request, Response, Answer, answer, token,
  received, failed, limiter, Header, is_hook,
}
use ynab_go.Transport.Delay.{
  backoff, retry_after_delay, retry_after_cap, retry_delay, seconds_delay,
}
use ynab_go.Transport.Delay.Bounds.{IsJitter, backoff_range}
use ynab_go.Transport.Attempt.{
  attempt, to_request, response_limit, limiter_verdict, with_token, send_request, read_answer,
  read_body, read_within,
}
use ynab_go.Transport.Attempt.Safety.{IsWhole, attempt_received}
use ynab_go.Transport.Path.{join_path, segments_of, unescape, IsPlainSegment, join_path_lem}
use ynab_go.Transport.Pipeline.{
  execute, attempts, answered, aborted, classify, classify_response, classify_failure, retry_verb,
  done, settle, last_response, conclude, pause, sleep,
}
use ynab_go.Transport.Pipeline.Trace.{
  tries, last_try, tries-execute, execute-answered, execute-aborted,
}
use ynab_go.Transport.Pipeline.Writes.{processed, write_at_most_once}

abbrev pub clock : Clock
clock = record { now = pos 0; parse_time = λ v. none }

abbrev pub header : Header
header = λ k. codes "2"

-- A 429 that asks for two seconds, and then a 200.
abbrev pub busy_once : ℕ → Request → Answer ℕ
busy_once zero req = answer 429 header (codes "slow") none
busy_once (suc i) req = answer 200 header (codes "fine") none

abbrev pub server : Environment ℕ
server = record {
  wait = λ i. none;
  get_token = λ i. token (codes "t");
  refuse_request = λ m u. none;
  exchange = busy_once;
  ctx_err = λ i. none;
  select_sleep = λ i d. none;
  ctx_err_no_wait = λ i. none;
  jitter = λ i span. pos 0;
  clock = clock;
}

-- The same server behind a limiter that fails.
abbrev full : Environment ℕ
full = record server { wait = λ i. some 7 }

abbrev policy : RetryConfig
policy = record {
  max_attempts = pos 3;
  min_backoff = pos 300;
  max_backoff = pos 30000;
  retry_writes = false;
  disabled = false;
}

abbrev core : Core
core = record {
  base_url = codes "https://h/v1";
  user_agent = codes "ua";
  has_limiter = true;
  retry = policy;
  max_response_bytes = pos 64;
}

pub server-IsJitter : (i : ℕ) → IsJitter (server.jitter i)
server-IsJitter i span h = omega arith

fine : Response
fine = record { status = 200; body = codes "fine"; header = header }

backoff_range_example :
    ((300 < min 30000 (300 * 2 ^ 2))
      × ((pos 300 ≤ℤ backoff policy (λ span. pos 0) 2)
          × (backoff policy (λ span. pos 0) 2 <ℤ pos (min 30000 (300 * 2 ^ 2)))))
    ⊎ ((min 30000 (300 * 2 ^ 2) ≤ 300) × (backoff policy (λ span. pos 0) 2 ≡ pos 300))
backoff_range_example =
    backoff_range policy (λ span. pos 0) 300 30000 2 refl refl (omega arith) (omega arith)
      (omega arith) (server-IsJitter 0)

join_path_lem_example :
    (map unescape (segments_of (join_path (codes "plans" ∷ codes "a/b" ∷ codes ".." ∷ [])))
      ≡ codes "plans" ∷ codes "a/b" ∷ codes ".." ∷ [])
    × All IsPlainSegment (segments_of (join_path (codes "plans" ∷ codes "a/b" ∷ codes ".." ∷ [])))
join_path_lem_example = join_path_lem (codes "plans") (codes "a/b" ∷ codes ".." ∷ []) (ground arith)

second_try : attempt core server (codes "GET") (codes "user") [] none 1 ≡ received fine
unfolding attempt with_token send_request read_answer read_body limiter_verdict response_limit fine
second_try = refl

attempt_received_example :
    (limiter_verdict core server 1 ≡ none)
    × ((t : Bytes) × (server.get_token 1 ≡ token t)
        × IsWhole
            (response_limit core)
            (server.exchange 1 (to_request core (codes "GET") (codes "user") [] none t))
            fine)
attempt_received_example =
    attempt_received core server (codes "GET") (codes "user") [] none 1 fine (omega arith)
      second_try

-- With the largest int64 as the limit, limit+1 wraps: a body that is there is received as an empty
-- one.
nothing_read :
    read_body {E = ℕ} (pos (max_int64)) 200 header (codes "fine") none
    ≡ received (record { status = 200; body = []; header = header })
unfolding read_body read_within wrap ◌+ℤ◌
nothing_read = refl

write_at_most_once_example :
    processed
      (attempt core server (codes "POST") (codes "user") [] none)
      (execute core server (codes "POST") (codes "user") [] none).trace
    ≤ 1
write_at_most_once_example =
    write_at_most_once core server (codes "POST") (codes "user") [] none refl (ground arith)
      (ground arith)

tries-execute_example :
    let n = tries (execute core server (codes "GET") (codes "user") [] none).trace in
    (1 ≤ n) × ((n ≡ 1) ⊎ ((core.retry.disabled ≡ false) × (pos n ≤ℤ core.retry.max_attempts)))
tries-execute_example = tries-execute core server (codes "GET") (codes "user") [] none

second_answered : (execute core server (codes "GET") (codes "user") [] none).ending ≡ answered fine
unfolding execute settle attempts classify classify_response retry_verb last_response conclude pause
    sleep retry_delay retry_after_delay seconds_delay retry_after_cap attempt with_token
    send_request read_answer read_body limiter_verdict response_limit fine wrap parse_int signed
    in_range parse_digits value_from ◌*ℤ◌ bytes_eq
second_answered = refl

execute-answered_example :
    let run = execute core server (codes "GET") (codes "user") [] none in
    let outcome = attempt core server (codes "GET") (codes "user") [] none in
    let last = last_try 0 run.trace in
    (outcome last ≡ received fine)
    × ((classify core.retry clock (retry_verb core.retry (codes "GET")) none (outcome last) ≡ done)
        ⊎ (tries run.trace ≡ attempts core.retry))
execute-answered_example =
    execute-answered core server (codes "GET") (codes "user") [] none fine second_answered

full_aborted : (execute core full (codes "GET") (codes "user") [] none).ending ≡ aborted (limiter 7)
unfolding execute settle attempts classify classify_failure retry_verb conclude attempt
    limiter_verdict is_hook
full_aborted = refl

execute-aborted_example :
    attempt core full
      (codes "GET")
      (codes "user")
      []
      none
      (last_try 0 (execute core full (codes "GET") (codes "user") [] none).trace)
    ≡ failed (limiter 7)
execute-aborted_example =
    execute-aborted core full (codes "GET") (codes "user") [] none (limiter 7) full_aborted
