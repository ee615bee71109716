-- ===== src/Client/Call/Tests.antt =====
-- A server that is busy once, and then answers.
use ynab_go.Base.{
  ℕ, zero, suc, ◌<◌, ◌≡◌, refl, sym, subst, inr, false, Option, none, [], arith, Bytes, codes,
  bytes_eq,
}
use ynab_go.Base.Int.{◌*ℤ◌}
use ynab_go.Base.Word.{wrap}
use ynab_go.Errors.{WireError}
use ynab_go.Std.Strings.{has_suffix, contains, has_prefix}
use ynab_go.Std.Strconv.{parse_int, signed, in_range, parse_digits, value_from}
use ynab_go.Transport.{Response, received}
use ynab_go.Transport.Tests.{server, header}
use ynab_go.Transport.Delay.{retry_after_delay, retry_after_cap, seconds_delay}
use ynab_go.Transport.Attempt.{
  attempt, response_limit, limiter_verdict, with_token, send_request, read_answer, read_body,
}
use ynab_go.Transport.Pipeline.{attempts}
use ynab_go.Transport.Pipeline.Recovery.{IsTransient, IsAlive}
use ynab_go.Client.{core}
use ynab_go.Client.Tests.{plain}
use ynab_go.Client.Call.{Envelope, payload_of, success, nil_body, call, is_collapsed, is_success}
use ynab_go.Client.Call.Recovery.{call-recovers}

abbrev wire : Bytes → Option WireError
wire b = none

abbrev envelope : Bytes → Envelope Bytes
envelope b = payload_of b

abbrev fine : Response
fine = record { status = 200; body = codes "fine"; header = header }

abbrev busy : Response
busy = record { status = 429; body = codes "slow"; header = header }

first_busy : attempt (core plain) server (codes "GET") (codes "user") [] none 0 ≡ received busy
unfolding core attempt with_token send_request read_answer read_body limiter_verdict response_limit
first_busy = refl

busy-IsTransient : IsTransient {E = ℕ} (core plain).retry server.clock (received busy)
unfolding core retry_after_delay seconds_delay retry_after_cap wrap parse_int signed in_range
    parse_digits value_from ◌*ℤ◌ bytes_eq
busy-IsTransient = inr (refl, omega arith)

transient :
    (n : ℕ)
    → n < 1
    → IsTransient
        (core plain).retry
        server.clock
        (attempt (core plain) server (codes "GET") (codes "user") [] none n)
transient zero h =
    subst (IsTransient (core plain).retry server.clock) (sym first_busy) busy-IsTransient
transient (suc n) h = absurd (omega (arith, h))

second_fine : attempt (core plain) server (codes "GET") (codes "user") [] none 1 ≡ received fine
unfolding core attempt with_token send_request read_answer read_body limiter_verdict response_limit
second_fine = refl

server-IsAlive : IsAlive server
server-IsAlive = ((λ i. refl), ((λ i. λ d. refl), (λ i. refl)))

tries_left : 1 < attempts (core plain).retry
unfolding core attempts
tries_left = ground arith

plain_path : is_collapsed (codes "user") ≡ false
unfolding is_collapsed has_suffix contains has_prefix
plain_path = refl

call-recovers_example :
    (call wire envelope plain server (codes "GET") (codes "user") [] nil_body).result
    ≡ success (codes "fine")
unfolding is_success
call-recovers_example =
    call-recovers wire envelope plain server (codes "user") [] 1 fine (codes "fine") refl plain_path
      server-IsAlive tries_left transient second_fine refl refl
