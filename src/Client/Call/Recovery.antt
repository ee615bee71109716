-- ===== src/Client/Call/Recovery.antt =====
-- plan.go: a read through `do` against a server that recovers in time.
use ynab_go.Base.{ℕ, ◌<◌, ◌≡◌, true, false, Option, none, arith, Bytes, codes, bytes_eq}
use ynab_go.Std.Url.{Values}
use ynab_go.Errors.{WireError}
use ynab_go.Transport.{RetryConfig, Response, Environment, received}
use ynab_go.Transport.Attempt.{attempt}
use ynab_go.Transport.Pipeline.{answered, attempts, execute, retry_verb}
use ynab_go.Transport.Pipeline.Classify.{is_transient_status}
use ynab_go.Transport.Pipeline.Recovery.{IsTransient, IsAlive, execute-recovers}
use ynab_go.Client.{Client, core}
use ynab_go.Client.Call.{
  success, Envelope, payload_of, nil_body, is_success, decode_data, finish, run_request,
  transport_do, is_collapsed, call,
}

retry_verb-get : (r : RetryConfig) → retry_verb r (codes "GET") ≡ true
unfolding retry_verb bytes_eq
retry_verb-get r = ground arith

is_success-final : (n : ℕ) → is_success n ≡ true → is_transient_status n ≡ false
unfolding is_success
is_success-final n h = ground (arith, h)

module _ {E : Type 0} {T : Type 0} (wire : Bytes → Option WireError)
    (envelope : Bytes → Envelope T) where
  -- A GET on a path that the guard lets through, with a client that has no stored error and a
  -- context that is never done: if fewer attempts than the client allows end in transient outcomes,
  -- and the next receives a 2xx response whose envelope holds a payload, then the call succeeds
  -- with it.
  pub call-recovers :
      (c : Client) (env : Environment E) (path : Bytes) (query : Values) (j : ℕ) (res : Response)
      (v : T)
      → c.config_err ≡ none
      → is_collapsed path ≡ false
      → IsAlive env
      → j < attempts (core c).retry
      → ((n : ℕ)
          → n < j
          → IsTransient
              (core c).retry
              env.clock
              (attempt (core c) env (codes "GET") path query none n))
      → attempt (core c) env (codes "GET") path query none j ≡ received res
      → is_success res.status ≡ true
      → envelope res.body ≡ payload_of v
      → (call wire envelope c env (codes "GET") path query nil_body).result ≡ success v
  unfolding call transport_do run_request finish decode_data
  call-recovers c env path query j res v ok whole alive enough before now fine decoded =
      let answer : (execute (core c) env (codes "GET") path query none).ending ≡ answered res =
        execute-recovers (core c) env (codes "GET") path query none j res
          (retry_verb-get (core c).retry) alive enough before now
          (is_success-final res.status fine) in
      ground (arith, ok, whole, answer, fine, decoded)
