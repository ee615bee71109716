-- ===== src/Client/Call/Endings.antt =====
-- What a successful call rests on, and the waits of the calls of a constructed client.
use ynab_go.Base.{
  ℕ, ◌≡◌, refl, true, false, Option, none, some, List, arith, All, Bytes, Bool-cases, Option-cases,
  inl, inr,
}
use ynab_go.Std.Url.{Values}
use ynab_go.Errors.{WireError}
use ynab_go.Transport.{Response, Environment, received}
use ynab_go.Transport.Attempt.{attempt}
use ynab_go.Transport.Delay.Bounds.{IsJitter}
use ynab_go.Transport.Pipeline.{Ending, answered, aborted, canceled, execute}
use ynab_go.Transport.Pipeline.Trace.{last_try, execute-answered}
use ynab_go.Transport.Pipeline.Waits.{IsShort, execute-IsShort}
use ynab_go.Client.{Client, Setting, Url, core, new_client}
use ynab_go.Client.Options.{IsUsable, IsInt64Setting, new_client-IsUsable}
use ynab_go.Client.Call.{
  success, Envelope, malformed, no_data, payload_of, Payload, nil_body, encoded, unencodable,
  is_success, decode_data, finish, run_request, transport_do, is_collapsed, call,
}

-- The bytes of a body that could be encoded.
abbrev pub IsBodyOf : Payload → Option Bytes → Type 0
IsBodyOf nil_body b = b ≡ none
IsBodyOf (encoded p) b = b ≡ some p
IsBodyOf unencodable b = true ≡ false

module _ {E : Type 0} {T : Type 0} (wire : Bytes → Option WireError)
    (envelope : Bytes → Envelope T) where
  decode_data-success :
      (v : T) (en : Envelope T) → decode_data {E = E} en ≡ success v → en ≡ payload_of v
  unfolding decode_data
  decode_data-success v (payload_of w) h = ground arith
  decode_data-success v malformed h = ground arith
  decode_data-success v no_data h = ground arith

  finish-success :
      (env : Environment E) (v : T) (ending : Ending E)
      → finish wire env (λ b. decode_data (envelope b)) ending ≡ success v
      → (res : Response) × (ending ≡ answered res)
        × (is_success res.status ≡ true)
        × (envelope res.body ≡ payload_of v)
  unfolding finish
  finish-success env v (answered res) h = elim (Bool-cases (is_success res.status)) [
    | inl fine ↦ (res, refl, fine, decode_data-success v (envelope res.body) (ground arith))
    | inr bad ↦ absurd (ground arith)
  ]
  finish-success env v (aborted f) h = absurd (ground arith)
  finish-success env v (canceled e) h = absurd (ground arith)

  -- A call that the server answered with a payload.
  abbrev pub IsAnswered : Client → Environment E → Bytes → Bytes → Values → Payload → T → Type 0
  IsAnswered c env method path query body v =
      (b : Option Bytes) × IsBodyOf body b
      × ((i : ℕ) × ((res : Response) × ((attempt (core c) env method path query b i ≡ received res)
              × ((is_success res.status ≡ true) × (envelope res.body ≡ payload_of v)))))

  request-success :
      (c : Client) (env : Environment E) (method path : Bytes) (query : Values) (b : Option Bytes)
      (v : T)
      → (run_request wire (core c) env (λ d. decode_data (envelope d)) method path query b).result
        ≡ success v
      → (i : ℕ) × ((res : Response) × ((attempt (core c) env method path query b i ≡ received res)
            × ((is_success res.status ≡ true) × (envelope res.body ≡ payload_of v))))
  unfolding run_request
  request-success c env method path query b v h =
      let run = execute (core c) env method path query b in
      let (res, ended, fine, got) = finish-success env v run.ending h in
      (
        last_try 0 run.trace,
        (res, ((execute-answered (core c) env method path query b res ended).0, (fine, got))),
      )

  transport_do-success :
      (c : Client) (env : Environment E) (method path : Bytes) (query : Values) (body : Payload)
      (v : T)
      → (transport_do wire envelope (core c) env method path query body).result ≡ success v
      → IsAnswered c env method path query body v
  unfolding transport_do
  transport_do-success c env method path query nil_body v h =
      (none, refl, request-success c env method path query none v h)
  transport_do-success c env method path query (encoded p) v h =
      (some p, refl, request-success c env method path query (some p) v h)
  transport_do-success c env method path query unencodable v h = absurd (ground arith)

  -- A call succeeds only for a client without a configuration error, on a path that the guard lets
  -- pass, and with the payload of a 2xx response that one of its attempts received.
  pub call-success :
      (c : Client) (env : Environment E) (method path : Bytes) (query : Values) (body : Payload)
      (v : T)
      → (call wire envelope c env method path query body).result ≡ success v
      → (c.config_err ≡ none)
        × ((is_collapsed path ≡ false) × IsAnswered c env method path query body v)
  unfolding call
  call-success c env method path query body v h = elim (Option-cases c.config_err) [
    | inl fine ↦ elim (Bool-cases (is_collapsed path)) [
      | inl gap ↦ absurd (ground arith)
      | inr whole ↦
          (fine, (whole, transport_do-success c env method path query body v (ground arith)))
    ]
    | inr (e, bad) ↦ absurd (ground arith)
  ]

  transport_do-IsShort :
      (c : Client) (env : Environment E) (method path : Bytes) (query : Values) (body : Payload)
      → IsUsable c
      → ((i : ℕ) → IsJitter (env.jitter i))
      → All
          (IsShort (core c).retry)
          (transport_do wire envelope (core c) env method path query body).trace
  unfolding transport_do run_request core
  transport_do-IsShort c env method path query nil_body u j =
      execute-IsShort (core c) env method path query none (ground arith) (ground arith)
        (ground arith) j
  transport_do-IsShort c env method path query (encoded p) u j =
      execute-IsShort (core c) env method path query (some p) (ground arith) (ground arith)
        (ground arith) j
  transport_do-IsShort c env method path query unencodable u j = tt

  call-IsShort_for :
      (c : Client) (env : Environment E) (method path : Bytes) (query : Values) (body : Payload)
      → IsUsable c
      → ((i : ℕ) → IsJitter (env.jitter i))
      → All (IsShort (core c).retry) (call wire envelope c env method path query body).trace
  unfolding call
  call-IsShort_for c env method path query body u j =
      ground (arith, transport_do-IsShort c env method path query body u j)

-- Whatever options a client is built with, every wait of every one of its calls is positive and no
-- longer than the larger of its MaxBackoff and a minute, if the MaxBackoff of every policy option is
-- an int64 and the jitter stays below its span.
pub call-IsShort :
    {E : Type 0} {T : Type 0} (wire : Bytes → Option WireError) (envelope : Bytes → Envelope T)
    (parse_url : Bytes → Option Url) (op : Bytes) (ts : Option ℕ) (settings : List Setting)
    (env : Environment E) (method path : Bytes) (query : Values) (body : Payload)
    → All IsInt64Setting settings
    → ((i : ℕ) → IsJitter (env.jitter i))
    → let c = new_client parse_url op ts settings in
      All (IsShort (core c).retry) (call wire envelope c env method path query body).trace
call-IsShort wire envelope parse_url op ts settings env method path query body i j =
    call-IsShort_for wire envelope (new_client parse_url op ts settings) env method path query body
      (new_client-IsUsable parse_url op ts settings i) j
