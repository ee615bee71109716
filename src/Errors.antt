-- ===== src/Errors.antt =====
-- errors.go: the API's error, the error of a check before any I/O, the sentinels, and what may be
-- retried. `none` stands for a nil error.
pub mod Taxonomy
pub mod Retryable
mod Tests
use ynab_go.Base.{
  ℕ, zero, suc, ◌+◌, ◌≤◌, ◌≡◌, Bool, true, false, not, ◌&&◌, ◌||◌, Option, none, some, List, [],
  ◌∷◌, ◌++◌, Bytes, codes, bytes_eq, ◌==◌, ltb, if◌then◌else◌, is_nil,
}
use ynab_go.Base.Int.{ℤ, pos}
use ynab_go.Std.Strconv.{format_uint}
use ynab_go.Std.Utf8.{rune_count}
use ynab_go.Transport.{Duration, Header, Clock}
use ynab_go.Transport.Delay.{retry_after_delay, retry_after_key, too_many_requests}

-- `Error`, a YNAB API error response.
pub record ApiError : Type 0 where
  pub status_code : ℕ
  pub id : Bytes
  pub name : Bytes
  pub detail : Bytes
  pub retry_after : Duration

pub record ArgumentError : Type 0 where
  pub op : Bytes
  pub field : Bytes
  pub reason : Bytes

pub data Sentinel : Type 0 where
  bad_request not_authorized forbidden subscription_lapsed trial_expired : Sentinel
  unauthorized_scope data_limit_reached not_found route_not_found resource_not_found : Sentinel
  conflict rate_limited server_error service_unavailable : Sentinel

pub Sentinel-discrete : Discrete Sentinel
Sentinel-discrete = hlevel

abbrev prefixed : Bytes → Bytes → Bytes
prefixed sep s = if is_nil s then [] else sep ++ s

-- `Error.Error`.
pub api_message : ApiError → Bytes
api_message e =
    codes "ynab: HTTP "
    ++ (format_uint e.status_code
        ++ (prefixed (codes " ") e.id
            ++ (prefixed (codes " ") e.name ++ prefixed (codes ": ") e.detail)))

-- `ArgumentError.Error`.
pub argument_message : ArgumentError → Bytes
argument_message e =
    if is_nil e.field
    then codes "ynab: " ++ (e.op ++ (codes ": " ++ e.reason))
    else codes "ynab: " ++ (e.op ++ (codes ": " ++ (e.field ++ (codes ": " ++ e.reason))))

abbrev by_id : List (Bytes × Sentinel)
by_id =
    (codes "400", bad_request)
    ∷ (codes "401", not_authorized)
    ∷ (codes "403.1", subscription_lapsed)
    ∷ (codes "403.2", trial_expired)
    ∷ (codes "403.3", unauthorized_scope)
    ∷ (codes "403.4", data_limit_reached)
    ∷ (codes "404.1", route_not_found)
    ∷ (codes "404.2", resource_not_found)
    ∷ (codes "409", conflict)
    ∷ (codes "429", rate_limited)
    ∷ (codes "500", server_error)
    ∷ (codes "503", service_unavailable)
    ∷ []

lookup_id : Bytes → List (Bytes × Sentinel) → Option Sentinel
lookup_id k [] = none
lookup_id k ((j, s) ∷ m) = if bytes_eq k j then some s else lookup_id k m

-- `sentinelByID`.
pub sentinel_by_id : Bytes → Option Sentinel
unfolding lookup_id
sentinel_by_id id = lookup_id id by_id

-- `sentinelByStatus`.
pub sentinel_by_status : ℕ → Option Sentinel
sentinel_by_status status =
    if status == 400
    then some bad_request
    else if status == 401
    then some not_authorized
    else if status == 403
    then some forbidden
    else if status == 404
    then some not_found
    else if status == 409
    then some conflict
    else if status == 429
    then some rate_limited
    else if status == 500
    then some server_error
    else if status == 503
    then some service_unavailable
    else none

same : Sentinel → Sentinel → Bool
same s t = elim (Sentinel-discrete s t) [ yes e ↦ true | no e ↦ false ]

matches : Option Sentinel → Sentinel → Bool
matches none target = false
matches (some s) target = same target s

-- `Error.Is`.
pub is : ApiError → Sentinel → Bool
unfolding matches
is e target =
    matches (sentinel_by_id e.id) target || matches (sentinel_by_status e.status_code) target

-- A Go error as errors.Is and errors.As walk it. A net.Error holds another error or none; the naked
-- context.DeadlineExceeded is a net.Error too.
pub data Chain : Type 0 where
  api : ApiError → Chain
  argument : ArgumentError → Chain
  sentinel : Sentinel → Chain
  context_canceled : Chain
  deadline_exceeded : Chain
  net_error : Chain
  net_wrapping : Chain → Chain
  wrapped : Bytes → Chain → Chain
  other : Bytes → Chain

-- errors.Is(err, sentinel)
pub chain_is : Chain → Sentinel → Bool
unfolding same
chain_is (api e) s = is e s
chain_is (sentinel t) s = same t s
chain_is (net_wrapping c) s = chain_is c s
chain_is (wrapped m c) s = chain_is c s
chain_is _ s = false

-- errors.As(err, **ArgumentError)
pub as_argument : Chain → Bool
as_argument (argument e) = true
as_argument (net_wrapping c) = as_argument c
as_argument (wrapped m c) = as_argument c
as_argument _ = false

-- errors.As(err, **Error)
pub as_api : Chain → Bool
as_api (api e) = true
as_api (net_wrapping c) = as_api c
as_api (wrapped m c) = as_api c
as_api _ = false

-- errors.Is(err, context.Canceled)
pub is_canceled : Chain → Bool
is_canceled context_canceled = true
is_canceled (net_wrapping c) = is_canceled c
is_canceled (wrapped m c) = is_canceled c
is_canceled _ = false

-- errors.As(err, *net.Error), and whether the error found is not the caller's bare deadline.
pub net_failure : Chain → Bool
net_failure deadline_exceeded = false
net_failure net_error = true
net_failure (net_wrapping c) = true
net_failure (wrapped m c) = net_failure c
net_failure _ = false

-- `IsRetryable`.
pub is_retryable : Option Chain → Bool
is_retryable none = false
is_retryable (some c) =
    if as_argument c
    then false
    else if chain_is c rate_limited || (chain_is c server_error || chain_is c service_unavailable)
    then true
    else if as_api c
    then false
    else if is_canceled c
    then false
    else net_failure c

-- The error object of an envelope, as json.Unmarshal finds it: `none` without one.
pub record WireError : Type 0 where
  pub id : Bytes
  pub name : Bytes
  pub detail : Bytes

abbrev blank : Option WireError → WireError
blank none = record { id = []; name = []; detail = [] }
blank (some w) = w

-- `decodeWireError`; `envelope` is the JSON decoder at the error envelope.
pub decode_wire_error : (Bytes → Option WireError) → Clock → ℕ → Bytes → Header → ApiError
decode_wire_error envelope clock status body header =
    let w = blank (envelope body) in
    record {
      status_code = status;
      id = w.id;
      name = w.name;
      detail = w.detail;
      retry_after =
          if status == too_many_requests
          then retry_after_delay clock (header retry_after_key)
          else pos 0;
    }

-- `errFirst`.
unfoldable pub err_first : {A : Type 0} → List (Option A) → Option A
err_first [] = none
err_first (some e ∷ errs) = some e
err_first (none ∷ errs) = err_first errs

-- `maxLenError`.
pub max_len_error : Bytes → Bytes → ℕ → ArgumentError
max_len_error op field limit = record {
  op = op;
  field = field;
  reason = codes "must be at most " ++ (format_uint limit ++ codes " characters");
}

-- `checkRuneMax`.
unfoldable pub check_rune_max : Bytes → Bytes → Bytes → ℕ → Option ArgumentError
check_rune_max op field v limit =
    if ltb limit (rune_count v) then some (max_len_error op field limit) else none
