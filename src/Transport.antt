-- ===== src/Transport.antt =====
-- internal/transport/transport.go and retry.go: the wire layer below the client. `E` is the type of
-- the errors that hooks, the HTTP client and the context report. What lies outside the process is
-- the record `Environment`, whose answers are indexed by the attempt or the retry they belong to.
pub mod Delay
pub mod Attempt
pub mod Pipeline
pub mod Path
pub mod Tests
use ynab_go.Base.{
  ℕ, zero, suc, ◌+◌, ◌-◌, ◌*◌, ◌/◌, ◌^◌, Bool, true, false, ◌&&◌, ◌||◌, Option, none, some, List,
  [], ◌∷◌, ◌++◌, Bytes, codes, bytes_eq, ◌==◌, ltb, leb, if◌then◌else◌, length, take, is_nil,
}
use ynab_go.Base.Int.{ℤ, pos, negsuc, pos_part, ◌+ℤ◌, ◌-ℤ◌, ◌*ℤ◌, ltb_ℤ, leb_ℤ, min_ℤ, max_ℤ}
use ynab_go.Base.Word.{wrap}
use ynab_go.Std.Strconv.{parse_int}

-- time.Duration, an int64 of nanoseconds.
abbrev pub Duration : Type 0
Duration = ℤ

abbrev pub second : ℕ
second = 1_000_000_000

abbrev pub max_int64 : ℕ
max_int64 = 2 ^ 63 - 1

-- http.Header, through Get.
abbrev pub Header : Type 0
Header = Bytes → Bytes

pub record RetryConfig : Type 0 where
  pub max_attempts : ℤ
  pub min_backoff : Duration
  pub max_backoff : Duration
  pub retry_writes : Bool
  pub disabled : Bool

-- `result`: one attempt's raw outcome.
pub record Response : Type 0 where
  pub status : ℕ
  pub body : Bytes
  pub header : Header

abbrev pub no_response : Response
no_response = record { status = 0; body = []; header = λ _. [] }

-- The error of one attempt, by the call that it wraps. The first two are hookError.
pub data Failure (E : Type 0) : Type 0 where
  limiter : E → Failure E
  token_source : E → Failure E
  build_request : E → Failure E
  send : E → Failure E
  read_response : E → Failure E
  too_large : ℤ → Failure E

-- errors.As(err, *hookError)
pub is_hook : {E : Type 0} → Failure E → Bool
is_hook (limiter e) = true
is_hook (token_source e) = true
is_hook _ = false

pub data Outcome (E : Type 0) : Type 0 where
  received : Response → Outcome E
  failed : Failure E → Outcome E

-- One HTTP request, with the headers that `attempt` sets.
pub record Request : Type 0 where
  pub method : Bytes
  pub url : Bytes
  pub authorization : Bytes
  pub user_agent : Bytes
  pub accept : Bytes
  pub content_type : Option Bytes
  pub payload : Option Bytes

-- What http.Client.Do answers: an error, or a response whose body is a stream of bytes that ends, or
-- breaks off with an error.
pub data Answer (E : Type 0) : Type 0 where
  no_answer : E → Answer E
  answer : ℕ → Header → Bytes → Option E → Answer E

pub data TokenResult (E : Type 0) : Type 0 where
  token : Bytes → TokenResult E
  no_token : E → TokenResult E

-- The clock, and http.ParseTime in nanoseconds of that clock.
pub record Clock : Type 0 where
  pub now : ℤ
  pub parse_time : Bytes → Option ℤ

pub record Environment (E : Type 0) : Type 0 where
  -- The limiter's Wait before attempt i; `none` is nil.
  pub wait : ℕ → Option E
  pub get_token : ℕ → TokenResult E
  -- http.NewRequestWithContext's verdict on the method and the URL.
  pub refuse_request : Bytes → Bytes → Option E
  pub exchange : ℕ → Request → Answer E
  -- ctx.Err() after attempt i.
  pub ctx_err : ℕ → Option E
  -- The select of the i-th backoff: `none` if the timer fires first.
  pub select_sleep : ℕ → Duration → Option E
  -- ctx.Err() where the i-th backoff does not wait at all.
  pub ctx_err_no_wait : ℕ → Option E
  -- time.Duration(rand() * float64(span)) at the i-th backoff.
  pub jitter : ℕ → Duration → Duration
  pub clock : Clock

-- The configuration that the client wires. `base_url` is the URL's text without a final slash.
pub record Core : Type 0 where
  pub base_url : Bytes
  pub user_agent : Bytes
  pub has_limiter : Bool
  pub retry : RetryConfig
  pub max_response_bytes : ℤ
