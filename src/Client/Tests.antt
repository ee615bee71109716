-- ===== src/Client/Tests.antt =====
-- The theorems at a concrete client and server.
use ynab_go.Base.{
  ◌++◌, ◌≡◌, refl, false, Option, none, some, List, [], ◌∷◌, map, All, arith, Bytes, codes,
  bytes_eq,
}
use ynab_go.Base.Int.{pos, ◌*ℤ◌}
use ynab_go.Errors.{WireError, err_first}
use ynab_go.Transport.Tests.{server, server-IsJitter}
use ynab_go.Std.Strings.{has_suffix, contains, has_prefix}
use ynab_go.Std.Strconv.{parse_int, signed, in_range, parse_digits, value_from}
use ynab_go.Base.Word.{wrap}
use ynab_go.Transport.Delay.{retry_after_delay, retry_after_cap, retry_delay, seconds_delay}
use ynab_go.Transport.Attempt.{
  attempt, response_limit, limiter_verdict, with_token, send_request, read_answer, read_body,
}
use ynab_go.Transport.Pipeline.{
  execute, attempts, classify, classify_response, retry_verb, settle, last_response, conclude,
  pause, sleep,
}
use ynab_go.Transport.Pipeline.Waits.{IsShort}
use ynab_go.Client.{
  new, RetryPolicy, Url, Client, Setting, with_retry_policy, with_timeout, with_limiter, initial,
  new_client, core, trim_final_slash,
}
use ynab_go.Client.Options.{
  token_error, IsUsable, IsInt64Setting, failure, new_client-IsUsable, new_client-config_err,
}
use ynab_go.Client.Call.{
  Envelope, payload_of, nil_body, is_collapsed, call, success, transport_do, run_request, finish,
  decode_data, is_success,
}
use ynab_go.Client.Call.Endings.{IsAnswered, call-success, call-IsShort}

abbrev parse_url : Bytes → Option Url
parse_url b = none

abbrev slow : RetryPolicy
slow = record {
  max_attempts = pos 5;
  min_backoff = pos 1000;
  max_backoff = pos 9000;
  retry_writes = false;
}

-- A policy, a timeout that is refused, and a nil limiter.
abbrev settings : List Setting
settings = with_retry_policy slow ∷ with_timeout (pos 0) ∷ with_limiter none ∷ []

settings_fit : All IsInt64Setting settings
settings_fit = omega arith

abbrev wire : Bytes → Option WireError
wire b = none

abbrev envelope : Bytes → Envelope Bytes
envelope b = payload_of b

new_client-IsUsable_example : IsUsable (new_client parse_url (codes "ynab.New") (some 1) settings)
new_client-IsUsable_example =
    new_client-IsUsable parse_url (codes "ynab.New") (some 1) settings settings_fit

new_client-config_err_example :
    ((new_client parse_url (codes "ynab.New") (some 1) settings).config_err
      ≡ err_first (
          (initial (codes "ynab.New") (some 1)).config_err
          ∷ map (failure parse_url (codes "ynab.New")) settings))
    × ((new parse_url [] settings).config_err
        ≡ err_first (map (failure parse_url (codes "ynab.New")) settings ++ token_error [] ∷ []))
new_client-config_err_example =
    new_client-config_err parse_url (codes "ynab.New") (some 1) [] settings

call-IsShort_example :
    All
      (IsShort (core (new_client parse_url (codes "ynab.New") (some 1) settings)).retry)
      (call wire envelope
        (new_client parse_url (codes "ynab.New") (some 1) settings)
        server
        (codes "GET")
        (codes "user")
        []
        nil_body).trace
call-IsShort_example =
    call-IsShort wire envelope parse_url (codes "ynab.New") (some 1) settings server (codes "GET")
      (codes "user") [] nil_body settings_fit server-IsJitter

abbrev pub plain : Client
plain = record {
  constructor_op = codes "ynab.New";
  token_source = some 1;
  http_client = some 0;
  base_url = record {
    text = codes "https://h/v1";
    has_user = false;
    scheme = codes "https";
    host = codes "h";
    raw_query = [];
    fragment = [];
  };
  user_agent = codes "ua";
  timeout = pos 30;
  retry = slow;
  retry_off = false;
  limiter = none;
  logger = none;
  config_err = none;
}

called :
    (call wire envelope plain server (codes "GET") (codes "user") [] nil_body).result
    ≡ success (codes "fine")
unfolding call transport_do run_request finish decode_data is_success is_collapsed core has_suffix
    contains has_prefix trim_final_slash execute settle attempts classify classify_response
    retry_verb last_response conclude pause sleep retry_delay retry_after_delay seconds_delay
    retry_after_cap attempt with_token send_request read_answer read_body limiter_verdict
    response_limit wrap parse_int signed in_range parse_digits value_from ◌*ℤ◌ bytes_eq
called = refl

call-success_example :
    (plain.config_err ≡ none)
    × ((is_collapsed (codes "user") ≡ false)
        × IsAnswered wire envelope plain server
            (codes "GET")
            (codes "user")
            []
            nil_body
            (codes "fine"))
call-success_example =
    call-success wire envelope plain server (codes "GET") (codes "user") [] nil_body (codes "fine")
      called
