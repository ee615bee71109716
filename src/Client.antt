-- ===== src/Client.antt =====
-- client.go: construction of a client from its options, and the stored configuration error. A nil
-- pointer or interface is `none`; an HTTP client, a logger and a token source are known by a number.
pub mod Options
pub mod Call
pub mod Tests
use ynab_go.Base.{
  ℕ, zero, suc, ◌+◌, ◌≤◌, ◌≡◌, Bool, true, false, not, ◌&&◌, ◌||◌, Option, none, some, List, [],
  ◌∷◌, ◌++◌, Bytes, codes, bytes_eq, ◌==◌, if◌then◌else◌, is_nil,
}
use ynab_go.Base.Int.{ℤ, pos, ltb_ℤ, leb_ℤ, eqb_ℤ}
use ynab_go.Errors.{ArgumentError}
use ynab_go.Transport.{Duration, RetryConfig, Core}

pub record RetryPolicy : Type 0 where
  pub max_attempts : ℤ
  pub min_backoff : Duration
  pub max_backoff : Duration
  pub retry_writes : Bool

abbrev pub default_retry : RetryPolicy
default_retry = record {
  max_attempts = pos 3;
  min_backoff = pos 300_000_000;
  max_backoff = pos 30_000_000_000;
  retry_writes = false;
}

-- The parts of a url.URL that WithBaseURL looks at. `text` is the URL's String.
pub record Url : Type 0 where
  pub text : Bytes
  pub has_user : Bool
  pub scheme : Bytes
  pub host : Bytes
  pub raw_query : Bytes
  pub fragment : Bytes

abbrev default_base_url : Url
default_base_url = record {
  text = codes "https://api.ynab.com/v1";
  has_user = false;
  scheme = codes "https";
  host = codes "api.ynab.com";
  raw_query = [];
  fragment = [];
}

pub record Client : Type 0 where
  pub constructor_op : Bytes
  pub token_source : Option ℕ
  pub http_client : Option ℕ
  pub base_url : Url
  pub user_agent : Bytes
  pub timeout : Duration
  pub retry : RetryPolicy
  pub retry_off : Bool
  pub limiter : Option ℕ
  pub logger : Option ℕ
  pub config_err : Option ArgumentError

-- `Option` of the source: what each constructor captures. `inert` is the zero Option.
pub data Setting : Type 0 where
  with_http_client : Option ℕ → Setting
  with_base_url : Bytes → Setting
  with_user_agent : Bytes → Setting
  with_timeout : Duration → Setting
  with_retry_policy : RetryPolicy → Setting
  with_retry_disabled : Setting
  with_limiter : Option ℕ → Setting
  with_logger : Option ℕ → Setting
  inert : Setting

-- `storeConfigErr`: the first failure is kept.
pub store_config_err : Bytes → Bytes → Client → Client
store_config_err option reason c = elim c.config_err [
  | none ↦ record c {
    config_err = some (record { op = c.constructor_op; field = option; reason = reason });
  }
  | some e ↦ c
]

-- url.URL.IsAbs.
abbrev is_abs : Url → Bool
is_abs u = not (is_nil u.scheme)

apply_base_url : Bytes → Option Url → Client → Client
unfolding store_config_err
apply_base_url raw none c =
    store_config_err (codes "WithBaseURL") (codes "not an absolute URL: " ++ raw) c
apply_base_url raw (some u) c =
    if u.has_user
    then store_config_err (codes "WithBaseURL") (codes "URL must not carry credentials") c
    else if not (is_abs u) || is_nil u.host
    then store_config_err (codes "WithBaseURL") (codes "not an absolute URL: " ++ raw) c
    else if not (bytes_eq u.scheme (codes "http")) && not (bytes_eq u.scheme (codes "https"))
    then store_config_err (codes "WithBaseURL") (codes "scheme must be http or https: " ++ raw) c
    else if not (is_nil u.raw_query) || not (is_nil u.fragment)
    then store_config_err (codes "WithBaseURL")
        (codes "URL must not carry a query or fragment: " ++ raw) c
    else record c { base_url = u }

or_default : ℤ → ℤ → ℤ
or_default v d = if eqb_ℤ v (pos 0) then d else v

-- Zero fields take their defaults.
fill_policy : RetryPolicy → RetryPolicy
unfolding or_default
fill_policy p = record p {
  max_attempts = or_default p.max_attempts default_retry.max_attempts;
  min_backoff = or_default p.min_backoff default_retry.min_backoff;
  max_backoff = or_default p.max_backoff default_retry.max_backoff;
}

apply_policy : RetryPolicy → Client → Client
unfolding store_config_err
apply_policy p c =
    if ltb_ℤ p.max_attempts (pos 1)
    then store_config_err (codes "WithRetryPolicy") (codes "MaxAttempts must be at least 1") c
    else if leb_ℤ p.min_backoff (pos 0) || ltb_ℤ p.max_backoff p.min_backoff
    then store_config_err (codes "WithRetryPolicy") (codes "want 0 < MinBackoff <= MaxBackoff") c
    else record c { retry = p }

-- The client before its options. A nil token source is a configuration error, and the static token
-- stands for it.
pub initial : Bytes → Option ℕ → Client
initial op ts = record {
  constructor_op = op;
  token_source = elim ts [ none ↦ some 0 | some t ↦ some t ];
  http_client = some 0;
  base_url = default_base_url;
  user_agent = codes "pkg.venceslau.dev/ynab/1.6.1";
  timeout = pos 30_000_000_000;
  retry = default_retry;
  retry_off = false;
  limiter = none;
  logger = some 0;
  config_err = elim ts [
    | none ↦
        some (record { op = op; field = codes "ts"; reason = codes "token source must not be nil" })
    | some t ↦ none
  ];
}

module _ (parse_url : Bytes → Option Url) where
  -- `opt.apply(c)`; net/url's Parse is `parse_url`.
  pub apply : Setting → Client → Client
  unfolding apply_base_url apply_policy fill_policy store_config_err
  apply (with_http_client none) c =
      store_config_err (codes "WithHTTPClient") (codes "client must not be nil") c
  apply (with_http_client (some h)) c = record c { http_client = some h }
  apply (with_base_url raw) c = apply_base_url raw (parse_url raw) c
  apply (with_user_agent ua) c = record c { user_agent = ua }
  apply (with_timeout d) c =
      if leb_ℤ d (pos 0)
      then store_config_err (codes "WithTimeout") (codes "timeout must be positive") c
      else record c { timeout = d }
  apply (with_retry_policy p) c = apply_policy (fill_policy p) c
  apply with_retry_disabled c = record c { retry_off = true }
  apply (with_limiter none) c =
      store_config_err (codes "WithLimiter") (codes "limiter must not be nil") c
  apply (with_limiter (some l)) c = record c { limiter = some l }
  apply (with_logger none) c =
      store_config_err (codes "WithLogger") (codes "logger must not be nil") c
  apply (with_logger (some l)) c = record c { logger = some l }
  apply inert c = c

  pub apply_all : List Setting → Client → Client
  apply_all [] c = c
  apply_all (s ∷ settings) c = apply_all settings (apply s c)

  -- `newClient`, up to the core.
  pub new_client : Bytes → Option ℕ → List Setting → Client
  unfolding apply_all initial
  new_client op ts settings = apply_all settings (initial op ts)

  -- `New`; the static token is the token source 0.
  pub new : Bytes → List Setting → Client
  unfolding new_client store_config_err
  new token settings =
      let c = new_client (codes "ynab.New") (some 0) settings in
      if is_nil token
      then (elim c.config_err [
        | none ↦ record c {
          config_err = some (record {
            op = codes "ynab.New";
            field = codes "token";
            reason = codes "token must not be empty";
          });
        }
        | some e ↦ c
      ])
      else c

-- strings.TrimSuffix(base, "/"), which requestURL takes of the base URL.
pub trim_final_slash : Bytes → Bytes
trim_final_slash [] = []
trim_final_slash (c ∷ []) = if c == b'/' then [] else c ∷ []
trim_final_slash (c ∷ d ∷ s) = c ∷ trim_final_slash (d ∷ s)

-- The wire configuration that `newClient` builds.
pub core : Client → Core
unfolding trim_final_slash
core c = record {
  base_url = trim_final_slash c.base_url.text;
  user_agent = c.user_agent;
  has_limiter = elim c.limiter [ none ↦ false | some l ↦ true ];
  retry = record {
    max_attempts = c.retry.max_attempts;
    min_backoff = c.retry.min_backoff;
    max_backoff = c.retry.max_backoff;
    retry_writes = c.retry.retry_writes;
    disabled = c.retry_off;
  };
  max_response_bytes = pos 0;
}
