-- ===== src/Client/Options.antt =====
-- Whatever options a client is built with, the first failure is kept and the settings stay usable.
use ynab_go.Base.{
  Bool-cases, inl, inr, ℕ, ◌≡◌, refl, Option, none, some, List, [], ◌∷◌, ◌∙◌, map, ◌++◌, codes,
  is_nil, if◌then◌else◌, arith, Bytes, All,
}
use ynab_go.Base.Int.{pos, ◌≤ℤ◌}
use ynab_go.Errors.{ArgumentError, err_first}
use ynab_go.Transport.{max_int64}
use ynab_go.Client.{
  Url, Client, Setting, with_http_client, with_base_url, with_user_agent, with_timeout,
  with_retry_policy, with_retry_disabled, with_limiter, with_logger, inert, store_config_err, apply,
  apply_all, initial, new_client, new,
}

-- What every operation may rely on.
pub record IsUsable (c : Client) : Type 0 where
  pub attempts_pos : pos 1 ≤ℤ c.retry.max_attempts
  pub backoff_pos : pos 1 ≤ℤ c.retry.min_backoff
  pub backoff_le : c.retry.min_backoff ≤ℤ c.retry.max_backoff
  pub backoff_fits : c.retry.max_backoff ≤ℤ pos max_int64
  pub timeout_pos : pos 1 ≤ℤ c.timeout

-- A duration of a policy is an int64.
abbrev pub IsInt64Setting : Setting → Type 0
IsInt64Setting (with_retry_policy p) = p.max_backoff ≤ℤ pos max_int64
IsInt64Setting _ = Unit

store-IsUsable : (o m : Bytes) {c : Client} → IsUsable c → IsUsable (store_config_err o m c)
unfolding store_config_err
store-IsUsable o m h = ground arith

module _ (parse_url : Bytes → Option Url) where
  apply-IsUsable :
      (s : Setting) (c : Client) → IsInt64Setting s → IsUsable c → IsUsable (apply parse_url s c)
  unfolding apply
  apply-IsUsable (with_http_client none) c i h = ground arith
  apply-IsUsable (with_http_client (some x)) c i h = ground arith
  apply-IsUsable (with_base_url raw) c i h = ground arith
  apply-IsUsable (with_user_agent ua) c i h = ground arith
  apply-IsUsable (with_timeout d) c i h = ground arith
  apply-IsUsable (with_retry_policy p) c i h = ground arith
  apply-IsUsable with_retry_disabled c i h = ground arith
  apply-IsUsable (with_limiter none) c i h = ground arith
  apply-IsUsable (with_limiter (some x)) c i h = ground arith
  apply-IsUsable (with_logger none) c i h = ground arith
  apply-IsUsable (with_logger (some x)) c i h = ground arith
  apply-IsUsable inert c i h = h

  apply_all-IsUsable :
      (settings : List Setting) (c : Client)
      → All IsInt64Setting settings
      → IsUsable c
      → IsUsable (apply_all parse_url settings c)
  unfolding apply_all
  apply_all-IsUsable [] c i h = h
  apply_all-IsUsable (s ∷ settings) c i h =
      apply_all-IsUsable settings (apply parse_url s c) i.1 (apply-IsUsable s c i.0 h)

  -- The error that one option stores in a client that has none.
  abbrev pub failure : Bytes → Setting → Option ArgumentError
  failure op s = (apply parse_url s (initial op (some 0))).config_err

  apply-constructor_op :
      (s : Setting) (c : Client) → (apply parse_url s c).constructor_op ≡ c.constructor_op
  unfolding apply
  apply-constructor_op (with_http_client none) c = ground arith
  apply-constructor_op (with_http_client (some x)) c = refl
  apply-constructor_op (with_base_url raw) c = ground arith
  apply-constructor_op (with_user_agent ua) c = refl
  apply-constructor_op (with_timeout d) c = ground arith
  apply-constructor_op (with_retry_policy p) c = ground arith
  apply-constructor_op with_retry_disabled c = refl
  apply-constructor_op (with_limiter none) c = ground arith
  apply-constructor_op (with_limiter (some x)) c = refl
  apply-constructor_op (with_logger none) c = ground arith
  apply-constructor_op (with_logger (some x)) c = refl
  apply-constructor_op inert c = refl

  -- An option fails or not whatever the client, and an error that is there stays.
  apply-config_err :
      (s : Setting) (c : Client)
      → (apply parse_url s c).config_err
        ≡ err_first (c.config_err ∷ failure c.constructor_op s ∷ [])
  unfolding apply err_first initial
  apply-config_err (with_http_client none) c = ground arith
  apply-config_err (with_http_client (some x)) c = ground arith
  apply-config_err (with_base_url raw) c = ground arith
  apply-config_err (with_user_agent ua) c = ground arith
  apply-config_err (with_timeout d) c = ground arith
  apply-config_err (with_retry_policy p) c = ground arith
  apply-config_err with_retry_disabled c = ground arith
  apply-config_err (with_limiter none) c = ground arith
  apply-config_err (with_limiter (some x)) c = ground arith
  apply-config_err (with_logger none) c = ground arith
  apply-config_err (with_logger (some x)) c = ground arith
  apply-config_err inert c = ground arith

  err_first_join :
      (a b : Option ArgumentError) (r : List (Option ArgumentError))
      → err_first (err_first (a ∷ b ∷ []) ∷ r) ≡ err_first (a ∷ b ∷ r)
  unfolding err_first
  err_first_join none none r = refl
  err_first_join none (some b) r = refl
  err_first_join (some a) b r = refl

  apply_all-config_err :
      (settings : List Setting) (c : Client)
      → (apply_all parse_url settings c).config_err
        ≡ err_first (c.config_err ∷ map (failure c.constructor_op) settings)
  unfolding apply_all
  apply_all-config_err [] c = one c.config_err
    where
      one : (o : Option ArgumentError) → o ≡ err_first (o ∷ [])
      one none = unfold err_first in refl
      one (some e) = unfold err_first in refl
  apply_all-config_err (s ∷ settings) c =
      apply_all-config_err settings (apply parse_url s c)
      ∙ rw (apply-constructor_op s c, apply-config_err s c) (err_first_join _ _ _)

-- Whatever options a client is built with, in any order and failing or not, it allows at least one
-- attempt, its timeout is positive, and 0 < MinBackoff <= MaxBackoff holds within int64, if the
-- MaxBackoff of every policy option is an int64.
pub new_client-IsUsable :
    (parse_url : Bytes → Option Url) (op : Bytes) (ts : Option ℕ) (settings : List Setting)
    → All IsInt64Setting settings
    → IsUsable (new_client parse_url op ts settings)
unfolding new_client
new_client-IsUsable parse_url op ts settings i =
    apply_all-IsUsable parse_url settings (initial op ts) i (unfold initial in omega arith)

err_first-append :
    (l : List (Option ArgumentError)) (e : Option ArgumentError)
    → err_first (l ++ e ∷ []) ≡ (elim (err_first l) [ none ↦ e | some x ↦ some x ])
unfolding err_first
err_first-append [] none = refl
err_first-append [] (some x) = refl
err_first-append (none ∷ l) e = err_first-append l e
err_first-append (some x ∷ l) e = refl

-- The complaint of New about an empty token.
abbrev pub token_error : Bytes → Option ArgumentError
token_error token =
    if is_nil token
    then some (record {
      op = codes "ynab.New";
      field = codes "token";
      reason = codes "token must not be empty";
    })
    else none

of_options :
    (parse_url : Bytes → Option Url) (op : Bytes) (ts : Option ℕ) (settings : List Setting)
    → (new_client parse_url op ts settings).config_err
      ≡ err_first ((initial op ts).config_err ∷ map (failure parse_url op) settings)
unfolding new_client
of_options parse_url op ts settings =
    apply_all-config_err parse_url settings (initial op ts) ∙ (unfold initial in refl)

of_token :
    (parse_url : Bytes → Option Url) (token : Bytes) (settings : List Setting)
    → (new parse_url token settings).config_err
      ≡ err_first (map (failure parse_url (codes "ynab.New")) settings ++ token_error token ∷ [])
unfolding new
of_token parse_url token settings =
    let fails : List (Option ArgumentError) = map (failure parse_url (codes "ynab.New")) settings in
    let e : (new_client parse_url (codes "ynab.New") (some 0) settings).config_err
        ≡ err_first fails =
      of_options parse_url (codes "ynab.New") (some 0) settings
      ∙ (unfold initial err_first in refl) in
    let sum = err_first-append fails (token_error token) in
    elim (Bool-cases (is_nil token)) [
      | inl missing ↦ ground (arith, e, sum, missing)
      | inr given ↦ ground (arith, e, sum, given)
    ]

-- A client of newClient, and so of NewWithTokenSource, stores the error of the missing token source,
-- or else that of the first option in the list that fails by itself. A client of New stores that of
-- the first option that fails by itself, or else that of an empty token.
pub new_client-config_err :
    (parse_url : Bytes → Option Url) (op : Bytes) (ts : Option ℕ) (token : Bytes)
    (settings : List Setting)
    → ((new_client parse_url op ts settings).config_err
        ≡ err_first ((initial op ts).config_err ∷ map (failure parse_url op) settings))
      × ((new parse_url token settings).config_err
          ≡ err_first
              (map (failure parse_url (codes "ynab.New")) settings ++ token_error token ∷ []))
new_client-config_err parse_url op ts token settings =
    (of_options parse_url op ts settings, of_token parse_url token settings)
