-- ===== src/Services/Scheduled.antt =====
-- scheduled.go: the date window of a scheduled transaction, its checks, and the 404 that List folds
-- into an empty list. The local day and time.Time.AddDate are parameters; so is errors.Is against
-- ErrNotFound on an error of a hook, the HTTP client or the context.
use ynab_go.Base.{
  ◌≡◌, ◌↔◌, ◌⊎◌, Bool, true, false, Option, none, some, List, [], ◌∷◌, arith, Bytes, codes,
  if◌then◌else◌,
}
use ynab_go.Base.Int.{pos}
use ynab_go.Errors.{ArgumentError, err_first, not_found, is}
use ynab_go.Transport.{
  Failure, limiter, token_source, build_request, send, read_response, too_large,
}
use ynab_go.Optional.{Optional, get}
use ynab_go.Date.{AddDate, add_months, Day, is_zero_day, before, after}
use ynab_go.Date.Ordering.{IsEarlier, before_iff, compare_day_lem}
use ynab_go.Client.Call.{
  Result, success, attempt_error, canceled_error, api_error, Payload, nil_body,
}
use ynab_go.Sync.{ServerKnowledge, ListOption, apply_list_options}
use ynab_go.Services.Requests.{Prepared, read, write, unless}
use ynab_go.Transactions.{
  check_opt_rune_max, payee_name_max, memo_max, payee_name_field, memo_field,
}
use ynab_go.Transactions.Valid.{IsWithin, check_opt_iff, err_first_three}

-- `ScheduledTransactionSpec`, the fields that are checked.
pub record ScheduledSpec : Type 0 where
  pub date : Day
  pub payee_name : Optional Bytes
  pub memo : Optional Bytes

-- `ScheduledTransactionUpdate`, the fields that are checked.
pub record ScheduledUpdate : Type 0 where
  pub date : Optional Day
  pub payee_name : Optional Bytes
  pub memo : Optional Bytes

abbrev date_error : Bytes → Bytes → ArgumentError
date_error op reason = record { op = op; field = codes "date"; reason = reason }

module _ (today : Day) (add_date : AddDate) where
  -- `checkScheduledDate`.
  unfoldable pub check_scheduled_date : Bytes → Day → Option ArgumentError
  check_scheduled_date op d =
      if is_zero_day d
      then some (date_error op (codes "date is required"))
      else if before d today
      then some (date_error op (codes "must not be in the past"))
      else if after d (add_months add_date (pos 60) today)
      then some (date_error op (codes "must be at most 5 years out"))
      else none

  -- `ScheduledTransactionSpec.validate`.
  unfoldable pub validate_scheduled : Bytes → ScheduledSpec → Option ArgumentError
  unfolding check_scheduled_date
  validate_scheduled op s = err_first (
      check_scheduled_date op s.date
      ∷ check_opt_rune_max op payee_name_field s.payee_name payee_name_max
      ∷ check_opt_rune_max op memo_field s.memo memo_max
      ∷ [])

  -- `ScheduledTransactionUpdate.validate`.
  unfoldable pub validate_scheduled_update : Bytes → ScheduledUpdate → Option ArgumentError
  unfolding check_scheduled_date
  validate_scheduled_update op u = err_first (
      (elim (get u.date) [ none ↦ none | some d ↦ check_scheduled_date op d ])
      ∷ err_first (
          check_opt_rune_max op payee_name_field u.payee_name payee_name_max
          ∷ check_opt_rune_max op memo_field u.memo memo_max
          ∷ [])
      ∷ [])

  -- A real day from today to the end of the five years.
  abbrev pub IsInWindow : Day → Type 0
  IsInWindow d =
      (is_zero_day d ≡ false)
      × ((¬ IsEarlier d today) × (¬ IsEarlier (add_months add_date (pos 60) today) d))

  window_iff : (op : Bytes) (d : Day) → (check_scheduled_date op d ≡ none) ↔ IsInWindow d
  unfolding check_scheduled_date after before
  window_iff op d = (
    λ h. (
      ground arith,
      (
        λ past. let p = (before_iff d today).1 past in ground (arith, p),
        λ late.
            let p = (before_iff (add_months add_date (pos 60) today) d).1 late in
            ground (arith, p, (compare_day_lem (add_months add_date (pos 60) today) d).1),
      ),
    ),
    λ w.
        let p = (before_iff d today).0 in
        let q = (before_iff (add_months add_date (pos 60) today) d).0 in
        ground (arith, w, p, q, (compare_day_lem (add_months add_date (pos 60) today) d).1),
  )

  -- A scheduled spec is accepted exactly if its date is set, not before today and not after the day
  -- 60 months from today, and its set texts are within their bounds.
  pub validate_scheduled_iff :
      (op : Bytes) (s : ScheduledSpec)
      → (validate_scheduled op s ≡ none)
        ↔ (IsInWindow s.date × (IsWithin payee_name_max s.payee_name × IsWithin memo_max s.memo))
  unfolding validate_scheduled
  validate_scheduled_iff op s =
      let d = window_iff op s.date in
      let p = check_opt_iff op payee_name_field s.payee_name payee_name_max in
      let m = check_opt_iff op memo_field s.memo memo_max in
      let all =
        err_first_three (check_scheduled_date op s.date)
          (check_opt_rune_max op payee_name_field s.payee_name payee_name_max)
          (check_opt_rune_max op memo_field s.memo memo_max) in
      (
        λ h. (d.0 (all.0 h).0, (p.0 (all.0 h).1.0, m.0 (all.0 h).1.1)),
        λ v. all.1 (d.1 v.0, (p.1 v.1.0, m.1 v.1.1)),
      )

-- A list payload with its cursor.
pub record Listing (A : Type 0) : Type 0 where
  pub items : List A
  pub server_knowledge : ServerKnowledge

abbrev pub empty_listing : {A : Type 0} → Listing A
empty_listing = record { items = []; server_knowledge = pos 0 }

-- Each operation: its checks, and the arguments that it hands to `do`.
abbrev pub scheduled_list_request : List ListOption → Prepared
scheduled_list_request opts =
    read (codes "scheduled_transactions" ∷ []) (apply_list_options [] opts)

abbrev pub scheduled_get_request : Bytes → Prepared
scheduled_get_request id = read (codes "scheduled_transactions" ∷ id ∷ []) []

abbrev pub scheduled_delete_request : Bytes → Prepared
scheduled_delete_request id =
    write (codes "DELETE") (codes "scheduled_transactions" ∷ id ∷ []) nil_body

module _ (today : Day) (add_date : AddDate) where
  abbrev pub scheduled_create_request : ScheduledSpec → Payload → Prepared
  scheduled_create_request s body =
      unless (validate_scheduled today add_date (codes "Scheduled.Create") s)
        (write (codes "POST") (codes "scheduled_transactions" ∷ []) body)

  abbrev pub scheduled_update_request : Bytes → ScheduledUpdate → Payload → Prepared
  scheduled_update_request id u body =
      unless (validate_scheduled_update today add_date (codes "Scheduled.Update") u)
        (write (codes "PUT") (codes "scheduled_transactions" ∷ id ∷ []) body)

module _ {E : Type 0} (foreign : E → Bool) where
  -- errors.Is(err, ErrNotFound) on an attempt's failure, which wraps its cause.
  unfoldable pub failure_not_found : Failure E → Bool
  failure_not_found (limiter e) = foreign e
  failure_not_found (token_source e) = foreign e
  failure_not_found (build_request e) = foreign e
  failure_not_found (send e) = foreign e
  failure_not_found (read_response e) = foreign e
  failure_not_found (too_large n) = false

  module _ {A : Type 0} where
    -- errors.Is(err, ErrNotFound) on the outcome of `do`.
    unfoldable pub is_not_found : Result E (Listing A) → Bool
    unfolding failure_not_found
    is_not_found (attempt_error f) = failure_not_found f
    is_not_found (canceled_error e) = foreign e
    is_not_found (api_error e) = is e not_found
    is_not_found _ = false

    -- The fold of `ScheduledTransactionsService.List`.
    unfoldable pub fold_not_found : Result E (Listing A) → Result E (Listing A)
    unfolding is_not_found
    fold_not_found r = if is_not_found r then success empty_listing else r

    -- List succeeds exactly with what the server listed, or with an empty list and cursor 0 for an
    -- error that is ErrNotFound.
    pub fold_not_found_iff :
        (r : Result E (Listing A)) (v : Listing A)
        → (fold_not_found r ≡ success v)
          ↔ ((r ≡ success v) ⊎ ((is_not_found r ≡ true) × (v ≡ empty_listing)))
    unfolding fold_not_found is_not_found
    fold_not_found_iff r v = (ground arith, ground arith)
