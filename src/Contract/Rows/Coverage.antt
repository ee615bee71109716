-- ===== src/Contract/Rows/Coverage.antt =====
-- The requests of the services against the coverage table.
use ynab_go.Base.{
  Bool-cases, inl, inr, subst, Option, none, some, ◌≡◌, refl, false, [], ◌∷◌, arith, Bytes, codes,
  bytes_eq, is_nil,
}
use ynab_go.Client.Call.Guard.{any_nil}
use ynab_go.Services.{
  Operation, accounts_list, accounts_get, accounts_create, categories_list, categories_get,
  categories_get_for_month, categories_create, categories_update, categories_assign,
  categories_create_group, categories_rename_group, months_list, months_get, payees_list,
  payees_get, payees_create, payees_rename, payee_locations_list, payee_locations_get,
  payee_locations_list_by_payee, money_movements_list, money_movements_list_by_month,
  money_movements_list_groups, money_movements_list_groups_by_month, transactions_list,
  transactions_list_by_account, transactions_list_by_category, transactions_list_by_payee,
  transactions_list_by_month, transactions_get, transactions_create, transactions_create_batch,
  transactions_update, transactions_update_batch, transactions_delete, transactions_import,
  settings, plan_export, scheduled_list, scheduled_get, scheduled_create, scheduled_update,
  scheduled_delete, prepare,
}
use ynab_go.Services.Requests.{Endpoint, ready, check_month, unless}
use ynab_go.Services.Scheduled.{validate_scheduled, validate_scheduled_update}
use ynab_go.Errors.{ArgumentError, check_rune_max}
use ynab_go.Date.{Day, AddDate, Month, month_string, is_zero_month}
use ynab_go.Transactions.{validate_spec, validate_update, check_specs, check_patches}
use ynab_go.Services.Ids.{id_arguments, month_string-full}
use ynab_go.Contract.Rows.{operation_id, matching, IsCoveredBy}
use ynab_go.Contract.Rows.Queries.{apply-IsWithin, encode_filter-IsWithin}
use ynab_go.Contract.Rows.Months.{
  month_categories_get_for_month, month_categories_assign, month_months_get,
  month_money_movements_list_by_month, month_money_movements_list_groups_by_month,
  month_transactions_list_by_month,
}

-- An endpoint that the checks have let through.
matched :
    (P : Endpoint → Type 0) (o : Option ArgumentError) (a r : Endpoint)
    → unless o (ready a) ≡ ready r
    → P a
    → P r
matched P none a r h m = let e : a ≡ r = cc h in subst P e m
matched P (some e) a r h m = absurd (ground arith)

matched_month :
    (P : Endpoint → Type 0) (op : Bytes) (m : Month) (a r : Endpoint)
    → unless (check_month op m) (ready a) ≡ ready r
    → (is_nil (month_string m) ≡ false → P a)
    → P r
unfolding check_month
matched_month P op m a r h k = elim (Bool-cases (is_zero_month m)) [
  | inl zero ↦ absurd (ground (arith, zero))
  | inr real ↦ matched P (check_month op m) a r h (k (month_string-full m real))
]

module _ (today : Day) (add_date : AddDate) where
  -- For every operation of a plan (of its services, Settings or Export) that its own checks let
  -- through, on a plan id and id arguments that are not empty: exactly one row of the coverage
  -- table matches the method and the segments of its request, the row that the method's doc line
  -- names, and that row allows every query parameter that is sent.
  pub prepare-IsCovered :
      (id : Bytes) (op : Operation) (r : Endpoint)
      → prepare today add_date op ≡ ready r
      → any_nil (id ∷ id_arguments op) ≡ false
      → IsCoveredBy (operation_id op) id r
  unfolding prepare operation_id matching bytes_eq
  prepare-IsCovered [] op r h full = absurd (ground arith)
  prepare-IsCovered (z ∷ plan) (accounts_list opts) r h full =
      matched (IsCoveredBy (codes "getAccounts") (z ∷ plan)) none _ r h
        (refl, (apply-IsWithin opts [] tt, tt))
  prepare-IsCovered (z ∷ plan) (accounts_get []) r h full = absurd (ground arith)
  prepare-IsCovered (z ∷ plan) (accounts_get (d ∷ id)) r h full =
      matched (IsCoveredBy (codes "getAccountById") (z ∷ plan)) none _ r h (refl, (tt, tt))
  prepare-IsCovered (z ∷ plan) (accounts_create body) r h full =
      matched (IsCoveredBy (codes "createAccount") (z ∷ plan)) none _ r h (refl, (tt, tt))
  prepare-IsCovered (z ∷ plan) (categories_list opts) r h full =
      matched (IsCoveredBy (codes "getCategories") (z ∷ plan)) none _ r h
        (refl, (apply-IsWithin opts [] tt, tt))
  prepare-IsCovered (z ∷ plan) (categories_get []) r h full = absurd (ground arith)
  prepare-IsCovered (z ∷ plan) (categories_get (d ∷ id)) r h full =
      matched (IsCoveredBy (codes "getCategoryById") (z ∷ plan)) none _ r h (refl, (tt, tt))
  prepare-IsCovered (z ∷ plan) (categories_get_for_month m []) r h full = absurd (ground arith)
  prepare-IsCovered (z ∷ plan) (categories_get_for_month m (d ∷ id)) r h full =
      matched_month (IsCoveredBy (codes "getMonthCategoryById") (z ∷ plan))
        (codes "Categories.GetForMonth") m _ r h
        (λ k. month_categories_get_for_month z plan d id (month_string m) k)
  prepare-IsCovered (z ∷ plan) (categories_create body) r h full =
      matched (IsCoveredBy (codes "createCategory") (z ∷ plan)) none _ r h (refl, (tt, tt))
  prepare-IsCovered (z ∷ plan) (categories_update [] body) r h full = absurd (ground arith)
  prepare-IsCovered (z ∷ plan) (categories_update (d ∷ id) body) r h full =
      matched (IsCoveredBy (codes "updateCategory") (z ∷ plan)) none _ r h (refl, (tt, tt))
  prepare-IsCovered (z ∷ plan) (categories_assign m [] body) r h full = absurd (ground arith)
  prepare-IsCovered (z ∷ plan) (categories_assign m (d ∷ id) body) r h full =
      matched_month (IsCoveredBy (codes "updateMonthCategory") (z ∷ plan))
        (codes "Categories.Assign") m _ r h
        (λ k. month_categories_assign z plan d id (month_string m) body k)
  prepare-IsCovered (z ∷ plan) (categories_create_group name body) r h full =
      matched (IsCoveredBy (codes "createCategoryGroup") (z ∷ plan))
        (check_rune_max (codes "Categories.CreateGroup") (codes "name") name 50) _ r h
        (refl, (tt, tt))
  prepare-IsCovered (z ∷ plan) (categories_rename_group [] name body) r h full =
      absurd (ground arith)
  prepare-IsCovered (z ∷ plan) (categories_rename_group (d ∷ id) name body) r h full =
      matched (IsCoveredBy (codes "updateCategoryGroup") (z ∷ plan))
        (check_rune_max (codes "Categories.RenameGroup") (codes "name") name 50) _ r h
        (refl, (tt, tt))
  prepare-IsCovered (z ∷ plan) (months_list opts) r h full =
      matched (IsCoveredBy (codes "getPlanMonths") (z ∷ plan)) none _ r h
        (refl, (apply-IsWithin opts [] tt, tt))
  prepare-IsCovered (z ∷ plan) (months_get m) r h full =
      matched_month (IsCoveredBy (codes "getPlanMonth") (z ∷ plan)) (codes "Months.Get") m _ r h
        (λ k. month_months_get z plan (month_string m) k)
  prepare-IsCovered (z ∷ plan) (payees_list opts) r h full =
      matched (IsCoveredBy (codes "getPayees") (z ∷ plan)) none _ r h
        (refl, (apply-IsWithin opts [] tt, tt))
  prepare-IsCovered (z ∷ plan) (payees_get []) r h full = absurd (ground arith)
  prepare-IsCovered (z ∷ plan) (payees_get (d ∷ id)) r h full =
      matched (IsCoveredBy (codes "getPayeeById") (z ∷ plan)) none _ r h (refl, (tt, tt))
  prepare-IsCovered (z ∷ plan) (payees_create name body) r h full =
      matched (IsCoveredBy (codes "createPayee") (z ∷ plan))
        (check_rune_max (codes "Payees.Create") (codes "name") name 500) _ r h (refl, (tt, tt))
  prepare-IsCovered (z ∷ plan) (payees_rename [] name body) r h full = absurd (ground arith)
  prepare-IsCovered (z ∷ plan) (payees_rename (d ∷ id) name body) r h full =
      matched (IsCoveredBy (codes "updatePayee") (z ∷ plan))
        (check_rune_max (codes "Payees.Rename") (codes "name") name 500) _ r h (refl, (tt, tt))
  prepare-IsCovered (z ∷ plan) payee_locations_list r h full =
      matched (IsCoveredBy (codes "getPayeeLocations") (z ∷ plan)) none _ r h (refl, (tt, tt))
  prepare-IsCovered (z ∷ plan) (payee_locations_get []) r h full = absurd (ground arith)
  prepare-IsCovered (z ∷ plan) (payee_locations_get (d ∷ id)) r h full =
      matched (IsCoveredBy (codes "getPayeeLocationById") (z ∷ plan)) none _ r h (refl, (tt, tt))
  prepare-IsCovered (z ∷ plan) (payee_locations_list_by_payee []) r h full = absurd (ground arith)
  prepare-IsCovered (z ∷ plan) (payee_locations_list_by_payee (d ∷ id)) r h full =
      matched (IsCoveredBy (codes "getPayeeLocationsByPayee") (z ∷ plan)) none _ r h
        (refl, (tt, tt))
  prepare-IsCovered (z ∷ plan) money_movements_list r h full =
      matched (IsCoveredBy (codes "getMoneyMovements") (z ∷ plan)) none _ r h (refl, (tt, tt))
  prepare-IsCovered (z ∷ plan) (money_movements_list_by_month m) r h full =
      matched_month (IsCoveredBy (codes "getMoneyMovementsByMonth") (z ∷ plan))
        (codes "MoneyMovements.ListByMonth") m _ r h
        (λ k. month_money_movements_list_by_month z plan (month_string m) k)
  prepare-IsCovered (z ∷ plan) money_movements_list_groups r h full =
      matched (IsCoveredBy (codes "getMoneyMovementGroups") (z ∷ plan)) none _ r h (refl, (tt, tt))
  prepare-IsCovered (z ∷ plan) (money_movements_list_groups_by_month m) r h full =
      matched_month (IsCoveredBy (codes "getMoneyMovementGroupsByMonth") (z ∷ plan))
        (codes "MoneyMovements.ListGroupsByMonth") m _ r h
        (λ k. month_money_movements_list_groups_by_month z plan (month_string m) k)
  prepare-IsCovered (z ∷ plan) (transactions_list f) r h full =
      matched (IsCoveredBy (codes "getTransactions") (z ∷ plan)) none _ r h
        (refl, (encode_filter-IsWithin f, tt))
  prepare-IsCovered (z ∷ plan) (transactions_list_by_account [] f) r h full = absurd (ground arith)
  prepare-IsCovered (z ∷ plan) (transactions_list_by_account (d ∷ id) f) r h full =
      matched (IsCoveredBy (codes "getTransactionsByAccount") (z ∷ plan)) none _ r h
        (refl, (encode_filter-IsWithin f, tt))
  prepare-IsCovered (z ∷ plan) (transactions_list_by_category [] f) r h full = absurd (ground arith)
  prepare-IsCovered (z ∷ plan) (transactions_list_by_category (d ∷ id) f) r h full =
      matched (IsCoveredBy (codes "getTransactionsByCategory") (z ∷ plan)) none _ r h
        (refl, (encode_filter-IsWithin f, tt))
  prepare-IsCovered (z ∷ plan) (transactions_list_by_payee [] f) r h full = absurd (ground arith)
  prepare-IsCovered (z ∷ plan) (transactions_list_by_payee (d ∷ id) f) r h full =
      matched (IsCoveredBy (codes "getTransactionsByPayee") (z ∷ plan)) none _ r h
        (refl, (encode_filter-IsWithin f, tt))
  prepare-IsCovered (z ∷ plan) (transactions_list_by_month m f) r h full =
      matched_month (IsCoveredBy (codes "getTransactionsByMonth") (z ∷ plan))
        (codes "Transactions.ListByMonth") m _ r h
        (λ k. month_transactions_list_by_month z plan (month_string m) f k)
  prepare-IsCovered (z ∷ plan) (transactions_get []) r h full = absurd (ground arith)
  prepare-IsCovered (z ∷ plan) (transactions_get (d ∷ id)) r h full =
      matched (IsCoveredBy (codes "getTransactionById") (z ∷ plan)) none _ r h (refl, (tt, tt))
  prepare-IsCovered (z ∷ plan) (transactions_create s body) r h full =
      matched (IsCoveredBy (codes "createTransaction") (z ∷ plan))
        (validate_spec (codes "Transactions.Create") s) _ r h (refl, (tt, tt))
  prepare-IsCovered (z ∷ plan) (transactions_create_batch specs body) r h full =
      matched (IsCoveredBy (codes "createTransaction") (z ∷ plan)) (check_specs 0 specs) _ r h
        (refl, (tt, tt))
  prepare-IsCovered (z ∷ plan) (transactions_update [] u body) r h full = absurd (ground arith)
  prepare-IsCovered (z ∷ plan) (transactions_update (d ∷ id) u body) r h full =
      matched (IsCoveredBy (codes "updateTransaction") (z ∷ plan))
        (validate_update (codes "Transactions.Update") u) _ r h (refl, (tt, tt))
  prepare-IsCovered (z ∷ plan) (transactions_update_batch patches body) r h full =
      matched (IsCoveredBy (codes "updateTransactions") (z ∷ plan)) (check_patches 0 patches) _ r h
        (refl, (tt, tt))
  prepare-IsCovered (z ∷ plan) (transactions_delete []) r h full = absurd (ground arith)
  prepare-IsCovered (z ∷ plan) (transactions_delete (d ∷ id)) r h full =
      matched (IsCoveredBy (codes "deleteTransaction") (z ∷ plan)) none _ r h (refl, (tt, tt))
  prepare-IsCovered (z ∷ plan) transactions_import r h full =
      matched (IsCoveredBy (codes "importTransactions") (z ∷ plan)) none _ r h (refl, (tt, tt))
  prepare-IsCovered (z ∷ plan) settings r h full =
      matched (IsCoveredBy (codes "getPlanSettingsById") (z ∷ plan)) none _ r h (refl, (tt, tt))
  prepare-IsCovered (z ∷ plan) (plan_export opts) r h full =
      matched (IsCoveredBy (codes "getPlanById") (z ∷ plan)) none _ r h
        (refl, (apply-IsWithin opts [] tt, tt))
  prepare-IsCovered (z ∷ plan) (scheduled_list opts) r h full =
      matched (IsCoveredBy (codes "getScheduledTransactions") (z ∷ plan)) none _ r h
        (refl, (apply-IsWithin opts [] tt, tt))
  prepare-IsCovered (z ∷ plan) (scheduled_get []) r h full = absurd (ground arith)
  prepare-IsCovered (z ∷ plan) (scheduled_get (d ∷ id)) r h full =
      matched (IsCoveredBy (codes "getScheduledTransactionById") (z ∷ plan)) none _ r h
        (refl, (tt, tt))
  prepare-IsCovered (z ∷ plan) (scheduled_create s body) r h full =
      matched (IsCoveredBy (codes "createScheduledTransaction") (z ∷ plan))
        (validate_scheduled today add_date (codes "Scheduled.Create") s) _ r h (refl, (tt, tt))
  prepare-IsCovered (z ∷ plan) (scheduled_update [] u body) r h full = absurd (ground arith)
  prepare-IsCovered (z ∷ plan) (scheduled_update (d ∷ id) u body) r h full =
      matched (IsCoveredBy (codes "updateScheduledTransaction") (z ∷ plan))
        (validate_scheduled_update today add_date (codes "Scheduled.Update") u) _ r h
        (refl, (tt, tt))
  prepare-IsCovered (z ∷ plan) (scheduled_delete []) r h full = absurd (ground arith)
  prepare-IsCovered (z ∷ plan) (scheduled_delete (d ∷ id)) r h full =
      matched (IsCoveredBy (codes "deleteScheduledTransaction") (z ∷ plan)) none _ r h
        (refl, (tt, tt))
