-- ===== src/Contract/Rows.antt =====
-- The doc lines `// YNAB operationId:` of the service methods, and the rows of the coverage table
-- that match a request.
pub mod Queries
pub mod Months
pub mod Coverage
pub mod ClientRows
mod Tests
use ynab_go.Base.{
  Bool, All, Bool-cases, inl, inr, subst, Option, none, some, ℕ, ◌≡◌, refl, true, false, ◌&&◌, not,
  List, [], ◌∷◌, map, arith, Bytes, codes, bytes_eq, is_nil, if◌then◌else◌,
}
use ynab_go.Contract.{Row, row_id}
use ynab_go.Contract.Table.{table, delta_params, transaction_filter_params}
use ynab_go.Contract.Pattern.{path_regexp, match_pieces}
use ynab_go.Client.Call.Guard.{any_nil}
use ynab_go.Client.Call.{Payload, nil_body}
use ynab_go.Contract.Params.{IsIn, IsWithinOf}
use ynab_go.Sync.{ListOption, since, no_option, cursor_key, apply_list_options, apply_option}
use ynab_go.Std.Url.{Values, set}
use ynab_go.Std.Strconv.{format_int}
use ynab_go.Services.{
  Operation, accounts_list, accounts_get, accounts_create, categories_list, categories_get,
  categories_get_for_month, categories_create, categories_update, categories_assign,
  categories_create_group, categories_rename_group, months_list, months_get, payees_list,
  payees_get, payees_create, payees_rename, payee_locations_list, payee_locations_get,
  payee_locations_list_by_payee, money_movements_list, money_movements_list_by_month,
  money_movements_list_groups, money_movements_list_groups_by_month, transactions_list,
  transactions_list_by_account, transactions_list_by_category, transactions_list_by_payee,
  transactions_list_by_month, transactions_get, transactions_create, transactions_create_batch,
  transactions_update, transactions_update_batch, transactions_delete, transactions_import,
  settings, plan_export, scheduled_list, scheduled_get, scheduled_create, scheduled_update,
  scheduled_delete,
}
use ynab_go.Services.Requests.{Endpoint, ready, check_month, unless}
use ynab_go.Errors.{ArgumentError, check_rune_max}
use ynab_go.Date.{Month, month_string, is_zero_month}
use ynab_go.Transactions.{
  Filter, set_if, encode_filter, validate_spec, validate_update, check_specs, check_patches,
}
use ynab_go.Services.Ids.{id_arguments, month_string-full}

-- The operationId of a method's doc line.
unfoldable pub operation_id : Operation → Bytes
operation_id (accounts_list a) = codes "getAccounts"
operation_id (accounts_get a) = codes "getAccountById"
operation_id (accounts_create a) = codes "createAccount"
operation_id (categories_list a) = codes "getCategories"
operation_id (categories_get a) = codes "getCategoryById"
operation_id (categories_get_for_month a b) = codes "getMonthCategoryById"
operation_id (categories_create a) = codes "createCategory"
operation_id (categories_update a b) = codes "updateCategory"
operation_id (categories_assign a b c) = codes "updateMonthCategory"
operation_id (categories_create_group a b) = codes "createCategoryGroup"
operation_id (categories_rename_group a b c) = codes "updateCategoryGroup"
operation_id (months_list a) = codes "getPlanMonths"
operation_id (months_get a) = codes "getPlanMonth"
operation_id (payees_list a) = codes "getPayees"
operation_id (payees_get a) = codes "getPayeeById"
operation_id (payees_create a b) = codes "createPayee"
operation_id (payees_rename a b c) = codes "updatePayee"
operation_id payee_locations_list = codes "getPayeeLocations"
operation_id (payee_locations_get a) = codes "getPayeeLocationById"
operation_id (payee_locations_list_by_payee a) = codes "getPayeeLocationsByPayee"
operation_id money_movements_list = codes "getMoneyMovements"
operation_id (money_movements_list_by_month a) = codes "getMoneyMovementsByMonth"
operation_id money_movements_list_groups = codes "getMoneyMovementGroups"
operation_id (money_movements_list_groups_by_month a) = codes "getMoneyMovementGroupsByMonth"
operation_id (transactions_list a) = codes "getTransactions"
operation_id (transactions_list_by_account a b) = codes "getTransactionsByAccount"
operation_id (transactions_list_by_category a b) = codes "getTransactionsByCategory"
operation_id (transactions_list_by_payee a b) = codes "getTransactionsByPayee"
operation_id (transactions_list_by_month a b) = codes "getTransactionsByMonth"
operation_id (transactions_get a) = codes "getTransactionById"
operation_id (transactions_create a b) = codes "createTransaction"
operation_id (transactions_create_batch a b) = codes "createTransaction"
operation_id (transactions_update a b c) = codes "updateTransaction"
operation_id (transactions_update_batch a b) = codes "updateTransactions"
operation_id (transactions_delete a) = codes "deleteTransaction"
operation_id transactions_import = codes "importTransactions"
operation_id settings = codes "getPlanSettingsById"
operation_id (plan_export a) = codes "getPlanById"
operation_id (scheduled_list a) = codes "getScheduledTransactions"
operation_id (scheduled_get a) = codes "getScheduledTransactionById"
operation_id (scheduled_create a b) = codes "createScheduledTransaction"
operation_id (scheduled_update a b c) = codes "updateScheduledTransaction"
operation_id (scheduled_delete a) = codes "deleteScheduledTransaction"

-- The rows whose method and pattern match, in the table's order.
unfoldable pub matching : Bytes → List Bytes → List Row → List Row
unfolding path_regexp match_pieces
matching method segments [] = []
matching method segments (row ∷ rows) =
    let rest = matching method segments rows in
    if bytes_eq row.method method && match_pieces (path_regexp row.path) segments
    then row ∷ rest
    else rest

-- The request's path behind the leading slash.
abbrev pub wire_segments : Bytes → Endpoint → List Bytes
wire_segments id r = [] ∷ codes "plans" ∷ id ∷ r.segments

-- The rows that match an endpoint of the plan `id`, by their ids.
abbrev pub rows_of : Bytes → Endpoint → List Row
rows_of id a = matching a.method (wire_segments id a) table

-- One row matches, its id is `row`, and it allows every key of the query.
abbrev pub IsCoveredBy : Bytes → Bytes → Endpoint → Type 0
IsCoveredBy row id a =
    (map row_id (rows_of id a) ≡ row ∷ [])
    × All (λ w. IsWithinOf w.query_params (map (λ e. e.0) a.query)) (rows_of id a)
