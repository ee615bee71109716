-- ===== src/Contract/Table.antt =====
-- internal/contract/table.go: the rows of the coverage table.
use ynab_go.Base.{List, [], ◌∷◌, Bytes, codes}
use ynab_go.Contract.{Row}

-- The verb aliases.
abbrev pub get : Bytes
get = codes "GET"

abbrev pub post : Bytes
post = codes "POST"

abbrev pub put : Bytes
put = codes "PUT"

abbrev pub patch : Bytes
patch = codes "PATCH"

abbrev pub del : Bytes
del = codes "DELETE"

-- `deltaParams`.
abbrev pub delta_params : List Bytes
delta_params = codes "last_knowledge_of_server" ∷ []

-- `transactionFilterParams`.
abbrev pub transaction_filter_params : List Bytes
transaction_filter_params =
    codes "since_date" ∷ codes "until_date" ∷ codes "type" ∷ codes "last_knowledge_of_server" ∷ []

-- `opQ`: a row with the query parameters that it allows.
abbrev op_q : Bytes → Bytes → Bytes → List Bytes → List Bytes → Row
op_q id method path params go_methods = record {
  id = id;
  method = method;
  path = path;
  query_params = params;
  go_methods = go_methods;
}

-- `op`: a row without query parameters.
abbrev op : Bytes → Bytes → Bytes → List Bytes → Row
op id method path go_methods = op_q id method path [] go_methods

-- `Table`.
abbrev pub table : List Row
table =
    op (codes "getUser") get (codes "/user") (codes "Client.User" ∷ [])
    ∷ op_q (codes "getPlans") get (codes "/plans") (codes "include_accounts" ∷ [])
        (codes "Client.Plans" ∷ [])
    ∷ op_q (codes "getPlanById") get (codes "/plans/{plan_id}") delta_params
        (codes "Plan.Export" ∷ [])
    ∷ op (codes "getPlanSettingsById") get (codes "/plans/{plan_id}/settings")
        (codes "Plan.Settings" ∷ [])
    ∷ op_q (codes "getPlanMonths") get (codes "/plans/{plan_id}/months") delta_params
        (codes "MonthsService.List" ∷ [])
    ∷ op (codes "getPlanMonth") get (codes "/plans/{plan_id}/months/{month}")
        (codes "MonthsService.Get" ∷ [])
    ∷ op_q (codes "getAccounts") get (codes "/plans/{plan_id}/accounts") delta_params
        (codes "AccountsService.List" ∷ [])
    ∷ op (codes "createAccount") post (codes "/plans/{plan_id}/accounts")
        (codes "AccountsService.Create" ∷ [])
    ∷ op (codes "getAccountById") get (codes "/plans/{plan_id}/accounts/{account_id}")
        (codes "AccountsService.Get" ∷ [])
    ∷ op_q (codes "getCategories") get (codes "/plans/{plan_id}/categories") delta_params
        (codes "CategoriesService.List" ∷ [])
    ∷ op (codes "createCategory") post (codes "/plans/{plan_id}/categories")
        (codes "CategoriesService.Create" ∷ [])
    ∷ op (codes "getCategoryById") get (codes "/plans/{plan_id}/categories/{category_id}")
        (codes "CategoriesService.Get" ∷ [])
    ∷ op (codes "updateCategory") patch (codes "/plans/{plan_id}/categories/{category_id}")
        (codes "CategoriesService.Update" ∷ [])
    ∷ op (codes "getMonthCategoryById") get
        (codes "/plans/{plan_id}/months/{month}/categories/{category_id}")
        (codes "CategoriesService.GetForMonth" ∷ [])
    ∷ op (codes "updateMonthCategory") patch
        (codes "/plans/{plan_id}/months/{month}/categories/{category_id}")
        (codes "CategoriesService.Assign" ∷ [])
    ∷ op (codes "createCategoryGroup") post (codes "/plans/{plan_id}/category_groups")
        (codes "CategoriesService.CreateGroup" ∷ [])
    ∷ op (codes "updateCategoryGroup") patch
        (codes "/plans/{plan_id}/category_groups/{category_group_id}")
        (codes "CategoriesService.RenameGroup" ∷ [])
    ∷ op_q (codes "getPayees") get (codes "/plans/{plan_id}/payees") delta_params
        (codes "PayeesService.List" ∷ [])
    ∷ op (codes "createPayee") post (codes "/plans/{plan_id}/payees")
        (codes "PayeesService.Create" ∷ [])
    ∷ op (codes "getPayeeById") get (codes "/plans/{plan_id}/payees/{payee_id}")
        (codes "PayeesService.Get" ∷ [])
    ∷ op (codes "updatePayee") patch (codes "/plans/{plan_id}/payees/{payee_id}")
        (codes "PayeesService.Rename" ∷ [])
    ∷ op (codes "getPayeeLocations") get (codes "/plans/{plan_id}/payee_locations")
        (codes "PayeeLocationsService.List" ∷ [])
    ∷ op (codes "getPayeeLocationById") get
        (codes "/plans/{plan_id}/payee_locations/{payee_location_id}")
        (codes "PayeeLocationsService.Get" ∷ [])
    ∷ op (codes "getPayeeLocationsByPayee") get
        (codes "/plans/{plan_id}/payees/{payee_id}/payee_locations")
        (codes "PayeeLocationsService.ListByPayee" ∷ [])
    ∷ op (codes "getMoneyMovements") get (codes "/plans/{plan_id}/money_movements")
        (codes "MoneyMovementsService.List" ∷ [])
    ∷ op (codes "getMoneyMovementsByMonth") get
        (codes "/plans/{plan_id}/months/{month}/money_movements")
        (codes "MoneyMovementsService.ListByMonth" ∷ [])
    ∷ op (codes "getMoneyMovementGroups") get (codes "/plans/{plan_id}/money_movement_groups")
        (codes "MoneyMovementsService.ListGroups" ∷ [])
    ∷ op (codes "getMoneyMovementGroupsByMonth") get
        (codes "/plans/{plan_id}/months/{month}/money_movement_groups")
        (codes "MoneyMovementsService.ListGroupsByMonth" ∷ [])
    ∷ op_q (codes "getTransactions") get (codes "/plans/{plan_id}/transactions")
        transaction_filter_params (codes "TransactionsService.List" ∷ [])
    ∷ op (codes "createTransaction") post (codes "/plans/{plan_id}/transactions")
        (codes "TransactionsService.Create" ∷ codes "TransactionsService.CreateBatch" ∷ [])
    ∷ op (codes "updateTransactions") patch (codes "/plans/{plan_id}/transactions")
        (codes "TransactionsService.UpdateBatch" ∷ [])
    ∷ op (codes "importTransactions") post (codes "/plans/{plan_id}/transactions/import")
        (codes "TransactionsService.Import" ∷ [])
    ∷ op (codes "getTransactionById") get (codes "/plans/{plan_id}/transactions/{transaction_id}")
        (codes "TransactionsService.Get" ∷ [])
    ∷ op (codes "updateTransaction") put (codes "/plans/{plan_id}/transactions/{transaction_id}")
        (codes "TransactionsService.Update" ∷ [])
    ∷ op (codes "deleteTransaction") del (codes "/plans/{plan_id}/transactions/{transaction_id}")
        (codes "TransactionsService.Delete" ∷ [])
    ∷ op_q (codes "getTransactionsByAccount") get
        (codes "/plans/{plan_id}/accounts/{account_id}/transactions") transaction_filter_params
        (codes "TransactionsService.ListByAccount" ∷ [])
    ∷ op_q (codes "getTransactionsByCategory") get
        (codes "/plans/{plan_id}/categories/{category_id}/transactions") transaction_filter_params
        (codes "TransactionsService.ListByCategory" ∷ [])
    ∷ op_q (codes "getTransactionsByPayee") get
        (codes "/plans/{plan_id}/payees/{payee_id}/transactions") transaction_filter_params
        (codes "TransactionsService.ListByPayee" ∷ [])
    ∷ op_q (codes "getTransactionsByMonth") get
        (codes "/plans/{plan_id}/months/{month}/transactions") transaction_filter_params
        (codes "TransactionsService.ListByMonth" ∷ [])
    ∷ op_q (codes "getScheduledTransactions") get (codes "/plans/{plan_id}/scheduled_transactions")
        delta_params (codes "ScheduledTransactionsService.List" ∷ [])
    ∷ op (codes "createScheduledTransaction") post (codes "/plans/{plan_id}/scheduled_transactions")
        (codes "ScheduledTransactionsService.Create" ∷ [])
    ∷ op (codes "getScheduledTransactionById") get
        (codes "/plans/{plan_id}/scheduled_transactions/{scheduled_transaction_id}")
        (codes "ScheduledTransactionsService.Get" ∷ [])
    ∷ op (codes "updateScheduledTransaction") put
        (codes "/plans/{plan_id}/scheduled_transactions/{scheduled_transaction_id}")
        (codes "ScheduledTransactionsService.Update" ∷ [])
    ∷ op (codes "deleteScheduledTransaction") del
        (codes "/plans/{plan_id}/scheduled_transactions/{scheduled_transaction_id}")
        (codes "ScheduledTransactionsService.Delete" ∷ [])
    ∷ []
