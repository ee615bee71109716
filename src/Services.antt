-- ===== src/Services.antt =====
-- The services of a plan (accounts.go, categories.go, months.go, payees.go, payee_locations.go,
-- money_movements.go, transactions.go, scheduled.go, plan.go): what each operation checks before any
-- I/O and the request that it makes. A payload is what json.Marshal makes of the Go value.
pub mod Requests
pub mod Scheduled
pub mod Ids
pub mod Tests
use ynab_go.Base.{
  ℕ, Bool, true, false, Option, none, some, List, [], ◌∷◌, ◌++◌, Bytes, codes, is_nil,
  if◌then◌else◌,
}
use ynab_go.Std.Url.{Values}
use ynab_go.Errors.{ArgumentError, WireError, check_rune_max}
use ynab_go.Transport.{Environment}
use ynab_go.Client.{Client}
use ynab_go.Client.Call.{Payload, nil_body, Call, Envelope, argument_error, call}
use ynab_go.Date.{Day, AddDate, Month, is_zero_month, month_string, zero_month_error}
use ynab_go.Plan.{PlansOption, plans_query, path}
use ynab_go.Sync.{ListOption, apply_list_options}
use ynab_go.Transactions.{
  Spec, validate_spec, Update, validate_update, Patch, Filter, encode_filter, check_specs,
  check_patches,
}
use ynab_go.Services.Requests.{
  Endpoint, Prepared, refused, ready, accounts_list_request, accounts_get_request,
  accounts_create_request, categories_list_request, categories_get_request,
  categories_get_for_month_request, categories_create_request, categories_update_request,
  categories_assign_request, categories_create_group_request, categories_rename_group_request,
  months_list_request, months_get_request, payees_list_request, payees_get_request,
  payees_create_request, payees_rename_request, payee_locations_list_request,
  payee_locations_get_request, payee_locations_list_by_payee_request, money_movements_list_request,
  money_movements_list_by_month_request, money_movements_list_groups_request,
  money_movements_list_groups_by_month_request, transactions_list_request,
  transactions_list_by_account_request, transactions_list_by_category_request,
  transactions_list_by_payee_request, transactions_list_by_month_request, transactions_get_request,
  transactions_create_request, transactions_create_batch_request, transactions_update_request,
  transactions_update_batch_request, transactions_delete_request, transactions_import_request,
  settings_request, export_request,
}
use ynab_go.Services.Scheduled.{
  ScheduledSpec, ScheduledUpdate, scheduled_list_request, scheduled_get_request,
  scheduled_create_request, scheduled_update_request, scheduled_delete_request,
}

-- The operations of a plan with their arguments: those of its services, Settings and Export.
pub data Operation : Type 0 where
  accounts_list : List ListOption → Operation
  accounts_get : Bytes → Operation
  accounts_create : Payload → Operation
  categories_list : List ListOption → Operation
  categories_get : Bytes → Operation
  categories_get_for_month : Month → Bytes → Operation
  categories_create : Payload → Operation
  categories_update : Bytes → Payload → Operation
  categories_assign : Month → Bytes → Payload → Operation
  categories_create_group : Bytes → Payload → Operation
  categories_rename_group : Bytes → Bytes → Payload → Operation
  months_list : List ListOption → Operation
  months_get : Month → Operation
  payees_list : List ListOption → Operation
  payees_get : Bytes → Operation
  payees_create : Bytes → Payload → Operation
  payees_rename : Bytes → Bytes → Payload → Operation
  payee_locations_list : Operation
  payee_locations_get : Bytes → Operation
  payee_locations_list_by_payee : Bytes → Operation
  money_movements_list : Operation
  money_movements_list_by_month : Month → Operation
  money_movements_list_groups : Operation
  money_movements_list_groups_by_month : Month → Operation
  transactions_list : Filter → Operation
  transactions_list_by_account : Bytes → Filter → Operation
  transactions_list_by_category : Bytes → Filter → Operation
  transactions_list_by_payee : Bytes → Filter → Operation
  transactions_list_by_month : Month → Filter → Operation
  transactions_get : Bytes → Operation
  transactions_create : Spec → Payload → Operation
  transactions_create_batch : List Spec → Payload → Operation
  transactions_update : Bytes → Update → Payload → Operation
  transactions_update_batch : List Patch → Payload → Operation
  transactions_delete : Bytes → Operation
  transactions_import : Operation
  settings : Operation
  plan_export : List ListOption → Operation
  scheduled_list : List ListOption → Operation
  scheduled_get : Bytes → Operation
  scheduled_create : ScheduledSpec → Payload → Operation
  scheduled_update : Bytes → ScheduledUpdate → Payload → Operation
  scheduled_delete : Bytes → Operation

-- The day that Today returns, and AddDate.
module _ (today : Day) (add_date : AddDate) where
  -- An operation's own definition.
  unfoldable pub prepare : Operation → Prepared
  prepare (accounts_list opts) = accounts_list_request opts
  prepare (accounts_get id) = accounts_get_request id
  prepare (accounts_create body) = accounts_create_request body
  prepare (categories_list opts) = categories_list_request opts
  prepare (categories_get id) = categories_get_request id
  prepare (categories_get_for_month m id) = categories_get_for_month_request m id
  prepare (categories_create body) = categories_create_request body
  prepare (categories_update id body) = categories_update_request id body
  prepare (categories_assign m id body) = categories_assign_request m id body
  prepare (categories_create_group name body) = categories_create_group_request name body
  prepare (categories_rename_group id name body) = categories_rename_group_request id name body
  prepare (months_list opts) = months_list_request opts
  prepare (months_get m) = months_get_request m
  prepare (payees_list opts) = payees_list_request opts
  prepare (payees_get id) = payees_get_request id
  prepare (payees_create name body) = payees_create_request name body
  prepare (payees_rename id name body) = payees_rename_request id name body
  prepare payee_locations_list = payee_locations_list_request
  prepare (payee_locations_get id) = payee_locations_get_request id
  prepare (payee_locations_list_by_payee id) = payee_locations_list_by_payee_request id
  prepare money_movements_list = money_movements_list_request
  prepare (money_movements_list_by_month m) = money_movements_list_by_month_request m
  prepare money_movements_list_groups = money_movements_list_groups_request
  prepare (money_movements_list_groups_by_month m) = money_movements_list_groups_by_month_request m
  prepare (transactions_list f) = transactions_list_request f
  prepare (transactions_list_by_account id f) = transactions_list_by_account_request id f
  prepare (transactions_list_by_category id f) = transactions_list_by_category_request id f
  prepare (transactions_list_by_payee id f) = transactions_list_by_payee_request id f
  prepare (transactions_list_by_month m f) = transactions_list_by_month_request m f
  prepare (transactions_get id) = transactions_get_request id
  prepare (transactions_create s body) = transactions_create_request s body
  prepare (transactions_create_batch specs body) = transactions_create_batch_request specs body
  prepare (transactions_update id u body) = transactions_update_request id u body
  prepare (transactions_update_batch patches body) = transactions_update_batch_request patches body
  prepare (transactions_delete id) = transactions_delete_request id
  prepare transactions_import = transactions_import_request
  prepare settings = settings_request
  prepare (plan_export opts) = export_request opts
  prepare (scheduled_list opts) = scheduled_list_request opts
  prepare (scheduled_get id) = scheduled_get_request id
  prepare (scheduled_create s body) = scheduled_create_request today add_date s body
  prepare (scheduled_update id u body) = scheduled_update_request today add_date id u body
  prepare (scheduled_delete id) = scheduled_delete_request id

module _ {E : Type 0} {T : Type 0} (wire : Bytes → Option WireError) (envelope : Bytes → Envelope T)
    (c : Client) (env : Environment E) (id : Bytes) where
  unfoldable pub run : Prepared → Call E T
  run (refused e) = record { trace = []; result = argument_error e }
  run (ready r) = call wire envelope c env r.method (path id r.segments) r.query r.payload

  -- An operation of the plan `id`, to the result of `do`.
  unfoldable pub perform : Day → AddDate → Operation → Call E T
  unfolding run
  perform today add_date op = run (prepare today add_date op)

  -- `User`, `Plans`: operations of the client itself.
  unfoldable pub user : Call E T
  user = call wire envelope c env (codes "GET") (codes "user") [] nil_body

  unfoldable pub plans : List PlansOption → Call E T
  plans opts = call wire envelope c env (codes "GET") (codes "plans") (plans_query [] opts) nil_body
