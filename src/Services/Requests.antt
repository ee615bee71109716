-- ===== src/Services/Requests.antt =====
-- accounts.go, categories.go, months.go, payees.go, payee_locations.go, money_movements.go,
-- transactions.go and plan.go: one definition for each operation of a plan, which says what it
-- checks and what it then hands to `do`.
use ynab_go.Base.{Option, none, some, List, [], ◌∷◌, Bytes, codes, if◌then◌else◌}
use ynab_go.Std.Url.{Values}
use ynab_go.Errors.{ArgumentError, check_rune_max}
use ynab_go.Client.Call.{Payload, nil_body}
use ynab_go.Date.{Month, is_zero_month, month_string, zero_month_error}
use ynab_go.Sync.{ListOption, apply_list_options}
use ynab_go.Transactions.{
  Spec, validate_spec, Update, validate_update, Patch, Filter, encode_filter, check_specs,
  check_patches,
}

-- The arguments of `do`; the path by its segments, below "plans" and the plan's id.
pub record Endpoint : Type 0 where
  pub method : Bytes
  pub segments : List Bytes
  pub query : Values
  pub payload : Payload

-- An operation before any I/O: refused, or ready for `do`.
pub data Prepared : Type 0 where
  refused : ArgumentError → Prepared
  ready : Endpoint → Prepared

abbrev pub read : List Bytes → Values → Prepared
read segments query =
    ready (record { method = codes "GET"; segments = segments; query = query; payload = nil_body })

abbrev pub write : Bytes → List Bytes → Payload → Prepared
write method segments payload =
    ready (record { method = method; segments = segments; query = []; payload = payload })

-- An operation goes on unless its check fails.
abbrev pub unless : Option ArgumentError → Prepared → Prepared
unless none p = p
unless (some e) p = refused e

-- The check of a month argument.
unfoldable pub check_month : Bytes → Month → Option ArgumentError
check_month op m = if is_zero_month m then some (zero_month_error op) else none

-- Each operation: its checks, and the arguments that it hands to `do`.
abbrev pub accounts_list_request : List ListOption → Prepared
accounts_list_request opts = read (codes "accounts" ∷ []) (apply_list_options [] opts)

abbrev pub accounts_get_request : Bytes → Prepared
accounts_get_request id = read (codes "accounts" ∷ id ∷ []) []

abbrev pub accounts_create_request : Payload → Prepared
accounts_create_request body = write (codes "POST") (codes "accounts" ∷ []) body

abbrev pub categories_list_request : List ListOption → Prepared
categories_list_request opts = read (codes "categories" ∷ []) (apply_list_options [] opts)

abbrev pub categories_get_request : Bytes → Prepared
categories_get_request id = read (codes "categories" ∷ id ∷ []) []

abbrev pub categories_get_for_month_request : Month → Bytes → Prepared
categories_get_for_month_request m id =
    unless (check_month (codes "Categories.GetForMonth") m)
      (read (codes "months" ∷ month_string m ∷ codes "categories" ∷ id ∷ []) [])

abbrev pub categories_create_request : Payload → Prepared
categories_create_request body = write (codes "POST") (codes "categories" ∷ []) body

abbrev pub categories_update_request : Bytes → Payload → Prepared
categories_update_request id body = write (codes "PATCH") (codes "categories" ∷ id ∷ []) body

abbrev pub categories_assign_request : Month → Bytes → Payload → Prepared
categories_assign_request m id body =
    unless (check_month (codes "Categories.Assign") m)
      (write (codes "PATCH") (codes "months" ∷ month_string m ∷ codes "categories" ∷ id ∷ []) body)

abbrev pub categories_create_group_request : Bytes → Payload → Prepared
categories_create_group_request name body =
    unless (check_rune_max (codes "Categories.CreateGroup") (codes "name") name 50)
      (write (codes "POST") (codes "category_groups" ∷ []) body)

abbrev pub categories_rename_group_request : Bytes → Bytes → Payload → Prepared
categories_rename_group_request id name body =
    unless (check_rune_max (codes "Categories.RenameGroup") (codes "name") name 50)
      (write (codes "PATCH") (codes "category_groups" ∷ id ∷ []) body)

abbrev pub months_list_request : List ListOption → Prepared
months_list_request opts = read (codes "months" ∷ []) (apply_list_options [] opts)

abbrev pub months_get_request : Month → Prepared
months_get_request m =
    unless (check_month (codes "Months.Get") m) (read (codes "months" ∷ month_string m ∷ []) [])

abbrev pub payees_list_request : List ListOption → Prepared
payees_list_request opts = read (codes "payees" ∷ []) (apply_list_options [] opts)

abbrev pub payees_get_request : Bytes → Prepared
payees_get_request id = read (codes "payees" ∷ id ∷ []) []

abbrev pub payees_create_request : Bytes → Payload → Prepared
payees_create_request name body =
    unless (check_rune_max (codes "Payees.Create") (codes "name") name 500)
      (write (codes "POST") (codes "payees" ∷ []) body)

abbrev pub payees_rename_request : Bytes → Bytes → Payload → Prepared
payees_rename_request id name body =
    unless (check_rune_max (codes "Payees.Rename") (codes "name") name 500)
      (write (codes "PATCH") (codes "payees" ∷ id ∷ []) body)

abbrev pub payee_locations_list_request : Prepared
payee_locations_list_request = read (codes "payee_locations" ∷ []) []

abbrev pub payee_locations_get_request : Bytes → Prepared
payee_locations_get_request id = read (codes "payee_locations" ∷ id ∷ []) []

abbrev pub payee_locations_list_by_payee_request : Bytes → Prepared
payee_locations_list_by_payee_request id =
    read (codes "payees" ∷ id ∷ codes "payee_locations" ∷ []) []

abbrev pub money_movements_list_request : Prepared
money_movements_list_request = read (codes "money_movements" ∷ []) []

abbrev pub money_movements_list_by_month_request : Month → Prepared
money_movements_list_by_month_request m =
    unless (check_month (codes "MoneyMovements.ListByMonth") m)
      (read (codes "months" ∷ month_string m ∷ codes "money_movements" ∷ []) [])

abbrev pub money_movements_list_groups_request : Prepared
money_movements_list_groups_request = read (codes "money_movement_groups" ∷ []) []

abbrev pub money_movements_list_groups_by_month_request : Month → Prepared
money_movements_list_groups_by_month_request m =
    unless (check_month (codes "MoneyMovements.ListGroupsByMonth") m)
      (read (codes "months" ∷ month_string m ∷ codes "money_movement_groups" ∷ []) [])

abbrev pub transactions_list_request : Filter → Prepared
transactions_list_request f = read (codes "transactions" ∷ []) (encode_filter f)

abbrev pub transactions_list_by_account_request : Bytes → Filter → Prepared
transactions_list_by_account_request id f =
    read (codes "accounts" ∷ id ∷ codes "transactions" ∷ []) (encode_filter f)

abbrev pub transactions_list_by_category_request : Bytes → Filter → Prepared
transactions_list_by_category_request id f =
    read (codes "categories" ∷ id ∷ codes "transactions" ∷ []) (encode_filter f)

abbrev pub transactions_list_by_payee_request : Bytes → Filter → Prepared
transactions_list_by_payee_request id f =
    read (codes "payees" ∷ id ∷ codes "transactions" ∷ []) (encode_filter f)

abbrev pub transactions_list_by_month_request : Month → Filter → Prepared
transactions_list_by_month_request m f =
    unless (check_month (codes "Transactions.ListByMonth") m)
      (read (codes "months" ∷ month_string m ∷ codes "transactions" ∷ []) (encode_filter f))

abbrev pub transactions_get_request : Bytes → Prepared
transactions_get_request id = read (codes "transactions" ∷ id ∷ []) []

abbrev pub transactions_create_request : Spec → Payload → Prepared
transactions_create_request s body =
    unless (validate_spec (codes "Transactions.Create") s)
      (write (codes "POST") (codes "transactions" ∷ []) body)

abbrev pub transactions_create_batch_request : List Spec → Payload → Prepared
transactions_create_batch_request specs body =
    unless (check_specs 0 specs) (write (codes "POST") (codes "transactions" ∷ []) body)

abbrev pub transactions_update_request : Bytes → Update → Payload → Prepared
transactions_update_request id u body =
    unless (validate_update (codes "Transactions.Update") u)
      (write (codes "PUT") (codes "transactions" ∷ id ∷ []) body)

abbrev pub transactions_update_batch_request : List Patch → Payload → Prepared
transactions_update_batch_request patches body =
    unless (check_patches 0 patches) (write (codes "PATCH") (codes "transactions" ∷ []) body)

abbrev pub transactions_delete_request : Bytes → Prepared
transactions_delete_request id = write (codes "DELETE") (codes "transactions" ∷ id ∷ []) nil_body

abbrev pub transactions_import_request : Prepared
transactions_import_request =
    write (codes "POST") (codes "transactions" ∷ codes "import" ∷ []) nil_body

abbrev pub export_request : List ListOption → Prepared
export_request opts = read [] (apply_list_options [] opts)

abbrev pub settings_request : Prepared
settings_request = read (codes "settings" ∷ []) []
