-- ===== src/Services/Ids.antt =====
-- An empty id argument never reaches the wire, and a call with none is never refused for it.
use ynab_go.Base.{
  ℕ, ◌≡◌, ◌∙◌, ap, refl, true, false, ◌||◌, Option-cases, inl, inr, Option, List, [], ◌∷◌, ◌++◌,
  All, arith, Bytes, codes, is_nil,
}
use ynab_go.Errors.{WireError}
use ynab_go.Transport.{Environment}
use ynab_go.Transport.Path.{IsText}
use ynab_go.Client.{Client}
use ynab_go.Client.Call.{Envelope, call, is_collapsed}
use ynab_go.Client.Call.Guard.{any_nil, is_collapsed-join_path}
use ynab_go.Date.{Day, AddDate, Month, is_zero_month, month_string, pad_int}
use ynab_go.Plan.{path, Exported, export}
use ynab_go.Sync.{ListOption}
use ynab_go.Services.{
  Operation, accounts_list, accounts_get, accounts_create, categories_list, categories_get,
  categories_get_for_month, categories_create, categories_update, categories_assign,
  categories_create_group, categories_rename_group, months_list, months_get, payees_list,
  payees_get, payees_create, payees_rename, payee_locations_list, payee_locations_get,
  payee_locations_list_by_payee, money_movements_list, money_movements_list_by_month,
  money_movements_list_groups, money_movements_list_groups_by_month, transactions_list,
  transactions_list_by_account, transactions_list_by_category, transactions_list_by_payee,
  transactions_list_by_month, transactions_get, transactions_create, transactions_create_batch,
  transactions_update, transactions_update_batch, transactions_delete, transactions_import,
  settings, plan_export, scheduled_list, scheduled_get, scheduled_create, scheduled_update,
  scheduled_delete, prepare, perform, run,
}
use ynab_go.Services.Requests.{Endpoint, ready, check_month}

-- The ids that a caller hands to an operation.
abbrev pub id_arguments : Operation → List Bytes
id_arguments (accounts_get id) = id ∷ []
id_arguments (categories_get id) = id ∷ []
id_arguments (categories_get_for_month m id) = id ∷ []
id_arguments (categories_update id body) = id ∷ []
id_arguments (categories_assign m id body) = id ∷ []
id_arguments (categories_rename_group id name body) = id ∷ []
id_arguments (payees_get id) = id ∷ []
id_arguments (payees_rename id name body) = id ∷ []
id_arguments (payee_locations_get id) = id ∷ []
id_arguments (payee_locations_list_by_payee id) = id ∷ []
id_arguments (transactions_list_by_account id f) = id ∷ []
id_arguments (transactions_list_by_category id f) = id ∷ []
id_arguments (transactions_list_by_payee id f) = id ∷ []
id_arguments (transactions_get id) = id ∷ []
id_arguments (transactions_update id u body) = id ∷ []
id_arguments (transactions_delete id) = id ∷ []
id_arguments (scheduled_get id) = id ∷ []
id_arguments (scheduled_update id u body) = id ∷ []
id_arguments (scheduled_delete id) = id ∷ []
id_arguments _ = []

append-full : (s t : Bytes) (c : ℕ) → is_nil (s ++ (c ∷ t)) ≡ false
append-full [] t c = refl
append-full (d ∷ s) t c = refl

pub month_string-full : (m : Month) → is_zero_month m ≡ false → is_nil (month_string m) ≡ false
unfolding month_string
month_string-full m h =
    ground (arith, append-full (pad_int 4 m.year) (pad_int 2 m.month ++ codes "-01") b'-')

module _ (today : Day) (add_date : AddDate) where
  prepare-ids :
      (op : Operation) (r : Endpoint)
      → prepare today add_date op ≡ ready r
      → any_nil r.segments ≡ any_nil (id_arguments op)
  unfolding prepare check_month
  prepare-ids (accounts_list opts) r h = ground arith
  prepare-ids (accounts_get id) r h = ground arith
  prepare-ids (accounts_create body) r h = ground arith
  prepare-ids (categories_list opts) r h = ground arith
  prepare-ids (categories_get id) r h = ground arith
  prepare-ids (categories_get_for_month m id) r h = ground (arith, month_string-full m)
  prepare-ids (categories_create body) r h = ground arith
  prepare-ids (categories_update id body) r h = ground arith
  prepare-ids (categories_assign m id body) r h = ground (arith, month_string-full m)
  prepare-ids (categories_create_group id body) r h = ground arith
  prepare-ids (categories_rename_group id name body) r h = ground arith
  prepare-ids (months_list opts) r h = ground arith
  prepare-ids (months_get m) r h = ground (arith, month_string-full m)
  prepare-ids (payees_list opts) r h = ground arith
  prepare-ids (payees_get id) r h = ground arith
  prepare-ids (payees_create id body) r h = ground arith
  prepare-ids (payees_rename id name body) r h = ground arith
  prepare-ids payee_locations_list r h = ground arith
  prepare-ids (payee_locations_get id) r h = ground arith
  prepare-ids (payee_locations_list_by_payee id) r h = ground arith
  prepare-ids money_movements_list r h = ground arith
  prepare-ids (money_movements_list_by_month m) r h = ground (arith, month_string-full m)
  prepare-ids money_movements_list_groups r h = ground arith
  prepare-ids (money_movements_list_groups_by_month m) r h = ground (arith, month_string-full m)
  prepare-ids (transactions_list f) r h = ground arith
  prepare-ids (transactions_list_by_account id f) r h = ground arith
  prepare-ids (transactions_list_by_category id f) r h = ground arith
  prepare-ids (transactions_list_by_payee id f) r h = ground arith
  prepare-ids (transactions_list_by_month m f) r h = ground (arith, month_string-full m)
  prepare-ids (transactions_get id) r h = ground arith
  prepare-ids (transactions_create s body) r h = ground arith
  prepare-ids (transactions_create_batch specs body) r h = ground arith
  prepare-ids (transactions_update id u body) r h = ground arith
  prepare-ids (transactions_update_batch patches body) r h = ground arith
  prepare-ids (transactions_delete id) r h = ground arith
  prepare-ids transactions_import r h = ground arith
  prepare-ids settings r h = ground arith
  prepare-ids (plan_export opts) r h = ground arith
  prepare-ids (scheduled_list opts) r h = ground arith
  prepare-ids (scheduled_get id) r h = ground arith
  prepare-ids (scheduled_create s body) r h = ground arith
  prepare-ids (scheduled_update id u body) r h = ground arith
  prepare-ids (scheduled_delete id) r h = ground arith

  -- For every operation of a plan that its own checks let through, on texts of bytes: the guard of
  -- `do` refuses it exactly if the plan id or an id argument is empty.
  pub perform-ids :
      (id : Bytes) (op : Operation) (r : Endpoint)
      → prepare today add_date op ≡ ready r
      → All IsText (id ∷ r.segments)
      → is_collapsed (path id r.segments) ≡ any_nil (id ∷ id_arguments op)
  unfolding path
  perform-ids id op r h text =
      is_collapsed-join_path b'p' (codes "lans") (id ∷ r.segments) (ground arith, text)
      ∙ ap (λ b. is_nil id || b) (prepare-ids op r h)

  -- An operation of a plan (of its services, Settings or Export) that its own checks let through,
  -- on texts of bytes, sends nothing if the plan id or an id argument is empty, whatever the client
  -- and the server.
  pub perform-silent :
      {E : Type 0} {T : Type 0} (wire : Bytes → Option WireError) (envelope : Bytes → Envelope T)
      (c : Client) (env : Environment E) (id : Bytes) (op : Operation) (r : Endpoint)
      → prepare today add_date op ≡ ready r
      → All IsText (id ∷ r.segments)
      → any_nil (id ∷ id_arguments op) ≡ true
      → (perform wire envelope c env id today add_date op).trace ≡ []
  unfolding perform run call
  perform-silent wire envelope c env id op r h text empty =
      let gap = perform-ids id op r h text ∙ empty in
      rw h (elim (Option-cases c.config_err) [
        | inl fine ↦ ground (arith, gap, fine)
        | inr (e, bad) ↦ ground (arith, gap, bad)
      ])

-- Export as an operation of a plan is `Export` of plan.go.
pub perform-export :
    {E : Type 0} {D : Type 0} (today : Day) (add_date : AddDate) (wire : Bytes → Option WireError)
    (envelope : Bytes → Envelope (Exported D)) (c : Client) (env : Environment E) (id : Bytes)
    (opts : List ListOption)
    → perform wire envelope c env id today add_date (plan_export opts)
      ≡ export wire envelope c env id opts
unfolding perform run prepare export path
perform-export today add_date wire envelope c env id opts = refl
