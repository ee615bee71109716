-- ===== src/Contract/Rows/ClientRows.antt =====
-- plan.go: User and Plans, against the coverage table.
use ynab_go.Base.{◌≡◌, refl, inl, List, [], ◌∷◌, All, map, Bytes, codes, bytes_eq}
use ynab_go.Std.Url.{Values, set}
use ynab_go.Plan.{PlansOption, include_accounts, no_plans_option, plans_query}
use ynab_go.Contract.{Row, row_id}
use ynab_go.Contract.Table.{table}
use ynab_go.Contract.Params.{IsWithinOf}
use ynab_go.Contract.Rows.{matching}
use ynab_go.Contract.Rows.Queries.{set-IsWithin}

plans_query-IsWithin :
    (opts : List PlansOption) (q : Values)
    → IsWithinOf (codes "include_accounts" ∷ []) (map (λ e. e.0) q)
    → IsWithinOf (codes "include_accounts" ∷ []) (map (λ e. e.0) (plans_query q opts))
unfolding plans_query
plans_query-IsWithin [] q w = w
plans_query-IsWithin (include_accounts ∷ opts) q w =
    plans_query-IsWithin opts (set (codes "include_accounts") (codes "true") q) (
      set-IsWithin (codes "include_accounts" ∷ []) (codes "include_accounts") (codes "true") q
        (inl refl) w)
plans_query-IsWithin (no_plans_option ∷ opts) q w = plans_query-IsWithin opts q w

-- The rows that match a GET of one segment.
abbrev rows_at : Bytes → List Row
rows_at segment = matching (codes "GET") ([] ∷ segment ∷ []) table

-- User and Plans, the operations of the client itself: one row each matches, their own, and that of
-- Plans allows its query.
pub client-IsCovered :
    (opts : List PlansOption)
    → (map row_id (rows_at (codes "user")) ≡ codes "getUser" ∷ [])
      × ((map row_id (rows_at (codes "plans")) ≡ codes "getPlans" ∷ [])
          × All
              (λ w. IsWithinOf w.query_params (map (λ e. e.0) (plans_query [] opts)))
              (rows_at (codes "plans")))
unfolding matching bytes_eq
client-IsCovered opts = (refl, (refl, (plans_query-IsWithin opts [] tt, tt)))
