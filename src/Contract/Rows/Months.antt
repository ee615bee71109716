-- ===== src/Contract/Rows/Months.antt =====
-- The operations with a month in their path: the row that matches, whatever the month's text.
use ynab_go.Base.{ℕ, ◌≡◌, refl, false, [], ◌∷◌, arith, Bytes, codes, bytes_eq, is_nil}
use ynab_go.Client.Call.{Payload, nil_body}
use ynab_go.Transactions.{Filter, encode_filter}
use ynab_go.Contract.Rows.{matching, IsCoveredBy}
use ynab_go.Contract.Rows.Queries.{encode_filter-IsWithin}

pub month_categories_get_for_month :
    (z : ℕ) (plan : Bytes) (d : ℕ) (id : Bytes) (t : Bytes)
    → is_nil t ≡ false
    → IsCoveredBy (codes "getMonthCategoryById") (z ∷ plan) (record {
      method = codes "GET";
      segments = codes "months" ∷ t ∷ codes "categories" ∷ (d ∷ id) ∷ [];
      query = [];
      payload = nil_body;
    })
unfolding matching bytes_eq
month_categories_get_for_month z plan d id [] full = absurd (ground arith)
month_categories_get_for_month z plan d id (u ∷ t) full = (refl, (tt, tt))

pub month_categories_assign :
    (z : ℕ) (plan : Bytes) (d : ℕ) (id : Bytes) (t : Bytes) (p : Payload)
    → is_nil t ≡ false
    → IsCoveredBy (codes "updateMonthCategory") (z ∷ plan) (record {
      method = codes "PATCH";
      segments = codes "months" ∷ t ∷ codes "categories" ∷ (d ∷ id) ∷ [];
      query = [];
      payload = p;
    })
unfolding matching bytes_eq
month_categories_assign z plan d id [] p full = absurd (ground arith)
month_categories_assign z plan d id (u ∷ t) p full = (refl, (tt, tt))

pub month_months_get :
    (z : ℕ) (plan : Bytes) (t : Bytes)
    → is_nil t ≡ false
    → IsCoveredBy (codes "getPlanMonth") (z ∷ plan) (record {
      method = codes "GET";
      segments = codes "months" ∷ t ∷ [];
      query = [];
      payload = nil_body;
    })
unfolding matching bytes_eq
month_months_get z plan [] full = absurd (ground arith)
month_months_get z plan (u ∷ t) full = (refl, (tt, tt))

pub month_money_movements_list_by_month :
    (z : ℕ) (plan : Bytes) (t : Bytes)
    → is_nil t ≡ false
    → IsCoveredBy (codes "getMoneyMovementsByMonth") (z ∷ plan) (record {
      method = codes "GET";
      segments = codes "months" ∷ t ∷ codes "money_movements" ∷ [];
      query = [];
      payload = nil_body;
    })
unfolding matching bytes_eq
month_money_movements_list_by_month z plan [] full = absurd (ground arith)
month_money_movements_list_by_month z plan (u ∷ t) full = (refl, (tt, tt))

pub month_money_movements_list_groups_by_month :
    (z : ℕ) (plan : Bytes) (t : Bytes)
    → is_nil t ≡ false
    → IsCoveredBy (codes "getMoneyMovementGroupsByMonth") (z ∷ plan) (record {
      method = codes "GET";
      segments = codes "months" ∷ t ∷ codes "money_movement_groups" ∷ [];
      query = [];
      payload = nil_body;
    })
unfolding matching bytes_eq
month_money_movements_list_groups_by_month z plan [] full = absurd (ground arith)
month_money_movements_list_groups_by_month z plan (u ∷ t) full = (refl, (tt, tt))

pub month_transactions_list_by_month :
    (z : ℕ) (plan : Bytes) (t : Bytes) (f : Filter)
    → is_nil t ≡ false
    → IsCoveredBy (codes "getTransactionsByMonth") (z ∷ plan) (record {
      method = codes "GET";
      segments = codes "months" ∷ t ∷ codes "transactions" ∷ [];
      query = (encode_filter f);
      payload = nil_body;
    })
unfolding matching bytes_eq
month_transactions_list_by_month z plan [] f full = absurd (ground arith)
month_transactions_list_by_month z plan (u ∷ t) f full = (refl, (encode_filter-IsWithin f, tt))
