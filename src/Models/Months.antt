-- ===== src/Models/Months.antt =====
-- months.go: the read models, a field for each key of the wire. time.Time and float64 are
-- parameters.
use ynab_go.Base.{Bool, Option, List, Bytes}
use ynab_go.Base.Int.{ℤ}
use ynab_go.Date.{Month, month_string}
use ynab_go.Sync.{Syncable}
use ynab_go.Models.Categories.{Category, CategoryBase}

-- `MonthSummaryBase`.
pub record MonthSummaryBase : Type 0 where
  pub month : Month
  pub note : Option Bytes
  pub income : ℤ
  pub budgeted : ℤ
  pub activity : ℤ
  pub to_be_budgeted : ℤ
  pub age_of_money : Option ℤ
  pub deleted : Bool

-- Its SyncID and IsDeleted.
abbrev pub month_summary_base_sync : Syncable MonthSummaryBase
month_summary_base_sync = record {
  sync_id = λ x. month_string x.month;
  is_deleted = λ x. x.deleted;
}

-- `MonthSummary`.
pub record MonthSummary (Float : Type 0) : Type 0 where
  pub base : MonthSummaryBase
  pub income_formatted : Bytes
  pub income_currency : Float
  pub budgeted_formatted : Bytes
  pub budgeted_currency : Float
  pub activity_formatted : Bytes
  pub activity_currency : Float
  pub to_be_budgeted_formatted : Bytes
  pub to_be_budgeted_currency : Float

-- `MonthDetailBase`.
pub record MonthDetailBase (Time : Type 0) : Type 0 where
  pub base : MonthSummaryBase
  pub categories : List (CategoryBase Time)

-- `MonthDetail`.
pub record MonthDetail (Time : Type 0) (Float : Type 0) : Type 0 where
  pub base : MonthSummary Float
  pub categories : List (Category Time Float)
