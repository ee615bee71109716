-- ===== src/Models/Categories.antt =====
-- categories.go: the read models, a field for each key of the wire. time.Time and float64 are
-- parameters.
use ynab_go.Base.{Bool, Option, List, Bytes}
use ynab_go.Base.Int.{ℤ}
use ynab_go.Date.{Day}
use ynab_go.Sync.{Syncable}

-- `CategoryBase`.
pub record CategoryBase (Time : Type 0) : Type 0 where
  pub id : Bytes
  pub category_group_id : Bytes
  pub category_group_name : Bytes
  pub name : Bytes
  pub hidden : Bool
  pub internal : Bool
  pub original_category_group_id : Option Bytes
  pub note : Option Bytes
  pub budgeted : ℤ
  pub activity : ℤ
  pub balance : ℤ
  pub goal_type : Option Bytes
  pub goal_needs_whole_amount : Option Bool
  pub goal_day : Option ℤ
  pub goal_cadence : Option ℤ
  pub goal_cadence_frequency : Option ℤ
  pub goal_creation_month : Option Day
  pub goal_target : Option ℤ
  pub goal_target_month : Option Day
  pub goal_target_date : Option Day
  pub goal_percentage_complete : Option ℤ
  pub goal_months_to_budget : Option ℤ
  pub goal_under_funded : Option ℤ
  pub goal_overall_funded : Option ℤ
  pub goal_overall_left : Option ℤ
  pub goal_snoozed_at : Option Time
  pub deleted : Bool

-- Its SyncID and IsDeleted.
abbrev pub category_base_sync : {Time : Type 0} → Syncable (CategoryBase Time)
category_base_sync = record { sync_id = λ x. x.id; is_deleted = λ x. x.deleted }

-- `Category`.
pub record Category (Time : Type 0) (Float : Type 0) : Type 0 where
  pub base : CategoryBase Time
  pub balance_formatted : Bytes
  pub balance_currency : Float
  pub activity_formatted : Bytes
  pub activity_currency : Float
  pub budgeted_formatted : Bytes
  pub budgeted_currency : Float
  pub goal_target_formatted : Option Bytes
  pub goal_target_currency : Option Float
  pub goal_under_funded_formatted : Option Bytes
  pub goal_under_funded_currency : Option Float
  pub goal_overall_funded_formatted : Option Bytes
  pub goal_overall_funded_currency : Option Float
  pub goal_overall_left_formatted : Option Bytes
  pub goal_overall_left_currency : Option Float

-- `CategoryGroup`.
pub record CategoryGroup (Time : Type 0) (Float : Type 0) : Type 0 where
  pub id : Bytes
  pub name : Bytes
  pub hidden : Bool
  pub internal : Bool
  pub deleted : Bool
  pub categories : List (Category Time Float)

-- Its SyncID and IsDeleted.
abbrev pub category_group_sync :
    {Time : Type 0} → {Float : Type 0} → Syncable (CategoryGroup Time Float)
category_group_sync = record { sync_id = λ x. x.id; is_deleted = λ x. x.deleted }
