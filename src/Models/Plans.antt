-- ===== src/Models/Plans.antt =====
-- plan.go: the read models, a field for each key of the wire. time.Time and float64 are parameters.
use ynab_go.Base.{Option, List, Bytes}
use ynab_go.Date.{Month}
use ynab_go.Milliunits.{CurrencyFormat}
use ynab_go.Models.Accounts.{Account, AccountBase}
use ynab_go.Models.Categories.{CategoryBase, CategoryGroup}
use ynab_go.Models.Months.{MonthDetailBase}
use ynab_go.Models.Payees.{Payee, PayeeLocation}
use ynab_go.Models.Scheduled.{ScheduledSubtransactionBase, ScheduledTransactionBase}
use ynab_go.Models.Transactions.{SubtransactionBase, TransactionBase}

-- `User`.
pub record User : Type 0 where
  pub id : Bytes

-- `DateFormat`.
pub record DateFormat : Type 0 where
  pub format : Bytes

-- `PlanSummary`.
pub record PlanSummary (Time : Type 0) (Float : Type 0) : Type 0 where
  pub id : Bytes
  pub name : Bytes
  pub last_modified_on : Time
  pub first_month : Month
  pub last_month : Month
  pub date_format : Option DateFormat
  pub currency_format : Option CurrencyFormat
  pub accounts : List (Account Time Float)

-- `PlanDetail`.
pub record PlanDetail (Time : Type 0) (Float : Type 0) : Type 0 where
  pub id : Bytes
  pub name : Bytes
  pub last_modified_on : Time
  pub first_month : Month
  pub last_month : Month
  pub date_format : Option DateFormat
  pub currency_format : Option CurrencyFormat
  pub accounts : List (AccountBase Time)
  pub payees : List Payee
  pub payee_locations : List PayeeLocation
  pub category_groups : List (CategoryGroup Time Float)
  pub categories : List (CategoryBase Time)
  pub months : List (MonthDetailBase Time)
  pub transactions : List TransactionBase
  pub subtransactions : List SubtransactionBase
  pub scheduled_transactions : List ScheduledTransactionBase
  pub scheduled_subtransactions : List ScheduledSubtransactionBase

-- `PlanList`.
pub record PlanList (Time : Type 0) (Float : Type 0) : Type 0 where
  pub plans : List (PlanSummary Time Float)
  pub default_plan : Option (PlanSummary Time Float)

-- `PlanSettings`.
pub record PlanSettings : Type 0 where
  pub date_format : Option DateFormat
  pub currency_format : Option CurrencyFormat
