-- ===== src/Models/Accounts.antt =====
-- accounts.go: the read models, a field for each key of the wire. time.Time and float64 are
-- parameters.
use ynab_go.Base.{Bool, Option, Bytes}
use ynab_go.Base.Int.{ℤ}
use ynab_go.Std.Maps.{Map}
use ynab_go.Sync.{Syncable}

-- `AccountBase`.
pub record AccountBase (Time : Type 0) : Type 0 where
  pub id : Bytes
  pub name : Bytes
  pub kind : Bytes
  pub on_budget : Bool
  pub closed : Bool
  pub note : Option Bytes
  pub balance : ℤ
  pub cleared_balance : ℤ
  pub uncleared_balance : ℤ
  pub transfer_payee_id : Option Bytes
  pub direct_import_linked : Bool
  pub direct_import_in_error : Bool
  pub last_reconciled_at : Option Time
  pub debt_original_balance : Option ℤ
  pub debt_interest_rates : Map ℤ
  pub debt_minimum_payments : Map ℤ
  pub debt_escrow_amounts : Map ℤ
  pub deleted : Bool

-- Its SyncID and IsDeleted.
abbrev pub account_base_sync : {Time : Type 0} → Syncable (AccountBase Time)
account_base_sync = record { sync_id = λ x. x.id; is_deleted = λ x. x.deleted }

-- `Account`.
pub record Account (Time : Type 0) (Float : Type 0) : Type 0 where
  pub base : AccountBase Time
  pub balance_formatted : Bytes
  pub balance_currency : Float
  pub cleared_balance_formatted : Bytes
  pub cleared_balance_currency : Float
  pub uncleared_balance_formatted : Bytes
  pub uncleared_balance_currency : Float
