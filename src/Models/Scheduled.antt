-- ===== src/Models/Scheduled.antt =====
-- scheduled.go: the read models, a field for each key of the wire. time.Time and float64 are
-- parameters.
use ynab_go.Base.{Bool, Option, List, Bytes}
use ynab_go.Base.Int.{ℤ}
use ynab_go.Date.{Day}
use ynab_go.Sync.{Syncable}

-- `ScheduledTransactionBase`.
pub record ScheduledTransactionBase : Type 0 where
  pub id : Bytes
  pub date_first : Day
  pub date_next : Day
  pub frequency : Bytes
  pub amount : ℤ
  pub memo : Option Bytes
  pub flag_color : Option Bytes
  pub flag_name : Option Bytes
  pub account_id : Bytes
  pub payee_id : Option Bytes
  pub category_id : Option Bytes
  pub transfer_account_id : Option Bytes
  pub deleted : Bool

-- Its SyncID and IsDeleted.
abbrev pub scheduled_transaction_base_sync : Syncable ScheduledTransactionBase
scheduled_transaction_base_sync = record { sync_id = λ x. x.id; is_deleted = λ x. x.deleted }

-- `ScheduledSubtransactionBase`.
pub record ScheduledSubtransactionBase : Type 0 where
  pub id : Bytes
  pub scheduled_transaction_id : Bytes
  pub amount : ℤ
  pub memo : Option Bytes
  pub payee_id : Option Bytes
  pub payee_name : Option Bytes
  pub category_id : Option Bytes
  pub category_name : Option Bytes
  pub transfer_account_id : Option Bytes
  pub deleted : Bool

-- Its SyncID and IsDeleted.
abbrev pub scheduled_subtransaction_base_sync : Syncable ScheduledSubtransactionBase
scheduled_subtransaction_base_sync = record { sync_id = λ x. x.id; is_deleted = λ x. x.deleted }

-- `ScheduledSubtransaction`.
pub record ScheduledSubtransaction (Float : Type 0) : Type 0 where
  pub base : ScheduledSubtransactionBase
  pub amount_formatted : Bytes
  pub amount_currency : Float

-- `ScheduledTransaction`.
pub record ScheduledTransaction (Float : Type 0) : Type 0 where
  pub base : ScheduledTransactionBase
  pub amount_formatted : Bytes
  pub amount_currency : Float
  pub account_name : Bytes
  pub payee_name : Option Bytes
  pub category_name : Option Bytes
  pub subtransactions : List (ScheduledSubtransaction Float)
