-- ===== src/Models/Transactions.antt =====
-- transactions.go: the read models, a field for each key of the wire. time.Time and float64 are
-- parameters.
use ynab_go.Base.{Bool, Option, List, Bytes}
use ynab_go.Base.Int.{ℤ}
use ynab_go.Date.{Day}
use ynab_go.Sync.{ServerKnowledge, Syncable}

-- `TransactionBase`.
pub record TransactionBase : Type 0 where
  pub id : Bytes
  pub date : Day
  pub amount : ℤ
  pub memo : Option Bytes
  pub cleared : Bytes
  pub approved : Bool
  pub flag_color : Option Bytes
  pub flag_name : Option Bytes
  pub account_id : Bytes
  pub payee_id : Option Bytes
  pub category_id : Option Bytes
  pub transfer_account_id : Option Bytes
  pub transfer_transaction_id : Option Bytes
  pub matched_transaction_id : Option Bytes
  pub import_id : Option Bytes
  pub import_payee_name : Option Bytes
  pub import_payee_name_original : Option Bytes
  pub debt_transaction_type : Option Bytes
  pub deleted : Bool

-- Its SyncID and IsDeleted.
abbrev pub transaction_base_sync : Syncable TransactionBase
transaction_base_sync = record { sync_id = λ x. x.id; is_deleted = λ x. x.deleted }

-- `SubtransactionBase`.
pub record SubtransactionBase : Type 0 where
  pub id : Bytes
  pub transaction_id : Bytes
  pub amount : ℤ
  pub memo : Option Bytes
  pub payee_id : Option Bytes
  pub payee_name : Option Bytes
  pub category_id : Option Bytes
  pub category_name : Option Bytes
  pub transfer_account_id : Option Bytes
  pub transfer_transaction_id : Option Bytes
  pub deleted : Bool

-- Its SyncID and IsDeleted.
abbrev pub subtransaction_base_sync : Syncable SubtransactionBase
subtransaction_base_sync = record { sync_id = λ x. x.id; is_deleted = λ x. x.deleted }

-- `Subtransaction`.
pub record Subtransaction (Float : Type 0) : Type 0 where
  pub base : SubtransactionBase
  pub amount_formatted : Bytes
  pub amount_currency : Float

-- `Transaction`.
pub record Transaction (Float : Type 0) : Type 0 where
  pub base : TransactionBase
  pub amount_formatted : Bytes
  pub amount_currency : Float
  pub account_name : Bytes
  pub payee_name : Option Bytes
  pub category_name : Option Bytes
  pub subtransactions : List (Subtransaction Float)

-- `HybridTransaction`.
pub record HybridTransaction (Float : Type 0) : Type 0 where
  pub base : TransactionBase
  pub amount_formatted : Bytes
  pub amount_currency : Float
  pub kind : Bytes
  pub parent_transaction_id : Option Bytes
  pub account_name : Bytes
  pub payee_name : Option Bytes
  pub category_name : Bytes

-- `BatchResult`.
pub record BatchResult (Float : Type 0) : Type 0 where
  pub transactions : List (Transaction Float)
  pub transaction_ids : List Bytes
  pub duplicate_import_ids : List Bytes
  pub server_knowledge : ServerKnowledge
