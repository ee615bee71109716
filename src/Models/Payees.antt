-- ===== src/Models/Payees.antt =====
-- payees.go and payee_locations.go: the read models, a field for each key of the wire.
use ynab_go.Base.{Bool, Option, Bytes}
use ynab_go.Sync.{Syncable}

-- `Payee`.
pub record Payee : Type 0 where
  pub id : Bytes
  pub name : Bytes
  pub transfer_account_id : Option Bytes
  pub deleted : Bool

-- Its SyncID and IsDeleted.
abbrev pub payee_sync : Syncable Payee
payee_sync = record { sync_id = λ x. x.id; is_deleted = λ x. x.deleted }

-- `PayeeLocation`.
pub record PayeeLocation : Type 0 where
  pub id : Bytes
  pub payee_id : Bytes
  pub latitude : Bytes
  pub longitude : Bytes
  pub deleted : Bool

-- Its SyncID and IsDeleted.
abbrev pub payee_location_sync : Syncable PayeeLocation
payee_location_sync = record { sync_id = λ x. x.id; is_deleted = λ x. x.deleted }
