-- ===== src/Models/Movements.antt =====
-- money_movements.go: the read models, a field for each key of the wire. time.Time and float64 are
-- parameters.
use ynab_go.Base.{Option, Bytes}
use ynab_go.Base.Int.{ℤ}
use ynab_go.Date.{Month}

-- `MoneyMovement`.
pub record MoneyMovement (Time : Type 0) (Float : Type 0) : Type 0 where
  pub id : Bytes
  pub month : Option Month
  pub moved_at : Option Time
  pub note : Option Bytes
  pub money_movement_group_id : Option Bytes
  pub performed_by_user_id : Option Bytes
  pub from_category_id : Option Bytes
  pub to_category_id : Option Bytes
  pub amount : ℤ
  pub amount_formatted : Bytes
  pub amount_currency : Float

-- `MoneyMovementGroup`.
pub record MoneyMovementGroup (Time : Type 0) : Type 0 where
  pub id : Bytes
  pub group_created_at : Time
  pub month : Month
  pub note : Option Bytes
  pub performed_by_user_id : Option Bytes
