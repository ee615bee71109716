-- ===== src/Payloads/Planning.antt =====
-- The write payloads of scheduled.go, categories.go and accounts.go with all their fields, in the
-- order of their JSON objects.
use ynab_go.Base.{Bool, some, [], ◌∷◌, Bytes, codes}
use ynab_go.Base.Int.{ℤ}
use ynab_go.Std.Strconv.{format_int}
use ynab_go.Optional.{Optional}
use ynab_go.Date.{Day, marshal_day}
use ynab_go.Payloads.{Entries, encode_bool, optional, nonempty}

-- `ScheduledTransactionSpec`.
pub record ScheduledTransactionSpec : Type 0 where
  pub account_id : Bytes
  pub date : Day
  pub amount : ℤ
  pub frequency : Bytes
  pub payee_id : Optional Bytes
  pub payee_name : Optional Bytes
  pub category_id : Optional Bytes
  pub memo : Optional Bytes
  pub flag_color : Optional Bytes

-- `ScheduledTransactionUpdate`.
pub record ScheduledTransactionUpdate : Type 0 where
  pub account_id : Optional Bytes
  pub date : Optional Day
  pub amount : Optional ℤ
  pub frequency : Bytes
  pub payee_id : Optional Bytes
  pub payee_name : Optional Bytes
  pub category_id : Optional Bytes
  pub memo : Optional Bytes
  pub flag_color : Optional Bytes

-- `CategorySpec`.
pub record CategorySpec : Type 0 where
  pub name : Bytes
  pub group_id : Bytes
  pub note : Optional Bytes
  pub goal_target : Optional ℤ
  pub goal_target_date : Optional Day
  pub goal_needs_whole_amount : Optional Bool
  pub goal_frequency : Bytes

-- `CategoryUpdate`.
pub record CategoryUpdate : Type 0 where
  pub name : Optional Bytes
  pub group_id : Optional Bytes
  pub note : Optional Bytes
  pub goal_target : Optional ℤ
  pub goal_target_date : Optional Day
  pub goal_needs_whole_amount : Optional Bool
  pub goal_frequency : Bytes

-- `AccountSpec`.
pub record AccountSpec : Type 0 where
  pub name : Bytes
  pub kind : Bytes
  pub balance : ℤ

module _ (quote : Bytes → Bytes) where
  unfoldable pub scheduled_spec_entries : ScheduledTransactionSpec → Entries
  unfolding optional
  scheduled_spec_entries s =
      (codes "account_id", some (quote s.account_id))
      ∷ (codes "date", some (marshal_day s.date))
      ∷ (codes "amount", some (format_int s.amount))
      ∷ (codes "frequency", nonempty quote s.frequency)
      ∷ (codes "payee_id", optional quote s.payee_id)
      ∷ (codes "payee_name", optional quote s.payee_name)
      ∷ (codes "category_id", optional quote s.category_id)
      ∷ (codes "memo", optional quote s.memo)
      ∷ (codes "flag_color", optional quote s.flag_color)
      ∷ []

  unfoldable pub scheduled_update_entries : ScheduledTransactionUpdate → Entries
  unfolding optional
  scheduled_update_entries u =
      (codes "account_id", optional quote u.account_id)
      ∷ (codes "date", optional marshal_day u.date)
      ∷ (codes "amount", optional format_int u.amount)
      ∷ (codes "frequency", nonempty quote u.frequency)
      ∷ (codes "payee_id", optional quote u.payee_id)
      ∷ (codes "payee_name", optional quote u.payee_name)
      ∷ (codes "category_id", optional quote u.category_id)
      ∷ (codes "memo", optional quote u.memo)
      ∷ (codes "flag_color", optional quote u.flag_color)
      ∷ []

  unfoldable pub category_spec_entries : CategorySpec → Entries
  unfolding optional
  category_spec_entries s =
      (codes "name", some (quote s.name))
      ∷ (codes "category_group_id", some (quote s.group_id))
      ∷ (codes "note", optional quote s.note)
      ∷ (codes "goal_target", optional format_int s.goal_target)
      ∷ (codes "goal_target_date", optional marshal_day s.goal_target_date)
      ∷ (codes "goal_needs_whole_amount", optional encode_bool s.goal_needs_whole_amount)
      ∷ (codes "goal_frequency", nonempty quote s.goal_frequency)
      ∷ []

  unfoldable pub category_update_entries : CategoryUpdate → Entries
  unfolding optional
  category_update_entries u =
      (codes "name", optional quote u.name)
      ∷ (codes "category_group_id", optional quote u.group_id)
      ∷ (codes "note", optional quote u.note)
      ∷ (codes "goal_target", optional format_int u.goal_target)
      ∷ (codes "goal_target_date", optional marshal_day u.goal_target_date)
      ∷ (codes "goal_needs_whole_amount", optional encode_bool u.goal_needs_whole_amount)
      ∷ (codes "goal_frequency", nonempty quote u.goal_frequency)
      ∷ []

  unfoldable pub account_spec_entries : AccountSpec → Entries
  account_spec_entries s =
      (codes "name", some (quote s.name))
      ∷ (codes "type", some (quote s.kind))
      ∷ (codes "balance", some (format_int s.balance))
      ∷ []
