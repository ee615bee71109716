-- ===== src/Sync.antt =====
-- sync.go: the delta cursor as a list option, the sync state, and the merge of a delta batch into a
-- local store. A nil map is the empty one.
pub mod Merge
mod Tests
use ynab_go.Base.{
  ℕ, Bool, true, false, Option, none, some, List, [], ◌∷◌, Bytes, codes, if◌then◌else◌,
}
use ynab_go.Base.Int.{ℤ}
use ynab_go.Std.Maps.{Map, insert, delete}
use ynab_go.Std.Strconv.{format_int}
use ynab_go.Std.Url.{Values, set}

-- An int64.
abbrev pub ServerKnowledge : Type 0
ServerKnowledge = ℤ

abbrev pub cursor_key : Bytes
cursor_key = codes "last_knowledge_of_server"

-- `Since`, and the zero ListOption.
pub data ListOption : Type 0 where
  since : ServerKnowledge → ListOption
  no_option : ListOption

unfoldable pub apply_option : ListOption → Values → Values
apply_option (since k) q = set cursor_key (format_int k) q
apply_option no_option q = q

-- `applyListOptions`.
unfoldable pub apply_list_options : Values → List ListOption → Values
unfolding apply_option
apply_list_options q [] = q
apply_list_options q (o ∷ opts) = apply_list_options (apply_option o q) opts

-- `SyncState`: one cursor for each stream of one plan.
pub record SyncState : Type 0 where
  pub plan_id : Bytes
  pub plan : ServerKnowledge
  pub accounts : ServerKnowledge
  pub categories : ServerKnowledge
  pub months : ServerKnowledge
  pub payees : ServerKnowledge
  pub transactions : ServerKnowledge
  pub scheduled : ServerKnowledge

-- `Syncable`.
pub record Syncable (T : Type 0) : Type 0 where
  pub sync_id : T → Bytes
  pub is_deleted : T → Bool

module _ {T : Type 0} (entity : Syncable T) where
  -- One change of a batch.
  unfoldable pub merge_one : Map T → T → Map T
  merge_one local change =
      if entity.is_deleted change
      then delete (entity.sync_id change) local
      else insert (entity.sync_id change) change local

  -- `MergeByID`.
  unfoldable pub merge_by_id : Map T → List T → Map T
  unfolding merge_one
  merge_by_id local [] = local
  merge_by_id local (change ∷ changes) = merge_by_id (merge_one local change) changes
