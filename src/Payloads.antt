-- ===== src/Payloads.antt =====
-- The write payloads of transactions.go with all their fields, and the JSON objects that
-- encoding/json makes of them: the fields in their order, an `omitzero` field only where it is not
-- zero. How encoding/json quotes a string is a parameter.
pub mod Planning
pub mod Fields
pub mod Patches
mod Tests
use ynab_go.Base.{
  Bool, true, false, Option, none, some, List, [], ◌∷◌, ◌++◌, map, Bytes, codes, is_nil,
  if◌then◌else◌,
}
use ynab_go.Base.Int.{ℤ}
use ynab_go.Std.Maps.{Map, insert}
use ynab_go.Std.Strconv.{format_int}
use ynab_go.Std.Strings.{join}
use ynab_go.Optional.{Optional, is_zero, marshal}
use ynab_go.Date.{Day, marshal_day}
use ynab_go.Client.Call.{Payload, encoded}
use ynab_go.Transactions.{Leg, Spec, Update, Patch}

-- `SubtransactionSpec`.
pub record SubtransactionSpec : Type 0 where
  pub amount : ℤ
  pub payee_id : Optional Bytes
  pub payee_name : Optional Bytes
  pub category_id : Optional Bytes
  pub memo : Optional Bytes

-- `TransactionSpec`; a nil slice of splits is `none`.
pub record TransactionSpec : Type 0 where
  pub account_id : Bytes
  pub date : Day
  pub amount : ℤ
  pub payee_id : Optional Bytes
  pub payee_name : Optional Bytes
  pub category_id : Optional Bytes
  pub memo : Optional Bytes
  pub cleared : Bytes
  pub approved : Optional Bool
  pub flag_color : Optional Bytes
  pub import_id : Optional Bytes
  pub splits : Option (List SubtransactionSpec)

-- `TransactionUpdate`.
pub record TransactionUpdate : Type 0 where
  pub account_id : Optional Bytes
  pub date : Optional Day
  pub amount : Optional ℤ
  pub payee_id : Optional Bytes
  pub payee_name : Optional Bytes
  pub category_id : Optional Bytes
  pub memo : Optional Bytes
  pub cleared : Bytes
  pub approved : Optional Bool
  pub flag_color : Optional Bytes

-- `TransactionPatch`.
pub record TransactionPatch : Type 0 where
  pub id : Bytes
  pub import_id : Bytes
  pub update : TransactionUpdate

-- The fields of a struct by their JSON names, `none` for one that is left out.
abbrev pub Entries : Type 0
Entries = List (Bytes × Option Bytes)

-- The fields that are written.
unfoldable pub present : Entries → Map Bytes
present [] = []
present ((key, none) ∷ entries) = present entries
present ((key, some raw) ∷ entries) = (key, raw) ∷ present entries

abbrev pub encode_bool : Bool → Bytes
encode_bool true = codes "true"
encode_bool false = codes "false"

-- An `omitzero` field of an Optional type.
unfoldable pub optional : {T : Type 0} → (T → Bytes) → Optional T → Option Bytes
unfolding is_zero marshal
optional encode o = if is_zero o then none else marshal (λ v. some (encode v)) o

-- An `omitzero` field of a string type.
abbrev pub nonempty : (Bytes → Bytes) → Bytes → Option Bytes
nonempty quote s = if is_nil s then none else some (quote s)

module _ (quote : Bytes → Bytes) where
  -- A JSON object.
  unfoldable pub object : Map Bytes → Bytes
  object fields = b'{' ∷ join (codes ",") (map (λ e. quote e.0 ++ b':' ∷ e.1) fields) ++ codes "}"

  abbrev array : List Bytes → Bytes
  array items = b'[' ∷ join (codes ",") items ++ codes "]"

  unfoldable pub leg_entries : SubtransactionSpec → Entries
  unfolding optional
  leg_entries s =
      (codes "amount", some (format_int s.amount))
      ∷ (codes "payee_id", optional quote s.payee_id)
      ∷ (codes "payee_name", optional quote s.payee_name)
      ∷ (codes "category_id", optional quote s.category_id)
      ∷ (codes "memo", optional quote s.memo)
      ∷ []

  unfoldable pub legs : Option (List SubtransactionSpec) → Option Bytes
  unfolding object leg_entries present
  legs none = none
  legs (some splits) = some (array (map (λ s. object (present (leg_entries s))) splits))

  unfoldable pub spec_entries : TransactionSpec → Entries
  unfolding optional legs
  spec_entries s =
      (codes "account_id", some (quote s.account_id))
      ∷ (codes "date", some (marshal_day s.date))
      ∷ (codes "amount", some (format_int s.amount))
      ∷ (codes "payee_id", optional quote s.payee_id)
      ∷ (codes "payee_name", optional quote s.payee_name)
      ∷ (codes "category_id", optional quote s.category_id)
      ∷ (codes "memo", optional quote s.memo)
      ∷ (codes "cleared", nonempty quote s.cleared)
      ∷ (codes "approved", optional encode_bool s.approved)
      ∷ (codes "flag_color", optional quote s.flag_color)
      ∷ (codes "import_id", optional quote s.import_id)
      ∷ (codes "subtransactions", legs s.splits)
      ∷ []

  unfoldable pub update_entries : TransactionUpdate → Entries
  unfolding optional
  update_entries u =
      (codes "account_id", optional quote u.account_id)
      ∷ (codes "date", optional marshal_day u.date)
      ∷ (codes "amount", optional format_int u.amount)
      ∷ (codes "payee_id", optional quote u.payee_id)
      ∷ (codes "payee_name", optional quote u.payee_name)
      ∷ (codes "category_id", optional quote u.category_id)
      ∷ (codes "memo", optional quote u.memo)
      ∷ (codes "cleared", nonempty quote u.cleared)
      ∷ (codes "approved", optional encode_bool u.approved)
      ∷ (codes "flag_color", optional quote u.flag_color)
      ∷ []

  -- `TransactionPatch.MarshalJSON`, as the map that it encodes at the end.
  unfoldable pub marshal_patch : TransactionPatch → Option (Map Bytes)
  unfolding present update_entries
  marshal_patch p =
      if is_nil p.id
      then if is_nil p.import_id
        then none
        else some
            (insert (codes "import_id") (quote p.import_id) (present (update_entries p.update)))
      else some (insert (codes "id") (quote p.id) (present (update_entries p.update)))

  -- `body{wrapper: value}`.
  unfoldable pub body : Bytes → Bytes → Payload
  unfolding object
  body wrapper raw = encoded (object ((wrapper, raw) ∷ []))

  -- `nameOnlyBody`.
  unfoldable pub name_only_body : Bytes → Bytes → Payload
  unfolding body
  name_only_body wrapper name = body wrapper (object ((codes "name", quote name) ∷ []))

-- What the checks before any I/O look at.
abbrev pub checked_leg : SubtransactionSpec → Leg
checked_leg s = record { amount = s.amount; payee_name = s.payee_name; memo = s.memo }

abbrev pub checked_spec : TransactionSpec → Spec
checked_spec s = record {
  amount = s.amount;
  import_id = s.import_id;
  payee_name = s.payee_name;
  memo = s.memo;
  splits = elim s.splits [ none ↦ [] | some splits ↦ map checked_leg splits ];
}

abbrev pub checked_update : TransactionUpdate → Update
checked_update u = record { payee_name = u.payee_name; memo = u.memo }

abbrev pub checked_patch : TransactionPatch → Patch
checked_patch p = record { id = p.id; import_id = p.import_id; update = checked_update p.update }
