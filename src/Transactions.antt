-- ===== src/Transactions.antt =====
-- transactions.go: the write payloads, their checks before any I/O, the identity of a batch patch,
-- and the query of a filter; errors.go: checkOptRuneMax. Fields that no check reads are left out.
pub mod Valid
pub mod Batch
mod Tests
use ynab_go.Base.{
  ℕ, suc, ◌+◌, Bool, true, false, ◌&&◌, not, Option, none, some, List, [], ◌∷◌, ◌++◌, map, Bytes,
  codes, is_nil, bytes_eq, if◌then◌else◌,
}
use ynab_go.Base.Int.{ℤ, pos, eqb_ℤ}
use ynab_go.Std.Strconv.{format_uint, format_int}
use ynab_go.Std.Url.{Values, set}
use ynab_go.Errors.{ArgumentError, check_rune_max, err_first}
use ynab_go.Milliunits.{add}
use ynab_go.Optional.{Optional, get}
use ynab_go.Sync.{ServerKnowledge}
use ynab_go.Date.{Day, is_zero_day, day_string}

abbrev pub import_id_max : ℕ
import_id_max = 36

abbrev pub payee_name_max : ℕ
payee_name_max = 200

abbrev pub memo_max : ℕ
memo_max = 500

abbrev pub import_id_field : Bytes
import_id_field = codes "import_id"

abbrev pub payee_name_field : Bytes
payee_name_field = codes "payee_name"

abbrev pub memo_field : Bytes
memo_field = codes "memo"

-- `checkOptRuneMax`.
unfoldable pub check_opt_rune_max : Bytes → Bytes → Optional Bytes → ℕ → Option ArgumentError
check_opt_rune_max op field o limit = elim (get o) [
  | none ↦ none
  | some v ↦ check_rune_max op field v limit
]

-- `SubtransactionSpec`, the fields that are checked.
pub record Leg : Type 0 where
  pub amount : ℤ
  pub payee_name : Optional Bytes
  pub memo : Optional Bytes

-- `TransactionSpec`, the fields that are checked.
pub record Spec : Type 0 where
  pub amount : ℤ
  pub import_id : Optional Bytes
  pub payee_name : Optional Bytes
  pub memo : Optional Bytes
  pub splits : List Leg

-- `argErr.Reason += " (<what> <i>)"`.
unfoldable pub at_index : Bytes → ℕ → ArgumentError → ArgumentError
at_index what i e = record e {
  reason = e.reason ++ (codes " (" ++ (what ++ (b' ' ∷ (format_uint i ++ codes ")"))));
}

unfoldable pub check_leg : Bytes → Leg → Option ArgumentError
unfolding check_opt_rune_max
check_leg op leg = err_first (
    check_opt_rune_max op payee_name_field leg.payee_name payee_name_max
    ∷ check_opt_rune_max op memo_field leg.memo memo_max
    ∷ [])

-- The loop over the legs from leg i on, with the sum so far, and the comparison after it.
unfoldable pub check_splits : Bytes → ℤ → ℕ → ℤ → List Leg → Option ArgumentError
unfolding check_leg at_index
check_splits op amount i sum [] =
    if eqb_ℤ sum amount
    then none
    else some
        (record { op = op; field = []; reason = codes "split amounts must sum exactly to Amount" })
check_splits op amount i sum (leg ∷ legs) = elim (check_leg op leg) [
  | some e ↦ some (at_index (codes "split") i e)
  | none ↦ check_splits op amount (i + 1) (add sum leg.amount) legs
]

unfoldable pub check_head : Bytes → Spec → Option ArgumentError
unfolding check_opt_rune_max
check_head op s = err_first (
    check_opt_rune_max op import_id_field s.import_id import_id_max
    ∷ check_opt_rune_max op payee_name_field s.payee_name payee_name_max
    ∷ check_opt_rune_max op memo_field s.memo memo_max
    ∷ [])

-- `TransactionSpec.validate`.
unfoldable pub validate_spec : Bytes → Spec → Option ArgumentError
unfolding check_head check_splits
validate_spec op s = elim (check_head op s) [
  | some e ↦ some e
  | none ↦ if is_nil s.splits then none else check_splits op s.amount 0 (pos 0) s.splits
]

-- `TransactionUpdate`, the fields that are checked.
pub record Update : Type 0 where
  pub payee_name : Optional Bytes
  pub memo : Optional Bytes

-- `TransactionUpdate.validate`.
unfoldable pub validate_update : Bytes → Update → Option ArgumentError
unfolding check_opt_rune_max
validate_update op u = err_first (
    check_opt_rune_max op payee_name_field u.payee_name payee_name_max
    ∷ check_opt_rune_max op memo_field u.memo memo_max
    ∷ [])

-- `TransactionPatch`.
pub record Patch : Type 0 where
  pub id : Bytes
  pub import_id : Bytes
  pub update : Update

-- `PatchByID`.
unfoldable pub patch_by_id : Bytes → Update → Patch
patch_by_id id u = record { id = id; import_id = []; update = u }

-- `PatchByImportID`.
unfoldable pub patch_by_import_id : Bytes → Update → Patch
patch_by_import_id import_id u = record { id = []; import_id = import_id; update = u }

-- `TransactionPatch.validate`.
unfoldable pub validate_patch : Bytes → Patch → Option ArgumentError
unfolding validate_update
validate_patch op p = elim (check_rune_max op import_id_field p.import_id import_id_max) [
  | some e ↦ some e
  | none ↦ validate_update op p.update
]

-- The identity key that `TransactionPatch.MarshalJSON` adds, or its error.
unfoldable pub identity : Patch → Option (Bytes × Bytes)
identity p =
    if not (is_nil p.id)
    then some (codes "id", p.id)
    else if not (is_nil p.import_id)
    then some (codes "import_id", p.import_id)
    else none

-- The checks of `CreateBatch`, from spec i on.
unfoldable pub check_specs : ℕ → List Spec → Option ArgumentError
unfolding validate_spec
check_specs i [] = none
check_specs i (s ∷ specs) = elim (validate_spec (codes "Transactions.CreateBatch") s) [
  | some e ↦ some (at_index (codes "spec") i e)
  | none ↦ check_specs (i + 1) specs
]

-- The checks of `UpdateBatch`, from patch i on.
unfoldable pub check_patches : ℕ → List Patch → Option ArgumentError
unfolding validate_patch
check_patches i [] = none
check_patches i (p ∷ patches) =
    let rest = check_patches (i + 1) patches in
    if is_nil p.id && is_nil p.import_id
    then some (record {
      op = codes "Transactions.UpdateBatch";
      field = codes "id";
      reason =
          codes "patch "
          ++ (format_uint i
              ++ (codes " has an empty identity "
                  ++ (226 ∷ 128 ∷ 148 ∷ codes " use PatchByID or PatchByImportID")));
    })
    else (elim (validate_patch (codes "Transactions.UpdateBatch") p) [
      | some e ↦ some (at_index (codes "patch") i e)
      | none ↦ rest
    ])

-- `TransactionFilter`.
pub record Filter : Type 0 where
  pub since_date : Day
  pub until_date : Day
  pub kind : Bytes
  pub since : ServerKnowledge

abbrev pub set_if : Bool → Bytes → Bytes → Values → Values
set_if true k v q = set k v q
set_if false k v q = q

-- `TransactionFilter.encode`.
unfoldable pub encode_filter : Filter → Values
encode_filter f =
    set_if (not (eqb_ℤ f.since (pos 0))) (codes "last_knowledge_of_server") (format_int f.since) (
      set_if (not (is_nil f.kind)) (codes "type") f.kind (
        set_if (not (is_zero_day f.until_date)) (codes "until_date") (day_string f.until_date) (
          set_if (not (is_zero_day f.since_date)) (codes "since_date") (day_string f.since_date)
            [])))
