-- ===== src/Contract.antt =====
-- internal/contract: diff.go, reads.go and writes.go. The coverage table against the operations of
-- the scanned specification, and the registered cases against the table. A problem is a constructor
-- in place of its formatted text.
pub mod Table
pub mod Pattern
pub mod Rows
pub mod Cases
pub mod Json
pub mod Schema
pub mod SpecScan
pub mod DocLines
pub mod Params
pub mod Index
pub mod Soundness
mod Tests
use ynab_go.Base.{
  ℕ, suc, ◌+◌, Bool, true, false, not, ◌&&◌, ◌||◌, Option, none, some, List, [], ◌∷◌, ◌++◌, Bytes,
  codes, bytes_eq, ◌==◌, if◌then◌else◌,
}
use ynab_go.Std.Maps.{Map, lookup, insert}

-- `Operation`.
pub record Row : Type 0 where
  pub id : Bytes
  pub method : Bytes
  pub path : Bytes
  pub query_params : List Bytes
  pub go_methods : List Bytes

-- `SpecOp`, the fields that are compared.
pub record SpecOp : Type 0 where
  pub id : Bytes
  pub method : Bytes
  pub path : Bytes
  pub query_params : List Bytes
  pub has_body : Bool

pub data Problem : Type 0 where
  table_duplicate : Bytes → Problem
  spec_duplicate : Bytes → Problem
  phantom : Bytes → Problem
  verb : Bytes → Bytes → Bytes → Problem
  path_differs : Bytes → Bytes → Bytes → Problem
  body_presence : Bytes → Bool → Problem
  illegal_param : Bytes → Bytes → Problem
  missing_param : Bytes → Bytes → Problem
  unimplemented : Bytes → Problem
  no_read_case : Bytes → Problem
  no_write_case : Bytes → Problem
  wrong_create_bodies : ℕ → Problem
  bodiless_has_body : Bytes → Problem
  no_body_case : Bytes → Problem
  unknown_doc : Bytes → List Bytes → Problem
  foreign_method : Bytes → Bytes → Problem
  no_row : Bytes → Problem
  no_doc_line : Bytes → Problem
  undocumented : Bytes → Bytes → Problem

-- slices.Contains.
unfoldable pub contains : List Bytes → Bytes → Bool
contains [] p = false
contains (q ∷ qs) p = bytes_eq p q || contains qs p

-- One direction of `diffParams`.
unfoldable pub params_not_in : (Bytes → Problem) → List Bytes → List Bytes → List Problem
unfolding contains
params_not_in report [] others = []
params_not_in report (p ∷ ps) others =
    let rest = params_not_in report ps others in if contains others p then rest else report p ∷ rest

-- `diffParams`.
unfoldable pub diff_params : Bytes → List Bytes → List Bytes → List Problem
unfolding params_not_in
diff_params id table spec =
    params_not_in (illegal_param id) table spec ++ params_not_in (missing_param id) spec table

-- `isBodiless`.
unfoldable pub is_bodiless : Bytes → Bool
is_bodiless id =
    bytes_eq id (codes "deleteTransaction")
    || (bytes_eq id (codes "deleteScheduledTransaction")
        || bytes_eq id (codes "importTransactions"))

module _ {V : Type 0} (key : V → Bytes) (report : Bytes → Problem) where
  -- The problems of a loop that fills byIDTable or byIDSpec, from the map so far.
  unfoldable pub duplicates : Map V → List V → List Problem
  duplicates m [] = []
  duplicates m (x ∷ xs) =
      let rest = duplicates (insert (key x) x m) xs in
      (elim (lookup (key x) m) [ none ↦ rest | some y ↦ report (key x) ∷ rest ])

module _ {V : Type 0} (key : V → Bytes) where
  -- The map that such a loop fills.
  unfoldable pub index : Map V → List V → Map V
  index m [] = m
  index m (x ∷ xs) = index (insert (key x) x m) xs

abbrev pub row_id : Row → Bytes
row_id r = r.id

abbrev pub op_id : SpecOp → Bytes
op_id o = o.id

-- The comparison of one row with its operation.
unfoldable pub diff_row : Row → SpecOp → List Problem
diff_row r o =
    (if bytes_eq r.method o.method then [] else verb r.id r.method o.method ∷ [])
    ++ ((if bytes_eq r.path o.path then [] else path_differs r.id r.path o.path ∷ [])
        ++ ((if not (bytes_eq r.method (codes "GET"))
                && (if o.has_body then is_bodiless r.id else not (is_bodiless r.id))
              then body_presence r.id o.has_body ∷ []
              else [])
            ++ diff_params r.id r.query_params o.query_params))

unfoldable pub diff_rows : Map SpecOp → List Row → List Problem
diff_rows m [] = []
diff_rows m (r ∷ rows) =
    let rest = diff_rows m rows in
    (elim (lookup r.id m) [ none ↦ phantom r.id ∷ rest | some o ↦ diff_row r o ++ rest ])

unfoldable pub diff_unimplemented : Map Row → List SpecOp → List Problem
diff_unimplemented m [] = []
diff_unimplemented m (o ∷ ops) =
    let rest = diff_unimplemented m ops in
    (elim (lookup o.id m) [ none ↦ unimplemented o.id ∷ rest | some r ↦ rest ])

-- `DiffSpec`.
unfoldable pub diff_spec : List Row → List SpecOp → List Problem
unfolding duplicates index diff_rows diff_unimplemented
diff_spec table spec =
    duplicates row_id table_duplicate [] table
    ++ (duplicates op_id spec_duplicate [] spec
        ++ (diff_rows (index op_id [] spec) table
            ++ diff_unimplemented (index row_id [] table) spec))
