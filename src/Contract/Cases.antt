-- ===== src/Contract/Cases.antt =====
-- internal/contract: reads.go and writes.go. The registered read and write cases against the
-- operations of the table.
pub mod Tally
pub mod Complete
mod Tests
use ynab_go.Base.{
  ℕ, zero, suc, ◌+◌, Bool, true, false, not, ◌&&◌, Option, none, some, List, [], ◌∷◌, ◌++◌, Bytes,
  codes, bytes_eq, ◌==◌, if◌then◌else◌,
}
use ynab_go.Std.Maps.{Map, lookup, insert}
use ynab_go.Contract.{
  Row, row_id, index, is_bodiless, Problem, no_read_case, no_write_case, wrong_create_bodies,
  bodiless_has_body, no_body_case,
}

-- The value of a map[string]int at a key, 0 where there is none.
unfoldable pub count_at : Map ℕ → Bytes → ℕ
unfolding lookup
count_at m k = elim (lookup k m) [ none ↦ 0 | some n ↦ n ]

-- A loop of `m[id]++`.
unfoldable pub tally : Map ℕ → List Bytes → Map ℕ
unfolding count_at
tally m [] = m
tally m (id ∷ ids) = tally (insert id (count_at m id + 1) m) ids

-- The loop of `DiffReadCoverage` over the ids.
unfoldable pub check_reads : Map Row → Map ℕ → List Bytes → List Problem
unfolding count_at
check_reads rows count [] = []
check_reads rows count (id ∷ ids) =
    let rest = check_reads rows count ids in
    (elim (lookup id rows) [
      | none ↦ rest
      | some row ↦
          if not (bytes_eq row.method (codes "GET"))
          then rest
          else if count_at count id == 0
          then no_read_case id ∷ rest
          else rest
    ])

-- `DiffReadCoverage`; a `ReadCaseInfo` is its operation id.
unfoldable pub diff_read_coverage : List Row → List Bytes → List Bytes → List Problem
unfolding check_reads tally
diff_read_coverage table ids cases = check_reads (index row_id [] table) (tally [] cases) ids

-- `WriteCaseInfo`.
pub record WriteCase : Type 0 where
  pub op_id : Bytes
  pub has_body : Bool

abbrev pub case_ids : List WriteCase → List Bytes
case_ids [] = []
case_ids (c ∷ cases) = c.op_id ∷ case_ids cases

-- The ids of the cases that the loop counts in `bodies`.
abbrev pub body_ids : List WriteCase → List Bytes
body_ids [] = []
body_ids (c ∷ cases) = let rest = body_ids cases in if c.has_body then c.op_id ∷ rest else rest

-- The switch of `DiffWriteCoverage`.
unfoldable pub check_bodies : Bytes → ℕ → List Problem
unfolding is_bodiless
check_bodies id bodies =
    if bytes_eq id (codes "createTransaction")
    then (if bodies == 2 then [] else wrong_create_bodies bodies ∷ [])
    else if is_bodiless id
    then (if bodies == 0 then [] else bodiless_has_body id ∷ [])
    else if bodies == 0
    then no_body_case id ∷ []
    else []

-- The loop of `DiffWriteCoverage` over the ids.
unfoldable pub check_writes : Map Row → Map ℕ → Map ℕ → List Bytes → List Problem
unfolding count_at check_bodies
check_writes rows total bodies [] = []
check_writes rows total bodies (id ∷ ids) =
    let rest = check_writes rows total bodies ids in
    (elim (lookup id rows) [
      | none ↦ rest
      | some row ↦
          if bytes_eq row.method (codes "GET")
          then rest
          else if count_at total id == 0
          then no_write_case id ∷ rest
          else check_bodies id (count_at bodies id) ++ rest
    ])

-- `DiffWriteCoverage`.
unfoldable pub diff_write_coverage : List Row → List Bytes → List WriteCase → List Problem
unfolding check_writes tally
diff_write_coverage table ids cases =
    check_writes (index row_id [] table) (tally [] (case_ids cases)) (tally [] (body_ids cases)) ids
