-- ===== src/Contract/Cases/Tests.antt =====
-- The checks of the registries at the coverage table itself.
use ynab_go.Base.{◌≡◌, ◌↔◌, refl, true, List, [], ◌∷◌, map, All, Bytes, codes, bytes_eq}
use ynab_go.Std.Maps.{Map, lookup, insert}
use ynab_go.Contract.{row_id, duplicates, table_duplicate}
use ynab_go.Contract.Index.{IsDistinct, duplicates-IsDistinct}
use ynab_go.Contract.Table.{table}
use ynab_go.Contract.Cases.{WriteCase, diff_write_coverage}
use ynab_go.Contract.Cases.Complete.{IsWriteCovered, diff_write_coverage_iff}
use ynab_go.Contract.DocLines.{
  validate_doc_lines, IsKnownLine, IsDocumented, validate_doc_lines_iff,
}

table-duplicates : duplicates row_id table_duplicate [] table ≡ []
unfolding duplicates lookup insert bytes_eq
table-duplicates = refl

table-IsDistinct : IsDistinct (map row_id table)
table-IsDistinct = (duplicates-IsDistinct row_id table_duplicate table).0 table-duplicates

abbrev ids : List Bytes
ids = codes "getUser" ∷ codes "createTransaction" ∷ []

abbrev single : WriteCase
single = record { op_id = codes "createTransaction"; has_body = true }

abbrev lines : Map (List Bytes)
lines = (codes "getUser", codes "Client.User" ∷ []) ∷ []

diff_write_coverage_iff_example :
    (diff_write_coverage table ids (single ∷ single ∷ []) ≡ [])
    ↔ All (IsWriteCovered table (single ∷ single ∷ [])) ids
diff_write_coverage_iff_example =
    diff_write_coverage_iff table ids (single ∷ single ∷ []) table-IsDistinct

validate_doc_lines_iff_example :
    (validate_doc_lines table (codes "getUser" ∷ []) lines ≡ [])
    ↔ (All (IsKnownLine table) lines × All (IsDocumented table lines) (codes "getUser" ∷ []))
validate_doc_lines_iff_example =
    validate_doc_lines_iff table (codes "getUser" ∷ []) lines table-IsDistinct
