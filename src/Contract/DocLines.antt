-- ===== src/Contract/DocLines.antt =====
-- internal/contract/doclines.go: the doc lines of the root package against the table. Go visits the
-- map of found ids in any order; here it is the order of the association list.
use ynab_go.Base.{
  ◌≡◌, ◌↔◌, refl, subst, false, Bool-cases, inl, inr, none, some, List, [], ◌∷◌, ◌++◌, map, All,
  arith, Bytes, is_nil, if◌then◌else◌,
}
use ynab_go.Std.Maps.{Map, lookup}
use ynab_go.Contract.{
  Row, row_id, index, params_not_in, Problem, unknown_doc, foreign_method, no_row, no_doc_line,
  undocumented,
}
use ynab_go.Contract.Params.{IsWithinOf, not_in_iff, append_nil_iff}
use ynab_go.Contract.Index.{IsDistinct}
use ynab_go.Contract.Cases.Complete.{IsRowOf, row_cases}

-- The first loop of `ValidateDocLines`.
unfoldable pub check_found : Map Row → List (Bytes × List Bytes) → List Problem
unfolding params_not_in
check_found rows [] = []
check_found rows ((id, methods) ∷ found) =
    let rest = check_found rows found in
    (elim (lookup id rows) [
      | none ↦ unknown_doc id methods ∷ rest
      | some row ↦ params_not_in (foreign_method id) methods row.go_methods ++ rest
    ])

-- `found[id]`.
unfoldable pub found_at : Map (List Bytes) → Bytes → List Bytes
found_at found id = elim (lookup id found) [ none ↦ [] | some methods ↦ methods ]

-- The second loop.
unfoldable pub check_ids : Map Row → Map (List Bytes) → List Bytes → List Problem
unfolding found_at params_not_in
check_ids rows found [] = []
check_ids rows found (id ∷ ids) =
    let rest = check_ids rows found ids in
    (elim (lookup id rows) [
      | none ↦ no_row id ∷ rest
      | some row ↦
          if is_nil (found_at found id)
          then no_doc_line id ∷ rest
          else params_not_in (undocumented id) row.go_methods (found_at found id) ++ rest
    ])

-- `ValidateDocLines`.
unfoldable pub validate_doc_lines : List Row → List Bytes → Map (List Bytes) → List Problem
unfolding check_found check_ids
validate_doc_lines table ids found =
    check_found (index row_id [] table) found ++ check_ids (index row_id [] table) found ids

-- The line's id is a row, and its methods are the row's.
abbrev pub IsKnownLine : List Row → Bytes × List Bytes → Type 0
IsKnownLine table line = (row : Row) × (IsRowOf table line.0 row × IsWithinOf row.go_methods line.1)

-- The id is a row, and every method of the row has a line; at least one has.
abbrev pub IsDocumented : List Row → Map (List Bytes) → Bytes → Type 0
IsDocumented table found id =
    (row : Row) × (IsRowOf table id row
      × ((is_nil (found_at found id) ≡ false) × IsWithinOf (found_at found id) row.go_methods))

check_found_iff :
    (table : List Row) (found : List (Bytes × List Bytes))
    → IsDistinct (map row_id table)
    → (check_found (index row_id [] table) found ≡ []) ↔ All (IsKnownLine table) found
unfolding check_found
check_found_iff table [] d = (λ h. tt, λ h. refl)
check_found_iff table ((id, methods) ∷ found) d =
    let rest = check_found_iff table found d in
    elim (row_cases table id d) [
      | inl (free, no_such) ↦
          (λ h. absurd (ground (arith, free, h)), λ h. absurd (no_such (h.0.0, h.0.1.0)))
      | inr (row, (hit, (here, only))) ↦
          let within = not_in_iff (foreign_method id) methods row.go_methods in
          let both =
            append_nil_iff (params_not_in (foreign_method id) methods row.go_methods)
              (check_found (index row_id [] table) found) in
          (
            λ h.
                let p = both.0 (ground (arith, hit, h)) in
                ((row, (here, within.0 p.0)), rest.0 p.1),
            λ h.
                let fits =
                  subst (λ r. IsWithinOf r.go_methods methods) (only h.0.0 h.0.1.0) h.0.1.1 in
                let p = both.1 (within.1 fits, rest.1 h.1) in ground (arith, hit, p),
          )
    ]

check_ids_iff :
    (table : List Row) (ids : List Bytes) (found : Map (List Bytes))
    → IsDistinct (map row_id table)
    → (check_ids (index row_id [] table) found ids ≡ []) ↔ All (IsDocumented table found) ids
unfolding check_ids
check_ids_iff table [] found d = (λ h. tt, λ h. refl)
check_ids_iff table (id ∷ ids) found d =
    let rest = check_ids_iff table ids found d in
    elim (row_cases table id d) [
      | inl (free, no_such) ↦
          (λ h. absurd (ground (arith, free, h)), λ h. absurd (no_such (h.0.0, h.0.1.0)))
      | inr (row, (hit, (here, only))) ↦ elim (Bool-cases (is_nil (found_at found id))) [
        | inl none_found ↦ (
          λ h. absurd (ground (arith, hit, none_found, h)),
          λ h. let full = h.0.1.1.0 in absurd (ground (arith, full, none_found)),
        )
        | inr some_found ↦
            let within = not_in_iff (undocumented id) row.go_methods (found_at found id) in
            let both =
              append_nil_iff (params_not_in (undocumented id) row.go_methods (found_at found id))
                (check_ids (index row_id [] table) found ids) in
            (
              λ h.
                  let p = both.0 (ground (arith, hit, some_found, h)) in
                  ((row, (here, (some_found, within.0 p.0))), rest.0 p.1),
              λ h.
                  let fits =
                    subst (λ r. IsWithinOf (found_at found id) r.go_methods) (only h.0.0 h.0.1.0)
                      h.0.1.1.1 in
                  let p = both.1 (within.1 fits, rest.1 h.1) in ground (arith, hit, some_found, p),
            )
      ]
    ]

-- For a table with distinct ids: the check of the doc lines finds no problem exactly if every found
-- id is a row that lists the methods found under it, and every given id is a row with a method
-- found, and with every listed method found.
pub validate_doc_lines_iff :
    (table : List Row) (ids : List Bytes) (found : Map (List Bytes))
    → IsDistinct (map row_id table)
    → (validate_doc_lines table ids found ≡ [])
      ↔ (All (IsKnownLine table) found × All (IsDocumented table found) ids)
unfolding validate_doc_lines
validate_doc_lines_iff table ids found d =
    let both =
      append_nil_iff (check_found (index row_id [] table) found)
        (check_ids (index row_id [] table) found ids) in
    let a = check_found_iff table found d in
    let b = check_ids_iff table ids found d in
    (λ h. (a.0 (both.0 h).0, b.0 (both.0 h).1), λ h. both.1 (a.1 h.0, b.1 h.1))
