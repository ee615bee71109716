-- ===== src/Contract/Cases/Complete.antt =====
-- DiffReadCoverage and DiffWriteCoverage answer nothing exactly for complete registries.
use ynab_go.Base.{
  ℕ, ◌≡◌, ◌≢◌, ◌↔◌, ◌⊎◌, inl, inr, refl, ◌∙◌, ap, subst, true, false, Bool-cases, Option-cases,
  none, some, List, [], ◌∷◌, map, All, arith, Bytes, codes, bytes_eq, bytes_eq_iff,
}
use ynab_go.Std.Maps.{lookup}
use ynab_go.Contract.{Row, row_id, index, is_bodiless}
use ynab_go.Contract.Params.{IsIn, append_nil_iff}
use ynab_go.Contract.Index.{IsDistinct, IsElement, index_iff}
use ynab_go.Contract.Cases.{
  tally, check_reads, diff_read_coverage, WriteCase, case_ids, body_ids, check_bodies, check_writes,
  diff_write_coverage,
}
use ynab_go.Contract.Cases.Tally.{occurrences, tally-count, occurrences_cases}

-- A row of the table with that id.
abbrev pub IsRowOf : List Row → Bytes → Row → Type 0
IsRowOf table id row = IsElement row table × (row.id ≡ id)

-- The operation is a row of the table, and a GET.
abbrev pub IsReadIn : List Row → Bytes → Type 0
IsReadIn table id = (row : Row) × (IsRowOf table id row × (row.method ≡ codes "GET"))

-- The operation is a row of the table, and no GET.
abbrev pub IsWriteIn : List Row → Bytes → Type 0
IsWriteIn table id = (row : Row) × (IsRowOf table id row × (row.method ≢ codes "GET"))

abbrev pub IsReadCovered : List Row → List Bytes → Bytes → Type 0
IsReadCovered table cases id = (¬ IsReadIn table id) ⊎ IsIn id cases

-- Two bodies for createTransaction, none for a bodiless operation, and some for every other.
abbrev pub IsBodyCount : Bytes → ℕ → Type 0
IsBodyCount id n =
    ((id ≡ codes "createTransaction") × (n ≡ 2))
    ⊎ ((id ≢ codes "createTransaction")
        × (((is_bodiless id ≡ true) × (n ≡ 0)) ⊎ ((is_bodiless id ≡ false) × (n ≢ 0))))

abbrev pub IsWriteCovered : List Row → List WriteCase → Bytes → Type 0
IsWriteCovered table cases id =
    (¬ IsWriteIn table id)
    ⊎ (IsIn id (case_ids cases) × IsBodyCount id (occurrences id (body_ids cases)))

-- What an entry of byID says of the table.
pub row_cases :
    (table : List Row) (id : Bytes)
    → IsDistinct (map row_id table)
    → ((lookup id (index row_id [] table) ≡ none) × (¬ ((row : Row) × IsRowOf table id row)))
      ⊎ ((row : Row) × ((lookup id (index row_id [] table) ≡ some row)
            × (IsRowOf table id row × ((r : Row) → IsRowOf table id r → r ≡ row))))
row_cases table id d = elim (Option-cases (lookup id (index row_id [] table))) [
  | inl free ↦ inl (
    free,
    λ h. let e = (index_iff row_id id h.0 table d).1 h.1 in absurd (ground (arith, e, free)),
  )
  | inr (row, found) ↦ inr (
    row,
    (
      found,
      (
        (index_iff row_id id row table d).0 found,
        λ r. λ h. let e = (index_iff row_id id r table d).1 h in ground (arith, e, found),
      ),
    ),
  )
]

check_reads_iff :
    (table : List Row) (ids cases : List Bytes)
    → IsDistinct (map row_id table)
    → (check_reads (index row_id [] table) (tally [] cases) ids ≡ [])
      ↔ All (IsReadCovered table cases) ids
unfolding check_reads
check_reads_iff table [] cases d = (λ h. tt, λ h. refl)
check_reads_iff table (id ∷ ids) cases d =
    let rest = check_reads_iff table ids cases d in
    let counted = tally-count id cases in
    elim (row_cases table id d) [
      | inl (free, no_such) ↦ (
        λ h. (inl (λ r. no_such (r.0, r.1.0)), rest.0 (ground (arith, free, h))),
        λ h. let r = rest.1 h.1 in ground (arith, free, r),
      )
      | inr (row, (found, (here, only))) ↦
          let gets = bytes_eq_iff row.method (codes "GET") in
          elim (Bool-cases (bytes_eq row.method (codes "GET"))) [
            | inl get ↦ elim (occurrences_cases id cases) [
              | inl (zero_yet, missing) ↦ (
                λ h. absurd (ground (arith, found, get, counted, zero_yet, h)),
                λ h. absurd (elim h.0 [
                  | inl no_read ↦ no_read (row, (here, gets.0 get))
                  | inr there ↦ missing there
                ]),
              )
              | inr (some_yet, there) ↦ (
                λ h. (inr there, rest.0 (ground (arith, found, get, counted, some_yet, h))),
                λ h. let r = rest.1 h.1 in ground (arith, found, get, counted, some_yet, r),
              )
            ]
            | inr other ↦ (
              λ h. (
                inl (λ r.
                    let e = only r.0 r.1.0 in
                    let m = gets.1 (subst (λ x. x.method ≡ codes "GET") e r.1.1) in
                    absurd (ground (arith, m, other))),
                rest.0 (ground (arith, found, other, h)),
              ),
              λ h. let r = rest.1 h.1 in ground (arith, found, other, r),
            )
          ]
    ]

-- For a table with distinct ids, the check of the read cases finds no problem exactly if each given
-- id is no GET of the table, or has a case.
pub diff_read_coverage_iff :
    (table : List Row) (ids cases : List Bytes)
    → IsDistinct (map row_id table)
    → (diff_read_coverage table ids cases ≡ []) ↔ All (IsReadCovered table cases) ids
unfolding diff_read_coverage
diff_read_coverage_iff table ids cases d = check_reads_iff table ids cases d

check_bodies_iff : (id : Bytes) (n : ℕ) → (check_bodies id n ≡ []) ↔ IsBodyCount id n
unfolding check_bodies
check_bodies_iff id n =
    let create = bytes_eq_iff id (codes "createTransaction") in
    (λ h. ground (arith, h, create), λ h. ground (arith, h, create))

check_writes_iff :
    (table : List Row) (ids : List Bytes) (cases : List WriteCase)
    → IsDistinct (map row_id table)
    → (check_writes
          (index row_id [] table)
          (tally [] (case_ids cases))
          (tally [] (body_ids cases))
          ids
        ≡ [])
      ↔ All (IsWriteCovered table cases) ids
unfolding check_writes
check_writes_iff table [] cases d = (λ h. tt, λ h. refl)
check_writes_iff table (id ∷ ids) cases d =
    let rest = check_writes_iff table ids cases d in
    let total = tally-count id (case_ids cases) in
    let bodies = tally-count id (body_ids cases) in
    elim (row_cases table id d) [
      | inl (free, no_such) ↦ (
        λ h. (inl (λ r. no_such (r.0, r.1.0)), rest.0 (ground (arith, free, h))),
        λ h. let r = rest.1 h.1 in ground (arith, free, r),
      )
      | inr (row, (found, (here, only))) ↦
          let gets = bytes_eq_iff row.method (codes "GET") in
          elim (Bool-cases (bytes_eq row.method (codes "GET"))) [
            | inl get ↦ (
              λ h. (
                inl (λ r. r.1.1 (ap (λ x. x.method) (only r.0 r.1.0) ∙ gets.0 get)),
                rest.0 (ground (arith, found, get, h)),
              ),
              λ h. let r = rest.1 h.1 in ground (arith, found, get, r),
            )
            | inr other ↦
                let is_write : row.method ≢ codes "GET" =
                  λ e. let m = gets.1 e in absurd (ground (arith, m, other)) in
                elim (occurrences_cases id (case_ids cases)) [
                  | inl (zero_yet, missing) ↦ (
                    λ h. absurd (ground (arith, found, other, total, zero_yet, h)),
                    λ h. absurd (elim h.0 [
                      | inl no_write ↦ no_write (row, (here, is_write))
                      | inr there ↦ missing there.0
                    ]),
                  )
                  | inr (some_yet, there) ↦
                      let n = occurrences id (body_ids cases) in
                      let counted = check_bodies_iff id n in
                      let both = append_nil_iff (check_bodies id n) (
                        check_writes (index row_id [] table) (tally [] (case_ids cases))
                          (tally [] (body_ids cases)) ids) in
                      (
                        λ h.
                            let p =
                              both.0 (ground (arith, found, other, total, some_yet, bodies, h)) in
                            (inr (there, counted.0 p.0), rest.0 p.1),
                        λ h.
                            let body : IsBodyCount id n = elim h.0 [
                              | inl no_write ↦ absurd (no_write (row, (here, is_write)))
                              | inr fine ↦ fine.1
                            ] in
                            let p = both.1 (counted.1 body, rest.1 h.1) in
                            ground (arith, found, other, total, some_yet, bodies, p),
                      )
                ]
          ]
    ]

-- For a table with distinct ids, the check of the write cases finds no problem exactly if each given
-- id is no write of the table, or has a case and the number of body cases that it needs: two for
-- createTransaction, none for a bodiless operation, at least one for every other.
pub diff_write_coverage_iff :
    (table : List Row) (ids : List Bytes) (cases : List WriteCase)
    → IsDistinct (map row_id table)
    → (diff_write_coverage table ids cases ≡ []) ↔ All (IsWriteCovered table cases) ids
unfolding diff_write_coverage
diff_write_coverage_iff table ids cases d = check_writes_iff table ids cases d
