-- ===== src/Contract/Soundness.antt =====
-- DiffSpec answers nothing exactly for a table that is the specification's.
use ynab_go.Base.{
  ◌≡◌, ◌↔◌, ◌⊎◌, inl, inr, refl, not, Option-cases, some, List, [], ◌∷◌, ◌++◌, map, All, arith,
  codes, bytes_eq_iff,
}
use ynab_go.Std.Maps.{Map, lookup}
use ynab_go.Contract.{
  Row, SpecOp, row_id, op_id, table_duplicate, spec_duplicate, is_bodiless, diff_row, diff_rows,
  diff_unimplemented, diff_spec, duplicates, index,
}
use ynab_go.Contract.Params.{IsWithinOf, diff_params_iff, append_nil_iff}
use ynab_go.Contract.Index.{IsDistinct, IsElement, duplicates-IsDistinct, index_iff}

-- A row and an operation agree in verb, path, body and parameters.
abbrev pub Agrees : Row → SpecOp → Type 0
Agrees r o =
    (r.method ≡ o.method)
    × ((r.path ≡ o.path)
        × (((r.method ≡ codes "GET") ⊎ (o.has_body ≡ not (is_bodiless r.id)))
            × (IsWithinOf o.query_params r.query_params
                × IsWithinOf r.query_params o.query_params)))

diff_row_iff : (r : Row) (o : SpecOp) → (diff_row r o ≡ []) ↔ Agrees r o
unfolding diff_row
diff_row_iff r o =
    let params = diff_params_iff r.id r.query_params o.query_params in
    let verbs = bytes_eq_iff r.method o.method in
    let paths = bytes_eq_iff r.path o.path in
    let gets = bytes_eq_iff r.method (codes "GET") in
    (
      λ h. ground (arith, h, params, verbs, paths, gets),
      λ h. ground (arith, h, params, verbs, paths, gets),
    )

-- A row has its operation in the map.
abbrev IsCovered : Map SpecOp → Row → Type 0
IsCovered m r = (o : SpecOp) × ((lookup r.id m ≡ some o) × Agrees r o)

diff_rows_iff :
    (m : Map SpecOp) (rows : List Row) → (diff_rows m rows ≡ []) ↔ All (IsCovered m) rows
unfolding diff_rows
diff_rows_iff m [] = (λ h. tt, λ h. refl)
diff_rows_iff m (r ∷ rows) =
    let rest = diff_rows_iff m rows in
    elim (Option-cases (lookup r.id m)) [
      | inl missing ↦ (
        λ h. absurd (ground (arith, missing)),
        λ h. let (o, found) = h.0 in let f = found.0 in absurd (ground (arith, f, missing)),
      )
      | inr (o, found) ↦
          let both = append_nil_iff (diff_row r o) (diff_rows m rows) in
          let row = diff_row_iff r o in
          (
            λ h. let p = both.0 (ground (arith, found)) in ((o, (found, row.0 p.0)), rest.0 p.1),
            λ h.
                let (o', agreed) = h.0 in
                let same : o' ≡ o = ground (arith, agreed.0, found) in
                let p = both.1 (row.1 (rw same at agreed.1), rest.1 h.1) in
                ground (arith, found, p),
          )
    ]

abbrev IsListed : Map Row → SpecOp → Type 0
IsListed m o = (r : Row) × (lookup o.id m ≡ some r)

diff_unimplemented_iff :
    (m : Map Row) (ops : List SpecOp) → (diff_unimplemented m ops ≡ []) ↔ All (IsListed m) ops
unfolding diff_unimplemented
diff_unimplemented_iff m [] = (λ h. tt, λ h. refl)
diff_unimplemented_iff m (o ∷ ops) =
    let rest = diff_unimplemented_iff m ops in
    elim (Option-cases (lookup o.id m)) [
      | inl missing ↦ (
        λ h. absurd (ground (arith, missing)),
        λ h. let f = h.0.1 in absurd (ground (arith, f, missing)),
      )
      | inr (r, found) ↦ (
        λ h. ((r, found), rest.0 (ground (arith, found))),
        λ h. let n = rest.1 h.1 in ground (arith, found, n),
      )
    ]

-- A row stands for an operation of the specification, and an operation for a row of the table.
abbrev pub IsSpecified : List SpecOp → Row → Type 0
IsSpecified spec r = (o : SpecOp) × ((IsElement o spec × (o.id ≡ r.id)) × Agrees r o)

abbrev pub IsImplemented : List Row → SpecOp → Type 0
IsImplemented table o = (r : Row) × (IsElement r table × (r.id ≡ o.id))

All-All :
    {A : Type 0} (P Q : A → Type 0) → ((a : A) → P a ↔ Q a) → (xs : List A) → All P xs ↔ All Q xs
All-All P Q f [] = (λ h. tt, λ h. tt)
All-All P Q f (x ∷ xs) =
    let rest = All-All P Q f xs in (λ h. ((f x).0 h.0, rest.0 h.1), λ h. ((f x).1 h.0, rest.1 h.1))

IsCovered-IsSpecified :
    (spec : List SpecOp)
    → IsDistinct (map op_id spec)
    → (r : Row) → IsCovered (index op_id [] spec) r ↔ IsSpecified spec r
IsCovered-IsSpecified spec d r = (
  λ h. let (o, got) = h in (o, ((index_iff op_id r.id o spec d).0 got.0, got.1)),
  λ h. let (o, got) = h in (o, ((index_iff op_id r.id o spec d).1 got.0, got.1)),
)

IsListed-IsImplemented :
    (table : List Row)
    → IsDistinct (map row_id table)
    → (o : SpecOp) → IsListed (index row_id [] table) o ↔ IsImplemented table o
IsListed-IsImplemented table d o = (
  λ h. let (r, got) = h in (r, (index_iff row_id o.id r table d).0 got),
  λ h. let (r, got) = h in (r, (index_iff row_id o.id r table d).1 got),
)

-- DiffSpec answers no problem exactly if the ids of the table are distinct, and those of the
-- specification, every row has an operation of its id that agrees with it in verb, path, body and
-- parameters, and every operation has a row of its id.
pub diff_spec_iff :
    (table : List Row) (spec : List SpecOp)
    → (diff_spec table spec ≡ []) ↔ (
        IsDistinct (map row_id table)
        × (IsDistinct (map op_id spec)
            × (All (IsSpecified spec) table × All (IsImplemented table) spec)))
unfolding diff_spec
diff_spec_iff table spec =
    let rows = diff_rows (index op_id [] spec) table in
    let gaps = diff_unimplemented (index row_id [] table) spec in
    let twice = duplicates op_id spec_duplicate [] spec in
    let one =
      append_nil_iff (duplicates row_id table_duplicate [] table) (twice ++ (rows ++ gaps)) in
    let two = append_nil_iff twice (rows ++ gaps) in
    let three = append_nil_iff rows gaps in
    let a = duplicates-IsDistinct row_id table_duplicate table in
    let b = duplicates-IsDistinct op_id spec_duplicate spec in
    let c = diff_rows_iff (index op_id [] spec) table in
    let e = diff_unimplemented_iff (index row_id [] table) spec in
    let covered = λ (d : IsDistinct (map op_id spec)).
      All-All (IsCovered (index op_id [] spec)) (IsSpecified spec) (IsCovered-IsSpecified spec d)
        table in
    let listed = λ (d : IsDistinct (map row_id table)).
      All-All (IsListed (index row_id [] table)) (IsImplemented table)
        (IsListed-IsImplemented table d) spec in
    (
      λ h.
          let p = one.0 h in
          let q = two.0 p.1 in
          let s = three.0 q.1 in
          let da = a.0 p.0 in
          let db = b.0 q.0 in (da, (db, ((covered db).0 (c.0 s.0), (listed da).0 (e.0 s.1)))),
      λ h. one.1 (
        a.1 h.0,
        two.1 (b.1 h.1.0, three.1 (c.1 ((covered h.1.0).1 h.1.1.0), e.1 ((listed h.0).1 h.1.1.1))),
      ),
    )
