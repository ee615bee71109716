-- ===== src/Contract/Schema/Scan.antt =====
-- internal/contract/schema.go: the loop of ScanSchemas over the component schemas, before its sorts,
-- and the lookups in what it found.
use ynab_go.Base.{
  ℕ, suc, ◌<◌, ◌≢◌, refl, Bool, ◌&&◌, Option, none, some, List, [], ◌∷◌, ◌++◌, All, arith, Bytes,
  bytes_eq, is_nil, if◌then◌else◌,
}
use ynab_go.Contract.Schema.{
  SchemaRef, Schema, Bound, Enum, PropEnum, Schemas, Step, walked, enum_error, out_of_fuel,
  Declared, no_enum, refused_enum, declared, collect_props, enum_of,
}
use ynab_go.Contract.Schema.Termination.{IsPointer, collect_props_total}

-- The results of the scan; `no_schemas` is the error on a document without component schemas.
pub data Scan : Type 0 where
  scanned : Schemas → Scan
  refused_scan : Bytes → Bytes → Scan
  no_schemas : Scan
  cut_off : Scan

-- `append(out.Enums, e)` where `enumOf` found one.
unfoldable pub add_declared : Bytes → Declared → Schemas → Scan
add_declared name no_enum out = scanned out
add_declared name (refused_enum v) out = refused_scan name v
add_declared name (declared e) out = scanned (record out { enums = out.enums ++ (e ∷ []) })

module _ (heap : ℕ → Schema) (fuel : ℕ) where
  -- One component schema.
  unfoldable pub scan_one : Bytes → SchemaRef → Schemas → Scan
  unfolding add_declared
  scan_one name r out = elim r.value [
    | none ↦ scanned out
    | some p ↦ elim (collect_props heap name fuel (some p) (record { seen = []; out = out })) [
      | walked w ↦ add_declared name (enum_of name (heap p)) w.out
      | enum_error owner prop v ↦ refused_scan (owner ++ (b'.' ∷ prop)) v
      | out_of_fuel ↦ cut_off
    ]
  ]

  unfoldable pub scan_from : Scan → List (Bytes × SchemaRef) → Scan
  unfolding scan_one
  scan_from (scanned out) [] = scanned out
  scan_from (scanned out) ((name, r) ∷ entries) = scan_from (scan_one name r out) entries
  scan_from (refused_scan where_found v) entries = refused_scan where_found v
  scan_from no_schemas entries = no_schemas
  scan_from cut_off entries = cut_off

  -- `ScanSchemas` on a loaded document's components.
  unfoldable pub scan_schemas : List (Bytes × SchemaRef) → Scan
  unfolding scan_from
  scan_schemas entries =
      if is_nil entries
      then no_schemas
      else scan_from (scanned (record { bounds = []; enums = []; prop_enums = [] })) entries

module _ (heap : ℕ → Schema) (n : ℕ)
    (known : (p : ℕ) → p < n → All (λ r. IsPointer n r.value) (heap p).all_of) where
  add_declared_total :
      (name : Bytes) (d : Declared) (out : Schemas) → add_declared name d out ≢ cut_off
  unfolding add_declared
  add_declared_total name no_enum out = ground arith
  add_declared_total name (refused_enum v) out = ground arith
  add_declared_total name (declared e) out = ground arith

  scan_one_total :
      (name : Bytes) (r : SchemaRef) (out : Schemas)
      → IsPointer n r.value
      → scan_one heap (suc n) name r out ≢ cut_off
  unfolding scan_one
  scan_one_total name r out ok = go r.value ok
    where
      step :
          (p : ℕ) (st : Step)
          → st ≢ out_of_fuel
          → (elim st as (λ _. Scan) [
            | walked w ↦ add_declared name (enum_of name (heap p)) w.out
            | enum_error owner prop v ↦ refused_scan (owner ++ (b'.' ∷ prop)) v
            | out_of_fuel ↦ cut_off
          ])
            ≢ cut_off
      step p (walked w) live = add_declared_total name (enum_of name (heap p)) w.out
      step p (enum_error owner prop v) live = ground arith
      step p out_of_fuel live = absurd (live refl)

      go :
          (s : Option ℕ)
          → IsPointer n s
          → (elim s as (λ _. Scan) [
            | none ↦ scanned out
            | some p ↦
                elim (collect_props heap name (suc n) (some p) (record { seen = []; out = out }))
                  as (λ _. Scan) [
                    | walked w ↦ add_declared name (enum_of name (heap p)) w.out
                    | enum_error owner prop v ↦ refused_scan (owner ++ (b'.' ∷ prop)) v
                    | out_of_fuel ↦ cut_off
                  ]
          ])
            ≢ cut_off
      go none ok' = ground arith
      go (some p) ok' =
          step p (collect_props heap name (suc n) (some p) (record { seen = []; out = out }))
            (collect_props_total heap name n known (some p) out ok')

  scan_from_total :
      (start : Scan) (entries : List (Bytes × SchemaRef))
      → start ≢ cut_off
      → All (λ e. IsPointer n e.1.value) entries
      → scan_from heap (suc n) start entries ≢ cut_off
  unfolding scan_from
  scan_from_total (scanned out) [] live ok = live
  scan_from_total (scanned out) ((name, r) ∷ entries) live ok =
      scan_from_total (scan_one heap (suc n) name r out) entries (scan_one_total name r out ok.0)
        ok.1
  scan_from_total (refused_scan where_found v) entries live ok = live
  scan_from_total no_schemas entries live ok = live
  scan_from_total cut_off entries live ok = live

  -- On n schemas whose branches point to these schemas or to nothing, and components that do: with
  -- n + 1 nested calls for each walk, the scan of the components ends, in a result or in one of the
  -- source's errors, whatever cycles allOf forms.
  pub scan_schemas_total :
      (entries : List (Bytes × SchemaRef))
      → All (λ e. IsPointer n e.1.value) entries
      → scan_schemas heap (suc n) entries ≢ cut_off
  unfolding scan_schemas
  scan_schemas_total [] ok = ground arith
  scan_schemas_total (e ∷ entries) ok =
      scan_from_total (scanned (record { bounds = []; enums = []; prop_enums = [] })) (e ∷ entries)
        (ground arith) ok

-- `BoundFor`.
unfoldable pub bound_for : Bytes → Bytes → List Bound → Option ℕ
bound_for schema property [] = none
bound_for schema property (b ∷ bounds) =
    let rest = bound_for schema property bounds in
    if bytes_eq b.schema schema && bytes_eq b.property property then some b.max_length else rest

-- `EnumFor`.
unfoldable pub enum_for : Bytes → List Enum → Option (List Bytes)
enum_for schema [] = none
enum_for schema (e ∷ enums) =
    let rest = enum_for schema enums in if bytes_eq e.schema schema then some e.values else rest

-- `NullableEnum`.
unfoldable pub nullable_enum : Bytes → List Enum → Option Bool
nullable_enum schema [] = none
nullable_enum schema (e ∷ enums) =
    let rest = nullable_enum schema enums in
    if bytes_eq e.schema schema then some e.has_null else rest

-- `PropEnumFor`.
unfoldable pub prop_enum_for : Bytes → Bytes → List PropEnum → Option (List Bytes)
prop_enum_for schema property [] = none
prop_enum_for schema property (e ∷ enums) =
    let rest = prop_enum_for schema property enums in
    if bytes_eq e.schema schema && bytes_eq e.property property then some e.values else rest

-- `NullablePropEnum`.
unfoldable pub nullable_prop_enum : Bytes → Bytes → List PropEnum → Option Bool
nullable_prop_enum schema property [] = none
nullable_prop_enum schema property (e ∷ enums) =
    let rest = nullable_prop_enum schema property enums in
    if bytes_eq e.schema schema && bytes_eq e.property property then some e.has_null else rest
