-- ===== src/Contract/Schema/Tests.antt =====
-- The walk over three schemas, two of which compose each other.
use ynab_go.Base.{
  ℕ, ◌<◌, ◌≡◌, ◌≢◌, ◌↔◌, refl, true, none, some, List, [], ◌∷◌, All, arith, Bytes, codes, ◌==◌,
  if◌then◌else◌,
}
use ynab_go.Contract.Schema.{
  SchemaRef, Schema, Schemas, Walk, walked, is_seen, add_bound, add_enum, add_props, over_branches,
  collect_props,
}
use ynab_go.Contract.Schema.Termination.{IsPointer}
use ynab_go.Contract.Schema.Reach.{Reaches, collect_props-Reaches}
use ynab_go.Contract.Schema.Scan.{scan_schemas, cut_off, scan_schemas_total}

abbrev to_schema : ℕ → SchemaRef
to_schema p = record { ref = []; value = some p }

-- A text of at most 200 runes.
abbrev text : Schema
text = record { max_length = some 200; enum = []; properties = []; all_of = [] }

abbrev base : Schema
base = record {
  max_length = none;
  enum = [];
  properties = (codes "memo", to_schema 2) ∷ [];
  all_of = to_schema 1 ∷ [];
}

abbrev detail : Schema
detail = record { max_length = none; enum = []; properties = []; all_of = to_schema 0 ∷ [] }

abbrev heap : ℕ → Schema
heap p = if p == 0 then base else if p == 1 then detail else text

heap_known : (p : ℕ) → p < 3 → All (λ r. IsPointer 3 r.value) (heap p).all_of
heap_known p h = ground arith

abbrev components : List (Bytes × SchemaRef)
components = (codes "Base", to_schema 0) ∷ (codes "Detail", to_schema 1) ∷ []

scan_schemas_total_example : scan_schemas heap 4 components ≢ cut_off
scan_schemas_total_example =
    scan_schemas_total heap 3 heap_known components (omega arith, (omega arith, tt))

abbrev nothing : Schemas
nothing = record { bounds = []; enums = []; prop_enums = [] }

abbrev ended : Walk
ended = record {
  seen = 0 ∷ 1 ∷ [];
  out = record {
    bounds = record { schema = codes "Detail"; property = codes "memo"; max_length = 200 } ∷ [];
    enums = [];
    prop_enums = [];
  };
}

detail_walked :
    collect_props heap (codes "Detail") 4 (some 1) (record { seen = []; out = nothing })
    ≡ walked ended
unfolding collect_props is_seen add_props add_bound add_enum over_branches
detail_walked = refl

collect_props-Reaches_example : (is_seen ended.seen 0 ≡ true) ↔ Reaches heap 1 0
collect_props-Reaches_example =
    collect_props-Reaches heap (codes "Detail") 1 4 nothing ended 0 detail_walked
