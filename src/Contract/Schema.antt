-- ===== src/Contract/Schema.antt =====
-- internal/contract/schema.go: the walk over the component schemas. The object model is the one of
-- a third-party loader: a schema is known by its pointer, and `heap` says what a pointer points to.
-- A Go map is visited in some order, here the one of the list.
pub mod Termination
pub mod Closing
pub mod Reach
pub mod Scan
mod Tests
use ynab_go.Base.{
  ℕ, zero, suc, ◌-◌, ◌^◌, Bool, true, false, ◌&&◌, ◌||◌, not, Option, none, some, List, [], ◌∷◌,
  ◌++◌, Bytes, bytes_eq, is_nil, ◌==◌, leb, if◌then◌else◌,
}
use ynab_go.Transport.{max_int64}

-- A member of an enum as the loader decodes it: nil, a string, or any other value by its print.
pub data Member : Type 0 where
  null_member : Member
  string_member : Bytes → Member
  other_member : Bytes → Member

-- `openapi3.SchemaRef`: the text of a $ref, and the pointer to the schema.
pub record SchemaRef : Type 0 where
  pub ref : Bytes
  pub value : Option ℕ

-- `openapi3.Schema`, the fields that the walk reads.
pub record Schema : Type 0 where
  pub max_length : Option ℕ
  pub enum : List Member
  pub properties : List (Bytes × SchemaRef)
  pub all_of : List SchemaRef

-- `Bound`.
pub record Bound : Type 0 where
  pub schema : Bytes
  pub property : Bytes
  pub max_length : ℕ

-- `Enum`.
pub record Enum : Type 0 where
  pub schema : Bytes
  pub values : List Bytes
  pub has_null : Bool

-- `PropEnum`.
pub record PropEnum : Type 0 where
  pub schema : Bytes
  pub property : Bytes
  pub values : List Bytes
  pub has_null : Bool

-- `Schemas`.
pub record Schemas : Type 0 where
  pub bounds : List Bound
  pub enums : List Enum
  pub prop_enums : List PropEnum

-- The members that `splitEnum` separates, or the one that it refuses.
pub data Split : Type 0 where
  refused_member : Bytes → Split
  separated : List Bytes → Bool → Split

abbrev add_value : Bytes → Split → Split
add_value s (refused_member v) = refused_member v
add_value s (separated values has_null) = separated (s ∷ values) has_null

abbrev add_null : Split → Split
add_null (refused_member v) = refused_member v
add_null (separated values has_null) = separated values true

-- `splitEnum`.
unfoldable pub split_enum : List Member → Split
split_enum [] = separated [] false
split_enum (null_member ∷ members) = add_null (split_enum members)
split_enum (string_member s ∷ members) = add_value s (split_enum members)
split_enum (other_member v ∷ members) = refused_member v

-- What a walk has found so far; `seen` is the set of visited pointers.
pub record Walk : Type 0 where
  pub seen : List ℕ
  pub out : Schemas

-- A walk goes on, stops at an enum that it refuses, or is cut off by the model's fuel.
pub data Step : Type 0 where
  walked : Walk → Step
  enum_error : Bytes → Bytes → Bytes → Step
  out_of_fuel : Step

abbrev pub and_then : Step → (Walk → Step) → Step
and_then (walked w) next = next w
and_then (enum_error name prop v) next = enum_error name prop v
and_then out_of_fuel next = out_of_fuel

-- `seen[s]`.
unfoldable pub is_seen : List ℕ → ℕ → Bool
is_seen [] p = false
is_seen (q ∷ seen) p = p == q || is_seen seen p

module _ (heap : ℕ → Schema) (name : Bytes) where
  -- The bound of one property, if it has one that an int can hold.
  unfoldable pub add_bound : Bytes → Schema → Walk → Walk
  add_bound prop s w = elim s.max_length [
    | none ↦ w
    | some n ↦
        if leb n max_int64
        then record w {
          out = record (w.out) {
            bounds =
                w.out.bounds ++ (record { schema = name; property = prop; max_length = n } ∷ []);
          };
        }
        else w
  ]

  -- The enum that a property declares inline.
  unfoldable pub add_enum : Bytes → SchemaRef → Schema → Walk → Step
  unfolding split_enum
  add_enum prop r s w =
      if is_nil r.ref && not (is_nil s.enum)
      then elim (split_enum s.enum) [
        | refused_member v ↦ enum_error name prop v
        | separated values has_null ↦ walked (record w {
          out = record (w.out) {
            prop_enums =
                w.out.prop_enums
                ++ (record { schema = name; property = prop; values = values; has_null = has_null }
                    ∷ []);
          };
        })
      ]
      else walked w

  -- The loop over the properties.
  unfoldable pub add_props : List (Bytes × SchemaRef) → Walk → Step
  unfolding add_bound add_enum
  add_props [] w = walked w
  add_props ((prop, r) ∷ props) w = elim r.value [
    | none ↦ add_props props w
    | some p ↦ and_then (add_enum prop r (heap p) (add_bound prop (heap p) w)) (add_props props)
  ]

  -- The loop over the branches, with the function that is called for each.
  unfoldable pub over_branches : (Option ℕ → Walk → Step) → List SchemaRef → Walk → Step
  over_branches visit [] w = walked w
  over_branches visit (r ∷ branches) w = and_then (visit r.value w) (over_branches visit branches)

  -- `collectProps`.
  unfoldable pub collect_props : ℕ → Option ℕ → Walk → Step
  unfolding is_seen add_props over_branches
  collect_props zero s w = out_of_fuel
  collect_props (suc fuel) none w = walked w
  collect_props (suc fuel) (some p) w =
      let visit = collect_props fuel in
      if is_seen w.seen p
      then walked w
      else and_then (add_props (heap p).properties (record w { seen = p ∷ w.seen }))
          (over_branches visit (heap p).all_of)

-- `enumOf`: no enum, a refused member, or the enum.
pub data Declared : Type 0 where
  no_enum : Declared
  refused_enum : Bytes → Declared
  declared : Enum → Declared

unfoldable pub enum_of : Bytes → Schema → Declared
unfolding split_enum
enum_of name s = if is_nil s.enum then no_enum else (elim (split_enum s.enum) [
  | refused_member v ↦ refused_enum v
  | separated values has_null ↦
      declared (record { schema = name; values = values; has_null = has_null })
])
