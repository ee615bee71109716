-- ===== src/Contract/Json.antt =====
-- internal/contract/jsondiff.go: the comparison of two JSON documents. A document is what
-- encoding/json decodes with UseNumber: a number is its text, and a Go map is the list of its
-- entries.
pub mod Paths
pub mod Under
pub mod Same
mod Tests
use ynab_go.Base.{
  ℕ, zero, suc, Bool, true, false, not, ◌&&◌, ◌||◌, Option, none, some, List, [], ◌∷◌, ◌++◌, Bytes,
  codes, bytes_eq, is_nil, ltb, ◌==◌, if◌then◌else◌,
}
use ynab_go.Std.Strconv.{format_uint}
use ynab_go.Contract.{contains}

mutual
  pub data Json : Type 0 where
    null : Json
    boolean : Bool → Json
    number : Bytes → Json
    text : Bytes → Json
    array : Items → Json
    object : Members → Json

  pub data Items : Type 0 where
    no_items : Items
    item : Json → Items → Items

  pub data Members : Type 0 where
    no_members : Members
    member : Bytes → Json → Members → Members

-- `<` on Go strings.
pub less : Bytes → Bytes → Bool
less [] [] = false
less [] (b ∷ t) = true
less (a ∷ s) [] = false
less (a ∷ s) (b ∷ t) = ltb a b || (a == b && less s t)

unfoldable pub insert_sorted : Bytes → List Bytes → List Bytes
unfolding less
insert_sorted x [] = x ∷ []
insert_sorted x (y ∷ ys) =
    let rest = insert_sorted x ys in if less y x then y ∷ rest else x ∷ y ∷ ys

-- slices.Sort.
unfoldable pub sort : List Bytes → List Bytes
unfolding insert_sorted
sort [] = []
sort (x ∷ xs) = insert_sorted x (sort xs)

abbrev pub child_path : Bytes → Bytes → Bytes
child_path prefix k = prefix ++ b'.' ∷ k

abbrev pub index_path : Bytes → ℕ → Bytes
index_path prefix i = prefix ++ b'[' ∷ (format_uint i ++ codes "]")

-- `keyPaths`.
unfoldable mutual
  unfolding sort

  pub key_paths : Json → Bytes → List Bytes
  key_paths null prefix = sort []
  key_paths (boolean b) prefix = sort []
  key_paths (number n) prefix = sort []
  key_paths (text s) prefix = sort []
  key_paths (array xs) prefix = sort (item_paths xs 0 prefix)
  key_paths (object ms) prefix = sort (member_paths ms prefix)

  pub item_paths : Items → ℕ → Bytes → List Bytes
  item_paths no_items i prefix = []
  item_paths (item x xs) i prefix =
      key_paths x (index_path prefix i) ++ item_paths xs (suc i) prefix

  pub member_paths : Members → Bytes → List Bytes
  member_paths no_members prefix = []
  member_paths (member k v ms) prefix =
      child_path prefix k ∷ key_paths v (child_path prefix k) ++ member_paths ms prefix

abbrev pub member_keys : Members → List Bytes
member_keys no_members = []
member_keys (member k v ms) = k ∷ member_keys ms

unfoldable pub member_at : Bytes → Members → Option Json
member_at k no_members = none
member_at k (member j v ms) = if bytes_eq k j then some v else member_at k ms

abbrev pub size : List Bytes → ℕ
size [] = 0
size (k ∷ ks) = suc (size ks)

-- reflect.DeepEqual: arrays place by place; maps of one size with equal values at every key.
unfoldable mutual
  unfolding member_at

  pub deep_equal : Json → Json → Bool
  deep_equal null null = true
  deep_equal (boolean true) (boolean true) = true
  deep_equal (boolean false) (boolean false) = true
  deep_equal (number n) (number m) = bytes_eq n m
  deep_equal (text s) (text t) = bytes_eq s t
  deep_equal (array xs) (array ys) = equal_items xs ys
  deep_equal (object ms) (object ns) =
      size (member_keys ms) == size (member_keys ns) && equal_members ms ns
  deep_equal _ _ = false

  pub equal_items : Items → Items → Bool
  equal_items no_items no_items = true
  equal_items (item x xs) (item y ys) = deep_equal x y && equal_items xs ys
  equal_items _ _ = false

  pub equal_members : Members → Members → Bool
  equal_members no_members ns = true
  equal_members (member k v ms) ns =
      (elim (member_at k ns) [ none ↦ false | some w ↦ deep_equal v w ]) && equal_members ms ns

-- A discrepancy.
pub data Difference : Type 0 where
  expected_invalid : Difference
  emitted_invalid : Difference
  missing_key : Bytes → Difference
  unexpected_key : Bytes → Difference
  values_differ : Difference

-- The two loops over the key paths.
unfoldable pub keys_not_in : (Bytes → Difference) → List Bytes → List Bytes → List Difference
unfolding contains
keys_not_in report [] others = []
keys_not_in report (k ∷ ks) others =
    let rest = keys_not_in report ks others in if contains others k then rest else report k ∷ rest

-- `DiffJSON` behind the two decoders.
unfoldable pub diff_documents : Json → Json → List Difference
unfolding keys_not_in key_paths deep_equal
diff_documents e a =
    let exp_keys = key_paths e (codes "$") in
    let act_keys = key_paths a (codes "$") in
    let problems =
      keys_not_in missing_key exp_keys act_keys ++ keys_not_in unexpected_key act_keys exp_keys in
    if is_nil problems && not (deep_equal e a) then problems ++ (values_differ ∷ []) else problems

-- `DiffJSON`; `decode` is `decodeExact`.
unfoldable pub diff_json : (Bytes → Option Json) → Bytes → Bytes → List Difference
unfolding diff_documents
diff_json decode expected actual = elim (decode expected) [
  | none ↦ expected_invalid ∷ []
  | some e ↦ elim (decode actual) [ none ↦ emitted_invalid ∷ [] | some a ↦ diff_documents e a ]
]
