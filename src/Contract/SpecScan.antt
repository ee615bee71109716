-- ===== src/Contract/SpecScan.antt =====
-- internal/contract/specscan.go: the line scanner of the vendored specification, over the file's
-- lines. Each regular expression is written out as the recogniser of its lines; an option is its
-- submatch.
pub mod Layout
pub mod Lines
pub mod RoundTrip
mod Tests
use ynab_go.Base.{
  ℕ, ◌-◌, Bool, true, false, ◌&&◌, ◌||◌, not, Option, none, some, List, [], ◌∷◌, ◌++◌, map, Bytes,
  codes, bytes_eq, is_nil, ◌==◌, leb, if◌then◌else◌, take,
}
use ynab_go.Std.Strings.{cut}
use ynab_go.Contract.{SpecOp, contains}

-- `\s` on one byte.
abbrev is_space : ℕ → Bool
is_space c = c == 32 || (c == 9 || (c == 10 || (c == 12 || c == 13)))

-- `\s*$`.
unfoldable pub only_spaces : Bytes → Bool
only_spaces [] = true
only_spaces (c ∷ s) = is_space c && only_spaces s

unfoldable pub skip_spaces : Bytes → Bytes
skip_spaces [] = []
skip_spaces (c ∷ s) = let rest = skip_spaces s in if is_space c then rest else c ∷ s

-- The longest run of `\S`.
unfoldable pub word : Bytes → Bytes
word [] = []
word (c ∷ s) = let rest = word s in if is_space c then [] else c ∷ rest

-- What follows a text at the start.
unfoldable pub after : Bytes → Bytes → Option Bytes
after [] s = some s
after (p ∷ ps) [] = none
after (p ∷ ps) (c ∷ s) = let rest = after ps s in if p == c then rest else none

-- `\s*(\S+)`.
unfoldable pub value : Bytes → Option Bytes
unfolding word skip_spaces
value s = let w = word (skip_spaces s) in if is_nil w then none else some w

-- `<start>\s*(\S+)`.
unfoldable pub keyed_value : Bytes → Bytes → Option Bytes
unfolding after value
keyed_value start line = elim (after start line) [ none ↦ none | some rest ↦ value rest ]

-- `^\s+<start>\s*(\S+)`.
unfoldable pub indented_value : Bytes → Bytes → Option Bytes
unfolding keyed_value skip_spaces
indented_value start [] = none
indented_value start (c ∷ s) = if is_space c then keyed_value start (skip_spaces s) else none

-- A text up to a colon with only spaces behind it.
unfoldable pub before_colon : Bytes → Option Bytes
unfolding only_spaces
before_colon s =
    let (before, rest, found) = cut b':' s in
    if found && only_spaces rest then some before else none

-- `rePathLine`.
unfoldable pub path_line : Bytes → Option Bytes
unfolding after before_colon
path_line line = elim (after (codes "  ") line) [
  | none ↦ none
  | some [] ↦ none
  | some (c ∷ s) ↦ if c == b'/' then before_colon (c ∷ s) else none
]

-- `reVerbLine`.
unfoldable pub verb_line : Bytes → Option Bytes
unfolding after before_colon contains
verb_line line = elim (after (codes "    ") line) [
  | none ↦ none
  | some rest ↦ elim (before_colon rest) [
    | none ↦ none
    | some verb ↦
        if contains (codes "get" ∷ codes "post" ∷ codes "put" ∷ codes "patch" ∷ codes "delete" ∷ [])
          verb
        then some verb
        else none
  ]
]

-- `reOperationID`, `reParamName`, `reParamIn`, `reVersion`.
unfoldable pub operation_line : Bytes → Option Bytes
unfolding keyed_value
operation_line line = keyed_value (codes "      operationId:") line

unfoldable pub param_name : Bytes → Option Bytes
unfolding indented_value
param_name line = indented_value (codes "- name:") line

unfoldable pub param_in : Bytes → Option Bytes
unfolding indented_value
param_in line = indented_value (codes "in:") line

unfoldable pub version_line : Bytes → Option Bytes
unfolding keyed_value
version_line line = keyed_value (codes "  version:") line

-- `reRequestBody` and `reResponses`.
unfoldable pub is_key_line : Bytes → Bytes → Bool
unfolding after only_spaces
is_key_line key line = elim (after key line) [ none ↦ false | some rest ↦ only_spaces rest ]

-- strings.ToUpper on a verb.
unfoldable pub to_upper : Bytes → Bytes
to_upper [] = []
to_upper (c ∷ s) = (if leb b'a' c && leb c b'z' then c - 32 else c) ∷ to_upper s

-- The scanner's variables; `is_open` where curOp points to the last operation.
pub record Scanner : Type 0 where
  pub version : Bytes
  pub ops : List SpecOp
  pub path : Bytes
  pub verb : Bytes
  pub is_open : Bool

-- A write through curOp.
unfoldable pub update_last : (SpecOp → SpecOp) → List SpecOp → List SpecOp
update_last f [] = []
update_last f (o ∷ []) = f o ∷ []
update_last f (o ∷ p ∷ ops) = o ∷ update_last f (p ∷ ops)

-- `paramIsQuery` on the lines that follow, at most five.
unfoldable pub param_is_query : List Bytes → Bool
unfolding param_name param_in
param_is_query [] = false
param_is_query (line ∷ lines) =
    let rest = param_is_query lines in
    (elim (param_name line) [
      | some name ↦ false
      | none ↦ elim (param_in line) [ some place ↦ bytes_eq place (codes "query") | none ↦ rest ]
    ])

abbrev add_param : Bytes → SpecOp → SpecOp
add_param name o = record o { query_params = o.query_params ++ (name ∷ []) }

-- `scanOpLine`; the second list holds the lines that follow.
unfoldable pub scan_op_line : Bytes → List Bytes → Scanner → Scanner
unfolding is_key_line param_name param_is_query update_last
scan_op_line line following s =
    if is_key_line (codes "      responses:") line
    then record s { is_open = false }
    else if not s.is_open
    then record s { is_open = false }
    else if is_key_line (codes "      requestBody:") line
    then record s { ops = update_last (λ o. record o { has_body = true }) s.ops }
    else (elim (param_name line) [
      | none ↦ s
      | some name ↦
          if param_is_query (take 5 following)
          then record s { ops = update_last (add_param name) s.ops }
          else s
    ])

-- The switch of `ScanSpec` on one line.
unfoldable pub scan_line : Bytes → List Bytes → Scanner → Scanner
unfolding path_line verb_line operation_line version_line scan_op_line to_upper
scan_line line following s = elim (path_line line) [
  | some p ↦ record s { path = p; is_open = false }
  | none ↦ elim (verb_line line) [
    | some v ↦ record s { verb = to_upper v; is_open = false }
    | none ↦ elim (operation_line line) [
      | some id ↦ record s {
        ops =
            s.ops
            ++ (record {
              id = id;
              method = s.verb;
              path = s.path;
              query_params = [];
              has_body = false;
            }
                ∷ []);
        is_open = true;
      }
      | none ↦ elim (version_line line) [
        | some v ↦
            if is_nil s.version then record s { version = v } else scan_op_line line following s
        | none ↦ scan_op_line line following s
      ]
    ]
  ]
]

unfoldable pub scan_lines : List Bytes → Scanner → Scanner
unfolding scan_line
scan_lines [] s = s
scan_lines (line ∷ lines) s = scan_lines lines (scan_line line lines s)

abbrev pub start : Scanner
start = record { version = []; ops = []; path = []; verb = []; is_open = false }

-- `ScanSpec` behind the read of the file, `none` where it finds no operation.
unfoldable pub scan_spec : List Bytes → Option Scanner
unfolding scan_lines
scan_spec lines = let s = scan_lines lines start in if is_nil s.ops then none else some s
