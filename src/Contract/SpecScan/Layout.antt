-- ===== src/Contract/SpecScan/Layout.antt =====
-- The layout of the specification that the scanner expects, printed from its operations.
use ynab_go.Base.{◌≡◌, Bool, true, false, List, [], ◌∷◌, ◌++◌, All, Bytes, codes, is_nil}
use ynab_go.Std.Strings.{Lacks}
use ynab_go.Contract.{SpecOp}
use ynab_go.Contract.Params.{IsIn}
use ynab_go.Contract.SpecScan.{is_space, to_upper, Scanner}

-- An operation to print; its verb in lower case.
pub record Listed : Type 0 where
  pub path : Bytes
  pub verb : Bytes
  pub id : Bytes
  pub params : List Bytes
  pub has_body : Bool

abbrev pub verbs : List Bytes
verbs = codes "get" ∷ codes "post" ∷ codes "put" ∷ codes "patch" ∷ codes "delete" ∷ []

-- A word that is not empty, and has no space.
abbrev pub IsWord : Bytes → Type 0
IsWord w = (is_nil w ≡ false) × All (λ c. is_space c ≡ false) w

-- A path starts with a slash and has no colon; the other texts are words, the verb one of the five.
abbrev pub IsListed : Listed → Type 0
IsListed o = Lacks b':' o.path × (IsIn o.verb verbs × (IsWord o.id × All IsWord o.params))

abbrev pub param_lines : List Bytes → List Bytes
param_lines [] = []
param_lines (p ∷ ps) =
    (codes "        - name: " ++ p) ∷ codes "          in: query" ∷ param_lines ps

abbrev pub body_lines : Bool → List Bytes
body_lines true = codes "      requestBody:" ∷ []
body_lines false = []

-- The lines of an operation; the path is written without its leading slash in the record.
abbrev pub operation_lines : Listed → List Bytes
operation_lines o =
    (codes "  /" ++ (o.path ++ codes ":"))
    ∷ (codes "    " ++ (o.verb ++ codes ":"))
    ∷ (codes "      operationId: " ++ o.id)
    ∷ (param_lines o.params ++ (body_lines o.has_body ++ (codes "      responses:" ∷ [])))

abbrev pub spec_lines : List Listed → List Bytes
spec_lines [] = []
spec_lines (o ∷ os) = operation_lines o ++ spec_lines os

-- What the scanner should find.
abbrev pub to_op : Listed → SpecOp
to_op o = record {
  id = o.id;
  method = to_upper o.verb;
  path = b'/' ∷ o.path;
  query_params = o.params;
  has_body = o.has_body;
}

abbrev pub state : Bytes → List SpecOp → Bytes → Bytes → Bool → Scanner
state version ops path verb is_open = record {
  version = version;
  ops = ops;
  path = path;
  verb = verb;
  is_open = is_open;
}
