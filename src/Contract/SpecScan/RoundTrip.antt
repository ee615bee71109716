-- ===== src/Contract/SpecScan/RoundTrip.antt =====
-- ScanSpec on a specification in the layout that it expects.
use ynab_go.Base.{
  ◌≡◌, refl, sym, ap, ◌∙◌, Bool, true, false, Option, none, some, map, List, [], ◌∷◌, ◌++◌,
  append-nil, append_assoc, All, Bytes, codes, is_nil, if◌then◌else◌,
}
use ynab_go.Contract.{SpecOp}
use ynab_go.Contract.SpecScan.{
  to_upper, Scanner, update_last, add_param, scan_line, scan_lines, start, scan_spec,
}
use ynab_go.Contract.SpecScan.Layout.{
  Listed, IsWord, IsListed, param_lines, body_lines, operation_lines, spec_lines, to_op, state,
}
use ynab_go.Contract.SpecScan.Lines.{
  at_path, at_verb, at_operation, path_of_path, path_of_verb, verb_of_verb, path_of_id, verb_of_id,
  id_of_id, query_line, body_line, responses_line, name_line,
}

-- What the lines behind operationId do to the operation that is open, the last one.
update_snoc :
    (f : SpecOp → SpecOp) (ops : List SpecOp) (o : SpecOp)
    → update_last f (ops ++ (o ∷ [])) ≡ ops ++ (f o ∷ [])
unfolding update_last
update_snoc f [] o = refl
update_snoc f (p ∷ []) o = refl
update_snoc f (p ∷ q ∷ ops) o = ap (λ l. p ∷ l) (update_snoc f (q ∷ ops) o)

abbrev with_params : SpecOp → List Bytes → SpecOp
with_params o ps = record o { query_params = o.query_params ++ ps }

scan_params :
    (ps : List Bytes) (rest : List Bytes) (version path verb : Bytes) (ops : List SpecOp)
    (o : SpecOp)
    → All IsWord ps
    → scan_lines (param_lines ps ++ rest) (state version (ops ++ (o ∷ [])) path verb true)
      ≡ scan_lines rest (state version (ops ++ (with_params o ps ∷ [])) path verb true)
unfolding scan_lines
scan_params [] rest version path verb ops o h =
    ap
      (λ l.
        scan_lines rest
          (state version (ops ++ (record o { query_params = l } ∷ [])) path verb true))
      (sym (append-nil o.query_params))
scan_params (p ∷ ps) rest version path verb ops o h =
    let s = state version (ops ++ (o ∷ [])) path verb true in
    let more = param_lines ps ++ rest in
    let s1 = state version (ops ++ (add_param p o ∷ [])) path verb true in
    let first : scan_line (codes "        - name: " ++ p) (codes "          in: query" ∷ more) s
        ≡ s1 =
      name_line p more s h.0 refl
      ∙ ap (λ l. state version l path verb true) (update_snoc (add_param p) ops o) in
    ap (λ x. scan_lines more (scan_line (codes "          in: query") more x)) first
    ∙ ap (λ x. scan_lines more x) (query_line more s1 refl)
    ∙ scan_params ps rest version path verb ops (add_param p o) h.1
    ∙ ap
        (λ l.
          scan_lines rest
            (state version (ops ++ (record o { query_params = l } ∷ [])) path verb true))
        (append_assoc o.query_params (p ∷ []) ps)

scan_end :
    (b : Bool) (rest : List Bytes) (version path verb : Bytes) (ops : List SpecOp) (o : SpecOp)
    → o.has_body ≡ false
    → scan_lines
        ((body_lines b ++ (codes "      responses:" ∷ [])) ++ rest)
        (state version (ops ++ (o ∷ [])) path verb true)
      ≡ scan_lines rest (state version (ops ++ (record o { has_body = b } ∷ [])) path verb false)
unfolding scan_lines
scan_end true rest version path verb ops o h =
    let s = state version (ops ++ (o ∷ [])) path verb true in
    let more = codes "      responses:" ∷ rest in
    ap (λ x. scan_lines rest (scan_line (codes "      responses:") rest x))
      (body_line more s refl
        ∙ ap (λ l. state version l path verb true)
            (update_snoc (λ x. record x { has_body = true }) ops o))
    ∙ ap (λ x. scan_lines rest x)
        (responses_line rest
          (state version (ops ++ (record o { has_body = true } ∷ [])) path verb true))
scan_end false rest version path verb ops o h =
    ap (λ x. scan_lines rest x)
      (responses_line rest (state version (ops ++ (o ∷ [])) path verb true))
    ∙ ap
        (λ b.
          scan_lines rest (state version (ops ++ (record o { has_body = b } ∷ [])) path verb false))
        h

scan_operation :
    (o : Listed) (rest : List Bytes) (version path verb : Bytes) (ops : List SpecOp)
    (is_open : Bool)
    → IsListed o
    → scan_lines (operation_lines o ++ rest) (state version ops path verb is_open)
      ≡ scan_lines rest
          (state version (ops ++ (to_op o ∷ [])) (b'/' ∷ o.path) (to_upper o.verb) false)
unfolding scan_lines
scan_operation o rest version path verb ops is_open h =
    let p = b'/' ∷ o.path in
    let v = to_upper o.verb in
    let l1 = codes "  /" ++ (o.path ++ codes ":") in
    let l2 = codes "    " ++ (o.verb ++ codes ":") in
    let l3 = codes "      operationId: " ++ o.id in
    let tail = body_lines o.has_body ++ (codes "      responses:" ∷ []) in
    let more = (param_lines o.params ++ tail) ++ rest in
    let opened : SpecOp = record {
      id = o.id;
      method = v;
      path = p;
      query_params = [];
      has_body = false;
    } in
    let s0 = state version ops path verb is_open in
    let s1 = state version ops p verb false in
    let s2 = state version ops p v false in
    let s3 = state version (ops ++ (opened ∷ [])) p v true in
    let e1 : scan_line l1 (l2 ∷ l3 ∷ more) s0 ≡ s1 =
      at_path l1 (l2 ∷ l3 ∷ more) s0 p (path_of_path o.path h.0) in
    let e2 : scan_line l2 (l3 ∷ more) s1 ≡ s2 =
      at_verb l2 (l3 ∷ more) s1 o.verb (path_of_verb o.verb) (verb_of_verb o.verb h.1.0) in
    let e3 : scan_line l3 more s2 ≡ s3 =
      at_operation l3 more s2 o.id (path_of_id o.id) (verb_of_id o.id) (id_of_id o.id h.1.1.0) in
    ap (λ x. scan_lines more (scan_line l3 more (scan_line l2 (l3 ∷ more) x))) e1
    ∙ ap (λ x. scan_lines more (scan_line l3 more x)) e2
    ∙ ap (λ x. scan_lines more x) e3
    ∙ ap (λ l. scan_lines l s3) (append_assoc (param_lines o.params) tail rest)
    ∙ scan_params o.params (tail ++ rest) version p v ops opened h.1.1.1
    ∙ scan_end o.has_body rest version p v ops (with_params opened o.params) refl

scan_lines-spec_lines :
    (os : List Listed) (version path verb : Bytes) (ops : List SpecOp) (is_open : Bool)
    → All IsListed os
    → (scan_lines (spec_lines os) (state version ops path verb is_open)).ops ≡ ops ++ map to_op os
unfolding scan_lines
scan_lines-spec_lines [] version path verb ops is_open h = sym (append-nil ops)
scan_lines-spec_lines (o ∷ os) version path verb ops is_open h =
    ap (λ s. s.ops) (scan_operation o (spec_lines os) version path verb ops is_open h.0)
    ∙ scan_lines-spec_lines os version (b'/' ∷ o.path) (to_upper o.verb) (ops ++ (to_op o ∷ []))
        false h.1
    ∙ append_assoc ops (to_op o ∷ []) (map to_op os)

abbrev pub ops_of : Option Scanner → Option (List SpecOp)
ops_of none = none
ops_of (some s) = some s.ops

-- A specification printed in the scanner's layout is read back: for any operations but none at all,
-- with a path that starts with a slash and has no colon, one of the five verbs, an id and query
-- parameters that are words, ScanSpec finds exactly these operations in their order, each with its
-- verb in upper case, its path, its query parameters and whether it has a body.
pub scan_spec-spec_lines :
    (o : Listed) (os : List Listed)
    → All IsListed (o ∷ os)
    → ops_of (scan_spec (spec_lines (o ∷ os))) ≡ some (map to_op (o ∷ os))
unfolding scan_spec
scan_spec-spec_lines o os h =
    found (scan_lines (spec_lines (o ∷ os)) start)
      (scan_lines-spec_lines (o ∷ os) [] [] [] [] false h)
  where
    found :
        (s : Scanner)
        → s.ops ≡ map to_op (o ∷ os)
        → ops_of (if is_nil s.ops then none else some s) ≡ some (map to_op (o ∷ os))
    found s e = rw e refl
