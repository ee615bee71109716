-- ===== src/Contract/SpecScan/Lines.antt =====
-- What the scanner does on each line of that layout.
use ynab_go.Base.{
  ◌≡◌, refl, ◌∙◌, true, false, Bool-cases, inl, inr, none, some, List, [], ◌∷◌, ◌++◌, All, arith,
  Bytes, codes, bytes_eq,
}
use ynab_go.Std.Strings.{cut, cut-append, Lacks}
use ynab_go.Contract.{contains}
use ynab_go.Contract.Params.{IsIn}
use ynab_go.Contract.SpecScan.{
  is_space, only_spaces, skip_spaces, word, after, value, keyed_value, indented_value, before_colon,
  path_line, verb_line, operation_line, param_name, param_in, version_line, is_key_line, to_upper,
  Scanner, update_last, param_is_query, add_param, scan_op_line, scan_line,
}
use ynab_go.Contract.SpecScan.Layout.{verbs, IsWord}

word_lem : (w : Bytes) → All (λ c. is_space c ≡ false) w → word w ≡ w
unfolding word
word_lem [] h = refl
word_lem (c ∷ w) h = rw (h.0, word_lem w h.1) refl

pub value_lem : (w : Bytes) → IsWord w → value (32 ∷ w) ≡ some w
unfolding value skip_spaces word
value_lem [] h = absurd (ground (arith, h.0))
value_lem (c ∷ w) h = rw (h.1.0, word_lem (c ∷ w) h.1) refl

pub verb-Lacks : (v : Bytes) → IsIn v verbs → Lacks b':' v
verb-Lacks v (inl e) = rw e (omega arith)
verb-Lacks v (inr (inl e)) = rw e (omega arith)
verb-Lacks v (inr (inr (inl e))) = rw e (omega arith)
verb-Lacks v (inr (inr (inr (inl e)))) = rw e (omega arith)
verb-Lacks v (inr (inr (inr (inr (inl e))))) = rw e (omega arith)
verb-Lacks v (inr (inr (inr (inr (inr nowhere))))) = absurd nowhere

before_colon_lem : (s : Bytes) → Lacks b':' s → before_colon (s ++ codes ":") ≡ some s
unfolding before_colon only_spaces
before_colon_lem s h = rw (cut-append b':' s [] h) refl

-- The five cases of the switch, by what the line is.
module _ (line : Bytes) (ls : List Bytes) (s : Scanner) where
  pub at_path :
      (p : Bytes)
      → path_line line ≡ some p
      → scan_line line ls s ≡ record s { path = p; is_open = false }
  unfolding scan_line
  at_path p e = rw e refl

  pub at_verb :
      (v : Bytes)
      → path_line line ≡ none
      → verb_line line ≡ some v
      → scan_line line ls s ≡ record s { verb = to_upper v; is_open = false }
  unfolding scan_line
  at_verb v e f = rw (e, f) refl

  pub at_operation :
      (id : Bytes)
      → path_line line ≡ none
      → verb_line line ≡ none
      → operation_line line ≡ some id
      → scan_line line ls s ≡ record s {
        ops =
            s.ops
            ++ (record {
              id = id;
              method = s.verb;
              path = s.path;
              query_params = [];
              has_body = false;
            }
                ∷ []);
        is_open = true;
      }
  unfolding scan_line
  at_operation id e f g = rw (e, f, g) refl

  at_other :
      path_line line ≡ none
      → verb_line line ≡ none
      → operation_line line ≡ none
      → version_line line ≡ none
      → scan_line line ls s ≡ scan_op_line line ls s
  unfolding scan_line
  at_other e f g k = rw (e, f, g, k) refl

pub path_of_path :
    (p : Bytes) → Lacks b':' p → path_line (codes "  /" ++ (p ++ codes ":")) ≡ some (b'/' ∷ p)
unfolding path_line after
path_of_path p h = before_colon_lem (b'/' ∷ p) (omega arith, h)

pub path_of_verb : (v : Bytes) → path_line (codes "    " ++ (v ++ codes ":")) ≡ none
unfolding path_line after
path_of_verb v = refl

pub verb_of_verb :
    (v : Bytes) → IsIn v verbs → verb_line (codes "    " ++ (v ++ codes ":")) ≡ some v
unfolding verb_line after before_colon only_spaces cut contains bytes_eq
verb_of_verb v (inl e) = rw e refl
verb_of_verb v (inr (inl e)) = rw e refl
verb_of_verb v (inr (inr (inl e))) = rw e refl
verb_of_verb v (inr (inr (inr (inl e)))) = rw e refl
verb_of_verb v (inr (inr (inr (inr (inl e))))) = rw e refl
verb_of_verb v (inr (inr (inr (inr (inr nowhere))))) = absurd nowhere

pub path_of_id : (id : Bytes) → path_line (codes "      operationId: " ++ id) ≡ none
unfolding path_line after
path_of_id id = refl

pub verb_of_id : (id : Bytes) → verb_line (codes "      operationId: " ++ id) ≡ none
unfolding verb_line after before_colon only_spaces cut contains bytes_eq
verb_of_id id = elim (Bool-cases (only_spaces id)) [
  | inl empty ↦ rw empty refl
  | inr full ↦ rw full refl
]

pub id_of_id :
    (id : Bytes) → IsWord id → operation_line (codes "      operationId: " ++ id) ≡ some id
unfolding operation_line keyed_value after
id_of_id id h = value_lem id h

verb_of_name : (p : Bytes) → verb_line (codes "        - name: " ++ p) ≡ none
unfolding verb_line after before_colon only_spaces cut contains bytes_eq
verb_of_name p = elim (Bool-cases (only_spaces p)) [
  | inl empty ↦ rw empty refl
  | inr full ↦ rw full refl
]

name_of_name : (p : Bytes) → IsWord p → param_name (codes "        - name: " ++ p) ≡ some p
unfolding param_name indented_value skip_spaces keyed_value after
name_of_name p h = value_lem p h

-- The fixed lines.
pub query_line :
    (ls : List Bytes) (s : Scanner)
    → s.is_open ≡ true
    → scan_line (codes "          in: query") ls s ≡ s
unfolding scan_line path_line verb_line operation_line version_line keyed_value after before_colon
    only_spaces cut contains bytes_eq scan_op_line is_key_line param_name indented_value skip_spaces
query_line ls s h = rw h refl

pub body_line :
    (ls : List Bytes) (s : Scanner)
    → s.is_open ≡ true
    → scan_line (codes "      requestBody:") ls s
      ≡ record s { ops = update_last (λ o. record o { has_body = true }) s.ops }
unfolding scan_line path_line verb_line operation_line version_line keyed_value after before_colon
    only_spaces cut contains bytes_eq scan_op_line is_key_line
body_line ls s h = rw h refl

pub responses_line :
    (ls : List Bytes) (s : Scanner)
    → scan_line (codes "      responses:") ls s ≡ record s { is_open = false }
unfolding scan_line path_line verb_line operation_line version_line keyed_value after before_colon
    only_spaces cut contains bytes_eq scan_op_line is_key_line
responses_line ls s = refl

pub name_line :
    (p : Bytes) (ls : List Bytes) (s : Scanner)
    → IsWord p
    → s.is_open ≡ true
    → scan_line (codes "        - name: " ++ p) (codes "          in: query" ∷ ls) s
      ≡ record s { ops = update_last (add_param p) s.ops }
unfolding path_line operation_line version_line keyed_value after scan_op_line is_key_line
    only_spaces param_is_query param_name param_in indented_value skip_spaces value word bytes_eq
name_line p ls s w h =
    at_other (codes "        - name: " ++ p) (codes "          in: query" ∷ ls) s refl
      (verb_of_name p) refl refl
    ∙ simp (h, name_of_name p w) refl
