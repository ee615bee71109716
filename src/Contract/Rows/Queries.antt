-- ===== src/Contract/Rows/Queries.antt =====
-- sync.go: applyListOptions, and transactions.go: TransactionFilter.encode, against the parameters
-- that deltaParams and transactionFilterParams list.
use ynab_go.Base.{
  Bool, Bool-cases, inl, inr, refl, true, false, not, List, [], ◌∷◌, map, Bytes, codes, bytes_eq,
  is_nil,
}
use ynab_go.Contract.Table.{delta_params, transaction_filter_params}
use ynab_go.Contract.Params.{IsIn, IsWithinOf}
use ynab_go.Sync.{ListOption, since, no_option, cursor_key, apply_list_options, apply_option}
use ynab_go.Std.Url.{Values, set}
use ynab_go.Std.Strconv.{format_int}
use ynab_go.Transactions.{Filter, set_if, encode_filter}
use ynab_go.Date.{is_zero_day, day_string}
use ynab_go.Base.Int.{pos, eqb_ℤ}

pub set-IsWithin :
    (others : List Bytes) (k v : Bytes) (q : Values)
    → IsIn k others
    → IsWithinOf others (map (λ e. e.0) q)
    → IsWithinOf others (map (λ e. e.0) (set k v q))
unfolding set
set-IsWithin others k v [] h w = (h, tt)
set-IsWithin others k v ((j, u) ∷ q) h w = elim (Bool-cases (bytes_eq j k)) [
  | inl same ↦ rw same (h, w.1)
  | inr other ↦ rw other (w.0, set-IsWithin others k v q h w.1)
]

pub apply-IsWithin :
    (opts : List ListOption) (q : Values)
    → IsWithinOf delta_params (map (λ e. e.0) q)
    → IsWithinOf delta_params (map (λ e. e.0) (apply_list_options q opts))
unfolding apply_list_options apply_option
apply-IsWithin [] q w = w
apply-IsWithin (since k ∷ opts) q w =
    apply-IsWithin opts (set cursor_key (format_int k) q)
      (set-IsWithin delta_params cursor_key (format_int k) q (inl refl) w)
apply-IsWithin (no_option ∷ opts) q w = apply-IsWithin opts q w

set_if-IsWithin :
    (b : Bool) (others : List Bytes) (k v : Bytes) (q : Values)
    → IsIn k others
    → IsWithinOf others (map (λ e. e.0) q)
    → IsWithinOf others (map (λ e. e.0) (set_if b k v q))
set_if-IsWithin true others k v q h w = set-IsWithin others k v q h w
set_if-IsWithin false others k v q h w = w

pub encode_filter-IsWithin :
    (f : Filter) → IsWithinOf transaction_filter_params (map (λ e. e.0) (encode_filter f))
unfolding encode_filter
encode_filter-IsWithin f =
    let params = transaction_filter_params in
    let q1 : Values =
      set_if (not (is_zero_day f.since_date)) (codes "since_date") (day_string f.since_date) [] in
    let q2 : Values =
      set_if (not (is_zero_day f.until_date)) (codes "until_date") (day_string f.until_date) q1 in
    let q3 : Values = set_if (not (is_nil f.kind)) (codes "type") f.kind q2 in
    let w1 =
      set_if-IsWithin (not (is_zero_day f.since_date)) params (codes "since_date")
        (day_string f.since_date) [] (inl refl) tt in
    let w2 =
      set_if-IsWithin (not (is_zero_day f.until_date)) params (codes "until_date")
        (day_string f.until_date) q1 (inr (inl refl)) w1 in
    let w3 =
      set_if-IsWithin (not (is_nil f.kind)) params (codes "type") f.kind q2 (inr (inr (inl refl)))
        w2 in
    set_if-IsWithin (not (eqb_ℤ f.since (pos 0))) params cursor_key (format_int f.since) q3
      (inr (inr (inr (inl refl)))) w3
