-- ===== src/Payloads/Tests.antt =====
-- The payloads of a patch that clears a memo.
use ynab_go.Base.{
  ◌≡◌, ◌≢◌, ◌⊎◌, refl, none, some, [], ◌∷◌, map, All, Bytes, bytes_eq, codes, is_nil, if◌then◌else◌,
}
use ynab_go.Base.Int.{pos}
use ynab_go.Std.Maps.{Map, lookup, insert}
use ynab_go.Std.Strconv.{format_int, format_uint}
use ynab_go.Std.Utf8.{rune_count}
use ynab_go.Optional.{unset, set_null, set, get}
use ynab_go.Date.{marshal_day, quoted}
use ynab_go.Transactions.{check_patches}
use ynab_go.Errors.{check_rune_max, err_first}
use ynab_go.Payloads.{
  TransactionUpdate, TransactionPatch, update_entries, present, nonempty, encode_bool,
  marshal_patch, checked_patch,
}
use ynab_go.Payloads.Fields.{wire_state, update_entries_lem}
use ynab_go.Payloads.Patches.{marshal_patch_lem, check_patches-marshal_patch}

abbrev clear_memo : TransactionUpdate
clear_memo = record {
  account_id = unset;
  date = unset;
  amount = set (pos 1500);
  payee_id = unset;
  payee_name = unset;
  category_id = unset;
  memo = set_null;
  cleared = [];
  approved = unset;
  flag_color = unset;
}

abbrev patch : TransactionPatch
patch = record { id = codes "t1"; import_id = []; update = clear_memo }

abbrev sent : Map Bytes
sent =
    (codes "amount", codes "1500")
    ∷ (codes "memo", codes "null")
    ∷ (codes "id", quoted (codes "t1"))
    ∷ []

patch-sent : marshal_patch quoted patch ≡ some sent
unfolding marshal_patch insert bytes_eq format_int format_uint
patch-sent = refl

marshal_patch_lem_example :
    (lookup (codes "id") sent ≡ (if is_nil patch.id then none else some (quoted patch.id)))
    × ((lookup (codes "import_id") sent
          ≡ (if is_nil patch.id then some (quoted patch.import_id) else none))
        × ((codes "memo" ≡ codes "id")
            ⊎ ((codes "memo" ≡ codes "import_id")
                ⊎ (lookup (codes "memo") sent
                    ≡ lookup (codes "memo") (present (update_entries quoted patch.update))))))
marshal_patch_lem_example = marshal_patch_lem quoted patch sent (codes "memo") patch-sent

patch_checked : check_patches 0 (map checked_patch (patch ∷ [])) ≡ none
unfolding check_patches check_rune_max rune_count err_first get
patch_checked = refl

check_patches-marshal_patch_example : All (λ p. marshal_patch quoted p ≢ none) (patch ∷ [])
check_patches-marshal_patch_example = check_patches-marshal_patch quoted (patch ∷ []) patch_checked

update_entries_lem_example :
    let wire = λ (k : Bytes). lookup k (present (update_entries quoted clear_memo)) in
    (wire (codes "account_id") ≡ wire_state quoted clear_memo.account_id)
    × ((wire (codes "date") ≡ wire_state marshal_day clear_memo.date)
        × ((wire (codes "amount") ≡ wire_state format_int clear_memo.amount)
            × ((wire (codes "payee_id") ≡ wire_state quoted clear_memo.payee_id)
                × ((wire (codes "payee_name") ≡ wire_state quoted clear_memo.payee_name)
                    × ((wire (codes "category_id") ≡ wire_state quoted clear_memo.category_id)
                        × ((wire (codes "memo") ≡ wire_state quoted clear_memo.memo)
                            × ((wire (codes "cleared") ≡ nonempty quoted clear_memo.cleared)
                                × ((wire (codes "approved")
                                      ≡ wire_state encode_bool clear_memo.approved)
                                    × (wire (codes "flag_color")
                                        ≡ wire_state quoted clear_memo.flag_color)))))))))
update_entries_lem_example = update_entries_lem quoted clear_memo
