-- ===== src/Transactions/Tests.antt =====
-- The theorems at concrete payloads.
use ynab_go.Base.{◌≡◌, ◌↔◌, refl, none, some, List, [], ◌∷◌, map, arith, codes}
use ynab_go.Base.Int.{ℤ, pos, negsuc, ◌+ℤ◌}
use ynab_go.Base.Word.{wrap}
use ynab_go.Std.Utf8.{rune_count}
use ynab_go.Errors.{ArgumentError, check_rune_max, err_first}
use ynab_go.Milliunits.{split_even, add}
use ynab_go.Optional.{unset, set_null, get}
use ynab_go.Transactions.{
  Spec, Patch, patch_by_id, patch_by_import_id, validate_spec, check_splits, check_leg, check_head,
  check_opt_rune_max, check_patches, validate_patch, validate_update,
}
use ynab_go.Transactions.Valid.{
  IsValidHead, IsBalanced, plain_leg, validate_spec_iff, validate_spec-split_even,
}

abbrev rent : Spec
rent = record {
  amount = negsuc 99;
  import_id = unset;
  payee_name = unset;
  memo = set_null;
  splits = [];
}

-- Its only leg has another amount.
abbrev uneven : Spec
uneven = record rent { splits = plain_leg (pos 3) ∷ [] }

abbrev mismatch : ArgumentError
mismatch = record {
  op = codes "Transactions.CreateBatch";
  field = [];
  reason = codes "split amounts must sum exactly to Amount";
}

validate_spec_iff_example :
    (validate_spec (codes "op") uneven ≡ none)
    ↔ (IsValidHead uneven × IsBalanced (negsuc 99) (plain_leg (pos 3) ∷ []))
validate_spec_iff_example = validate_spec_iff (codes "op") uneven

validate_spec-split_even_example :
    (ps : List ℤ) × (split_even (negsuc 99) (pos 3) ≡ some ps)
    × (validate_spec (codes "op") (record rent { splits = map plain_leg ps }) ≡ none)
validate_spec-split_even_example =
    validate_spec-split_even (codes "op") rent 3 (tt, (tt, tt)) (omega arith) (omega arith)
      (omega arith)

rent_fine : validate_spec (codes "Transactions.CreateBatch") rent ≡ none
unfolding validate_spec check_head check_opt_rune_max get err_first
rent_fine = refl

uneven_refused : validate_spec (codes "Transactions.CreateBatch") uneven ≡ some mismatch
unfolding validate_spec check_head check_opt_rune_max get err_first check_splits check_leg add wrap
    ◌+ℤ◌
uneven_refused = refl

abbrev patches : List Patch
patches =
    patch_by_id (codes "t") (record { payee_name = unset; memo = unset })
    ∷ patch_by_import_id (codes "i") (record { payee_name = unset; memo = unset })
    ∷ []

patches_fine : check_patches 0 patches ≡ none
unfolding check_patches patch_by_id patch_by_import_id validate_patch validate_update
    check_opt_rune_max get err_first check_rune_max rune_count
patches_fine = refl
