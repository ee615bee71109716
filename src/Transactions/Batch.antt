-- ===== src/Transactions/Batch.antt =====
-- The checks of a batch name its first refused element; a patch has one identity.
use ynab_go.Base.{ℕ, ◌+◌, ◌≡◌, ◌≢◌, none, some, List, [], ◌∷◌, ◌++◌, All, arith, codes, length}
use ynab_go.Errors.{ArgumentError}
use ynab_go.Transactions.{
  Spec, validate_spec, at_index, check_specs, Patch, identity, check_patches,
}

abbrev pub IsAccepted : Spec → Type 0
IsAccepted s = validate_spec (codes "Transactions.CreateBatch") s ≡ none

first_from :
    (i j : ℕ) (before : List Spec) (s : Spec) (after : List Spec) (e : ArgumentError)
    → i + length before ≡ j
    → All IsAccepted before
    → validate_spec (codes "Transactions.CreateBatch") s ≡ some e
    → check_specs i (before ++ s ∷ after) ≡ some (at_index (codes "spec") j e)
unfolding check_specs
first_from i j [] s after e at h bad =
    let here : i ≡ j = omega arith in rw here (ground (arith, bad))
first_from i j (b ∷ before) s after e at h bad =
    ground (arith, h.0, first_from (i + 1) j before s after e (omega arith) h.1 bad)

-- Before any I/O CreateBatch fails with the error of the first spec that is refused, its index
-- appended to the reason.
pub check_specs_first :
    (before : List Spec) (s : Spec) (after : List Spec) (e : ArgumentError)
    → All IsAccepted before
    → validate_spec (codes "Transactions.CreateBatch") s ≡ some e
    → check_specs 0 (before ++ s ∷ after) ≡ some (at_index (codes "spec") (length before) e)
check_specs_first before s after e h bad =
    first_from 0 (length before) before s after e (omega arith) h bad

abbrev pub HasIdentity : Patch → Type 0
HasIdentity p = identity p ≢ none

-- Where UpdateBatch's checks pass, every patch of the batch has an identity, so its MarshalJSON does
-- not fail for want of one.
pub check_patches-HasIdentity :
    (i : ℕ) (patches : List Patch) → check_patches i patches ≡ none → All HasIdentity patches
unfolding check_patches identity
check_patches-HasIdentity i [] h = tt
check_patches-HasIdentity i (p ∷ patches) h =
    (ground arith, check_patches-HasIdentity (i + 1) patches (ground arith))
