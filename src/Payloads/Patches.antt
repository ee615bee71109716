-- ===== src/Payloads/Patches.antt =====
-- transactions.go: TransactionPatch.MarshalJSON, and the patches that UpdateBatch's checks let
-- through.
use ynab_go.Base.{
  ◌≡◌, ◌≢◌, ◌⊎◌, ◌∙◌, sym, ap, refl, Bool-cases, inl, inr, none, some, List, [], ◌∷◌, map, All,
  arith, Bytes, codes, bytes_eq, bytes_eq_iff, bytes_eq_self, is_nil, if◌then◌else◌,
}
use ynab_go.Std.Maps.{Map, lookup, insert, lookup-insert}
use ynab_go.Contract.{contains}
use ynab_go.Transactions.{check_patches, identity}
use ynab_go.Transactions.Batch.{HasIdentity, check_patches-HasIdentity}
use ynab_go.Payloads.{
  present, TransactionUpdate, update_entries, TransactionPatch, marshal_patch, checked_patch,
}
use ynab_go.Payloads.Fields.{lookup-present, keys, all_distinct-IsDistinct}

module _ (quote : Bytes → Bytes) where
  -- The update itself has no key of an identity.
  update-plain :
      (u : TransactionUpdate)
      → (lookup (codes "id") (present (update_entries quote u)) ≡ none)
        × (lookup (codes "import_id") (present (update_entries quote u)) ≡ none)
  unfolding update_entries lookup bytes_eq
  update-plain u =
      let distinct =
        all_distinct-IsDistinct (keys (update_entries quote u))
          (unfold contains bytes_eq in refl) in
      (
        lookup-present (codes "id") (update_entries quote u) distinct,
        lookup-present (codes "import_id") (update_entries quote u) distinct,
      )

  -- An object with one more key.
  inserted :
      (j v k : Bytes) (fields m : Map Bytes)
      → insert j v fields ≡ m
      → (k ≡ j) ⊎ (lookup k m ≡ lookup k fields)
  inserted j v k fields m e = elim (Bool-cases (bytes_eq k j)) [
    | inl hit ↦ inl ((bytes_eq_iff k j).0 hit)
    | inr miss ↦ inr (ap (λ x. lookup k x) (sym e) ∙ (lookup-insert k j v fields ∙ rw miss refl))
  ]

  at_key : (j v : Bytes) (fields m : Map Bytes) → insert j v fields ≡ m → lookup j m ≡ some v
  at_key j v fields m e =
      ap (λ x. lookup j x) (sym e) ∙ (lookup-insert j j v fields ∙ rw (bytes_eq_self j) refl)

  -- A patch that MarshalJSON encodes has exactly one identity key, `id` where its id is not empty
  -- and else `import_id`; every other key is as in its update.
  pub marshal_patch_lem :
      (p : TransactionPatch) (m : Map Bytes) (k : Bytes)
      → marshal_patch quote p ≡ some m
      → (lookup (codes "id") m ≡ (if is_nil p.id then none else some (quote p.id)))
        × ((lookup (codes "import_id") m ≡ (if is_nil p.id then some (quote p.import_id) else none))
            × ((k ≡ codes "id")
                ⊎ ((k ≡ codes "import_id")
                    ⊎ (lookup k m ≡ lookup k (present (update_entries quote p.update))))))
  unfolding marshal_patch bytes_eq
  marshal_patch_lem p m k h =
      let fields = present (update_entries quote p.update) in
      let plain = update-plain p.update in
      elim (Bool-cases (is_nil p.id)) [
        | inl no_id ↦ elim (Bool-cases (is_nil p.import_id)) [
          | inl nothing ↦ absurd (ground (arith, h, no_id, nothing))
          | inr some_import ↦
              let e : insert (codes "import_id") (quote p.import_id) fields ≡ m =
                ground (arith, h, no_id, some_import) in
              rw no_id (
                ap (λ x. lookup (codes "id") x) (sym e)
                    ∙ (lookup-insert (codes "id") (codes "import_id") (quote p.import_id) fields
                        ∙ plain.0),
                (
                  at_key (codes "import_id") (quote p.import_id) fields m e,
                  inr (inserted (codes "import_id") (quote p.import_id) k fields m e),
                ),
              )
        ]
        | inr some_id ↦
            let e : insert (codes "id") (quote p.id) fields ≡ m = ground (arith, h, some_id) in
            rw some_id (
              at_key (codes "id") (quote p.id) fields m e,
              (
                ap (λ x. lookup (codes "import_id") x) (sym e)
                    ∙ (lookup-insert (codes "import_id") (codes "id") (quote p.id) fields
                        ∙ plain.1),
                elim (inserted (codes "id") (quote p.id) k fields m e) [
                  | inl same ↦ inl same
                  | inr other ↦ inr (inr other)
                ],
              ),
            )
      ]

  -- Where UpdateBatch's checks pass, MarshalJSON encodes every patch of the batch.
  pub check_patches-marshal_patch :
      (patches : List TransactionPatch)
      → check_patches 0 (map checked_patch patches) ≡ none
      → All (λ p. marshal_patch quote p ≢ none) patches
  check_patches-marshal_patch patches h =
      encodes patches (check_patches-HasIdentity 0 (map checked_patch patches) h)
    where
      encodes :
          (ps : List TransactionPatch)
          → All HasIdentity (map checked_patch ps)
          → All (λ p. marshal_patch quote p ≢ none) ps
      encodes [] ok = tt
      encodes (p ∷ ps) ok = (unfold marshal_patch identity in ground (arith, ok.0), encodes ps ok.1)
