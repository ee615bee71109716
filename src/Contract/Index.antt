-- ===== src/Contract/Index.antt =====
-- The maps byIDTable and byIDSpec, and the duplicates that filling them finds.
use ynab_go.Base.{
  ◌≡◌, ◌≢◌, ◌↔◌, ◌⊎◌, inl, inr, refl, sym, ◌∙◌, ap, true, false, Bool-cases, Option-cases, none,
  some, List, [], ◌∷◌, map, All, arith, Bytes, bytes_eq, bytes_eq_iff, bytes_eq_self,
}
use ynab_go.Std.Maps.{Map, lookup, insert, lookup-insert}
use ynab_go.Contract.{Problem, duplicates, index}
use ynab_go.Contract.Params.{IsIn}

-- No text occurs twice.
abbrev pub IsDistinct : List Bytes → Type 0
IsDistinct [] = Unit
IsDistinct (k ∷ ks) = (¬ IsIn k ks) × IsDistinct ks

-- An element of a list.
abbrev pub IsElement : {V : Type 0} → V → List V → Type 0
IsElement v [] = ⊥
IsElement v (x ∷ xs) = (v ≡ x) ⊎ IsElement v xs

module _ {V : Type 0} (key : V → Bytes) where
  abbrev pub IsFreshIn : Map V → List V → Type 0
  IsFreshIn m = All (λ x. lookup (key x) m ≡ none)

  insert-none :
      (k : Bytes) (x : V) (m : Map V)
      → (lookup k (insert (key x) x m) ≡ none) ↔ ((k ≢ key x) × (lookup k m ≡ none))
  insert-none k x m =
      let step = lookup-insert k (key x) x m in
      let same = bytes_eq_iff k (key x) in
      elim (Bool-cases (bytes_eq k (key x))) [
        | inl hit ↦ (λ h. absurd (ground (arith, step, hit)), λ h. absurd (h.0 (same.0 hit)))
        | inr miss ↦ (
          λ h. (
            λ e. let f = same.1 e in absurd (ground (arith, f, miss)),
            ground (arith, step, miss),
          ),
          λ h. let n = h.1 in ground (arith, step, miss, n),
        )
      ]

  fresh_iff :
      (x : V) (m : Map V) (xs : List V)
      → IsFreshIn (insert (key x) x m) xs ↔ ((¬ IsIn (key x) (map key xs)) × IsFreshIn m xs)
  fresh_iff x m [] = (λ h. (λ i. i, tt), λ h. tt)
  fresh_iff x m (y ∷ ys) =
      let rest = fresh_iff x m ys in
      let here = insert-none (key y) x m in
      (
        λ h. (
          λ i. elim i [ inl e ↦ (here.0 h.0).0 (sym e) | inr j ↦ (rest.0 h.1).0 j ],
          ((here.0 h.0).1, (rest.0 h.1).1),
        ),
        λ h. (here.1 ((λ e. h.0 (inl (sym e))), h.1.0), rest.1 ((λ j. h.0 (inr j)), h.1.1)),
      )

  -- A loop finds no duplicate exactly if its keys are new to the map and distinct.
  duplicates_iff :
      (report : Bytes → Problem) (m : Map V) (xs : List V)
      → (duplicates key report m xs ≡ []) ↔ (IsFreshIn m xs × IsDistinct (map key xs))
  unfolding duplicates
  duplicates_iff report m [] = (λ h. (tt, tt), λ h. refl)
  duplicates_iff report m (x ∷ xs) =
      let rest = duplicates_iff report (insert (key x) x m) xs in
      let fresh = fresh_iff x m xs in
      elim (Option-cases (lookup (key x) m)) [
        | inl free ↦ (
          λ h.
              let r = rest.0 (ground (arith, free)) in
              let f = fresh.0 r.0 in ((free, f.1), (f.0, r.1)),
          λ h. let r = rest.1 (fresh.1 (h.1.0, h.0.1), h.1.1) in ground (arith, free, r),
        )
        | inr (y, taken) ↦ (
          λ h. absurd (ground (arith, taken)),
          λ h. let f = h.0.0 in absurd (ground (arith, taken, f)),
        )
      ]

  all_fresh : (xs : List V) → IsFreshIn [] xs
  unfolding lookup
  all_fresh [] = tt
  all_fresh (x ∷ xs) = (refl, all_fresh xs)

  pub duplicates-IsDistinct :
      (report : Bytes → Problem) (xs : List V)
      → (duplicates key report [] xs ≡ []) ↔ IsDistinct (map key xs)
  duplicates-IsDistinct report xs =
      let both = duplicates_iff report [] xs in (λ h. (both.0 h).1, λ h. both.1 (all_fresh xs, h))

  -- Where the map has an entry, it is an element with that key, or was there.
  index_sound :
      (k : Bytes) (v : V) (m : Map V) (xs : List V)
      → lookup k (index key m xs) ≡ some v
      → (IsElement v xs × (key v ≡ k)) ⊎ (lookup k m ≡ some v)
  unfolding index
  index_sound k v m [] h = inr h
  index_sound k v m (x ∷ xs) h = elim (index_sound k v (insert (key x) x m) xs h) [
    | inl found ↦ inl (inr found.0, found.1)
    | inr before ↦ elim (Bool-cases (bytes_eq k (key x))) [
      | inl hit ↦
          let e : v ≡ x = ground (arith, lookup-insert k (key x) x m, hit) in
          inl (inl e, ap key e ∙ sym ((bytes_eq_iff k (key x)).0 hit))
      | inr miss ↦ inr (ground (arith, lookup-insert k (key x) x m, miss))
    ]
  ]

  index_old :
      (k : Bytes) (m : Map V) (xs : List V)
      → ¬ IsIn k (map key xs)
      → lookup k (index key m xs) ≡ lookup k m
  unfolding index
  index_old k m [] h = refl
  index_old k m (x ∷ xs) h =
      index_old k (insert (key x) x m) xs (λ i. h (inr i))
      ∙ missed (Bool-cases (bytes_eq k (key x)))
    where
      missed :
          (bytes_eq k (key x) ≡ true) ⊎ (bytes_eq k (key x) ≡ false)
          → lookup k (insert (key x) x m) ≡ lookup k m
      missed (inl hit) = absurd (h (inl ((bytes_eq_iff k (key x)).0 hit)))
      missed (inr miss) = lookup-insert k (key x) x m ∙ rw miss refl

  index_complete :
      (v : V) (m : Map V) (xs : List V)
      → IsDistinct (map key xs)
      → IsElement v xs
      → lookup (key v) (index key m xs) ≡ some v
  unfolding index
  index_complete v m [] d i = absurd i
  index_complete v m (x ∷ xs) d (inl e) = rw e (
      index_old (key x) (insert (key x) x m) xs d.0
      ∙ lookup-insert (key x) (key x) x m
      ∙ rw (bytes_eq_self (key x)) refl)
  index_complete v m (x ∷ xs) d (inr i) = index_complete v (insert (key x) x m) xs d.1 i

  -- With distinct keys the map holds under a key exactly the element with that key.
  pub index_iff :
      (k : Bytes) (v : V) (xs : List V)
      → IsDistinct (map key xs)
      → (lookup k (index key [] xs) ≡ some v) ↔ (IsElement v xs × (key v ≡ k))
  unfolding lookup
  index_iff k v xs d = (
    λ h. elim (index_sound k v [] xs h) [ inl found ↦ found | inr before ↦ absurd (ground arith) ],
    λ h. ap (λ j. lookup j (index key [] xs)) (sym h.1) ∙ index_complete v [] xs d h.0,
  )
