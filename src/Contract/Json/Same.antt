-- ===== src/Contract/Json/Same.antt =====
-- DiffJSON answers nothing exactly for equal documents.
use ynab_go.Base.{
  ℕ, suc, ◌≡◌, ◌↔◌, inl, inr, refl, subst, true, not, ◌&&◌, Bool-cases, &&-eq-true, Option-cases,
  some, List, [], ◌∷◌, ◌++◌, All, arith, Bytes, codes, is_nil, if◌then◌else◌,
}
use ynab_go.Contract.Params.{IsIn, append_iff}
use ynab_go.Contract.Json.{
  Json, null, boolean, number, text, array, object, Items, no_items, item, Members, no_members,
  member, key_paths, item_paths, member_paths, child_path, index_path, member_keys, member_at, size,
  deep_equal, equal_items, equal_members, Difference, missing_key, unexpected_key, values_differ,
  keys_not_in, diff_documents, sort,
}
use ynab_go.Contract.Json.Paths.{sort_iff, pigeonhole, keys_not_in_iff}
use ynab_go.Contract.Json.Under.{
  IsWell, IsWellItems, IsWellMembers, IsUnder, key_of, IsWell-member_at, IsUnder-head, IsUnder-tail,
  IsUnder-cases, at_path, member_of_path, keys_within,
}

-- Equal documents: every path of the first is one of the second.
mutual
  unfolding key_paths sort deep_equal

  same_paths :
      (a b : Json) (p q : Bytes)
      → deep_equal a b ≡ true
      → IsIn q (key_paths a p)
      → IsIn q (key_paths b p)
  same_paths null b p q e h = absurd h
  same_paths (boolean c) b p q e h = absurd h
  same_paths (number n) b p q e h = absurd h
  same_paths (text s) b p q e h = absurd h
  same_paths (array xs) null p q e h = absurd (ground (arith, e))
  same_paths (array xs) (boolean c) p q e h = absurd (ground (arith, e))
  same_paths (array xs) (number m) p q e h = absurd (ground (arith, e))
  same_paths (array xs) (text t) p q e h = absurd (ground (arith, e))
  same_paths (array xs) (array ys) p q e h =
      (sort_iff q (item_paths ys 0 p)).1
        (same_items xs ys 0 p q e ((sort_iff q (item_paths xs 0 p)).0 h))
  same_paths (array xs) (object ns) p q e h = absurd (ground (arith, e))
  same_paths (object ms) null p q e h = absurd (ground (arith, e))
  same_paths (object ms) (boolean c) p q e h = absurd (ground (arith, e))
  same_paths (object ms) (number m) p q e h = absurd (ground (arith, e))
  same_paths (object ms) (text t) p q e h = absurd (ground (arith, e))
  same_paths (object ms) (array ys) p q e h = absurd (ground (arith, e))
  same_paths (object ms) (object ns) p q e h =
      (sort_iff q (member_paths ns p)).1
        (same_members ms ns p q (ground (arith, e)) ((sort_iff q (member_paths ms p)).0 h))

  same_items :
      (xs ys : Items) (i : ℕ) (p q : Bytes)
      → equal_items xs ys ≡ true
      → IsIn q (item_paths xs i p)
      → IsIn q (item_paths ys i p)
  same_items no_items ys i p q e h = absurd h
  same_items (item x xs) no_items i p q e h = absurd (ground (arith, e))
  same_items (item x xs) (item y ys) i p q e h =
      let both = &&-eq-true (deep_equal x y) (equal_items xs ys) e in
      let split = append_iff q (key_paths x (index_path p i)) (item_paths xs (suc i) p) in
      let join = append_iff q (key_paths y (index_path p i)) (item_paths ys (suc i) p) in
      join.1 (elim (split.0 h) [
        | inl here ↦ inl (same_paths x y (index_path p i) q both.0 here)
        | inr later ↦ inr (same_items xs ys (suc i) p q both.1 later)
      ])

  same_members :
      (ms ns : Members) (p q : Bytes)
      → equal_members ms ns ≡ true
      → IsIn q (member_paths ms p)
      → IsIn q (member_paths ns p)
  same_members no_members ns p q e h = absurd h
  same_members (member k v ms) ns p q e h = elim (Option-cases (member_at k ns)) [
    | inl lacking ↦ absurd (ground (arith, lacking, e))
    | inr (w, found) ↦
        let equal : deep_equal v w ≡ true = ground (arith, found, e) in
        elim (IsUnder-cases p k v ms q h) [
          | inl here ↦ at_path ns k w p q found (elim here [
            | inl own ↦ inl own
            | inr under ↦ inr (same_paths v w (child_path p k) q equal under)
          ])
          | inr later ↦ same_members ms ns p q (ground (arith, found, e)) later
        ]
  ]

-- And back, where no key stands twice.
mutual
  unfolding key_paths sort deep_equal IsWell

  back_paths :
      (a b : Json) (p q : Bytes)
      → IsWell a
      → IsWell b
      → deep_equal a b ≡ true
      → IsIn q (key_paths b p)
      → IsIn q (key_paths a p)
  back_paths null null p q da db e h = absurd h
  back_paths null (boolean c) p q da db e h = absurd h
  back_paths null (number m) p q da db e h = absurd h
  back_paths null (text t) p q da db e h = absurd h
  back_paths null (array ys) p q da db e h = absurd (ground (arith, e))
  back_paths null (object ns) p q da db e h = absurd (ground (arith, e))
  back_paths (boolean b) null p q da db e h = absurd h
  back_paths (boolean b) (boolean c) p q da db e h = absurd h
  back_paths (boolean b) (number m) p q da db e h = absurd h
  back_paths (boolean b) (text t) p q da db e h = absurd h
  back_paths (boolean b) (array ys) p q da db e h = absurd (ground (arith, e))
  back_paths (boolean b) (object ns) p q da db e h = absurd (ground (arith, e))
  back_paths (number n) null p q da db e h = absurd h
  back_paths (number n) (boolean c) p q da db e h = absurd h
  back_paths (number n) (number m) p q da db e h = absurd h
  back_paths (number n) (text t) p q da db e h = absurd h
  back_paths (number n) (array ys) p q da db e h = absurd (ground (arith, e))
  back_paths (number n) (object ns) p q da db e h = absurd (ground (arith, e))
  back_paths (text s) null p q da db e h = absurd h
  back_paths (text s) (boolean c) p q da db e h = absurd h
  back_paths (text s) (number m) p q da db e h = absurd h
  back_paths (text s) (text t) p q da db e h = absurd h
  back_paths (text s) (array ys) p q da db e h = absurd (ground (arith, e))
  back_paths (text s) (object ns) p q da db e h = absurd (ground (arith, e))
  back_paths (array xs) null p q da db e h = absurd h
  back_paths (array xs) (boolean c) p q da db e h = absurd h
  back_paths (array xs) (number m) p q da db e h = absurd h
  back_paths (array xs) (text t) p q da db e h = absurd h
  back_paths (array xs) (array ys) p q da db e h =
      (sort_iff q (item_paths xs 0 p)).1
        (back_items xs ys 0 p q da db e ((sort_iff q (item_paths ys 0 p)).0 h))
  back_paths (array xs) (object ns) p q da db e h = absurd (ground (arith, e))
  back_paths (object ms) null p q da db e h = absurd h
  back_paths (object ms) (boolean c) p q da db e h = absurd h
  back_paths (object ms) (number m) p q da db e h = absurd h
  back_paths (object ms) (text t) p q da db e h = absurd h
  back_paths (object ms) (array ys) p q da db e h = absurd (ground (arith, e))
  back_paths (object ms) (object ns) p q da db e h =
      let sizes : size (member_keys ms) ≡ size (member_keys ns) = ground (arith, e) in
      let equal : equal_members ms ns ≡ true = ground (arith, e) in
      let (k, (w, (found, i))) =
        member_of_path ns p q db.0 ((sort_iff q (member_paths ns p)).0 h) in
      let key : IsIn k (member_keys ms) =
        pigeonhole (member_keys ms) (member_keys ns) k da.0 (keys_within ms ns equal) sizes
          (key_of k w ns found) in
      (sort_iff q (member_paths ms p)).1
        (back_members ms ns k w p q da.1 (IsWell-member_at k w ns db.1 found) equal key found i)

  back_items :
      (xs ys : Items) (i : ℕ) (p q : Bytes)
      → IsWellItems xs
      → IsWellItems ys
      → equal_items xs ys ≡ true
      → IsIn q (item_paths ys i p)
      → IsIn q (item_paths xs i p)
  back_items no_items no_items i p q da db e h = absurd h
  back_items no_items (item y ys) i p q da db e h = absurd (ground (arith, e))
  back_items (item x xs) no_items i p q da db e h = absurd h
  back_items (item x xs) (item y ys) i p q da db e h =
      let both = &&-eq-true (deep_equal x y) (equal_items xs ys) e in
      let join = append_iff q (key_paths x (index_path p i)) (item_paths xs (suc i) p) in
      let split = append_iff q (key_paths y (index_path p i)) (item_paths ys (suc i) p) in
      join.1 (elim (split.0 h) [
        | inl here ↦ inl (back_paths x y (index_path p i) q da.0 db.0 both.0 here)
        | inr later ↦ inr (back_items xs ys (suc i) p q da.1 db.1 both.1 later)
      ])

  back_members :
      (ms ns : Members) (k : Bytes) (w : Json) (p q : Bytes)
      → IsWellMembers ms
      → IsWell w
      → equal_members ms ns ≡ true
      → IsIn k (member_keys ms)
      → member_at k ns ≡ some w
      → IsUnder p k w q
      → IsIn q (member_paths ms p)
  back_members no_members ns k w p q da dw e i found u = absurd i
  back_members (member j v ms) ns k w p q da dw e (inl same) found u =
      let there : member_at j ns ≡ some w = subst (λ x. member_at x ns ≡ some w) same found in
      let equal : deep_equal v w ≡ true = ground (arith, there, e) in
      IsUnder-head p j v ms q (elim (subst (λ x. IsUnder p x w q) same u) [
        | inl own ↦ inl own
        | inr under ↦ inr (back_paths v w (child_path p j) q da.0 dw equal under)
      ])
  back_members (member j v ms) ns k w p q da dw e (inr later) found u =
      IsUnder-tail p j v ms q (back_members ms ns k w p q da.1 dw (ground (arith, e)) later found u)

All-from : (xs ys : List Bytes) → ((q : Bytes) → IsIn q xs → IsIn q ys) → All (λ q. IsIn q ys) xs
All-from [] ys f = tt
All-from (x ∷ xs) ys f = (f x (inl refl), All-from xs ys (λ q. λ i. f q (inr i)))

-- For two documents in which no object has a key twice, the comparison finds nothing exactly if the
-- documents are deeply equal: the key paths of equal documents agree at every level.
pub diff_documents_iff :
    (e a : Json) → IsWell e → IsWell a → (diff_documents e a ≡ []) ↔ (deep_equal e a ≡ true)
unfolding diff_documents
diff_documents_iff e a de da =
    let exp_keys = key_paths e (codes "$") in
    let act_keys = key_paths a (codes "$") in
    let missing = keys_not_in_iff missing_key exp_keys act_keys in
    let extra = keys_not_in_iff unexpected_key act_keys exp_keys in
    elim (Bool-cases (deep_equal e a)) [
      | inl same ↦
          let m =
            missing.1
              (All-from exp_keys act_keys (λ q. λ i. same_paths e a (codes "$") q same i)) in
          let x =
            extra.1
              (All-from act_keys exp_keys (λ q. λ i. back_paths e a (codes "$") q de da same i)) in
          (λ h. same, λ h. rw (m, x, same) refl)
      | inr other ↦ (
        λ h. absurd (
            differs
              (keys_not_in missing_key exp_keys act_keys
                ++ keys_not_in unexpected_key act_keys exp_keys)
              (subst
                (λ b.
                  (if is_nil (
                        keys_not_in missing_key exp_keys act_keys
                        ++ keys_not_in unexpected_key act_keys exp_keys)
                      && not b
                    then (keys_not_in missing_key exp_keys act_keys
                        ++ keys_not_in unexpected_key act_keys exp_keys)
                      ++ (values_differ ∷ [])
                    else keys_not_in missing_key exp_keys act_keys
                      ++ keys_not_in unexpected_key act_keys exp_keys)
                  ≡ [])
                other h)),
        λ h. absurd (ground (arith, h, other)),
      )
    ]
  where
    differs :
        (problems : List Difference)
        → ¬ ((if is_nil problems && true then problems ++ (values_differ ∷ []) else problems) ≡ [])
    differs [] h = absurd (ground arith)
    differs (x ∷ xs) h = absurd (ground arith)
