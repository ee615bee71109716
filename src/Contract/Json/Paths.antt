-- ===== src/Contract/Json/Paths.antt =====
-- What stands in a sorted list, and lists of distinct texts of one length.
use ynab_go.Base.{
  suc, ◌≡◌, ◌≢◌, ◌↔◌, ◌⊎◌, inl, inr, refl, sym, ◌∙◌, ap, Bool-cases, List, [], ◌∷◌, All, arith,
  Bytes, bytes_eq, bytes_eq_iff, if◌then◌else◌,
}
use ynab_go.Contract.{contains}
use ynab_go.Contract.Params.{IsIn, contains_iff}
use ynab_go.Contract.Index.{IsDistinct}
use ynab_go.Contract.Json.{insert_sorted, sort, size, less, Difference, keys_not_in}

insert_sorted_iff :
    (q x : Bytes) (ys : List Bytes) → IsIn q (insert_sorted x ys) ↔ ((q ≡ x) ⊎ IsIn q ys)
unfolding insert_sorted
insert_sorted_iff q x [] = (λ h. h, λ h. h)
insert_sorted_iff q x (y ∷ ys) =
    let rest = insert_sorted_iff q x ys in
    elim (Bool-cases (less y x)) [
      | inl later ↦ rw later (
        λ h. elim h [
          | inl first ↦ inr (inl first)
          | inr i ↦ elim (rest.0 i) [ inl e ↦ inl e | inr j ↦ inr (inr j) ]
        ],
        λ h. elim h [
          | inl e ↦ inr (rest.1 (inl e))
          | inr i ↦ elim i [ inl first ↦ inl first | inr j ↦ inr (rest.1 (inr j)) ]
        ],
      )
      | inr now ↦ rw now (λ h. h, λ h. h)
    ]

-- Sorting keeps what is there.
pub sort_iff : (q : Bytes) (xs : List Bytes) → IsIn q (sort xs) ↔ IsIn q xs
unfolding sort
sort_iff q [] = (λ h. h, λ h. h)
sort_iff q (x ∷ xs) =
    let rest = sort_iff q xs in
    let here = insert_sorted_iff q x (sort xs) in
    (
      λ h. elim (here.0 h) [ inl e ↦ inl e | inr i ↦ inr (rest.0 i) ],
      λ h. here.1 (elim h [ inl e ↦ inl e | inr i ↦ inr (rest.1 i) ]),
    )

-- The list without the first k.
abbrev remove : Bytes → List Bytes → List Bytes
remove k [] = []
remove k (j ∷ js) = let rest = remove k js in if bytes_eq k j then js else j ∷ rest

size-remove : (k : Bytes) (js : List Bytes) → IsIn k js → size js ≡ suc (size (remove k js))
size-remove k [] i = absurd i
size-remove k (j ∷ js) i = elim (Bool-cases (bytes_eq k j)) [
  | inl hit ↦ rw hit refl
  | inr miss ↦ elim i [
    | inl e ↦ let b = (bytes_eq_iff k j).1 e in absurd (ground (arith, b, miss))
    | inr later ↦ rw miss (ap suc (size-remove k js later))
  ]
]

remove_other : (k q : Bytes) (js : List Bytes) → IsIn q js → q ≢ k → IsIn q (remove k js)
remove_other k q [] i other = i
remove_other k q (j ∷ js) i other = elim (Bool-cases (bytes_eq k j)) [
  | inl hit ↦
      rw hit
        (elim i [ inl e ↦ absurd (other (e ∙ sym ((bytes_eq_iff k j).0 hit))) | inr later ↦ later ])
  | inr miss ↦
      rw miss (elim i [ inl e ↦ inl e | inr later ↦ inr (remove_other k q js later other) ])
]

remove_back : (k q : Bytes) (js : List Bytes) → IsIn q js → (q ≡ k) ⊎ IsIn q (remove k js)
remove_back k q js i = elim (Bool-cases (bytes_eq q k)) [
  | inl hit ↦ inl ((bytes_eq_iff q k).0 hit)
  | inr miss ↦ inr (
      remove_other k q js i
        (λ e. let b = (bytes_eq_iff q k).1 e in absurd (ground (arith, b, miss))))
]

others_remain :
    (k : Bytes) (ks js : List Bytes)
    → ¬ IsIn k ks
    → All (λ q. IsIn q js) ks
    → All (λ q. IsIn q (remove k js)) ks
others_remain k [] js fresh h = tt
others_remain k (q ∷ ks) js fresh h = (
  remove_other k q js h.0 (λ e. fresh (inl (sym e))),
  others_remain k ks js (λ i. fresh (inr i)) h.1,
)

-- Distinct texts that all stand in a list of the same size are all of it.
pub pigeonhole :
    (ks js : List Bytes) (q : Bytes)
    → IsDistinct ks
    → All (λ k. IsIn k js) ks
    → size ks ≡ size js
    → IsIn q js
    → IsIn q ks
pigeonhole [] [] q d h e i = i
pigeonhole [] (j ∷ js) q d h e i = absurd (omega (arith, e))
pigeonhole (k ∷ ks) js q d h e i = elim (remove_back k q js i) [
  | inl same ↦ inl same
  | inr later ↦ inr (
      pigeonhole ks (remove k js) q d.1 (others_remain k ks js d.0 h.1)
        (omega (arith, e, size-remove k js h.0)) later)
]

-- No key is missing exactly if every one stands in the other list.
pub keys_not_in_iff :
    (report : Bytes → Difference) (ks others : List Bytes)
    → (keys_not_in report ks others ≡ []) ↔ All (λ k. IsIn k others) ks
unfolding keys_not_in
keys_not_in_iff report [] others = (λ h. tt, λ h. refl)
keys_not_in_iff report (k ∷ ks) others =
    let rest = keys_not_in_iff report ks others in
    let here = contains_iff others k in
    elim (Bool-cases (contains others k)) [
      | inl found ↦ (
        λ h. (here.0 found, rest.0 (ground (arith, found))),
        λ h. let r = rest.1 h.1 in ground (arith, found, r),
      )
      | inr missing ↦ (
        λ h. absurd (ground (arith, missing)),
        λ h. let f = here.1 h.0 in absurd (ground (arith, missing, f)),
      )
    ]
