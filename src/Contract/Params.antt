-- ===== src/Contract/Params.antt =====
-- diffParams and slices.Contains: which differences of two parameter sets are found.
use ynab_go.Base.{
  ◌≡◌, ◌↔◌, ◌⊎◌, inl, inr, refl, true, Bool-cases, List, [], ◌∷◌, ◌++◌, All, arith, Bytes, bytes_eq,
  bytes_eq_iff,
}
use ynab_go.Contract.{Problem, illegal_param, missing_param, contains, params_not_in, diff_params}

-- The text stands in the list.
abbrev pub IsIn : Bytes → List Bytes → Type 0
IsIn p [] = ⊥
IsIn p (q ∷ qs) = (p ≡ q) ⊎ IsIn p qs

pub append_iff : (p : Bytes) (xs ys : List Bytes) → IsIn p (xs ++ ys) ↔ (IsIn p xs ⊎ IsIn p ys)
append_iff p [] ys = (λ h. inr h, λ h. elim h [ inl nowhere ↦ absurd nowhere | inr later ↦ later ])
append_iff p (x ∷ xs) ys =
    let rest = append_iff p xs ys in
    (
      λ h. elim h [
        | inl same ↦ inl (inl same)
        | inr later ↦ elim (rest.0 later) [ inl a ↦ inl (inr a) | inr b ↦ inr b ]
      ],
      λ h. elim h [
        | inl front ↦ elim front [ inl same ↦ inl same | inr a ↦ inr (rest.1 (inl a)) ]
        | inr b ↦ inr (rest.1 (inr b))
      ],
    )

pub contains_iff : (qs : List Bytes) (p : Bytes) → (contains qs p ≡ true) ↔ IsIn p qs
unfolding contains
contains_iff [] p = (λ h. absurd (ground arith), λ h. absurd h)
contains_iff (q ∷ qs) p =
    let rest = contains_iff qs p in
    let head = bytes_eq_iff p q in
    (
      λ h. elim (Bool-cases (bytes_eq p q)) [
        | inl same ↦ inl (head.0 same)
        | inr other ↦ inr (rest.0 (ground (arith, other)))
      ],
      λ h. elim h [
        | inl same ↦ let e = head.1 same in ground (arith, e)
        | inr later ↦ let e = rest.1 later in ground (arith, e)
      ],
    )

-- Every text of one list stands in the other.
abbrev pub IsWithinOf : List Bytes → List Bytes → Type 0
IsWithinOf others = All (λ p. IsIn p others)

pub not_in_iff :
    (report : Bytes → Problem) (ps others : List Bytes)
    → (params_not_in report ps others ≡ []) ↔ IsWithinOf others ps
unfolding params_not_in
not_in_iff report [] others = (λ h. tt, λ h. refl)
not_in_iff report (p ∷ ps) others =
    let rest = not_in_iff report ps others in
    let here = contains_iff others p in
    elim (Bool-cases (contains others p)) [
      | inl found ↦ (
        λ h. (here.0 found, rest.0 (ground (arith, found))),
        λ h. let r = rest.1 h.1 in ground (arith, found, r),
      )
      | inr missing ↦ (
        λ h. absurd (ground (arith, missing)),
        λ h. let f = here.1 h.0 in absurd (ground (arith, missing, f)),
      )
    ]

pub append_nil_iff : {A : Type 0} (xs ys : List A) → (xs ++ ys ≡ []) ↔ ((xs ≡ []) × (ys ≡ []))
append_nil_iff [] ys = (λ h. (refl, h), λ h. h.1)
append_nil_iff (x ∷ xs) ys = (λ h. absurd (ground arith), λ h. absurd (ground arith))

-- The comparison of the query parameters of an operation finds no problem exactly if every parameter
-- of the table stands in the specification and every one of the specification in the table.
pub diff_params_iff :
    (id : Bytes) (table spec : List Bytes)
    → (diff_params id table spec ≡ []) ↔ (IsWithinOf spec table × IsWithinOf table spec)
unfolding diff_params
diff_params_iff id table spec =
    let both =
      append_nil_iff (params_not_in (illegal_param id) table spec)
        (params_not_in (missing_param id) spec table) in
    let a = not_in_iff (illegal_param id) table spec in
    let b = not_in_iff (missing_param id) spec table in
    (λ h. (a.0 (both.0 h).0, b.0 (both.0 h).1), λ h. both.1 (a.1 h.0, b.1 h.1))
