-- ===== src/Transactions/Valid.antt =====
-- What the checks of a transaction accept.
use ynab_go.Base.{
  ℕ, ◌+◌, ◌^◌, ◌≤◌, ◌<◌, ◌≡◌, ◌↔◌, ◌∙◌, refl, sym, ap, inl, inr, Option-cases, Option, none, some,
  List, [], ◌∷◌, map, All, arith, Bytes, is_nil, if◌then◌else◌,
}
use ynab_go.Base.Int.{ℤ, pos, ◌+ℤ◌, +ℤ_assoc}
use ynab_go.Base.Word.{wrap, wrap_id, wrap-IsInt64, IsInt64}
use ynab_go.Std.Utf8.{rune_count}
use ynab_go.Errors.{ArgumentError, check_rune_max, err_first}
use ynab_go.Milliunits.{add, split_even}
use ynab_go.Milliunits.Split.{sum, split_even-IsSplitOf}
use ynab_go.Optional.{Optional, unset, set_null, set, get}
use ynab_go.Transactions.{
  Leg, Spec, check_opt_rune_max, check_leg, check_splits, check_head, validate_spec, import_id_max,
  payee_name_max, memo_max, import_id_field, payee_name_field, memo_field,
}

-- A set text holds at most so many characters.
abbrev pub IsWithin : ℕ → Optional Bytes → Type 0
IsWithin limit unset = Unit
IsWithin limit set_null = Unit
IsWithin limit (set v) = rune_count v ≤ limit

pub check_opt_iff :
    (op field : Bytes) (o : Optional Bytes) (limit : ℕ)
    → (check_opt_rune_max op field o limit ≡ none) ↔ IsWithin limit o
unfolding check_opt_rune_max get check_rune_max
check_opt_iff op field unset limit = (λ h. tt, λ h. refl)
check_opt_iff op field set_null limit = (λ h. tt, λ h. refl)
check_opt_iff op field (set v) limit = (ground arith, ground arith)

abbrev pub IsValidLeg : Leg → Type 0
IsValidLeg leg = IsWithin payee_name_max leg.payee_name × IsWithin memo_max leg.memo

pub err_first_two :
    {A : Type 0} (a b : Option A) → (err_first (a ∷ b ∷ []) ≡ none) ↔ ((a ≡ none) × (b ≡ none))
unfolding err_first
err_first_two none none = (λ h. (refl, refl), λ h. refl)
err_first_two none (some b) = (ground arith, ground arith)
err_first_two (some a) b = (ground arith, ground arith)

pub err_first_three :
    {A : Type 0} (a b c : Option A)
    → (err_first (a ∷ b ∷ c ∷ []) ≡ none) ↔ ((a ≡ none) × ((b ≡ none) × (c ≡ none)))
unfolding err_first
err_first_three none b c = (λ h. (refl, (err_first_two b c).0 h), λ h. (err_first_two b c).1 h.1)
err_first_three (some a) b c = (ground arith, ground arith)

check_leg_iff : (op : Bytes) (leg : Leg) → (check_leg op leg ≡ none) ↔ IsValidLeg leg
unfolding check_leg
check_leg_iff op leg =
    let p = check_opt_iff op payee_name_field leg.payee_name payee_name_max in
    let m = check_opt_iff op memo_field leg.memo memo_max in
    let both =
      err_first_two (check_opt_rune_max op payee_name_field leg.payee_name payee_name_max)
        (check_opt_rune_max op memo_field leg.memo memo_max) in
    (λ h. (p.0 (both.0 h).0, m.0 (both.0 h).1), λ v. both.1 (p.1 v.0, m.1 v.1))

-- The sum of the legs as int64 addition takes it.
abbrev pub total : ℤ → List Leg → ℤ
total z [] = z
total z (leg ∷ legs) = total (add z leg.amount) legs

check_splits_iff :
    (op : Bytes) (amount : ℤ) (i : ℕ) (z : ℤ) (legs : List Leg)
    → (check_splits op amount i z legs ≡ none) ↔ (All IsValidLeg legs × (total z legs ≡ amount))
unfolding check_splits
check_splits_iff op amount i z [] = (ground arith, ground arith)
check_splits_iff op amount i z (leg ∷ legs) =
    let head = check_leg_iff op leg in
    let tail = check_splits_iff op amount (i + 1) (add z leg.amount) legs in
    elim (Option-cases (check_leg op leg)) [
      | inl fine ↦ (
        λ h. let t = tail.0 (ground arith) in ((head.0 fine, t.0), t.1),
        λ v. let t = tail.1 (v.0.1, v.1) in ground (arith, fine, t),
      )
      | inr (e, bad) ↦ (λ h. absurd (ground arith), λ v. absurd (clash (head.1 v.0.0) bad))
    ]
  where
    clash : {e : ArgumentError} → check_leg op leg ≡ none → check_leg op leg ≡ some e → ⊥
    clash p q = ground arith

-- What a spec must satisfy.
abbrev pub IsValidHead : Spec → Type 0
IsValidHead s =
    IsWithin import_id_max s.import_id
    × (IsWithin payee_name_max s.payee_name × IsWithin memo_max s.memo)

abbrev pub IsBalanced : ℤ → List Leg → Type 0
IsBalanced amount [] = Unit
IsBalanced amount (leg ∷ legs) = All IsValidLeg (leg ∷ legs) × (total (pos 0) (leg ∷ legs) ≡ amount)

check_head_iff : (op : Bytes) (s : Spec) → (check_head op s ≡ none) ↔ IsValidHead s
unfolding check_head
check_head_iff op s =
    let i = check_opt_iff op import_id_field s.import_id import_id_max in
    let p = check_opt_iff op payee_name_field s.payee_name payee_name_max in
    let m = check_opt_iff op memo_field s.memo memo_max in
    let all =
      err_first_three (check_opt_rune_max op import_id_field s.import_id import_id_max)
        (check_opt_rune_max op payee_name_field s.payee_name payee_name_max)
        (check_opt_rune_max op memo_field s.memo memo_max) in
    (
      λ h. (i.0 (all.0 h).0, (p.0 (all.0 h).1.0, m.0 (all.0 h).1.1)),
      λ v. all.1 (i.1 v.0, (p.1 v.1.0, m.1 v.1.1)),
    )

legs_iff :
    (op : Bytes) (amount : ℤ) (legs : List Leg)
    → ((if is_nil legs then none else check_splits op amount 0 (pos 0) legs) ≡ none)
      ↔ IsBalanced amount legs
legs_iff op amount [] = (λ h. tt, λ h. refl)
legs_iff op amount (leg ∷ legs) = check_splits_iff op amount 0 (pos 0) (leg ∷ legs)

-- `validate` accepts a spec exactly if its set texts are within their bounds and, where it has legs,
-- so are theirs and the int64 sum of their amounts is the spec's amount.
pub validate_spec_iff :
    (op : Bytes) (s : Spec)
    → (validate_spec op s ≡ none) ↔ (IsValidHead s × IsBalanced s.amount s.splits)
unfolding validate_spec
validate_spec_iff op s =
    let head = check_head_iff op s in
    let rest = legs_iff op s.amount s.splits in
    elim (Option-cases (check_head op s)) [
      | inl fine ↦ (
        λ h. (head.0 fine, rest.0 (ground (arith, fine))),
        λ v. let r = rest.1 v.1 in ground (arith, fine, r),
      )
      | inr (e, bad) ↦ (
        λ h. absurd (ground (arith, bad)),
        λ v. let f = head.1 v.0 in absurd (ground (arith, bad, f)),
      )
    ]

-- int64 sums may be wrapped at every step or once.
wrap_add : (a b : ℤ) → wrap (wrap a +ℤ b) ≡ wrap (a +ℤ b)
unfolding wrap ◌+ℤ◌
wrap_add a b = ground arith

+ℤ_zero : (a : ℤ) → a +ℤ pos 0 ≡ a
unfolding ◌+ℤ◌
+ℤ_zero a = ground arith

zero_+ℤ : (a : ℤ) → pos 0 +ℤ a ≡ a
unfolding ◌+ℤ◌
zero_+ℤ a = ground arith

-- A leg of an amount alone.
abbrev pub plain_leg : ℤ → Leg
plain_leg a = record { amount = a; payee_name = unset; memo = unset }

total_plain : (z : ℤ) (ps : List ℤ) → IsInt64 z → total z (map plain_leg ps) ≡ wrap (z +ℤ sum ps)
unfolding add
total_plain z [] h = sym (wrap_id z h) ∙ ap wrap (sym (+ℤ_zero z))
total_plain z (p ∷ ps) h =
    total_plain (wrap (z +ℤ p)) ps (wrap-IsInt64 (z +ℤ p))
    ∙ wrap_add (z +ℤ p) (sum ps)
    ∙ ap wrap (+ℤ_assoc z p (sum ps))

plain-All : (ps : List ℤ) → All IsValidLeg (map plain_leg ps)
plain-All [] = tt
plain-All (p ∷ ps) = ((tt, tt), plain-All ps)

plain_leg-IsBalanced :
    (amount : ℤ) (ps : List ℤ)
    → IsInt64 amount
    → sum ps ≡ amount
    → IsBalanced amount (map plain_leg ps)
plain_leg-IsBalanced amount [] h e = tt
plain_leg-IsBalanced amount (p ∷ ps) h e = (
  plain-All (p ∷ ps),
  total_plain (pos 0) (p ∷ ps) (omega arith)
      ∙ ap wrap (zero_+ℤ (sum (p ∷ ps)) ∙ e)
      ∙ wrap_id amount h,
)

-- A spec whose set texts are within their bounds, split into legs by SplitEven of its int64 amount
-- over n parts, 0 < n < 2^63, is accepted.
pub validate_spec-split_even :
    (op : Bytes) (s : Spec) (n : ℕ)
    → IsValidHead s
    → IsInt64 s.amount
    → 0 < n
    → n < 2 ^ 63
    → (ps : List ℤ) × (split_even s.amount (pos n) ≡ some ps)
      × (validate_spec op (record s { splits = map plain_leg ps }) ≡ none)
validate_spec-split_even op s n h i k l =
    let (ps, made, shape) = split_even-IsSplitOf s.amount n i k l in
    (
      ps,
      made,
      (validate_spec_iff op (record s { splits = map plain_leg ps })).1
          (h, plain_leg-IsBalanced s.amount ps i shape.1),
    )
