-- ===== src/Milliunits/Split.antt =====
-- SplitEven: the parts sum to the amount and differ by at most one milliunit.
use native.Mathlib.Nat.{div-add-mod}
use ynab_go.Base.{
  ℕ, zero, suc, ◌+◌, ◌-◌, ◌*◌, ◌/◌, ◌%◌, ◌^◌, ◌≤◌, ◌<◌, min, ◌≡◌, refl, ap, inl, inr, some, List,
  [], ◌∷◌, arith, All, length, ltb, Bool-cases,
}
use ynab_go.Base.Int.{ℤ, pos, negsuc, sub_ℕ, ◌+ℤ◌, ◌≤ℤ◌, +ℤ_parts, eq_of_parts, int_laws, ltb_ℤ}
use ynab_go.Base.Word.{wrap, IsInt64}
use ynab_go.Milliunits.{add, abs, neg, quo, rem, fill, step_of, split_even}

-- The exact sum.
abbrev pub sum : List ℤ → ℤ
sum [] = pos 0
sum (p ∷ ps) = p +ℤ sum ps

length-fill : (k i : ℕ) (q e s : ℤ) → length (fill k i q e s) ≡ k
unfolding fill
length-fill zero i q e s = refl
length-fill (suc k) i q e s = ap suc (length-fill k (i + 1) q e s)

-- Every part is the quotient, or one step from it where there is a remainder.
fill-All :
    (P : ℤ → Type 0) (k i e : ℕ) (q s : ℤ)
    → P q
    → (0 < e → P (add q s))
    → All P (fill k i q (pos e) s)
unfolding fill
fill-All P zero i e q s h g = tt
fill-All P (suc k) i e q s h g = elim (Bool-cases (ltb_ℤ (pos i) (pos e))) [
  | inl more ↦ rw more (g (ground arith), fill-All P k (i + 1) e q s h g)
  | inr done ↦ rw done (h, fill-All P k (i + 1) e q s h g)
]

-- Past the remainder every part is the quotient.
fill_flat : (k i q e : ℕ) (s : ℤ) → e ≤ i → sum (fill k i (pos q) (pos e) s) ≡ pos (k * q)
unfolding fill
fill_flat zero i q e s h = ground arith
fill_flat (suc k) i q e s h = grind (arith, fill_flat k (i + 1) q e s, +ℤ_parts, eq_of_parts)

fill_flat_neg :
    (k i q e : ℕ) (s : ℤ) → e ≤ i → sum (fill k i (sub_ℕ 0 q) (pos e) s) ≡ sub_ℕ 0 (k * q)
unfolding fill
fill_flat_neg zero i q e s h = ground arith
fill_flat_neg (suc k) i q e s h =
    grind (arith, fill_flat_neg k (i + 1) q e s, +ℤ_parts, eq_of_parts)

-- Where a step stays exact, the sum is k quotients and one step for each index below the remainder.
fill_up :
    (k i q e : ℕ) (s : ℤ)
    → add (pos q) s ≡ pos (q + 1)
    → sum (fill k i (pos q) (pos e) s) ≡ pos (k * q + min k (e - i))
unfolding fill
fill_up zero i q e s h = ground arith
fill_up (suc k) i q e s h = grind (arith, fill_up k (i + 1) q e s h, +ℤ_parts, eq_of_parts)

fill_down :
    (k i q e : ℕ) (s : ℤ)
    → add (sub_ℕ 0 q) s ≡ negsuc q
    → sum (fill k i (sub_ℕ 0 q) (pos e) s) ≡ sub_ℕ 0 (k * q + min k (e - i))
unfolding fill
fill_down zero i q e s h = ground arith
fill_down (suc k) i q e s h = grind (arith, fill_down k (i + 1) q e s h, +ℤ_parts, eq_of_parts)

-- A quotient with a remainder has room for one more.
quotient_room : (a n : ℕ) → 0 < a % suc n → a / suc n < a
quotient_room a n h = grind (arith, div-add-mod a (suc n))

add_one : (q : ℕ) → q + 1 < 2 ^ 63 → add (pos q) (pos 1) ≡ pos (q + 1)
unfolding add wrap ◌+ℤ◌
add_one q h = ground arith

sub_one : (q : ℕ) → q < 2 ^ 63 → add (sub_ℕ 0 q) (negsuc 0) ≡ negsuc q
unfolding add wrap ◌+ℤ◌
sub_one q h = ground arith

fill_parts :
    (a n : ℕ)
    → a < 2 ^ 63
    → sum (fill (suc n) 0 (pos (a / suc n)) (pos (a % suc n)) (pos 1)) ≡ pos a
fill_parts a n h = elim (Bool-cases (ltb 0 (a % suc n))) [
  | inl left ↦ grind (
    arith,
    fill_up (suc n) 0 (a / suc n) (a % suc n) (pos 1),
    add_one (a / suc n),
    quotient_room a n,
    div-add-mod a (suc n),
  )
  | inr exact ↦
      grind (arith, fill_flat (suc n) 0 (a / suc n) (a % suc n) (pos 1), div-add-mod a (suc n))
]

fill_parts_neg :
    (a n : ℕ) (s : ℤ)
    → suc a ≤ 2 ^ 63
    → (0 < suc a % suc n → s ≡ negsuc 0)
    → sum (fill (suc n) 0 (sub_ℕ 0 (suc a / suc n)) (pos (suc a % suc n)) s) ≡ negsuc a
fill_parts_neg a n s h hs = elim (Bool-cases (ltb 0 (suc a % suc n))) [
  | inl left ↦
      let e : s ≡ negsuc 0 = hs (ground arith) in
      rw e (
        grind (
          arith,
          fill_down (suc n) 0 (suc a / suc n) (suc a % suc n) (negsuc 0),
          sub_one (suc a / suc n),
          quotient_room (suc a) n,
          div-add-mod (suc a) (suc n),
        ))
  | inr exact ↦ grind (
    arith,
    fill_flat_neg (suc n) 0 (suc a / suc n) (suc a % suc n) s,
    div-add-mod (suc a) (suc n),
  )
]

abs_up : (r : ℕ) → abs (pos r) ≡ pos r
unfolding abs
abs_up r = ground arith

abs_down : (r : ℕ) → r < 2 ^ 63 → abs (sub_ℕ 0 r) ≡ pos r
unfolding abs neg wrap
abs_down r h = ground arith

step_up : (r : ℕ) → step_of (pos r) ≡ pos 1
unfolding step_of
step_up r = ground arith

step_down : (r : ℕ) → 0 < r → step_of (sub_ℕ 0 r) ≡ negsuc 0
unfolding step_of
step_down r h = ground arith

-- All the parts are `b` or `b + 1`, for one `b`.
abbrev pub NearlyEqual : List ℤ → Type 0
NearlyEqual ps = (b : ℤ) × All (λ p. (b ≤ℤ p) × (p ≤ℤ b +ℤ pos 1)) ps

-- What SplitEven promises of its parts.
abbrev pub IsSplitOf : ℤ → ℕ → List ℤ → Type 0
IsSplitOf m n ps = (length ps ≡ n) × (sum ps ≡ m) × NearlyEqual ps

fill-IsSplitOf :
    (a n : ℕ)
    → a < 2 ^ 63
    → IsSplitOf (pos a) (suc n) (fill (suc n) 0 (pos (a / suc n)) (pos (a % suc n)) (pos 1))
fill-IsSplitOf a n h = (
  length-fill (suc n) 0 _ _ _,
  fill_parts a n h,
  (
    pos (a / suc n),
    fill-All (λ p. (pos (a / suc n) ≤ℤ p) × (p ≤ℤ pos (a / suc n) +ℤ pos 1)) (suc n) 0 (a % suc n) _
        _ (omega int_laws)
        (λ left. rw (add_one (a / suc n) (omega (arith, quotient_room a n left))) (omega int_laws)),
  ),
)

fill_down-IsSplitOf :
    (a n : ℕ) (s : ℤ)
    → suc a ≤ 2 ^ 63
    → (0 < suc a % suc n → s ≡ negsuc 0)
    → IsSplitOf
        (negsuc a)
        (suc n)
        (fill (suc n) 0 (sub_ℕ 0 (suc a / suc n)) (pos (suc a % suc n)) s)
fill_down-IsSplitOf a n s h hs = (
  length-fill (suc n) 0 _ _ _,
  fill_parts_neg a n s h hs,
  elim (Bool-cases (ltb 0 (suc a % suc n))) [
    | inl left ↦ (
      negsuc (suc a / suc n),
      fill-All (λ p. (negsuc (suc a / suc n) ≤ℤ p) × (p ≤ℤ negsuc (suc a / suc n) +ℤ pos 1)) (suc n)
          0 (suc a % suc n) _ _ (grind int_laws)
          (λ left.
            rw (hs left, sub_one (suc a / suc n) (omega (arith, quotient_room (suc a) n left)))
              (omega int_laws)),
    )
    | inr exact ↦ (
      sub_ℕ 0 (suc a / suc n),
      fill-All (λ p. (sub_ℕ 0 (suc a / suc n) ≤ℤ p) × (p ≤ℤ sub_ℕ 0 (suc a / suc n) +ℤ pos 1))
          (suc n) 0 (suc a % suc n) _ _ (omega int_laws) (λ left. absurd (ground arith)),
    )
  ],
)

-- For every int64 amount and every n with 0 < n < 2^63, SplitEven returns n parts whose exact sum is
-- the amount and which are all `b` or `b + 1` for one `b`.
pub split_even-IsSplitOf :
    (m : ℤ) (n : ℕ)
    → IsInt64 m
    → 0 < n
    → n < 2 ^ 63
    → (ps : List ℤ) × (split_even m (pos n) ≡ some ps) × IsSplitOf m n ps
unfolding split_even quo rem
split_even-IsSplitOf (pos a) zero h k l = absurd (omega arith)
split_even-IsSplitOf (negsuc a) zero h k l = absurd (omega arith)
split_even-IsSplitOf (pos a) (suc n) h k l = (
  fill (suc n) 0 (pos (a / suc n)) (pos (a % suc n)) (pos 1),
  rw (abs_up (a % suc n), step_up (a % suc n)),
  fill-IsSplitOf a n h.0,
)
split_even-IsSplitOf (negsuc a) (suc n) h k l = (
  fill (suc n) 0 (sub_ℕ 0 (suc a / suc n)) (pos (suc a % suc n))
      (step_of (sub_ℕ 0 (suc a % suc n))),
  rw (abs_down (suc a % suc n) (grind arith)),
  fill_down-IsSplitOf a n _ h.1 (step_down (suc a % suc n)),
)
