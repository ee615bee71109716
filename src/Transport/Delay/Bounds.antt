-- ===== src/Transport/Delay/Bounds.antt =====
-- Bounds of the waits between attempts.
use native.Mathlib.Nat.{le-div_iff_mul-le, one-le-pow, pow-le-pow_right}
use ynab_go.Base.{
  ℕ, ◌-◌, ◌*◌, ◌/◌, ◌^◌, ◌≤◌, ◌<◌, ◌≡◌, ◌⊎◌, refl, Option, none, some, arith, Bytes, ltb, leb,
  Bool-cases, inl, inr, is_nil, min, leb→le,
}
use ynab_go.Base.Int.{ℤ, pos, negsuc, pos_part, ◌+ℤ◌, ◌-ℤ◌, ◌*ℤ◌, ◌≤ℤ◌, ◌<ℤ◌}
use ynab_go.Base.Word.{wrap, wrap_id}
use ynab_go.Transport.{Duration, max_int64, Clock, RetryConfig, Response}
use ynab_go.Transport.Delay.{
  date_delay, seconds_delay, retry_after_delay, retry_after_cap, shift_left, doubled, backoff_upper,
  backoff, jittered, retry_delay,
}

-- A wait that is not negative and fits int64.
abbrev pub IsWait : Duration → Type 0
IsWait d = (pos 0 ≤ℤ d) × (d ≤ℤ pos max_int64)

seconds_delay-IsWait :
    (o : Option ℤ) (date : Duration) → IsWait date → IsWait (seconds_delay o date)
unfolding seconds_delay wrap ◌*ℤ◌
seconds_delay-IsWait none date h = h
seconds_delay-IsWait (some (pos n)) date h = ground arith
seconds_delay-IsWait (some (negsuc n)) date h = ground arith

date_delay-IsWait : (now : ℤ) (o : Option ℤ) → IsWait (date_delay now o)
unfolding date_delay
date_delay-IsWait now none = omega arith
date_delay-IsWait now (some t) = ground arith

-- Whatever the header and the clock, RetryAfterDelay answers a wait of at least 0 and at most the
-- largest int64.
pub retry_after_delay-IsWait : (clock : Clock) (v : Bytes) → IsWait (retry_after_delay clock v)
unfolding retry_after_delay
retry_after_delay-IsWait clock v = elim (Bool-cases (is_nil v)) [
  | inl empty ↦ rw empty (omega arith)
  | inr given ↦ rw given (seconds_delay-IsWait _ _ (date_delay-IsWait _ _))
]

-- The product of a float in [0, 1) with a span, truncated.
abbrev pub IsJitter : (Duration → Duration) → Type 0
IsJitter jitter = (span : Duration) → pos 1 ≤ℤ span → (pos 0 ≤ℤ jitter span) × (jitter span <ℤ span)

shift_left_exact : (a i : ℕ) → a * 2 ^ i ≤ max_int64 → shift_left (pos a) i ≡ pos (a * 2 ^ i)
unfolding shift_left ◌*ℤ◌
shift_left_exact a i h = ground (arith, wrap_id (pos (a * 2 ^ i)))

product_large : (a b p : ℕ) → 1 ≤ a → b < p → b < a * p
product_large a b p h k = grind arith

-- The doubling test is exact: the result is min(MaxBackoff, MinBackoff * 2^i), and no shift
-- overflows.
pub doubled_lem :
    (a b i : ℕ) → 1 ≤ a → b ≤ max_int64 → doubled (pos a) (pos b) i ≡ pos (min b (a * 2 ^ i))
unfolding doubled
doubled_lem a b i h k = elim (Bool-cases (ltb i 63)) [
  | inl near ↦ elim (Bool-cases (leb a (b / 2 ^ i))) [
    | inl fits ↦
        let le : a * 2 ^ i ≤ b =
          (le-div_iff_mul-le (one-le-pow i 2 (omega arith))).0 (leb→le _ _ fits) in
        ground (arith, shift_left_exact a i)
    | inr beyond ↦
        let no : ¬ (a * 2 ^ i ≤ b) =
          λ le. absurd (ground (arith, (le-div_iff_mul-le (one-le-pow i 2 (omega arith))).1 le)) in
        ground arith
  ]
  | inr far ↦
      let large : 2 ^ 63 ≤ 2 ^ i = pow-le-pow_right (omega arith) {i = 63} (ground arith) in
      let beyond : b < a * 2 ^ i = product_large a b (2 ^ i) h (omega arith) in ground arith
]

jittered_bounds :
    (jitter : Duration → Duration) (a u : ℕ)
    → a ≤ max_int64
    → u ≤ max_int64
    → IsJitter jitter
    → (w : ℤ) → jittered jitter (pos a) (pos u) ≡ w
    → (w ≡ pos (pos_part w))
      × (a ≤ pos_part w)
      × (a < u → pos_part w < u)
      × (u ≤ a → pos_part w ≡ a)
unfolding jittered wrap ◌+ℤ◌ ◌-ℤ◌
jittered_bounds jitter a u h k j w e = elim (Bool-cases (leb u a)) [
  | inl none_left ↦ ground arith
  | inr room ↦ ground (arith, j (pos (u - a)))
]

pub backoff_bounds :
    (r : RetryConfig) (jitter : Duration → Duration) (a b i : ℕ)
    → r.min_backoff ≡ pos a
    → r.max_backoff ≡ pos b
    → 1 ≤ a
    → a ≤ b
    → b ≤ max_int64
    → IsJitter jitter
    → let upper = min b (a * 2 ^ i) in
      let d = backoff r jitter i in
      (d ≡ pos (pos_part d))
      × (a ≤ pos_part d)
      × (a < upper → pos_part d < upper)
      × (upper ≤ a → pos_part d ≡ a)
unfolding backoff backoff_upper
backoff_bounds r jitter a b i ea eb h k l j =
    jittered_bounds jitter a (min b (a * 2 ^ i)) (omega arith) (omega arith) j _
      (simp (ea, eb, doubled_lem a b i h l))

-- The jittered wait before retry i lies in [MinBackoff, min(MaxBackoff, MinBackoff * 2^i)), and is
-- exactly MinBackoff where that interval is empty, if 0 < MinBackoff <= MaxBackoff within int64 and
-- the jitter stays below its span.
pub backoff_range :
    (r : RetryConfig) (jitter : Duration → Duration) (a b i : ℕ)
    → r.min_backoff ≡ pos a
    → r.max_backoff ≡ pos b
    → 1 ≤ a
    → a ≤ b
    → b ≤ max_int64
    → IsJitter jitter
    → let upper = min b (a * 2 ^ i) in
      let d = backoff r jitter i in
      ((a < upper) × ((pos a ≤ℤ d) × (d <ℤ pos upper))) ⊎ ((upper ≤ a) × (d ≡ pos a))
backoff_range r jitter a b i ea eb h k l j =
    let u = backoff_bounds r jitter a b i ea eb h k l j in
    elim (Bool-cases (leb (min b (a * 2 ^ i)) a)) [
      | inl narrow ↦ inr (ground arith)
      | inr room ↦ inl (ground arith)
    ]

backoff_window :
    (r : RetryConfig) (jitter : Duration → Duration) (i : ℕ) (x y : ℤ)
    → r.min_backoff ≡ x
    → r.max_backoff ≡ y
    → pos 1 ≤ℤ x
    → x ≤ℤ y
    → y ≤ℤ pos max_int64
    → IsJitter jitter
    → (pos 1 ≤ℤ backoff r jitter i) × (backoff r jitter i ≤ℤ y)
backoff_window r jitter i (pos a) (pos b) ea eb h k l j =
    ground (arith, backoff_bounds r jitter a b i ea eb (omega arith) (omega arith) (omega arith) j)
backoff_window r jitter i (negsuc a) y ea eb h k l j = absurd (omega arith)
backoff_window r jitter i (pos a) (negsuc b) ea eb h k l j = absurd (omega arith)

-- Every wait before a retry is positive and at most the larger of MaxBackoff and a minute.
pub retry_delay-bounds :
    (r : RetryConfig) (clock : Clock) (jitter : Duration → Duration) (i : ℕ) (last : Response)
    → pos 1 ≤ℤ r.min_backoff
    → r.min_backoff ≤ℤ r.max_backoff
    → r.max_backoff ≤ℤ pos max_int64
    → IsJitter jitter
    → let d = retry_delay r clock jitter i last in (pos 1 ≤ℤ d) × (d ≤ℤ retry_after_cap r)
unfolding retry_delay
retry_delay-bounds r clock jitter i last h k l j =
    ground (arith, backoff_window r jitter i r.min_backoff r.max_backoff refl refl h k l j)
