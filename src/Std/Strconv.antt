-- ===== src/Std/Strconv.antt =====
-- strconv: decimal printing of unsigned numbers and ParseInt at base 10, 64 bits.
use ynab_go.Base.{
  ℕ, zero, suc, ◌+◌, ◌-◌, ◌*◌, ◌/◌, ◌%◌, ◌^◌, ◌≤◌, ◌<◌, ◌≡◌, Bool, true, false, ◌&&◌, Option, none,
  some, [], ◌∷◌, ◌++◌, arith, Bytes, ◌==◌, ltb, leb, if◌then◌else◌, All, All-append, length,
  replicate, Bool-cases, inl, inr,
}
use ynab_go.Base.Int.{ℤ, pos, negsuc, neg}

-- One digit for each round of the fuel; a number is a bound on how many digits it has.
digits_within : ℕ → ℕ → Bytes
digits_within zero n = []
digits_within (suc f) n =
    let rest = digits_within f (n / 10) in
    if ltb n 10 then (b'0' + n) ∷ [] else rest ++ (b'0' + n % 10) ∷ []

-- strconv.FormatUint(n, 10).
unfoldable pub format_uint : ℕ → Bytes
unfolding digits_within
format_uint n = digits_within (suc n) n

-- strconv.FormatInt(n, 10).
unfoldable pub format_int : ℤ → Bytes
format_int (pos n) = format_uint n
format_int (negsuc n) = b'-' ∷ format_uint (suc n)

-- fmt's %0wd for a number that is not negative.
unfoldable pub pad : ℕ → ℕ → Bytes
pad width n = replicate (width - length (format_uint n)) b'0' ++ format_uint n

-- Only digits; the value is exact, the caller tests the range.
unfoldable pub value_from : ℕ → Bytes → Option ℕ
value_from acc [] = some acc
value_from acc (c ∷ s) =
    let rest = value_from (acc * 10 + (c - b'0')) s in
    if leb b'0' c && leb c b'9' then rest else none

-- ParseInt behind the sign.
unfoldable pub parse_digits : Bytes → Option ℕ
parse_digits [] = none
parse_digits (c ∷ s) = value_from 0 (c ∷ s)

unfoldable pub in_range : Bool → ℕ → Option ℤ
in_range true v = if leb v (2 ^ 63) then some (neg (pos v)) else none
in_range false v = if ltb v (2 ^ 63) then some (pos v) else none

unfoldable pub signed : Bool → Option ℕ → Option ℤ
unfolding in_range
signed negative none = none
signed negative (some v) = in_range negative v

-- strconv.ParseInt(s, 10, 64); `none` is a syntax or range error.
unfoldable pub parse_int : Bytes → Option ℤ
unfolding parse_digits signed value_from
parse_int [] = none
parse_int (c ∷ s) =
    if c == b'-'
    then signed true (parse_digits s)
    else if c == b'+'
    then signed false (parse_digits s)
    else signed false (parse_digits (c ∷ s))

-- More fuel than the number changes nothing.
digits_within_eq : (f g n : ℕ) → n < f → n < g → digits_within f n ≡ digits_within g n
unfolding digits_within
digits_within_eq zero g n h k = absurd (omega arith)
digits_within_eq (suc f) zero n h k = absurd (omega arith)
digits_within_eq (suc f) (suc g) n h k = ground (arith, digits_within_eq f g (n / 10))

pub format_uint_step :
    (n : ℕ)
    → format_uint n
      ≡ (if ltb n 10 then (b'0' + n) ∷ [] else format_uint (n / 10) ++ (b'0' + n % 10) ∷ [])
unfolding format_uint
format_uint_step n = ground (arith, digits_within_eq n (suc (n / 10)) (n / 10))

abbrev pub IsDigit : ℕ → Type 0
IsDigit c = (b'0' ≤ c) × (c ≤ b'9')

digits_within-IsDigit : (f n : ℕ) → All IsDigit (digits_within f n)
unfolding digits_within
digits_within-IsDigit zero n = tt
digits_within-IsDigit (suc f) n = elim (Bool-cases (ltb n 10)) [
  | inl small ↦ rw small (ground arith)
  | inr large ↦ rw large (All-append IsDigit _ _ (digits_within-IsDigit f (n / 10)) (ground arith))
]

pub format_uint-IsDigit : (n : ℕ) → All IsDigit (format_uint n)
unfolding format_uint
format_uint-IsDigit n = digits_within-IsDigit (suc n) n

pub value_from-append :
    (s t : Bytes) (acc v : ℕ) → value_from acc s ≡ some v → value_from acc (s ++ t) ≡ value_from v t
unfolding value_from
value_from-append [] t acc v h = ground arith
value_from-append (c ∷ s) t acc v h =
    ground (arith, value_from-append s t (acc * 10 + (c - b'0')) v)

value_from-within : (f n : ℕ) → n < f → value_from 0 (digits_within f n) ≡ some n
unfolding digits_within
value_from-within zero n h = absurd (omega arith)
value_from-within (suc f) n h = elim (Bool-cases (ltb n 10)) [
  | inl small ↦ rw small (unfold value_from in ground arith)
  | inr large ↦ rw large (
      rw (value_from-append _ _ 0 (n / 10) (value_from-within f (n / 10) (ground arith)))
        (unfold value_from in ground arith))
]

-- A printed number is read back.
pub value_from-format_uint : (n : ℕ) → value_from 0 (format_uint n) ≡ some n
unfolding format_uint
value_from-format_uint n = value_from-within (suc n) n (omega arith)
